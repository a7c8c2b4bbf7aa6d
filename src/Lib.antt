-- ===== src/Lib.antt =====
-- Verification of the transcode runners: the live runner's session store, event delivery and
-- runtime (live-runner), the batch runner's contract and workload journal (abr-runner), the VOD
-- runner (transcode-runner), and the encoding library they share, with its admission to the GPU
-- (transcode-core).
--
-- The live runner keeps one encrypted file for each session. Each operation of the store takes the
-- store's lock, loads and checks the record, computes, and saves it or returns an error; so the
-- operations of one session form a sequence. The batch runner keeps one journal for each workload
-- in the same way. What the runners are paid is in these files: whole seconds of output, and
-- megapixels of encoded frames.
--
-- Files and code:
--   Prelude: tests, lists, texts as lists of bytes, and Go's (value, error) results.
--   Contract: live-runner/contract.go. Types has the wire types, Ident the identities and finite
--     codes, World what comes from other packages, Request the validation of requests and
--     responses, Details the search of event details for credentials, Event the validation of
--     events, the cursor (EventCursorV1.Accept is accept) and the metered timeline; EventId has
--     the lemmas on event identities.
--   Session: live-runner/store.go on one loaded record. Record is SessionRecordV1; Output has
--     metering, heartbeats and publisher presence, Health the absent publisher, ladder restarts and
--     stalls, Lifecycle Advance and the beginning and end of a termination (with
--     live-runner/recovery.go: FinalizeLiveTerminationV1), Callback the outbox and the retry policy
--     (with live-runner/callback.go), Delivery DeliverNext and SweepOnce for one session, Keys the
--     stream keys, Create the creation of a session and its fence (with
--     live-runner/create_recovery.go), Check validateSessionRecordV1, which runs at each load.
--     Operations makes the operations that save the record of a session that exists one step, and
--     histories of steps. Outbox and Invariant have the invariant of records, Safe its lemmas for
--     each operation, and Laws the other theorems and the abstract mailbox of an outbox.
--   Abr: abr-runner/contract_v2.go (Types, Contract) and abr-runner/workload_store_v2.go (Journal,
--     Check); Billing, Terminal, Safe and Runs have the theorems.
--   Playlist: live-runner/metering.go. Parse has ParseFinalizedHLSSegmentsV1, on the lines that
--     bufio.Scanner gives, and parseHLSMicrosecondsV1; Segments says what the parser returns.
--   Admission: transcode-core/gpu_admission.go. Flock has the file locks, Gate NewGPUAdmissionGate,
--     Acquire as a sequence of system calls, and Close; Exclusion has histories of many calls and
--     what holds of each host, Reach and Apart prove it, and Outcome says what a call returns.
--   Encoding: transcode-core. Hardware has the GPU's profile and the choice of encoders (gpu.go,
--     presets.go), Presets the presets and those that the GPU can run (presets.go, abr_presets.go),
--     Arguments, Filters, Graphs and Commands the arguments of every ffmpeg command (ffmpeg.go,
--     filters.go, hls.go, live.go, thumbnail.go), Usable their theorems.
--   Runtime: live-runner/runtime.go. Ladder has the exits of a ladder and the pause before a restart,
--     Coordinator the validation of profiles, the slots and the table of sessions, Finish the end
--     of a session (with CompleteLiveTerminationV1 of live-runner/recovery.go); Slots, Launch and
--     Ends have the theorems.
--   Vod: transcode-runner/vod_v2.go. Journal has the store of journals and the bill, Request the
--     validation of a request and the admission of its run, Execute the execution; Ends has the
--     theorems.
--   Media: live-runner/media.go. Path has the paths of MediaMTX and the private stream keys,
--     Authorize MediaMTXAuthorizerV1.Authorize; Texts, Exact and Keys have the theorems. Asset has
--     the paths of live-runner/hls.go.
--   Tests: concrete sessions, workloads, hosts, presets and runtimes.
--
-- How state is modelled: an operation is a function from the loaded record and its arguments to an
-- error, or to a Change: nothing is saved, or a record is handed to saveLocked. The file operations
-- of saveLocked and loadLocked, the lock, the MAC, AES-GCM and the JSON coding are not modelled; a
-- failed save leaves the old record, as a refused call does. In CreateOrReplay and RecordKeyIssue
-- the encryption is an argument; in a history, so are the secrets that the load decrypts. In a run of
-- the VOD runner each call of its journal's store has an answer of its own, which may be an error; a
-- load that fails leaves the empty journal.
--
-- Numbers: uint32 and uint64 fields are naturals, with the wrap-around or the overflow check of the
-- source written out. A time is the number of nanoseconds since Go's zero time, so 0 is the zero
-- time; a duration that is not positive is 0. A time stamp is empty, a text that does not parse, or
-- an instant; all stamps the store writes are instants. Texts are lists of bytes, and ToLower and
-- TrimSpace are those of ASCII. strconv.FormatUint is given 20 digits, enough below 10 ^ 20. The
-- encoded size of an instant counts as 32 bytes. Go maps are association lists; where the source
-- visits a map in any order, the model visits the list in order.
--
-- Parameters: net/url.Parse, SHA-256 (whose hexadecimal digest is 64 lowercase hexadecimal
-- digits), the lines of bufio.Scanner, the canonical JSON texts that are fingerprinted, and
-- path/filepath's Clean, IsAbs and Base, path.Clean, path.Base, url.QueryEscape and
-- url.ParseQuery, HMAC, the answers of the HTTP client that posts events, the clock, and what the
-- files, the network, ffprobe and ffmpeg answer to a VOD run.
--
-- A width, a height or another Go int of a preset is an integer. The texts that Go formats from a
-- floating-point number (%.2f, %.3f) are arguments, and empty where the number is not positive.
--
-- Not modelled: the HTTP handlers, the configuration of MediaMTX, the detection of GPUs, ffprobe's
-- output, the polling of playlists and their rewriting, the goroutines of a running ladder but for
-- what they hold and give back, the process supervisor, the VOD runner's HTTP handler, and
-- configuration.
pub mod Prelude
pub mod Contract
pub mod Session
pub mod Abr
pub mod Playlist
pub mod Admission
pub mod Encoding
pub mod Runtime
pub mod Vod
pub mod Media
pub mod Tests
