-- ===== src/Vod/Execute.antt =====
-- transcode-runner/vod_v2.go: the execution of a workload, on what its environment answers.
use livepeer_modules_transco.Prelude.{
  ℕ, Bool, true, false, not, ◌&&◌, Option, none, some, List, [], ◌∷◌, if◌then◌else◌, Bytes, codes,
  str_eq, is_empty, contains, length, Error, invalid, Result, ok, err, ◌>>=◌, ◌>>◌, reject,
}
use livepeer_modules_transco.Abr.Types.{Float64, dyadic}
use livepeer_modules_transco.Abr.Contract.{work_unit}
use livepeer_modules_transco.Vod.Journal.{
  VodVideo, VodResult, VodError, VodData, result_data, error_data, VodState, succeeded, failed,
  VodJournal, vod_progress, vod_prepared, vod_delivered, vod_terminal, vod_units, vod_result_schema,
}
use livepeer_modules_transco.Vod.Request.{VodRequest}

-- What the encoding leaves: the path under the state directory, the file's digest and size, and the
-- exact count of its frames.
pub record VodEncoded : Type 0 where
  pub path : Bytes
  pub hash : Bytes
  pub video : VodVideo
  pub size : ℕ

-- The calls of the journal's store in one run. Each loads the journal's file, and most save it.
pub data StoreCall : Type 0 where
  downloading_progress probing_progress encoding_progress uploading_progress : StoreCall
  -- The `n`th report of the encoder from the end.
  reported_progress : ℕ → StoreCall
  loads_probed saves_prepared reloads_prepared saves_delivered saves_terminal : StoreCall

-- What the files, the network, ffprobe and ffmpeg answer in one run: whether the file operations of
-- each call of the store succeed, whether the input is there, the download and the digest of what it
-- stored, the rename, the probe, the progress reports and the result of the encoding, the digest of a
-- file and filepath.IsAbs, and the upload.
pub record VodEnvironment : Type 0 where
  pub store : StoreCall → Result (Unit {0})
  pub input_present : Bool
  pub download : Result (Unit {0})
  pub input_hash : Bytes
  pub store_input : Result (Unit {0})
  pub probe : Result (Unit {0})
  pub reports : List (Float64 × ℕ)
  pub encode : Result VodEncoded
  pub file_hash : Bytes → Option Bytes
  pub is_abs : Bytes → Bool
  pub upload : Result (Unit {0})

-- How a part of a run ends: with a value, with an error, or with a panic.
pub data Outcome (A : Type 0) : Type 0 where
  done : A → Outcome A
  gave_up : Error → Outcome A
  panicked : Outcome A

-- A step of a run: the journal it leaves on disk, and its outcome.
abbrev pub Step : Type 0 → Type 0
Step A = VodJournal × Outcome A

abbrev pub outcome_of : {A : Type 0} → Result A → Outcome A
outcome_of (ok a) = done a
outcome_of (err e) = gave_up e

unfoldable pub chain : {A B : Type 0} → Step A → (VodJournal → A → Step B) → Step B
chain (j, done a) next = next j a
chain (j, gave_up e) next = (j, gave_up e)
chain (j, panicked) next = (j, panicked)

-- `_ = s.store.progress(...)`, on the answer of its file operations.
unfoldable pub try_progress : Result (Unit {0}) → VodJournal → Bytes → Float64 → ℕ → VodJournal
unfolding vod_progress
try_progress (err failed_io) j phase percent frames = j
try_progress (ok done_io) j phase percent frames = elim (vod_progress j phase percent frames) [
  | ok j' ↦ j'
  | err e ↦ j
]

unfoldable pub report_progress : VodEnvironment → VodJournal → List (Float64 × ℕ) → VodJournal
unfolding try_progress
report_progress env j [] = j
report_progress env j ((percent, frames) ∷ reports) =
    report_progress env
      (try_progress (env.store (reported_progress (length reports))) j (codes "encoding") percent
        frames)
      reports

abbrev pub has_vod_video : Option VodVideo → Bool
has_vod_video none = false
has_vod_video (some v) = true

-- vodPreparedValidV2.
unfoldable pub prepared_valid : VodEnvironment → VodJournal → Bool
unfolding is_empty contains str_eq
prepared_valid env j =
    not (is_empty j.prepared_path)
    && (not (env.is_abs j.prepared_path)
        && (not (contains j.prepared_path (codes ".."))
            && (not (is_empty j.prepared_hash)
                && (has_vod_video j.video && elim (env.file_hash j.prepared_path) [
                  | none ↦ false
                  | some h ↦ str_eq h j.prepared_hash
                ]))))

unfoldable pub fetch_input : VodEnvironment → VodRequest → VodJournal → Step (Unit {0})
unfolding try_progress is_empty str_eq
fetch_input env req j = if env.input_present then (j, done tt) else (
  try_progress (env.store downloading_progress) j (codes "downloading") (dyadic 0 0) 0,
  outcome_of (do
    env.download
    reject
        (not (is_empty req.input.content_sha256)
          && not (str_eq env.input_hash req.input.content_sha256))
        (invalid "input hash mismatch")
    env.store_input),
)

-- The probe, and the load of the journal after it.
unfoldable pub probe_input : VodEnvironment → VodJournal → Step (Unit {0})
unfolding try_progress
probe_input env j = (
  try_progress (env.store probing_progress) j (codes "probing") (dyadic 5 0) 0,
  outcome_of (do env.probe; env.store loads_probed),
)

-- The value is the answer of the reload, whose error the source drops: a load that fails leaves an
-- empty copy of the journal.
unfoldable pub store_encoded :
    VodEnvironment → VodJournal → Result VodEncoded → Step (Result (Unit {0}))
unfolding vod_prepared
store_encoded env j (err e) = (j, gave_up e)
store_encoded env j (ok x) =
    elim (env.store saves_prepared >> vod_prepared j x.path x.hash (some x.video) x.size) [
      | ok j' ↦ (j', done (env.store reloads_prepared))
      | err e ↦ (j, gave_up e)
    ]

unfoldable pub encode_output : VodEnvironment → VodJournal → Step (Result (Unit {0}))
unfolding prepared_valid try_progress report_progress store_encoded
encode_output env j =
    if prepared_valid env j
    then (j, done (ok tt))
    else store_encoded env
        (report_progress env
          (try_progress (env.store encoding_progress) j (codes "encoding") (dyadic 10 0) 0)
          env.reports)
        env.encode

unfoldable pub mark_delivered : VodJournal → Result (Unit {0}) → Step (Unit {0})
unfolding vod_delivered
mark_delivered j (err e) = (j, gave_up e)
mark_delivered j (ok done_io) = (vod_delivered j, done tt)

unfoldable pub upload_output : VodEnvironment → VodJournal → Result (Unit {0}) → Step (Unit {0})
unfolding mark_delivered
upload_output env j (err e) = (j, gave_up e)
upload_output env j (ok sent) = mark_delivered j (env.store saves_delivered)

-- `j.Video.ActualFrames` panics where there is no video.
unfoldable pub upload_video : VodEnvironment → VodJournal → Option VodVideo → Step (Unit {0})
unfolding try_progress upload_output
upload_video env j none = (j, panicked)
upload_video env j (some v) =
    upload_output env
      (try_progress (env.store uploading_progress) j (codes "uploading") (dyadic 95 0)
        v.actual_frames)
      env.upload

-- The delivery, on the answer of the reload: an empty copy is not delivered and has no video.
unfoldable pub deliver_output : VodEnvironment → Result (Unit {0}) → VodJournal → Step (Unit {0})
unfolding upload_video
deliver_output env (err e) j = upload_video env j none
deliver_output env (ok reloaded) j =
    if j.delivered then (j, done tt) else upload_video env j j.video

-- The digest is the journal's: ServeHTTP starts a run only on a journal with the request's digest.
unfoldable pub vod_result : VodRequest → VodJournal → ℕ → VodResult
vod_result req j units = record {
  schema = vod_result_schema;
  workload_id = req.workload_id;
  request_sha256 = j.request_sha256;
  outcome = codes "succeeded";
  name = req.rendition.name;
  stream_uri = req.stream.artifact_uri;
  video = j.video;
  file_size_bytes = j.file_size_bytes;
  usage = record { unit = work_unit; units = units };
}

unfoldable pub bill_output : VodRequest → VodJournal → Step VodResult
unfolding vod_units vod_result
bill_output req j = (j, outcome_of (do units ← vod_units j.video; ok (vod_result req j units)))

-- doExecute.
unfoldable pub do_execute : VodEnvironment → VodRequest → VodJournal → Step VodResult
unfolding fetch_input probe_input encode_output deliver_output bill_output chain
do_execute env req j = chain (fetch_input env req j) λ j1 fetched.
    chain (probe_input env j1) λ j2 probed.
      chain (encode_output env j2)
        λ j3 reloaded. chain (deliver_output env reloaded j3) λ j4 delivered_now. bill_output req j4

unfoldable pub vod_error : VodRequest → VodJournal → VodError
vod_error req j = record {
  schema = vod_result_schema;
  workload_id = req.workload_id;
  request_sha256 = j.request_sha256;
  outcome = codes "failed";
  code = codes "execution_failed";
  message = codes "VOD execution failed";
  retryable = true;
  usage = record { unit = work_unit; units = 0 };
}

-- `_ = s.store.terminal(...)`, on the answer of its file operations.
unfoldable pub try_terminal :
    Result (Unit {0}) → VodJournal → VodState → Bytes → VodData → VodJournal
unfolding vod_terminal
try_terminal (err failed_io) j state name value = j
try_terminal (ok done_io) j state name value = elim (vod_terminal j state name value) [
  | ok j' ↦ j'
  | err e ↦ j
]

-- A panic ends the process, and leaves the journal as it is.
unfoldable pub end_run : VodEnvironment → VodRequest → Step VodResult → VodJournal
unfolding try_terminal vod_error
end_run env req (j, done result) =
    try_terminal (env.store saves_terminal) j succeeded (codes "result") (result_data result)
end_run env req (j, gave_up e) =
    try_terminal (env.store saves_terminal) j failed (codes "error") (error_data (vod_error req j))
end_run env req (j, panicked) = j

-- execute, but for the release of the run: the journal that it leaves on disk.
unfoldable pub execute : VodEnvironment → VodRequest → VodJournal → VodJournal
unfolding do_execute end_run
execute env req j = end_run env req (do_execute env req j)
