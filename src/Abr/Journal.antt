-- ===== src/Abr/Journal.antt =====
-- abr-runner/workload_store_v2.go: the journal of a workload, its checkpoints and its end.
use livepeer_modules_transco.Prelude.{
  ℕ, ◌+◌, ◌-◌, ◌%◌, Bool, true, false, not, ◌&&◌, ◌||◌, Option, none, some, List, [], ◌∷◌, ◌++◌,
  map, ◌==◌, if◌then◌else◌, length, drop, Bytes, codes, str_eq, is_empty, has_prefix, not_exist,
  invalid, Result, ok, err, ◌>>=◌, ◌>>◌, reject,
}
use livepeer_modules_transco.Contract.Ident.{opaque_id, work_id}
use livepeer_modules_transco.Contract.Event.{u64_limit}
use livepeer_modules_transco.Abr.Types.{
  Host, Float64, Progress, DeliveredVideo, RenditionResult, TerminalResult, TerminalError,
  ReplayDisposition, resume_existing,
}
use livepeer_modules_transco.Abr.Contract.{
  validate_progress, validate_artifact_uri, validate_terminal_result, validate_terminal_error,
  calculate_units, bad_video, classify_replay,
}

pub data JournalState : Type 0 where
  in_progress succeeded failed : JournalState
  unknown_state : Bytes → JournalState

pub record PreparedRendition : Type 0 where
  pub name : Bytes
  pub playlist_path : Bytes
  pub stream_path : Bytes
  pub playlist_sha256 : Bytes
  pub stream_sha256 : Bytes
  pub video : Option DeliveredVideo
  pub file_size_bytes : ℕ  -- uint64

pub record PreparedArtifact : Type 0 where
  pub path : Bytes
  pub sha256 : Bytes

-- The value whose JSON an event carries.
pub data Payload : Type 0 where
  progress_payload : Progress → Payload
  result_payload : TerminalResult → Payload
  error_payload : TerminalError → Payload

pub record StoredEvent : Type 0 where
  pub sequence : ℕ  -- uint64
  pub event : Bytes
  pub data_value : Payload

-- The Go maps of checkpoints are lists of entries with different names.
pub record Journal : Type 0 where
  pub version : ℕ
  pub workload_id : Bytes
  pub request_sha256 : Bytes
  pub state : JournalState
  pub phase : Bytes
  pub next_sequence : ℕ  -- uint64
  pub prepared : List (Bytes × PreparedRendition)
  pub delivered : List (Bytes × RenditionResult)
  pub manifest_prepared : Option PreparedArtifact
  pub manifest_delivered_uri : Bytes
  pub progress_events : List StoredEvent
  pub terminal_event : Option StoredEvent

abbrev pub max_progress_events : ℕ
max_progress_events = 256

abbrev pub is_in_progress : JournalState → Bool
is_in_progress in_progress = true
is_in_progress _ = false

abbrev pub is_finished : JournalState → Bool
is_finished succeeded = true
is_finished failed = true
is_finished _ = false

unfoldable pub find_entry {ℓ} : {A : Type ℓ} → Bytes → List (Bytes × A) → Option A
unfolding str_eq
find_entry name [] = none
find_entry name ((key, a) ∷ entries) = if str_eq key name then some a else find_entry name entries

unfoldable pub put_entry {ℓ} : {A : Type ℓ} → Bytes → A → List (Bytes × A) → List (Bytes × A)
unfolding str_eq
put_entry name a [] = (name, a) ∷ []
put_entry name a ((key, old) ∷ entries) =
    if str_eq key name then (name, a) ∷ entries else (key, old) ∷ put_entry name a entries

unfoldable pub new_journal : Bytes → Bytes → Journal
new_journal workload_id request_sha256 = record {
  version = 1;
  workload_id = workload_id;
  request_sha256 = request_sha256;
  state = in_progress;
  phase = codes "accepted";
  next_sequence = 1;
  prepared = [];
  delivered = [];
  manifest_prepared = none;
  manifest_delivered_uri = [];
  progress_events = [];
  terminal_event = none;
}

-- LoadOrCreate after the load: the journal, and what the caller does with it.
unfoldable pub load_or_create :
    Bytes → Bytes → Result Journal → Result (Journal × ReplayDisposition)
unfolding new_journal classify_replay
load_or_create id sha (ok j) = do
  reject (not (opaque_id id) || not (work_id sha)) (invalid "invalid workload journal identity")
  ok (j, classify_replay j.request_sha256 sha (is_finished j.state))
load_or_create id sha (err not_exist) = do
  reject (not (opaque_id id) || not (work_id sha)) (invalid "invalid workload journal identity")
  ok (new_journal id sha, resume_existing)
load_or_create id sha (err e) = do
  reject (not (opaque_id id) || not (work_id sha)) (invalid "invalid workload journal identity")
  err e

unfoldable pub progress_of : Journal → Bytes → Float64 → Bytes → ℕ → Progress
progress_of j phase progress rendition frames = record {
  schema = codes "video-transcode-abr-progress/v2";
  workload_id = j.workload_id;
  request_sha256 = j.request_sha256;
  sequence = j.next_sequence;
  phase = phase;
  overall_progress = progress;
  rendition = rendition;
  frames = frames;
}

-- `append(events, event)`, and of a longer list than the limit its last 256.
unfoldable pub append_event : List StoredEvent → StoredEvent → List StoredEvent
append_event events event =
    drop (length (events ++ event ∷ []) - max_progress_events) (events ++ event ∷ [])

-- Each operation below returns the journal that it saves.
unfoldable pub append_progress : Journal → Bytes → Float64 → Bytes → ℕ → Result Journal
unfolding progress_of append_event
append_progress j phase progress rendition frames = do
  reject (not (is_in_progress j.state)) (invalid "cannot append progress to terminal workload")
  let value = progress_of j phase progress rendition frames
  validate_progress value
  let event : StoredEvent = record {
    sequence = j.next_sequence;
    event = codes "progress";
    data_value = progress_payload value;
  }
  ok (record j {
    next_sequence = (j.next_sequence + 1) % u64_limit;
    phase = phase;
    progress_events = append_event j.progress_events event;
  })

unfoldable pub safe_path : Host → Bytes → Bool
unfolding is_empty str_eq has_prefix
safe_path w path =
    not (is_empty path)
    && (str_eq path (w.clean path)
        && (not (w.is_abs path)
            && (not (str_eq (w.clean path) (codes ".."))
                && not (has_prefix (w.clean path) (codes "../")))))

unfoldable pub bad_prepared : Host → PreparedRendition → Bool
unfolding safe_path is_empty bad_video
bad_prepared w p =
    is_empty p.name
    || (is_empty p.playlist_path
        || (is_empty p.stream_path
            || (not (safe_path w p.playlist_path)
                || (not (safe_path w p.stream_path)
                    || (not (work_id p.playlist_sha256)
                        || (not (work_id p.stream_sha256) || bad_video p.video))))))

abbrev pub is_some {ℓ} : {A : Type ℓ} → Option A → Bool
is_some none = false
is_some (some a) = true

unfoldable pub save_prepared : Host → Journal → PreparedRendition → Result Journal
unfolding bad_prepared find_entry put_entry
save_prepared w j p = do
  reject (not (is_in_progress j.state) || bad_prepared w p)
      (invalid "invalid prepared rendition checkpoint")
  reject (is_some (find_entry p.name j.delivered))
      (invalid "cannot replace a delivered rendition checkpoint")
  ok (record j { prepared = put_entry p.name p j.prepared })

unfoldable pub same_video : Option DeliveredVideo → Option DeliveredVideo → Bool
same_video none none = true
same_video (some v) (some v') =
    v.actual_frames == v'.actual_frames && (v.width == v'.width && v.height == v'.height)
same_video _ _ = false

unfoldable pub prepared_matches_result : Bytes → ℕ → Option DeliveredVideo → RenditionResult → Bool
unfolding same_video str_eq
prepared_matches_result name size video r =
    str_eq name r.name && (size == r.file_size_bytes && same_video video r.video)

unfoldable pub results_equal : RenditionResult → RenditionResult → Bool
unfolding prepared_matches_result
results_equal l r =
    str_eq l.playlist_uri r.playlist_uri
    && (str_eq l.stream_uri r.stream_uri
        && prepared_matches_result l.name l.file_size_bytes l.video r)

unfoldable pub has_prepared : Option PreparedRendition → RenditionResult → Bool
unfolding prepared_matches_result
has_prepared none r = false
has_prepared (some p) r = prepared_matches_result p.name p.file_size_bytes p.video r

unfoldable pub save_delivered : Journal → RenditionResult → Result Journal
unfolding has_prepared find_entry put_entry
save_delivered j r = do
  reject (not (is_in_progress j.state)) (invalid "cannot deliver a rendition for terminal workload")
  reject (not (has_prepared (find_entry r.name j.prepared) r))
      (invalid "delivered rendition has no matching prepared checkpoint")
  validate_artifact_uri r.playlist_uri
  validate_artifact_uri r.stream_uri
  ok (record j { delivered = put_entry r.name r j.delivered })

unfoldable pub save_prepared_manifest : Host → Journal → PreparedArtifact → Result Journal
unfolding safe_path is_empty
save_prepared_manifest w j p = do
  reject
      (not (is_in_progress j.state)
        || (not (is_empty j.manifest_delivered_uri)
            || (not (safe_path w p.path) || not (work_id p.sha256))))
      (invalid "invalid prepared manifest checkpoint")
  ok (record j { manifest_prepared = some p })

unfoldable pub save_delivered_manifest : Journal → Bytes → Result Journal
save_delivered_manifest j uri = do
  reject (not (is_in_progress j.state) || not (is_some j.manifest_prepared))
      (invalid "manifest has no prepared checkpoint")
  validate_artifact_uri uri
  ok (record j { manifest_delivered_uri = uri })

-- The lines of recordTerminal after its checks.
unfoldable pub finish : Journal → JournalState → Bytes → Bytes → Payload → Journal
finish j state phase name payload = record j {
  next_sequence = (j.next_sequence + 1) % u64_limit;
  state = state;
  phase = phase;
  terminal_event = some (record { sequence = j.next_sequence; event = name; data_value = payload });
}

unfoldable pub has_checkpoint : Option RenditionResult → RenditionResult → Bool
unfolding results_equal
has_checkpoint none r = false
has_checkpoint (some checkpoint) r = results_equal checkpoint r

unfoldable pub check_checkpoints :
    List (Bytes × RenditionResult) → List RenditionResult → Result (Unit {0})
unfolding has_checkpoint find_entry
check_checkpoints delivered [] = ok tt
check_checkpoints delivered (r ∷ rs) = do
  reject (not (has_checkpoint (find_entry r.name delivered) r))
      (invalid "terminal result differs from delivered checkpoint")
  check_checkpoints delivered rs

unfoldable pub record_terminal_result : Journal → TerminalResult → Result Journal
unfolding check_checkpoints finish str_eq
record_terminal_result j v = do
  validate_terminal_result v
  reject (not (is_in_progress j.state)) (invalid "workload is already terminal")
  reject
      (not (str_eq v.workload_id j.workload_id) || not (str_eq v.request_sha256 j.request_sha256))
      (invalid "terminal result identity differs from workload journal")
  reject (not (str_eq v.manifest_uri j.manifest_delivered_uri))
      (invalid "terminal result differs from delivered manifest checkpoint")
  reject (not (length v.renditions == length j.delivered))
      (invalid "terminal result does not match delivered checkpoints")
  check_checkpoints j.delivered v.renditions
  ok (finish j succeeded (codes "succeeded") (codes "result") (result_payload v))

-- The source visits the checkpoints in the order of a map; the sum does not depend on it.
unfoldable pub record_terminal_error : Journal → TerminalError → Result Journal
unfolding finish str_eq
record_terminal_error j v = do
  validate_terminal_error v
  reject (not (is_in_progress j.state)) (invalid "workload is already terminal")
  reject
      (not (str_eq v.workload_id j.workload_id) || not (str_eq v.request_sha256 j.request_sha256))
      (invalid "terminal error identity differs from workload journal")
  units ← calculate_units (map (λ entry. entry.1) j.delivered)
  reject (not (v.usage.units == units))
      (invalid "terminal error usage differs from delivered checkpoints")
  ok (finish j failed (codes "failed") (codes "error") (error_payload v))
