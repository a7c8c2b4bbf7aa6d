-- ===== src/Vod/Journal.antt =====
-- transcode-runner/vod_v2.go: the journal of a workload, and the bill for a video.
use livepeer_modules_transco.Prelude.{
  ℕ, ◌+◌, ◌-◌, ◌/◌, ◌%◌, Bool, true, false, not, ◌||◌, Option, none, some, List, [], ◌∷◌, ◌++◌,
  ◌==◌, if◌then◌else◌, length, drop, Bytes, codes, str_eq, invalid, Result, ok, ◌>>=◌, ◌>>◌, reject,
}
use livepeer_modules_transco.Contract.Event.{u64_limit}
use livepeer_modules_transco.Abr.Types.{Float64}
use livepeer_modules_transco.Abr.Contract.{mul64}

pub record VodVideo : Type 0 where
  pub actual_frames : ℕ
  pub width : ℕ
  pub height : ℕ

pub record VodUsage : Type 0 where
  pub unit : Bytes
  pub units : ℕ

pub record VodProgress : Type 0 where
  pub schema : Bytes
  pub workload_id : Bytes
  pub request_sha256 : Bytes
  pub sequence : ℕ
  pub phase : Bytes
  pub overall_progress : Float64
  pub frames : ℕ

pub record VodResult : Type 0 where
  pub schema : Bytes
  pub workload_id : Bytes
  pub request_sha256 : Bytes
  pub outcome : Bytes
  pub name : Bytes
  pub stream_uri : Bytes
  pub video : Option VodVideo
  pub file_size_bytes : ℕ
  pub usage : VodUsage

pub record VodError : Type 0 where
  pub schema : Bytes
  pub workload_id : Bytes
  pub request_sha256 : Bytes
  pub outcome : Bytes
  pub code : Bytes
  pub message : Bytes
  pub retryable : Bool
  pub usage : VodUsage

-- The value that an event's JSON has.
pub data VodData : Type 0 where
  progress_data : VodProgress → VodData
  result_data : VodResult → VodData
  error_data : VodError → VodData

pub record VodEvent : Type 0 where
  pub sequence : ℕ
  pub event : Bytes
  pub data_value : VodData

pub data VodState : Type 0 where
  in_progress succeeded failed other_state : VodState

pub record VodJournal : Type 0 where
  pub version : ℕ
  pub workload_id : Bytes
  pub request_sha256 : Bytes
  pub state : VodState
  pub next_sequence : ℕ  -- uint64
  pub events : List VodEvent
  pub prepared_path : Bytes
  pub prepared_hash : Bytes
  pub video : Option VodVideo
  pub file_size_bytes : ℕ
  pub delivered : Bool

pub data Disposition : Type 0 where
  new_workload reuse terminal_workload resume : Disposition

abbrev pub vod_in_progress : VodState → Bool
vod_in_progress in_progress = true
vod_in_progress _ = false

unfoldable pub new_vod_journal : Bytes → Bytes → VodJournal
new_vod_journal id hash = record {
  version = 1;
  workload_id = id;
  request_sha256 = hash;
  state = in_progress;
  next_sequence = 1;
  events = [];
  prepared_path = [];
  prepared_hash = [];
  video = none;
  file_size_bytes = 0;
  delivered = false;
}

-- The check of loadLocked on a decoded journal.
unfoldable pub check_loaded : VodJournal → Bytes → Result VodJournal
unfolding str_eq
check_loaded j id = do
  reject (not (str_eq j.workload_id id) || not (j.version == 1))
      (invalid "invalid workload journal")
  ok j

-- loadOrCreate: `none` is a journal that does not exist.
unfoldable pub load_or_create_vod :
    Option VodJournal → Bytes → Bytes → Result (VodJournal × Disposition)
unfolding new_vod_journal check_loaded str_eq
load_or_create_vod none id hash = ok (new_vod_journal id hash, new_workload)
load_or_create_vod (some stored) id hash = do
  j ← check_loaded stored id
  ok (
      if not (str_eq j.request_sha256 hash)
      then (j, reuse)
      else if not (vod_in_progress j.state)
      then (j, terminal_workload)
      else (j, resume))

abbrev pub vod_progress_schema : Bytes
vod_progress_schema = codes "video-transcode-vod-progress/v2"

abbrev pub vod_result_schema : Bytes
vod_result_schema = codes "video-transcode-vod-result/v2"

-- makeVODEventV2 and the lines that append its event. The uint64 sequence wraps round.
abbrev pub with_event : VodJournal → Bytes → VodData → VodJournal
with_event j name value = record j {
  next_sequence = (j.next_sequence + 1) % u64_limit;
  events = j.events ++ record { sequence = j.next_sequence; event = name; data_value = value } ∷ [];
}

-- The last 256 events.
abbrev pub trim_events : VodJournal → VodJournal
trim_events j = record j { events = drop (length j.events - 256) j.events }

unfoldable pub progress_value : VodJournal → Bytes → Float64 → ℕ → VodData
progress_value j phase percent frames = progress_data (record {
  schema = vod_progress_schema;
  workload_id = j.workload_id;
  request_sha256 = j.request_sha256;
  sequence = j.next_sequence;
  phase = phase;
  overall_progress = percent;
  frames = frames;
})

unfoldable pub vod_progress : VodJournal → Bytes → Float64 → ℕ → Result VodJournal
unfolding progress_value
vod_progress j phase percent frames = do
  reject (not (vod_in_progress j.state)) (invalid "terminal workload")
  ok (trim_events (with_event j (codes "progress") (progress_value j phase percent frames)))

unfoldable pub vod_prepared : VodJournal → Bytes → Bytes → Option VodVideo → ℕ → Result VodJournal
vod_prepared j path hash video size = do
  reject (not (vod_in_progress j.state)) (invalid "terminal workload")
  ok (record j {
    prepared_path = path;
    prepared_hash = hash;
    video = video;
    file_size_bytes = size;
  })

unfoldable pub vod_delivered : VodJournal → VodJournal
vod_delivered j = record j { delivered = true }

unfoldable pub vod_terminal : VodJournal → VodState → Bytes → VodData → Result VodJournal
vod_terminal j state name value = do
  reject (not (vod_in_progress j.state)) (invalid "terminal workload")
  ok (record (with_event j name value) { state = state })

-- vodUnitsV2.
unfoldable pub vod_units : Option VodVideo → Result ℕ
unfolding mul64
vod_units none = ok 0
vod_units (some v) = do
  let (hi, a) = mul64 v.actual_frames v.width
  reject (not (hi == 0)) (invalid "usage overflow")
  let (top, p) = mul64 a v.height
  reject (not (top == 0)) (invalid "usage overflow")
  ok (if p % 1000000 == 0 then p / 1000000 else p / 1000000 + 1)

-- The member `usage.units` of an event's JSON, 0 where there is none.
unfoldable pub usage_units : VodData → ℕ
usage_units (result_data v) = v.usage.units
usage_units (error_data v) = v.usage.units
usage_units (progress_data v) = 0

-- What a last event bills.
unfoldable pub event_units : VodEvent → ℕ
unfolding usage_units str_eq
event_units e =
    if str_eq e.event (codes "result") || str_eq e.event (codes "error")
    then usage_units e.data_value
    else 0

-- vodTerminalUnitsV2: the trailer of a stream that ends.
unfoldable pub last_units : List VodEvent → ℕ
unfolding event_units
last_units [] = 0
last_units (e ∷ []) = event_units e
last_units (e ∷ f ∷ es) = last_units (f ∷ es)

unfoldable pub vod_terminal_units : VodJournal → ℕ
unfolding last_units
vod_terminal_units j = last_units j.events
