-- ===== src/Runtime/Coordinator.antt =====
-- live-runner/runtime.go: the admission of sessions to the runtime, its slots and its table of active ladders.
use livepeer_modules_transco.Prelude.{
  ℕ, zero, suc, ◌+◌, ◌-◌, ◌*◌, map, Bool, true, false, not, ◌&&◌, ◌||◌, Option, none, some, List,
  [], ◌∷◌, ltb, ◌==◌, if◌then◌else◌, length, any, Bytes, codes, str_eq, is_empty, elem,
  session_terminal, gpu_capacity, invalid, Result, ok, err, ◌>>◌, reject,
}
use livepeer_modules_transco.Contract.Details.{to_lower}
use livepeer_modules_transco.Contract.Types.{SessionParams}
use livepeer_modules_transco.Contract.Ident.{is_active}
use livepeer_modules_transco.Session.Record.{SessionRecord}
use livepeer_modules_transco.Encoding.Number.{ℤ, pos, negsuc}
use livepeer_modules_transco.Encoding.Hardware.{equal_fold}
use livepeer_modules_transco.Encoding.Presets.{AbrVideoSettings, AbrRendition, AbrPreset}
use livepeer_modules_transco.Encoding.Commands.{is_h264, LiveRtmpOutput}

-- `preset.SegmentDuration <= 0 || preset.SegmentDuration > 10`.
unfoldable pub bad_segment_duration : ℤ → Bool
bad_segment_duration (pos n) = n == 0 || ltb 10 n
bad_segment_duration (negsuc n) = true

-- NewLiveRuntimeCoordinatorV1 on the presets: the map by lower-case names.
unfoldable pub add_presets : List Bytes → List AbrPreset → Result (Unit {0})
unfolding to_lower is_empty bad_segment_duration elem
add_presets seen [] = ok tt
add_presets seen (p ∷ ps) = do
  reject
      (is_empty (to_lower p.name)
        || (length p.renditions == 0 || bad_segment_duration p.segment_duration))
      (invalid "live runtime preset is invalid")
  reject (elem (to_lower p.name) seen) (invalid "live runtime preset names must be unique")
  add_presets (to_lower p.name ∷ seen) ps

-- `c.presets[strings.ToLower(profile)]`.
unfoldable pub find_profile : List AbrPreset → Bytes → Option AbrPreset
unfolding to_lower str_eq
find_profile [] profile = none
find_profile (p ∷ ps) profile =
    let rest = find_profile ps profile in
    if str_eq (to_lower p.name) (to_lower profile) then some p else rest

unfoldable pub is_not_h264 : Option AbrVideoSettings → Bool
unfolding is_h264
is_not_h264 none = false
is_not_h264 (some v) = not (is_h264 v.codec)

-- The loop of ValidateSession over the renditions.
unfoldable pub check_profile_renditions : List AbrRendition → Result (Unit {0})
unfolding is_not_h264 equal_fold
check_profile_renditions [] = ok tt
check_profile_renditions (r ∷ rs) = do
  reject (is_not_h264 r.video) (invalid "live output profile contains a non-H264 rendition")
  reject (not (equal_fold r.audio.codec (codes "aac")))
      (invalid "live output profile contains a non-AAC rendition")
  check_profile_renditions rs

unfoldable pub check_profile : Option AbrPreset → Bytes → Result (Unit {0})
unfolding check_profile_renditions str_eq any
check_profile none metering = err (invalid "unknown live output profile")
check_profile (some p) metering = do
  check_profile_renditions p.renditions
  reject (not (any (λ r. str_eq r.name metering) p.renditions))
      (invalid "metering rendition is not in the live output profile")

-- ValidateSession.
unfoldable pub validate_session : List AbrPreset → SessionParams → Result (Unit {0})
unfolding check_profile find_profile
validate_session presets params =
    check_profile (find_profile presets params.output_profile) params.metering_rendition

-- An activeLiveSessionV1: whether it is in the table, and what it still holds.
pub record ActiveSession : Type 0 where
  pub runner_session_id : Bytes
  pub listed : Bool
  pub has_slot : Bool
  pub has_lease : Bool

-- `maximum` is the size of the channel of slots, and `taken` its length.
pub record Coordinator : Type 0 where
  pub maximum : Option ℕ
  pub taken : ℕ
  pub sessions : List ActiveSession

-- acquireLocal, with no limit and with one: the state afterwards, if there is a slot.
unfoldable pub acquire_local : Option ℕ → Coordinator → Option Coordinator
acquire_local none c = some c
acquire_local (some m) c = if ltb c.taken m then some (record c { taken = c.taken + 1 }) else none

-- releaseLocal: `none` is a receive from an empty channel, which blocks.
unfoldable pub release_local : Option ℕ → Coordinator → Option Coordinator
release_local none c = some c
release_local (some m) c = if c.taken == 0 then none else some (record c { taken = c.taken - 1 })

unfoldable pub is_listed : Bytes → List ActiveSession → Bool
unfolding str_eq
is_listed id [] = false
is_listed id (a ∷ rest) = a.listed && str_eq a.runner_session_id id || is_listed id rest

-- The part of EnsureSession with a slot, on the answer of the GPU's admission.
unfoldable pub admit_ladder :
    Coordinator → Coordinator → Bytes → Result (Unit {0}) → Result (Unit {0}) × Coordinator
admit_ladder c c' id (err e) = (err e, c)
admit_ladder c c' id (ok done) = (
  ok tt,
  record c' {
    sessions =
        record { runner_session_id = id; listed = true; has_slot = true; has_lease = true }
        ∷ c'.sessions;
  },
)

unfoldable pub take_slot :
    Coordinator → Bytes → Result (Unit {0}) → Option Coordinator → Result (Unit {0}) × Coordinator
unfolding admit_ladder
take_slot c id admission none = (err gpu_capacity, c)
take_slot c id admission (some c') = admit_ladder c c' id admission

unfoldable pub ensure_valid :
    Coordinator → Bytes → Result (Unit {0}) → Result (Unit {0}) → Result (Unit {0}) × Coordinator
unfolding take_slot acquire_local is_listed
ensure_valid c id admission (err e) = (err e, c)
ensure_valid c id admission (ok done) =
    if is_listed id c.sessions
    then (ok tt, c)
    else take_slot c id admission (acquire_local c.maximum c)

-- EnsureSession under the coordinator's lock.
unfoldable pub ensure_session :
    Coordinator
    → SessionRecord
    → Result (Unit {0})
    → Result (Unit {0})
    → Result (Unit {0}) × Coordinator
unfolding ensure_valid
ensure_session c r validation admission =
    if not (is_active r.state) || r.stopping
    then (err session_terminal, c)
    else ensure_valid c r.runner_session_id admission validation

-- What a session's goroutine, or an EnsureSession that fails to start it, gives back, in its order.
pub data Release : Type 0 where
  closes_lease releases_slot leaves_table : Release

unfoldable pub release_one : Release → ActiveSession → ActiveSession
release_one closes_lease a = record a { has_lease = false }
release_one releases_slot a = record a { has_slot = false }
release_one leaves_table a = record a { listed = false }

-- The session at a position of the table's history has a slot.
unfoldable pub slot_at : ℕ → List ActiveSession → Bool
slot_at n [] = false
slot_at zero (a ∷ rest) = a.has_slot
slot_at (suc n) (a ∷ rest) = slot_at n rest

-- The change of the session at a position of the table's history.
unfoldable pub release_at : ℕ → Release → List ActiveSession → List ActiveSession
unfolding release_one
release_at n what [] = []
release_at zero what (a ∷ rest) = release_one what a ∷ rest
release_at (suc n) what (a ∷ rest) = a ∷ release_at n what rest

abbrev pub with_release : ℕ → Release → Coordinator → Coordinator
with_release n what c = record c { sessions = release_at n what c.sessions }

unfoldable pub after_release : ℕ → Coordinator → Option Coordinator → Coordinator
unfolding release_at
after_release n c none = c
after_release n c (some c') = with_release n releases_slot c'

-- A deferred call of a session's goroutine, or a clean-up of EnsureSession. Each holder of a slot
-- releases it once.
unfoldable pub give_back : ℕ → Release → Coordinator → Coordinator
unfolding after_release release_local slot_at release_at
give_back n closes_lease c = with_release n closes_lease c
give_back n leaves_table c = with_release n leaves_table c
give_back n releases_slot c =
    if slot_at n c.sessions then after_release n c (release_local c.maximum c) else c

-- `time.Duration(n) * time.Second`, in nanoseconds.
unfoldable pub seconds_of : ℤ → ℕ
seconds_of (pos n) = n * 1000000000
seconds_of (negsuc n) = 0

-- The outputs that run gives to the launcher. The URL of a rendition is an argument.
unfoldable pub ladder_outputs : (Bytes → Bytes) → AbrPreset → List LiveRtmpOutput
unfolding seconds_of
ladder_outputs url_of p =
    map
      (λ r. record {
        rendition = r;
        url = url_of r.name;
        keyframe_interval = seconds_of p.segment_duration;
      })
      p.renditions
