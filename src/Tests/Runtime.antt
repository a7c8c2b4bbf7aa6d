-- ===== src/Tests/Runtime.antt =====
-- Runs of the encoders' choice, the commands and the runtime, and the concrete instances of their theorems.
use livepeer_modules_transco.Prelude.{
  ℕ, ◌-◌, ◌≤◌, ◌≡◌, refl, true, false, ◌&&◌, none, some, List, [], ◌∷◌, ◌++◌, arith, if◌then◌else◌,
  all, Bytes, codes, elem, ok,
}
use livepeer_modules_transco.Contract.Types.{SessionParams}
use livepeer_modules_transco.Contract.Ident.{valid_close_reason, valid_ladder_failure_code}
use livepeer_modules_transco.Session.Record.{SessionRecord, saved}
use livepeer_modules_transco.Session.Keys.{with_envelope}
use livepeer_modules_transco.Session.Create.{new_record}
use livepeer_modules_transco.Session.Laws.Ending.{ended_record}
use livepeer_modules_transco.Session.Laws.Delivery.{backoff}
use livepeer_modules_transco.Encoding.Number.{pos}
use livepeer_modules_transco.Encoding.Hardware.{HwProfile, nvidia}
use livepeer_modules_transco.Encoding.Presets.{
  AbrPreset, AbrRendition, AbrVideoSettings, validate_abr_presets,
}
use livepeer_modules_transco.Encoding.Arguments.{ProbeResult}
use livepeer_modules_transco.Encoding.Filters.{build_scale_filter}
use livepeer_modules_transco.Encoding.Commands.{live_ladder_cmd, is_blank}
use livepeer_modules_transco.Encoding.Usable.{validate_abr_presets-IsSorted, IsSorted}
use livepeer_modules_transco.Runtime.Ladder.{failed_with, classify_ladder_exit, restart_backoff}
use livepeer_modules_transco.Runtime.Finish.{Cleanup, finish_session, complete_termination}
use livepeer_modules_transco.Runtime.Coordinator.{
  add_presets, validate_session, find_profile, ladder_outputs, release_local, slot_at, closes_lease,
  releases_slot, leaves_table,
}
use livepeer_modules_transco.Runtime.Slots.{
  RuntimeEvent, ensures, gives_back, run_runtime, idle_runtime, slots, AreSingle,
  run_runtime-IsBounded,
}
use livepeer_modules_transco.Runtime.Launch.{ArePublished, validate_session-launches}
use livepeer_modules_transco.Runtime.Ends.{
  fenced, finish_session-ends, classify_ladder_exit-valid, restart_backoff-exact,
}
use livepeer_modules_transco.Tests.Fixtures.{test_request, test_world, test_record, test_record-Inv}

abbrev gtx : HwProfile
gtx = record {
  gpu_name = codes "GTX 1080";
  vendor = nvidia;
  device_path = [];
  vram_mb = 8192;
  encoders = codes "h264_nvenc" ∷ codes "hevc_nvenc" ∷ [];
  decoders = [];
  hw_accels = codes "cuda" ∷ [];
  max_sessions = 5;
}

abbrev video_of : Bytes → AbrVideoSettings
video_of codec = record {
  codec = codec;
  width = pos 1280;
  height = pos 720;
  bitrate = codes "3M";
  max_bitrate = codes "3500k";
  buf_size = [];
  profile = codes "high";
  level = codes "3.1";
  pix_fmt = [];
}

abbrev rendition_of : Bytes → Bytes → AbrRendition
rendition_of name codec = record {
  name = name;
  video = some (video_of codec);
  audio = record {
    codec = codes "aac";
    bitrate = codes "128k";
    channels = pos 2;
    sample_rate = pos 0;
  };
}

abbrev audio_only : AbrRendition
audio_only = record {
  name = codes "audio";
  video = none;
  audio = record { codec = codes "AAC"; bitrate = []; channels = pos 0; sample_rate = pos 0 };
}

abbrev preset_of : Bytes → List AbrRendition → AbrPreset
preset_of name renditions = record {
  name = name;
  description = [];
  preset_type = [];
  format = [];
  hls_mode = [];
  segment_duration = pos 2;
  renditions = renditions;
}

abbrev h264_ladder : AbrPreset
h264_ladder =
    preset_of (codes "H264-Live") (rendition_of (codes "720p") (codes "H264") ∷ audio_only ∷ [])

abbrev av1_ladder : AbrPreset
av1_ladder = preset_of (codes "av1") (rendition_of (codes "720p") (codes "av1") ∷ [])

av1_skipped : (validate_abr_presets (h264_ladder ∷ av1_ladder ∷ []) gtx).1 ≡ codes "av1" ∷ []
unfolding validate_abr_presets
av1_skipped = refl

cuda_scale : build_scale_filter (pos 1280) (pos 0) gtx ≡ codes "scale_cuda=1280:-2"
unfolding build_scale_filter
cuda_scale = refl

validate_abr_presets-IsSorted_example :
    IsSorted gtx
      (h264_ladder ∷ av1_ladder ∷ [])
      (validate_abr_presets (h264_ladder ∷ av1_ladder ∷ []) gtx).0
      (validate_abr_presets (h264_ladder ∷ av1_ladder ∷ []) gtx).1
validate_abr_presets-IsSorted_example =
    validate_abr_presets-IsSorted (h264_ladder ∷ av1_ladder ∷ []) gtx

abbrev live_params : SessionParams
live_params = record test_request.session_params {
  output_profile = codes "h264-live";
  metering_rendition = codes "720p";
}

abbrev unprobed : ProbeResult
unprobed = record { width = pos 0; height = pos 0; color_transfer = [] }

abbrev test_url : Bytes → Bytes
test_url name = codes "rtmp://router/" ++ name

validate_session-launches_example :
    (before : List Bytes) × (outputs : List Bytes) × (live_ladder_cmd
        (λ n. codes "2.000")
        (codes "rtmp://router/in")
        (ladder_outputs test_url h264_ladder)
        gtx
        unprobed
      ≡ ok (before ++ codes "-i" ∷ codes "rtmp://router/in" ∷ outputs))
    × ArePublished test_url h264_ladder.renditions outputs
unfolding add_presets validate_session find_profile is_blank all elem
validate_session-launches_example =
    validate_session-launches test_url (λ n. codes "2.000") (h264_ladder ∷ av1_ladder ∷ [])
      live_params h264_ladder (codes "rtmp://router/in") gtx unprobed refl refl refl
      (refl, refl, (refl, refl, tt)) (λ name. refl) refl

killed_encoder :
    classify_ladder_exit
      (failed_with false (codes "exit status 1"))
      (codes "[h264_nvenc] No capable devices found" ∷ [])
    ≡ codes "encoder_init_failed"
unfolding classify_ladder_exit
killed_encoder = refl

classify_ladder_exit-valid_example :
    valid_ladder_failure_code
      (classify_ladder_exit (failed_with true (codes "context canceled")) (codes "x" ∷ []))
      false
    ≡ true
classify_ladder_exit-valid_example =
    classify_ladder_exit-valid (failed_with true (codes "context canceled")) (codes "x" ∷ [])

restart_backoff-exact_example : restart_backoff 4 250 5000 ≡ backoff 3 250 5000
restart_backoff-exact_example = restart_backoff-exact 4 250 5000 (omega arith)

capped_backoff : restart_backoff 9 250 5000 ≡ 5000
unfolding restart_backoff
capped_backoff = refl

-- Two sessions ask for one slot; the first gives it up, and the second asks again.
abbrev other_record : SessionRecord
other_record = record test_record { runner_session_id = codes "run-2" }

abbrev slot_history : List RuntimeEvent
slot_history =
    ensures test_record (ok tt) (ok tt)
    ∷ ensures other_record (ok tt) (ok tt)
    ∷ gives_back 0 closes_lease
    ∷ gives_back 0 releases_slot
    ∷ gives_back 0 leaves_table
    ∷ ensures other_record (ok tt) (ok tt)
    ∷ []

run_runtime-IsBounded_example :
    let c = run_runtime slot_history (idle_runtime 1) in
    (slots c.sessions ≤ 1)
    × AreSingle c.sessions
    × ((n : ℕ)
        → slot_at n c.sessions ≡ true
        → release_local c.maximum c ≡ some (record c { taken = c.taken - 1 }))
run_runtime-IsBounded_example = run_runtime-IsBounded 1 slot_history

-- The publisher leaves, and the router does not answer.
abbrev no_router : Cleanup
no_router = record { kicked = false; joined = true }

finish_session-ends_example :
    let s = fenced test_record (codes "publisher_disconnect") in
    (finish_session test_record (codes "publisher_disconnect") no_router 2000
      ≡ (if no_router.kicked && no_router.joined then ended_record s 2000 else s))
    × (complete_termination s (ok tt) 5000 ≡ ok (saved (ended_record s 5000) tt))
unfolding new_record with_envelope valid_close_reason
finish_session-ends_example =
    finish_session-ends test_world test_record (codes "publisher_disconnect") no_router 2000 5000
      test_record-Inv refl refl (omega arith) (λ e. cc) (omega arith) (omega arith)
