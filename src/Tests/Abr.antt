-- ===== src/Tests/Abr.antt =====
-- Runs of the batch contract and its journal.
use livepeer_modules_transco.Prelude.{
  ℕ, ◌≤◌, ◌<◌, ◌≡◌, refl, false, none, some, List, [], ◌∷◌, arith, any, all, codes, str_eq,
  is_empty, has_prefix, elem, subst, ok,
}
use livepeer_modules_transco.Contract.Ident.{opaque_id, work_id}
use livepeer_modules_transco.Contract.Event.{u64_limit, add64}
use livepeer_modules_transco.Contract.Request.{is_blank, contains_any}
use livepeer_modules_transco.Abr.Types.{
  Host, dyadic, DeliveredVideo, RenditionResult, TerminalResult,
}
use livepeer_modules_transco.Abr.Contract.{
  calculate_units, sum_pixels, add_rendition, add_pixels, mul64, validate_terminal_result,
  check_renditions, bad_video, validate_artifact_uri, work_unit,
}
use livepeer_modules_transco.Abr.Journal.{
  Journal, new_journal, PreparedRendition, record_terminal_result, check_checkpoints,
  has_checkpoint, results_equal, prepared_matches_result, same_video, find_entry, finish, succeeded,
  result_payload,
}
use livepeer_modules_transco.Abr.Check.{validate_loaded}
use livepeer_modules_transco.Abr.Billing.{calculate_units-exact, total_pixels, IsCeiling, is_ok}
use livepeer_modules_transco.Abr.Terminal.{record_terminal_result-bills, results_of}
use livepeer_modules_transco.Abr.Runs.{
  run_journal, run_journal-validates, run_journal-finished, JournalCall, progresses,
  prepares_rendition, delivers_rendition, delivers_manifest,
}
use livepeer_modules_transco.Tests.Fixtures.{zeros, test_parse_url}

abbrev test_host : Host
test_host = record {
  parse_url = test_parse_url;
  clean = λ s. s;
  is_abs = λ s. has_prefix s (codes "/");
}

abbrev test_video : DeliveredVideo
test_video = record { actual_frames = 300; width = 1280; height = 720 }

abbrev test_result : RenditionResult
test_result = record {
  name = codes "720p";
  playlist_uri = codes "s3:a";
  stream_uri = codes "s3:b";
  video = some test_video;
  file_size_bytes = 1000;
}

abbrev test_audio : RenditionResult
test_audio = record test_result { name = codes "audio"; video = none }

abbrev test_prepared : PreparedRendition
test_prepared = record {
  name = codes "720p";
  playlist_path = codes "720p.m3u8";
  stream_path = codes "720p.mp4";
  playlist_sha256 = zeros;
  stream_sha256 = zeros;
  video = some test_video;
  file_size_bytes = 1000;
}

abbrev test_terminal : TerminalResult
test_terminal = record {
  schema = codes "video-transcode-abr-result/v2";
  workload_id = codes "w-1";
  request_sha256 = zeros;
  outcome = codes "succeeded";
  manifest_uri = codes "s3:m";
  renditions = test_audio ∷ test_result ∷ [];
  usage = record { unit = work_unit; units = 277 };
}

-- The journal with both renditions and the manifest delivered.
abbrev test_journal : Journal
test_journal = record (new_journal (codes "w-1") zeros) {
  delivered = (codes "720p", test_result) ∷ (codes "audio", test_audio) ∷ [];
  manifest_delivered_uri = codes "s3:m";
}

test_rows : (v : DeliveredVideo) → some test_video ≡ some v → 0 < v.height
test_rows v e = let same : test_video ≡ v = cc in subst (λ q. 0 < q.height) same (omega arith)

no_rows : (v : DeliveredVideo) → none ≡ some v → 0 < v.height
no_rows v e = cc

calculate_units-exact_example :
    (total_pixels (test_audio ∷ test_result ∷ []) < u64_limit
      → (units : ℕ) × (calculate_units (test_audio ∷ test_result ∷ []) ≡ ok units)
        × IsCeiling (total_pixels (test_audio ∷ test_result ∷ [])) units)
    × (u64_limit ≤ total_pixels (test_audio ∷ test_result ∷ [])
        → is_ok (calculate_units (test_audio ∷ test_result ∷ [])) ≡ false)
calculate_units-exact_example =
    calculate_units-exact (test_audio ∷ test_result ∷ []) (no_rows, (test_rows, tt))

record_terminal_result-bills_example :
    (total_pixels (results_of test_journal.delivered) < u64_limit)
    × IsCeiling (total_pixels (results_of test_journal.delivered)) 277
    × ((finish test_journal succeeded
          (codes "succeeded")
          (codes "result")
          (result_payload test_terminal)).state
        ≡ succeeded)
    × ((finish test_journal succeeded
          (codes "succeeded")
          (codes "result")
          (result_payload test_terminal)).terminal_event
        ≡ some (record {
          sequence = test_journal.next_sequence;
          event = codes "result";
          data_value = result_payload test_terminal;
        }))
unfolding record_terminal_result validate_terminal_result check_renditions check_checkpoints
    has_checkpoint results_equal prepared_matches_result same_video find_entry calculate_units
    sum_pixels add_rendition add_pixels mul64 add64 validate_artifact_uri is_blank contains_any
    opaque_id work_id new_journal str_eq is_empty elem all any bad_video
record_terminal_result-bills_example =
    record_terminal_result-bills test_journal
      (finish test_journal succeeded (codes "succeeded") (codes "result")
        (result_payload test_terminal))
      test_terminal refl

abbrev test_calls : List JournalCall
test_calls =
    progresses (codes "encoding") (dyadic 25 1) (codes "720p") 12
    ∷ prepares_rendition test_prepared
    ∷ delivers_rendition test_result
    ∷ delivers_manifest (codes "s3:m")
    ∷ []

run_journal-validates_example :
    validate_loaded test_host
      (codes "w-1")
      (run_journal test_host (new_journal (codes "w-1") zeros) test_calls)
    ≡ ok tt
unfolding opaque_id work_id all
run_journal-validates_example =
    run_journal-validates test_host (codes "w-1") zeros test_calls refl refl (omega arith)

abbrev test_finished : Journal
test_finished = record (new_journal (codes "w-1") zeros) { state = succeeded }

run_journal-finished_example : run_journal test_host test_finished test_calls ≡ test_finished
run_journal-finished_example = run_journal-finished test_host test_finished test_calls refl
