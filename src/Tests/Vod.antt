-- ===== src/Tests/Vod.antt =====
-- Runs of a VOD workload.
use livepeer_modules_transco.Prelude.{
  ◌≡◌, refl, false, none, some, [], ◌∷◌, codes, ok, err, invalid, io_error, Result,
}
use livepeer_modules_transco.Abr.Types.{dyadic}
use livepeer_modules_transco.Abr.Billing.{IsCeiling}
use livepeer_modules_transco.Encoding.Number.{pos}
use livepeer_modules_transco.Vod.Journal.{
  VodVideo, VodJournal, new_vod_journal, in_progress, resume, vod_units, vod_terminal_units,
}
use livepeer_modules_transco.Vod.Request.{VodRequest, subscribe, joined_run}
use livepeer_modules_transco.Vod.Execute.{VodEnvironment, StoreCall, reloads_prepared, execute}
use livepeer_modules_transco.Vod.Ends.{vod_pixels, Ends, vod_units-IsCeiling}

abbrev test_video : VodVideo
test_video = record { actual_frames = 300; width = 1280; height = 720 }

abbrev test_vod_request : VodRequest
test_vod_request = record {
  schema = codes "video-transcode-vod/v2";
  workload_id = codes "vod-1";
  input = record { download_url = codes "https://in.example/a.mp4"; content_sha256 = [] };
  rendition = record {
    name = codes "720p";
    width = pos 1280;
    height = pos 720;
    fps = pos 30;
    codec = codes "h264";
  };
  stream = record {
    artifact_uri = codes "s3://out/a.mp4";
    upload_url = codes "https://out.example/a.mp4";
  };
}

abbrev fails_reload : StoreCall → Result (Unit {0})
fails_reload reloads_prepared = err io_error
fails_reload _ = ok tt

-- The input is downloaded, the encoding reports once, and the upload succeeds.
abbrev test_environment : VodEnvironment
test_environment = record {
  store = λ call. ok tt;
  input_present = false;
  download = ok tt;
  input_hash = [];
  store_input = ok tt;
  probe = ok tt;
  reports = (dyadic 50 0, 150) ∷ [];
  encode = ok (record {
    path = codes "work/vod-1/output.mp4";
    hash = codes "cafe";
    video = test_video;
    size = 4096;
  });
  file_hash = λ path. none;
  is_abs = λ path. false;
  upload = ok tt;
}

abbrev test_vod_journal : VodJournal
test_vod_journal = new_vod_journal (codes "vod-1") (codes "beef")

ended_vod_bill :
    vod_terminal_units (execute test_environment test_vod_request test_vod_journal) ≡ 277
unfolding execute vod_terminal_units new_vod_journal
ended_vod_bill = refl

test_bill : vod_units (some test_video) ≡ ok 277
unfolding vod_units
test_bill = refl

vod_units-IsCeiling_example : IsCeiling (vod_pixels (some test_video)) 277
vod_units-IsCeiling_example = vod_units-IsCeiling (some test_video) 277 test_bill

-- The journal cannot be loaded after the encoding.
abbrev broken_environment : VodEnvironment
broken_environment = record test_environment { store = fails_reload }

left_in_progress :
    (execute broken_environment test_vod_request test_vod_journal).state ≡ in_progress
unfolding execute new_vod_journal
left_in_progress = refl

-- A second caller with the same request joins its run, whatever the limit.
joins_own_run :
    subscribe 1
      (err (invalid "not asked"))
      (codes "vod-1")
      (codes "beef")
      resume
      ((codes "vod-1", codes "beef") ∷ [])
    ≡ ok (joined_run, (codes "vod-1", codes "beef") ∷ [])
unfolding subscribe
joins_own_run = refl
