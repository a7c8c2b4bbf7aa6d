-- ===== src/Abr/Contract.antt =====
-- abr-runner/contract_v2.go: validation of requests, progress and results, and the bill.
use livepeer_modules_transco.Prelude.{
  ℕ, ◌+◌, ◌*◌, ◌/◌, ◌%◌, ◌^◌, Bool, true, false, not, ◌&&◌, ◌||◌, Option, none, some, List, [], ◌∷◌,
  ltb, ◌==◌, if◌then◌else◌, length, Bytes, codes, str_eq, is_empty, contains, elem, invalid, Result,
  ok, err, ◌>>=◌, ◌>>◌, reject,
}
use livepeer_modules_transco.Contract.Ident.{opaque_id, work_id}
use livepeer_modules_transco.Contract.Types.{Url}
use livepeer_modules_transco.Contract.Request.{is_blank, contains_any}
use livepeer_modules_transco.Contract.Details.{to_lower}
use livepeer_modules_transco.Contract.Event.{add64, u64_limit}
use livepeer_modules_transco.Abr.Types.{
  Host, Float64, dyadic, Destination, RenditionDestinations, WorkloadRequest, Progress,
  DeliveredVideo, RenditionResult, TerminalResult, TerminalError, ReplayDisposition,
  resume_existing, replay_terminal, reject_id_reuse,
}

abbrev pub work_unit : Bytes
work_unit = codes "video-frame-megapixel"

unfoldable pub classify_replay : Bytes → Bytes → Bool → ReplayDisposition
classify_replay existing incoming terminal =
    if not (str_eq existing incoming)
    then reject_id_reuse
    else if terminal
    then replay_terminal
    else resume_existing

unfoldable pub validate_artifact_uri : Bytes → Result (Unit {0})
unfolding is_blank contains_any
validate_artifact_uri raw =
    reject (is_blank raw || (ltb 1024 (length raw) || contains_any raw (b'?' ∷ 13 ∷ 10 ∷ [])))
      (invalid "must be a non-secret stable artifact reference")

unfoldable pub is_credential_url : Option Url → Bool
unfolding str_eq is_empty
is_credential_url none = false
is_credential_url (some u) =
    (str_eq u.scheme (codes "https") || str_eq u.scheme (codes "http"))
    && (not (is_empty u.host) && not u.has_user)

unfoldable pub validate_credential_url : Host → Bytes → Result (Unit {0})
unfolding is_credential_url
validate_credential_url w raw =
    reject (not (is_credential_url (w.parse_url raw)))
      (invalid "must be an http(s) URL without userinfo")

unfoldable pub validate_destination : Host → Destination → Result (Unit {0})
unfolding validate_artifact_uri validate_credential_url
validate_destination w d = do
  validate_artifact_uri d.artifact_uri
  validate_credential_url w d.upload_url

unfoldable pub find_rendition :
    Bytes → List (Bytes × RenditionDestinations) → Option RenditionDestinations
unfolding str_eq
find_rendition name [] = none
find_rendition name ((key, d) ∷ ds) = if str_eq key name then some d else find_rendition name ds

unfoldable pub check_outputs : Host → Option RenditionDestinations → Result (Unit {0})
unfolding validate_destination
check_outputs w none = err (invalid "output.renditions is missing")
check_outputs w (some d) = do validate_destination w d.playlist; validate_destination w d.stream

-- The loop over the names of the preset; `seen` has those before.
unfoldable pub check_required :
    Host → List (Bytes × RenditionDestinations) → List Bytes → List Bytes → Result (Unit {0})
unfolding check_outputs find_rendition is_blank elem
check_required w outputs seen [] = ok tt
check_required w outputs seen (name ∷ names) = do
  reject (elem name seen || is_blank name)
      (invalid "selected preset contains an invalid or duplicate rendition name")
  check_outputs w (find_rendition name outputs)
  check_required w outputs (name ∷ seen) names

unfoldable pub check_expected :
    List Bytes → List (Bytes × RenditionDestinations) → Result (Unit {0})
unfolding elem
check_expected required [] = ok tt
check_expected required ((name, d) ∷ outputs) = do
  reject (not (elem name required)) (invalid "output.renditions contains unexpected rendition")
  check_expected required outputs

unfoldable pub validate_request : Host → WorkloadRequest → List Bytes → Result (Unit {0})
unfolding check_required check_expected is_blank is_empty validate_credential_url
validate_request w r required = do
  reject (not (str_eq r.schema (codes "video-transcode-abr/v2"))) (invalid "schema must be")
  reject (not (opaque_id r.workload_id))
      (invalid "workload_id must be 1-128 safe opaque characters")
  validate_credential_url w r.download_url
  reject (not (is_empty r.content_sha256) && not (work_id r.content_sha256))
      (invalid "input.content_sha256 must be lowercase SHA-256 hex")
  reject (is_blank r.preset) (invalid "ladder.preset is required")
  validate_destination w r.manifest
  reject (length required == 0) (invalid "selected preset must contain at least one rendition")
  check_required w r.renditions [] required
  check_expected required r.renditions

abbrev progress_phases : List Bytes
progress_phases =
    codes "accepted"
    ∷ codes "downloading"
    ∷ codes "probing"
    ∷ codes "encoding"
    ∷ codes "packaging"
    ∷ codes "uploading"
    ∷ []

-- NaN, an infinity, below 0 or above 100.
unfoldable pub bad_percentage : Float64 → Bool
bad_percentage (dyadic n k) = ltb (100 * 2 ^ k) n
bad_percentage _ = true

unfoldable pub validate_progress : Progress → Result (Unit {0})
unfolding bad_percentage elem
validate_progress p = do
  reject (not (str_eq p.schema (codes "video-transcode-abr-progress/v2")))
      (invalid "schema must be")
  reject (not (opaque_id p.workload_id) || not (work_id p.request_sha256))
      (invalid "progress identity is invalid")
  reject (p.sequence == 0) (invalid "progress sequence starts at 1")
  reject (not (elem p.phase progress_phases)) (invalid "progress phase is invalid")
  reject (bad_percentage p.overall_progress) (invalid "progress phase or percentage is invalid")

-- bits.Mul64: the product's high and low words.
unfoldable pub mul64 : ℕ → ℕ → ℕ × ℕ
mul64 a b = ((a * b) / u64_limit, (a * b) % u64_limit)

-- One video's pixels, added to the ones before.
unfoldable pub add_pixels : ℕ → DeliveredVideo → Result ℕ
unfolding mul64 add64
add_pixels pixels v = do
  let (hi, frame_width) = mul64 v.actual_frames v.width
  reject (not (hi == 0)) (invalid "pixel count overflow for rendition")
  let (top, rendition_pixels) = mul64 frame_width v.height
  reject (not (top == 0)) (invalid "pixel count overflow for rendition")
  let (sum, carry) = add64 pixels rendition_pixels
  reject (not (carry == 0)) (invalid "aggregate pixel count overflow")
  ok sum

unfoldable pub add_rendition : ℕ → Option DeliveredVideo → Result ℕ
unfolding add_pixels
add_rendition pixels none = ok pixels
add_rendition pixels (some v) = add_pixels pixels v

unfoldable pub sum_pixels : ℕ → List RenditionResult → Result ℕ
unfolding add_rendition
sum_pixels pixels [] = ok pixels
sum_pixels pixels (r ∷ rs) = do sum ← add_rendition pixels r.video; sum_pixels sum rs

-- CalculateFrameMegapixelUnitsV2.
unfoldable pub calculate_units : List RenditionResult → Result ℕ
unfolding sum_pixels
calculate_units rs = do
  pixels ← sum_pixels 0 rs
  ok (if pixels % 1000000 == 0 then pixels / 1000000 else pixels / 1000000 + 1)

unfoldable pub bad_video : Option DeliveredVideo → Bool
bad_video none = false
bad_video (some v) = v.actual_frames == 0 || (v.width == 0 || v.height == 0)

-- The loop over the renditions of a result; `seen` has the names before.
unfoldable pub check_renditions : List Bytes → List RenditionResult → Result (Unit {0})
unfolding bad_video validate_artifact_uri is_empty elem
check_renditions seen [] = ok tt
check_renditions seen (r ∷ rs) = do
  reject (is_empty r.name) (invalid "rendition result is missing artifact identity")
  validate_artifact_uri r.playlist_uri
  validate_artifact_uri r.stream_uri
  reject (elem r.name seen) (invalid "duplicate rendition result")
  reject (bad_video r.video) (invalid "video rendition has invalid delivered dimensions or frames")
  check_renditions (r.name ∷ seen) rs

unfoldable pub validate_terminal_result : TerminalResult → Result (Unit {0})
unfolding check_renditions calculate_units validate_artifact_uri
validate_terminal_result v = do
  reject
      (not (str_eq v.schema (codes "video-transcode-abr-result/v2"))
        || not (str_eq v.outcome (codes "succeeded")))
      (invalid "terminal result schema or outcome is invalid")
  reject (not (opaque_id v.workload_id) || not (work_id v.request_sha256))
      (invalid "terminal result identity is invalid")
  validate_artifact_uri v.manifest_uri
  reject (length v.renditions == 0) (invalid "terminal result requires manifest and renditions")
  check_renditions [] v.renditions
  units ← calculate_units v.renditions
  reject (not (str_eq v.usage.unit work_unit) || not (v.usage.units == units))
      (invalid "usage claim mismatch")

unfoldable pub validate_terminal_error : TerminalError → Result (Unit {0})
unfolding is_empty contains to_lower
validate_terminal_error v = do
  reject
      (not (str_eq v.schema (codes "video-transcode-abr-result/v2"))
        || not (str_eq v.outcome (codes "failed")))
      (invalid "terminal error schema or outcome is invalid")
  reject (not (opaque_id v.workload_id) || not (work_id v.request_sha256))
      (invalid "terminal error identity is invalid")
  reject (is_empty v.code || is_empty v.message)
      (invalid "terminal error code and redacted message are required")
  reject
      (ltb 512 (length v.message)
        || (contains (to_lower v.message) (codes "http://")
            || (contains (to_lower v.message) (codes "https://")
                || contains (to_lower v.message) (codes "sig="))))
      (invalid "terminal error message is not safely redacted")
  reject (not (str_eq v.usage.unit work_unit)) (invalid "failed terminal work unit is invalid")
