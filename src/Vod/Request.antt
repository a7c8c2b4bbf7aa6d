-- ===== src/Vod/Request.antt =====
-- transcode-runner/vod_v2.go: the validation of a request, and the admission of its run.
use livepeer_modules_transco.Prelude.{
  ℕ, Bool, true, false, not, ◌&&◌, ◌||◌, Option, none, some, List, [], ◌∷◌, leb, ◌==◌,
  if◌then◌else◌, length, all, Bytes, codes, str_eq, is_empty, elem, gpu_capacity, invalid, Result,
  ok, err, ◌>>◌, reject,
}
use livepeer_modules_transco.Contract.Ident.{opaque_id}
use livepeer_modules_transco.Contract.Details.{to_lower}
use livepeer_modules_transco.Contract.Request.{is_blank, contains_any}
use livepeer_modules_transco.Abr.Types.{Host}
use livepeer_modules_transco.Abr.Contract.{is_credential_url}
use livepeer_modules_transco.Encoding.Number.{ℤ, is_positive, int_eq}
use livepeer_modules_transco.Encoding.Presets.{Preset}
use livepeer_modules_transco.Vod.Journal.{Disposition, terminal_workload}

pub record VodInput : Type 0 where
  pub download_url : Bytes
  pub content_sha256 : Bytes

pub record VodRendition : Type 0 where
  pub name : Bytes
  pub width : ℤ
  pub height : ℤ
  pub fps : ℤ
  pub codec : Bytes

pub record VodDestination : Type 0 where
  pub artifact_uri : Bytes
  pub upload_url : Bytes

pub record VodRequest : Type 0 where
  pub schema : Bytes
  pub workload_id : Bytes
  pub input : VodInput
  pub rendition : VodRendition
  pub stream : VodDestination

-- 64 hexadecimal digits, of either case.
unfoldable pub is_hex_digest : Bytes → Bool
unfolding all
is_hex_digest s =
    length s == 64
    && all (λ c. leb 48 c && leb c 57 || (leb b'a' c && leb c b'f' || leb b'A' c && leb c b'F')) s

-- The codec's name in lower case, with hevc for h265.
unfoldable pub codec_name : Bytes → Bytes
unfolding to_lower str_eq
codec_name codec = if str_eq (to_lower codec) (codes "h265") then codes "hevc" else to_lower codec

unfoldable pub requested_codec : Bytes → Bytes
unfolding codec_name is_empty
requested_codec codec = if is_empty codec then codes "h264" else codec_name codec

abbrev vod_codecs : List Bytes
vod_codecs = codes "h264" ∷ codes "hevc" ∷ codes "av1" ∷ codes "vp9" ∷ []

unfoldable pub matches_rendition : Bytes → VodRendition → Preset → Bool
unfolding codec_name str_eq int_eq
matches_rendition codec r p =
    str_eq (codec_name p.video_codec) codec && (int_eq p.width r.width && int_eq p.height r.height)

-- The first candidate, at the requested rate.
unfoldable pub resolve_preset : Bytes → VodRendition → List Preset → Result Preset
unfolding matches_rendition
resolve_preset codec r [] = err (invalid "no runner preset supports requested codec and dimensions")
resolve_preset codec r (p ∷ ps) =
    let rest = resolve_preset codec r ps in
    if matches_rendition codec r p then ok (record p { fps = r.fps }) else rest

-- validateAndResolve. vodHTTPURLV2 is is_credential_url of a parsed URL.
unfoldable pub validate_and_resolve : Host → List Preset → VodRequest → Result Preset
unfolding str_eq opaque_id is_credential_url is_empty is_hex_digest is_positive requested_codec elem
    is_blank contains_any resolve_preset
validate_and_resolve host presets req = do
  reject (not (str_eq req.schema (codes "video-transcode-vod/v2"))) (invalid "schema")
  reject (not (opaque_id req.workload_id)) (invalid "invalid workload_id")
  reject (not (is_credential_url (host.parse_url req.input.download_url)))
      (invalid "input.download_url must be http(s)")
  reject (not (is_empty req.input.content_sha256) && not (is_hex_digest req.input.content_sha256))
      (invalid "invalid content_sha256")
  reject
      (is_empty req.rendition.name
        || (not (is_positive req.rendition.width)
            || (not (is_positive req.rendition.height) || not (is_positive req.rendition.fps))))
      (invalid "rendition name, width, height, and fps are required")
  reject (not (elem (requested_codec req.rendition.codec) vod_codecs))
      (invalid "unsupported rendition codec")
  reject
      (is_blank req.stream.artifact_uri
        || contains_any req.stream.artifact_uri (b'?' ∷ 13 ∷ 10 ∷ []))
      (invalid "output.stream.artifact_uri must be a stable non-secret reference")
  reject (not (is_credential_url (host.parse_url req.stream.upload_url)))
      (invalid "output.stream.upload_url must be http(s)")
  resolve_preset (requested_codec req.rendition.codec) req.rendition presets

-- The runs of the service, by workload, with the digest of the request.
abbrev pub VodRuns : Type 0
VodRuns = List (Bytes × Bytes)

unfoldable pub find_run : Bytes → VodRuns → Option Bytes
unfolding str_eq
find_run id [] = none
find_run id ((key, hash) ∷ runs) =
    let rest = find_run id runs in if str_eq key id then some hash else rest

-- What subscribe answers: a run that is over, one that is there, or one that it starts.
pub data Subscription : Type 0 where
  finished_run joined_run started_run : Subscription

unfoldable pub start_run :
    ℕ → Result (Unit {0}) → Bytes → Bytes → VodRuns → Result (Subscription × VodRuns)
start_run limit admission id hash runs = do
  reject (leb limit (length runs)) gpu_capacity
  admission
  ok (started_run, (id, hash) ∷ runs)

unfoldable pub join_or_start :
    ℕ → Result (Unit {0}) → Bytes → Bytes → VodRuns → Option Bytes → Result (Subscription × VodRuns)
unfolding start_run str_eq
join_or_start limit admission id hash runs none = start_run limit admission id hash runs
join_or_start limit admission id hash runs (some running) = do
  reject (not (str_eq running hash)) (invalid "identity mismatch")
  ok (joined_run, runs)

abbrev is_terminal : Disposition → Bool
is_terminal terminal_workload = true
is_terminal _ = false

-- subscribe, under the service's lock, on the answer of the GPU's admission.
unfoldable pub subscribe :
    ℕ → Result (Unit {0}) → Bytes → Bytes → Disposition → VodRuns → Result (Subscription × VodRuns)
unfolding join_or_start find_run
subscribe limit admission id hash disposition runs =
    if is_terminal disposition
    then ok (finished_run, runs)
    else join_or_start limit admission id hash runs (find_run id runs)
