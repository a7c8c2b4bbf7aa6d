-- ===== src/Abr/Types.antt =====
-- abr-runner/contract_v2.go: the wire types of a workload.
use livepeer_modules_transco.Prelude.{ℕ, Bool, Option, List, Bytes}
use livepeer_modules_transco.Contract.Types.{Url}

-- net/url.Parse, path/filepath.Clean and path/filepath.IsAbs.
pub record Host : Type 0 where
  pub parse_url : Bytes → Option Url
  pub clean : Bytes → Bytes
  pub is_abs : Bytes → Bool

-- A float64: `dyadic n k` is n / 2 ^ k, and `negative n k` is its negation where n is not 0.
pub data Float64 : Type 0 where
  nan : Float64
  positive_infinity negative_infinity : Float64
  dyadic negative : ℕ → ℕ → Float64

pub record Destination : Type 0 where
  pub artifact_uri : Bytes
  pub upload_url : Bytes

pub record RenditionDestinations : Type 0 where
  pub playlist : Destination
  pub stream : Destination

-- The Go map of renditions is a list of entries with different names.
pub record WorkloadRequest : Type 0 where
  pub schema : Bytes
  pub workload_id : Bytes
  pub download_url : Bytes
  pub content_sha256 : Bytes
  pub preset : Bytes
  pub manifest : Destination
  pub renditions : List (Bytes × RenditionDestinations)

pub record Progress : Type 0 where
  pub schema : Bytes
  pub workload_id : Bytes
  pub request_sha256 : Bytes
  pub sequence : ℕ  -- uint64
  pub phase : Bytes
  pub overall_progress : Float64
  pub rendition : Bytes
  pub frames : ℕ

pub record DeliveredVideo : Type 0 where
  pub actual_frames : ℕ  -- uint64
  pub width : ℕ  -- uint32
  pub height : ℕ  -- uint32

pub record RenditionResult : Type 0 where
  pub name : Bytes
  pub playlist_uri : Bytes
  pub stream_uri : Bytes
  pub video : Option DeliveredVideo
  pub file_size_bytes : ℕ  -- uint64

pub record UsageClaim : Type 0 where
  pub unit : Bytes
  pub units : ℕ  -- uint64

pub record TerminalResult : Type 0 where
  pub schema : Bytes
  pub workload_id : Bytes
  pub request_sha256 : Bytes
  pub outcome : Bytes
  pub manifest_uri : Bytes
  pub renditions : List RenditionResult
  pub usage : UsageClaim

pub record TerminalError : Type 0 where
  pub schema : Bytes
  pub workload_id : Bytes
  pub request_sha256 : Bytes
  pub outcome : Bytes
  pub code : Bytes
  pub message : Bytes
  pub retryable : Bool
  pub usage : UsageClaim

pub data ReplayDisposition : Type 0 where
  resume_existing replay_terminal reject_id_reuse : ReplayDisposition
