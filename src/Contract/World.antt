-- ===== src/Contract/World.antt =====
-- What the runners take from other packages, and live-runner/contract.go: validateURLScheme.
use livepeer_modules_transco.Prelude.{
  ℕ, ◌≡◌, Bool, true, false, not, ◌&&◌, Option, none, some, List, [], ◌∷◌, Bytes, codes, is_empty,
  elem,
}
use livepeer_modules_transco.Contract.Types.{Url, RunnerCreateRequest, StreamKeyIssueRequest}
use livepeer_modules_transco.Contract.Ident.{work_id}

-- net/url.Parse; SHA-256 in lowercase hexadecimal, which is 64 such digits; the first eight bytes
-- of the digest as a uint64; and the canonical JSON texts whose digests are the fingerprints.
pub record World : Type 0 where
  pub parse_url : Bytes → Option Url
  pub sha256_hex : Bytes → Bytes
  pub sha256_hex-work_id : (s : Bytes) → work_id (sha256_hex s) ≡ true
  pub digest_prefix : Bytes → ℕ
  pub encode_create : RunnerCreateRequest → Bytes
  pub encode_key_issue : StreamKeyIssueRequest → Bytes

unfoldable pub valid_url : World → List Bytes → Bytes → Bool
unfolding is_empty elem
valid_url w schemes raw = elim (w.parse_url raw) [
  | none ↦ false
  | some u ↦ not (is_empty u.host) && (not u.has_user && elem u.scheme schemes)
]

abbrev pub http_schemes : List Bytes
http_schemes = codes "http" ∷ codes "https" ∷ []

abbrev pub rtmp_schemes : List Bytes
rtmp_schemes = codes "rtmp" ∷ codes "rtmps" ∷ []

-- CreateFingerprintV1 and KeyIssueFingerprintV1.
unfoldable pub create_fingerprint : World → RunnerCreateRequest → Bytes
create_fingerprint w request = w.sha256_hex (w.encode_create request)

unfoldable pub key_issue_fingerprint : World → StreamKeyIssueRequest → Bytes
key_issue_fingerprint w request = w.sha256_hex (w.encode_key_issue request)
