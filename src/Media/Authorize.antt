-- ===== src/Media/Authorize.antt =====
-- live-runner/media.go: the authorization of MediaMTX's requests.
use livepeer_modules_transco.Prelude.{
  ℕ, Bool, false, not, ◌&&◌, ◌||◌, Option, none, some, ltb, if◌then◌else◌, length, Bytes, codes,
  ◌++◌, str_eq, is_empty, Result, ok, err,
}
use livepeer_modules_transco.Contract.Types.{Stamp, at}
use livepeer_modules_transco.Contract.Ident.{is_active}
use livepeer_modules_transco.Contract.World.{World}
use livepeer_modules_transco.Session.Record.{SessionRecord}
use livepeer_modules_transco.Session.Keys.{StoredKeyIssue, SessionSecrets, find_issue}
use livepeer_modules_transco.Media.Path.{
  MediaLibrary, MediaPath, ingest_path, rendition_path, parse_media_path,
  parse_private_ingest_stream_key,
}

-- The members of a request that are read.
pub record MediaAuthRequest : Type 0 where
  pub token : Bytes
  pub action : Bytes
  pub path : Bytes
  pub protocol : Bytes

-- LoadByRunnerSessionID.
abbrev pub SessionLookup : Type 0
SessionLookup = Bytes → Result (SessionRecord × Option SessionSecrets)

unfoldable pub secure_equal : World → Bytes → Bytes → Bool
unfolding str_eq
secure_equal w left right = str_eq (w.sha256_hex left) (w.sha256_hex right)

unfoldable pub internal_media_token : MediaLibrary → Bytes → Bytes → Bytes
internal_media_token m root id = m.hmac_hex root (codes "live-runner/media/v1:" ++ id)

abbrev not_expired : ℕ → Stamp → Bool
not_expired now (at t) = ltb now t
not_expired now _ = false

abbrev matches_key : World → MediaAuthRequest → Option (Bytes × Bytes) → Bool
matches_key w q none = false
matches_key w q (some (path, token)) = str_eq path q.path && secure_equal w q.token token

-- A publisher's request, against the current issue of a key.
unfoldable pub publishes_with :
    World → MediaLibrary → ℕ → MediaAuthRequest → Option StoredKeyIssue → Bool
unfolding parse_private_ingest_stream_key secure_equal str_eq
publishes_with w m now q none = false
publishes_with w m now q (some issue) =
    not_expired now issue.response.expires_at
    && matches_key w q (parse_private_ingest_stream_key m issue.response.stream_key)

-- The switch of Authorize on the ingest path of a session that runs.
unfoldable pub authorize_ingest :
    World
    → MediaLibrary
    → Bytes
    → ℕ
    → MediaAuthRequest
    → SessionRecord
    → SessionSecrets
    → Bytes
    → Bool
unfolding str_eq is_empty publishes_with secure_equal internal_media_token find_issue
authorize_ingest w m root now q r secrets id =
    if str_eq q.protocol (codes "rtmp") && str_eq q.action (codes "publish")
    then is_empty r.pending_key_activation_id
      && publishes_with w m now q (find_issue secrets.current_key_id secrets.key_issues)
    else str_eq q.protocol (codes "rtmp")
      && (str_eq q.action (codes "read") && secure_equal w q.token (internal_media_token m root id))

-- The same on the path of a rendition.
unfoldable pub authorize_rendition : World → MediaLibrary → Bytes → MediaAuthRequest → Bytes → Bool
unfolding str_eq secure_equal internal_media_token
authorize_rendition w m root q id =
    if str_eq q.protocol (codes "rtmp") && str_eq q.action (codes "publish")
    then secure_equal w q.token (internal_media_token m root id)
    else str_eq q.protocol (codes "hls") && str_eq q.action (codes "read")

unfoldable pub authorize_path :
    World
    → MediaLibrary
    → Bytes
    → ℕ
    → MediaAuthRequest
    → SessionRecord
    → SessionSecrets
    → MediaPath
    → Bool
unfolding authorize_ingest authorize_rendition
authorize_path w m root now q r secrets (ingest_path id) =
    authorize_ingest w m root now q r secrets id
authorize_path w m root now q r secrets (rendition_path id rendition) =
    authorize_rendition w m root q id

abbrev pub session_of : MediaPath → Bytes
session_of (ingest_path id) = id
session_of (rendition_path id rendition) = id

-- The session must be there, active, not stopping, and with secrets.
unfoldable pub authorize_session :
    World
    → MediaLibrary
    → Bytes
    → ℕ
    → MediaAuthRequest
    → MediaPath
    → Result (SessionRecord × Option SessionSecrets)
    → Bool
unfolding authorize_path
authorize_session w m root now q p (err e) = false
authorize_session w m root now q p (ok (r, none)) = false
authorize_session w m root now q p (ok (r, some secrets)) =
    is_active r.state && (not r.stopping && authorize_path w m root now q r secrets p)

unfoldable pub authorize_parsed :
    World → MediaLibrary → SessionLookup → Bytes → ℕ → MediaAuthRequest → Option MediaPath → Bool
unfolding authorize_session
authorize_parsed w m sessions root now q none = false
authorize_parsed w m sessions root now q (some p) =
    authorize_session w m root now q p (sessions (session_of p))

-- Authorize at the time `now`, with the root of the internal tokens.
unfoldable pub authorize :
    World → MediaLibrary → SessionLookup → Bytes → ℕ → MediaAuthRequest → Bool
unfolding authorize_parsed parse_media_path str_eq
authorize w m sessions root now q =
    not (ltb (length root) 32)
    && ((str_eq q.protocol (codes "rtmp") || str_eq q.protocol (codes "hls"))
        && authorize_parsed w m sessions root now q (parse_media_path m q.path))
