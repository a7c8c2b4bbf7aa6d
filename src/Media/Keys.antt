-- ===== src/Media/Keys.antt =====
-- live-runner/media.go: private stream keys, built and read, and the publisher that has one.
use livepeer_modules_transco.Prelude.{
  ℕ, ◌≤◌, ◌≡◌, refl, ap, ◌∙◌, inl, inr, Bool, true, false, not, ◌&&◌, ◌||◌, some, List, [], ◌∷◌,
  ◌++◌, arith, ltb, Bool-cases, length, Bytes, codes, str_eq, str_eq_refl, is_empty, subst, invalid,
  Result, ok, err, ◌>>=◌, ◌>>◌, reject, reject-then,
}
use livepeer_modules_transco.Contract.Types.{at}
use livepeer_modules_transco.Contract.Ident.{opaque_id, is_active}
use livepeer_modules_transco.Contract.Request.{contains_any}
use livepeer_modules_transco.Contract.World.{World}
use livepeer_modules_transco.Session.Record.{SessionRecord}
use livepeer_modules_transco.Session.Keys.{StoredKeyIssue, SessionSecrets, find_issue}
use livepeer_modules_transco.Media.Path.{
  MediaLibrary, cut_at, ingest_media_path, build_private_ingest_stream_key, only_token, query_token,
  read_key, key_parts, parse_private_ingest_stream_key,
}
use livepeer_modules_transco.Media.Texts.{cut_at-append, opaque_id-avoids}
use livepeer_modules_transco.Media.Exact.{
  KeepsPlain, ReadsEscaped, ingest_media_path-opaque, ingest_path-read,
}
use livepeer_modules_transco.Media.Authorize.{
  MediaAuthRequest, SessionLookup, secure_equal, publishes_with, authorize_ingest, authorize_path,
  authorize_session, authorize_parsed, authorize,
}

||-left : (a b : Bool) → (a || b) ≡ false → a ≡ false
||-left true b h = cc
||-left false b h = refl

ingest_media_path-refused :
    (id : Bytes)
    → opaque_id id ≡ false
    → ingest_media_path id ≡ err (invalid "invalid runner session ID")
unfolding ingest_media_path
ingest_media_path-refused id h = rw h refl

abbrev is_no_secret : Bytes → Bool
is_no_secret secret =
    is_empty secret || (ltb 256 (length secret) || contains_any secret (13 ∷ 10 ∷ []))

-- What is built once the path of the session is.
abbrev build_rest : MediaLibrary → Bytes → Bytes → Bytes → Result Bytes
build_rest m id secret path =
    reject (is_no_secret secret) (invalid "invalid private ingest key")
    >> ok (id ++ (codes "?token=" ++ m.query_escape secret))

-- A key that was built: of which parts.
built-parts :
    (m : MediaLibrary) (id secret key : Bytes)
    → build_private_ingest_stream_key m id secret ≡ ok key
    → (opaque_id id ≡ true)
      × (is_empty secret ≡ false)
      × (id ++ (codes "?token=" ++ m.query_escape secret) ≡ key)
unfolding build_private_ingest_stream_key
built-parts m id secret key h = elim (Bool-cases (opaque_id id)) [
  | inr bad ↦
      let refused =
        subst (λ r. (r >>= build_rest m id secret) ≡ ok key) (ingest_media_path-refused id bad) h in
      cc
  | inl good ↦
      let rest =
        subst (λ r. (r >>= build_rest m id secret) ≡ ok key) (ingest_media_path-opaque id good) h in
      let (passed, same) =
        reject-then (is_no_secret secret) (invalid "invalid private ingest key")
          (ok (id ++ (codes "?token=" ++ m.query_escape secret))) key rest in
      (
        good,
        ||-left (is_empty secret) (ltb 256 (length secret) || contains_any secret (13 ∷ 10 ∷ []))
            passed,
        cc,
      )
]

cut_at-read :
    (m : MediaLibrary) (stream_key id raw_query path : Bytes) (query : List (Bytes × List Bytes))
    → cut_at b'?' stream_key ≡ some (id, raw_query)
    → ingest_media_path id ≡ ok path
    → m.parse_query raw_query ≡ some query
    → parse_private_ingest_stream_key m stream_key ≡ key_parts (ok path) (only_token query)
unfolding parse_private_ingest_stream_key read_key query_token
cut_at-read m stream_key id raw_query path query found path_ok read =
    ap (read_key m) found ∙ rw path_ok (rw read refl)

read-parts :
    (m : MediaLibrary) (id secret : Bytes)
    → ReadsEscaped m
    → opaque_id id ≡ true
    → is_empty secret ≡ false
    → parse_private_ingest_stream_key m (id ++ (codes "?token=" ++ m.query_escape secret))
      ≡ some (codes "ingest/" ++ id, secret)
unfolding only_token key_parts str_eq
read-parts m id secret reads opaque some_secret =
    let raw_query = codes "token=" ++ m.query_escape secret in
    cut_at-read m (id ++ b'?' ∷ raw_query) id raw_query (codes "ingest/" ++ id)
      ((codes "token", secret ∷ []) ∷ [])
      (cut_at-append b'?' id raw_query (opaque_id-avoids b'?' id refl opaque))
      (ingest_media_path-opaque id opaque) (reads secret)
    ∙ rw some_secret refl

-- ParsePrivateIngestStreamKeyV1 gives back the ingest path and the secret of each key that
-- BuildPrivateIngestStreamKeyV1 builds, where url.ParseQuery reads what url.QueryEscape wrote.
pub stream_key-read :
    (m : MediaLibrary) (id secret key : Bytes)
    → ReadsEscaped m
    → build_private_ingest_stream_key m id secret ≡ ok key
    → parse_private_ingest_stream_key m key ≡ some (codes "ingest/" ++ id, secret)
stream_key-read m id secret key reads h =
    let (opaque, some_secret, same) = built-parts m id secret key h in
    subst (λ k. parse_private_ingest_stream_key m k ≡ some (codes "ingest/" ++ id, secret)) same
      (read-parts m id secret reads opaque some_secret)

-- The request of a publisher on the ingest path of a session.
abbrev pub publish_request : Bytes → Bytes → MediaAuthRequest
publish_request id token = record {
  token = token;
  action = codes "publish";
  path = codes "ingest/" ++ id;
  protocol = codes "rtmp";
}

-- Authorize lets a publisher onto the ingest path of a session whose current stream key was built
-- from a secret exactly if the session is active, is not stopping and waits for no activation of a
-- key, the key has not expired, and the token has the digest of the secret. The root of the internal
-- tokens has 32 bytes or more.
pub authorize-publish :
    (w : World) (m : MediaLibrary) (sessions : SessionLookup) (root : Bytes) (now t : ℕ)
    (id secret token : Bytes) (r : SessionRecord) (secrets : SessionSecrets)
    (issue : StoredKeyIssue)
    → KeepsPlain m
    → ReadsEscaped m
    → 32 ≤ length root
    → sessions id ≡ ok (r, some secrets)
    → find_issue secrets.current_key_id secrets.key_issues ≡ some issue
    → build_private_ingest_stream_key m id secret ≡ ok issue.response.stream_key
    → issue.response.expires_at ≡ at t
    → authorize w m sessions root now (publish_request id token) ≡ (
        is_active r.state
        && (not r.stopping
            && (is_empty r.pending_key_activation_id
                && (ltb now t && secure_equal w token secret))))
unfolding authorize authorize_parsed authorize_session authorize_path authorize_ingest
    publishes_with str_eq
authorize-publish w m sessions root now t id secret token r secrets issue keeps reads long found
      current built expiry =
    let (opaque, some_secret, same) = built-parts m id secret issue.response.stream_key built in
    let enough : ltb (length root) 32 ≡ false = ground arith in
    let parsed = ingest_path-read m keeps id opaque in
    let key = stream_key-read m id secret issue.response.stream_key reads built in
    rw enough (rw parsed (rw found (rw current (rw expiry (rw key (rw (str_eq_refl id) refl))))))
