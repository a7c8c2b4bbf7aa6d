-- ===== src/Media/Path.antt =====
-- live-runner/media.go: the paths of MediaMTX, and the private stream keys.
use livepeer_modules_transco.Prelude.{
  ℕ, not, ◌&&◌, ◌||◌, Option, none, some, List, [], ◌∷◌, ◌++◌, ltb, ◌==◌, if◌then◌else◌, length,
  Bytes, codes, str_eq, is_empty, has_prefix, invalid, Result, ok, ◌>>◌, ◌>>=◌, reject,
}
use livepeer_modules_transco.Contract.Ident.{opaque_id}
use livepeer_modules_transco.Contract.Request.{contains_any}

-- path.Clean, path.Base, url.QueryEscape, url.ParseQuery, where `none` is an error, and the
-- hexadecimal HMAC of a text under a key.
pub record MediaLibrary : Type 0 where
  pub clean : Bytes → Bytes
  pub base : Bytes → Bytes
  pub query_escape : Bytes → Bytes
  pub parse_query : Bytes → Option (List (Bytes × List Bytes))
  pub hmac_hex : Bytes → Bytes → Bytes

unfoldable pub push_char : ℕ → List Bytes → List Bytes
push_char c [] = (c ∷ []) ∷ []
push_char c (part ∷ parts) = (c ∷ part) ∷ parts

-- strings.Split at one character.
unfoldable pub split : ℕ → Bytes → List Bytes
unfolding push_char
split sep [] = [] ∷ []
split sep (c ∷ s) = let rest = split sep s in if c == sep then [] ∷ rest else push_char c rest

unfoldable pub cut_after : ℕ → Option (Bytes × Bytes) → Option (Bytes × Bytes)
cut_after c none = none
cut_after c (some (before, after)) = some (c ∷ before, after)

-- strings.Cut at one character.
unfoldable pub cut_at : ℕ → Bytes → Option (Bytes × Bytes)
unfolding cut_after
cut_at sep [] = none
cut_at sep (c ∷ s) = let rest = cut_at sep s in if c == sep then some ([], s) else cut_after c rest

-- What parseMediaPathV1 returns.
pub data MediaPath : Type 0 where
  ingest_path : Bytes → MediaPath
  rendition_path : Bytes → Bytes → MediaPath

unfoldable pub ingest_media_path : Bytes → Result Bytes
unfolding opaque_id
ingest_media_path id = do
  reject (not (opaque_id id)) (invalid "invalid runner session ID")
  ok (codes "ingest/" ++ id)

unfoldable pub rendition_media_path : Bytes → Bytes → Result Bytes
unfolding opaque_id
rendition_media_path id rendition = do
  reject (not (opaque_id id) || not (opaque_id rendition))
      (invalid "invalid runner session or rendition ID")
  ok (codes "renditions/" ++ (id ++ b'/' ∷ rendition))

unfoldable pub read_parts : List Bytes → Option MediaPath
unfolding opaque_id str_eq
read_parts (kind ∷ id ∷ []) =
    if str_eq kind (codes "ingest") && opaque_id id then some (ingest_path id) else none
read_parts (kind ∷ id ∷ rendition ∷ []) =
    if str_eq kind (codes "renditions") && (opaque_id id && opaque_id rendition)
    then some (rendition_path id rendition)
    else none
read_parts _ = none

unfoldable pub parse_media_path : MediaLibrary → Bytes → Option MediaPath
unfolding is_empty str_eq has_prefix split read_parts
parse_media_path m raw =
    if is_empty raw || (not (str_eq (m.clean raw) raw) || has_prefix raw (codes "/"))
    then none
    else read_parts (split b'/' raw)

unfoldable pub build_private_ingest_stream_key : MediaLibrary → Bytes → Bytes → Result Bytes
unfolding ingest_media_path is_empty contains_any
build_private_ingest_stream_key m id secret = do
  path ← ingest_media_path id
  reject (is_empty secret || (ltb 256 (length secret) || contains_any secret (13 ∷ 10 ∷ [])))
      (invalid "invalid private ingest key")
  ok (id ++ (codes "?token=" ++ m.query_escape secret))

-- query.Get of the only key of a query, which has one value: `none` for any other query, an empty
-- token included.
unfoldable pub only_token : List (Bytes × List Bytes) → Option Bytes
unfolding str_eq is_empty
only_token ((key, token ∷ []) ∷ []) =
    if str_eq key (codes "token") && not (is_empty token) then some token else none
only_token _ = none

-- The path, with the token of a query that is read.
unfoldable pub key_parts : Result Bytes → Option Bytes → Option (Bytes × Bytes)
key_parts (ok path) (some token) = some (path, token)
key_parts _ _ = none

unfoldable pub query_token : Option (List (Bytes × List Bytes)) → Option Bytes
unfolding only_token
query_token none = none
query_token (some query) = only_token query

unfoldable pub read_key : MediaLibrary → Option (Bytes × Bytes) → Option (Bytes × Bytes)
unfolding ingest_media_path query_token key_parts
read_key m none = none
read_key m (some (id, raw_query)) =
    key_parts (ingest_media_path id) (query_token (m.parse_query raw_query))

unfoldable pub parse_private_ingest_stream_key : MediaLibrary → Bytes → Option (Bytes × Bytes)
unfolding cut_at read_key
parse_private_ingest_stream_key m stream_key = read_key m (cut_at b'?' stream_key)
