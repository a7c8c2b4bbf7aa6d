-- ===== src/Tests/Media.antt =====
-- Publishers of a session, and the paths of MediaMTX.
use livepeer_modules_transco.Prelude.{
  all, ◌≡◌, refl, true, not, ◌&&◌, Option, none, some, List, [], ◌∷◌, ◌++◌, ltb, if◌then◌else◌,
  drop, has_prefix, str_eq, Bytes, codes, arith, ok, err, is_empty, not_exist,
}
use livepeer_modules_transco.Contract.Types.{at}
use livepeer_modules_transco.Contract.Ident.{is_active, opaque_id}
use livepeer_modules_transco.Session.Keys.{StoredKeyIssue, SessionSecrets, find_issue}
use livepeer_modules_transco.Media.Path.{
  MediaLibrary, split, rendition_path, parse_media_path, build_private_ingest_stream_key,
  parse_private_ingest_stream_key,
}
use livepeer_modules_transco.Media.Authorize.{SessionLookup, secure_equal, authorize}
use livepeer_modules_transco.Media.Exact.{
  KeepsPlain, ReadsEscaped, print_media_path, parse_media_path-exact,
}
use livepeer_modules_transco.Media.Texts.{is_plain_part}
use livepeer_modules_transco.Media.Asset.{rendition_asset_path, rendition_asset_path-inside}
use livepeer_modules_transco.Media.Keys.{publish_request, stream_key-read, authorize-publish}
use livepeer_modules_transco.Tests.Fixtures.{
  test_world, test_request, test_response, test_record, test_key_request,
}

abbrev read_token : Bytes → Option (List (Bytes × List Bytes))
read_token query =
    if has_prefix query (codes "token=")
    then some ((codes "token", drop 6 query ∷ []) ∷ [])
    else none

-- Texts in which nothing is to be escaped, and paths that are clean.
abbrev test_library : MediaLibrary
test_library = record {
  clean = λ s. s;
  base = λ s. s;
  query_escape = λ s. s;
  parse_query = read_token;
  hmac_hex = λ key s. key ++ s;
}

test_library-KeepsPlain : KeepsPlain test_library
test_library-KeepsPlain s h = refl

test_library-ReadsEscaped : ReadsEscaped test_library
unfolding has_prefix
test_library-ReadsEscaped s = refl

abbrev test_secret : Bytes
test_secret = codes "s3cret"

abbrev test_issue : StoredKeyIssue
test_issue = record {
  fingerprint = codes "f";
  request = test_key_request;
  response = record {
    request_id = codes "key-1";
    stream_key = codes "run-1?token=s3cret";
    expires_at = at 9000;
  };
}

abbrev media_secrets : SessionSecrets
media_secrets = record {
  create_request = test_request;
  create_response = test_response;
  current_key_id = codes "key-1";
  key_issues = (codes "key-1", test_issue) ∷ [];
}

abbrev test_sessions : SessionLookup
test_sessions id =
    if str_eq id (codes "run-1") then ok (test_record, some media_secrets) else err not_exist

abbrev test_root : Bytes
test_root = codes "0123456789abcdef0123456789abcdef"

parse_media_path-exact_example :
    (parse_media_path test_library (codes "renditions/run-1/720p")
        ≡ some (rendition_path (codes "run-1") (codes "720p"))
      → print_media_path (rendition_path (codes "run-1") (codes "720p"))
        ≡ ok (codes "renditions/run-1/720p"))
    × (print_media_path (rendition_path (codes "run-1") (codes "720p"))
          ≡ ok (codes "renditions/run-1/720p")
        → parse_media_path test_library (codes "renditions/run-1/720p")
          ≡ some (rendition_path (codes "run-1") (codes "720p")))
parse_media_path-exact_example =
    parse_media_path-exact test_library (codes "renditions/run-1/720p")
      (rendition_path (codes "run-1") (codes "720p")) test_library-KeepsPlain

built_key :
    build_private_ingest_stream_key test_library (codes "run-1") test_secret
    ≡ ok (codes "run-1?token=s3cret")
unfolding build_private_ingest_stream_key
built_key = refl

stream_key-read_example :
    parse_private_ingest_stream_key test_library (codes "run-1?token=s3cret")
    ≡ some (codes "ingest/run-1", test_secret)
stream_key-read_example =
    stream_key-read test_library (codes "run-1") test_secret (codes "run-1?token=s3cret")
      test_library-ReadsEscaped built_key

found_issue : find_issue media_secrets.current_key_id media_secrets.key_issues ≡ some test_issue
unfolding find_issue
found_issue = refl

found_session : test_sessions (codes "run-1") ≡ ok (test_record, some media_secrets)
unfolding str_eq
found_session = refl

authorize-publish_example :
    authorize test_world test_library test_sessions test_root 5000
      (publish_request (codes "run-1") test_secret)
    ≡ (is_active test_record.state
        && (not test_record.stopping
            && (is_empty test_record.pending_key_activation_id
                && (ltb 5000 9000 && secure_equal test_world test_secret test_secret))))
authorize-publish_example =
    authorize-publish test_world test_library test_sessions test_root 5000 9000 (codes "run-1")
      test_secret test_secret test_record media_secrets test_issue test_library-KeepsPlain
      test_library-ReadsEscaped (omega arith) found_session found_issue built_key refl

abbrev test_names : List Bytes
test_names = codes "1080p" ∷ codes "720p" ∷ []

found_asset :
    rendition_asset_path test_library (codes "run-1") test_names (codes "720p/seg_1.m4s")
    ≡ some (codes "renditions/run-1/720p/seg_1.m4s")
unfolding rendition_asset_path
found_asset = refl

no_such_rendition :
    rendition_asset_path test_library (codes "run-1") test_names (codes "480p/seg_1.m4s") ≡ none
unfolding rendition_asset_path
no_such_rendition = refl

rendition_asset_path-inside_example :
    (codes "renditions/run-1/720p/seg_1.m4s"
      ≡ codes "renditions/" ++ (codes "run-1" ++ b'/' ∷ codes "720p/seg_1.m4s"))
    × (all is_plain_part (split b'/' (codes "renditions/run-1/720p/seg_1.m4s")) ≡ true)
unfolding opaque_id
rendition_asset_path-inside_example =
    rendition_asset_path-inside test_library (codes "run-1") test_names (codes "720p/seg_1.m4s")
      (codes "renditions/run-1/720p/seg_1.m4s") refl found_asset
