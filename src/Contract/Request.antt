-- ===== src/Contract/Request.antt =====
-- live-runner/contract.go: the checks on create requests, create responses and key issues.
use livepeer_modules_transco.Prelude.{
  ℕ, Bool, true, false, not, ◌&&◌, ◌||◌, Option, none, some, List, [], ◌∷◌, ltb, leb, ◌==◌,
  if◌then◌else◌, length, any, all, Bytes, codes, str_eq, is_empty, has_prefix, contains, invalid,
  Result, ok, err, ◌>>◌, reject,
}
use livepeer_modules_transco.Contract.Types.{
  RunnerCreateRequest, RunnerCreateResponse, Storage, S3SessionStorage, Grant,
  StreamKeyIssueRequest, StreamKeyIssueResponse,
}
use livepeer_modules_transco.Contract.Ident.{opaque_id, is_time}
use livepeer_modules_transco.Contract.World.{World, valid_url, http_schemes, rtmp_schemes}

-- unicode.IsSpace on ASCII.
abbrev pub is_space : ℕ → Bool
is_space c = c == 32 || (leb 9 c && leb c 13)

-- `strings.TrimSpace(s) == ""`.
unfoldable pub is_blank : Bytes → Bool
unfolding all
is_blank s = all is_space s

-- strings.ContainsAny.
unfoldable pub contains_any : Bytes → Bytes → Bool
unfolding any
contains_any s chars = any (λ c. any (λ d. c == d) chars) s

unfoldable pub bad_s3 : World → S3SessionStorage → Bool
unfolding is_empty contains has_prefix contains_any
bad_s3 w s3 =
    not (valid_url w http_schemes s3.endpoint)
    || (is_empty s3.region
        || (is_empty s3.bucket
            || (is_empty s3.prefix
                || (contains s3.prefix (codes "..")
                    || (has_prefix s3.prefix (codes "/")
                        || (contains_any s3.prefix (b'?' ∷ 92 ∷ 13 ∷ 10 ∷ [])
                            || (is_empty s3.access_key_id
                                || (is_empty s3.secret_access_key
                                    || is_empty s3.session_token))))))))

unfoldable pub check_s3 : World → Option S3SessionStorage → Result (Unit {0})
unfolding bad_s3
check_s3 w none = err (invalid "s3 storage credentials are required")
check_s3 w (some s3) = reject (bad_s3 w s3) (invalid "s3 session storage is invalid")

abbrev is_some {ℓ} : {A : Type ℓ} → Option A → Bool
is_some none = false
is_some (some a) = true

unfoldable pub validate_storage : World → Storage → Result (Unit {0})
unfolding check_s3 str_eq
validate_storage w storage =
    if str_eq storage.kind (codes "runner-local")
    then reject (is_some storage.s3) (invalid "runner-local storage cannot include s3 credentials")
    else if str_eq storage.kind (codes "s3")
    then check_s3 w storage.s3
    else err (invalid "storage kind is invalid")

abbrev pub is_audience : Bytes → Bool
is_audience mode = str_eq mode (codes "gateway-relay") || str_eq mode (codes "direct-publisher")

unfoldable pub validate_create_request : World → RunnerCreateRequest → Result (Unit {0})
unfolding is_blank validate_storage is_empty
validate_create_request w v = do
  reject (not (opaque_id v.session_id) || not (opaque_id v.work_id))
      (invalid "session or work identity is invalid")
  reject (is_blank v.capability || is_blank v.offering)
      (invalid "capability and offering are required")
  reject
      (not (str_eq v.session_params.schema (codes "rtmp-hls-session/v1"))
        || not (is_audience v.session_params.publisher_mode))
      (invalid "session parameter schema or publisher mode is invalid")
  reject
      (not (opaque_id v.session_params.output_profile)
        || not (opaque_id v.session_params.metering_rendition))
      (invalid "output profile or metering rendition is invalid")
  validate_storage w v.session_params.storage
  reject (not (valid_url w http_schemes v.callback_url) || is_empty v.callback_token)
      (invalid "callback coordinates are invalid")

-- `len(operations) == 1 && operations[0] == GrantOperationV1`.
unfoldable pub check_operations : List Bytes → Bool
unfolding str_eq
check_operations (operation ∷ []) = str_eq operation (codes "stream-key-issue")
check_operations _ = false

unfoldable pub validate_grants : List Grant → Result Grant
unfolding check_operations is_empty
validate_grants (grant ∷ []) = do
  reject
      (not (opaque_id grant.id)
        || (not (check_operations grant.operations) || is_empty grant.secret))
      (invalid "stream-key-issue grant is invalid")
  reject (not (is_time grant.expires_at)) (invalid "grant expiry is invalid")
  ok grant
validate_grants _ = err (invalid "rtmp-hls requires exactly one grant")

-- ValidateCreateResponseV1. It returns the one grant, which the callers read as `Grants[0]`. The
-- source tries hls_url and key_issue_url in either order, and its error names the one that fails.
unfoldable pub validate_create_response : World → RunnerCreateResponse → Result Grant
unfolding validate_grants is_empty
validate_create_response w v = do
  reject
      (not (opaque_id v.runner_session_id) || not (str_eq v.runtime.schema (codes "rtmp-hls/v1")))
      (invalid "runner session or runtime schema is invalid")
  reject (not (valid_url w rtmp_schemes v.runtime.public.rtmp_url)) (invalid "rtmp_url is invalid")
  reject
      (not (valid_url w http_schemes v.runtime.public.hls_url)
        || not (valid_url w http_schemes v.runtime.public.key_issue_url))
      (invalid "hls_url or key_issue_url is invalid")
  reject
      (not (is_empty v.runtime.public.status_url)
        && not (valid_url w http_schemes v.runtime.public.status_url))
      (invalid "URL is invalid")
  validate_grants v.runtime.grants

unfoldable pub validate_stream_key_issue_request : StreamKeyIssueRequest → Result (Unit {0})
validate_stream_key_issue_request v =
    reject (not (opaque_id v.request_id) || not (is_audience v.audience))
      (invalid "key issuance request is invalid")

unfoldable pub validate_stream_key_issue_response :
    StreamKeyIssueRequest → StreamKeyIssueResponse → Result (Unit {0})
unfolding is_blank
validate_stream_key_issue_response request response = do
  reject
      (not (str_eq response.request_id request.request_id)
        || (is_blank response.stream_key || ltb 512 (length response.stream_key)))
      (invalid "key issuance response is invalid")
  reject (not (is_time response.expires_at)) (invalid "key expiry is invalid")
