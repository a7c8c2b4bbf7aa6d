-- ===== src/Tests/Fixtures.antt =====
-- A concrete session: its request, its response, its record, and the world it lives in.
use livepeer_modules_transco.Prelude.{
  ◌≡◌, refl, inl, inr, true, false, Option, none, some, [], ◌∷◌, arith, if◌then◌else◌, Bool-cases,
  all, Bytes, codes, str_eq, is_empty, has_prefix, elem, Result, ok,
}
use livepeer_modules_transco.Contract.Types.{
  RunnerCreateRequest, RunnerCreateResponse, Grant, at, active, Url, StreamKeyIssueRequest,
  StreamKeyIssueResponse, RunnerEvent, RawMessage, session_started, object, no_members,
}
use livepeer_modules_transco.Contract.Ident.{opaque_id, work_id}
use livepeer_modules_transco.Contract.World.{World, valid_url}
use livepeer_modules_transco.Contract.Request.{check_operations}
use livepeer_modules_transco.Session.Record.{SessionRecord}
use livepeer_modules_transco.Session.Keys.{Envelope, with_envelope, SessionSecrets}
use livepeer_modules_transco.Session.Create.{new_record, new_secrets}
use livepeer_modules_transco.Session.Invariant.{Inv}
use livepeer_modules_transco.Session.Laws.Creation.{new_record-Inv}

abbrev pub zeros : Bytes
zeros = codes "0000000000000000000000000000000000000000000000000000000000000000"

abbrev ones : Bytes
ones = codes "1111111111111111111111111111111111111111111111111111111111111111"

-- A digest that tells the segments `s1.ts` and `s2.ts` apart.
abbrev pub test_digest : Bytes → Bytes
test_digest s = if str_eq s (codes "s1.ts") then ones else zeros

pub test_digest-work_id : (s : Bytes) → work_id (test_digest s) ≡ true
unfolding work_id all
test_digest-work_id s = elim (Bool-cases (str_eq s (codes "s1.ts"))) [ inl e ↦ rw e | inr e ↦ rw e ]

abbrev pub test_parse_url : Bytes → Option Url
test_parse_url s =
    if has_prefix s (codes "rtmp://")
    then some (record { scheme = codes "rtmp"; host = codes "h"; has_user = false })
    else if has_prefix s (codes "http://")
    then some (record { scheme = codes "http"; host = codes "h"; has_user = false })
    else none

abbrev pub test_world : World
test_world = record {
  parse_url = test_parse_url;
  sha256_hex = test_digest;
  sha256_hex-work_id = test_digest-work_id;
  digest_prefix = λ s. 7;
  encode_create = λ request. request.session_id;
  encode_key_issue = λ request. request.request_id;
}

abbrev pub test_request : RunnerCreateRequest
test_request = record {
  session_id = codes "sess-1";
  work_id = codes "work-1";
  capability = codes "live";
  offering = codes "abr";
  session_params = record {
    schema = codes "rtmp-hls-session/v1";
    publisher_mode = codes "gateway-relay";
    output_profile = codes "abr-standard";
    metering_rendition = codes "720p";
    storage = record { kind = codes "runner-local"; s3 = none };
  };
  callback_url = codes "http://h/callback";
  callback_token = codes "token";
}

abbrev pub test_grant : Grant
test_grant = record {
  id = codes "grant-1";
  operations = codes "stream-key-issue" ∷ [];
  secret = codes "secret";
  expires_at = at 5000;
}

abbrev pub test_response : RunnerCreateResponse
test_response = record {
  runner_session_id = codes "run-1";
  runtime = record {
    schema = codes "rtmp-hls/v1";
    public = record {
      rtmp_url = codes "rtmp://h/live";
      hls_url = codes "http://h/hls";
      key_issue_url = codes "http://h/keys";
      status_url = [];
    };
    grants = test_grant ∷ [];
  };
}

abbrev pub test_envelope : Envelope
test_envelope = record {
  wrapped_key_nonce = codes "aa";
  wrapped_key_ciphertext = codes "bb";
  secret_nonce = codes "cc";
  secret_ciphertext = codes "dd";
}

abbrev pub test_seal : SessionSecrets → Result Envelope
test_seal secrets = ok test_envelope

abbrev pub test_secrets : SessionSecrets
test_secrets = new_secrets test_request test_response

-- The record of the session at its creation.
abbrev pub test_record : SessionRecord
test_record =
    with_envelope (new_record test_world test_request test_response test_grant 1000) test_envelope

pub test_record-Inv : Inv test_world test_record
unfolding opaque_id valid_url check_operations is_empty has_prefix elem str_eq all
test_record-Inv =
    new_record-Inv test_world test_request test_response test_grant 1000 test_envelope
      (refl, refl, refl, refl, refl, refl, refl) (omega arith) (refl, refl, refl, refl)

abbrev pub no_details : RawMessage
no_details = record { size = 2; value = some (object no_members) }

-- The first event of the session.
abbrev pub started_event : RunnerEvent
started_event = record {
  event_id = codes "run-1:1";
  sequence = 1;
  event_type = session_started;
  event_time = at 1001;
  state = active;
  usage = none;
  close_reason = none;
  details = no_details;
}

abbrev pub test_key_request : StreamKeyIssueRequest
test_key_request = record { request_id = codes "key-1"; audience = codes "gateway-relay" }

abbrev pub test_key_response : StreamKeyIssueResponse
test_key_response = record {
  request_id = codes "key-1";
  stream_key = codes "k";
  expires_at = at 4000;
}
