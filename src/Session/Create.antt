-- ===== src/Session/Create.antt =====
-- live-runner/store.go and create_recovery.go: creating a session once, and fencing a creation off.
use livepeer_modules_transco.Prelude.{
  ℕ, Bool, true, false, not, Option, none, [], Bytes, str_eq, session_id_reuse, create_fenced,
  not_exist, invalid, Result, ok, err, ◌>>=◌, ◌>>◌, reject,
}
use livepeer_modules_transco.Contract.Types.{
  RunnerCreateRequest, RunnerCreateResponse, Grant, unset, at, active, unknown, waiting,
}
use livepeer_modules_transco.Contract.Ident.{opaque_id}
use livepeer_modules_transco.Contract.World.{World, create_fingerprint}
use livepeer_modules_transco.Contract.Request.{validate_create_request, validate_create_response}
use livepeer_modules_transco.Session.Record.{SessionRecord, Change, unchanged, saved}
use livepeer_modules_transco.Session.Keys.{SessionSecrets, Envelope, with_envelope, open_secrets}

-- The record of a new session; `now` is the time of its creation.
unfoldable pub new_record :
    World → RunnerCreateRequest → RunnerCreateResponse → Grant → ℕ → SessionRecord
new_record w request response grant now = record {
  version = 1;
  broker_session_id = request.session_id;
  runner_session_id = response.runner_session_id;
  create_fingerprint = create_fingerprint w request;
  state = active;
  stopping = false;
  pending_close_reason = [];
  pending_terminal_state = unknown [];
  pending_key_activation_id = [];
  runtime_public = response.runtime.public;
  grant_audit = record {
    id = grant.id;
    operations = grant.operations;
    secret_sha256 = w.sha256_hex grant.secret;
    expires_at = grant.expires_at;
  };
  usage_total = 0;
  last_sequence = 0;
  metered_microseconds = 0;
  metered_segment_sha256 = [];
  publisher_seen = false;
  publisher_offline_since = unset;
  publisher_deadline = unset;
  ingest_online_at = unset;
  first_finalized_segment_at = unset;
  last_finalized_segment_at = unset;
  output_state = waiting;
  output_state_since = at now;
  last_ladder_failure_code = [];
  ladder_failure_window_at = unset;
  ladder_consecutive_failures = 0;
  last_event_at = unset;
  pending_events = [];
  callback_delivery = none;
  callback_dead_letters = [];
  callback_rejected_total = 0;
  close_reason = [];
  integrity_sha256 = [];
  wrapped_key_nonce = [];
  wrapped_key_ciphertext = [];
  secret_nonce = [];
  secret_ciphertext = [];
}

-- What loadLocked gave for the session's identity.
abbrev pub Loaded : Type 0
Loaded = Result (SessionRecord × Option SessionSecrets)

abbrev pub Created : Type 0
Created = SessionRecord × SessionSecrets × Bool

-- A session that exists already.
unfoldable pub replay_create :
    SessionRecord → Option SessionSecrets → Bytes → Result (Change Created)
unfolding open_secrets
replay_create r loaded fingerprint = do
  reject (not (str_eq r.create_fingerprint fingerprint)) session_id_reuse
  secrets ← open_secrets r loaded
  ok (unchanged (r, secrets, true))

unfoldable pub new_secrets : RunnerCreateRequest → RunnerCreateResponse → SessionSecrets
new_secrets request response = record {
  create_request = request;
  create_response = response;
  current_key_id = [];
  key_issues = [];
}

-- A session that does not exist yet. `seal` encrypts its secrets.
unfoldable pub create_new :
    World
    → (SessionSecrets → Result Envelope)
    → RunnerCreateRequest
    → RunnerCreateResponse
    → Grant
    → Result Bool
    → ℕ
    → Result (Change Created)
unfolding new_record with_envelope new_secrets
create_new w seal request response grant fenced now = do
  is_fenced ← fenced
  reject is_fenced create_fenced
  let secrets = new_secrets request response
  envelope ← seal secrets
  let r = with_envelope (new_record w request response grant now) envelope
  ok (saved r (r, secrets, false))

unfoldable pub create_after_load :
    World
    → (SessionSecrets → Result Envelope)
    → RunnerCreateRequest
    → RunnerCreateResponse
    → Grant
    → Loaded
    → Result Bool
    → ℕ
    → Result (Change Created)
unfolding replay_create create_new
create_after_load w seal request response grant (ok (r, secrets)) fenced now =
    replay_create r secrets (create_fingerprint w request)
create_after_load w seal request response grant (err not_exist) fenced now =
    create_new w seal request response grant fenced now
create_after_load w seal request response grant (err e) fenced now = err e

-- CreateOrReplay, after the load of the session's record and the test for a fence.
unfoldable pub create_or_replay :
    World
    → (SessionSecrets → Result Envelope)
    → RunnerCreateRequest
    → RunnerCreateResponse
    → Loaded
    → Result Bool
    → ℕ
    → Result (Change Created)
unfolding create_after_load
create_or_replay w seal request response loaded fenced now = do
  validate_create_request w request
  grant ← validate_create_response w response
  create_after_load w seal request response grant loaded fenced now

-- CreateResolutionV1: the session exists, under its runner's identity, or its creation is fenced.
pub data CreateResolution : Type 0 where
  created : Bytes → CreateResolution
  fenced_off : CreateResolution

-- What ReconcileCreate returns, and whether it writes a fence.
unfoldable pub reconcile_after_load : Loaded → Result Bool → Result (CreateResolution × Bool)
reconcile_after_load (ok (r, secrets)) fenced = ok (created r.runner_session_id, false)
reconcile_after_load (err not_exist) fenced = do is_fenced ← fenced; ok (fenced_off, not is_fenced)
reconcile_after_load (err e) fenced = err e

unfoldable pub reconcile_create : Bytes → Loaded → Result Bool → Result (CreateResolution × Bool)
unfolding reconcile_after_load
reconcile_create id loaded fenced = do
  reject (not (opaque_id id)) (invalid "invalid broker session ID")
  reconcile_after_load loaded fenced
