-- ===== src/Session/Keys.antt =====
-- live-runner/store.go: the secrets of a session, and the issue of stream keys.
use livepeer_modules_transco.Prelude.{
  ◌≡◌, Bool, true, false, not, ◌||◌, Option, none, some, List, [], ◌∷◌, if◌then◌else◌, Bytes,
  str_eq, is_empty, request_id_reuse, request_superseded, key_activation_in_flight,
  session_terminal, invalid, Result, ok, err, ◌>>=◌, ◌>>◌, reject,
}
use livepeer_modules_transco.Contract.Types.{
  RunnerCreateRequest, RunnerCreateResponse, StreamKeyIssueRequest, StreamKeyIssueResponse,
}
use livepeer_modules_transco.Contract.Ident.{opaque_id}
use livepeer_modules_transco.Contract.World.{World, key_issue_fingerprint}
use livepeer_modules_transco.Contract.Request.{
  validate_stream_key_issue_request, validate_stream_key_issue_response,
}
use livepeer_modules_transco.Session.Record.{SessionRecord, Change, unchanged, saved}
use livepeer_modules_transco.Session.Output.{is_closing}

pub record StoredKeyIssue : Type 0 where
  pub fingerprint : Bytes
  pub request : StreamKeyIssueRequest
  pub response : StreamKeyIssueResponse

-- The Go map of key issues is a list of entries, one for each request identity.
pub record SessionSecrets : Type 0 where
  pub create_request : RunnerCreateRequest
  pub create_response : RunnerCreateResponse
  pub current_key_id : Bytes
  pub key_issues : List (Bytes × StoredKeyIssue)

-- The four hexadecimal fields in which sealLocked puts the encrypted secrets.
pub record Envelope : Type 0 where
  pub wrapped_key_nonce : Bytes
  pub wrapped_key_ciphertext : Bytes
  pub secret_nonce : Bytes
  pub secret_ciphertext : Bytes

-- Each of the four texts is there.
abbrev pub IsSealed : Envelope → Type 0
IsSealed e =
    (is_empty e.wrapped_key_nonce ≡ false)
    × (is_empty e.wrapped_key_ciphertext ≡ false)
    × (is_empty e.secret_nonce ≡ false)
    × (is_empty e.secret_ciphertext ≡ false)

-- sealLocked's effect on the record; the encryption is a parameter of the callers.
unfoldable pub with_envelope : SessionRecord → Envelope → SessionRecord
with_envelope r e = record r {
  wrapped_key_nonce = e.wrapped_key_nonce;
  wrapped_key_ciphertext = e.wrapped_key_ciphertext;
  secret_nonce = e.secret_nonce;
  secret_ciphertext = e.secret_ciphertext;
}

unfoldable pub find_issue : Bytes → List (Bytes × StoredKeyIssue) → Option StoredKeyIssue
unfolding str_eq
find_issue id [] = none
find_issue id ((key, issue) ∷ issues) = if str_eq key id then some issue else find_issue id issues

unfoldable pub insert_issue :
    Bytes → StoredKeyIssue → List (Bytes × StoredKeyIssue) → List (Bytes × StoredKeyIssue)
unfolding str_eq
insert_issue id issue [] = (id, issue) ∷ []
insert_issue id issue ((key, old) ∷ issues) =
    if str_eq key id then (id, issue) ∷ issues else (key, old) ∷ insert_issue id issue issues

unfoldable pub redact : StoredKeyIssue → StoredKeyIssue
redact issue = record {
  fingerprint = issue.fingerprint;
  request = issue.request;
  response = record {
    request_id = issue.response.request_id;
    stream_key = [];
    expires_at = issue.response.expires_at;
  };
}

-- The loop that blanks the stream key of every stored issue.
unfoldable pub redact_all : List (Bytes × StoredKeyIssue) → List (Bytes × StoredKeyIssue)
unfolding redact
redact_all [] = []
redact_all ((key, issue) ∷ issues) = (key, redact issue) ∷ redact_all issues

-- The secrets and the record after a new key.
unfoldable pub issued_secrets :
    SessionSecrets → Bytes → StreamKeyIssueRequest → StreamKeyIssueResponse → SessionSecrets
unfolding redact_all insert_issue
issued_secrets secrets fingerprint request response = record secrets {
  current_key_id = request.request_id;
  key_issues =
      insert_issue request.request_id
        (record { fingerprint = fingerprint; request = request; response = response })
        (redact_all secrets.key_issues);
}

unfoldable pub await_activation : SessionRecord → SessionSecrets → Bytes → SessionRecord
unfolding is_empty
await_activation r secrets id =
    if is_empty secrets.current_key_id then r else record r { pending_key_activation_id = id }

-- `record.State != "active" || record.Stopping || secrets == nil`, and the secrets.
unfoldable pub open_secrets : SessionRecord → Option SessionSecrets → Result SessionSecrets
open_secrets r none = err session_terminal
open_secrets r (some secrets) = do reject (is_closing r) session_terminal; ok secrets

-- What RecordKeyIssue returns: the response, whether it is a replay, and the secrets then sealed.
abbrev pub KeyIssued : Type 0
KeyIssued = StreamKeyIssueResponse × Bool × SessionSecrets

-- A request that was stored before.
unfoldable pub replay_issue :
    SessionSecrets → StoredKeyIssue → Bytes → Bytes → Result (Change KeyIssued)
replay_issue secrets stored fingerprint id = do
  reject (not (str_eq stored.fingerprint fingerprint)) request_id_reuse
  reject (not (str_eq secrets.current_key_id id)) request_superseded
  ok (unchanged (stored.response, true, secrets))

-- A new request. `seal` encrypts the secrets.
unfoldable pub issue_new :
    (SessionSecrets → Result Envelope)
    → SessionRecord
    → SessionSecrets
    → Bytes
    → StreamKeyIssueRequest
    → StreamKeyIssueResponse
    → Result (Change KeyIssued)
unfolding issued_secrets await_activation with_envelope is_empty
issue_new seal r secrets fingerprint request response = do
  reject (not (is_empty r.pending_key_activation_id)) key_activation_in_flight
  let next = issued_secrets secrets fingerprint request response
  envelope ← seal next
  ok (
      saved (with_envelope (await_activation r secrets request.request_id) envelope)
        (response, false, next))

unfoldable pub issue_or_replay :
    (SessionSecrets → Result Envelope)
    → SessionRecord
    → SessionSecrets
    → Option StoredKeyIssue
    → Bytes
    → StreamKeyIssueRequest
    → StreamKeyIssueResponse
    → Result (Change KeyIssued)
unfolding replay_issue issue_new
issue_or_replay seal r secrets none fingerprint request response =
    issue_new seal r secrets fingerprint request response
issue_or_replay seal r secrets (some stored) fingerprint request response =
    replay_issue secrets stored fingerprint request.request_id

-- RecordKeyIssue on the loaded record and secrets.
unfoldable pub record_key_issue :
    World
    → (SessionSecrets → Result Envelope)
    → SessionRecord
    → Option SessionSecrets
    → StreamKeyIssueRequest
    → StreamKeyIssueResponse
    → Result (Change KeyIssued)
unfolding open_secrets find_issue issue_or_replay
record_key_issue w seal r loaded request response = do
  validate_stream_key_issue_request request
  validate_stream_key_issue_response request response
  secrets ← open_secrets r loaded
  issue_or_replay seal r secrets (find_issue request.request_id secrets.key_issues)
      (key_issue_fingerprint w request) request response

unfoldable pub complete_key_activation :
    SessionRecord → Option SessionSecrets → Bytes → Result (Change (Unit {0}))
unfolding open_secrets is_empty
complete_key_activation r loaded id = do
  reject (not (opaque_id id)) (invalid "key activation request ID is invalid")
  secrets ← open_secrets r loaded
  if is_empty r.pending_key_activation_id then ok (unchanged tt) else (do
    reject (not (str_eq r.pending_key_activation_id id) || not (str_eq secrets.current_key_id id))
        (invalid "key activation identity mismatch")
    ok (saved (record r { pending_key_activation_id = [] }) tt))
