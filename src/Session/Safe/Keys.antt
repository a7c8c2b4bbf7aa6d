-- ===== src/Session/Safe/Keys.antt =====
-- The issue and the activation of stream keys, and the invariant.
use livepeer_modules_transco.Prelude.{
  ◌≡◌, refl, inl, inr, true, false, not, ◌||◌, Option, none, some, arith, Bool-cases, Bytes, str_eq,
  is_empty, Result, ok,
}
use livepeer_modules_transco.Contract.Types.{StreamKeyIssueRequest, StreamKeyIssueResponse}
use livepeer_modules_transco.Contract.Ident.{opaque_id}
use livepeer_modules_transco.Contract.World.{World, key_issue_fingerprint}
use livepeer_modules_transco.Contract.Request.{
  validate_stream_key_issue_request, validate_stream_key_issue_response,
}
use livepeer_modules_transco.Session.Record.{SessionRecord, SavesOnly}
use livepeer_modules_transco.Session.Output.{is_closing}
use livepeer_modules_transco.Session.Keys.{
  StoredKeyIssue, SessionSecrets, Envelope, IsSealed, with_envelope, find_issue, issued_secrets,
  await_activation, open_secrets, replay_issue, issue_new, issue_or_replay, record_key_issue,
  complete_key_activation,
}
use livepeer_modules_transco.Session.Check.{
  check_envelope, check_times, check_health_cursor, check_terminal, check_stopping,
  check_activation,
}
use livepeer_modules_transco.Session.Invariant.{Inv}
use livepeer_modules_transco.Session.Safe.Rules.{SavesOnly-reject, SavesOnly-if, SavesOnly-bind}

-- The record of a running session with other secrets, and a pending activation or none.
resealed-Inv :
    (w : World) (r : SessionRecord) (id : Bytes) (e : Envelope)
    → Inv w r
    → is_closing r ≡ false
    → IsSealed e
    → (is_empty id || opaque_id id) ≡ true
    → Inv w (with_envelope (record r { pending_key_activation_id = id }) e)
unfolding with_envelope check_envelope check_terminal check_stopping check_activation check_times
    check_health_cursor
resealed-Inv w r id e v open_session sealed named = record {
  fixed = v.fixed;
  envelope = ground arith;
  healthy = v.healthy;
  phased = (v.phased.0, v.phased.1, v.phased.2, ground arith);
  ordered = v.ordered;
  metered = v.metered;
  delivery = v.delivery;
  letters = v.letters;
}

-- CompleteKeyActivation saves only records with the invariant.
pub complete_key_activation-Inv :
    (w : World) (r : SessionRecord) (loaded : Option SessionSecrets) (id : Bytes)
    → Inv w r
    → SavesOnly (Inv w) (complete_key_activation r loaded id)
unfolding complete_key_activation check_envelope check_terminal check_stopping check_activation
    check_times check_health_cursor is_empty
complete_key_activation-Inv w r loaded id v = SavesOnly-reject (Inv w) (not (opaque_id id)) _ _ λ _.
    SavesOnly-bind (Inv w) (open_secrets r loaded) _ λ secrets _.
      SavesOnly-if (Inv w) (is_empty r.pending_key_activation_id) _ _ (λ _. tt)
        λ _.
          SavesOnly-reject (Inv w)
            (not (str_eq r.pending_key_activation_id id) || not (str_eq secrets.current_key_id id))
            _ _
            λ _. record {
              fixed = v.fixed;
              envelope = v.envelope;
              healthy = v.healthy;
              phased = (v.phased.0, v.phased.1, v.phased.2, refl);
              ordered = v.ordered;
              metered = v.metered;
              delivery = v.delivery;
              letters = v.letters;
            }

open_secrets-running :
    (r : SessionRecord) (loaded : Option SessionSecrets) (secrets : SessionSecrets)
    → open_secrets r loaded ≡ ok secrets
    → is_closing r ≡ false
unfolding open_secrets
open_secrets-running r none secrets h = cc
open_secrets-running r (some s) secrets h = ground arith

await_activation-Inv :
    (w : World) (r : SessionRecord) (secrets : SessionSecrets) (id : Bytes) (e : Envelope)
    → Inv w r
    → is_closing r ≡ false
    → is_empty r.pending_key_activation_id ≡ true
    → IsSealed e
    → opaque_id id ≡ true
    → Inv w (with_envelope (await_activation r secrets id) e)
unfolding await_activation
await_activation-Inv w r secrets id e v running idle sealed named =
    elim (Bool-cases (is_empty secrets.current_key_id)) [
      | inl first ↦
          rw first (resealed-Inv w r r.pending_key_activation_id e v running sealed (rw idle refl))
      | inr later ↦ rw later (resealed-Inv w r id e v running sealed (ground arith))
    ]

issue_or_replay-Inv :
    (w : World) (seal : SessionSecrets → Result Envelope) (r : SessionRecord)
    (secrets : SessionSecrets) (found : Option StoredKeyIssue) (fingerprint : Bytes)
    (request : StreamKeyIssueRequest) (response : StreamKeyIssueResponse)
    → ((s : SessionSecrets) (e : Envelope) → seal s ≡ ok e → IsSealed e)
    → Inv w r
    → is_closing r ≡ false
    → opaque_id request.request_id ≡ true
    → SavesOnly (Inv w) (issue_or_replay seal r secrets found fingerprint request response)
unfolding issue_or_replay replay_issue issue_new
issue_or_replay-Inv w seal r secrets (some stored) fingerprint request response sealed v running
      named =
    SavesOnly-reject (Inv w) (not (str_eq stored.fingerprint fingerprint)) _ _ λ _.
      SavesOnly-reject (Inv w) (not (str_eq secrets.current_key_id request.request_id)) _ _ λ _. tt
issue_or_replay-Inv w seal r secrets none fingerprint request response sealed v running named =
    SavesOnly-reject (Inv w) (not (is_empty r.pending_key_activation_id)) _ _ λ idle.
      SavesOnly-bind (Inv w) (seal (issued_secrets secrets fingerprint request response)) _ λ e eq.
        await_activation-Inv w r secrets request.request_id e v running (ground arith)
          (sealed _ e eq) named

-- RecordKeyIssue saves only records with the invariant, where sealing yields four non-empty texts.
pub record_key_issue-Inv :
    (w : World) (seal : SessionSecrets → Result Envelope) (r : SessionRecord)
    (loaded : Option SessionSecrets) (request : StreamKeyIssueRequest)
    (response : StreamKeyIssueResponse)
    → ((s : SessionSecrets) (e : Envelope) → seal s ≡ ok e → IsSealed e)
    → Inv w r
    → SavesOnly (Inv w) (record_key_issue w seal r loaded request response)
unfolding record_key_issue validate_stream_key_issue_request
record_key_issue-Inv w seal r loaded request response sealed v =
    SavesOnly-bind (Inv w) (validate_stream_key_issue_request request) _ λ _ valid.
      SavesOnly-bind (Inv w) (validate_stream_key_issue_response request response) _ λ _ _.
        SavesOnly-bind (Inv w) (open_secrets r loaded) _ λ secrets opened.
          issue_or_replay-Inv w seal r secrets (find_issue request.request_id secrets.key_issues)
            (key_issue_fingerprint w request) request response sealed v
            (open_secrets-running r loaded secrets opened) (request_named request valid)
  where
    request_named :
        (request : StreamKeyIssueRequest)
        → validate_stream_key_issue_request request ≡ ok tt
        → opaque_id request.request_id ≡ true
    request_named request valid = ground arith
