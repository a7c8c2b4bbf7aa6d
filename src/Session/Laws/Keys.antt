-- ===== src/Session/Laws/Keys.antt =====
-- live-runner/store.go: the issue of stream keys and its retries.
use livepeer_modules_transco.Prelude.{
  ◌≡◌, refl, ◌⊎◌, inl, inr, true, false, not, ◌||◌, is_empty, Option, some, List, [], ◌∷◌, arith,
  Bool-cases, All, Bytes, str_eq, str_eq_refl, Result, ok, err,
}
use livepeer_modules_transco.Contract.Types.{StreamKeyIssueRequest, StreamKeyIssueResponse}
use livepeer_modules_transco.Contract.World.{World, key_issue_fingerprint}
use livepeer_modules_transco.Contract.Request.{
  validate_stream_key_issue_request, validate_stream_key_issue_response,
}
use livepeer_modules_transco.Contract.Ident.{opaque_id}
use livepeer_modules_transco.Session.Record.{
  SessionRecord, Change, unchanged, saved, after, SavesOnly,
}
use livepeer_modules_transco.Session.Safe.Rules.{SavesOnly-reject, SavesOnly-if, SavesOnly-bind}
use livepeer_modules_transco.Session.Output.{is_closing}
use livepeer_modules_transco.Session.Keys.{
  StoredKeyIssue, SessionSecrets, Envelope, with_envelope, find_issue, insert_issue, redact,
  redact_all, issued_secrets, await_activation, open_secrets, KeyIssued, replay_issue, issue_new,
  issue_or_replay, record_key_issue, complete_key_activation,
}

-- Every issue but that of `current` has no stream key.
abbrev pub OnlyLive : Bytes → List (Bytes × StoredKeyIssue) → Type 0
OnlyLive current = All (λ p. (p.0 ≡ current) ⊎ (p.1.response.stream_key ≡ []))

redact_all-OnlyLive :
    (current : Bytes) (issues : List (Bytes × StoredKeyIssue))
    → OnlyLive current (redact_all issues)
unfolding redact_all redact
redact_all-OnlyLive current [] = tt
redact_all-OnlyLive current ((key, issue) ∷ issues) = (inr refl, redact_all-OnlyLive current issues)

insert_issue-OnlyLive :
    (id : Bytes) (issue : StoredKeyIssue) (issues : List (Bytes × StoredKeyIssue))
    → OnlyLive id issues
    → OnlyLive id (insert_issue id issue issues)
unfolding insert_issue
insert_issue-OnlyLive id issue [] h = (inl refl, tt)
insert_issue-OnlyLive id issue ((key, old) ∷ issues) h = elim (Bool-cases (str_eq key id)) [
  | inl e ↦ rw e (inl refl, h.1)
  | inr e ↦ rw e (h.0, insert_issue-OnlyLive id issue issues h.1)
]

find_issue-insert_issue :
    (id : Bytes) (issue : StoredKeyIssue) (issues : List (Bytes × StoredKeyIssue))
    → find_issue id (insert_issue id issue issues) ≡ some issue
unfolding insert_issue find_issue
find_issue-insert_issue id issue [] = rw (str_eq_refl id)
find_issue-insert_issue id issue ((key, old) ∷ issues) = elim (Bool-cases (str_eq key id)) [
  | inl e ↦ rw e (rw (str_eq_refl id))
  | inr e ↦ rw e (rw e (find_issue-insert_issue id issue issues))
]

-- What a saved issue leaves sealed.
abbrev pub stored_issue : World → StreamKeyIssueRequest → StreamKeyIssueResponse → StoredKeyIssue
stored_issue w request response = record {
  fingerprint = key_issue_fingerprint w request;
  request = request;
  response = response;
}

-- The parts of a call that saves.
saved_issue :
    (w : World) (seal : SessionSecrets → Result Envelope) (r : SessionRecord)
    (secrets : SessionSecrets) (request : StreamKeyIssueRequest) (response : StreamKeyIssueResponse)
    (r' : SessionRecord) (answer : KeyIssued)
    → record_key_issue w seal r (some secrets) request response ≡ ok (saved r' answer)
    → (answer.0 ≡ response)
      × (answer.2 ≡ issued_secrets secrets (key_issue_fingerprint w request) request response)
      × (validate_stream_key_issue_request request ≡ ok tt)
      × (is_closing r' ≡ false)
unfolding record_key_issue open_secrets issue_or_replay replay_issue issue_new with_envelope
    await_activation
saved_issue w seal r secrets request response r' answer h = ground (arith)

-- After RecordKeyIssue saves a new issue, its answer is the response it was given, the request's
-- identity is the current one, the stored issue of that identity holds the response, and every
-- other stored issue has an empty stream key.
pub record_key_issue-OnlyLive :
    (w : World) (seal : SessionSecrets → Result Envelope) (r : SessionRecord)
    (secrets : SessionSecrets) (request : StreamKeyIssueRequest) (response : StreamKeyIssueResponse)
    (r' : SessionRecord) (answer : KeyIssued)
    → record_key_issue w seal r (some secrets) request response ≡ ok (saved r' answer)
    → (answer.0 ≡ response)
      × (answer.2.current_key_id ≡ request.request_id)
      × (find_issue request.request_id answer.2.key_issues ≡ some (stored_issue w request response))
      × OnlyLive request.request_id answer.2.key_issues
unfolding issued_secrets
record_key_issue-OnlyLive w seal r secrets request response r' answer h =
    let parts = saved_issue w seal r secrets request response r' answer h in
    let id = request.request_id in
    (
      parts.0,
      rw (parts.1),
      rw (parts.1) (find_issue-insert_issue id _ (redact_all secrets.key_issues)),
      rw (parts.1) (
          insert_issue-OnlyLive id _ (redact_all secrets.key_issues)
            (redact_all-OnlyLive id secrets.key_issues)),
    )

after-running {ℓ} :
    {A : Type ℓ} (r : SessionRecord) (result : Result (Change A))
    → is_closing r ≡ false
    → SavesOnly (λ q. is_closing q ≡ false) result
    → is_closing (after r result) ≡ false
after-running r (err e) running h = running
after-running r (ok (unchanged a)) running h = running
after-running r (ok (saved r' a)) running h = h

-- CompleteKeyActivation leaves a running session running.
activated-running :
    (r : SessionRecord) (loaded : Option SessionSecrets) (id : Bytes)
    → is_closing r ≡ false
    → is_closing (after r (complete_key_activation r loaded id)) ≡ false
unfolding complete_key_activation
activated-running r loaded id running =
    let Runs = λ (q : SessionRecord). is_closing q ≡ false in
    after-running r (complete_key_activation r loaded id) running (
      SavesOnly-reject Runs (not (opaque_id id)) _ _ λ _.
        SavesOnly-bind Runs (open_secrets r loaded) _ λ secrets _.
          SavesOnly-if Runs (is_empty r.pending_key_activation_id) _ _ (λ _. tt)
            λ _.
              SavesOnly-reject Runs
                (not (str_eq r.pending_key_activation_id id)
                  || not (str_eq secrets.current_key_id id))
                _ _ λ _. running)

-- A request of which the issue is stored and current.
stored-replays :
    (w : World) (seal : SessionSecrets → Result Envelope) (r : SessionRecord)
    (secrets : SessionSecrets) (request : StreamKeyIssueRequest)
    (response other : StreamKeyIssueResponse)
    → validate_stream_key_issue_request request ≡ ok tt
    → validate_stream_key_issue_response request other ≡ ok tt
    → is_closing r ≡ false
    → secrets.current_key_id ≡ request.request_id
    → find_issue request.request_id secrets.key_issues ≡ some (stored_issue w request response)
    → record_key_issue w seal r (some secrets) request other
      ≡ ok (unchanged (response, true, secrets))
unfolding record_key_issue open_secrets issue_or_replay replay_issue
stored-replays w seal r secrets request response other asked valid running current found =
    rw asked (
      rw valid (
        rw running (
          rw found (
            rw (str_eq_refl (key_issue_fingerprint w request))
              (rw current (rw (str_eq_refl request.request_id) refl))))))

-- After RecordKeyIssue saves a new issue, a retry of the request, with any other valid response and
-- whether or not the key was activated in between, saves nothing and gets the response of that issue.
pub record_key_issue-replays :
    (w : World) (seal : SessionSecrets → Result Envelope) (r : SessionRecord)
    (secrets : SessionSecrets) (request : StreamKeyIssueRequest)
    (response other : StreamKeyIssueResponse) (r' : SessionRecord) (answer : KeyIssued) (id : Bytes)
    → record_key_issue w seal r (some secrets) request response ≡ ok (saved r' answer)
    → validate_stream_key_issue_response request other ≡ ok tt
    → record_key_issue w seal
        (after r' (complete_key_activation r' (some answer.2) id))
        (some answer.2)
        request
        other
      ≡ ok (unchanged (response, true, answer.2))
record_key_issue-replays w seal r secrets request response other r' answer id h valid =
    let parts = saved_issue w seal r secrets request response r' answer h in
    let only = record_key_issue-OnlyLive w seal r secrets request response r' answer h in
    stored-replays w seal (after r' (complete_key_activation r' (some answer.2) id)) answer.2
      request response other parts.2 valid (activated-running r' (some answer.2) id parts.3) only.1
      only.2
