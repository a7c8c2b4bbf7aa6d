-- ===== src/Session/Laws/Terminal.antt =====
-- live-runner/store.go: sessions whose state is not active.
use livepeer_modules_transco.Prelude.{
  ℕ, ◌≡◌, refl, ◌∙◌, inl, inr, Bool, true, false, not, ◌||◌, List, [], ◌∷◌, ltb, leb, ◌==◌,
  Bool-cases, length, Bytes, is_empty, Option, none, some, session_terminal, Error, Result, ok, err,
  ◌>>=◌, ◌>>◌, reject,
}
use livepeer_modules_transco.Contract.Types.{State, ended, failed, RunnerEvent}
use livepeer_modules_transco.Contract.Ident.{
  opaque_id, is_active, is_ended, is_failed, valid_close_reason, valid_ladder_failure_code,
}
use livepeer_modules_transco.Session.Record.{
  World, SessionRecord, Change, unchanged, saved, after, SavesOnly, u64_max,
}
use livepeer_modules_transco.Session.Output.{
  is_closing, record_finalized_segments, record_heartbeat, record_ingest_presence,
}
use livepeer_modules_transco.Session.Health.{
  expire_absent_publisher, record_ladder_restart, evaluate_output_health, record_output_stalled,
}
use livepeer_modules_transco.Session.Lifecycle.{
  advance, begin_terminal, begin_termination, begin_failure, finalize_termination,
}
use livepeer_modules_transco.Session.Callback.{
  acknowledge_event, reserve_callback_attempt, record_callback_retry_failure,
  park_callback_rejection, clear_terminal_secrets, next_attempt, head_attempt, not_head,
  not_attempted, valid_callback_failure,
}
use livepeer_modules_transco.Session.Operations.{
  Operation, finalized_segments, heartbeat, ingest_presence, absent_publisher, ladder_restart,
  output_health, output_stalled, begin_end, begin_fail, advances, finalizes, acknowledges, reserves,
  retry_failure, parks, clears_secrets, issues_key, activates_key, step, run,
}
use livepeer_modules_transco.Contract.Types.{StreamKeyIssueRequest, StreamKeyIssueResponse}
use livepeer_modules_transco.Contract.Request.{
  validate_stream_key_issue_request, validate_stream_key_issue_response,
}
use livepeer_modules_transco.Session.Keys.{
  SessionSecrets, Envelope, open_secrets, record_key_issue, complete_key_activation,
}
use livepeer_modules_transco.Session.Safe.Rules.{SavesOnly-reject, SavesOnly-bind}

-- The session's end and its bill are the same in both records.
abbrev pub IsFrozen : SessionRecord → SessionRecord → Type 0
IsFrozen r r' =
    (r'.state ≡ r.state)
    × (r'.close_reason ≡ r.close_reason)
    × (r'.usage_total ≡ r.usage_total)
    × (r'.last_sequence ≡ r.last_sequence)
    × (r'.metered_microseconds ≡ r.metered_microseconds)
    × (r'.metered_segment_sha256 ≡ r.metered_segment_sha256)

IsFrozen-refl : (r : SessionRecord) → IsFrozen r r
IsFrozen-refl r = (refl, refl, refl, refl, refl, refl)

after-IsFrozen {ℓ} :
    {A : Type ℓ} (r : SessionRecord) (result : Result (Change A))
    → SavesOnly (IsFrozen r) result
    → IsFrozen r (after r result)
after-IsFrozen r (err e) h = IsFrozen-refl r
after-IsFrozen r (ok (unchanged a)) h = IsFrozen-refl r
after-IsFrozen r (ok (saved r' a)) h = h

-- Behind two guards of which the second refuses, nothing is saved.
refused {ℓ} :
    {A : Type ℓ} (P : SessionRecord → Type 0) (a b : Bool) (d e : Error) (k : Result (Change A))
    → b ≡ true
    → SavesOnly P (reject a d >> (reject b e >> k))
refused P true b d e k h = tt
refused P false b d e k h = rw h tt

closing_of_inactive : (r : SessionRecord) → is_active r.state ≡ false → is_closing r ≡ true
closing_of_inactive r h = rw h

advance-IsFrozen :
    (r : SessionRecord) (e : RunnerEvent)
    → is_active r.state ≡ false
    → SavesOnly (IsFrozen r) (advance r e)
unfolding advance
advance-IsFrozen r e h = rw h tt

begin-IsFrozen :
    (r : SessionRecord) (reason : Bytes) (target : State)
    → is_active r.state ≡ false
    → SavesOnly (IsFrozen r) (begin_terminal r reason target)
unfolding begin_terminal
begin-IsFrozen r reason target h =
    SavesOnly-reject (IsFrozen r) (not (valid_close_reason reason)) _ _ λ _.
      SavesOnly-reject (IsFrozen r) (not (is_ended target || is_failed target)) _ _ λ _. rw h tt

finalize-IsFrozen :
    (r : SessionRecord) (now : ℕ)
    → is_active r.state ≡ false
    → SavesOnly (IsFrozen r) (finalize_termination r now)
unfolding finalize_termination
finalize-IsFrozen r now h =
    SavesOnly-reject (IsFrozen r) (is_empty r.broker_session_id || now == 0) _ _ λ _.
      elim (Bool-cases (is_ended r.state || is_failed r.state)) [
        | inl over ↦ rw over tt
        | inr other ↦ rw (other, h) tt
      ]

-- The secrets of a session that is over are not opened.
open_secrets-closed :
    (r : SessionRecord) (loaded : Option SessionSecrets)
    → is_active r.state ≡ false
    → open_secrets r loaded ≡ err session_terminal
unfolding open_secrets
open_secrets-closed r none h = refl
open_secrets-closed r (some secrets) h = rw (closing_of_inactive r h) refl

bind-refused {ℓ κ} :
    {A : Type ℓ} {B : Type κ} (P : SessionRecord → Type 0) (m : Result A) (e : Error)
    (k : A → Result (Change B))
    → m ≡ err e
    → SavesOnly P (m >>= k)
bind-refused P m e k h = rw h tt

record_key_issue-IsFrozen :
    (w : World) (seal : SessionSecrets → Result Envelope) (r : SessionRecord)
    (loaded : Option SessionSecrets) (request : StreamKeyIssueRequest)
    (response : StreamKeyIssueResponse)
    → is_active r.state ≡ false
    → SavesOnly (IsFrozen r) (record_key_issue w seal r loaded request response)
unfolding record_key_issue
record_key_issue-IsFrozen w seal r loaded request response h =
    SavesOnly-bind (IsFrozen r) (validate_stream_key_issue_request request) _ λ _ _.
      SavesOnly-bind (IsFrozen r) (validate_stream_key_issue_response request response) _ λ _ _.
        bind-refused (IsFrozen r) (open_secrets r loaded) session_terminal _
          (open_secrets-closed r loaded h)

complete_key_activation-IsFrozen :
    (r : SessionRecord) (loaded : Option SessionSecrets) (id : Bytes)
    → is_active r.state ≡ false
    → SavesOnly (IsFrozen r) (complete_key_activation r loaded id)
unfolding complete_key_activation
complete_key_activation-IsFrozen r loaded id h =
    SavesOnly-reject (IsFrozen r) (not (opaque_id id)) _ _ λ _.
      bind-refused (IsFrozen r) (open_secrets r loaded) session_terminal _
        (open_secrets-closed r loaded h)

-- On a session that is not active no call of the store changes the state, the close reason,
-- the usage, the metered time and segments, or the event sequence.
pub step-IsFrozen :
    (w : World) (r : SessionRecord) (op : Operation)
    → is_active r.state ≡ false
    → IsFrozen r (step w r op)
unfolding step record_finalized_segments record_heartbeat record_ingest_presence
    expire_absent_publisher record_ladder_restart evaluate_output_health record_output_stalled
    begin_termination begin_failure acknowledge_event reserve_callback_attempt
    record_callback_retry_failure park_callback_rejection clear_terminal_secrets
step-IsFrozen w r (finalized_segments segments t) h =
    after-IsFrozen r (record_finalized_segments w r segments t)
      (refused (IsFrozen r) (t == 0) (is_closing r) _ _ _ (closing_of_inactive r h))
step-IsFrozen w r (heartbeat t interval) h =
    after-IsFrozen r (record_heartbeat r t interval) (
      refused (IsFrozen r) (t == 0 || interval == 0) (is_closing r) _ _ _ (closing_of_inactive r h))
step-IsFrozen w r (ingest_presence online t) h =
    after-IsFrozen r (record_ingest_presence r online t)
      (refused (IsFrozen r) (t == 0) (is_closing r) _ _ _ (closing_of_inactive r h))
step-IsFrozen w r (absent_publisher now initial grace) h =
    after-IsFrozen r (expire_absent_publisher r now initial grace) (
      refused (IsFrozen r) (now == 0 || (initial == 0 || grace == 0)) (is_closing r) _ _ _
        (closing_of_inactive r h))
step-IsFrozen w r (ladder_restart code now window) h =
    after-IsFrozen r (record_ladder_restart r code now window) (
      refused (IsFrozen r) (not (valid_ladder_failure_code code false) || (now == 0 || window == 0))
        (is_closing r) _ _ _ (closing_of_inactive r h))
step-IsFrozen w r (output_health t stall fail) h =
    after-IsFrozen r (evaluate_output_health r t stall fail) (
      refused (IsFrozen r) (t == 0 || (stall == 0 || leb fail stall)) (is_closing r) _ _ _
        (closing_of_inactive r h))
step-IsFrozen w r (output_stalled t) h =
    after-IsFrozen r (record_output_stalled r t)
      (refused (IsFrozen r) (t == 0) (is_closing r) _ _ _ (closing_of_inactive r h))
step-IsFrozen w r (begin_end reason) h =
    after-IsFrozen r (begin_termination r reason) (begin-IsFrozen r reason ended h)
step-IsFrozen w r (begin_fail reason) h =
    after-IsFrozen r (begin_failure r reason) (begin-IsFrozen r reason failed h)
step-IsFrozen w r (advances e) h = after-IsFrozen r (advance r e) (advance-IsFrozen r e h)
step-IsFrozen w r (finalizes now) h =
    after-IsFrozen r (finalize_termination r now) (finalize-IsFrozen r now h)
step-IsFrozen w r (acknowledges id) h =
    after-IsFrozen r (acknowledge_event r id)
      (SavesOnly-reject (IsFrozen r) (not_head r.pending_events id) _ _ (λ _. IsFrozen-refl r))
step-IsFrozen w r (reserves id t initial maximum) h =
    after-IsFrozen r (reserve_callback_attempt w r id t initial maximum) (
      SavesOnly-reject (IsFrozen r)
        (is_empty id || (t == 0 || (initial == 0 || ltb maximum initial))) _ _
        (λ _. SavesOnly-reject (IsFrozen r) (not_head r.pending_events id) _ _ (λ _.
          SavesOnly-bind (IsFrozen r) (next_attempt r.callback_delivery id t) _
            (λ _ _. IsFrozen-refl r))))
step-IsFrozen w r (retry_failure id status code) h =
    after-IsFrozen r (record_callback_retry_failure r id status code) (
      SavesOnly-reject (IsFrozen r) (not (valid_callback_failure status code true)) _ _ (λ _.
        SavesOnly-reject (IsFrozen r)
          (not_attempted r.callback_delivery id || not_head r.pending_events id) _ _
          (λ _. IsFrozen-refl r)))
step-IsFrozen w r (parks id status code t) h =
    after-IsFrozen r (park_callback_rejection r id status code t) (
      SavesOnly-reject (IsFrozen r) (t == 0 || not (valid_callback_failure status code false)) _ _
        (λ _.
          SavesOnly-bind (IsFrozen r) (head_attempt r.pending_events r.callback_delivery id) _
            (λ _ _.
              SavesOnly-reject (IsFrozen r) (r.callback_rejected_total == u64_max) _ _
                (λ _. IsFrozen-refl r))))
step-IsFrozen w r clears_secrets h = after-IsFrozen r (clear_terminal_secrets r) (
    SavesOnly-reject (IsFrozen r) (is_active r.state || not (length r.pending_events == 0)) _ _
      (λ _. IsFrozen-refl r))
step-IsFrozen w r (issues_key seal secrets request response) h =
    after-IsFrozen r (record_key_issue w seal r secrets request response)
      (record_key_issue-IsFrozen w seal r secrets request response h)
step-IsFrozen w r (activates_key secrets id) h =
    after-IsFrozen r (complete_key_activation r secrets id)
      (complete_key_activation-IsFrozen r secrets id h)

-- On a session whose state is not active, no history of the store's calls that save the record of a
-- session that exists, the calls on stream keys included, changes the state, the close reason, the
-- usage, the metered time and segments, or the event sequence.
pub run-IsFrozen :
    (w : World) (r : SessionRecord) (ops : List Operation)
    → is_active r.state ≡ false
    → IsFrozen r (run w r ops)
unfolding run
run-IsFrozen w r [] h = IsFrozen-refl r
run-IsFrozen w r (op ∷ ops) h =
    let first = step-IsFrozen w r op h in
    let rest = run-IsFrozen w (step w r op) ops (rw (first.0) h) in
    (
      rest.0 ∙ first.0,
      rest.1 ∙ first.1,
      rest.2 ∙ first.2,
      rest.3 ∙ first.3,
      rest.4 ∙ first.4,
      rest.5 ∙ first.5,
    )
