-- ===== src/Session/Safe/Runs.antt =====
-- Histories of store calls, and the invariant.
use livepeer_modules_transco.Prelude.{
  ℕ, ◌≡◌, refl, not, ◌||◌, List, [], ◌∷◌, arith, ◌==◌, is_empty, session_terminal, Result, ok, err,
}
use livepeer_modules_transco.Contract.Types.{ended, failed}
use livepeer_modules_transco.Contract.Ident.{is_active, is_ended, is_failed}
use livepeer_modules_transco.Session.Record.{
  World, SessionRecord, Change, unchanged, saved, after, SavesOnly,
}
use livepeer_modules_transco.Session.Lifecycle.{
  advance, final_event, finalize_termination, after_final, begin_termination, begin_failure,
}
use livepeer_modules_transco.Session.Operations.{
  Operation, finalized_segments, heartbeat, ingest_presence, absent_publisher, ladder_restart,
  output_health, output_stalled, begin_end, begin_fail, advances, finalizes, acknowledges, reserves,
  retry_failure, parks, clears_secrets, issues_key, activates_key, step, run, IsClaimed, AreClaimed,
}
use livepeer_modules_transco.Session.Check.{validate_session_record}
use livepeer_modules_transco.Session.Invariant.{Inv, validate-Inv}
use livepeer_modules_transco.Session.Safe.Output.{
  record_finalized_segments-Inv, record_heartbeat-Inv, record_ingest_presence-Inv,
}
use livepeer_modules_transco.Session.Safe.Health.{
  expire_absent_publisher-Inv, record_ladder_restart-Inv, evaluate_output_health-Inv,
  record_output_stalled-Inv,
}
use livepeer_modules_transco.Session.Safe.Lifecycle.{begin_terminal-Inv, advance-Inv}
use livepeer_modules_transco.Session.Safe.Callback.{
  acknowledge_event-Inv, reserve_callback_attempt-Inv, record_callback_retry_failure-Inv,
  park_callback_rejection-Inv, clear_terminal_secrets-Inv,
}
use livepeer_modules_transco.Session.Safe.Keys.{record_key_issue-Inv, complete_key_activation-Inv}
use livepeer_modules_transco.Session.Safe.Rules.{SavesOnly-reject, SavesOnly-if}

after-Inv {ℓ} :
    {A : Type ℓ} (w : World) (r : SessionRecord) (result : Result (Change A))
    → Inv w r
    → SavesOnly (Inv w) result
    → Inv w (after r result)
after-Inv w r (err e) v h = v
after-Inv w r (ok (unchanged a)) v h = v
after-Inv w r (ok (saved r' a)) v h = h

after_final-saves :
    (w : World) (r : SessionRecord) (result : Result (Change (Unit {0})))
    → SavesOnly (Inv w) result
    → SavesOnly (Inv w) (after_final r result)
unfolding after_final
after_final-saves w r (ok c) h = h
after_final-saves w r (err session_terminal) h = tt
after_final-saves w r (err e) h = tt

-- FinalizeLiveTerminationV1 saves only records with the invariant.
finalize_termination-Inv :
    (w : World) (r : SessionRecord) (now : ℕ)
    → Inv w r
    → SavesOnly (Inv w) (finalize_termination r now)
unfolding finalize_termination final_event
finalize_termination-Inv w r now v =
    SavesOnly-reject (Inv w) (is_empty r.broker_session_id || now == 0) _ _ λ _.
      SavesOnly-if (Inv w) (is_ended r.state || is_failed r.state) _ _ (λ _. tt)
        λ _. SavesOnly-reject (Inv w) (not (is_active r.state) || not r.stopping) _ _ λ _.
          after_final-saves w r (advance r (final_event r now))
            (advance-Inv w r (final_event r now) v (omega arith) refl)

-- One call keeps the invariant.
pub step-Inv :
    (w : World) (r : SessionRecord) (op : Operation)
    → IsClaimed r op
    → Inv w r
    → Inv w (step w r op)
unfolding step begin_termination begin_failure
step-Inv w r (finalized_segments segments t) c v =
    after-Inv w r _ v (record_finalized_segments-Inv w r segments t v)
step-Inv w r (heartbeat t interval) c v = after-Inv w r _ v (record_heartbeat-Inv w r t interval v)
step-Inv w r (ingest_presence online t) c v =
    after-Inv w r _ v (record_ingest_presence-Inv w r online t v)
step-Inv w r (absent_publisher now initial grace) c v =
    after-Inv w r _ v (expire_absent_publisher-Inv w r now initial grace v)
step-Inv w r (ladder_restart code now window) c v =
    after-Inv w r _ v (record_ladder_restart-Inv w r code now window v)
step-Inv w r (output_health t stall fail) c v =
    after-Inv w r _ v (evaluate_output_health-Inv w r t stall fail v)
step-Inv w r (output_stalled t) c v = after-Inv w r _ v (record_output_stalled-Inv w r t v)
step-Inv w r (begin_end reason) c v = after-Inv w r _ v (begin_terminal-Inv w r reason ended v)
step-Inv w r (begin_fail reason) c v = after-Inv w r _ v (begin_terminal-Inv w r reason failed v)
step-Inv w r (advances e) c v = after-Inv w r _ v (advance-Inv w r e v c.0 c.1)
step-Inv w r (finalizes now) c v = after-Inv w r _ v (finalize_termination-Inv w r now v)
step-Inv w r (acknowledges id) c v = after-Inv w r _ v (acknowledge_event-Inv w r id v)
step-Inv w r (reserves id t initial maximum) c v =
    after-Inv w r _ v (reserve_callback_attempt-Inv w r id t initial maximum v)
step-Inv w r (retry_failure id status code) c v =
    after-Inv w r _ v (record_callback_retry_failure-Inv w r id status code v)
step-Inv w r (parks id status code t) c v =
    after-Inv w r _ v (park_callback_rejection-Inv w r id status code t v)
step-Inv w r clears_secrets c v = after-Inv w r _ v (clear_terminal_secrets-Inv w r v)
step-Inv w r (issues_key seal secrets request response) c v =
    after-Inv w r _ v (record_key_issue-Inv w seal r secrets request response c v)
step-Inv w r (activates_key secrets id) c v =
    after-Inv w r _ v (complete_key_activation-Inv w r secrets id v)

pub run-Inv :
    (w : World) (r : SessionRecord) (ops : List Operation)
    → AreClaimed w r ops
    → Inv w r
    → Inv w (run w r ops)
unfolding run
run-Inv w r [] c v = v
run-Inv w r (op ∷ ops) c v = run-Inv w (step w r op) ops c.1 (step-Inv w r op c.0 v)

-- After any history of the store's calls that save the record of a session that exists, the calls on
-- stream keys and failed calls included, validateSessionRecordV1 accepts the record that is on disk
-- under that record's broker session identity. The first record has the invariant, each Advance
-- carries no usage or the record's own and a sequence in uint64, and each sealing of secrets yields
-- four non-empty texts.
pub run-validates :
    (w : World) (r : SessionRecord) (ops : List Operation)
    → Inv w r
    → AreClaimed w r ops
    → validate_session_record w (run w r ops) (run w r ops).broker_session_id ≡ ok tt
run-validates w r ops v c = validate-Inv w (run w r ops) (run-Inv w r ops c v)
