-- ===== src/Session/Safe/Health.antt =====
-- Publisher deadlines, ladder restarts and health checks, and the invariant.
use livepeer_modules_transco.Prelude.{
  ℕ, ◌+◌, ◌≡◌, refl, sym, ◌≢◌, inl, inr, Bool, true, false, not, ◌||◌, none, [], ◌∷◌, arith, ltb,
  leb, ◌==◌, Bool-cases, Bytes, is_empty, subst, ok, ◌>>=◌,
}
use livepeer_modules_transco.Contract.Types.{
  session_ladder_restart, session_output_stalled, Stamp, at, active, stalled,
}
use livepeer_modules_transco.Contract.Ident.{
  valid_output_state, valid_ladder_failure_code, valid_close_reason, is_unset,
}
use livepeer_modules_transco.Contract.Event.{validate_event_type, has_wrong_unit}
use livepeer_modules_transco.Session.Record.{
  World, SessionRecord, saved, SavesOnly, u64_max, u32_max, output_health_details, emit,
}
use livepeer_modules_transco.Session.Output.{is_closing, is_stalled, parse_time}
use livepeer_modules_transco.Session.Health.{
  set_deadline, ensure_deadline, stop_for_disconnect, expire_by_deadline, expire_absent_publisher,
  window_over, open_window, restart_details, count_restart, emit_restart, record_ladder_restart,
  record_output_stalled_locked, output_base, judge_output, evaluate_output_health,
  record_output_stalled, offline_base,
}
use livepeer_modules_transco.Session.Check.{
  check_envelope, check_times, check_health_cursor, check_terminal, check_stopping,
  check_activation,
}
use livepeer_modules_transco.Session.Details.{restart_details-safe}
use livepeer_modules_transco.Session.Invariant.{Inv, IsHealthy}
use livepeer_modules_transco.Session.Safe.Rules.{
  SavesOnly-reject, SavesOnly-if, SavesOnly-choice, SavesOnly-bind,
}
use livepeer_modules_transco.Session.Safe.Emit.{emit_saves, healthy_details}

-- `since` and `deadline` in place of the publisher's stamps.
abbrev with_deadline : SessionRecord → Stamp → Stamp → SessionRecord
with_deadline r since deadline = record r {
  publisher_offline_since = since;
  publisher_deadline = deadline;
}

with_deadline-Inv :
    (w : World) (r : SessionRecord) (since deadline : Stamp)
    → Inv w r
    → Inv w (with_deadline r since deadline)
unfolding check_envelope check_terminal check_stopping check_activation check_times
    check_health_cursor
with_deadline-Inv w r since deadline v = record {
  fixed = v.fixed;
  envelope = v.envelope;
  healthy = v.healthy;
  phased = v.phased;
  ordered = v.ordered;
  metered = v.metered;
  delivery = v.delivery;
  letters = v.letters;
}

ensure_deadline-with_deadline :
    (r : SessionRecord) (now initial grace : ℕ) (p : SessionRecord × Bool)
    → ensure_deadline r now initial grace ≡ ok p
    → p.0 ≡ with_deadline r p.0.publisher_offline_since p.0.publisher_deadline
unfolding ensure_deadline set_deadline offline_base
ensure_deadline-with_deadline r now initial grace p e = ground arith

closing_parts :
    (r : SessionRecord) → is_closing r ≡ false → (r.state ≡ active) × (r.stopping ≡ false)
closing_parts r h = ground arith

stop_for_disconnect-Inv :
    (w : World) (r : SessionRecord) → Inv w r → is_closing r ≡ false → Inv w (stop_for_disconnect r)
unfolding stop_for_disconnect check_envelope check_terminal check_stopping check_activation
    check_times check_health_cursor valid_close_reason
stop_for_disconnect-Inv w r v running = record {
  fixed = v.fixed;
  envelope = v.envelope;
  healthy = v.healthy;
  phased = (v.phased.0, v.phased.1, ground (arith, closing_parts r running), refl);
  ordered = v.ordered;
  metered = v.metered;
  delivery = v.delivery;
  letters = v.letters;
}

expire_by_deadline-Inv :
    (w : World) (r : SessionRecord) (changed : Bool) (now : ℕ)
    → Inv w r
    → is_closing r ≡ false
    → SavesOnly (Inv w) (expire_by_deadline r changed now)
unfolding expire_by_deadline
expire_by_deadline-Inv w r changed now v running =
    SavesOnly-bind (Inv w) (parse_time r.publisher_deadline _) _ λ deadline _.
      SavesOnly-choice (Inv w) (leb deadline now) _ _ (λ _. stop_for_disconnect-Inv w r v running)
        (λ _. SavesOnly-choice (Inv w) changed _ _ (λ _. v) (λ _. tt))

-- ExpireAbsentPublisher saves only records with the invariant.
pub expire_absent_publisher-Inv :
    (w : World) (r : SessionRecord) (now initial grace : ℕ)
    → Inv w r
    → SavesOnly (Inv w) (expire_absent_publisher r now initial grace)
unfolding expire_absent_publisher
expire_absent_publisher-Inv w r now initial grace v =
    SavesOnly-reject (Inv w) (now == 0 || (initial == 0 || grace == 0)) _ _ λ _.
      SavesOnly-reject (Inv w) (is_closing r) _ _ λ running.
        SavesOnly-if (Inv w) (not (is_unset r.ingest_online_at)) _ _ (λ _. tt)
          λ _. SavesOnly-bind (Inv w) (ensure_deadline r now initial grace) _ λ p e.
            let same = ensure_deadline-with_deadline r now initial grace p e in
            expire_by_deadline-Inv w p.0 p.1 now
              (subst (Inv w) (sym same) (with_deadline-Inv w r _ _ v))
              (subst (λ q. is_closing q ≡ false) (sym same) running)

code_with_empty :
    (code : Bytes)
    → valid_ladder_failure_code code false ≡ true
    → valid_ladder_failure_code code true ≡ true
unfolding valid_ladder_failure_code is_empty
code_with_empty [] h = refl
code_with_empty (c ∷ s) h = h

count_restart-IsHealthy :
    (r : SessionRecord) (code : Bytes) (now window : ℕ)
    → IsHealthy r
    → valid_ladder_failure_code code false ≡ true
    → IsHealthy (count_restart (open_window r now window) code)
unfolding open_window window_over count_restart check_times check_health_cursor
count_restart-IsHealthy r code now window h c =
    (ground arith, code_with_empty code c, ground arith, ground arith)

-- The window and the count of failures stand for themselves.
abbrev with_count : SessionRecord → Stamp → ℕ → Bytes → SessionRecord
with_count r window count code = record r {
  ladder_failure_window_at = window;
  ladder_consecutive_failures = count;
  last_ladder_failure_code = code;
}

count_restart-with_count :
    (r : SessionRecord) (code : Bytes) (now window : ℕ)
    → let r' = count_restart (open_window r now window) code in
      r' ≡ with_count r r'.ladder_failure_window_at r'.ladder_consecutive_failures code
unfolding open_window count_restart
count_restart-with_count r code now window = ground arith

emit_counted-Inv :
    (w : World) (r : SessionRecord) (window : Stamp) (count : ℕ) (code : Bytes) (now n : ℕ)
    → Inv w r
    → IsHealthy (with_count r window count code)
    → valid_ladder_failure_code code false ≡ true
    → r.last_sequence ≢ u64_max
    → let r' = with_count r window count code in
      SavesOnly (Inv w) (
        emit r' session_ladder_restart now none (restart_details r' code) >>= λ r''.
        ok (saved r'' n))
unfolding validate_event_type has_wrong_unit check_envelope check_terminal check_stopping
    check_activation
emit_counted-Inv w r window count code now n v healthy c below =
    let r' = with_count r window count code in
    emit_saves w r' r.usage_total session_ladder_restart now none (restart_details r' code) v.fixed
      refl refl (restart_details-safe r' code c healthy.0) n v.envelope healthy v.phased v.ordered
      v.metered v.delivery v.letters below (omega arith) tt

not_last :
    (r : SessionRecord) (now window : ℕ)
    → ((open_window r now window).ladder_consecutive_failures == u32_max
        || (open_window r now window).last_sequence == u64_max)
      ≡ false
    → r.last_sequence ≢ u64_max
unfolding open_window
not_last r now window h = ground arith

-- RecordLadderRestart saves only records with the invariant.
pub record_ladder_restart-Inv :
    (w : World) (r : SessionRecord) (code : Bytes) (now window : ℕ)
    → Inv w r
    → SavesOnly (Inv w) (record_ladder_restart r code now window)
unfolding record_ladder_restart emit_restart
record_ladder_restart-Inv w r code now window v =
    let o = open_window r now window in
    SavesOnly-reject (Inv w)
      (not (valid_ladder_failure_code code false) || (now == 0 || window == 0)) _ _
      λ valid. SavesOnly-reject (Inv w) (is_closing r) _ _ λ _.
        SavesOnly-reject (Inv w)
          (o.ladder_consecutive_failures == u32_max || o.last_sequence == u64_max) _ _
          λ below.
            let c : valid_ladder_failure_code code false ≡ true = ground arith in
            let same = count_restart-with_count r code now window in
            subst
              (λ q. SavesOnly (Inv w) (
                emit q session_ladder_restart now none (restart_details q code) >>= λ r''.
                ok (saved r'' (o.ladder_consecutive_failures + 1))))
              (sym same)
              (emit_counted-Inv w r (count_restart o code).ladder_failure_window_at
                (count_restart o code).ladder_consecutive_failures code now
                (o.ladder_consecutive_failures + 1) v
                (subst IsHealthy same (count_restart-IsHealthy r code now window v.healthy c)) c
                (not_last r now window below))

-- The stalled transition, with whatever the caller returns.
stalled-Inv {ℓ} :
    {A : Type ℓ} (w : World) (r : SessionRecord) (t : ℕ) (a : A)
    → Inv w r
    → SavesOnly (Inv w) (record_output_stalled_locked r t >>= λ r'. ok (saved r' a))
unfolding record_output_stalled_locked validate_event_type has_wrong_unit check_envelope
    check_terminal check_stopping check_activation check_times check_health_cursor
    valid_output_state
stalled-Inv w r t a v = elim (Bool-cases (r.last_sequence == u64_max)) [
  | inl last ↦ rw last tt
  | inr below ↦
      let s = record r { output_state = stalled; output_state_since = at t } in
      let healthy : IsHealthy s = (refl, v.healthy.1, ground arith, ground arith) in
      rw below (
        emit_saves w s r.usage_total session_output_stalled t none (output_health_details s) v.fixed
          refl refl (healthy_details s healthy) a v.envelope healthy v.phased v.ordered v.metered
          v.delivery v.letters (ground arith) (omega arith) tt)
]

judge_output-Inv :
    (w : World) (r : SessionRecord) (base t stall fail : ℕ)
    → Inv w r
    → SavesOnly (Inv w) (judge_output r base t stall fail)
unfolding judge_output
judge_output-Inv w r base t stall fail v =
    SavesOnly-if (Inv w) (leb (base + fail) t) _ _ (λ _. tt)
      λ _.
        SavesOnly-if (Inv w) (ltb t (base + stall) || is_stalled r.output_state) _ _ (λ _. tt)
          λ _. stalled-Inv w r t (false, true) v

-- EvaluateOutputHealth saves only records with the invariant.
pub evaluate_output_health-Inv :
    (w : World) (r : SessionRecord) (t stall fail : ℕ)
    → Inv w r
    → SavesOnly (Inv w) (evaluate_output_health r t stall fail)
unfolding evaluate_output_health
evaluate_output_health-Inv w r t stall fail v =
    SavesOnly-reject (Inv w) (t == 0 || (stall == 0 || leb fail stall)) _ _ λ _.
      SavesOnly-reject (Inv w) (is_closing r) _ _ λ _.
        SavesOnly-if (Inv w) (is_unset r.ingest_online_at) _ _ (λ _. tt)
          λ _. SavesOnly-bind (Inv w) (parse_time r.ingest_online_at _) _ λ online _.
            SavesOnly-bind (Inv w) (output_base online r.last_finalized_segment_at) _
              λ base _. judge_output-Inv w r base t stall fail v

-- RecordOutputStalled saves only records with the invariant.
pub record_output_stalled-Inv :
    (w : World) (r : SessionRecord) (t : ℕ)
    → Inv w r
    → SavesOnly (Inv w) (record_output_stalled r t)
unfolding record_output_stalled
record_output_stalled-Inv w r t v = SavesOnly-reject (Inv w) (t == 0) _ _ λ _.
    SavesOnly-reject (Inv w) (is_closing r) _ _ λ _.
      SavesOnly-if (Inv w) (is_stalled r.output_state) _ _ (λ _. tt) λ _. stalled-Inv w r t true v
