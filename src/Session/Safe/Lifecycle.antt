-- ===== src/Session/Safe/Lifecycle.antt =====
-- Beginning a termination and advancing by an event, and the invariant.
use livepeer_modules_transco.Prelude.{
  ℕ, ◌<◌, ◌≡◌, refl, ◌∙◌, inl, inr, true, false, not, ◌&&◌, ◌||◌, Option, none, some, [], ◌∷◌, ◌++◌,
  arith, Bool-cases, Bytes, str_eq, str_eq→eq, is_empty, elem, ok,
}
use livepeer_modules_transco.Contract.Types.{
  State, EventType, session_started, session_heartbeat, session_ladder_restart,
  session_output_stalled, session_usage_tick, session_failed, session_ended, unknown_event,
  RunnerEvent, EventCursor, Usage,
}
use livepeer_modules_transco.Contract.Ident.{
  is_active, is_ended, is_failed, valid_state, valid_close_reason, event_id, is_time,
}
use livepeer_modules_transco.Contract.Event.{
  validate_event, validate_event_type, lacks_close_reason, accept, cursor_with_usage, u64_limit,
}
use livepeer_modules_transco.Session.Record.{World, SessionRecord, SavesOnly}
use livepeer_modules_transco.Session.Lifecycle.{
  misses_reason, misses_meter, has_meter, event_cursor, close_session, append_event, advance,
  begin_stopping, begin_terminal,
}
use livepeer_modules_transco.Session.Check.{
  check_envelope, check_times, check_health_cursor, check_terminal, check_stopping,
  check_activation, usage_after,
}
use livepeer_modules_transco.Session.Outbox.{UsageIs, Outbox-snoc, EndsAt-snoc}
use livepeer_modules_transco.Session.Invariant.{Inv}
use livepeer_modules_transco.Session.Safe.Rules.{SavesOnly-reject, SavesOnly-choice, SavesOnly-bind}
use livepeer_modules_transco.Session.Safe.Emit.{check_delivery-append, AreLetters-later}

not_empty-reason : (c : Bytes) → valid_close_reason c ≡ true → is_empty c ≡ false
unfolding valid_close_reason is_empty elem str_eq
not_empty-reason [] h = cc
not_empty-reason (x ∷ c) h = refl

begin_stopping-Inv :
    (w : World) (r : SessionRecord) (reason : Bytes) (target : State)
    → Inv w r
    → valid_close_reason reason ≡ true
    → (is_ended target || is_failed target) ≡ true
    → (not (is_active r.state) || r.stopping) ≡ false
    → Inv w (begin_stopping r reason target)
unfolding begin_stopping check_envelope check_terminal check_stopping check_activation check_times
    check_health_cursor
begin_stopping-Inv w r reason target v valid final running = record {
  fixed = v.fixed;
  envelope = v.envelope;
  healthy = v.healthy;
  phased = (v.phased.0, v.phased.1, ground (arith, not_empty-reason reason), refl);
  ordered = v.ordered;
  metered = v.metered;
  delivery = v.delivery;
  letters = v.letters;
}

-- BeginTermination and BeginFailure save only records with the invariant.
pub begin_terminal-Inv :
    (w : World) (r : SessionRecord) (reason : Bytes) (target : State)
    → Inv w r
    → SavesOnly (Inv w) (begin_terminal r reason target)
unfolding begin_terminal
begin_terminal-Inv w r reason target v =
    SavesOnly-reject (Inv w) (not (valid_close_reason reason)) _ _ λ valid.
      SavesOnly-reject (Inv w) (not (is_ended target || is_failed target)) _ _ λ final.
        SavesOnly-choice (Inv w) (not (is_active r.state) || r.stopping) _ _ (λ _. tt)
          λ running. begin_stopping-Inv w r reason target v (ground arith) (ground arith) running

-- A terminal event names a close reason that is known.
terminal_reason :
    (type : EventType) (e : RunnerEvent)
    → validate_event_type type e ≡ ok tt
    → (is_ended e.state || is_failed e.state) ≡ true
    → (c : Bytes) × (e.close_reason ≡ some c) × (valid_close_reason c ≡ true)
unfolding validate_event_type lacks_close_reason
terminal_reason session_failed e h t = ground arith
terminal_reason session_ended e h t = ground arith
terminal_reason session_started e h t = ground arith
terminal_reason session_heartbeat e h t = ground arith
terminal_reason session_ladder_restart e h t = ground arith
terminal_reason session_output_stalled e h t = ground arith
terminal_reason session_usage_tick e h t = ground arith
terminal_reason (unknown_event s) e h t = cc

typed_of_valid :
    (e : RunnerEvent)
    → validate_event e ≡ ok tt
    → (validate_event_type e.event_type e ≡ ok tt) × (is_time e.event_time ≡ true)
unfolding validate_event
typed_of_valid e h = ground arith

accepted_parts :
    (r : SessionRecord) (e : RunnerEvent) {cursor : EventCursor}
    → accept (event_cursor r) e ≡ ok cursor
    → (validate_event e ≡ ok tt)
      × (r.last_sequence < e.sequence)
      × (cursor.sequence ≡ e.sequence)
      × (cursor.usage_total ≡ usage_after e.usage r.usage_total)
unfolding accept cursor_with_usage event_cursor usage_after
accepted_parts r e {cursor = cursor} h = ground arith

-- The record that an accepted event leaves, its cursor written out.
abbrev appended : SessionRecord → RunnerEvent → SessionRecord
appended r e = record r {
  last_sequence = e.sequence;
  last_event_at = e.event_time;
  pending_events = r.pending_events ++ e ∷ [];
}

appended-Inv :
    (w : World) (r : SessionRecord) (e : RunnerEvent)
    → Inv w r
    → validate_event e ≡ ok tt
    → e.event_id ≡ event_id r.runner_session_id e.sequence
    → r.last_sequence < e.sequence
    → e.sequence < u64_limit
    → UsageIs r.usage_total e.usage
    → Inv w (appended r e)
unfolding check_envelope check_terminal check_stopping check_activation check_times
    check_health_cursor usage_after
appended-Inv w r e v valid id later small usage = record {
  fixed = v.fixed;
  envelope = v.envelope;
  healthy = v.healthy;
  phased = v.phased;
  ordered = (
    Outbox-snoc r.runner_session_id 0 0 r.pending_events r.last_sequence r.usage_total e
        r.usage_total v.ordered.0 valid id later (ground arith) (ground arith),
    EndsAt-snoc r.pending_events e e.sequence r.usage_total refl usage,
    small,
    (λ h. omega arith),
    inr ((typed_of_valid e valid).1, omega arith),
  );
  metered = v.metered;
  delivery = check_delivery-append r.callback_delivery r.pending_events (e ∷ []) v.delivery;
  letters = (
    v.letters.0,
    v.letters.1,
    AreLetters-later r.runner_session_id r.last_sequence e.sequence r.callback_dead_letters
        (omega arith) v.letters.2,
  );
}

close_session-Inv :
    (w : World) (r : SessionRecord) (e : RunnerEvent)
    → Inv w r
    → is_active r.state ≡ true
    → validate_event e ≡ ok tt
    → (is_ended e.state || is_failed e.state) ≡ true
    → Inv w (close_session r e)
unfolding close_session check_envelope check_terminal check_stopping check_activation check_times
    check_health_cursor valid_state
close_session-Inv w r e v running valid final =
    let (c, named, known) = terminal_reason e.event_type e (typed_of_valid e valid).0 final in
    record {
      fixed = v.fixed;
      envelope = ground (arith, v.envelope);
      healthy = v.healthy;
      phased = (ground arith, ground (arith, not_empty-reason c known), ground arith, refl);
      ordered = v.ordered;
      metered = v.metered;
      delivery = v.delivery;
      letters = v.letters;
    }

usage_after-is : (o : Option Usage) (u : ℕ) → UsageIs u o → usage_after o u ≡ u
unfolding usage_after
usage_after-is none u h = refl
usage_after-is (some x) u h = h

append_event-Inv :
    (w : World) (r : SessionRecord) (cursor : EventCursor) (e : RunnerEvent)
    → Inv w r
    → is_active r.state ≡ true
    → accept (event_cursor r) e ≡ ok cursor
    → e.event_id ≡ event_id r.runner_session_id e.sequence
    → e.sequence < u64_limit
    → UsageIs r.usage_total e.usage
    → Inv w (append_event r cursor e)
unfolding append_event
append_event-Inv w r cursor e v running accepted id small usage =
    let parts = accepted_parts r e accepted in
    let total : cursor.usage_total ≡ r.usage_total =
      parts.3 ∙ usage_after-is e.usage r.usage_total usage in
    let base = appended-Inv w r e v parts.0 id parts.1 small usage in
    elim (Bool-cases (is_ended e.state || is_failed e.state)) [
      | inl final ↦
          rw (final, parts.2, total)
            (close_session-Inv w (appended r e) e base running parts.0 final)
      | inr live ↦ rw (live, parts.2, total) base
    ]

-- Advance saves only records with the invariant, for an event whose usage, if any, is the record's.
pub advance-Inv :
    (w : World) (r : SessionRecord) (e : RunnerEvent)
    → Inv w r
    → e.sequence < u64_limit
    → UsageIs r.usage_total e.usage
    → SavesOnly (Inv w) (advance r e)
unfolding advance
advance-Inv w r e v small usage =
    SavesOnly-reject (Inv w) (not (is_active r.state) || (r.stopping && is_active e.state)) _ _
      λ running.
        SavesOnly-reject (Inv w) (r.stopping && misses_reason e.close_reason r.pending_close_reason)
          _ _
          λ _.
            SavesOnly-reject (Inv w)
              (not (str_eq e.event_id (event_id r.runner_session_id e.sequence))) _ _
              λ id.
                SavesOnly-reject (Inv w)
                  (has_meter r && misses_meter e.usage r.metered_microseconds) _ _
                  λ _. SavesOnly-bind (Inv w) (accept (event_cursor r) e) _ λ cursor accepted.
                    append_event-Inv w r cursor e v (ground arith) accepted
                      (str_eq→eq e.event_id (event_id r.runner_session_id e.sequence)
                        (ground arith))
                      small usage
