-- ===== src/Session/Laws/Ending.antt =====
-- live-runner/store.go and recovery.go: the end of a stopping session.
use livepeer_modules_transco.Prelude.{
  ℕ, ◌+◌, ◌%◌, ◌<◌, ◌≡◌, refl, ap, ◌≢◌, ◌⊎◌, inl, inr, true, false, not, ◌&&◌, ◌||◌, [], ◌∷◌, ◌++◌,
  map, arith, ◌==◌, str_eq, str_eq_refl, is_empty, ok,
}
use livepeer_modules_transco.Contract.Types.{State, active, ended, failed, unknown, EventCursor, at}
use livepeer_modules_transco.Contract.Ident.{
  is_active, is_ended, is_failed, valid_state, valid_close_reason, event_id, opaque_id,
}
use livepeer_modules_transco.Contract.EventId.{event_id-opaque}
use livepeer_modules_transco.Contract.Event.{
  validate_event, validate_event_type, lacks_close_reason, has_wrong_unit, accept,
  cursor_with_usage, usage_decreases, u64_limit,
}
use livepeer_modules_transco.Session.Record.{World, SessionRecord, saved, u64_max}
use livepeer_modules_transco.Session.Lifecycle.{
  misses_reason, misses_meter, has_meter, event_cursor, reason_of, close_session, append_event,
  advance, final_event, after_final, finalize_termination, target_or_ended,
}
use livepeer_modules_transco.Session.Check.{check_stopping}
use livepeer_modules_transco.Session.Outbox.{Outbox-fresh}
use livepeer_modules_transco.Session.Invariant.{Inv}
use livepeer_modules_transco.Session.Safe.Emit.{healthy_details}

-- What the stopping record says of its end.
pub stopping_parts :
    (r : SessionRecord)
    → check_stopping r ≡ true
    → r.stopping ≡ true
    → ((r.pending_terminal_state ≡ ended) ⊎ (r.pending_terminal_state ≡ failed))
      × (valid_close_reason r.pending_close_reason ≡ true)
      × (is_ended r.state ≡ false)
      × (is_failed r.state ≡ false)
unfolding check_stopping is_empty
stopping_parts r h s = ground arith

pub valid_running :
    (s : State) → valid_state s ≡ true → is_ended s ≡ false → is_failed s ≡ false → s ≡ active
unfolding valid_state
valid_running active h e f = refl
valid_running ended h e f = cc
valid_running failed h e f = cc
valid_running (unknown s) h e f = cc

final_type-valid :
    (r : SessionRecord) (now : ℕ)
    → (r.pending_terminal_state ≡ ended) ⊎ (r.pending_terminal_state ≡ failed)
    → valid_close_reason r.pending_close_reason ≡ true
    → (validate_event_type (final_event r now).event_type (final_event r now) ≡ ok tt)
      × (valid_state (final_event r now).state ≡ true)
      × ((final_event r now).state ≡ r.pending_terminal_state)
      × ((is_ended (final_event r now).state || is_failed (final_event r now).state) ≡ true)
unfolding final_event target_or_ended validate_event_type lacks_close_reason valid_state
final_type-valid r now (inl e) v = rw (e, v) (refl, refl, refl, refl)
final_type-valid r now (inr e) v = rw (e, v) (refl, refl, refl, refl)

-- The identity, number, time, unit and details of the last event.
final_event-fields :
    (w : World) (r : SessionRecord) (now : ℕ)
    → Inv w r
    → r.last_sequence < u64_max
    → (opaque_id (final_event r now).event_id ≡ true)
      × ((final_event r now).sequence ≡ r.last_sequence + 1)
      × ((final_event r now).event_id ≡ event_id r.runner_session_id (r.last_sequence + 1))
      × (has_wrong_unit (final_event r now).usage ≡ false)
unfolding final_event has_wrong_unit str_eq
final_event-fields w r now v below =
    let same : (r.last_sequence + 1) % u64_limit ≡ r.last_sequence + 1 = omega arith in
    rw same (
      event_id-opaque r.runner_session_id (r.last_sequence + 1) v.fixed.1 v.fixed.2,
      refl,
      refl,
      refl,
    )

final_event-valid :
    (w : World) (r : SessionRecord) (now : ℕ)
    → Inv w r
    → r.stopping ≡ true
    → r.last_sequence < u64_max
    → validate_event (final_event r now) ≡ ok tt
unfolding validate_event final_event
final_event-valid w r now v stopping below =
    let parts = stopping_parts r v.phased.2 stopping in
    let typed = final_type-valid r now parts.0 parts.1 in
    let fields = final_event-fields w r now v below in
    let nonzero : ((final_event r now).sequence == 0) ≡ false = ground arith in
    rw (fields.0, nonzero, typed.1, typed.0) (healthy_details r v.healthy)

abbrev final_cursor : SessionRecord → EventCursor
final_cursor r = record {
  sequence = r.last_sequence + 1;
  usage_total = r.usage_total;
  has_usage = true;
  seen_ids =
      event_id r.runner_session_id (r.last_sequence + 1) ∷ map (λ e. e.event_id) r.pending_events;
}

-- Accept takes the last event, at any usage cursor.
accept-final :
    (w : World) (r : SessionRecord) (now : ℕ)
    → Inv w r
    → r.stopping ≡ true
    → r.last_sequence < u64_max
    → accept (event_cursor r) (final_event r now) ≡ ok (final_cursor r)
unfolding accept cursor_with_usage event_cursor usage_decreases final_event
accept-final w r now v stopping below =
    let fields = final_event-fields w r now v below in
    let fresh =
      Outbox-fresh r.runner_session_id 0 0 r.pending_events r.last_sequence r.usage_total
        (r.last_sequence + 1) v.ordered.0 (omega arith) (omega arith) in
    let same : (r.last_sequence + 1) % u64_limit ≡ r.last_sequence + 1 = omega arith in
    rw (final_event-valid w r now v stopping below) (rw (same, fresh) (ground arith))

-- The record at the end of a session, its last event in the outbox.
abbrev pub ended_record : SessionRecord → ℕ → SessionRecord
ended_record r now = record r {
  state = r.pending_terminal_state;
  close_reason = r.pending_close_reason;
  stopping = false;
  pending_close_reason = [];
  pending_terminal_state = unknown [];
  pending_key_activation_id = [];
  last_sequence = r.last_sequence + 1;
  last_event_at = at now;
  pending_events = r.pending_events ++ final_event r now ∷ [];
}

append_final :
    (r : SessionRecord) (now : ℕ) (cursor : EventCursor)
    → cursor.sequence ≡ r.last_sequence + 1
    → cursor.usage_total ≡ r.usage_total
    → (final_event r now).state ≡ r.pending_terminal_state
    → (is_ended (final_event r now).state || is_failed (final_event r now).state) ≡ true
    → append_event r cursor (final_event r now) ≡ ended_record r now
unfolding append_event close_session final_event reason_of
append_final r now cursor s u t f = ground arith

not_active : (s : State) → (is_ended s || is_failed s) ≡ true → is_active s ≡ false
not_active s h = ground arith

-- Advance's guards let the last event through.
advance-guards :
    (w : World) (r : SessionRecord) (now : ℕ)
    → Inv w r
    → ((r.stopping && misses_reason (final_event r now).close_reason r.pending_close_reason)
        ≡ false)
      × (not (
            str_eq
              (final_event r now).event_id
              (event_id r.runner_session_id (final_event r now).sequence))
          ≡ false)
      × ((has_meter r && misses_meter (final_event r now).usage r.metered_microseconds) ≡ false)
unfolding final_event misses_reason misses_meter
advance-guards w r now v = (
  ground (arith, str_eq_refl r.pending_close_reason),
  rw (str_eq_refl (event_id r.runner_session_id ((r.last_sequence + 1) % u64_limit))),
  ground (arith, v.metered.0),
)

advance-final :
    (w : World) (r : SessionRecord) (now : ℕ)
    → Inv w r
    → r.stopping ≡ true
    → r.last_sequence < u64_max
    → advance r (final_event r now) ≡ ok (saved (ended_record r now) tt)
unfolding advance
advance-final w r now v stopping below =
    let parts = stopping_parts r v.phased.2 stopping in
    let running = valid_running r.state v.phased.0 parts.2 parts.3 in
    let typed = final_type-valid r now parts.0 parts.1 in
    let guards = advance-guards w r now v in
    let first : (not (is_active r.state) || (r.stopping && is_active (final_event r now).state))
        ≡ false =
      ground (arith, not_active (final_event r now).state typed.3) in
    rw (first, guards.0, guards.1, guards.2, accept-final w r now v stopping below)
      (ap (λ q. ok (saved q tt)) (append_final r now (final_cursor r) refl refl typed.2 typed.3))

-- FinalizeLiveTerminationV1 always finishes a stopping session whose record has the invariant, at any
-- time and while a sequence number is left: it saves the record with the durable target state and
-- close reason, the same usage, and one more event at the end of the outbox.
pub finalize-closes :
    (w : World) (r : SessionRecord) (now : ℕ)
    → Inv w r
    → r.stopping ≡ true
    → r.last_sequence < u64_max
    → 0 < now
    → r.broker_session_id ≢ []
    → finalize_termination r now ≡ ok (saved (ended_record r now) tt)
unfolding finalize_termination after_final is_empty
finalize-closes w r now v stopping below time id =
    let parts = stopping_parts r v.phased.2 stopping in
    let running = valid_running r.state v.phased.0 parts.2 parts.3 in
    rw (advance-final w r now v stopping below) (ground arith)
