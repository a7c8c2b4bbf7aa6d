-- ===== src/Session/Lifecycle.antt =====
-- live-runner/store.go and recovery.go: advancing a session by an event, and ending it.
use livepeer_modules_transco.Prelude.{
  ℕ, ◌+◌, ◌/◌, ◌%◌, Bool, true, false, not, ◌&&◌, ◌||◌, Option, none, some, [], ◌∷◌, ◌++◌, map, ltb,
  ◌==◌, if◌then◌else◌, length, Bytes, str_eq, is_empty, session_terminal, invalid, Result, ok, err,
  ◌>>=◌, ◌>>◌, reject,
}
use livepeer_modules_transco.Contract.Types.{
  State, ended, failed, unknown, session_ended, session_failed, RunnerEvent, EventCursor, Usage, at,
}
use livepeer_modules_transco.Contract.Ident.{
  event_id, is_active, is_failed, is_ended, valid_close_reason,
}
use livepeer_modules_transco.Contract.Event.{accept, u64_limit}
use livepeer_modules_transco.Session.Record.{
  SessionRecord, Change, unchanged, saved, output_health_details, usage_of,
}

-- `event.CloseReason == nil || *event.CloseReason != reason`.
unfoldable pub misses_reason : Option Bytes → Bytes → Bool
misses_reason none reason = true
misses_reason (some given) reason = not (str_eq given reason)

-- `event.Usage != nil && event.Usage.Total != metered / 1_000_000`.
unfoldable pub misses_meter : Option Usage → ℕ → Bool
misses_meter none metered = false
misses_meter (some u) metered = not (u.total == metered / 1000000)

abbrev pub has_meter : SessionRecord → Bool
has_meter r = ltb 0 r.metered_microseconds || ltb 0 (length r.metered_segment_sha256)

unfoldable pub event_cursor : SessionRecord → EventCursor
event_cursor r = record {
  sequence = r.last_sequence;
  usage_total = r.usage_total;
  has_usage = ltb 0 r.last_sequence;
  seen_ids = map (λ e. e.event_id) r.pending_events;
}

-- `*event.CloseReason`, which Accept has found present in a terminal event.
unfoldable pub reason_of : Option Bytes → Bytes
reason_of none = []
reason_of (some reason) = reason

-- The record after a terminal event.
unfoldable pub close_session : SessionRecord → RunnerEvent → SessionRecord
unfolding reason_of
close_session r e = record r {
  state = e.state;
  close_reason = reason_of e.close_reason;
  stopping = false;
  pending_close_reason = [];
  pending_terminal_state = unknown [];
  pending_key_activation_id = [];
}

-- The record with an accepted event.
unfoldable pub append_event : SessionRecord → EventCursor → RunnerEvent → SessionRecord
unfolding close_session
append_event r cursor e =
    let r' = record r {
      last_sequence = cursor.sequence;
      usage_total = cursor.usage_total;
      last_event_at = e.event_time;
      pending_events = r.pending_events ++ e ∷ [];
    } in
    if is_ended e.state || is_failed e.state then close_session r' e else r'

unfoldable pub advance : SessionRecord → RunnerEvent → Result (Change (Unit {0}))
unfolding misses_reason misses_meter event_cursor append_event
advance r e = do
  reject (not (is_active r.state) || (r.stopping && is_active e.state)) session_terminal
  reject (r.stopping && misses_reason e.close_reason r.pending_close_reason)
      (invalid "terminal event does not match durable close reason")
  reject (not (str_eq e.event_id (event_id r.runner_session_id e.sequence)))
      (invalid "event ID must be derived from runner session ID and sequence")
  reject (has_meter r && misses_meter e.usage r.metered_microseconds)
      (invalid "event usage does not match the durable meter")
  cursor ← accept (event_cursor r) e
  ok (saved (append_event r cursor e) tt)

unfoldable pub begin_stopping : SessionRecord → Bytes → State → SessionRecord
begin_stopping r reason target = record r {
  stopping = true;
  pending_close_reason = reason;
  pending_terminal_state = target;
  pending_key_activation_id = [];
}

-- beginTerminalV1: the record that is returned, and whether this call began the termination.
unfoldable pub begin_terminal :
    SessionRecord → Bytes → State → Result (Change (SessionRecord × Bool))
unfolding begin_stopping
begin_terminal r reason target = do
  reject (not (valid_close_reason reason)) (invalid "termination reason is invalid")
  reject (not (is_ended target || is_failed target)) (invalid "terminal target state is invalid")
  ok (
      if not (is_active r.state) || r.stopping
      then unchanged (r, false)
      else saved (begin_stopping r reason target) (begin_stopping r reason target, true))

unfoldable pub begin_termination : SessionRecord → Bytes → Result (Change (SessionRecord × Bool))
unfolding begin_terminal
begin_termination r reason = begin_terminal r reason ended

unfoldable pub begin_failure : SessionRecord → Bytes → Result (Change (SessionRecord × Bool))
unfolding begin_terminal
begin_failure r reason = begin_terminal r reason failed

-- `if terminalState == "" { terminalState = "ended" }`.
unfoldable pub target_or_ended : State → State
target_or_ended (unknown []) = ended
target_or_ended s = s

-- The last event of a session that is stopping. The uint64 sequence wraps round.
unfoldable pub final_event : SessionRecord → ℕ → RunnerEvent
unfolding target_or_ended
final_event r now =
    let target = target_or_ended r.pending_terminal_state in
    let sequence = (r.last_sequence + 1) % u64_limit in
    record {
      event_id = event_id r.runner_session_id sequence;
      sequence = sequence;
      event_type = if is_failed target then session_failed else session_ended;
      event_time = at now;
      state = target;
      usage = some (usage_of r.usage_total);
      close_reason = some r.pending_close_reason;
      details = output_health_details r;
    }

-- The result of Advance in FinalizeLiveTerminationV1: a record that another call has ended counts
-- as done, and the record is loaded again.
unfoldable pub after_final : SessionRecord → Result (Change (Unit {0})) → Result (Change (Unit {0}))
after_final r (err session_terminal) = ok (unchanged tt)
after_final r result = result

-- FinalizeLiveTerminationV1 on the loaded record. The record it returns is the one then on disk.
unfoldable pub finalize_termination : SessionRecord → ℕ → Result (Change (Unit {0}))
unfolding advance final_event after_final
finalize_termination r now = do
  reject (is_empty r.broker_session_id || now == 0)
      (invalid "live termination finalization is invalid")
  if is_ended r.state || is_failed r.state then ok (unchanged tt) else (do
    reject (not (is_active r.state) || not r.stopping)
        (invalid "reload live termination state failed")
    after_final r (advance r (final_event r now)))
