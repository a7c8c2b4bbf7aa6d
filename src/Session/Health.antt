-- ===== src/Session/Health.antt =====
-- live-runner/store.go: the publisher deadline, ladder restarts and the health of the output.
use livepeer_modules_transco.Prelude.{
  ℕ, ◌+◌, Bool, true, false, not, ◌||◌, none, [], ltb, leb, ◌==◌, if◌then◌else◌, Bytes, codes,
  format_uint, session_terminal, invalid, Result, ok, err, ◌>>=◌, ◌>>◌, reject,
}
use livepeer_modules_transco.Contract.Types.{
  Stamp, unset, malformed, at, stalled, session_ladder_restart, session_output_stalled, RawMessage,
  number, text, object, no_members, member, ended,
}
use livepeer_modules_transco.Contract.Ident.{is_unset, valid_ladder_failure_code}
use livepeer_modules_transco.Contract.Details.{marshal}
use livepeer_modules_transco.Session.Record.{
  SessionRecord, Change, unchanged, saved, u64_max, u32_max, output_state_text,
  output_health_details, emit,
}
use livepeer_modules_transco.Session.Output.{is_closing, is_stalled, parse_time}

-- `if base == "" { base = now; record.PublisherOfflineSince = base }`.
unfoldable pub offline_base : Stamp → ℕ → Stamp
offline_base unset now = at now
offline_base s now = s

-- The deadline of an absent publisher, set on its first call.
unfoldable pub set_deadline : SessionRecord → ℕ → ℕ → ℕ → Result SessionRecord
unfolding offline_base
set_deadline r now initial_wait reconnect_grace =
    let returning = r.publisher_seen || not (is_unset r.last_finalized_segment_at) in
    let base = offline_base r.publisher_offline_since now in
    if returning
    then (do
      start ← parse_time base (invalid "parsing time")
      ok (record r {
        publisher_offline_since = base;
        publisher_deadline = at (start + reconnect_grace);
      }))
    else (do
      start ← parse_time r.output_state_since (invalid "parsing time")
      ok (record r { publisher_deadline = at (start + initial_wait) }))

-- The record with a deadline, and whether it was set by this call.
unfoldable pub ensure_deadline : SessionRecord → ℕ → ℕ → ℕ → Result (SessionRecord × Bool)
unfolding set_deadline
ensure_deadline r now initial_wait reconnect_grace =
    if is_unset r.publisher_deadline
    then (do r' ← set_deadline r now initial_wait reconnect_grace; ok (r', true))
    else ok (r, false)

unfoldable pub stop_for_disconnect : SessionRecord → SessionRecord
stop_for_disconnect r = record r {
  stopping = true;
  pending_close_reason = codes "publisher_disconnect";
  pending_terminal_state = ended;
  pending_key_activation_id = [];
}

unfoldable pub expire_by_deadline : SessionRecord → Bool → ℕ → Result (Change Bool)
unfolding stop_for_disconnect
expire_by_deadline r changed now = do
  deadline ← parse_time r.publisher_deadline (invalid "parsing time")
  ok (
      if leb deadline now
      then saved (stop_for_disconnect r) true
      else if changed
      then saved r false
      else unchanged false)

unfoldable pub expire_absent_publisher : SessionRecord → ℕ → ℕ → ℕ → Result (Change Bool)
unfolding ensure_deadline expire_by_deadline
expire_absent_publisher r now initial_wait reconnect_grace = do
  reject (now == 0 || (initial_wait == 0 || reconnect_grace == 0))
      (invalid "publisher deadlines are invalid")
  reject (is_closing r) session_terminal
  if not (is_unset r.ingest_online_at) then ok (unchanged false) else (do
    (r', changed) ← ensure_deadline r now initial_wait reconnect_grace
    expire_by_deadline r' changed now)

-- `windowAt.IsZero() || now.Sub(windowAt) > window`; a stamp that does not parse reads as zero.
unfoldable pub window_over : Stamp → ℕ → ℕ → Bool
window_over (at start) now window = start == 0 || ltb (start + window) now
window_over _ now window = true

unfoldable pub open_window : SessionRecord → ℕ → ℕ → SessionRecord
unfolding window_over
open_window r now window =
    if window_over r.ladder_failure_window_at now window
    then record r { ladder_failure_window_at = at now; ladder_consecutive_failures = 0 }
    else r

unfoldable pub restart_details : SessionRecord → Bytes → RawMessage
unfolding output_state_text
restart_details r code = marshal (
    object (
      member (codes "attempt") (number (format_uint r.ladder_consecutive_failures)) (
        member (codes "code") (text code)
          (member (codes "output_state") (text (output_state_text r.output_state)) no_members))))

-- The record with the restart counted.
unfoldable pub count_restart : SessionRecord → Bytes → SessionRecord
count_restart r code = record r {
  ladder_consecutive_failures = r.ladder_consecutive_failures + 1;
  last_ladder_failure_code = code;
}

unfoldable pub emit_restart : SessionRecord → Bytes → ℕ → Result (Change ℕ)
unfolding emit restart_details count_restart
emit_restart r code now = do
  reject (r.ladder_consecutive_failures == u32_max || r.last_sequence == u64_max)
      (invalid "ladder restart counter overflow")
  r' ←
      emit (count_restart r code) session_ladder_restart now none
        (restart_details (count_restart r code) code)
  ok (saved r' (r.ladder_consecutive_failures + 1))

unfoldable pub record_ladder_restart : SessionRecord → Bytes → ℕ → ℕ → Result (Change ℕ)
unfolding open_window emit_restart
record_ladder_restart r code now window = do
  reject (not (valid_ladder_failure_code code false) || (now == 0 || window == 0))
      (invalid "ladder restart observation is invalid")
  reject (is_closing r) session_terminal
  emit_restart (open_window r now window) code now

-- recordOutputStalledLockedV1.
unfoldable pub record_output_stalled_locked : SessionRecord → ℕ → Result SessionRecord
unfolding emit output_health_details
record_output_stalled_locked r t = do
  reject (r.last_sequence == u64_max) (invalid "event sequence overflow")
  let r' = record r { output_state = stalled; output_state_since = at t }
  emit r' session_output_stalled t none (output_health_details r')

-- The instant from which the time without output counts: the later of the publisher's arrival
-- and the last finalized segment.
unfoldable pub output_base : ℕ → Stamp → Result ℕ
output_base base unset = ok base
output_base base (malformed s) = err (invalid "durable output time is invalid")
output_base base (at last) = ok (if ltb base last then last else base)

-- What the health check returns: whether the output failed, and whether it is newly stalled.
unfoldable pub judge_output : SessionRecord → ℕ → ℕ → ℕ → ℕ → Result (Change (Bool × Bool))
unfolding record_output_stalled_locked
judge_output r base t stall_after fail_after =
    if leb (base + fail_after) t
    then ok (unchanged (true, false))
    else if ltb t (base + stall_after) || is_stalled r.output_state
    then ok (unchanged (false, false))
    else (do r' ← record_output_stalled_locked r t; ok (saved r' (false, true)))

unfoldable pub evaluate_output_health : SessionRecord → ℕ → ℕ → ℕ → Result (Change (Bool × Bool))
unfolding output_base judge_output
evaluate_output_health r t stall_after fail_after = do
  reject (t == 0 || (stall_after == 0 || leb fail_after stall_after))
      (invalid "output health deadlines are invalid")
  reject (is_closing r) session_terminal
  if is_unset r.ingest_online_at then ok (unchanged (false, false)) else (do
    online ← parse_time r.ingest_online_at (invalid "durable ingest time is invalid")
    base ← output_base online r.last_finalized_segment_at
    judge_output r base t stall_after fail_after)

unfoldable pub record_output_stalled : SessionRecord → ℕ → Result (Change Bool)
unfolding record_output_stalled_locked
record_output_stalled r t = do
  reject (t == 0) (invalid "output stall time is required")
  reject (is_closing r) session_terminal
  if is_stalled r.output_state
      then ok (unchanged false)
      else (do r' ← record_output_stalled_locked r t; ok (saved r' true))
