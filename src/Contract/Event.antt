-- ===== src/Contract/Event.antt =====
-- live-runner/contract.go: ValidateEventV1, the event cursor and the metered timeline.
use livepeer_modules_transco.Prelude.{
  ℕ, ◌+◌, ◌/◌, ◌%◌, ◌^◌, Bool, true, false, not, ◌&&◌, ◌||◌, Option, none, some, List, [], ◌∷◌, ltb,
  leb, ◌==◌, if◌then◌else◌, Bytes, codes, str_eq, elem, invalid, Result, ok, err, ◌>>=◌, ◌>>◌,
  reject,
}
use livepeer_modules_transco.Contract.Types.{
  EventType, session_usage_tick, session_failed, session_ended, unknown_event, RunnerEvent,
  EventCursor, Usage,
}
use livepeer_modules_transco.Contract.Ident.{
  opaque_id, valid_state, valid_close_reason, is_active, is_ended, is_failed, is_time,
}
use livepeer_modules_transco.Contract.Details.{validate_safe_event_details}

abbrev pub work_unit : Bytes
work_unit = codes "output_seconds"

abbrev pub is_none {ℓ} : {A : Type ℓ} → Option A → Bool
is_none none = true
is_none (some a) = false

-- `CloseReason == nil || !validCloseReasonV1(*CloseReason)`.
unfoldable pub lacks_close_reason : Option Bytes → Bool
unfolding valid_close_reason
lacks_close_reason none = true
lacks_close_reason (some reason) = not (valid_close_reason reason)

-- `Usage != nil && Usage.Unit != WorkUnitV1`.
unfoldable pub has_wrong_unit : Option Usage → Bool
unfolding str_eq
has_wrong_unit none = false
has_wrong_unit (some u) = not (str_eq u.unit work_unit)

-- The switch on the event type.
unfoldable pub validate_event_type : EventType → RunnerEvent → Result (Unit {0})
unfolding lacks_close_reason
validate_event_type session_usage_tick e =
    reject (not (is_active e.state) || is_none e.usage) (invalid "usage event is invalid")
validate_event_type session_failed e =
    reject (not (is_failed e.state) || (is_none e.usage || lacks_close_reason e.close_reason))
      (invalid "failed event is invalid")
validate_event_type session_ended e =
    reject (not (is_ended e.state) || (is_none e.usage || lacks_close_reason e.close_reason))
      (invalid "ended event is invalid")
validate_event_type (unknown_event s) e = err (invalid "event type is invalid")
validate_event_type _ e = reject (not (is_active e.state)) (invalid "liveness event must be active")

unfoldable pub validate_event : RunnerEvent → Result (Unit {0})
unfolding validate_event_type has_wrong_unit valid_state
validate_event e = do
  reject (not (opaque_id e.event_id) || e.sequence == 0) (invalid "event identity is invalid")
  reject (not (is_time e.event_time)) (invalid "event time is invalid")
  reject (not (valid_state e.state)) (invalid "event state is invalid")
  validate_event_type e.event_type e
  reject (has_wrong_unit e.usage) (invalid "event work unit is invalid")
  validate_safe_event_details e.details

-- `next != nil && known && next.Total < total`.
unfoldable pub usage_decreases : Option Usage → Bool → ℕ → Bool
usage_decreases none known total = false
usage_decreases (some u) known total = known && ltb u.total total

unfoldable pub previous_usage : Option Usage → ℕ
previous_usage none = 0
previous_usage (some u) = u.total

unfoldable pub validate_event_advance : RunnerEvent → RunnerEvent → Result (Unit {0})
unfolding usage_decreases previous_usage
validate_event_advance previous next = do
  validate_event next
  reject (leb next.sequence previous.sequence || str_eq next.event_id previous.event_id)
      (invalid "event sequence did not advance")
  reject (usage_decreases next.usage (not (is_none previous.usage)) (previous_usage previous.usage))
      (invalid "cumulative usage decreased")

unfoldable pub cursor_with_usage : EventCursor → Option Usage → EventCursor
cursor_with_usage cursor none = cursor
cursor_with_usage cursor (some u) = record cursor { usage_total = u.total; has_usage = true }

-- EventCursorV1.Accept: the cursor after the event, or the reason for refusing it.
unfoldable pub accept : EventCursor → RunnerEvent → Result EventCursor
unfolding usage_decreases cursor_with_usage
accept cursor e = do
  validate_event e
  reject (leb e.sequence cursor.sequence) (invalid "event sequence did not advance")
  reject (elem e.event_id cursor.seen_ids) (invalid "event ID was reused")
  reject (usage_decreases e.usage cursor.has_usage cursor.usage_total)
      (invalid "cumulative usage decreased")
  ok (
      cursor_with_usage
        (record cursor { sequence = e.sequence; seen_ids = e.event_id ∷ cursor.seen_ids }) e.usage)

abbrev pub u64_limit : ℕ
u64_limit = 2 ^ 64

-- bits.Add64(a, b, 0): the sum modulo 2 ^ 64 and the carry.
unfoldable pub add64 : ℕ → ℕ → ℕ × ℕ
add64 a b = ((a + b) % u64_limit, (a + b) / u64_limit)

-- The summing loop of CalculateOutputSecondsV1.
unfoldable pub sum_durations : ℕ → List ℕ → Result ℕ
unfolding add64
sum_durations total [] = ok total
sum_durations total (d ∷ ds) =
    let (sum, carry) = add64 total d in
    let rest = sum_durations sum ds in
    if carry == 0 then rest else err (invalid "output timeline overflow")

unfoldable pub calculate_output_seconds : List ℕ → Result ℕ
unfolding sum_durations
calculate_output_seconds durations = do total ← sum_durations 0 durations; ok (total / 1000000)
