-- ===== src/Tests/Policy.antt =====
-- Runs of metering and of the retry policy.
use livepeer_modules_transco.Prelude.{
  ℕ, ◌-◌, ◌*◌, ◌≤◌, ◌<◌, ◌≡◌, refl, Bool, false, List, [], ◌∷◌, arith, all, codes, str_eq, is_empty,
  elem, format_uint, ok,
}
use livepeer_modules_transco.Contract.Ident.{opaque_id, event_id, valid_state}
use livepeer_modules_transco.Contract.Event.{
  accept, validate_event, validate_event_type, has_wrong_unit, cursor_with_usage, usage_decreases,
}
use livepeer_modules_transco.Contract.Details.{validate_safe_event_details}
use livepeer_modules_transco.Session.Record.{SessionRecord, Change, unchanged, after}
use livepeer_modules_transco.Session.Output.{FinalizedSegment, record_finalized_segments}
use livepeer_modules_transco.Session.Callback.{callback_retry_delay}
use livepeer_modules_transco.Session.Lifecycle.{
  advance, append_event, event_cursor, misses_meter, misses_reason,
}
use livepeer_modules_transco.Session.Keys.{with_envelope}
use livepeer_modules_transco.Session.Create.{new_record}
use livepeer_modules_transco.Session.Operations.{step, advances}
use livepeer_modules_transco.Session.Invariant.{Inv}
use livepeer_modules_transco.Session.Safe.Runs.{step-Inv}
use livepeer_modules_transco.Session.Laws.Metering.{
  record_finalized_segments-bills, IsBilled, new_time,
}
use livepeer_modules_transco.Session.Laws.Delivery.{callback_retry_delay-near, backoff}
use livepeer_modules_transco.Tests.Fixtures.{
  test_world, test_record, test_record-Inv, started_event,
}

-- The session after its first event.
abbrev test_started : SessionRecord
test_started = step test_world test_record (advances started_event)

test_started-Inv : Inv test_world test_started
test_started-Inv =
    step-Inv test_world test_record (advances started_event) (omega arith, tt) test_record-Inv

-- The second segment and the third are one.
abbrev test_segments : List FinalizedSegment
test_segments =
    record { uri = codes "s1.ts"; duration_microseconds = 2500000 }
    ∷ record { uri = codes "s2.ts"; duration_microseconds = 1500000 }
    ∷ record { uri = codes "s2.ts"; duration_microseconds = 1500000 }
    ∷ []

record_finalized_segments-bills_example :
    (c : Change Bool) × (record_finalized_segments test_world test_started test_segments 1003
      ≡ ok c)
    × IsBilled test_world test_started test_segments 1003 (after test_started (ok c))
    × ((t' : ℕ)
        → 0 < t'
        → record_finalized_segments test_world (after test_started (ok c)) test_segments t'
          ≡ ok (unchanged false))
unfolding step advance append_event event_cursor accept validate_event validate_event_type opaque_id
    event_id validate_safe_event_details new_record with_envelope new_time is_empty format_uint
    str_eq elem misses_meter misses_reason has_wrong_unit valid_state cursor_with_usage
    usage_decreases all
record_finalized_segments-bills_example =
    record_finalized_segments-bills test_world test_started test_segments 1003 test_started-Inv refl
      (omega arith) (omega arith) (omega arith)
      ((refl, omega arith), ((refl, omega arith), ((refl, omega arith), tt))) (omega arith)

callback_retry_delay-near_example :
    (0 < callback_retry_delay test_world (codes "run-1:1") 4 1000 60000)
    × (callback_retry_delay test_world (codes "run-1:1") 4 1000 60000 ≤ 60000)
    × (3 * backoff (4 - 1) 1000 60000
        ≤ 4 * callback_retry_delay test_world (codes "run-1:1") 4 1000 60000)
    × (4 * callback_retry_delay test_world (codes "run-1:1") 4 1000 60000
        ≤ 5 * backoff (4 - 1) 1000 60000)
callback_retry_delay-near_example =
    callback_retry_delay-near test_world (codes "run-1:1") 4 1000 60000 (omega arith) (omega arith)
