-- ===== src/Tests/Delivery.antt =====
-- Runs of the delivery of events, and the concrete instances of its theorems.
use livepeer_modules_transco.Prelude.{
  ℕ, zero, suc, ◌+◌, ◌≤◌, ◌≡◌, refl, ◌≢◌, true, false, not, ◌||◌, none, some, List, [], ◌∷◌, arith,
  ◌==◌, length, codes, is_empty, format_uint,
}
use livepeer_modules_transco.Contract.Ident.{is_active, event_id, opaque_id}
use livepeer_modules_transco.Session.Record.{SessionRecord, u64_max}
use livepeer_modules_transco.Session.Operations.{run, Operation, advances, begin_end, finalizes}
use livepeer_modules_transco.Session.Invariant.{Inv}
use livepeer_modules_transco.Session.Safe.Runs.{run-Inv}
use livepeer_modules_transco.Session.Delivery.{
  Response, answered, transport_failed, Client, has_secrets, sweep_session,
  safe_callback_error_code,
}
use livepeer_modules_transco.Session.Laws.Mailbox.{verdict, mailbox, defers}
use livepeer_modules_transco.Session.Laws.Drain.{
  serve, IsHeadDue, IsWorking, sweep_session-serve, sweep_session-drains,
}
use livepeer_modules_transco.Session.Lifecycle.{finalize_termination, begin_termination}
use livepeer_modules_transco.Contract.Ident.{valid_close_reason}
use livepeer_modules_transco.Session.Keys.{with_envelope}
use livepeer_modules_transco.Session.Create.{new_record}
use livepeer_modules_transco.Contract.Event.{accept, validate_event}
use livepeer_modules_transco.Contract.Details.{validate_safe_event_details, marshal, stamp_json}
use livepeer_modules_transco.Session.Record.{output_health_details}
use livepeer_modules_transco.Tests.Fixtures.{
  test_world, test_record, test_record-Inv, started_event,
}

-- A session that is over, with its first event and its last one to deliver.
abbrev ending_calls : List Operation
ending_calls = advances started_event ∷ begin_end (codes "gateway_close") ∷ finalizes 2000 ∷ []

abbrev over_session : SessionRecord
over_session = run test_world test_record ending_calls

over_session-Inv : Inv test_world over_session
over_session-Inv =
    run-Inv test_world test_record ending_calls ((omega arith, tt), (tt, (tt, tt))) test_record-Inv

over_session-facts :
    (length over_session.pending_events ≡ 2)
    × (has_secrets over_session ≡ true)
    × (over_session.callback_rejected_total ≡ 0)
    × (is_active over_session.state ≡ false)
unfolding run has_secrets finalize_termination is_empty begin_termination valid_close_reason
    with_envelope new_record event_id format_uint accept validate_event opaque_id
    validate_safe_event_details output_health_details marshal stamp_json
over_session-facts = (refl, refl, refl, refl)

over_session-room :
    over_session.callback_rejected_total + length over_session.pending_events ≤ u64_max
over_session-room = omega (arith, over_session-facts.0, over_session-facts.2)

-- The receiver refuses the first event and takes the others.
abbrev choosy_response : ℕ → Response
choosy_response zero = answered 409 (some (codes "sequence_conflict", []))
choosy_response (suc n) = answered 204 none

abbrev choosy_client : Client
choosy_client = record { clock = λ n. 3000 + n; response = choosy_response }

choosy_client-IsWorking : IsWorking choosy_client 500000000 30000000000
choosy_client-IsWorking = record {
  started = λ k. omega arith;
  answers = elim [ zero ↦ (omega arith, omega arith) | suc k ↦ (omega arith, omega arith) ];
  positive = omega arith;
  bounded = omega arith;
}

-- A receiver that cannot be reached.
abbrev dead_client : Client
dead_client = record { clock = λ n. 3000 + n; response = λ n. transport_failed }

dead_client-IsWorking : IsWorking dead_client 500000000 30000000000
dead_client-IsWorking = record {
  started = λ k. omega arith;
  answers = λ k. tt;
  positive = omega arith;
  bounded = omega arith;
}

body_code_kept :
    safe_callback_error_code 409 (some (codes "sequence_conflict", [])) ≡ codes "sequence_conflict"
unfolding safe_callback_error_code
body_code_kept = refl

body_code_hidden : safe_callback_error_code 409 (some (codes "token abc", [])) ≡ codes "http_409"
unfolding safe_callback_error_code
body_code_hidden = refl

-- No attempt was made for the first event, so it is due at any time.
over_session-due : (t : ℕ) → IsHeadDue over_session t over_session.pending_events
unfolding run finalize_termination is_empty begin_termination valid_close_reason with_envelope
    new_record event_id format_uint accept validate_event opaque_id validate_safe_event_details
    output_health_details marshal stamp_json
over_session-due t = tt

choosy_client-definite : (k : ℕ) → verdict (choosy_client.response k) ≢ defers
unfolding verdict
choosy_client-definite zero h = cc
choosy_client-definite (suc k) h = cc

sweep_session-serve_example :
    let s = sweep_session test_world dead_client 500000000 30000000000 over_session in
    (s.1 ≡ none)
    × (mailbox s.0
        ≡ serve
            (λ k. verdict (dead_client.response k))
            0
            (length over_session.pending_events)
            (mailbox over_session))
    × (s.0.state ≡ over_session.state)
    × (has_secrets s.0 ≡ (is_active over_session.state || not (length s.0.pending_events == 0)))
sweep_session-serve_example =
    sweep_session-serve test_world dead_client 500000000 30000000000 over_session
      dead_client-IsWorking over_session-Inv (over_session-due 3000) over_session-facts.1
      over_session-room

sweep_session-drains_example :
    let s = sweep_session test_world choosy_client 500000000 30000000000 over_session in
    (s.0.pending_events ≡ []) × (has_secrets s.0 ≡ false)
sweep_session-drains_example =
    sweep_session-drains test_world choosy_client 500000000 30000000000 over_session
      choosy_client-IsWorking over_session-Inv (over_session-due 3000) over_session-facts.1
      over_session-room choosy_client-definite over_session-facts.3
