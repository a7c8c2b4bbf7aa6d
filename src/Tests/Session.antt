-- ===== src/Tests/Session.antt =====
-- Runs of the session store.
use livepeer_modules_transco.Prelude.{
  ◌≡◌, refl, true, false, some, List, [], ◌∷◌, arith, codes, str_eq, is_empty, subst, not_exist, ok,
  err,
}
use livepeer_modules_transco.Contract.Ident.{opaque_id, valid_close_reason}
use livepeer_modules_transco.Contract.Types.{ended, StreamKeyIssueRequest, StreamKeyIssueResponse}
use livepeer_modules_transco.Contract.Request.{
  validate_stream_key_issue_request, validate_stream_key_issue_response, is_blank,
}
use livepeer_modules_transco.Session.Record.{SessionRecord, SavesOnly, unchanged, saved, after}
use livepeer_modules_transco.Session.Output.{FinalizedSegment}
use livepeer_modules_transco.Session.Keys.{
  record_key_issue, open_secrets, find_issue, issue_or_replay, issue_new, issued_secrets,
  await_activation, with_envelope, KeyIssued, Envelope, SessionSecrets, IsSealed,
  complete_key_activation,
}
use livepeer_modules_transco.Session.Create.{
  create_or_replay, reconcile_create, reconcile_after_load, new_record, new_secrets,
}
use livepeer_modules_transco.Session.Lifecycle.{
  begin_termination, begin_terminal, begin_stopping, finalize_termination,
}
use livepeer_modules_transco.Session.Operations.{
  Operation, finalized_segments, heartbeat, ingest_presence, begin_end, advances, finalizes,
  acknowledges, reserves, issues_key, activates_key, step, run,
}
use livepeer_modules_transco.Session.Check.{validate_session_record}
use livepeer_modules_transco.Session.Invariant.{Inv}
use livepeer_modules_transco.Session.Safe.Runs.{run-validates, run-Inv, step-Inv}
use livepeer_modules_transco.Session.Laws.Ending.{finalize-closes, ended_record}
use livepeer_modules_transco.Session.Laws.Terminal.{run-IsFrozen, IsFrozen}
use livepeer_modules_transco.Session.Laws.Creation.{
  create-Inv, reconcile-fences, Slot, call, calls, creates, reconciles, SlotCall,
}
use livepeer_modules_transco.Session.Laws.Keys.{
  record_key_issue-replays, record_key_issue-OnlyLive, OnlyLive, stored_issue,
}
use livepeer_modules_transco.Contract.World.{key_issue_fingerprint}
use livepeer_modules_transco.Tests.Fixtures.{
  test_world, test_request, test_response, test_envelope, test_seal, test_secrets, test_record,
  test_record-Inv, started_event, test_key_request, test_key_response,
}

abbrev test_segment : FinalizedSegment
test_segment = record { uri = codes "s1.ts"; duration_microseconds = 2500000 }

-- A whole life: start, publish, meter, deliver, and end.
abbrev test_calls : List Operation
test_calls =
    advances started_event
    ∷ ingest_presence true 1002
    ∷ finalized_segments (test_segment ∷ []) 1003
    ∷ heartbeat 2000 100
    ∷ reserves (codes "run-1:1") 2001 10 100
    ∷ acknowledges (codes "run-1:1")
    ∷ begin_end (codes "gateway_close")
    ∷ finalizes 3000
    ∷ []

abbrev key_answer : KeyIssued
key_answer = (
  test_key_response,
  false,
  issued_secrets test_secrets (test_world.sha256_hex (codes "key-1")) test_key_request
      test_key_response,
)

-- Two keys, of which the second is activated, and the end.
abbrev second_request : StreamKeyIssueRequest
second_request = record test_key_request { request_id = codes "key-2" }

abbrev second_response : StreamKeyIssueResponse
second_response = record test_key_response { request_id = codes "key-2" }

abbrev second_secrets : SessionSecrets
second_secrets = issued_secrets key_answer.2 (codes "f") second_request second_response

abbrev key_calls : List Operation
key_calls =
    issues_key test_seal (some test_secrets) test_key_request test_key_response
    ∷ issues_key test_seal (some key_answer.2) second_request second_response
    ∷ activates_key (some second_secrets) (codes "key-2")
    ∷ begin_end (codes "gateway_close")
    ∷ finalizes 3000
    ∷ []

-- The session after BeginTermination.
abbrev test_stopping : SessionRecord
test_stopping = step test_world test_record (begin_end (codes "gateway_close"))

test_stopping-Inv : Inv test_world test_stopping
test_stopping-Inv =
    step-Inv test_world test_record (begin_end (codes "gateway_close")) tt test_record-Inv

finalize-closes_example :
    finalize_termination test_stopping 3000 ≡ ok (saved (ended_record test_stopping 3000) tt)
unfolding step begin_termination begin_terminal begin_stopping new_record with_envelope
    valid_close_reason
finalize-closes_example =
    finalize-closes test_world test_stopping 3000 test_stopping-Inv refl (omega arith) (omega arith)
      (λ e. cc)

abbrev test_ended : SessionRecord
test_ended = record test_record { state = ended; close_reason = codes "gateway_close" }

run-IsFrozen_example : IsFrozen test_ended (run test_world test_ended key_calls)
run-IsFrozen_example = run-IsFrozen test_world test_ended key_calls refl

test_seal-IsSealed : (s : SessionSecrets) (e : Envelope) → test_seal s ≡ ok e → IsSealed e
unfolding is_empty
test_seal-IsSealed s e h =
    let same : test_envelope ≡ e = cc in subst IsSealed same (refl, refl, refl, refl)

run-validates_example :
    validate_session_record test_world
      (run test_world test_record key_calls)
      (run test_world test_record key_calls).broker_session_id
    ≡ ok tt
run-validates_example =
    run-validates test_world test_record key_calls test_record-Inv
      (test_seal-IsSealed, (test_seal-IsSealed, (tt, (tt, (tt, tt)))))

-- The same for the calls of a whole life.
test_life-Inv : Inv test_world (run test_world test_record test_calls)
test_life-Inv =
    run-Inv test_world test_record test_calls
      ((omega arith, tt), (tt, (tt, (tt, (tt, (tt, (tt, (tt, tt)))))))) test_record-Inv

create-Inv_example : SavesOnly (Inv test_world) (
    create_or_replay test_world test_seal test_request test_response
      (err not_exist)
      (ok false)
      1000)
create-Inv_example =
    create-Inv test_world test_seal test_request test_response (err not_exist) (ok false) 1000
      (omega arith) test_seal-IsSealed

abbrev empty_slot : Slot
empty_slot = record { loaded = err not_exist; fence = false }

abbrev test_races : List SlotCall
test_races =
    creates test_request test_response 1000
    ∷ reconciles (codes "sess-1")
    ∷ creates test_request test_response 1001
    ∷ []

reconcile-fences_example :
    (calls test_world test_seal
      (call test_world test_seal empty_slot (reconciles (codes "sess-1")))
      test_races).loaded
    ≡ err not_exist
unfolding reconcile_create reconcile_after_load opaque_id
reconcile-fences_example =
    reconcile-fences test_world test_seal empty_slot (codes "sess-1") true test_races refl

abbrev key_record : SessionRecord
key_record = with_envelope (await_activation test_record test_secrets (codes "key-1")) test_envelope

record_key_issue-OnlyLive_example :
    (key_answer.0 ≡ test_key_response)
    × (key_answer.2.current_key_id ≡ codes "key-1")
    × (find_issue (codes "key-1") key_answer.2.key_issues
        ≡ some (stored_issue test_world test_key_request test_key_response))
    × OnlyLive (codes "key-1") key_answer.2.key_issues
unfolding record_key_issue open_secrets issue_or_replay issue_new find_issue key_issue_fingerprint
    validate_stream_key_issue_request validate_stream_key_issue_response opaque_id is_blank str_eq
    is_empty new_secrets new_record with_envelope await_activation issued_secrets
record_key_issue-OnlyLive_example =
    record_key_issue-OnlyLive test_world test_seal test_record test_secrets test_key_request
      test_key_response key_record key_answer refl

-- A retry with a response that has another stream key, after the key was activated.
record_key_issue-replays_example :
    record_key_issue test_world test_seal
      (after key_record (complete_key_activation key_record (some key_answer.2) (codes "key-1")))
      (some key_answer.2)
      test_key_request
      (record test_key_response { stream_key = codes "other" })
    ≡ ok (unchanged (test_key_response, true, key_answer.2))
unfolding record_key_issue open_secrets issue_or_replay issue_new find_issue key_issue_fingerprint
    validate_stream_key_issue_request validate_stream_key_issue_response opaque_id is_blank str_eq
    is_empty new_secrets new_record with_envelope await_activation issued_secrets
record_key_issue-replays_example =
    record_key_issue-replays test_world test_seal test_record test_secrets test_key_request
      test_key_response (record test_key_response { stream_key = codes "other" }) key_record
      key_answer (codes "key-1") refl refl
