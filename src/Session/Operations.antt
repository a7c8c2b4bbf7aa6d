-- ===== src/Session/Operations.antt =====
-- live-runner/store.go: the operations of the store on one session, as one step and as histories.
use livepeer_modules_transco.Prelude.{ℕ, ◌<◌, ◌≡◌, Bool, Option, List, [], ◌∷◌, Bytes, Result, ok}
use livepeer_modules_transco.Contract.Types.{
  RunnerEvent, StreamKeyIssueRequest, StreamKeyIssueResponse,
}
use livepeer_modules_transco.Contract.Event.{u64_limit}
use livepeer_modules_transco.Session.Record.{World, SessionRecord, after}
use livepeer_modules_transco.Session.Output.{
  FinalizedSegment, record_finalized_segments, record_heartbeat, record_ingest_presence,
}
use livepeer_modules_transco.Session.Health.{
  expire_absent_publisher, record_ladder_restart, evaluate_output_health, record_output_stalled,
}
use livepeer_modules_transco.Session.Lifecycle.{
  advance, begin_termination, begin_failure, finalize_termination,
}
use livepeer_modules_transco.Session.Outbox.{UsageIs}
use livepeer_modules_transco.Session.Keys.{
  SessionSecrets, Envelope, IsSealed, record_key_issue, complete_key_activation,
}
use livepeer_modules_transco.Session.Callback.{
  acknowledge_event, reserve_callback_attempt, record_callback_retry_failure,
  park_callback_rejection, clear_terminal_secrets,
}

-- A call of the store with its arguments: all those that save the record of a session that exists.
-- The two calls on stream keys also have the encryption and the secrets that the load decrypted,
-- which may be any.
pub data Operation : Type 0 where
  finalized_segments : List FinalizedSegment → ℕ → Operation
  heartbeat : ℕ → ℕ → Operation
  ingest_presence : Bool → ℕ → Operation
  absent_publisher : ℕ → ℕ → ℕ → Operation
  ladder_restart : Bytes → ℕ → ℕ → Operation
  output_health : ℕ → ℕ → ℕ → Operation
  output_stalled : ℕ → Operation
  begin_end begin_fail : Bytes → Operation
  advances : RunnerEvent → Operation
  finalizes : ℕ → Operation
  acknowledges : Bytes → Operation
  reserves : Bytes → ℕ → ℕ → ℕ → Operation
  retry_failure : Bytes → ℕ → Bytes → Operation
  parks : Bytes → ℕ → Bytes → ℕ → Operation
  clears_secrets : Operation
  issues_key :
      (SessionSecrets → Result Envelope)
      → Option SessionSecrets
      → StreamKeyIssueRequest
      → StreamKeyIssueResponse
      → Operation
  activates_key : Option SessionSecrets → Bytes → Operation

-- The record on disk after a call, whether or not it fails.
unfoldable pub step : World → SessionRecord → Operation → SessionRecord
step w r (finalized_segments segments t) = after r (record_finalized_segments w r segments t)
step w r (heartbeat t interval) = after r (record_heartbeat r t interval)
step w r (ingest_presence online t) = after r (record_ingest_presence r online t)
step w r (absent_publisher now initial grace) =
    after r (expire_absent_publisher r now initial grace)
step w r (ladder_restart code now window) = after r (record_ladder_restart r code now window)
step w r (output_health t stall fail) = after r (evaluate_output_health r t stall fail)
step w r (output_stalled t) = after r (record_output_stalled r t)
step w r (begin_end reason) = after r (begin_termination r reason)
step w r (begin_fail reason) = after r (begin_failure r reason)
step w r (advances e) = after r (advance r e)
step w r (finalizes now) = after r (finalize_termination r now)
step w r (acknowledges id) = after r (acknowledge_event r id)
step w r (reserves id t initial maximum) =
    after r (reserve_callback_attempt w r id t initial maximum)
step w r (retry_failure id status code) = after r (record_callback_retry_failure r id status code)
step w r (parks id status code t) = after r (park_callback_rejection r id status code t)
step w r clears_secrets = after r (clear_terminal_secrets r)
step w r (issues_key seal secrets request response) =
    after r (record_key_issue w seal r secrets request response)
step w r (activates_key secrets id) = after r (complete_key_activation r secrets id)

-- A history of calls, which the store's lock orders.
unfoldable pub run : World → SessionRecord → List Operation → SessionRecord
unfolding step
run w r [] = r
run w r (op ∷ ops) = run w (step w r op) ops

-- The callers of Advance pass an event with no usage, or with the usage of the record. Sealing yields
-- four non-empty texts.
abbrev pub IsClaimed : SessionRecord → Operation → Type 0
IsClaimed r (advances e) = (e.sequence < u64_limit) × UsageIs r.usage_total e.usage
IsClaimed r (issues_key seal secrets request response) =
    (s : SessionSecrets) (e : Envelope) → seal s ≡ ok e → IsSealed e
IsClaimed r _ = Unit {0}

-- Each Advance of a history does so at its turn.
abbrev pub AreClaimed : World → SessionRecord → List Operation → Type 0
AreClaimed w r [] = Unit {0}
AreClaimed w r (op ∷ ops) = IsClaimed r op × AreClaimed w (step w r op) ops
