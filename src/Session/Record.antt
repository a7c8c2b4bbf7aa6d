-- ===== src/Session/Record.antt =====
-- live-runner/store.go: the durable record of a session, and what an operation does with it.
use livepeer_modules_transco.Prelude.{
  ℕ, ◌+◌, ◌-◌, ◌^◌, Bool, Option, none, List, [], ◌∷◌, ◌++◌, if◌then◌else◌, Bytes, codes, is_empty,
  Result, ok, err, ◌>>◌,
}
pub use livepeer_modules_transco.Contract.World.{World}
use livepeer_modules_transco.Contract.Types.{
  State, OutputState, waiting, producing, stalled, unknown_output, Stamp, text, object, Members,
  no_members, member, RawMessage, RunnerEvent, EventType, RuntimePublic, active, Usage, at,
}
use livepeer_modules_transco.Contract.Ident.{event_id}
use livepeer_modules_transco.Contract.Details.{marshal, stamp_json}
use livepeer_modules_transco.Contract.Event.{validate_event, work_unit}

pub record GrantAudit : Type 0 where
  pub id : Bytes
  pub operations : List Bytes
  pub secret_sha256 : Bytes
  pub expires_at : Stamp

pub record CallbackDeliveryAttempt : Type 0 where
  pub event_id : Bytes
  pub attempts : ℕ  -- uint32
  pub last_attempt_at : Stamp
  pub next_attempt_at : Stamp
  pub last_status_code : ℕ
  pub last_error_code : Bytes

pub record CallbackDeadLetter : Type 0 where
  pub event : RunnerEvent
  pub attempts : ℕ
  pub status_code : ℕ
  pub error_code : Bytes
  pub rejected_at : Stamp

-- `pending_terminal_state` is `unknown []` where the source has the empty string.
pub record SessionRecord : Type 0 where
  pub version : ℕ
  pub broker_session_id : Bytes
  pub runner_session_id : Bytes
  pub create_fingerprint : Bytes
  pub state : State
  pub stopping : Bool
  pub pending_close_reason : Bytes
  pub pending_terminal_state : State
  pub pending_key_activation_id : Bytes
  pub runtime_public : RuntimePublic
  pub grant_audit : GrantAudit
  pub usage_total : ℕ  -- uint64
  pub last_sequence : ℕ  -- uint64
  pub metered_microseconds : ℕ  -- uint64
  pub metered_segment_sha256 : List Bytes
  pub publisher_seen : Bool
  pub publisher_offline_since : Stamp
  pub publisher_deadline : Stamp
  pub ingest_online_at : Stamp
  pub first_finalized_segment_at : Stamp
  pub last_finalized_segment_at : Stamp
  pub output_state : OutputState
  pub output_state_since : Stamp
  pub last_ladder_failure_code : Bytes
  pub ladder_failure_window_at : Stamp
  pub ladder_consecutive_failures : ℕ  -- uint32
  pub last_event_at : Stamp
  pub pending_events : List RunnerEvent
  pub callback_delivery : Option CallbackDeliveryAttempt
  pub callback_dead_letters : List CallbackDeadLetter
  pub callback_rejected_total : ℕ  -- uint64
  pub close_reason : Bytes
  pub integrity_sha256 : Bytes
  pub wrapped_key_nonce : Bytes
  pub wrapped_key_ciphertext : Bytes
  pub secret_nonce : Bytes
  pub secret_ciphertext : Bytes

-- What an operation does under the store's lock after the record is loaded: it returns at once, or
-- it hands a record to saveLocked and returns.
pub data Change {ℓ} (A : Type ℓ) : Type ℓ where
  unchanged : A → Change A
  saved : SessionRecord → A → Change A

-- The record that is on disk after the operation, if each save succeeds.
abbrev pub after {ℓ} : {A : Type ℓ} → SessionRecord → Result (Change A) → SessionRecord
after r (err e) = r
after r (ok (unchanged a)) = r
after r (ok (saved r' a)) = r'

-- `P` holds of whatever record the operation saves.
abbrev pub SavesOnly {ℓ} : {A : Type ℓ} → (SessionRecord → Type 0) → Result (Change A) → Type 0
SavesOnly P (err e) = Unit {0}
SavesOnly P (ok (unchanged a)) = Unit {0}
SavesOnly P (ok (saved r' a)) = P r'

abbrev pub u64_max : ℕ
u64_max = 2 ^ 64 - 1

abbrev pub u32_max : ℕ
u32_max = 2 ^ 32 - 1

unfoldable pub output_state_text : OutputState → Bytes
output_state_text waiting = codes "waiting"
output_state_text producing = codes "producing"
output_state_text stalled = codes "stalled"
output_state_text (unknown_output s) = s

unfoldable pub with_failure_code : Bytes → Members → Members
unfolding is_empty
with_failure_code code rest =
    if is_empty code then rest else member (codes "last_failure_code") (text code) rest

unfoldable pub output_health_details : SessionRecord → RawMessage
unfolding with_failure_code output_state_text
output_health_details r = marshal (
    object (
      with_failure_code r.last_ladder_failure_code (
        member (codes "output_state") (text (output_state_text r.output_state))
          (member (codes "output_state_since") (stamp_json r.output_state_since) no_members))))

abbrev pub usage_of : ℕ → Usage
usage_of total = record { unit = work_unit; total = total }

-- The event that follows the record's last one, as the store's operations build it.
abbrev pub next_event : SessionRecord → EventType → ℕ → Option Usage → RawMessage → RunnerEvent
next_event r event_type t usage details = record {
  event_id = event_id r.runner_session_id (r.last_sequence + 1);
  sequence = r.last_sequence + 1;
  event_type = event_type;
  event_time = at t;
  state = active;
  usage = usage;
  close_reason = none;
  details = details;
}

-- The lines that the store's operations share: the event is validated, and moves the cursor and
-- joins the outbox.
unfoldable pub emit :
    SessionRecord → EventType → ℕ → Option Usage → RawMessage → Result SessionRecord
emit r event_type t usage details = do
  validate_event (next_event r event_type t usage details)
  ok (record r {
    last_sequence = r.last_sequence + 1;
    last_event_at = at t;
    pending_events = r.pending_events ++ next_event r event_type t usage details ∷ [];
  })
