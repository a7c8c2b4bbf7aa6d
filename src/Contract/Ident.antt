-- ===== src/Contract/Ident.antt =====
-- live-runner/contract.go and callback.go: identifier patterns and the sets of accepted words.
use livepeer_modules_transco.Prelude.{
  ℕ, Bool, true, false, ◌&&◌, ◌||◌, List, [], ◌∷◌, ◌++◌, Bytes, leb, ◌==◌, if◌then◌else◌, codes,
  length, all, elem, is_digit, format_uint, is_empty,
}
use livepeer_modules_transco.Contract.Types.{
  State, active, ended, failed, unknown, OutputState, unknown_output, Stamp, unset, at,
}

abbrev is_upper : ℕ → Bool
is_upper c = leb b'A' c && leb c b'Z'

abbrev pub is_lower : ℕ → Bool
is_lower c = leb b'a' c && leb c b'z'

abbrev pub is_alphanumeric : ℕ → Bool
is_alphanumeric c = is_upper c || (is_lower c || is_digit c)

-- [A-Za-z0-9._:-]
abbrev pub is_id_char : ℕ → Bool
is_id_char c = is_alphanumeric c || (c == b'.' || (c == b'_' || (c == b':' || c == b'-')))

-- ^[A-Za-z0-9][A-Za-z0-9._:-]{0,127}$
unfoldable pub opaque_id : Bytes → Bool
unfolding all
opaque_id [] = false
opaque_id (c ∷ s) = is_alphanumeric c && (all is_id_char s && leb (length s) 127)

-- ^[0-9a-f]{64}$
unfoldable pub work_id : Bytes → Bool
unfolding all
work_id s = all (λ c. is_digit c || (leb b'a' c && leb c b'f')) s && length s == 64

-- ^[a-z][a-z0-9_.-]{0,63}$
unfoldable pub callback_error_code : Bytes → Bool
unfolding all
callback_error_code [] = false
callback_error_code (c ∷ s) =
    is_lower c
    && (all (λ d. is_lower d || (is_digit d || (d == b'_' || (d == b'.' || d == b'-')))) s
        && leb (length s) 63)

abbrev close_reasons : List Bytes
close_reasons =
    codes "gateway_close"
    ∷ codes "lease_expired"
    ∷ codes "heartbeat_lost"
    ∷ codes "runway_exhausted"
    ∷ codes "refill_refused"
    ∷ codes "recovery_failed"
    ∷ codes "payment_unrecoverable"
    ∷ codes "runner_failed"
    ∷ codes "ingest_failed"
    ∷ codes "output_failed"
    ∷ codes "runner_ended"
    ∷ codes "insufficient_balance"
    ∷ codes "authorization_exhausted"
    ∷ codes "open_failed"
    ∷ codes "capacity_exhausted"
    ∷ codes "lease_exhausted"
    ∷ codes "customer_end"
    ∷ codes "publisher_disconnect"
    ∷ codes "broker_ended"
    ∷ codes "relay_failure"
    ∷ codes "refill_preannounced_refusal"
    ∷ codes "refill_policy_exhausted"
    ∷ codes "refill_total_exceeded"
    ∷ []

abbrev pub ladder_failure_codes : List Bytes
ladder_failure_codes =
    codes "encoder_init_failed"
    ∷ codes "hwaccel_init_failed"
    ∷ codes "input_unavailable"
    ∷ codes "output_rejected"
    ∷ codes "process_killed"
    ∷ codes "unknown"
    ∷ []

unfoldable pub valid_close_reason : Bytes → Bool
unfolding elem
valid_close_reason value = elem value close_reasons

unfoldable pub valid_ladder_failure_code : Bytes → Bool → Bool
unfolding elem is_empty
valid_ladder_failure_code value allow_empty =
    if is_empty value then allow_empty else elem value ladder_failure_codes

unfoldable pub valid_state : State → Bool
valid_state (unknown s) = false
valid_state _ = true

unfoldable pub valid_output_state : OutputState → Bool
valid_output_state (unknown_output s) = false
valid_output_state _ = true

abbrev pub is_active : State → Bool
is_active active = true
is_active _ = false

abbrev pub is_ended : State → Bool
is_ended ended = true
is_ended _ = false

abbrev pub is_failed : State → Bool
is_failed failed = true
is_failed _ = false

-- `_, err := time.Parse(...)` succeeds.
abbrev pub is_time : Stamp → Bool
is_time (at t) = true
is_time _ = false

abbrev pub is_unset : Stamp → Bool
is_unset unset = true
is_unset _ = false

-- `RunnerSessionID + ":" + strconv.FormatUint(sequence, 10)`.
unfoldable pub event_id : Bytes → ℕ → Bytes
event_id runner n = runner ++ b':' ∷ format_uint n
