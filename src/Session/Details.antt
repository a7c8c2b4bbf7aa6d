-- ===== src/Session/Details.antt =====
-- The details that the store writes into its events.
use livepeer_modules_transco.Prelude.{
  ◌≤◌, ◌≡◌, refl, Bool, true, false, [], ◌∷◌, arith, All, Bytes, elem-All, ok,
}
use livepeer_modules_transco.Contract.Types.{
  OutputState, waiting, producing, stalled, unknown_output, Stamp, unset, malformed, at, Members,
  object,
}
use livepeer_modules_transco.Contract.Ident.{
  valid_ladder_failure_code, ladder_failure_codes, valid_output_state,
}
use livepeer_modules_transco.Contract.Details.{
  forbidden_key, forbidden_text, text_size, unsafe_event_detail, marshal, marshal_size, stamp_json,
  validate_safe_event_details, unsafe_members, members_size,
}
use livepeer_modules_transco.Contract.EventId.{format_uint-length}
use livepeer_modules_transco.Session.Record.{
  SessionRecord, output_state_text, with_failure_code, output_health_details,
}
use livepeer_modules_transco.Session.Health.{restart_details}
use livepeer_modules_transco.Session.Check.{is_optional_time}

abbrev IsPlain : Bytes → Type 0
IsPlain s = (forbidden_text s ≡ false) × (text_size s ≤ 19)

ladder_codes-IsPlain : All IsPlain ladder_failure_codes
unfolding forbidden_text text_size
ladder_codes-IsPlain = (
  (refl, omega arith),
  (
    (refl, omega arith),
    ((refl, omega arith), ((refl, omega arith), ((refl, omega arith), ((refl, omega arith), tt)))),
  ),
)

ladder_code-IsPlain :
    (code : Bytes) (b : Bool) → valid_ladder_failure_code code b ≡ true → IsPlain code
unfolding valid_ladder_failure_code forbidden_text text_size
ladder_code-IsPlain [] b h = (refl, omega arith)
ladder_code-IsPlain (c ∷ s) b h =
    elem-All IsPlain (c ∷ s) ladder_failure_codes h ladder_codes-IsPlain

output_state_text-IsPlain :
    (o : OutputState) → valid_output_state o ≡ true → IsPlain (output_state_text o)
unfolding valid_output_state output_state_text forbidden_text text_size
output_state_text-IsPlain waiting h = (refl, omega arith)
output_state_text-IsPlain producing h = (refl, omega arith)
output_state_text-IsPlain stalled h = (refl, omega arith)
output_state_text-IsPlain (unknown_output s) h = cc

stamp_json-safe :
    (s : Stamp)
    → is_optional_time s ≡ true
    → (unsafe_event_detail (stamp_json s) ≡ false) × (marshal_size (stamp_json s) ≤ 32)
unfolding stamp_json unsafe_event_detail marshal_size
stamp_json-safe unset h = (refl, omega arith)
stamp_json-safe (malformed s) h = cc
stamp_json-safe (at t) h = (refl, omega arith)

members-safe :
    (m : Members)
    → unsafe_members m ≡ false
    → members_size m ≤ 2046
    → validate_safe_event_details (marshal (object m)) ≡ ok tt
unfolding validate_safe_event_details marshal marshal_size unsafe_event_detail
members-safe m h l = ground arith

with_failure_code-safe :
    (code : Bytes) (m : Members)
    → IsPlain code
    → unsafe_members m ≡ false
    → members_size m ≤ 1000
    → (unsafe_members (with_failure_code code m) ≡ false)
      × (members_size (with_failure_code code m) ≤ 2046)
unfolding with_failure_code unsafe_members members_size forbidden_key
with_failure_code-safe code m p h l = ground arith

-- The health details of a record with a valid output state, failure code and time are accepted.
pub output_health_details-safe :
    (r : SessionRecord)
    → valid_ladder_failure_code r.last_ladder_failure_code true ≡ true
    → valid_output_state r.output_state ≡ true
    → is_optional_time r.output_state_since ≡ true
    → validate_safe_event_details (output_health_details r) ≡ ok tt
unfolding output_health_details unsafe_members members_size forbidden_key
output_health_details-safe r hc ho hs =
    let output = output_state_text-IsPlain r.output_state ho in
    let since = stamp_json-safe r.output_state_since hs in
    let rest =
      with_failure_code-safe r.last_ladder_failure_code _
        (ladder_code-IsPlain r.last_ladder_failure_code true hc) (rw (output.0, since.0))
        (omega arith) in
    members-safe _ rest.0 rest.1

-- So are those of a counted ladder restart.
pub restart_details-safe :
    (r : SessionRecord) (code : Bytes)
    → valid_ladder_failure_code code false ≡ true
    → valid_output_state r.output_state ≡ true
    → validate_safe_event_details (restart_details r code) ≡ ok tt
unfolding restart_details unsafe_members members_size forbidden_key
restart_details-safe r code hc ho =
    let output = output_state_text-IsPlain r.output_state ho in
    let plain = ladder_code-IsPlain code false hc in
    members-safe _ (rw (output.0, plain.0))
      (omega (arith, format_uint-length r.ladder_consecutive_failures))
