-- ===== src/Session/Safe/Emit.antt =====
-- An emitted event, and the invariant.
use livepeer_modules_transco.Prelude.{
  ℕ, ◌+◌, ◌≤◌, ◌≡◌, refl, ◌≢◌, inr, true, false, Option, none, some, List, [], ◌∷◌, ◌++◌, arith,
  ◌==◌, &&_both, length, All, Bytes, ok, ◌>>=◌,
}
use livepeer_modules_transco.Contract.Types.{EventType, Usage, RawMessage, RunnerEvent, at}
use livepeer_modules_transco.Contract.Ident.{opaque_id}
use livepeer_modules_transco.Contract.EventId.{event_id-opaque}
use livepeer_modules_transco.Contract.Details.{validate_safe_event_details}
use livepeer_modules_transco.Contract.Event.{validate_event, validate_event_type, has_wrong_unit}
use livepeer_modules_transco.Session.Record.{
  World, SessionRecord, SavesOnly, saved, CallbackDeliveryAttempt, CallbackDeadLetter, next_event,
  emit, output_health_details, u64_max,
}
use livepeer_modules_transco.Session.Check.{
  check_envelope, check_times, check_health_cursor, check_terminal, check_stopping,
  check_activation, check_delivery, is_head, check_letter, usage_after,
}
use livepeer_modules_transco.Session.Outbox.{UsageIs, Outbox-snoc, EndsAt-snoc}
use livepeer_modules_transco.Session.Details.{output_health_details-safe}
use livepeer_modules_transco.Session.Invariant.{
  Inv, IsFixed, IsHealthy, IsPhased, IsOrdered, IsMetered, IsLetter, AreLetters,
}

-- The built event passes ValidateEventV1.
next_event-valid :
    (r : SessionRecord) (type : EventType) (t : ℕ) (usage : Option Usage) (details : RawMessage)
    → opaque_id r.runner_session_id ≡ true
    → length r.runner_session_id ≤ 107
    → validate_event_type type (next_event r type t usage details) ≡ ok tt
    → has_wrong_unit usage ≡ false
    → validate_safe_event_details details ≡ ok tt
    → validate_event (next_event r type t usage details) ≡ ok tt
unfolding validate_event
next_event-valid r type t usage details o l ht hu hd =
    let i = event_id-opaque r.runner_session_id (r.last_sequence + 1) o l in
    let z : ((r.last_sequence + 1) == 0) ≡ false = ground arith in rw (i, z) (ground arith)

is_head-append :
    (es fs : List RunnerEvent) (id : Bytes) → is_head es id ≡ true → is_head (es ++ fs) id ≡ true
unfolding is_head
is_head-append [] fs id h = cc
is_head-append (e ∷ es) fs id h = h

pub check_delivery-append :
    (d : Option CallbackDeliveryAttempt) (es fs : List RunnerEvent)
    → check_delivery d es ≡ ok tt
    → check_delivery d (es ++ fs) ≡ ok tt
unfolding check_delivery
check_delivery-append none es fs h = refl
check_delivery-append (some a) es fs h = ground (arith, is_head-append es fs a.event_id)

pub AreLetters-later :
    (runner : Bytes) (last later : ℕ) (letters : List CallbackDeadLetter)
    → last ≤ later
    → All (IsLetter runner last) letters
    → All (IsLetter runner later) letters
unfolding check_letter
AreLetters-later runner last later [] le h = tt
AreLetters-later runner last later (letter ∷ letters) le h =
    ((ground arith, h.0.1), AreLetters-later runner last later letters le h.1)

pub healthy_details :
    (r : SessionRecord)
    → IsHealthy r
    → validate_safe_event_details (output_health_details r) ≡ ok tt
unfolding check_times
healthy_details r h = output_health_details-safe r h.1 h.0 (&&_both _ _ h.2).0

-- The record with usage `total` and the event added.
abbrev pub emitted : SessionRecord → ℕ → EventType → ℕ → Option Usage → RawMessage → SessionRecord
emitted r total type t usage details = record r {
  usage_total = total;
  last_sequence = r.last_sequence + 1;
  last_event_at = at t;
  pending_events = r.pending_events ++ next_event r type t usage details ∷ [];
}

module _ (w : World) (r : SessionRecord) (total : ℕ) (type : EventType) (t : ℕ)
    (usage : Option Usage) (details : RawMessage) (fixed : IsFixed w r)
    (typed : validate_event_type type (next_event r type t usage details) ≡ ok tt)
    (unit : has_wrong_unit usage ≡ false) (safe : validate_safe_event_details details ≡ ok tt) where
  -- The emission succeeds.
  pub emit-emitted :
      emit (record r { usage_total = total }) type t usage details
      ≡ ok (emitted r total type t usage details)
  unfolding emit
  emit-emitted = rw (next_event-valid r type t usage details fixed.1 fixed.2 typed unit safe)

  -- It keeps the invariant, when the usage is the metered one and not less than before.
  pub emitted-Inv :
      check_envelope r ≡ true
      → IsHealthy r
      → IsPhased r
      → IsOrdered r
      → IsMetered (record r { usage_total = total })
      → check_delivery r.callback_delivery r.pending_events ≡ ok tt
      → AreLetters r
      → r.last_sequence ≢ u64_max
      → r.usage_total ≤ total
      → UsageIs total usage
      → Inv w (emitted r total type t usage details)
  unfolding check_envelope check_times check_health_cursor check_terminal check_stopping
      check_activation usage_after
  emitted-Inv envelope healthy phased ordered metered delivery letters below grows is =
      let e = next_event r type t usage details in
      record {
        fixed = fixed;
        envelope = envelope;
        healthy = healthy;
        phased = phased;
        ordered = (
          Outbox-snoc r.runner_session_id 0 0 r.pending_events r.last_sequence r.usage_total e total
              ordered.0 (next_event-valid r type t usage details fixed.1 fixed.2 typed unit safe)
              refl (omega arith) (ground arith) (ground arith),
          EndsAt-snoc r.pending_events e (r.last_sequence + 1) total refl is,
          omega arith,
          (λ h. omega arith),
          inr (refl, omega arith),
        );
        metered = metered;
        delivery = check_delivery-append r.callback_delivery r.pending_events (e ∷ []) delivery;
        letters = (
          letters.0,
          letters.1,
          AreLetters-later r.runner_session_id r.last_sequence (r.last_sequence + 1)
              r.callback_dead_letters (omega arith) letters.2,
        );
      }

  -- So what an operation saves after the emission has the invariant.
  pub emit_saves {ℓ} :
      {A : Type ℓ} (a : A)
      → check_envelope r ≡ true
      → IsHealthy r
      → IsPhased r
      → IsOrdered r
      → IsMetered (record r { usage_total = total })
      → check_delivery r.callback_delivery r.pending_events ≡ ok tt
      → AreLetters r
      → r.last_sequence ≢ u64_max
      → r.usage_total ≤ total
      → UsageIs total usage
      → SavesOnly
          (Inv w)
          (emit (record r { usage_total = total }) type t usage details >>= λ r'. ok (saved r' a))
  emit_saves a envelope healthy phased ordered metered delivery letters below grows is =
      rw emit-emitted
        (emitted-Inv envelope healthy phased ordered metered delivery letters below grows is)
