-- ===== src/Session/Safe/Callback.antt =====
-- Delivery, retries and parking of callbacks, and the invariant.
use livepeer_modules_transco.Prelude.{
  ℕ, ◌+◌, ◌-◌, ◌≤◌, ◌<◌, ◌≡◌, refl, true, false, not, ◌||◌, Option, none, some, List, [], ◌∷◌, ◌++◌,
  arith, ltb, ◌==◌, length, All, length-append, length-drop, All-append, All-drop, Bytes,
  str_eq_refl, is_empty, ok,
}
use livepeer_modules_transco.Contract.Types.{RunnerEvent}
use livepeer_modules_transco.Contract.Ident.{event_id, is_active}
use livepeer_modules_transco.Session.Record.{
  World, SessionRecord, SavesOnly, CallbackDeliveryAttempt, CallbackDeadLetter, u64_max,
}
use livepeer_modules_transco.Session.Callback.{
  valid_callback_failure, not_head, not_attempted, tail, acknowledge_event, next_attempt,
  attempt_at, reserve_callback_attempt, note_failure, record_callback_retry_failure,
  append_dead_letter, dead_letter, head_attempt, park_callback_rejection, clear_terminal_secrets,
  max_dead_letters,
}
use livepeer_modules_transco.Session.Check.{
  check_envelope, check_times, check_health_cursor, check_terminal, check_stopping,
  check_activation, check_delivery, check_attempt_times, is_head, check_letter, usage_after,
}
use livepeer_modules_transco.Session.Outbox.{Outbox, Outbox-tail, EndsAt-tail, Outbox-le}
use livepeer_modules_transco.Session.Invariant.{Inv, IsLetter}
use livepeer_modules_transco.Session.Safe.Rules.{SavesOnly-reject, SavesOnly-bind}

-- The delivery cursor alone is replaced.
with_delivery-Inv :
    (w : World) (r : SessionRecord) (d : Option CallbackDeliveryAttempt)
    → Inv w r
    → check_delivery d r.pending_events ≡ ok tt
    → Inv w (record r { callback_delivery = d })
unfolding check_envelope check_times check_health_cursor check_terminal check_stopping
    check_activation
with_delivery-Inv w r d v h = record {
  fixed = v.fixed;
  envelope = v.envelope;
  healthy = v.healthy;
  phased = v.phased;
  ordered = v.ordered;
  metered = v.metered;
  delivery = h;
  letters = v.letters;
}

-- The head event leaves the outbox.
drop_head-Inv :
    (w : World) (r : SessionRecord)
    → Inv w r
    → Inv w (record r { pending_events = tail r.pending_events; callback_delivery = none })
unfolding check_envelope check_times check_health_cursor check_terminal check_stopping
    check_activation check_delivery
drop_head-Inv w r v = record {
  fixed = v.fixed;
  envelope = v.envelope;
  healthy = v.healthy;
  phased = v.phased;
  ordered = (
    Outbox-tail r.runner_session_id r.pending_events r.last_sequence r.usage_total v.ordered.0,
    EndsAt-tail r.pending_events r.last_sequence r.usage_total v.ordered.1,
    v.ordered.2,
    v.ordered.3,
    v.ordered.4,
  );
  metered = v.metered;
  delivery = refl;
  letters = v.letters;
}

-- AcknowledgeEvent saves only records with the invariant.
pub acknowledge_event-Inv :
    (w : World) (r : SessionRecord) (id : Bytes)
    → Inv w r
    → SavesOnly (Inv w) (acknowledge_event r id)
unfolding acknowledge_event
acknowledge_event-Inv w r id v =
    SavesOnly-reject (Inv w) (not_head r.pending_events id) _ _ λ _. drop_head-Inv w r v

is_head-not_head :
    (es : List RunnerEvent) (id : Bytes) → not_head es id ≡ false → is_head es id ≡ true
unfolding is_head not_head
is_head-not_head [] id h = cc
is_head-not_head (e ∷ es) id h = ground arith

next_attempt-pos :
    (d : Option CallbackDeliveryAttempt) (id : Bytes) (t : ℕ) {n : ℕ}
    → next_attempt d id t ≡ ok n
    → 0 < n
unfolding next_attempt
next_attempt-pos none id t {n = n} h = ground arith
next_attempt-pos (some a) id t {n = n} h = ground arith

attempt_at-valid :
    (w : World) (es : List RunnerEvent) (id : Bytes) (n t initial maximum : ℕ)
    → is_head es id ≡ true
    → 0 < n
    → check_delivery (some (attempt_at w id n t initial maximum)) es ≡ ok tt
unfolding check_delivery attempt_at check_attempt_times valid_callback_failure is_empty
attempt_at-valid w es id n t initial maximum h pos = ground arith

-- ReserveCallbackAttempt saves only records with the invariant.
pub reserve_callback_attempt-Inv :
    (w : World) (r : SessionRecord) (id : Bytes) (t initial maximum : ℕ)
    → Inv w r
    → SavesOnly (Inv w) (reserve_callback_attempt w r id t initial maximum)
unfolding reserve_callback_attempt
reserve_callback_attempt-Inv w r id t initial maximum v =
    SavesOnly-reject (Inv w) (is_empty id || (t == 0 || (initial == 0 || ltb maximum initial))) _ _
      λ _. SavesOnly-reject (Inv w) (not_head r.pending_events id) _ _ λ head.
        SavesOnly-bind (Inv w) (next_attempt r.callback_delivery id t) _ λ n e.
          with_delivery-Inv w r (some (attempt_at w id n t initial maximum)) v (
            attempt_at-valid w r.pending_events id n t initial maximum
              (is_head-not_head r.pending_events id head)
              (next_attempt-pos r.callback_delivery id t e))

note_failure-valid :
    (d : Option CallbackDeliveryAttempt) (es : List RunnerEvent) (status : ℕ) (code : Bytes)
    → check_delivery d es ≡ ok tt
    → valid_callback_failure status code true ≡ true
    → check_delivery (note_failure d status code) es ≡ ok tt
unfolding check_delivery note_failure
note_failure-valid none es status code h valid = refl
note_failure-valid (some a) es status code h valid = ground arith

-- RecordCallbackRetryFailure saves only records with the invariant.
pub record_callback_retry_failure-Inv :
    (w : World) (r : SessionRecord) (id : Bytes) (status : ℕ) (code : Bytes)
    → Inv w r
    → SavesOnly (Inv w) (record_callback_retry_failure r id status code)
unfolding record_callback_retry_failure
record_callback_retry_failure-Inv w r id status code v =
    SavesOnly-reject (Inv w) (not (valid_callback_failure status code true)) _ _ λ valid.
      SavesOnly-reject (Inv w)
        (not_attempted r.callback_delivery id || not_head r.pending_events id) _ _
        λ _. with_delivery-Inv w r (note_failure r.callback_delivery status code) v (
          note_failure-valid r.callback_delivery r.pending_events status code v.delivery
            (ground arith))

append_dead_letter-length :
    (letters : List CallbackDeadLetter) (letter : CallbackDeadLetter)
    → (length (append_dead_letter letters letter) ≤ max_dead_letters)
      × (length (append_dead_letter letters letter) ≤ length letters + 1)
unfolding append_dead_letter
append_dead_letter-length letters letter =
    let whole = length-append letters (letter ∷ []) in
    let kept =
      length-drop (length (letters ++ letter ∷ []) - max_dead_letters) (letters ++ letter ∷ []) in
    (omega (arith, whole, kept), omega (arith, whole, kept))

append_dead_letter-All :
    (P : CallbackDeadLetter → Type 0) (letters : List CallbackDeadLetter)
    (letter : CallbackDeadLetter)
    → All P letters
    → P letter
    → All P (append_dead_letter letters letter)
unfolding append_dead_letter
append_dead_letter-All P letters letter h p =
    All-drop P (length (letters ++ letter ∷ []) - max_dead_letters) (letters ++ letter ∷ [])
      (All-append P letters (letter ∷ []) h (p, tt))

-- The letter of a delivered head event is well formed.
dead_letter-IsLetter :
    (r : SessionRecord) (id : Bytes) (status : ℕ) (code : Bytes) (t : ℕ) (events : List RunnerEvent)
    (p : RunnerEvent × CallbackDeliveryAttempt)
    → Outbox r.runner_session_id 0 0 events r.last_sequence r.usage_total
    → check_delivery r.callback_delivery events ≡ ok tt
    → valid_callback_failure status code false ≡ true
    → head_attempt events r.callback_delivery id ≡ ok p
    → IsLetter r.runner_session_id r.last_sequence (dead_letter p.0 p.1 status code t)
unfolding head_attempt dead_letter check_letter check_delivery
dead_letter-IsLetter r id status code t [] p o d valid h = cc
dead_letter-IsLetter r id status code t (e ∷ es) p o d valid h = ground (
  arith,
  Outbox-le r.runner_session_id e.sequence (usage_after e.usage 0) es r.last_sequence r.usage_total
      o.4,
  str_eq_refl (event_id r.runner_session_id e.sequence),
)

-- The record with the rejected head parked.
parked-Inv :
    (w : World) (r : SessionRecord) (letter : CallbackDeadLetter)
    → Inv w r
    → IsLetter r.runner_session_id r.last_sequence letter
    → Inv w (record r {
      pending_events = tail r.pending_events;
      callback_delivery = none;
      callback_rejected_total = r.callback_rejected_total + 1;
      callback_dead_letters = append_dead_letter r.callback_dead_letters letter;
    })
unfolding check_envelope check_times check_health_cursor check_terminal check_stopping
    check_activation
parked-Inv w r letter v h =
    let dropped = drop_head-Inv w r v in
    let sizes = append_dead_letter-length r.callback_dead_letters letter in
    record {
      fixed = v.fixed;
      envelope = v.envelope;
      healthy = v.healthy;
      phased = v.phased;
      ordered = dropped.ordered;
      metered = v.metered;
      delivery = dropped.delivery;
      letters = (
        sizes.0,
        omega (arith, v.letters.1, sizes.1),
        append_dead_letter-All (IsLetter r.runner_session_id r.last_sequence)
            r.callback_dead_letters letter v.letters.2 h,
      );
    }

-- ParkCallbackRejection saves only records with the invariant.
pub park_callback_rejection-Inv :
    (w : World) (r : SessionRecord) (id : Bytes) (status : ℕ) (code : Bytes) (t : ℕ)
    → Inv w r
    → SavesOnly (Inv w) (park_callback_rejection r id status code t)
unfolding park_callback_rejection
park_callback_rejection-Inv w r id status code t v =
    SavesOnly-reject (Inv w) (t == 0 || not (valid_callback_failure status code false)) _ _ λ valid.
      SavesOnly-bind (Inv w) (head_attempt r.pending_events r.callback_delivery id) _ λ p e.
        SavesOnly-reject (Inv w) (r.callback_rejected_total == u64_max) _ _ λ _.
          parked-Inv w r (dead_letter p.0 p.1 status code t) v (
            dead_letter-IsLetter r id status code t r.pending_events p v.ordered.0 v.delivery
              (ground arith) e)

-- ClearTerminalSecrets saves only records with the invariant.
pub clear_terminal_secrets-Inv :
    (w : World) (r : SessionRecord) → Inv w r → SavesOnly (Inv w) (clear_terminal_secrets r)
unfolding clear_terminal_secrets check_envelope check_times check_health_cursor check_terminal
    check_stopping check_activation is_empty
clear_terminal_secrets-Inv w r v =
    SavesOnly-reject (Inv w) (is_active r.state || not (length r.pending_events == 0)) _ _ λ done.
      record {
        fixed = v.fixed;
        envelope = ground arith;
        healthy = v.healthy;
        phased = v.phased;
        ordered = v.ordered;
        metered = v.metered;
        delivery = v.delivery;
        letters = v.letters;
      }
