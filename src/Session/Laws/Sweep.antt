-- ===== src/Session/Laws/Sweep.antt =====
-- live-runner/callback.go: DeliverNext and the abstract mailbox.
use livepeer_modules_transco.Prelude.{
  ℕ, zero, suc, ◌+◌, ◌-◌, ◌≤◌, ◌<◌, ◌≡◌, refl, sym, ap, ◌∙◌, ◌⊎◌, inl, inr, Bool, true, false, ◌||◌,
  Option, none, some, List, [], ◌∷◌, ◌++◌, map, arith, ltb, leb, ◌==◌, Bool-cases, length, drop,
  Bytes, codes, str_eq_refl, is_empty, ok,
}
use livepeer_modules_transco.Contract.Types.{at, RunnerEvent}
use livepeer_modules_transco.Session.Record.{
  World, SessionRecord, saved, CallbackDeliveryAttempt, u32_max, u64_max, CallbackDeadLetter,
}
use livepeer_modules_transco.Session.Callback.{
  status_retryable, reserve_callback_attempt, record_callback_retry_failure, valid_callback_failure,
  not_head, next_attempt, attempt_at, park_callback_rejection, acknowledge_event,
  append_dead_letter, head_attempt, dead_letter, not_attempted,
}
use livepeer_modules_transco.Session.Delivery.{
  Response, transport_failed, answered, Delivery, delivered, delivery_failed,
  safe_callback_error_code, settle_delivery, settled, check_due,
}
use livepeer_modules_transco.Session.Delivery.{
  Response, transport_failed, answered, Delivery, delivered, delivery_failed,
  safe_callback_error_code, settle_delivery, settled, check_due, Next, continues, breaks, next_of,
}
use livepeer_modules_transco.Session.Callback.{
  status_retryable, reserve_callback_attempt, record_callback_retry_failure, valid_callback_failure,
  not_head, next_attempt, attempt_at, park_callback_rejection, acknowledge_event,
  append_dead_letter, head_attempt, dead_letter, not_attempted,
}
use livepeer_modules_transco.Session.Laws.Mailbox.{
  Verdict, accepts, refuses, defers, verdict, last_32, offer, mailbox,
  safe_callback_error_code-IsValid,
}

-- The statuses that the store takes: those below 600. net/http reports no status below 100.
abbrev pub IsAnswer : Response → Type 0
IsAnswer transport_failed = Unit {0}
IsAnswer (answered status body) = (100 ≤ status) × (status < 600)

unfoldable pub next_after : Verdict → Next
next_after accepts = continues
next_after refuses = continues
next_after defers = breaks

verdict-cases :
    (status : ℕ) (body : Option (Bytes × Bytes))
    → (((ltb status 200 || leb 300 status) ≡ false) × (verdict (answered status body) ≡ accepts))
      ⊎ ((((ltb status 200 || leb 300 status) ≡ true)
            × (status_retryable status ≡ true)
            × (verdict (answered status body) ≡ defers))
          ⊎ (((ltb status 200 || leb 300 status) ≡ true)
              × (status_retryable status ≡ false)
              × (verdict (answered status body) ≡ refuses)))
unfolding verdict status_retryable
verdict-cases status body = elim (Bool-cases (ltb status 200 || leb 300 status)) [
  | inr fine ↦ inl (fine, ground arith)
  | inl bad ↦ elim (Bool-cases (status_retryable status)) [
    | inl again ↦ inr (inl (bad, again, ground arith))
    | inr never ↦ inr (inr (bad, never, ground arith))
  ]
]

-- A delivery that follows the verdict `v` on the first event, and what comes next.
pub record Follows (v : Verdict) (r r' : SessionRecord) (d : Delivery) : Type 0 where
  pub box : mailbox r' ≡ offer v (mailbox r)
  pub next : next_of d ≡ next_after v
  pub cleared : (next_after v ≡ continues) → r'.callback_delivery ≡ none
  pub same_state : r'.state ≡ r.state
  pub same_secrets : r'.wrapped_key_ciphertext ≡ r.wrapped_key_ciphertext

valid_failure :
    (status : ℕ) (body : Option (Bytes × Bytes)) (allowed : Bool)
    → 100 ≤ status
    → status < 600
    → valid_callback_failure status (safe_callback_error_code status body) allowed ≡ true
unfolding valid_callback_failure
valid_failure status body allowed l h = ground (arith, safe_callback_error_code-IsValid status body)

retry-Follows :
    (r : SessionRecord) (e : RunnerEvent) (es : List RunnerEvent) (a : CallbackDeliveryAttempt)
    (status : ℕ) (code : Bytes)
    → r.pending_events ≡ e ∷ es
    → r.callback_delivery ≡ some a
    → a.event_id ≡ e.event_id
    → valid_callback_failure status code true ≡ true
    → let s =
        settled r
          (record_callback_retry_failure r e.event_id status code)
          (delivery_failed status code true) in
      Follows defers r s.0 s.1 × (s.0.callback_rejected_total ≡ r.callback_rejected_total)
unfolding record_callback_retry_failure not_attempted not_head next_of next_after mailbox offer
retry-Follows r e es a status code pe ce ae v =
    rw (v, ce, pe, ae, str_eq_refl e.event_id)
      (
        (record {
          box = refl;
          next = refl;
          cleared = λ h. cc;
          same_state = refl;
          same_secrets = refl;
        }),
        refl,
      )

last_32-map :
    (letters : List CallbackDeadLetter) (letter : CallbackDeadLetter)
    → map (λ l. l.event) (append_dead_letter letters letter)
      ≡ last_32 (map (λ l. l.event) letters ++ letter.event ∷ [])
unfolding append_dead_letter
last_32-map letters letter =
    let all_letters = letters ++ letter ∷ [] in
    drop-map (length all_letters - 32) all_letters
    ∙ ap (λ n. drop (n - 32) (map (λ l. l.event) all_letters)) (sym (length-events all_letters))
    ∙ ap last_32 (events-snoc letters)
  where
    drop-map :
        (n : ℕ) (ls : List CallbackDeadLetter)
        → map (λ l. l.event) (drop n ls) ≡ drop n (map (λ l. l.event) ls)
    drop-map zero ls = refl
    drop-map (suc n) [] = refl
    drop-map (suc n) (l ∷ ls) = drop-map n ls

    length-events : (ls : List CallbackDeadLetter) → length (map (λ l. l.event) ls) ≡ length ls
    length-events [] = refl
    length-events (l ∷ ls) = omega (arith, length-events ls)

    events-snoc :
        (ls : List CallbackDeadLetter)
        → map (λ l. l.event) (ls ++ letter ∷ []) ≡ map (λ l. l.event) ls ++ letter.event ∷ []
    events-snoc [] = refl
    events-snoc (l ∷ ls) = ap (λ rest. l.event ∷ rest) (events-snoc ls)

refuse-Follows :
    (r : SessionRecord) (e : RunnerEvent) (es : List RunnerEvent) (a : CallbackDeliveryAttempt)
    (status : ℕ) (code : Bytes) (t : ℕ)
    → r.pending_events ≡ e ∷ es
    → r.callback_delivery ≡ some a
    → a.event_id ≡ e.event_id
    → valid_callback_failure status code false ≡ true
    → (t == 0) ≡ false
    → (r.callback_rejected_total == u64_max) ≡ false
    → let s =
        settled r
          (park_callback_rejection r e.event_id status code t)
          (delivery_failed status code false) in
      Follows refuses r s.0 s.1 × (s.0.callback_rejected_total ≡ r.callback_rejected_total + 1)
unfolding park_callback_rejection head_attempt dead_letter next_of next_after mailbox offer
refuse-Follows r e es a status code t pe ce ae v tz room =
    rw (v, ce, pe, ae, tz, room, str_eq_refl e.event_id)
      (
        record {
          box =
              ap
                (λ letters. record {
                  waiting_events = es;
                  refused_events = letters;
                  refused_count = r.callback_rejected_total + 1;
                })
                (last_32-map r.callback_dead_letters (dead_letter e a status code t));
          next = refl;
          cleared = λ h. refl;
          same_state = refl;
          same_secrets = refl;
        },
        refl,
      )

accept-Follows :
    (r : SessionRecord) (e : RunnerEvent) (es : List RunnerEvent)
    → r.pending_events ≡ e ∷ es
    → let s = settled r (acknowledge_event r e.event_id) delivered in
      Follows accepts r s.0 s.1 × (s.0.callback_rejected_total ≡ r.callback_rejected_total)
unfolding acknowledge_event not_head next_of next_after mailbox offer
accept-Follows r e es pe =
    rw (pe, str_eq_refl e.event_id)
      (
        record {
          box = refl;
          next = refl;
          cleared = λ h. refl;
          same_state = refl;
          same_secrets = refl;
        },
        refl,
      )

pub settle_delivery-Follows :
    (r : SessionRecord) (e : RunnerEvent) (es : List RunnerEvent) (a : CallbackDeliveryAttempt)
    (t : ℕ) (response : Response)
    → r.pending_events ≡ e ∷ es
    → r.callback_delivery ≡ some a
    → a.event_id ≡ e.event_id
    → 0 < t
    → IsAnswer response
    → r.callback_rejected_total < u64_max
    → let s = settle_delivery r e.event_id t response in
      Follows (verdict response) r s.0 s.1
      × (s.0.callback_rejected_total ≤ r.callback_rejected_total + 1)
unfolding settle_delivery verdict valid_callback_failure
settle_delivery-Follows r e es a t transport_failed pe ce ae tp ans room =
    let f = retry-Follows r e es a 0 (codes "transport_error") pe ce ae refl in
    (f.0, omega (arith, f.1))
settle_delivery-Follows r e es a t (answered status body) pe ce ae tp ans room =
    let code = safe_callback_error_code status body in
    elim (verdict-cases status body) [
      | inl (fine, v) ↦ let f = accept-Follows r e es pe in rw (fine, v) (f.0, omega (arith, f.1))
      | inr (inl (bad, again, v)) ↦
          let f =
            retry-Follows r e es a status code pe ce ae
              (valid_failure status body true ans.0 ans.1) in
          rw (bad, again, v) (f.0, omega (arith, f.1))
      | inr (inr (bad, never, v)) ↦
          let f =
            refuse-Follows r e es a status code t pe ce ae
              (valid_failure status body false ans.0 ans.1) (ground arith) (ground arith) in
          rw (bad, never, v) (f.0, omega (arith, f.1))
    ]

-- An attempt may be made at time `t`: none was made for the head, or its retry time has come.
abbrev pub IsDue : Option CallbackDeliveryAttempt → Bytes → ℕ → Type 0
IsDue none id t = Unit {0}
IsDue (some a) id t =
    (a.event_id ≡ id)
    × (a.attempts < u32_max)
    × ((due : ℕ) × (a.next_attempt_at ≡ at due) × (due ≤ t))

pub reserve-IsDue :
    (w : World) (r : SessionRecord) (e : RunnerEvent) (es : List RunnerEvent)
    (t initial maximum : ℕ)
    → r.pending_events ≡ e ∷ es
    → IsDue r.callback_delivery e.event_id t
    → is_empty e.event_id ≡ false
    → 0 < t
    → 0 < initial
    → initial ≤ maximum
    → (check_due r.callback_delivery t ≡ ok true)
      × ((n : ℕ) × (reserve_callback_attempt w r e.event_id t initial maximum
            ≡ ok (
                saved
                  (record r {
                    callback_delivery = some (attempt_at w e.event_id n t initial maximum);
                  })
                  (attempt_at w e.event_id n t initial maximum))))
unfolding check_due reserve_callback_attempt not_head next_attempt is_empty
reserve-IsDue w r e es t initial maximum pe d filled tp ip im = go r.callback_delivery refl d
  where
    late : ltb maximum initial ≡ false
    late = ground arith

    zero_time : (t == 0) ≡ false
    zero_time = ground arith

    zero_delay : (initial == 0) ≡ false
    zero_delay = ground arith

    go :
        (o : Option CallbackDeliveryAttempt)
        → r.callback_delivery ≡ o
        → IsDue o e.event_id t
        → (check_due o t ≡ ok true)
          × ((n : ℕ) × (reserve_callback_attempt w r e.event_id t initial maximum
                ≡ ok (
                    saved
                      (record r {
                        callback_delivery = some (attempt_at w e.event_id n t initial maximum);
                      })
                      (attempt_at w e.event_id n t initial maximum))))
    go none eq due =
        (refl, (1, rw (filled, zero_time, zero_delay, late, pe, eq, str_eq_refl e.event_id) refl))
    go (some a) eq (same, few, (due, at_due, past)) =
        let not_yet : ltb t due ≡ false = ground arith in
        let more : (a.attempts == u32_max) ≡ false = ground arith in
        (
          rw (at_due, not_yet) refl,
          (
            a.attempts + 1,
            rw
                (
                  filled,
                  zero_time,
                  zero_delay,
                  late,
                  pe,
                  eq,
                  same,
                  str_eq_refl e.event_id,
                  more,
                  at_due,
                  not_yet,
                )
                refl,
          ),
        )
