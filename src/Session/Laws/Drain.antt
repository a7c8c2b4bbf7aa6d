-- ===== src/Session/Laws/Drain.antt =====
-- live-runner/callback.go: the sweep of a session and its abstract mailbox.
use livepeer_modules_transco.Prelude.{
  ℕ, zero, suc, ◌+◌, ◌≤◌, ◌<◌, ◌≡◌, refl, sym, ap, ◌∙◌, ◌≢◌, inl, inr, true, false, not, ◌||◌, none,
  some, List, [], ◌∷◌, arith, ◌==◌, Bool-cases, length, All, Bytes, is_empty, subst, Error,
}
use livepeer_modules_transco.Contract.Types.{RunnerEvent}
use livepeer_modules_transco.Session.Record.{World, SessionRecord, u64_max}
use livepeer_modules_transco.Session.Callback.{attempt_at, tail, clear_terminal_secrets}
use livepeer_modules_transco.Session.Delivery.{
  Delivery, settle_delivery, check_due, post_reserved, post_due, has_secrets, deliver_head,
  deliver_next,
}
use livepeer_modules_transco.Session.Delivery.{
  Delivery, settle_delivery, check_due, post_reserved, post_due, has_secrets, deliver_head,
  deliver_next, Client, continues, breaks, fails, next_of, Swept, drain, erase_secrets, end_sweep,
  sweep_session,
}
use livepeer_modules_transco.Session.Callback.{attempt_at, tail, clear_terminal_secrets}
use livepeer_modules_transco.Session.Laws.Mailbox.{
  Verdict, accepts, refuses, defers, verdict, Mailbox, offer, mailbox,
}
use livepeer_modules_transco.Contract.Ident.{event_id, is_active}
use livepeer_modules_transco.Session.Check.{usage_after}
use livepeer_modules_transco.Session.Outbox.{Outbox}
use livepeer_modules_transco.Session.Invariant.{Inv}
use livepeer_modules_transco.Session.Laws.Sweep.{
  IsAnswer, next_after, Follows, settle_delivery-Follows, IsDue, reserve-IsDue,
}

abbrev pub proceed {ℓ} : {A : Type ℓ} → Verdict → A → A → A
proceed accepts rest stop = rest
proceed refuses rest stop = rest
proceed defers rest stop = stop

-- The receiver's verdicts on the first event in turn, until it defers one.
unfoldable pub serve : (ℕ → Verdict) → ℕ → ℕ → Mailbox → Mailbox
unfolding offer
serve f n zero m = m
serve f n (suc left) m = let rest = serve f (suc n) left (offer (f n) m) in proceed (f n) rest m

-- What a sweep relies on: the clock runs, the client gives HTTP statuses, the retry policy is one.
pub record IsWorking (client : Client) (initial maximum : ℕ) : Type 0 where
  pub started : (k : ℕ) → 0 < client.clock k
  pub answers : (k : ℕ) → IsAnswer (client.response k)
  pub positive : 0 < initial
  pub bounded : initial ≤ maximum

abbrev IsNamed : RunnerEvent → Type 0
IsNamed e = is_empty e.event_id ≡ false

-- The first event that waits may be delivered at time `t`.
abbrev pub IsHeadDue : SessionRecord → ℕ → List RunnerEvent → Type 0
IsHeadDue r t [] = Unit {0}
IsHeadDue r t (e ∷ es) = IsDue r.callback_delivery e.event_id t

deliver_next-Follows :
    (w : World) (client : Client) (initial maximum n : ℕ) (r : SessionRecord) (e : RunnerEvent)
    (es : List RunnerEvent)
    → IsWorking client initial maximum
    → r.pending_events ≡ e ∷ es
    → IsNamed e
    → has_secrets r ≡ true
    → IsDue r.callback_delivery e.event_id (client.clock n)
    → r.callback_rejected_total < u64_max
    → let s = deliver_next w r (client.clock n) initial maximum (client.response n) in
      Follows (verdict (client.response n)) r s.0 s.1
      × (s.0.callback_rejected_total ≤ r.callback_rejected_total + 1)
unfolding deliver_next deliver_head post_due post_reserved mailbox attempt_at
deliver_next-Follows w client initial maximum n r e es k pe named secret due room =
    let t = client.clock n in
    let response = client.response n in
    let (checked, (attempts, reserved)) =
      reserve-IsDue w r e es t initial maximum pe due named (k.started n) k.positive k.bounded in
    let a = attempt_at w e.event_id attempts t initial maximum in
    let r' : SessionRecord = record r { callback_delivery = some a } in
    let (f, count) =
      settle_delivery-Follows r' e es a t response pe refl refl (k.started n) (k.answers n) room in
    let headed : deliver_head w r t initial maximum response (e ∷ es)
        ≡ post_due w r e.event_id t initial maximum response (check_due r.callback_delivery t) =
      rw secret refl in
    let sent : deliver_next w r t initial maximum response
        ≡ settle_delivery r' e.event_id t response =
      ap (deliver_head w r t initial maximum response) pe
      ∙ headed
      ∙ ap (post_due w r e.event_id t initial maximum response) checked
      ∙ ap (post_reserved r e.event_id t response) reserved in
    subst
      (λ s.
        Follows (verdict response) r s.0 s.1
        × (s.0.callback_rejected_total ≤ r.callback_rejected_total + 1))
      (sym sent)
      (
        record {
          box = f.box;
          next = f.next;
          cleared = f.cleared;
          same_state = f.same_state;
          same_secrets = f.same_secrets;
        },
        count,
      )

-- What a sweep leaves, with the mailbox as the specification serves it.
pub record Drains (box' : Mailbox) (r : SessionRecord) (s : Swept) : Type 0 where
  pub quiet : s.1 ≡ none
  pub box : mailbox s.0 ≡ box'
  pub same_state : s.0.state ≡ r.state
  pub same_secrets : s.0.wrapped_key_ciphertext ≡ r.wrapped_key_ciphertext

module _ (w : World) (client : Client) (initial maximum : ℕ) where
  abbrev pub served : ℕ → List RunnerEvent → Mailbox → Mailbox
  served n es m = serve (λ k. verdict (client.response k)) n (length es) m

  abbrev pub drained : ℕ → List RunnerEvent → SessionRecord → Swept
  drained n es r = drain w client initial maximum n (length es) r

  -- What the sweep does from its `n`th call on, where the outbox is `es`.
  abbrev pub DrainsFrom : ℕ → List RunnerEvent → Type 0
  DrainsFrom n es =
      (r : SessionRecord)
      → r.pending_events ≡ es
      → IsHeadDue r (client.clock n) es
      → has_secrets r ≡ true
      → r.callback_rejected_total + length es ≤ u64_max
      → Drains (served n es (mailbox r)) r (drained n es r)

  ready :
      (t : ℕ) (r : SessionRecord) (es : List RunnerEvent)
      → r.callback_delivery ≡ none
      → IsHeadDue r t es
  ready t r [] cleared = tt
  ready t r (g ∷ gs) cleared = rw cleared tt

  continue-Drains :
      (n : ℕ) (e : RunnerEvent) (es : List RunnerEvent) (v : Verdict) (d : Delivery)
      (r r' : SessionRecord)
      → r.pending_events ≡ e ∷ es
      → has_secrets r ≡ true
      → r.callback_rejected_total + length (e ∷ es) ≤ u64_max
      → Follows v r r' d
      → r'.callback_rejected_total ≤ r.callback_rejected_total + 1
      → r'.pending_events ≡ es
      → next_after v ≡ continues
      → DrainsFrom (suc n) es
      → Drains (served (suc n) es (offer v (mailbox r))) r (drained (suc n) es r')
  unfolding has_secrets
  continue-Drains n e es v d r r' pe secret room f count left on from =
      let s =
        from r' left (ready (client.clock (suc n)) r' es (f.cleared on))
          (ap (λ c. not (is_empty c)) f.same_secrets ∙ secret) (omega arith) in
      record {
        quiet = s.quiet;
        box = s.box ∙ ap (served (suc n) es) f.box;
        same_state = s.same_state ∙ f.same_state;
        same_secrets = s.same_secrets ∙ f.same_secrets;
      }

  after_verdict :
      (n : ℕ) (e : RunnerEvent) (es : List RunnerEvent) (v : Verdict) (d : Delivery)
      (r r' : SessionRecord)
      → r.pending_events ≡ e ∷ es
      → has_secrets r ≡ true
      → r.callback_rejected_total + length (e ∷ es) ≤ u64_max
      → Follows v r r' d
      → r'.callback_rejected_total ≤ r.callback_rejected_total + 1
      → DrainsFrom (suc n) es
      → Drains
          (proceed v (served (suc n) es (offer v (mailbox r))) (mailbox r))
          r
          (elim (next_of d) [
            | continues ↦ drained (suc n) es r'
            | breaks ↦ (r', none)
            | fails e ↦ (r', some e)
          ])
  unfolding next_after offer mailbox
  after_verdict n e es defers d r r' pe secret room f count from = rw f.next (record {
    quiet = refl;
    box = f.box;
    same_state = f.same_state;
    same_secrets = f.same_secrets;
  })
  after_verdict n e es accepts d r r' pe secret room f count from = rw f.next (
      continue-Drains n e es accepts d r r' pe secret room f count
        (ap (λ m. m.waiting_events) f.box ∙ ap tail pe) refl from)
  after_verdict n e es refuses d r r' pe secret room f count from = rw f.next (
      continue-Drains n e es refuses d r r' pe secret room f count
        (ap (λ m. m.waiting_events) f.box ∙ rw pe refl) refl from)

  pub drain-serve :
      IsWorking client initial maximum
      → (es : List RunnerEvent) (n : ℕ) → All IsNamed es
      → DrainsFrom n es
  unfolding drain serve
  drain-serve k [] n named r pe due secret room = record {
    quiet = refl;
    box = refl;
    same_state = refl;
    same_secrets = refl;
  }
  drain-serve k (e ∷ es) n named r pe due secret room =
      let t = client.clock n in
      let (f, count) =
        deliver_next-Follows w client initial maximum n r e es k pe named.0 secret due
          (omega arith) in
      let sent = deliver_next w r t initial maximum (client.response n) in
      after_verdict n e es (verdict (client.response n)) sent.1 r sent.0 pe secret room f count
        (drain-serve k es (suc n) named.1)

Outbox-IsNamed :
    (runner : Bytes) (lo u : ℕ) (es : List RunnerEvent) (hi top : ℕ)
    → Outbox runner lo u es hi top
    → All IsNamed es
unfolding is_empty event_id
Outbox-IsNamed runner lo u [] hi top h = tt
Outbox-IsNamed runner lo u (e ∷ es) hi top h = (
  ap is_empty h.1 ∙ filled runner,
  Outbox-IsNamed runner e.sequence (usage_after e.usage u) es hi top h.4,
)
  where
    filled : (id : Bytes) → is_empty (event_id id e.sequence) ≡ false
    filled [] = refl
    filled (c ∷ s) = refl

-- The end of a sweep of a record that had secrets.
abbrev EndsWell : SessionRecord → Swept → Type 0
EndsWell r s =
    (s.1 ≡ none)
    × (mailbox s.0 ≡ mailbox r)
    × (s.0.state ≡ r.state)
    × (has_secrets s.0 ≡ (is_active s.0.state || not (length s.0.pending_events == 0)))

erase_secrets-EndsWell : (r : SessionRecord) → has_secrets r ≡ true → EndsWell r (erase_secrets r)
unfolding erase_secrets clear_terminal_secrets has_secrets is_empty mailbox
erase_secrets-EndsWell r secret = elim (Bool-cases (is_active r.state)) [
  | inl busy ↦ rw busy (refl, refl, refl, rw busy secret)
  | inr over ↦ elim (Bool-cases (length r.pending_events == 0)) [
    | inl drained_all ↦
        rw (over, drained_all, secret) (refl, refl, refl, rw (over, drained_all) refl)
    | inr more_left ↦ rw (over, more_left) (refl, refl, refl, rw (over, more_left) secret)
  ]
]

end_sweep-EndsWell : (s : Swept) → s.1 ≡ none → has_secrets s.0 ≡ true → EndsWell s.0 (end_sweep s)
unfolding end_sweep
end_sweep-EndsWell (r, none) quiet secret = erase_secrets-EndsWell r secret
end_sweep-EndsWell (r, some e) quiet secret = absurd (Option-none r e quiet)
  where
    Option-none : (r : SessionRecord) (e : Error) → some e ≢ none
    Option-none r e h = cc

-- SweepOnce on a stored session with secrets, whose first event is due, treats the outbox as the
-- mailbox of the specification and returns no error, if the clock runs, each answer is a transport
-- failure or a status from 100 to 599, the first delay is positive and not above the maximum, and the
-- count of refusals has room for the outbox. Each event is offered in order, an event that the
-- receiver takes or refuses for good leaves the outbox, the last 32 refused ones are kept and all are
-- counted, and the first deferred event stays at the head. Secrets stay exactly while the session is
-- active or has events to deliver.
pub sweep_session-serve :
    (w : World) (client : Client) (initial maximum : ℕ) (r : SessionRecord)
    → IsWorking client initial maximum
    → Inv w r
    → IsHeadDue r (client.clock 0) r.pending_events
    → has_secrets r ≡ true
    → r.callback_rejected_total + length r.pending_events ≤ u64_max
    → let s = sweep_session w client initial maximum r in
      (s.1 ≡ none)
      × (mailbox s.0
          ≡ serve (λ k. verdict (client.response k)) 0 (length r.pending_events) (mailbox r))
      × (s.0.state ≡ r.state)
      × (has_secrets s.0 ≡ (is_active r.state || not (length s.0.pending_events == 0)))
unfolding sweep_session has_secrets
sweep_session-serve w client initial maximum r k v due secret room =
    let named =
      Outbox-IsNamed r.runner_session_id 0 0 r.pending_events r.last_sequence r.usage_total
        v.ordered.0 in
    let d =
      drain-serve w client initial maximum k r.pending_events 0 named r refl due secret room in
    let swept = drain w client initial maximum 0 (length r.pending_events) r in
    let ends =
      end_sweep-EndsWell swept d.quiet (ap (λ c. not (is_empty c)) d.same_secrets ∙ secret) in
    let same = ends.2 ∙ d.same_state in
    (
      ends.0,
      ends.1 ∙ d.box,
      same,
      ends.3 ∙ ap (λ st. is_active st || not (length (end_sweep swept).0.pending_events == 0)) same,
    )

serve_all :
    (f : ℕ → Verdict)
    → ((k : ℕ) → next_after (f k) ≡ continues)
    → (es : List RunnerEvent) (n : ℕ) (m : Mailbox) → m.waiting_events ≡ es
    → (serve f n (length es) m).waiting_events ≡ []
unfolding serve offer next_after
serve_all f h [] n m eq = eq
serve_all f h (e ∷ es) n m eq =
    elim (f n)
        as (λ v.
          next_after v ≡ continues
          → (proceed v (serve f (suc n) (length es) (offer v m)) m).waiting_events ≡ []) [
            | accepts ↦ λ on. serve_all f h es (suc n) (offer accepts m) (ap tail eq)
            | refuses ↦ λ on. serve_all f h es (suc n) (offer refuses m) (rw eq refl)
            | defers ↦ λ on. cc
          ]
      (h n)

-- SweepOnce on a stored session that is over, with secrets and a first event that is due, by a client
-- whose receiver defers no event, delivers or parks the whole outbox and erases the secrets, if the
-- clock runs, each answer is a status from 100 to 599, the first delay is positive and not above the
-- maximum, and the count of refusals has room for the outbox.
pub sweep_session-drains :
    (w : World) (client : Client) (initial maximum : ℕ) (r : SessionRecord)
    → IsWorking client initial maximum
    → Inv w r
    → IsHeadDue r (client.clock 0) r.pending_events
    → has_secrets r ≡ true
    → r.callback_rejected_total + length r.pending_events ≤ u64_max
    → ((k : ℕ) → verdict (client.response k) ≢ defers)
    → is_active r.state ≡ false
    → let s = sweep_session w client initial maximum r in
      (s.0.pending_events ≡ []) × (has_secrets s.0 ≡ false)
unfolding mailbox next_after
sweep_session-drains w client initial maximum r k v due secret room definite over =
    let s = sweep_session-serve w client initial maximum r k v due secret room in
    let on : (n : ℕ) → next_after (verdict (client.response n)) ≡ continues =
      λ n. going (verdict (client.response n)) (definite n) in
    let none_left =
      ap (λ m. m.waiting_events) s.1
      ∙ serve_all (λ n. verdict (client.response n)) on r.pending_events 0 (mailbox r) refl in
    (none_left, s.3 ∙ rw (over, none_left) refl)
  where
    going : (x : Verdict) → x ≢ defers → next_after x ≡ continues
    going accepts h = refl
    going refuses h = refl
    going defers h = absurd (h refl)
