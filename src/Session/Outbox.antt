-- ===== src/Session/Outbox.antt =====
-- The outbox of a session as an ordered list of events.
use livepeer_modules_transco.Prelude.{
  ℕ, ◌≤◌, ◌<◌, ◌≡◌, refl, ◌∙◌, inl, inr, Bool, true, false, Option, none, some, List, [], ◌∷◌, ◌++◌,
  map, arith, Bool-cases, Bytes, str_eq, str_eq_refl, str_eq→eq, elem, ok,
}
use livepeer_modules_transco.Contract.Types.{RunnerEvent, Usage}
use livepeer_modules_transco.Contract.Ident.{event_id}
use livepeer_modules_transco.Contract.EventId.{event_id-injective}
use livepeer_modules_transco.Contract.Event.{validate_event, u64_limit}
use livepeer_modules_transco.Session.Check.{usage_after, known_after, check_outbox, check_last}
use livepeer_modules_transco.Session.Callback.{tail}

-- Usage that is reported is at least `u`, and is `u`.
abbrev pub UsageFrom : ℕ → Option Usage → Type 0
UsageFrom u none = Unit {0}
UsageFrom u (some x) = u ≤ x.total

abbrev pub UsageIs : ℕ → Option Usage → Type 0
UsageIs u none = Unit {0}
UsageIs u (some x) = x.total ≡ u

-- Events after sequence `lo` and usage `u`, up to sequence `hi` and usage `top`.
abbrev pub Outbox : Bytes → ℕ → ℕ → List RunnerEvent → ℕ → ℕ → Type 0
Outbox runner lo u [] hi top = (lo ≤ hi) × (u ≤ top)
Outbox runner lo u (e ∷ es) hi top =
    (validate_event e ≡ ok tt)
    × (e.event_id ≡ event_id runner e.sequence)
    × (lo < e.sequence)
    × (UsageFrom u e.usage)
    × Outbox runner e.sequence (usage_after e.usage u) es hi top

-- The last event has sequence `hi`, and usage `top` if it reports any.
abbrev pub EndsAt : List RunnerEvent → ℕ → ℕ → Type 0
EndsAt [] hi top = Unit {0}
EndsAt (e ∷ []) hi top = (e.sequence ≡ hi) × UsageIs top e.usage
EndsAt (e ∷ f ∷ es) hi top = EndsAt (f ∷ es) hi top

pub Outbox-le :
    (runner : Bytes) (lo u : ℕ) (es : List RunnerEvent) (hi top : ℕ)
    → Outbox runner lo u es hi top
    → lo ≤ hi
Outbox-le runner lo u [] hi top h = h.0
Outbox-le runner lo u (e ∷ es) hi top h =
    omega (arith, Outbox-le runner e.sequence (usage_after e.usage u) es hi top h.4)

-- A later event of no less usage may follow.
pub Outbox-snoc :
    (runner : Bytes) (lo u : ℕ) (es : List RunnerEvent) (hi top : ℕ) (e : RunnerEvent) (top' : ℕ)
    → Outbox runner lo u es hi top
    → validate_event e ≡ ok tt
    → e.event_id ≡ event_id runner e.sequence
    → hi < e.sequence
    → UsageFrom top e.usage
    → usage_after e.usage top ≤ top'
    → Outbox runner lo u (es ++ e ∷ []) e.sequence top'
unfolding usage_after
Outbox-snoc runner lo u [] hi top e top' h v i s f t =
    (v, i, omega arith, ground arith, (omega arith, ground arith))
Outbox-snoc runner lo u (x ∷ es) hi top e top' h v i s f t = (
  h.0,
  h.1,
  h.2,
  h.3,
  Outbox-snoc runner x.sequence (usage_after x.usage u) es hi top e top' h.4 v i s f t,
)

pub EndsAt-snoc :
    (es : List RunnerEvent) (e : RunnerEvent) (hi top : ℕ)
    → e.sequence ≡ hi
    → UsageIs top e.usage
    → EndsAt (es ++ e ∷ []) hi top
EndsAt-snoc [] e hi top s u = (s, u)
EndsAt-snoc (x ∷ []) e hi top s u = (s, u)
EndsAt-snoc (x ∷ y ∷ es) e hi top s u = EndsAt-snoc (y ∷ es) e hi top s u

-- An outbox may start lower.
Outbox-lower :
    (runner : Bytes) (lo u lo' u' : ℕ) (es : List RunnerEvent) (hi top : ℕ)
    → lo' ≤ lo
    → u' ≤ u
    → Outbox runner lo u es hi top
    → Outbox runner lo' u' es hi top
unfolding usage_after
Outbox-lower runner lo u lo' u' [] hi top p q h = (omega arith, omega arith)
Outbox-lower runner lo u lo' u' (e ∷ es) hi top p q h = (
  h.0,
  h.1,
  omega arith,
  ground arith,
  Outbox-lower runner e.sequence (usage_after e.usage u) e.sequence (usage_after e.usage u') es hi
      top (omega arith) (ground arith) h.4,
)

-- The head may leave.
pub Outbox-tail :
    (runner : Bytes) (es : List RunnerEvent) (hi top : ℕ)
    → Outbox runner 0 0 es hi top
    → Outbox runner 0 0 (tail es) hi top
Outbox-tail runner [] hi top h = h
Outbox-tail runner (e ∷ es) hi top h =
    Outbox-lower runner e.sequence (usage_after e.usage 0) 0 0 es hi top (omega arith) (omega arith)
      h.4

pub EndsAt-tail : (es : List RunnerEvent) (hi top : ℕ) → EndsAt es hi top → EndsAt (tail es) hi top
EndsAt-tail [] hi top h = tt
EndsAt-tail (e ∷ []) hi top h = tt
EndsAt-tail (e ∷ f ∷ es) hi top h = h

-- The validator's loop accepts an outbox.
pub check_outbox-ok :
    (runner : Bytes) (lo u : ℕ) (known : Bool) (es : List RunnerEvent) (hi top : ℕ)
    → Outbox runner lo u es hi top
    → check_outbox runner hi lo known u es ≡ ok tt
unfolding check_outbox
check_outbox-ok runner lo u known [] hi top h = refl
check_outbox-ok runner lo u known (e ∷ es) hi top h = ground (
  arith,
  str_eq_refl (event_id runner e.sequence),
  Outbox-le runner e.sequence (usage_after e.usage u) es hi top h.4,
  check_outbox-ok runner e.sequence (usage_after e.usage u) (known_after e.usage known) es hi top
      h.4,
)

pub check_last-ok :
    (es : List RunnerEvent) (hi top : ℕ) → EndsAt es hi top → check_last es hi top ≡ true
unfolding check_last
check_last-ok [] hi top h = refl
check_last-ok (e ∷ []) hi top h = ground arith
check_last-ok (e ∷ f ∷ es) hi top h = check_last-ok (f ∷ es) hi top h

-- No event of the outbox has the identity of a later sequence number.
pub Outbox-fresh :
    (runner : Bytes) (lo u : ℕ) (es : List RunnerEvent) (hi top n : ℕ)
    → Outbox runner lo u es hi top
    → hi < n
    → n < u64_limit
    → elem (event_id runner n) (map (λ e. e.event_id) es) ≡ false
unfolding elem
Outbox-fresh runner lo u [] hi top n h l b = refl
Outbox-fresh runner lo u (e ∷ es) hi top n h l b =
    elim (Bool-cases (str_eq (event_id runner n) e.event_id)) [
      | inl same ↦ absurd (
          omega (
            arith,
            Outbox-le runner e.sequence (usage_after e.usage u) es hi top h.4,
            event_id-injective runner n e.sequence (omega arith)
                (omega (arith, Outbox-le runner e.sequence (usage_after e.usage u) es hi top h.4))
                (str_eq→eq (event_id runner n) e.event_id same ∙ h.1),
          ))
      | inr other ↦
          rw other (Outbox-fresh runner e.sequence (usage_after e.usage u) es hi top n h.4 l b)
    ]
