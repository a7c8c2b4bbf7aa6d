-- ===== src/Admission/Exclusion.antt =====
-- transcode-core/gpu_admission.go: histories of calls, faults and ended processes on one host.
use mathlib.Core.Bool.{false≢true}
use livepeer_modules_transco.Prelude.{
  ℕ, ◌≡◌, refl, sym, ◌∙◌, inl, inr, Bool, true, false, Option, none, some, List, [], ◌∷◌, arith,
  ◌==◌, Bool-cases, ==_refl, ==→eq, subst,
}
use livepeer_modules_transco.Admission.Flock.{FileLock, listed, owns, Keeps}
use livepeer_modules_transco.Admission.Gate.{
  Cohort, batch, live, opposing, Gate, Phase, idle, entered, probing, probed, leasing, declined,
  holding, GpuHost, cohort_file, put_call, move, begin_acquire, step_acquire, fault, close_lease,
  release_all,
}

-- One step of one call, by the call's number.
pub data Event : Type 0 where
  begins : ℕ → Gate → ℕ → Event
  advances faults closes ends : ℕ → Event

unfoldable pub start : ℕ → Phase → Phase → GpuHost → GpuHost
start i idle p h = move i p h
start i _ p h = h

unfoldable pub occur : Event → GpuHost → GpuHost
unfolding start begin_acquire step_acquire fault close_lease release_all
occur (begins i g n) h = start i (h.calls i) (begin_acquire g n) h
occur (advances i) h = step_acquire i (h.calls i) h
occur (faults i) h = fault i (h.calls i) h
occur (closes i) h = close_lease i (h.calls i) h
occur (ends i) h = release_all i h

unfoldable pub run_host : List Event → GpuHost → GpuHost
unfolding occur
run_host [] h = h
run_host (e ∷ es) h = run_host es (occur e h)

unfoldable pub is_cohort : Cohort → Cohort → Bool
is_cohort batch batch = true
is_cohort live live = true
is_cohort _ _ = false

-- A phase that holds the mutex; that holds a cohort's file shared; that holds it exclusively, for the
-- probe; and that relies on the absence of the opposing cohort.
unfoldable pub is_critical : Phase → Bool
is_critical (entered c) = true
is_critical (probing c) = true
is_critical (probed c) = true
is_critical (leasing c) = true
is_critical (declined e) = true
is_critical _ = false

unfoldable pub leases : Cohort → Phase → Bool
unfolding is_cohort
leases c (leasing d) = is_cohort c d
leases c (holding d) = is_cohort c d
leases c _ = false

unfoldable pub probes : Cohort → Phase → Bool
unfolding is_cohort
probes c (probing d) = is_cohort c (opposing d)
probes c _ = false

unfoldable pub claims : Cohort → Phase → Bool
unfolding is_cohort
claims c (probing d) = is_cohort c d
claims c (probed d) = is_cohort c d
claims c (leasing d) = is_cohort c d
claims c (holding d) = is_cohort c d
claims c _ = false

pub record IsSound (h : GpuHost) : Type 0 where
  pub mutex_reads : (i : ℕ) → listed i h.mutex.shared ≡ false
  pub mutex_writes : (i : ℕ) → owns i h.mutex.exclusive ≡ is_critical (h.calls i)
  pub file_reads : (c : Cohort) (i : ℕ) → listed i (cohort_file c h).shared ≡ leases c (h.calls i)
  pub file_writes : (c : Cohort) (i : ℕ) → owns i (cohort_file c h).exclusive ≡ probes c (h.calls i)
  pub apart :
      (c : Cohort) (i j : ℕ) → claims c (h.calls i) ≡ true → leases (opposing c) (h.calls j) ≡ false

-- Only one call owns a file.
pub owns_unique : (o : Option ℕ) (i j : ℕ) → owns i o ≡ true → owns j o ≡ true → i ≡ j
unfolding owns
owns_unique none i j p q = absurd (false≢true p)
owns_unique (some k) i j p q = ground arith

pub put_call-own : (i : ℕ) (p : Phase) (calls : ℕ → Phase) → put_call i p calls i ≡ p
put_call-own i p calls = rw (==_refl i) refl

pub put_call-other :
    (i : ℕ) (p : Phase) (calls : ℕ → Phase) (j : ℕ)
    → (i == j) ≡ false
    → put_call i p calls j ≡ calls j
put_call-other i p calls j d = rw d refl

-- A fact of each call after call `i` has moved, from the facts of the others.
moved {ℓ} :
    (i : ℕ) (p : Phase) (calls : ℕ → Phase) (P : ℕ → Phase → Type ℓ)
    → P i p
    → ((j : ℕ) → (i == j) ≡ false → P j (calls j))
    → (j : ℕ) → P j (put_call i p calls j)
moved i p calls P own other j = elim (Bool-cases (i == j)) [
  | inl e ↦
      subst (λ k. P k (put_call i p calls k)) (==→eq i j e)
        (subst (λ q. P i q) (sym (put_call-own i p calls)) own)
  | inr d ↦ subst (λ q. P j q) (sym (put_call-other i p calls j d)) (other j d)
]

-- No phase claims one cohort and leases the other.
claims_self : (p : Phase) (c : Cohort) → claims c p ≡ true → leases (opposing c) p ≡ false
unfolding claims leases is_cohort
claims_self (leasing batch) batch h = refl
claims_self (leasing live) batch h = absurd (false≢true h)
claims_self (leasing batch) live h = absurd (false≢true h)
claims_self (leasing live) live h = refl
claims_self (holding batch) batch h = refl
claims_self (holding live) batch h = absurd (false≢true h)
claims_self (holding batch) live h = absurd (false≢true h)
claims_self (holding live) live h = refl
claims_self _ c h = refl

-- A move of call `i` keeps the host sound, if its locks change with its phase and the others' calls
-- allow what it claims.
pub move-IsSound :
    (i : ℕ) (p : Phase) (h : GpuHost) (m b l : FileLock)
    → IsSound h
    → Keeps i h.mutex m false (is_critical p)
    → Keeps i h.batch_file b (leases batch p) (probes batch p)
    → Keeps i h.live_file l (leases live p) (probes live p)
    → ((c : Cohort)
        → claims c p ≡ true
        → (j : ℕ) → (i == j) ≡ false
        → leases (opposing c) (h.calls j) ≡ false)
    → ((c : Cohort)
        → leases (opposing c) p ≡ true
        → (j : ℕ) → (i == j) ≡ false
        → claims c (h.calls j) ≡ false)
    → IsSound (record { mutex = m; batch_file = b; live_file = l; calls = put_call i p h.calls })
move-IsSound i p h m b l s km kb kl reads writes = record {
  mutex_reads =
      moved i p h.calls (λ j q. listed j m.shared ≡ false) km.own_shared
        λ j d. km.other_shared j d ∙ s.mutex_reads j;
  mutex_writes =
      moved i p h.calls (λ j q. owns j m.exclusive ≡ is_critical q) km.own_exclusive
        λ j d. km.other_exclusive j d ∙ s.mutex_writes j;
  file_reads = elim [
    | batch ↦
        moved i p h.calls (λ j q. listed j b.shared ≡ leases batch q) kb.own_shared
          λ j d. kb.other_shared j d ∙ s.file_reads batch j
    | live ↦
        moved i p h.calls (λ j q. listed j l.shared ≡ leases live q) kl.own_shared
          λ j d. kl.other_shared j d ∙ s.file_reads live j
  ];
  file_writes = elim [
    | batch ↦
        moved i p h.calls (λ j q. owns j b.exclusive ≡ probes batch q) kb.own_exclusive
          λ j d. kb.other_exclusive j d ∙ s.file_writes batch j
    | live ↦
        moved i p h.calls (λ j q. owns j l.exclusive ≡ probes live q) kl.own_exclusive
          λ j d. kl.other_exclusive j d ∙ s.file_writes live j
  ];
  apart = λ c j k.
      moved i p h.calls
        (λ n q. claims c q ≡ true → leases (opposing c) (put_call i p h.calls k) ≡ false)
        (λ own.
          moved i p h.calls (λ n q. leases (opposing c) q ≡ false) (claims_self p c own)
            (λ n d. reads c own n d) k)
        (λ n d other.
          moved i p h.calls (λ n' q. leases (opposing c) q ≡ false)
            (elim (Bool-cases (leases (opposing c) p)) [
              | inl e ↦ absurd (false≢true (sym (writes c e n d) ∙ other))
              | inr e ↦ e
            ])
            (λ n' d'. s.apart c n n' other) k)
        j;
}
