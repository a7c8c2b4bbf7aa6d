-- ===== src/Admission/Reach.antt =====
-- transcode-core/gpu_admission.go: the states of a host that histories of calls reach.
use livepeer_modules_transco.Prelude.{
  ℕ, ◌≡◌, refl, sym, ap, ◌∙◌, inl, inr, Bool, true, false, not, arith, ◌==◌, if◌then◌else◌,
  Bool-cases, io_error, invalid,
}
use mathlib.Core.Bool.{false≢true}
use livepeer_modules_transco.Admission.Flock.{FileLock, unlock, Keeps, unlock-Keeps, same-Keeps}
use livepeer_modules_transco.Admission.Gate.{
  Cohort, batch, live, opposing, Gate, Phase, idle, waiting, entered, probed, declined, holding,
  unguarded, refused, closed, GpuHost, put_call, move, begin_acquire, configured,
  gpu_admission_batch, gpu_admission_live, fault, close_lease, release_all,
}
use livepeer_modules_transco.Admission.Exclusion.{
  start, is_cohort, is_critical, leases, probes, claims, IsSound, owns_unique, move-IsSound,
}

-- While one call holds the mutex, no other does.
pub sole :
    (h : GpuHost) (i : ℕ)
    → IsSound h
    → is_critical (h.calls i) ≡ true
    → (j : ℕ) → (i == j) ≡ false
    → is_critical (h.calls j) ≡ false
sole h i s own j d = elim (Bool-cases (is_critical (h.calls j))) [
  | inl e ↦ absurd (
      ground
        (arith, owns_unique h.mutex.exclusive i j (s.mutex_writes i ∙ own) (s.mutex_writes j ∙ e)))
  | inr e ↦ e
]

-- What a phase claims and leases, at most.
abbrev pub IsWithin : Phase → Phase → Type 0
IsWithin p q =
    ((c : Cohort) → claims c p ≡ true → claims c q ≡ true)
    × ((c : Cohort) → leases c p ≡ true → leases c q ≡ true)

opposing-opposing : (c : Cohort) → opposing (opposing c) ≡ c
opposing-opposing batch = refl
opposing-opposing live = refl

-- A move to a phase that claims no more keeps the host sound.
pub shift-IsSound :
    (i : ℕ) (q p : Phase) (h : GpuHost) (m b l : FileLock)
    → IsSound h
    → h.calls i ≡ q
    → IsWithin p q
    → Keeps i h.mutex m false (is_critical p)
    → Keeps i h.batch_file b (leases batch p) (probes batch p)
    → Keeps i h.live_file l (leases live p) (probes live p)
    → IsSound (record { mutex = m; batch_file = b; live_file = l; calls = put_call i p h.calls })
shift-IsSound i q p h m b l s eq w km kb kl =
    move-IsSound i p h m b l s km kb kl (λ c own j d. s.apart c i j (ap (claims c) eq ∙ w.0 c own))
      λ c own j d. elim (Bool-cases (claims c (h.calls j))) [
        | inl e ↦ absurd (
            false≢true (sym (s.apart c j i e) ∙ ap (leases (opposing c)) eq ∙ w.1 (opposing c) own))
        | inr e ↦ e
      ]

module _ (i : ℕ) (q : Phase) (h : GpuHost) (s : IsSound h) (eq : h.calls i ≡ q) where
  pub mutex_kept : Keeps i h.mutex h.mutex false (is_critical q)
  mutex_kept = same-Keeps i h.mutex _ _ (s.mutex_reads i) (s.mutex_writes i ∙ ap is_critical eq)

  pub batch_kept : Keeps i h.batch_file h.batch_file (leases batch q) (probes batch q)
  batch_kept =
      same-Keeps i h.batch_file _ _ (s.file_reads batch i ∙ ap (leases batch) eq)
        (s.file_writes batch i ∙ ap (probes batch) eq)

  pub live_kept : Keeps i h.live_file h.live_file (leases live q) (probes live q)
  live_kept =
      same-Keeps i h.live_file _ _ (s.file_reads live i ∙ ap (leases live) eq)
        (s.file_writes live i ∙ ap (probes live) eq)

pub nothing-IsWithin :
    (p q : Phase)
    → ((c : Cohort) → claims c p ≡ false)
    → ((c : Cohort) → leases c p ≡ false)
    → IsWithin p q
nothing-IsWithin p q n m =
    (λ c own. absurd (false≢true (sym (n c) ∙ own)), λ c own. absurd (false≢true (sym (m c) ∙ own)))

pub start-IsSound :
    (i : ℕ) (q p : Phase) (h : GpuHost)
    → IsSound h
    → h.calls i ≡ q
    → is_critical p ≡ false
    → ((c : Cohort) → claims c p ≡ false)
    → ((c : Cohort) → leases c p ≡ false)
    → ((c : Cohort) → probes c p ≡ false)
    → IsSound (start i q p h)
unfolding start is_critical leases probes
start-IsSound i idle p h s eq k n m o =
    shift-IsSound i idle p h h.mutex h.batch_file h.live_file s eq (nothing-IsWithin p idle n m)
      (rw k (mutex_kept i idle h s eq)) (rw (m batch, o batch) (batch_kept i idle h s eq))
      (rw (m live, o live) (live_kept i idle h s eq))
start-IsSound i _ p h s eq k n m o = s

-- A call that changes no lock and then claims nothing.
pub stop-IsSound :
    (i : ℕ) (q p : Phase) (h : GpuHost)
    → IsSound h
    → h.calls i ≡ q
    → IsWithin p q
    → is_critical q ≡ is_critical p
    → ((c : Cohort) → leases c q ≡ leases c p)
    → ((c : Cohort) → probes c q ≡ probes c p)
    → IsSound (move i p h)
stop-IsSound i q p h s eq w k m o =
    shift-IsSound i q p h h.mutex h.batch_file h.live_file s eq w
      (rw (sym k) (mutex_kept i q h s eq))
      (rw (sym (m batch), sym (o batch)) (batch_kept i q h s eq))
      (rw (sym (m live), sym (o live)) (live_kept i q h s eq))

pub fault-IsSound :
    (i : ℕ) (q : Phase) (h : GpuHost) → IsSound h → h.calls i ≡ q → IsSound (fault i q h)
unfolding fault is_critical leases probes claims
fault-IsSound i (waiting c) h s eq =
    stop-IsSound i (waiting c) (refused io_error) h s eq
      (nothing-IsWithin (refused io_error) (waiting c) (λ d. refl) λ d. refl) refl (λ d. refl)
      λ d. refl
fault-IsSound i (entered c) h s eq =
    stop-IsSound i (entered c) (declined io_error) h s eq
      (nothing-IsWithin (declined io_error) (entered c) (λ d. refl) λ d. refl) refl (λ d. refl)
      λ d. refl
fault-IsSound i (probed c) h s eq =
    stop-IsSound i (probed c) (declined io_error) h s eq
      (nothing-IsWithin (declined io_error) (probed c) (λ d. refl) λ d. refl) refl (λ d. refl)
      λ d. refl
fault-IsSound i _ h s eq = s

pub close_lease-IsSound :
    (i : ℕ) (q : Phase) (h : GpuHost) → IsSound h → h.calls i ≡ q → IsSound (close_lease i q h)
unfolding close_lease is_critical leases probes claims is_cohort
close_lease-IsSound i (holding batch) h s eq =
    shift-IsSound i (holding batch) closed h h.mutex (unlock i h.batch_file) h.live_file s eq
      (nothing-IsWithin closed (holding batch) (λ d. refl) λ d. refl)
      (mutex_kept i (holding batch) h s eq) (unlock-Keeps i h.batch_file)
      (live_kept i (holding batch) h s eq)
close_lease-IsSound i (holding live) h s eq =
    shift-IsSound i (holding live) closed h h.mutex h.batch_file (unlock i h.live_file) s eq
      (nothing-IsWithin closed (holding live) (λ d. refl) λ d. refl)
      (mutex_kept i (holding live) h s eq) (batch_kept i (holding live) h s eq)
      (unlock-Keeps i h.live_file)
close_lease-IsSound i unguarded h s eq =
    stop-IsSound i unguarded closed h s eq (nothing-IsWithin closed unguarded (λ d. refl) λ d. refl)
      refl (λ d. refl) λ d. refl
close_lease-IsSound i _ h s eq = s

pub release_all-IsSound : (i : ℕ) (h : GpuHost) → IsSound h → IsSound (release_all i h)
unfolding release_all is_critical leases probes claims
release_all-IsSound i h s =
    shift-IsSound i (h.calls i) closed h (unlock i h.mutex) (unlock i h.batch_file)
      (unlock i h.live_file) s refl (nothing-IsWithin closed (h.calls i) (λ d. refl) λ d. refl)
      (unlock-Keeps i h.mutex) (unlock-Keeps i h.batch_file) (unlock-Keeps i h.live_file)

pub begin_acquire-claims :
    (g : Gate) (n : ℕ)
    → (is_critical (begin_acquire g n) ≡ false)
      × ((c : Cohort) → claims c (begin_acquire g n) ≡ false)
      × ((c : Cohort) → leases c (begin_acquire g n) ≡ false)
      × ((c : Cohort) → probes c (begin_acquire g n) ≡ false)
unfolding begin_acquire is_critical claims leases probes
begin_acquire-claims g n =
    go (not (configured g)) (n == gpu_admission_batch) (n == gpu_admission_live)
  where
    go :
        (a b d : Bool)
        → let p =
            if a
            then unguarded
            else if b
            then waiting batch
            else if d
            then waiting live
            else refused (invalid "invalid GPU admission cohort") in
          (is_critical p ≡ false)
          × ((c : Cohort) → claims c p ≡ false)
          × ((c : Cohort) → leases c p ≡ false)
          × ((c : Cohort) → probes c p ≡ false)
    go true b d = (refl, λ c. refl, λ c. refl, λ c. refl)
    go false true d = (refl, λ c. refl, λ c. refl, λ c. refl)
    go false false true = (refl, λ c. refl, λ c. refl, λ c. refl)
    go false false false = (refl, λ c. refl, λ c. refl, λ c. refl)
