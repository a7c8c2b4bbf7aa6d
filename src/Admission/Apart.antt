-- ===== src/Admission/Apart.antt =====
-- transcode-core/gpu_admission.go: the steps of Acquire and Close, and the opposing cohorts.
use livepeer_modules_transco.Prelude.{
  ℕ, ◌≡◌, refl, sym, ap, ◌∙◌, ◌≢◌, ◌⊎◌, inl, inr, true, false, List, [], ◌∷◌, ◌==◌, Bool-cases,
  gpu_capacity,
}
use livepeer_modules_transco.Admission.Flock.{
  unlock, listed, owns, unlock-Keeps, lock_exclusive-cases, lock_shared-cases,
}
use livepeer_modules_transco.Admission.Gate.{
  Cohort, batch, live, opposing, Phase, idle, waiting, entered, probing, probed, leasing, declined,
  holding, unguarded, refused, closed, GpuHost, quiet_host, begin_acquire, enter, probe, lease,
  step_acquire,
}
use livepeer_modules_transco.Admission.Exclusion.{
  Event, begins, advances, faults, closes, ends, occur, run_host, is_cohort, is_critical, leases,
  probes, claims, IsSound, move-IsSound,
}
use mathlib.Core.Bool.{false≢true}
use livepeer_modules_transco.Admission.Reach.{
  sole, shift-IsSound, mutex_kept, batch_kept, live_kept, nothing-IsWithin, start-IsSound,
  stop-IsSound, fault-IsSound, close_lease-IsSound, release_all-IsSound, begin_acquire-claims,
}

claims-split :
    (c : Cohort) (p : Phase) → claims c p ≡ true → (is_critical p ≡ true) ⊎ (leases c p ≡ true)
unfolding claims is_critical leases
claims-split c (probing d) h = inl refl
claims-split c (probed d) h = inl refl
claims-split c (leasing d) h = inl refl
claims-split c (holding d) h = inr h
claims-split c idle h = inr h
claims-split c (waiting d) h = inr h
claims-split c (entered d) h = inr h
claims-split c (declined e) h = inr h
claims-split c unguarded h = inr h
claims-split c (refused e) h = inr h
claims-split c closed h = inr h

-- While a call that has probed holds the mutex, no other call claims the opposing cohort.
unclaimed :
    (h : GpuHost) (i : ℕ) (c : Cohort)
    → IsSound h
    → h.calls i ≡ probed c
    → (j : ℕ) → (i == j) ≡ false
    → claims (opposing c) (h.calls j) ≡ false
unfolding claims is_critical is_cohort
unclaimed h i c s eq j d = elim (Bool-cases (claims (opposing c) (h.calls j))) [
  | inr e ↦ e
  | inl e ↦ elim (claims-split (opposing c) (h.calls j) e) [
    | inl k ↦ absurd (false≢true (sym (sole h i s (ap is_critical eq) j d) ∙ k))
    | inr l ↦ absurd (false≢true (sym (s.apart c i j (ap (claims c) eq ∙ self c)) ∙ l))
  ]
]
  where
    self : (c : Cohort) → is_cohort c c ≡ true
    self batch = refl
    self live = refl

step_acquire-IsSound :
    (i : ℕ) (q : Phase) (h : GpuHost) → IsSound h → h.calls i ≡ q → IsSound (step_acquire i q h)
unfolding step_acquire enter probe lease is_critical leases probes claims is_cohort
step_acquire-IsSound i (waiting c) h s eq = elim (lock_exclusive-cases i h.mutex) [
  | inr (barred, held) ↦ rw barred s
  | inl (f, granted, kept, free) ↦ rw granted (
      shift-IsSound i (waiting c) (entered c) h f h.batch_file h.live_file s eq
        (nothing-IsWithin (entered c) (waiting c) (λ d. refl) λ d. refl) kept
        (batch_kept i (waiting c) h s eq) (live_kept i (waiting c) h s eq))
]
step_acquire-IsSound i (entered batch) h s eq = elim (lock_exclusive-cases i h.live_file) [
  | inr (barred, held) ↦ rw barred (
      stop-IsSound i (entered batch) (declined gpu_capacity) h s eq
        (nothing-IsWithin (declined gpu_capacity) (entered batch) (λ d. refl) λ d. refl) refl
        (λ d. refl) λ d. refl)
  | inl (f, granted, kept, free) ↦ rw granted (
      move-IsSound i (probing batch) h h.mutex h.batch_file f s
        (mutex_kept i (entered batch) h s eq) (batch_kept i (entered batch) h s eq) kept
        (elim [
          | batch ↦ λ own j d. sym (s.file_reads live j) ∙ free j
          | live ↦ λ own j d. absurd (false≢true own)
        ])
        λ c own j d. absurd (false≢true own))
]
step_acquire-IsSound i (entered live) h s eq = elim (lock_exclusive-cases i h.batch_file) [
  | inr (barred, held) ↦ rw barred (
      stop-IsSound i (entered live) (declined gpu_capacity) h s eq
        (nothing-IsWithin (declined gpu_capacity) (entered live) (λ d. refl) λ d. refl) refl
        (λ d. refl) λ d. refl)
  | inl (f, granted, kept, free) ↦ rw granted (
      move-IsSound i (probing live) h h.mutex f h.live_file s (mutex_kept i (entered live) h s eq)
        kept (live_kept i (entered live) h s eq)
        (elim [
          | batch ↦ λ own j d. absurd (false≢true own)
          | live ↦ λ own j d. sym (s.file_reads batch j) ∙ free j
        ])
        λ c own j d. absurd (false≢true own))
]
step_acquire-IsSound i (probing batch) h s eq =
    shift-IsSound i (probing batch) (probed batch) h h.mutex h.batch_file (unlock i h.live_file) s
      eq (λ c own. own, λ c own. own) (mutex_kept i (probing batch) h s eq)
      (batch_kept i (probing batch) h s eq) (unlock-Keeps i h.live_file)
step_acquire-IsSound i (probing live) h s eq =
    shift-IsSound i (probing live) (probed live) h h.mutex (unlock i h.batch_file) h.live_file s eq
      (λ c own. own, λ c own. own) (mutex_kept i (probing live) h s eq)
      (unlock-Keeps i h.batch_file) (live_kept i (probing live) h s eq)
step_acquire-IsSound i (probed batch) h s eq = elim (lock_shared-cases i h.batch_file) [
  | inr (barred, held) ↦ rw barred (
      stop-IsSound i (probed batch) (declined gpu_capacity) h s eq
        (nothing-IsWithin (declined gpu_capacity) (probed batch) (λ d. refl) λ d. refl) refl
        (λ d. refl) λ d. refl)
  | inl (f, granted, kept) ↦ rw granted (
      move-IsSound i (leasing batch) h h.mutex f h.live_file s (mutex_kept i (probed batch) h s eq)
        kept (live_kept i (probed batch) h s eq)
        (λ c own j d. s.apart c i j (ap (claims c) eq ∙ own))
        (elim [
          | batch ↦ λ own j d. absurd (false≢true own)
          | live ↦ λ own j d. unclaimed h i batch s eq j d
        ]))
]
step_acquire-IsSound i (probed live) h s eq = elim (lock_shared-cases i h.live_file) [
  | inr (barred, held) ↦ rw barred (
      stop-IsSound i (probed live) (declined gpu_capacity) h s eq
        (nothing-IsWithin (declined gpu_capacity) (probed live) (λ d. refl) λ d. refl) refl
        (λ d. refl) λ d. refl)
  | inl (f, granted, kept) ↦ rw granted (
      move-IsSound i (leasing live) h h.mutex h.batch_file f s (mutex_kept i (probed live) h s eq)
        (batch_kept i (probed live) h s eq) kept
        (λ c own j d. s.apart c i j (ap (claims c) eq ∙ own))
        (elim [
          | batch ↦ λ own j d. unclaimed h i live s eq j d
          | live ↦ λ own j d. absurd (false≢true own)
        ]))
]
step_acquire-IsSound i (leasing c) h s eq =
    shift-IsSound i (leasing c) (holding c) h (unlock i h.mutex) h.batch_file h.live_file s eq
      (λ c own. own, λ c own. own) (unlock-Keeps i h.mutex) (batch_kept i (leasing c) h s eq)
      (live_kept i (leasing c) h s eq)
step_acquire-IsSound i (declined e) h s eq =
    shift-IsSound i (declined e) (refused e) h (unlock i h.mutex) h.batch_file h.live_file s eq
      (λ c own. own, λ c own. own) (unlock-Keeps i h.mutex) (batch_kept i (declined e) h s eq)
      (live_kept i (declined e) h s eq)
step_acquire-IsSound i _ h s eq = s

pub occur-IsSound : (e : Event) (h : GpuHost) → IsSound h → IsSound (occur e h)
unfolding occur
occur-IsSound (begins i g n) h s =
    let b = begin_acquire-claims g n in
    start-IsSound i (h.calls i) (begin_acquire g n) h s refl b.0 b.1 b.2 b.3
occur-IsSound (advances i) h s = step_acquire-IsSound i (h.calls i) h s refl
occur-IsSound (faults i) h s = fault-IsSound i (h.calls i) h s refl
occur-IsSound (closes i) h s = close_lease-IsSound i (h.calls i) h s refl
occur-IsSound (ends i) h s = release_all-IsSound i h s

pub run_host-IsSound : (es : List Event) (h : GpuHost) → IsSound h → IsSound (run_host es h)
unfolding run_host
run_host-IsSound [] h s = s
run_host-IsSound (e ∷ es) h s = run_host-IsSound es (occur e h) (occur-IsSound e h s)

pub quiet_host-IsSound : IsSound quiet_host
unfolding listed owns is_critical leases probes claims
quiet_host-IsSound = record {
  mutex_reads = λ i. refl;
  mutex_writes = λ i. refl;
  file_reads = elim [ batch ↦ λ i. refl | live ↦ λ i. refl ];
  file_writes = elim [ batch ↦ λ i. refl | live ↦ λ i. refl ];
  apart = λ c i j own. refl;
}

-- After any history of calls of Acquire and Close by any processes, with calls that fail at any step
-- and processes that end at any step, no call holds a lease of one cohort while another call holds a
-- lease of the opposing cohort.
pub run_host-apart :
    (es : List Event) (c : Cohort) (i j : ℕ)
    → (run_host es quiet_host).calls i ≡ holding c
    → (run_host es quiet_host).calls j ≢ holding (opposing c)
unfolding claims leases is_cohort
run_host-apart es c i j own other =
    let s = run_host-IsSound es quiet_host quiet_host-IsSound in
    false≢true (
      sym (s.apart c i j (ap (claims c) own ∙ same c))
      ∙ ap (leases (opposing c)) other
      ∙ same (opposing c))
  where
    same : (d : Cohort) → is_cohort d d ≡ true
    same batch = refl
    same live = refl
