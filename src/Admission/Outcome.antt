-- ===== src/Admission/Outcome.antt =====
-- transcode-core/gpu_admission.go: what a call of Acquire returns when it is not interrupted.
use livepeer_modules_transco.Prelude.{
  ℕ, ◌≡◌, refl, sym, ap, ◌∙◌, ◌≢◌, ◌⊎◌, inl, inr, true, false, Option, none, some, List, ◌==◌,
  Bool-cases, ==→eq, subst, Error, gpu_capacity,
}
use livepeer_modules_transco.Admission.Flock.{
  FileLock, unlock, lock_exclusive, lock_shared, lock_exclusive-cases, lock_shared-cases,
}
use livepeer_modules_transco.Admission.Gate.{
  Cohort, batch, live, opposing, Phase, idle, waiting, entered, probing, probed, leasing, declined,
  holding, unguarded, refused, closed, GpuHost, quiet_host, cohort_file, put_cohort_file, move,
  enter, probe, lease, step_acquire,
}
use livepeer_modules_transco.Admission.Exclusion.{
  Event, advances, occur, run_host, is_cohort, is_critical, leases, probes, IsSound,
}
use mathlib.Core.Bool.{false≢true}
use livepeer_modules_transco.Admission.Reach.{sole}
use livepeer_modules_transco.Admission.Exclusion.{put_call-own, put_call-other}
use livepeer_modules_transco.Admission.Apart.{run_host-IsSound, occur-IsSound, quiet_host-IsSound}

-- A call that holds the mutex, against another fact of a call.
sole_same :
    (h : GpuHost) (i j : ℕ)
    → IsSound h
    → is_critical (h.calls i) ≡ true
    → is_critical (h.calls j) ≡ true
    → i ≡ j
sole_same h i j s own other = elim (Bool-cases (i == j)) [
  | inl e ↦ ==→eq i j e
  | inr d ↦ absurd (false≢true (sym (sole h i s own j d) ∙ other))
]

is_cohort→eq : (c d : Cohort) → is_cohort c d ≡ true → c ≡ d
unfolding is_cohort
is_cohort→eq batch batch h = refl
is_cohort→eq live live h = refl
is_cohort→eq batch live h = absurd (false≢true h)
is_cohort→eq live batch h = absurd (false≢true h)

leases-cases :
    (c : Cohort) (p : Phase) → leases c p ≡ true → (p ≡ holding c) ⊎ (is_critical p ≡ true)
unfolding leases is_critical
leases-cases c (leasing d) h = inr refl
leases-cases c (holding d) h = inl (ap holding (sym (is_cohort→eq c d h)))
leases-cases c idle h = absurd (false≢true h)
leases-cases c (waiting d) h = absurd (false≢true h)
leases-cases c (entered d) h = absurd (false≢true h)
leases-cases c (probing d) h = absurd (false≢true h)
leases-cases c (probed d) h = absurd (false≢true h)
leases-cases c (declined e) h = absurd (false≢true h)
leases-cases c unguarded h = absurd (false≢true h)
leases-cases c (refused e) h = absurd (false≢true h)
leases-cases c closed h = absurd (false≢true h)

probes-IsCritical : (c : Cohort) (p : Phase) → probes c p ≡ true → is_critical p ≡ true
unfolding probes is_critical
probes-IsCritical c (probing d) h = refl
probes-IsCritical c (entered d) h = refl
probes-IsCritical c (probed d) h = refl
probes-IsCritical c (leasing d) h = refl
probes-IsCritical c (declined d) h = refl
probes-IsCritical c idle h = h
probes-IsCritical c (waiting d) h = h
probes-IsCritical c (holding d) h = h
probes-IsCritical c unguarded h = h
probes-IsCritical c (refused d) h = h
probes-IsCritical c closed h = h

put_file-calls : (c : Cohort) (f : FileLock) (h : GpuHost) → (put_cohort_file c f h).calls ≡ h.calls
put_file-calls batch f h = refl
put_file-calls live f h = refl

-- A step of one call leaves the others where they stand.
step_acquire-other :
    (i : ℕ) (h : GpuHost) (j : ℕ) → (i == j) ≡ false → (occur (advances i) h).calls j ≡ h.calls j
unfolding occur step_acquire enter probe lease
step_acquire-other i h j d = go (h.calls i)
  where
    moves : (p : Phase) (g : GpuHost) → g.calls ≡ h.calls → (move i p g).calls j ≡ h.calls j
    moves p g same = put_call-other i p g.calls j d ∙ ap (λ f. f j) same

    entering : (c : Cohort) (o : Option FileLock) → (enter i c o h).calls j ≡ h.calls j
    entering c none = refl
    entering c (some f) = moves (entered c) h refl

    probing_one : (c : Cohort) (o : Option FileLock) → (probe i c o h).calls j ≡ h.calls j
    probing_one c none = moves (declined gpu_capacity) h refl
    probing_one c (some f) =
        moves (probing c) (put_cohort_file (opposing c) f h) (put_file-calls (opposing c) f h)

    leasing_one : (c : Cohort) (o : Option FileLock) → (lease i c o h).calls j ≡ h.calls j
    leasing_one c none = moves (declined gpu_capacity) h refl
    leasing_one c (some f) = moves (leasing c) (put_cohort_file c f h) (put_file-calls c f h)

    go : (q : Phase) → (step_acquire i q h).calls j ≡ h.calls j
    go (waiting c) = entering c (lock_exclusive i h.mutex)
    go (entered c) = probing_one c (lock_exclusive i (cohort_file (opposing c) h))
    go (probing c) =
        let f = unlock i (cohort_file (opposing c) h) in
        moves (probed c) (put_cohort_file (opposing c) f h) (put_file-calls (opposing c) f h)
    go (probed c) = leasing_one c (lock_shared i (cohort_file c h))
    go (leasing c) = moves (holding c) h refl
    go (declined e) = moves (refused e) h refl
    go idle = refl
    go (holding c) = refl
    go unguarded = refl
    go (refused e) = refl
    go closed = refl

-- No call holds the mutex.
abbrev pub IsFree : GpuHost → Type 0
IsFree h = (j : ℕ) → is_critical (h.calls j) ≡ false

-- A call of another cohort holds its lease.
abbrev pub IsTaken : Cohort → GpuHost → Type 0
IsTaken c h = (j : ℕ) × (h.calls j ≡ holding (opposing c))

-- The probe finds the opposing file free, and no opposing lease stands, or finds such a lease.
pub probe-cases :
    (i : ℕ) (c : Cohort) (h : GpuHost)
    → IsSound h
    → h.calls i ≡ entered c
    → (((occur (advances i) h).calls i ≡ probing c) × ((j : ℕ) → h.calls j ≢ holding (opposing c)))
      ⊎ (((occur (advances i) h).calls i ≡ declined gpu_capacity) × IsTaken c h)
unfolding occur step_acquire probe is_critical leases probes is_cohort
probe-cases i c h s eq = rw eq (elim (lock_exclusive-cases i (cohort_file (opposing c) h)) [
  | inl (f, granted, kept, unread) ↦ rw granted (
      inl (
        put_call-own i (probing c) (put_cohort_file (opposing c) f h).calls,
        λ j held. false≢true (
            sym (unread j)
            ∙ s.file_reads (opposing c) j
            ∙ ap (leases (opposing c)) held
            ∙ self (opposing c)),
      ))
  | inr (barred, (j, inl l)) ↦ rw barred (
      inr (
        put_call-own i (declined gpu_capacity) h.calls,
        elim (leases-cases (opposing c) (h.calls j) (sym (s.file_reads (opposing c) j) ∙ l)) [
          | inl held ↦ (j, held)
          | inr k ↦ absurd (
              false≢true (
                sym (ap (leases (opposing c)) eq)
                ∙ ap (λ n. leases (opposing c) (h.calls n)) (same j k)
                ∙ sym (s.file_reads (opposing c) j)
                ∙ l))
        ],
      ))
  | inr (barred, (j, inr l)) ↦ absurd (
      let p = sym (s.file_writes (opposing c) j) ∙ l in
      false≢true (
        sym (ap (probes (opposing c)) eq)
        ∙ ap (λ n. probes (opposing c) (h.calls n))
            (same j (probes-IsCritical (opposing c) (h.calls j) p))
        ∙ p))
])
  where
    same : (j : ℕ) → is_critical (h.calls j) ≡ true → i ≡ j
    same j k = sole_same h i j s (ap is_critical eq) k

    self : (d : Cohort) → is_cohort d d ≡ true
    self batch = refl
    self live = refl

-- After the probe, the lease of the call's own cohort is always granted.
pub lease-IsGranted :
    (i : ℕ) (c : Cohort) (h : GpuHost)
    → IsSound h
    → h.calls i ≡ probed c
    → (occur (advances i) h).calls i ≡ leasing c
unfolding occur step_acquire lease is_critical probes
lease-IsGranted i c h s eq = rw eq (elim (lock_shared-cases i (cohort_file c h)) [
  | inl (f, granted, kept) ↦ rw granted (put_call-own i (leasing c) (put_cohort_file c f h).calls)
  | inr (barred, (j, l)) ↦ absurd (
      let p = sym (s.file_writes c j) ∙ l in
      false≢true (
        sym (ap (probes c) eq)
        ∙ ap (λ n. probes c (h.calls n))
            (sole_same h i j s (ap is_critical eq) (probes-IsCritical c (h.calls j) p))
        ∙ p))
])

-- What is left of Acquire after LOCK_EX on the mutex, at most four system calls.
unfoldable pub finish_acquire : ℕ → GpuHost → GpuHost
unfolding occur
finish_acquire i h =
    occur (advances i) (occur (advances i) (occur (advances i) (occur (advances i) h)))

settle :
    (i : ℕ) (h : GpuHost) (p q : Phase)
    → h.calls i ≡ p
    → ((step_acquire i p h).calls i ≡ q)
    → (occur (advances i) h).calls i ≡ q
unfolding occur
settle i h p q eq step = rw eq step

after_probing :
    (i : ℕ) (c : Cohort) (h : GpuHost)
    → h.calls i ≡ probing c
    → (occur (advances i) h).calls i ≡ probed c
unfolding step_acquire
after_probing i c h eq =
    let g = put_cohort_file (opposing c) (unlock i (cohort_file (opposing c) h)) h in
    settle i h (probing c) (probed c) eq (put_call-own i (probed c) g.calls)

after_leasing :
    (i : ℕ) (c : Cohort) (h : GpuHost)
    → h.calls i ≡ leasing c
    → (occur (advances i) h).calls i ≡ holding c
unfolding step_acquire
after_leasing i c h eq = settle i h (leasing c) (holding c) eq (put_call-own i (holding c) h.calls)

after_declined :
    (i : ℕ) (e : Error) (h : GpuHost)
    → h.calls i ≡ declined e
    → (occur (advances i) h).calls i ≡ refused e
unfolding step_acquire
after_declined i e h eq =
    settle i h (declined e) (refused e) eq (put_call-own i (refused e) h.calls)

after_refused :
    (i : ℕ) (e : Error) (h : GpuHost)
    → h.calls i ≡ refused e
    → (occur (advances i) h).calls i ≡ refused e
unfolding step_acquire
after_refused i e h eq = settle i h (refused e) (refused e) eq eq

-- The mutex is free once the call that has it is past it.
finish_acquire-IsFree :
    (i : ℕ) (h : GpuHost)
    → IsSound h
    → is_critical (h.calls i) ≡ true
    → is_critical ((finish_acquire i h).calls i) ≡ false
    → IsFree (finish_acquire i h)
unfolding finish_acquire
finish_acquire-IsFree i h s own past j = elim (Bool-cases (i == j)) [
  | inl e ↦ subst (λ n. is_critical ((finish_acquire i h).calls n) ≡ false) (==→eq i j e) past
  | inr d ↦
      let h1 = occur (advances i) h in
      let h2 = occur (advances i) h1 in
      let h3 = occur (advances i) h2 in
      ap is_critical (
        step_acquire-other i h3 j d
        ∙ step_acquire-other i h2 j d
        ∙ step_acquire-other i h1 j d
        ∙ step_acquire-other i h j d)
      ∙ sole h i s own j d
]

-- After any history, a call that has the mutex and runs on without a fault ends: with a lease, if no
-- call holds a lease of the opposing cohort, and with the capacity error, if one does; and then no
-- call has the mutex.
pub finish_acquire-exact :
    (es : List Event) (i : ℕ) (c : Cohort)
    → (run_host es quiet_host).calls i ≡ entered c
    → let h = run_host es quiet_host in
      IsFree (finish_acquire i h)
      × ((((finish_acquire i h).calls i ≡ holding c) × ((j : ℕ) → h.calls j ≢ holding (opposing c)))
          ⊎ (((finish_acquire i h).calls i ≡ refused gpu_capacity) × IsTaken c h))
unfolding finish_acquire is_critical
finish_acquire-exact es i c eq =
    let h = run_host es quiet_host in
    let s = run_host-IsSound es quiet_host quiet_host-IsSound in
    let h1 = occur (advances i) h in
    let h2 = occur (advances i) h1 in
    let h3 = occur (advances i) h2 in
    let s2 = occur-IsSound (advances i) h1 (occur-IsSound (advances i) h s) in
    let free = finish_acquire-IsFree i h s (ap is_critical eq) in
    elim (probe-cases i c h s eq) [
      | inl (now, apart) ↦
          let p4 = after_leasing i c h3 (lease-IsGranted i c h2 s2 (after_probing i c h1 now)) in
          (free (ap is_critical p4), inl (p4, apart))
      | inr (now, taken) ↦
          let p4 =
            after_refused i gpu_capacity h3
              (after_refused i gpu_capacity h2 (after_declined i gpu_capacity h1 now)) in
          (free (ap is_critical p4), inr (p4, taken))
    ]
