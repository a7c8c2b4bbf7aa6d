-- ===== src/Admission/Flock.antt =====
-- flock(2) as gpu_admission.go uses it: shared and exclusive locks of open files that do not wait.
use livepeer_modules_transco.Prelude.{
  ℕ, ◌≡◌, refl, ap, ◌⊎◌, inl, inr, Bool, true, false, ◌&&◌, ◌||◌, Option, none, some, List, [], ◌∷◌,
  arith, ◌==◌, if◌then◌else◌, Bool-cases, ==_refl, length,
}

-- The locks on one file, by the call whose open file holds them.
pub record FileLock : Type 0 where
  pub shared : List ℕ
  pub exclusive : Option ℕ

abbrev pub unlocked_file : FileLock
unlocked_file = record { shared = []; exclusive = none }

unfoldable pub without : ℕ → List ℕ → List ℕ
without i [] = []
without i (j ∷ js) = let rest = without i js in if i == j then rest else j ∷ rest

unfoldable pub owner_without : ℕ → Option ℕ → Option ℕ
owner_without i none = none
owner_without i (some j) = if i == j then none else some j

-- LOCK_UN, which the close of the file also does.
unfoldable pub unlock : ℕ → FileLock → FileLock
unfolding without owner_without
unlock i f = record { shared = without i f.shared; exclusive = owner_without i f.exclusive }

unfoldable pub nobody : Option ℕ → Bool
nobody none = true
nobody (some i) = false

-- LOCK_EX with LOCK_NB, of a file that is just opened: `none` is EWOULDBLOCK.
unfoldable pub lock_exclusive : ℕ → FileLock → Option FileLock
unfolding nobody
lock_exclusive i f =
    if length f.shared == 0 && nobody f.exclusive
    then some (record f { exclusive = some i })
    else none

-- LOCK_SH with LOCK_NB, of a file that is just opened.
unfoldable pub lock_shared : ℕ → FileLock → Option FileLock
unfolding nobody
lock_shared i f = if nobody f.exclusive then some (record f { shared = i ∷ f.shared }) else none

-- Whether a call holds the file shared, and exclusively.
unfoldable pub listed : ℕ → List ℕ → Bool
listed i [] = false
listed i (j ∷ js) = i == j || listed i js

unfoldable pub owns : ℕ → Option ℕ → Bool
owns i none = false
owns i (some j) = i == j

-- A change of a file's locks by call `i`: what it then holds, and that others hold what they held.
pub record Keeps (i : ℕ) (f f' : FileLock) (reads writes : Bool) : Type 0 where
  pub own_shared : listed i f'.shared ≡ reads
  pub own_exclusive : owns i f'.exclusive ≡ writes
  pub other_shared : (j : ℕ) → (i == j) ≡ false → listed j f'.shared ≡ listed j f.shared
  pub other_exclusive : (j : ℕ) → (i == j) ≡ false → owns j f'.exclusive ≡ owns j f.exclusive

pub listed-without : (i : ℕ) (js : List ℕ) → listed i (without i js) ≡ false
unfolding listed without
listed-without i [] = refl
listed-without i (j ∷ js) = elim (Bool-cases (i == j)) [
  | inl e ↦ rw e (listed-without i js)
  | inr e ↦ rw e (rw e (listed-without i js))
]

pub listed-without_other :
    (i j : ℕ) (js : List ℕ) → (i == j) ≡ false → listed j (without i js) ≡ listed j js
unfolding listed without
listed-without_other i j [] d = refl
listed-without_other i j (k ∷ js) d = elim (Bool-cases (i == k)) [
  | inl e ↦ ground (arith, listed-without_other i j js d)
  | inr e ↦ rw e (ap (λ b. j == k || b) (listed-without_other i j js d))
]

pub unlock-Keeps : (i : ℕ) (f : FileLock) → Keeps i f (unlock i f) false false
unfolding unlock owns owner_without
unlock-Keeps i f = record {
  own_shared = listed-without i f.shared;
  own_exclusive = own f.exclusive;
  other_shared = λ j d. listed-without_other i j f.shared d;
  other_exclusive = λ j d. other j d f.exclusive;
}
  where
    own : (o : Option ℕ) → owns i (owner_without i o) ≡ false
    own none = refl
    own (some k) = ground arith

    other : (j : ℕ) → (i == j) ≡ false → (o : Option ℕ) → owns j (owner_without i o) ≡ owns j o
    other j d none = refl
    other j d (some k) = ground arith

pub same-Keeps :
    (i : ℕ) (f : FileLock) (reads writes : Bool)
    → listed i f.shared ≡ reads
    → owns i f.exclusive ≡ writes
    → Keeps i f f reads writes
same-Keeps i f reads writes r w = record {
  own_shared = r;
  own_exclusive = w;
  other_shared = λ j d. refl;
  other_exclusive = λ j d. refl;
}

-- An exclusive lock is granted where no call holds the file, and else some call holds it.
pub lock_exclusive-cases :
    (i : ℕ) (f : FileLock)
    → ((f' : FileLock) × (lock_exclusive i f ≡ some f')
        × Keeps i f f' false true
        × ((j : ℕ) → listed j f.shared ≡ false))
      ⊎ ((lock_exclusive i f ≡ none)
          × ((j : ℕ) × ((listed j f.shared ≡ true) ⊎ (owns j f.exclusive ≡ true))))
unfolding lock_exclusive nobody listed owns
lock_exclusive-cases i f = go f.shared f.exclusive
  where
    go :
        (s : List ℕ) (o : Option ℕ)
        → let g : FileLock = record { shared = s; exclusive = o } in
          ((f' : FileLock) × (lock_exclusive i g ≡ some f')
            × Keeps i g f' false true
            × ((j : ℕ) → listed j s ≡ false))
          ⊎ ((lock_exclusive i g ≡ none) × ((j : ℕ) × ((listed j s ≡ true) ⊎ (owns j o ≡ true))))
    go [] none = inl (
      record { shared = []; exclusive = some i },
      refl,
      record {
        own_shared = refl;
        own_exclusive = ==_refl i;
        other_shared = λ j d. refl;
        other_exclusive = λ j d. ground arith;
      },
      λ j. refl,
    )
    go [] (some k) = inr (refl, (k, inr (==_refl k)))
    go (k ∷ s) o = inr (ground arith, (k, inl (ground (arith, ==_refl k))))

-- A shared lock is granted where no call holds the file exclusively, and else some call does.
pub lock_shared-cases :
    (i : ℕ) (f : FileLock)
    → ((f' : FileLock) × (lock_shared i f ≡ some f') × Keeps i f f' true false)
      ⊎ ((lock_shared i f ≡ none) × ((j : ℕ) × (owns j f.exclusive ≡ true)))
unfolding lock_shared nobody listed owns
lock_shared-cases i f = go f.exclusive
  where
    go :
        (o : Option ℕ)
        → let g : FileLock = record { shared = f.shared; exclusive = o } in
          ((f' : FileLock) × (lock_shared i g ≡ some f') × Keeps i g f' true false)
          ⊎ ((lock_shared i g ≡ none) × ((j : ℕ) × (owns j o ≡ true)))
    go none = inl (
      record { shared = i ∷ f.shared; exclusive = none },
      refl,
      record {
        own_shared = ground (arith, ==_refl i);
        own_exclusive = refl;
        other_shared = λ j d. ground arith;
        other_exclusive = λ j d. refl;
      },
    )
    go (some k) = inr (refl, (k, ==_refl k))
