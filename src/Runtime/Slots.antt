-- ===== src/Runtime/Slots.antt =====
-- live-runner/runtime.go: histories of the slots and the table of ladders.
use livepeer_modules_transco.Prelude.{
  ℕ, zero, suc, ◌+◌, ◌-◌, ◌≤◌, ◌<◌, ◌≡◌, refl, sym, ap, ◌∙◌, inl, inr, true, false, not, ◌&&◌, ◌||◌,
  some, List, [], ◌∷◌, arith, ltb, ◌==◌, if◌then◌else◌, Bool-cases, Bytes, str_eq, subst, Result,
  ok, err,
}
use livepeer_modules_transco.Session.Record.{SessionRecord}
use livepeer_modules_transco.Contract.Ident.{is_active}
use livepeer_modules_transco.Runtime.Coordinator.{
  ActiveSession, Coordinator, acquire_local, release_local, is_listed, admit_ladder, take_slot,
  ensure_valid, ensure_session, Release, closes_lease, releases_slot, leaves_table, release_one,
  slot_at, release_at, after_release, give_back,
}

-- A call of EnsureSession with its validation and the answer of the GPU's admission, or a release by
-- the session at a position.
pub data RuntimeEvent : Type 0 where
  ensures : SessionRecord → Result (Unit {0}) → Result (Unit {0}) → RuntimeEvent
  gives_back : ℕ → Release → RuntimeEvent

unfoldable pub happen : RuntimeEvent → Coordinator → Coordinator
unfolding ensure_session give_back
happen (ensures r validation admission) c = (ensure_session c r validation admission).1
happen (gives_back n what) c = give_back n what c

unfoldable pub run_runtime : List RuntimeEvent → Coordinator → Coordinator
unfolding happen
run_runtime [] c = c
run_runtime (e ∷ es) c = run_runtime es (happen e c)

abbrev pub idle_runtime : ℕ → Coordinator
idle_runtime m = record { maximum = some m; taken = 0; sessions = [] }

-- The sessions with a slot.
unfoldable pub slots : List ActiveSession → ℕ
slots [] = 0
slots (a ∷ rest) = let n = slots rest in if a.has_slot then n + 1 else n

-- No two sessions of the table have one runner identity.
abbrev pub AreSingle : List ActiveSession → Type 0
AreSingle [] = Unit {0}
AreSingle (a ∷ rest) =
    (a.listed ≡ true → is_listed a.runner_session_id rest ≡ false) × AreSingle rest

pub record IsBounded (m : ℕ) (c : Coordinator) : Type 0 where
  pub limit : c.maximum ≡ some m
  pub counted : c.taken ≡ slots c.sessions
  pub bounded : c.taken ≤ m
  pub single : AreSingle c.sessions

slots-release_at :
    (n : ℕ) (rest : List ActiveSession)
    → slot_at n rest ≡ true
    → slots rest ≡ slots (release_at n releases_slot rest) + 1
unfolding slots release_at release_one slot_at
slots-release_at n [] h = cc
slots-release_at zero (a ∷ rest) h = rw h refl
slots-release_at (suc n) (a ∷ rest) h = ground (arith, slots-release_at n rest h)

slots-kept :
    (n : ℕ) (what : Release) (rest : List ActiveSession)
    → ((a : ActiveSession) → (release_one what a).has_slot ≡ a.has_slot)
    → slots (release_at n what rest) ≡ slots rest
unfolding slots release_at
slots-kept n what [] h = refl
slots-kept zero what (a ∷ rest) h = rw (h a) refl
slots-kept (suc n) what (a ∷ rest) h = rw (slots-kept n what rest h) refl

-- A release does not list a session.
is_listed-release_at :
    (id : Bytes) (n : ℕ) (what : Release) (rest : List ActiveSession)
    → is_listed id rest ≡ false
    → is_listed id (release_at n what rest) ≡ false
unfolding is_listed release_at release_one
is_listed-release_at id n what [] h = h
is_listed-release_at id zero closes_lease (a ∷ rest) h = h
is_listed-release_at id zero releases_slot (a ∷ rest) h = h
is_listed-release_at id zero leaves_table (a ∷ rest) h = ground arith
is_listed-release_at id (suc n) what (a ∷ rest) h =
    elim (Bool-cases (a.listed && str_eq a.runner_session_id id)) [
      | inl e ↦ absurd (ground arith)
      | inr e ↦ rw e (is_listed-release_at id n what rest (ground arith))
    ]

release_at-AreSingle :
    (n : ℕ) (what : Release) (rest : List ActiveSession)
    → AreSingle rest
    → AreSingle (release_at n what rest)
unfolding release_at release_one
release_at-AreSingle n what [] h = h
release_at-AreSingle zero closes_lease (a ∷ rest) h = h
release_at-AreSingle zero releases_slot (a ∷ rest) h = h
release_at-AreSingle zero leaves_table (a ∷ rest) h = (λ e. cc, h.1)
release_at-AreSingle (suc n) what (a ∷ rest) h = (
  λ e. is_listed-release_at a.runner_session_id n what rest (h.0 e),
  release_at-AreSingle n what rest h.1,
)

-- A slot that is held can be released at once: the receive does not block.
pub release_local-IsBounded :
    (m n : ℕ) (c : Coordinator)
    → IsBounded m c
    → slot_at n c.sessions ≡ true
    → release_local c.maximum c ≡ some (record c { taken = c.taken - 1 })
unfolding release_local
release_local-IsBounded m n c v held =
    let some_slot : (c.taken == 0) ≡ false =
      ground (arith, v.counted, slots-release_at n c.sessions held) in
    rw (v.limit, some_slot) refl

give_back-IsBounded :
    (m n : ℕ) (what : Release) (c : Coordinator) → IsBounded m c → IsBounded m (give_back n what c)
unfolding give_back after_release release_one
give_back-IsBounded m n closes_lease c v = record {
  limit = v.limit;
  counted = v.counted ∙ sym (slots-kept n closes_lease c.sessions λ a. refl);
  bounded = v.bounded;
  single = release_at-AreSingle n closes_lease c.sessions v.single;
}
give_back-IsBounded m n leaves_table c v = record {
  limit = v.limit;
  counted = v.counted ∙ sym (slots-kept n leaves_table c.sessions λ a. refl);
  bounded = v.bounded;
  single = release_at-AreSingle n leaves_table c.sessions v.single;
}
give_back-IsBounded m n releases_slot c v = elim (Bool-cases (slot_at n c.sessions)) [
  | inr free ↦ rw free v
  | inl held ↦
      subst (IsBounded m)
        (sym (
          ap (λ b. if b then after_release n c (release_local c.maximum c) else c) held
          ∙ ap (after_release n c) (release_local-IsBounded m n c v held)))
        (record {
          limit = v.limit;
          counted = omega (arith, v.counted, slots-release_at n c.sessions held);
          bounded = omega (arith, v.bounded);
          single = release_at-AreSingle n releases_slot c.sessions v.single;
        })
]

take_slot-IsBounded :
    (m : ℕ) (c : Coordinator) (id : Bytes) (admission : Result (Unit {0}))
    → IsBounded m c
    → is_listed id c.sessions ≡ false
    → IsBounded m (take_slot c id admission (acquire_local c.maximum c)).1
unfolding take_slot admit_ladder acquire_local slots
take_slot-IsBounded m c id admission v fresh =
    subst (λ o. IsBounded m (take_slot c id admission (acquire_local o c)).1) (sym v.limit)
      (elim (Bool-cases (ltb c.taken m)) [
        | inr full ↦ rw full v
        | inl room ↦ rw room (go admission (ground arith))
      ])
  where
    go :
        (admission : Result (Unit {0}))
        → c.taken < m
        → IsBounded m (admit_ladder c (record c { taken = c.taken + 1 }) id admission).1
    go (err e) room = v
    go (ok done) room = record {
      limit = v.limit;
      counted = omega (arith, v.counted);
      bounded = omega arith;
      single = (λ e. fresh, v.single);
    }

ensure_valid-IsBounded :
    (m : ℕ) (c : Coordinator) (id : Bytes) (admission validation : Result (Unit {0}))
    → IsBounded m c
    → IsBounded m (ensure_valid c id admission validation).1
unfolding ensure_valid
ensure_valid-IsBounded m c id admission (err e) v = v
ensure_valid-IsBounded m c id admission (ok done) v = elim (Bool-cases (is_listed id c.sessions)) [
  | inl known ↦ rw known v
  | inr fresh ↦ rw fresh (take_slot-IsBounded m c id admission v fresh)
]

ensure_session-IsBounded :
    (m : ℕ) (c : Coordinator) (r : SessionRecord) (validation admission : Result (Unit {0}))
    → IsBounded m c
    → IsBounded m (ensure_session c r validation admission).1
unfolding ensure_session
ensure_session-IsBounded m c r validation admission v =
    elim (Bool-cases (not (is_active r.state) || r.stopping)) [
      | inl over ↦ rw over v
      | inr busy ↦ rw busy (ensure_valid-IsBounded m c r.runner_session_id admission validation v)
    ]

run_runtime-keeps :
    (m : ℕ) (es : List RuntimeEvent) (c : Coordinator)
    → IsBounded m c
    → IsBounded m (run_runtime es c)
unfolding run_runtime happen
run_runtime-keeps m [] c v = v
run_runtime-keeps m (ensures r validation admission ∷ es) c v =
    run_runtime-keeps m es (ensure_session c r validation admission).1
      (ensure_session-IsBounded m c r validation admission v)
run_runtime-keeps m (gives_back n what ∷ es) c v =
    run_runtime-keeps m es (give_back n what c) (give_back-IsBounded m n what c v)

-- A runtime with a limit of `m`, after any history of sessions that are asked for, admitted, refused
-- and given up in any order: at most `m` of them hold a slot, the table has no two sessions of one
-- runner identity, and no release of a held slot blocks.
pub run_runtime-IsBounded :
    (m : ℕ) (es : List RuntimeEvent)
    → let c = run_runtime es (idle_runtime m) in
      (slots c.sessions ≤ m)
      × AreSingle c.sessions
      × ((n : ℕ)
          → slot_at n c.sessions ≡ true
          → release_local c.maximum c ≡ some (record c { taken = c.taken - 1 }))
unfolding slots
run_runtime-IsBounded m es =
    let idle : IsBounded m (idle_runtime m) = record {
      limit = refl;
      counted = refl;
      bounded = omega arith;
      single = tt;
    } in
    let v = run_runtime-keeps m es (idle_runtime m) idle in
    (
      omega (arith, v.counted, v.bounded),
      v.single,
      λ n held. release_local-IsBounded m n (run_runtime es (idle_runtime m)) v held,
    )
