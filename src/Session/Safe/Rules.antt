-- ===== src/Session/Safe/Rules.antt =====
-- Rules for what a chain of guards and steps saves.
use livepeer_modules_transco.Prelude.{
  ◌≡◌, refl, Bool, true, false, if◌then◌else◌, Error, Result, ok, err, ◌>>=◌, ◌>>◌, reject,
}
use livepeer_modules_transco.Session.Record.{SessionRecord, Change, SavesOnly}

module _ {ℓ} {A : Type ℓ} (P : SessionRecord → Type 0) where
  pub SavesOnly-reject :
      (b : Bool) (e : Error) (k : Result (Change A))
      → (b ≡ false → SavesOnly P k)
      → SavesOnly P (reject b e >> k)
  SavesOnly-reject true e k h = tt
  SavesOnly-reject false e k h = h refl

  pub SavesOnly-if :
      (b : Bool) (x y : Result (Change A))
      → (b ≡ true → SavesOnly P x)
      → (b ≡ false → SavesOnly P y)
      → SavesOnly P (if b then x else y)
  SavesOnly-if true x y h k = h refl
  SavesOnly-if false x y h k = k refl

  pub SavesOnly-choice :
      (b : Bool) (x y : Change A)
      → (b ≡ true → SavesOnly P (ok x))
      → (b ≡ false → SavesOnly P (ok y))
      → SavesOnly P (ok (if b then x else y))
  SavesOnly-choice true x y h k = h refl
  SavesOnly-choice false x y h k = k refl

module _ {ℓ κ} {A : Type ℓ} {B : Type κ} (P : SessionRecord → Type 0) where
  pub SavesOnly-bind :
      (m : Result B) (f : B → Result (Change A))
      → ((b : B) → m ≡ ok b → SavesOnly P (f b))
      → SavesOnly P (m >>= f)
  SavesOnly-bind (ok b) f h = h b refl
  SavesOnly-bind (err e) f h = tt
