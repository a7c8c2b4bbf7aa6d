-- ===== src/Prelude/Errors.antt =====
-- Go's `(value, error)` results: a value or the error that is returned in its place.
use Prim.Native.String.{String}
use mathlib.Core.Path.{◌≡◌, refl}
use mathlib.Core.Bool.{Bool, true, false}

-- The sentinel errors that callers compare with, and the other errors by their text.
pub data Error : Type 0 where
  session_id_reuse request_id_reuse request_superseded key_activation_in_flight : Error
  session_terminal callback_not_due create_fenced not_exist gpu_capacity : Error
  io_error : Error
  invalid : String → Error

pub data Result {ℓ} (A : Type ℓ) : Type ℓ where
  ok : A → Result A
  err : Error → Result A

-- `if refused { return error }`.
abbrev pub reject : Bool → Error → Result (Unit {0})
reject false reason = ok tt
reject true reason = err reason

pub reject-eq-ok : (b : Bool) (e : Error) → reject b e ≡ ok tt → b ≡ false
reject-eq-ok false e h = refl
reject-eq-ok true e h = cc

-- `value, err := m; if err != nil { return err }`, and the same without a value.
infixl 5 ◌>>◌ ◌>>=◌
abbrev pub ◌>>=◌ {ℓ κ} : {A : Type ℓ} {B : Type κ} → Result A → (A → Result B) → Result B
err reason >>= next = err reason
ok value >>= next = next value

abbrev pub ◌>>◌ {ℓ} : {C : Type ℓ} → Result (Unit {0}) → Result C → Result C
first >> second = first >>= (λ done. second)

-- What follows of a check that let the rest succeed.
pub reject-then {ℓ} :
    {A : Type ℓ} (b : Bool) (e : Error) (k : Result A) (a : A)
    → (reject b e >> k) ≡ ok a
    → (b ≡ false) × (k ≡ ok a)
reject-then false e k a h = (refl, h)
reject-then true e k a h = cc
