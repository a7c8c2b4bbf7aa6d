-- ===== src/Prelude/Text.antt =====
-- Go strings as lists of bytes: equality, prefixes, substrings and decimal numbers.
use Prim.Native.Char.{code}
use Prim.Native.String.{String}
use Prim.Native.Nat.{ℕ, zero, suc, ◌+◌, ◌*◌, ◌/◌, ◌%◌}
use mathlib.Core.Path.{◌≡◌, refl, sym, subst}
use mathlib.Core.List.{List, [], ◌∷◌}
use mathlib.Core.Bool.{Bool, true, false, ◌&&◌, ◌||◌, false≢true}
use mathlib.Core.Logic.{inl, inr}
use livepeer_modules_transco.Prelude.Lists.{All}
use livepeer_modules_transco.Prelude.Tests.{
  ltb, leb, ◌==◌, if◌then◌else◌, &&_both, &&_intro, ==_refl, ==→eq, Bool-cases,
}

abbrev pub Bytes : Type 0
Bytes = List ℕ

abbrev pub codes : String → Bytes
codes String.[] = []
codes (String.◌∷◌ c s) = code c ∷ codes s

unfoldable pub str_eq : Bytes → Bytes → Bool
str_eq [] [] = true
str_eq (x ∷ xs) (y ∷ ys) = x == y && str_eq xs ys
str_eq _ _ = false

pub str_eq_refl : (s : Bytes) → str_eq s s ≡ true
unfolding str_eq
str_eq_refl [] = refl
str_eq_refl (x ∷ s) = &&_intro (x == x) (str_eq s s) (==_refl x) (str_eq_refl s)

pub str_eq→eq : (s t : Bytes) → str_eq s t ≡ true → s ≡ t
unfolding str_eq
str_eq→eq [] [] h = refl
str_eq→eq [] (y ∷ t) h = cc
str_eq→eq (x ∷ s) [] h = cc
str_eq→eq (x ∷ s) (y ∷ t) h =
    let (p, q) = &&_both (x == y) (str_eq s t) h in cc (==→eq x y p, str_eq→eq s t q)

-- Texts that differ, in the other order.
pub str_eq_apart : (s t : Bytes) → str_eq s t ≡ false → str_eq t s ≡ false
str_eq_apart s t h = elim (Bool-cases (str_eq t s)) [
  | inr e ↦ e
  | inl e ↦
      let same : t ≡ s = str_eq→eq t s e in
      let clash : str_eq s t ≡ true = rw same (str_eq_refl s) in cc
]

unfoldable pub is_empty : Bytes → Bool
is_empty [] = true
is_empty (x ∷ s) = false

unfoldable pub has_prefix : Bytes → Bytes → Bool
has_prefix s [] = true
has_prefix [] (y ∷ p) = false
has_prefix (x ∷ s) (y ∷ p) = x == y && has_prefix s p

-- `contains s part`: `part` stands somewhere in `s`.
unfoldable pub contains : Bytes → Bytes → Bool
unfolding has_prefix
contains [] part = has_prefix [] part
contains (x ∷ s) part = has_prefix (x ∷ s) part || contains s part

unfoldable pub elem : Bytes → List Bytes → Bool
unfolding str_eq
elem s [] = false
elem s (t ∷ ts) = str_eq s t || elem s ts

pub elem-All {κ} :
    (P : Bytes → Type κ) (s : Bytes) (ts : List Bytes) → elem s ts ≡ true → All P ts → P s
unfolding elem
elem-All P s [] e h = absurd (false≢true e)
elem-All P s (t ∷ ts) e h = elim (Bool-cases (str_eq s t)) [
  | inl same ↦ subst P (sym (str_eq→eq s t same)) h.0
  | inr other ↦ elem-All P s ts (rw (← e) (rw other)) h.1
]

abbrev pub is_digit : ℕ → Bool
is_digit c = leb 48 c && leb c 57

-- The decimal digits of a number, the last first, on fuel.
unfoldable pub digits_rev : ℕ → ℕ → Bytes
digits_rev zero n = []
digits_rev (suc f) n =
    let rest = digits_rev f (n / 10) in if ltb n 10 then (48 + n) ∷ [] else (48 + n % 10) ∷ rest

unfoldable pub reverse_onto : Bytes → Bytes → Bytes
reverse_onto [] acc = acc
reverse_onto (x ∷ xs) acc = reverse_onto xs (x ∷ acc)

-- `strconv.FormatUint(n, 10)`: twenty digits hold every uint64.
unfoldable pub format_uint : ℕ → Bytes
unfolding digits_rev reverse_onto
format_uint n = reverse_onto (digits_rev 20 n) []

-- The number that a run of digits denotes, from the digits read so far.
unfoldable pub read_digits : ℕ → Bytes → ℕ
read_digits acc [] = acc
read_digits acc (c ∷ s) = read_digits (acc * 10 + (c % 48)) s
