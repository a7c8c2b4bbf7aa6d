-- ===== src/Contract/EventId.antt =====
-- live-runner: the identity `runner:sequence` of an event.
use native.Mathlib.Nat.{pow-suc}
use livepeer_modules_transco.Prelude.{
  ℕ, ◌+◌, ◌≤◌, ◌≡◌, refl, sym, ap, ◌∙◌, Bool, true, [], ◌∷◌, ◌++◌, Bytes, arith, length,
  length-append, all, all-append, digits_rev, reverse_onto, format_uint, read_digits, &&_both,
  &&_intro, Bool-cases, suc, zero, ◌/◌, ◌%◌, ltb, ◌<◌, ◌^◌, inl, inr, false, not, ◌&&◌, ◌==◌,
  str_eq, str_eq_refl, str_eq→eq, ==_refl, ==→eq,
}
use livepeer_modules_transco.Contract.Ident.{opaque_id, event_id, is_id_char}

digits_rev-length : (f n : ℕ) → length (digits_rev f n) ≤ f
unfolding digits_rev
digits_rev-length zero n = omega arith
digits_rev-length (suc f) n = ground (arith, digits_rev-length f (n / 10))

digits_rev-all :
    (p : ℕ → Bool)
    → ((d : ℕ) → d < 10 → p (48 + d) ≡ true)
    → (f n : ℕ) → all p (digits_rev f n) ≡ true
unfolding digits_rev all
digits_rev-all p h zero n = refl
digits_rev-all p h (suc f) n = elim (Bool-cases (ltb n 10)) [
  | inl small ↦ rw small (&&_intro (p (48 + n)) true (h n (ground arith)) refl)
  | inr large ↦ rw large (
      &&_intro (p (48 + n % 10)) (all p (digits_rev f (n / 10))) (h (n % 10) (omega arith))
        (digits_rev-all p h f (n / 10)))
]

reverse_onto-length : (xs acc : Bytes) → length (reverse_onto xs acc) ≡ length xs + length acc
unfolding reverse_onto
reverse_onto-length [] acc = omega arith
reverse_onto-length (x ∷ xs) acc = omega (arith, reverse_onto-length xs (x ∷ acc))

reverse_onto-all :
    (p : ℕ → Bool) (xs acc : Bytes)
    → all p xs ≡ true
    → all p acc ≡ true
    → all p (reverse_onto xs acc) ≡ true
unfolding reverse_onto all
reverse_onto-all p [] acc h k = k
reverse_onto-all p (x ∷ xs) acc h k =
    let (px, pxs) = &&_both (p x) (all p xs) h in
    reverse_onto-all p xs (x ∷ acc) pxs (&&_intro (p x) (all p acc) px k)

pub format_uint-length : (n : ℕ) → length (format_uint n) ≤ 20
unfolding format_uint
format_uint-length n =
    omega (arith, reverse_onto-length (digits_rev 20 n) [], digits_rev-length 20 n)

-- A test that every digit passes, every decimal number passes.
pub format_uint-all :
    (p : ℕ → Bool) → ((d : ℕ) → d < 10 → p (48 + d) ≡ true) → (n : ℕ) → all p (format_uint n) ≡ true
unfolding format_uint all
format_uint-all p h n = reverse_onto-all p (digits_rev 20 n) [] (digits_rev-all p h 20 n) refl

-- An event's identity is well formed when its runner's is and leaves room for the number.
pub event_id-opaque :
    (runner : Bytes) (n : ℕ)
    → opaque_id runner ≡ true
    → length runner ≤ 107
    → opaque_id (event_id runner n) ≡ true
unfolding opaque_id event_id all
event_id-opaque [] n h l = cc
event_id-opaque (c ∷ s) n h l = ground (
  arith,
  all-append is_id_char s (b':' ∷ format_uint n),
  format_uint-all is_id_char (λ d b. ground arith) n,
  length-append s (b':' ∷ format_uint n),
  format_uint-length n,
)

read_digits-reverse_onto :
    (f n : ℕ) (s : Bytes)
    → n < 10 ^ f
    → read_digits 0 (reverse_onto (digits_rev f n) s) ≡ read_digits n s
unfolding digits_rev reverse_onto read_digits
read_digits-reverse_onto zero n s h = ap (λ (k : ℕ). read_digits k s) (omega arith)
read_digits-reverse_onto (suc f) n s h = elim (Bool-cases (ltb n 10)) [
  | inl small ↦ rw small (ap (λ (k : ℕ). read_digits k s) (ground arith))
  | inr large ↦ rw large (
      read_digits-reverse_onto f (n / 10) ((48 + n % 10) ∷ s) (omega (arith, pow-suc 10 f))
      ∙ ap (λ (k : ℕ). read_digits k s) (omega arith))
]

-- strconv.FormatUint loses nothing: reading the digits back gives the number.
pub read_digits-format_uint : (n : ℕ) → n < 10 ^ 20 → read_digits 0 (format_uint n) ≡ n
unfolding format_uint read_digits
read_digits-format_uint n h = read_digits-reverse_onto 20 n [] h

drop_common : (xs : Bytes) {ys zs : Bytes} → (xs ++ ys) ≡ (xs ++ zs) → ys ≡ zs
drop_common [] h = h
drop_common (x ∷ xs) h = drop_common xs (cc)

-- The same of one runner.
pub event_id-injective :
    (runner : Bytes) (m n : ℕ)
    → m < 10 ^ 20
    → n < 10 ^ 20
    → event_id runner m ≡ event_id runner n
    → m ≡ n
unfolding event_id
event_id-injective runner m n hm hn e =
    let digits : format_uint m ≡ format_uint n = cc (drop_common runner e) in
    sym (read_digits-format_uint m hm) ∙ ap (read_digits 0) digits ∙ read_digits-format_uint n hn

-- The text has no `:`.
abbrev has_no_colon : Bytes → Bool
has_no_colon s = all (λ c. not (c == b':')) s

colon-inside : (s t : Bytes) → has_no_colon (s ++ b':' ∷ t) ≡ false
unfolding all
colon-inside [] t = refl
colon-inside (c ∷ s) t = rw (colon-inside s t) (&&_false (not (c == b':')))
  where
    &&_false : (b : Bool) → (b && false) ≡ false
    &&_false true = refl
    &&_false false = refl

-- A text is cut at its last `:` in one way.
cut_last :
    (r s d e : Bytes)
    → has_no_colon d ≡ true
    → has_no_colon e ≡ true
    → r ++ b':' ∷ d ≡ s ++ b':' ∷ e
    → (r ≡ s) × (d ≡ e)
cut_last [] [] d e hd he h = (refl, cc)
cut_last [] (c ∷ s) d e hd he h =
    let inside : d ≡ s ++ b':' ∷ e = cc in
    let clash : has_no_colon d ≡ false = ap has_no_colon inside ∙ colon-inside s e in cc
cut_last (c ∷ r) [] d e hd he h =
    let inside : e ≡ r ++ b':' ∷ d = cc in
    let clash : has_no_colon e ≡ false = ap has_no_colon inside ∙ colon-inside r d in cc
cut_last (c ∷ r) (b ∷ s) d e hd he h =
    let first : c ≡ b = cc in
    let rest : r ++ b':' ∷ d ≡ s ++ b':' ∷ e = cc in
    let (same, tail) = cut_last r s d e hd he rest in (cc, tail)

format_uint-has_no_colon : (n : ℕ) → has_no_colon (format_uint n) ≡ true
format_uint-has_no_colon n = format_uint-all (λ c. not (c == b':')) (λ d b. ground arith) n

event_id-parts :
    (r s : Bytes) (m n : ℕ)
    → m < 10 ^ 20
    → n < 10 ^ 20
    → event_id r m ≡ event_id s n
    → (r ≡ s) × (m ≡ n)
unfolding event_id
event_id-parts r s m n hm hn h =
    let (same, digits) =
      cut_last r s (format_uint m) (format_uint n) (format_uint-has_no_colon m)
        (format_uint-has_no_colon n) h in
    (
      same,
      sym (read_digits-format_uint m hm) ∙ ap (read_digits 0) digits ∙ read_digits-format_uint n hn,
    )

-- The identities of two events are the same text exactly if both their runners and their sequence
-- numbers are the same, whatever texts name the runners, for sequence numbers below 10 ^ 20.
pub event_id-exact :
    (r s : Bytes) (m n : ℕ)
    → m < 10 ^ 20
    → n < 10 ^ 20
    → str_eq (event_id r m) (event_id s n) ≡ (str_eq r s && (m == n))
event_id-exact r s m n hm hn = elim (Bool-cases (str_eq (event_id r m) (event_id s n))) [
  | inl e ↦
      let (runner, number) =
        event_id-parts r s m n hm hn (str_eq→eq (event_id r m) (event_id s n) e) in
      e ∙ sym (rw (runner, number) (&&_intro (str_eq s s) (n == n) (str_eq_refl s) (==_refl n)))
  | inr e ↦ elim (Bool-cases (str_eq r s && (m == n))) [
    | inr apart ↦ e ∙ sym apart
    | inl both ↦
        let (runner, number) = &&_both (str_eq r s) (m == n) both in
        let same : event_id r m ≡ event_id s n =
          ap (λ x. event_id x m) (str_eq→eq r s runner) ∙ ap (event_id s) (==→eq m n number) in
        let clash : str_eq (event_id r m) (event_id s n) ≡ true =
          ap (λ x. str_eq x (event_id s n)) same ∙ str_eq_refl (event_id s n) in
        cc
  ]
]
