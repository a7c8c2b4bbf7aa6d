-- ===== src/Media/Texts.antt =====
-- Texts that are split, cut and joined at a character, for the paths of live-runner/media.go.
use livepeer_modules_transco.Prelude.{
  ℕ, ◌≡◌, refl, sym, ap, ◌∙◌, inl, inr, Bool, true, false, not, ◌&&◌, some, List, [], ◌∷◌, ◌++◌,
  leb, ◌==◌, if◌then◌else◌, Bool-cases, &&_both, &&_intro, ==_refl, ==→eq, length, all, Bytes,
  codes, str_eq, is_empty, subst,
}
use livepeer_modules_transco.Contract.Ident.{opaque_id, is_id_char, is_alphanumeric}
use livepeer_modules_transco.Media.Path.{push_char, split, cut_after, cut_at}

-- The character does not occur in the text.
abbrev pub avoids : ℕ → Bytes → Bool
avoids sep s = all (λ c. not (c == sep)) s

-- strings.Join.
unfoldable pub join : ℕ → List Bytes → Bytes
join sep [] = []
join sep (part ∷ []) = part
join sep (part ∷ next ∷ parts) = part ++ sep ∷ join sep (next ∷ parts)

join-push_char :
    (sep c : ℕ) (parts : List Bytes) → join sep (push_char c parts) ≡ c ∷ join sep parts
unfolding join push_char
join-push_char sep c [] = refl
join-push_char sep c (part ∷ []) = refl
join-push_char sep c (part ∷ next ∷ parts) = refl

-- The parts after a separator.
join-break : (sep : ℕ) (s : Bytes) → join sep ([] ∷ split sep s) ≡ sep ∷ join sep (split sep s)
unfolding join split push_char
join-break sep [] = refl
join-break sep (c ∷ s) = go (c == sep) (split sep s)
  where
    go :
        (b : Bool) (rest : List Bytes)
        → join sep ([] ∷ (if b then [] ∷ rest else push_char c rest))
          ≡ sep ∷ join sep (if b then [] ∷ rest else push_char c rest)
    go true rest = refl
    go false [] = refl
    go false (part ∷ parts) = refl

pub join-split : (sep : ℕ) (s : Bytes) → join sep (split sep s) ≡ s
unfolding join split
join-split sep [] = refl
join-split sep (c ∷ s) = elim (Bool-cases (c == sep)) [
  | inl same ↦
      let here : c ≡ sep = ==→eq c sep same in
      rw same (join-break sep s ∙ ap (λ t. sep ∷ t) (join-split sep s) ∙ ap (λ x. x ∷ s) (sym here))
  | inr other ↦ rw other (join-push_char sep c (split sep s) ∙ ap (λ t. c ∷ t) (join-split sep s))
]

avoids-cons :
    (sep c : ℕ) (s : Bytes)
    → avoids sep (c ∷ s) ≡ true
    → ((c == sep) ≡ false) × (avoids sep s ≡ true)
unfolding all
avoids-cons sep c s h =
    let (apart, rest) = &&_both (not (c == sep)) (avoids sep s) h in (go (c == sep) apart, rest)
  where
    go : (b : Bool) → not b ≡ true → b ≡ false
    go true e = cc
    go false e = refl

pub split-avoids : (sep : ℕ) (s : Bytes) → avoids sep s ≡ true → split sep s ≡ s ∷ []
unfolding split push_char
split-avoids sep [] h = refl
split-avoids sep (c ∷ s) h =
    let (other, rest) = avoids-cons sep c s h in
    rw other (ap (push_char c) (split-avoids sep s rest))

pub split-append :
    (sep : ℕ) (a b : Bytes) → avoids sep a ≡ true → split sep (a ++ sep ∷ b) ≡ a ∷ split sep b
unfolding split push_char
split-append sep [] b h = rw (==_refl sep) refl
split-append sep (c ∷ a) b h =
    let (other, rest) = avoids-cons sep c a h in
    rw other (ap (push_char c) (split-append sep a b rest))

pub cut_at-append :
    (sep : ℕ) (a b : Bytes) → avoids sep a ≡ true → cut_at sep (a ++ sep ∷ b) ≡ some (a, b)
unfolding cut_at cut_after
cut_at-append sep [] b h = rw (==_refl sep) refl
cut_at-append sep (c ∷ a) b h =
    let (other, rest) = avoids-cons sep c a h in
    rw other (ap (cut_after c) (cut_at-append sep a b rest))

char-apart : (sep c : ℕ) → is_id_char sep ≡ false → is_id_char c ≡ true → not (c == sep) ≡ true
char-apart sep c e h = elim (Bool-cases (c == sep)) [
  | inl same ↦
      let here : c ≡ sep = ==→eq c sep same in
      let clash : is_id_char sep ≡ true = subst (λ x. is_id_char x ≡ true) here h in cc
  | inr other ↦ rw other refl
]

all-avoids :
    (sep : ℕ) (s : Bytes) → is_id_char sep ≡ false → all is_id_char s ≡ true → avoids sep s ≡ true
unfolding all
all-avoids sep [] e h = refl
all-avoids sep (c ∷ s) e h =
    let (first, rest) = &&_both (is_id_char c) (all is_id_char s) h in
    &&_intro (not (c == sep)) (avoids sep s) (char-apart sep c e first) (all-avoids sep s e rest)

pub opaque_id-avoids :
    (sep : ℕ) (s : Bytes) → is_id_char sep ≡ false → opaque_id s ≡ true → avoids sep s ≡ true
unfolding opaque_id
opaque_id-avoids sep [] e h = cc
opaque_id-avoids sep (c ∷ s) e h =
    let (first, rest) = &&_both (is_alphanumeric c) (all is_id_char s && leb (length s) 127) h in
    let (chars, short) = &&_both (all is_id_char s) (leb (length s) 127) rest in
    let head : is_id_char c ≡ true = rw first refl in
    all-avoids sep (c ∷ s) e (&&_intro (is_id_char c) (all is_id_char s) head chars)

-- A part of a path that path.Clean keeps.
abbrev pub is_plain_part : Bytes → Bool
is_plain_part part =
    not (is_empty part) && (not (str_eq part (codes ".")) && not (str_eq part (codes "..")))

pub opaque_id-is_plain_part : (s : Bytes) → opaque_id s ≡ true → is_plain_part s ≡ true
unfolding opaque_id is_empty str_eq
opaque_id-is_plain_part [] h = cc
opaque_id-is_plain_part (c ∷ s) h =
    let (first, rest) = &&_both (is_alphanumeric c) (all is_id_char s && leb (length s) 127) h in
    elim (Bool-cases (c == b'.')) [
      | inl dot ↦
          let here : c ≡ b'.' = ==→eq c b'.' dot in
          let clash : is_alphanumeric b'.' ≡ true =
            subst (λ x. is_alphanumeric x ≡ true) here first in
          cc
      | inr other ↦ rw other refl
    ]
