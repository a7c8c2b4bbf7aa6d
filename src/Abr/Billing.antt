-- ===== src/Abr/Billing.antt =====
-- abr-runner/contract_v2.go: the bill of a workload against its pixel count.
use livepeer_modules_transco.Prelude.{
  ℕ, ◌+◌, ◌*◌, ◌/◌, ◌%◌, ◌≤◌, ◌<◌, ◌≡◌, refl, ap, ◌∙◌, inl, inr, Bool, true, false, Option, none,
  some, List, [], ◌∷◌, arith, ltb, ◌==◌, if◌then◌else◌, Bool-cases, All, Result, ok, err, ◌>>=◌,
}
use livepeer_modules_transco.Contract.Event.{add64, u64_limit}
use native.Mathlib.Nat.{mul-le-mul_left}
use livepeer_modules_transco.Abr.Types.{DeliveredVideo, RenditionResult}
use livepeer_modules_transco.Abr.Contract.{
  mul64, add_pixels, add_rendition, sum_pixels, calculate_units,
}

-- The pixels of one video, without bounds.
abbrev pub pixels_of : Option DeliveredVideo → ℕ
pixels_of none = 0
pixels_of (some v) = v.actual_frames * v.width * v.height

unfoldable pub total_pixels : List RenditionResult → ℕ
total_pixels [] = 0
total_pixels (r ∷ rs) = pixels_of r.video + total_pixels rs

-- A video has rows.
abbrev pub HasRows : RenditionResult → Type 0
HasRows r = (v : DeliveredVideo) → r.video ≡ some v → 0 < v.height

-- The least number of millions that covers the pixels.
abbrev pub IsCeiling : ℕ → ℕ → Type 0
IsCeiling pixels units = (pixels ≤ units * 1000000) × (units * 1000000 < pixels + 1000000)

grows : (a b : ℕ) → 0 < b → a ≤ a * b
grows a b h = omega (arith, mul-le-mul_left {m = 1} {n = b} a (omega arith))

-- A number of one word has no high word.
pub word_high : (n : ℕ) → n < u64_limit → n / u64_limit ≡ 0
word_high n h = omega arith

pub word_low : (n : ℕ) → n < u64_limit → n % u64_limit ≡ n
word_low n h = omega arith

word_over : (n : ℕ) → u64_limit ≤ n → ((n / u64_limit) == 0) ≡ false
word_over n h = let high : 0 < n / u64_limit = omega arith in ground arith

add_pixels-ok :
    (pixels : ℕ) (v : DeliveredVideo)
    → 0 < v.height
    → pixels + v.actual_frames * v.width * v.height < u64_limit
    → add_pixels pixels v ≡ ok (pixels + v.actual_frames * v.width * v.height)
unfolding add_pixels mul64 add64
add_pixels-ok pixels v h l =
    let wide = grows (v.actual_frames * v.width) v.height h in
    let narrow : v.actual_frames * v.width < u64_limit = omega arith in
    let fits : v.actual_frames * v.width * v.height < u64_limit = omega arith in
    rw (
      word_high _ narrow,
      word_low _ narrow,
      word_high _ fits,
      word_low _ fits,
      word_high _ l,
      word_low _ l,
    )

abbrev pub is_ok {ℓ} : {A : Type ℓ} → Result A → Bool
is_ok (ok a) = true
is_ok (err e) = false

-- The rendition's product overflows, in one step or the other, or the sum does.
add_pixels-fails :
    (pixels : ℕ) (v : DeliveredVideo)
    → 0 < v.height
    → u64_limit ≤ pixels + v.actual_frames * v.width * v.height
    → is_ok (add_pixels pixels v) ≡ false
unfolding add_pixels mul64 add64
add_pixels-fails pixels v h l = elim (Bool-cases (ltb (v.actual_frames * v.width) u64_limit)) [
  | inr wide ↦ rw (word_over (v.actual_frames * v.width) (ground arith))
  | inl narrow ↦
      let first : v.actual_frames * v.width < u64_limit = ground arith in
      elim (Bool-cases (ltb (v.actual_frames * v.width * v.height) u64_limit)) [
        | inr tall ↦ rw (
          word_high _ first,
          word_low _ first,
          word_over (v.actual_frames * v.width * v.height) (ground arith),
        )
        | inl fits ↦
            let second : v.actual_frames * v.width * v.height < u64_limit = ground arith in
            rw (
              word_high _ first,
              word_low _ first,
              word_high _ second,
              word_low _ second,
              word_over _ l,
            )
      ]
]

add_rendition-ok :
    (pixels : ℕ) (video : Option DeliveredVideo)
    → ((v : DeliveredVideo) → video ≡ some v → 0 < v.height)
    → pixels + pixels_of video < u64_limit
    → add_rendition pixels video ≡ ok (pixels + pixels_of video)
unfolding add_rendition
add_rendition-ok pixels none h l = ap ok (omega arith)
add_rendition-ok pixels (some v) h l = add_pixels-ok pixels v (h v refl) l

add_rendition-fails :
    (pixels : ℕ) (video : Option DeliveredVideo)
    → ((v : DeliveredVideo) → video ≡ some v → 0 < v.height)
    → pixels < u64_limit
    → u64_limit ≤ pixels + pixels_of video
    → is_ok (add_rendition pixels video) ≡ false
unfolding add_rendition
add_rendition-fails pixels none h small l = ground arith
add_rendition-fails pixels (some v) h small l = add_pixels-fails pixels v (h v refl) l

sum_pixels-ok :
    (pixels : ℕ) (rs : List RenditionResult)
    → All HasRows rs
    → pixels + total_pixels rs < u64_limit
    → sum_pixels pixels rs ≡ ok (pixels + total_pixels rs)
unfolding sum_pixels total_pixels
sum_pixels-ok pixels [] h l = ap ok (omega arith)
sum_pixels-ok pixels (r ∷ rs) h l =
    rw (add_rendition-ok pixels r.video h.0 (omega arith))
      (sum_pixels-ok (pixels + pixels_of r.video) rs h.1 (omega arith) ∙ ap ok (omega arith))

sum_pixels-fails :
    (pixels : ℕ) (rs : List RenditionResult)
    → All HasRows rs
    → pixels < u64_limit
    → u64_limit ≤ pixels + total_pixels rs
    → is_ok (sum_pixels pixels rs) ≡ false
unfolding sum_pixels total_pixels
sum_pixels-fails pixels [] h small l = ground arith
sum_pixels-fails pixels (r ∷ rs) h small l =
    elim (Bool-cases (ltb (pixels + pixels_of r.video) u64_limit)) [
      | inl fits ↦
          let next : pixels + pixels_of r.video < u64_limit = ground arith in
          rw (add_rendition-ok pixels r.video h.0 next)
            (sum_pixels-fails (pixels + pixels_of r.video) rs h.1 next (omega arith))
      | inr over ↦
          stop (add_rendition pixels r.video)
            (add_rendition-fails pixels r.video h.0 small (ground arith))
    ]
  where
    stop : (m : Result ℕ) → is_ok m ≡ false → is_ok (m >>= λ sum. sum_pixels sum rs) ≡ false
    stop (ok n) e = cc
    stop (err reason) e = refl

abbrev pub ceiling : ℕ → ℕ
ceiling n = if n % 1000000 == 0 then n / 1000000 else n / 1000000 + 1

pub ceiling-IsCeiling : (n : ℕ) → IsCeiling n (ceiling n)
ceiling-IsCeiling n = elim (Bool-cases (n % 1000000 == 0)) [
  | inl whole ↦ rw whole (ground arith)
  | inr part ↦ rw part (ground arith)
]

-- Where each video has rows: if the pixels of all the renditions are fewer than 2 ^ 64,
-- CalculateFrameMegapixelUnitsV2 returns the least number of millions that covers them, and
-- otherwise it returns an error.
pub calculate_units-exact :
    (rs : List RenditionResult)
    → All HasRows rs
    → (total_pixels rs < u64_limit
        → (units : ℕ) × (calculate_units rs ≡ ok units) × IsCeiling (total_pixels rs) units)
      × (u64_limit ≤ total_pixels rs → is_ok (calculate_units rs) ≡ false)
unfolding calculate_units
calculate_units-exact rs h = (
  (λ small. (
    ceiling (total_pixels rs),
    rw (sum_pixels-ok 0 rs h (omega arith)) (ap (λ (n : ℕ). ok (ceiling n)) (omega arith)),
    ceiling-IsCeiling (total_pixels rs),
  )),
  λ large. stop (sum_pixels 0 rs) (sum_pixels-fails 0 rs h (omega arith) (omega arith)),
)
  where
    stop : (m : Result ℕ) → is_ok m ≡ false → is_ok (m >>= λ pixels. ok (ceiling pixels)) ≡ false
    stop (ok n) e = cc
    stop (err reason) e = refl
