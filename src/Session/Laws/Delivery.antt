-- ===== src/Session/Laws/Delivery.antt =====
-- live-runner/callback.go: the retry delay.
use livepeer_modules_transco.Prelude.{
  ℕ, zero, suc, ◌+◌, ◌-◌, ◌*◌, ◌/◌, ◌%◌, ◌^◌, ◌≤◌, ◌<◌, ◌≡◌, inl, inr, ◌∷◌, ◌++◌, arith, ltb,
  if◌then◌else◌, Bool-cases, Bytes, format_uint,
}
use native.Mathlib.Nat.{pow-succ', mul-le-mul_left, one-le-pow}
use livepeer_modules_transco.Session.Record.{World}
use livepeer_modules_transco.Session.Callback.{grow_delay, jitter, callback_retry_delay}

-- The delay before jitter: the initial one doubled for each attempt after the first.
unfoldable pub backoff : ℕ → ℕ → ℕ → ℕ
backoff rounds initial maximum =
    if ltb maximum (initial * 2 ^ rounds) then maximum else initial * 2 ^ rounds

pub doubled : (b n : ℕ) → b * 2 ^ suc n ≡ b * 2 * 2 ^ n
doubled b n = grind (arith, pow-succ' 2 n)

pub at_least : (b n : ℕ) → b ≤ b * 2 ^ n
at_least b n = omega (arith, mul-le-mul_left {m = 1} {n = 2 ^ n} b (one-le-pow n 2 (omega arith)))

grow_delay-backoff :
    (rounds base maximum : ℕ)
    → 0 < base
    → base ≤ maximum
    → grow_delay rounds base maximum ≡ backoff rounds base maximum
unfolding grow_delay backoff
grow_delay-backoff zero base maximum h l = ground arith
grow_delay-backoff (suc rounds) base maximum h l =
    let twice = doubled base rounds in
    let more = at_least (base * 2) rounds in
    rw twice (elim (Bool-cases (ltb base maximum)) [
      | inr top ↦ rw top (ground arith)
      | inl below ↦ elim (Bool-cases (ltb (maximum / 2) base)) [
        | inl half ↦ rw (below, half) (ground arith)
        | inr low ↦
            rw (below, low)
              (grow_delay-backoff rounds (base * 2) maximum (omega arith) (ground arith))
      ]
    ])

-- At most 250 thousandths are at most a quarter.
share : ℕ → ℕ → ℕ
share base delta = base / 1000 * delta + base % 1000 * delta / 1000

share_quarter : (base delta : ℕ) → delta ≤ 250 → 4 * share base delta ≤ base
unfolding share
share_quarter base delta h = omega (
  arith,
  mul-le-mul_left {m = delta} {n = 250} (base / 1000) h,
  mul-le-mul_left {m = delta} {n = 250} (base % 1000) h,
)

jitter-near :
    (base maximum offset : ℕ)
    → base ≤ maximum
    → offset < 501
    → (jitter base maximum (750 + offset) ≤ maximum)
      × (3 * base ≤ 4 * jitter base maximum (750 + offset))
      × (4 * jitter base maximum (750 + offset) ≤ 5 * base)
unfolding jitter share
jitter-near base maximum offset l h =
    let less = share_quarter base (1000 - (750 + offset)) (omega arith) in
    let more = share_quarter base (750 + offset - 1000) (omega arith) in ground (arith, less, more)

backoff-bounds :
    (rounds initial maximum : ℕ)
    → initial ≤ maximum
    → (initial ≤ backoff rounds initial maximum) × (backoff rounds initial maximum ≤ maximum)
unfolding backoff
backoff-bounds rounds initial maximum l = ground (arith, at_least initial rounds)

-- callbackRetryDelayV1, for a positive initial delay that is at most the maximum: the delay is
-- positive and at most the maximum, and it is between three and five quarters of the initial delay
-- doubled for each attempt after the first, or of the maximum where that is less.
pub callback_retry_delay-near :
    (w : World) (id : Bytes) (attempt initial maximum : ℕ)
    → 0 < initial
    → initial ≤ maximum
    → (0 < callback_retry_delay w id attempt initial maximum)
      × (callback_retry_delay w id attempt initial maximum ≤ maximum)
      × (3 * backoff (attempt - 1) initial maximum
          ≤ 4 * callback_retry_delay w id attempt initial maximum)
      × (4 * callback_retry_delay w id attempt initial maximum
          ≤ 5 * backoff (attempt - 1) initial maximum)
unfolding callback_retry_delay
callback_retry_delay-near w id attempt initial maximum h l =
    let grown = grow_delay-backoff (attempt - 1) initial maximum h l in
    let bounds = backoff-bounds (attempt - 1) initial maximum l in
    let near =
      jitter-near (backoff (attempt - 1) initial maximum) maximum
        (w.digest_prefix (id ++ b':' ∷ format_uint attempt) % 501) bounds.1 (omega arith) in
    rw grown (omega (arith, near, bounds), near.0, near.1, near.2)
