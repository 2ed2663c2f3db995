-- ===== src/Transmit/Retry/Waits.antt =====
-- How long `retry` waits.
use swinv.Prelude.{
  ℕ, zero, suc, ◌+◌, ◌-◌, ◌*◌, ◌/◌, ◌%◌, ◌^◌, ◌<◌, ◌≤◌, ◌≡◌, inl, inr, refl, sym, ap, ◌∙◌, true,
  false, Bytes, ltb, leb, arith, if◌then◌else◌, ◌==◌, ℤ, pos, negsuc, is_negative, ltb_ℤ,
  Option-cases,
}
use Prim.Native.Nat.{min}
use native.Mathlib.Nat.{pow-zero, pow-suc, add-zero, add-suc, one-le-pow, pow-le-pow_right}
use native.Mathlib.Decide.{dec_lt}
use mathlib.Core.Path.{subst}
use mathlib.Core.Bool.{◌||◌}
use swinv.Transmit.Retry.{
  interval, backoff, retry_base, retry_max, second, retry_after_cap, delay_of, parse_retry_after,
  atoi,
}

pow_add : (a b : ℕ) → 2 ^ (a + b) ≡ 2 ^ a * 2 ^ b
pow_add a zero = rw (add-zero, pow-zero) (omega arith)
pow_add a (suc b) = rw add-suc (
    omega
      (arith, pow-suc 2 (a + b), pow-suc 2 b, pow_add a b, ap (λ (m : ℕ). 2 ^ a * m) (pow-suc 2 b)))

abbrev capped : ℕ → ℕ
capped d = if (ltb retry_max d || leb (2 ^ 63) d) || d == 0 then retry_max else d

capped_small :
    (p : ℕ)
    → 1 ≤ p
    → p ≤ 2 ^ 35
    → capped ((retry_base * p) % 2 ^ 64) ≡ min (retry_base * p) retry_max
capped_small p h k = ground arith

-- The bits that are left of `retryBase << k` once it overflows are far above the cap, or none.
capped_large :
    (t : ℕ)
    → 1 ≤ t
    → capped ((retry_base * (2 ^ 36 * t)) % 2 ^ 64) ≡ min (retry_base * (2 ^ 36 * t)) retry_max
capped_large t h = ground arith

capped_pow : (k : ℕ) → capped ((retry_base * 2 ^ k) % 2 ^ 64) ≡ min (retry_base * 2 ^ k) retry_max
capped_pow k = elim (dec_lt k 36) [
  | yes low ↦
      capped_small (2 ^ k) (one-le-pow k 2 (omega arith))
        (pow-le-pow_right {n = 2} (omega arith) {i = k} {j = 35} (omega arith))
  | no high ↦
      let at : 36 + (k - 36) ≡ k = omega arith in
      subst (λ (m : ℕ). capped ((retry_base * m) % 2 ^ 64) ≡ min (retry_base * m) retry_max)
        (sym (pow_add 36 (k - 36)) ∙ ap (λ (m : ℕ). 2 ^ m) at)
        (capped_large (2 ^ (k - 36)) (one-le-pow (k - 36) 2 (omega arith)))
]

-- The overflow of the shift is harmless: the interval is the doubled base, up to the cap.
pub interval-min : (attempt : ℕ) → interval attempt ≡ min (retry_base * 2 ^ (attempt - 1)) retry_max
unfolding interval
interval-min attempt = capped_pow (attempt - 1)

interval_bounds : (attempt : ℕ) → (retry_base ≤ interval attempt) × (interval attempt ≤ retry_max)
interval_bounds attempt = rw interval-min (omega (arith, one-le-pow (attempt - 1) 2 (omega arith)))

-- With a random source that stays below its bound, the wait lies in the upper half of the interval:
-- at least 250 ms, at most 8 s.
pub backoff_bounds :
    (random : ℕ → ℕ) (attempt : ℕ)
    → ((n : ℕ) → 0 < n → random n < n)
    → (min (retry_base * 2 ^ (attempt - 1)) retry_max / 2 ≤ backoff random attempt)
      × (backoff random attempt ≤ min (retry_base * 2 ^ (attempt - 1)) retry_max)
      × (retry_base / 2 ≤ backoff random attempt)
      × (backoff random attempt ≤ retry_max)
unfolding backoff
backoff_bounds random attempt h =
    rw (← interval-min)
      (omega (arith, interval_bounds attempt, h (interval attempt / 2 + 1) (omega arith)))

delay_of-le-cap : (n : ℤ) → ltb_ℤ (pos retry_after_cap) (delay_of n) ≡ false
unfolding delay_of
delay_of-le-cap (pos n) = ground arith
delay_of-le-cap (negsuc n) = refl

-- A delay that the multiplication does not overflow is honoured up to five minutes.
pub delay_of-min :
    (n : ℕ) → n * second < 2 ^ 63 → delay_of (pos n) ≡ pos (min (n * second) retry_after_cap)
unfolding delay_of
delay_of-min n h = ground arith

-- From 9223372037 seconds to 18446744073 the product wraps to a negative duration, so the cap is not
-- applied.
pub delay_of_wraps :
    (n : ℕ) → 2 ^ 63 ≤ n * second → n * second < 2 ^ 64 → is_negative (delay_of (pos n)) ≡ true
unfolding delay_of
delay_of_wraps n h k = ground arith

-- No delay that a server asks for is longer than five minutes.
pub parse_retry_after-le-cap :
    (v : Bytes) → ltb_ℤ (pos retry_after_cap) (parse_retry_after v) ≡ false
unfolding parse_retry_after
parse_retry_after-le-cap v = elim (Option-cases (atoi v)) [
  | inl e ↦ ground (arith, e)
  | inr (n, e) ↦ ground (arith, e, delay_of-le-cap n)
]
