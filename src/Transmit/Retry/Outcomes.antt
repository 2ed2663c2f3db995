-- ===== src/Transmit/Retry/Outcomes.antt =====
-- What `retry` returns, what it leaves alone, and how often it calls.
use swinv.Prelude.{
  ℕ, zero, suc, ◌+◌, ◌-◌, ◌<◌, ◌≤◌, ◌≡◌, ◌⊎◌, true, Bool-cases, Option-cases, inl, inr, arith,
  Result, ok, err, Eff, ◌==◌,
}
use swinv.Transmit.Retry.{
  Error, is_permanent, Clock, wait_for, backoff, retry, retry_from, settle, failed, pause,
}

module _ {W A : Type 0} (clock : Clock W) (attempts : ℕ) (fn : ℕ → Eff W Error A) where
  pause-ok :
      (attempt : ℕ) (e : Error) (again : Eff W Error A) (w : W) {a : A} {w' : W}
      → pause clock attempts fn attempt e again w ≡ (ok a, w')
      → (v : W) × (again v ≡ (ok a, w'))
  unfolding pause
  pause-ok attempt e again w {a} {w'} h =
      let d = wait_for (backoff (clock.random w) attempt) e in
      elim (Bool-cases (clock.sleep d w).0) [
        | inl fired ↦ ((clock.sleep d w).1, rw fired at h)
        | inr done ↦ absurd (cc (rw done at h))
      ]

  failed-ok :
      (attempt : ℕ) (e : Error) (again : Eff W Error A) (w : W) {a : A} {w' : W}
      → failed clock attempts fn attempt e again w ≡ (ok a, w')
      → (v : W) × (again v ≡ (ok a, w'))
  unfolding failed
  failed-ok attempt e again w {a} {w'} h = elim (Bool-cases (is_permanent e)) [
    | inl p ↦ absurd (cc (rw p at h))
    | inr q ↦ elim (Option-cases (clock.context_error w)) [
      | inl c ↦ elim (Bool-cases (attempt == attempts)) [
        | inl l ↦ absurd (cc (rw (q, c, l) at h))
        | inr m ↦ pause-ok attempt e again w (rw (q, c, m) at h)
      ]
      | inr (x, c) ↦ absurd (cc (rw (q, c) at h))
    ]
  ]

  -- An attempt that returned this value, and left the world like this.
  abbrev pub Answered : A → W → ℕ → Type 0
  Answered a w' bound =
      (attempt : ℕ) × (w : W) × (fn attempt w ≡ (ok a, w')) × (1 ≤ attempt) × (attempt ≤ bound)

  settle-ok :
      (attempt : ℕ) (again : Eff W Error A) (r : Result Error A) (w : W) {a : A} {w' : W}
      → settle clock attempts fn attempt again r w ≡ (ok a, w')
      → (◌≡◌ {A = Result Error A × W} (r, w) (ok a, w')) ⊎ ((u : W) × (again u ≡ (ok a, w')))
  unfolding settle
  settle-ok attempt again (ok b) w h = inl h
  settle-ok attempt again (err e) w h = inr (failed-ok attempt e again w h)

  retry_from-ok :
      (left attempt : ℕ) (w : W) (a : A) (w' : W)
      → 1 ≤ attempt
      → retry_from clock attempts fn left attempt w ≡ (ok a, w')
      → Answered a w' (attempt + left - 1)
  unfolding retry_from
  retry_from-ok zero attempt w a w' p h = absurd (cc h)
  retry_from-ok (suc left) attempt w a w' p h =
      elim (settle-ok attempt (retry_from clock attempts fn left (attempt + 1)) (fn attempt w).0
        (fn attempt w).1 h) [
          | inl e ↦ (attempt, w, e, p, omega arith)
          | inr (u, e) ↦
              let (k, v, f, lo, hi) = retry_from-ok left (attempt + 1) u a w' (omega arith) e in
              (k, v, f, lo, omega arith)
        ]

  -- A value that `retry` returns is the value of its last call, and nothing happened after that call.
  pub retry-ok :
      (w : W) (a : A) (w' : W) → retry clock attempts fn w ≡ (ok a, w') → Answered a w' attempts
  unfolding retry
  retry-ok w a w' h =
      let (k, v, f, lo, hi) = retry_from-ok attempts 1 w a w' (omega arith) h in
      (k, v, f, lo, omega arith)

  -- With at least one attempt, a permanent failure of the first call is returned at once.
  pub retry-permanent :
      (w : W) (e : Error) (w' : W)
      → 0 < attempts
      → fn 1 w ≡ (err e, w')
      → is_permanent e ≡ true
      → retry clock attempts fn w ≡ (err e, w')
  unfolding retry
  retry-permanent w e w' p h q = go attempts p
    where
      go : (n : ℕ) → 0 < n → retry_from clock attempts fn n 1 w ≡ (err e, w')
      go zero r = absurd (omega arith)
      go (suc n) r = unfold retry_from settle failed in ground arith

-- `Q` holds between the attempts, and `T` when `retry` returns.
module _ {W A : Type 0} (clock : Clock W) (attempts : ℕ) (fn : ℕ → Eff W Error A) (Q T : W → Type 0)
    (asleep : (d : ℕ) (w : W) → Q w → Q (clock.sleep d w).1) (stop : (w : W) → Q w → T w) where
  settle-holds :
      (attempt : ℕ) (again : Eff W Error A) (r : Result Error A) (w : W)
      → ((v : W) → Q v → T (again v).1)
      → Q w
      → T (settle clock attempts fn attempt again r w).1
  unfolding settle failed pause
  settle-holds attempt again (ok a) w k q = stop w q
  settle-holds attempt again (err e) w k q = elim (Bool-cases (is_permanent e)) [
    | inl p ↦ rw p (stop w q)
    | inr p ↦ elim (Option-cases (clock.context_error w)) [
      | inr (x, c) ↦ rw (p, c) (stop w q)
      | inl c ↦ elim (Bool-cases (attempt == attempts)) [
        | inl l ↦ rw (p, c, l) (stop w q)
        | inr l ↦
            let d = wait_for (backoff (clock.random w) attempt) e in
            elim (Bool-cases (clock.sleep d w).0) [
              | inl fired ↦ rw (p, c, l, fired) (k (clock.sleep d w).1 (asleep d w q))
              | inr done ↦ rw (p, c, l, done) (stop (clock.sleep d w).1 (asleep d w q))
            ]
      ]
    ]
  ]

module _ {W A : Type 0} (clock : Clock W) (attempts : ℕ) (fn : ℕ → Eff W Error A) where
  -- What each attempt and each pause keep, the whole of `retry` keeps, however it ends.
  pub retry-keeps :
      (P : W → Type 0)
      → ((attempt : ℕ) (w : W) → P w → P (fn attempt w).1)
      → ((d : ℕ) (w : W) → P w → P (clock.sleep d w).1)
      → (w : W) → P w
      → P (retry clock attempts fn w).1
  unfolding retry
  retry-keeps P call asleep w p = go attempts 1 w p
    where
      go : (left attempt : ℕ) (v : W) → P v → P (retry_from clock attempts fn left attempt v).1
      go zero attempt v h = unfold retry_from in h
      go (suc left) attempt v h =
          unfold retry_from in
          settle-holds clock attempts fn P P asleep (λ u x. x) attempt
            (retry_from clock attempts fn left (attempt + 1)) (fn attempt v).0 (fn attempt v).1
            (λ u x. go left (attempt + 1) u x) (call attempt v h)

  -- There are at most `attempts` calls, counted by anything that a call raises by at most one.
  pub retry_calls :
      (calls : W → ℕ)
      → ((attempt : ℕ) (w : W) → calls (fn attempt w).1 ≤ calls w + 1)
      → ((d : ℕ) (w : W) → calls (clock.sleep d w).1 ≤ calls w)
      → (w : W) → calls (retry clock attempts fn w).1 ≤ calls w + attempts
  unfolding retry
  retry_calls calls call asleep w = go attempts 1 w
    where
      go :
          (left attempt : ℕ) (v : W)
          → calls (retry_from clock attempts fn left attempt v).1 ≤ calls v + left
      go zero attempt v = unfold retry_from in omega arith
      go (suc left) attempt v =
          unfold retry_from in
          settle-holds clock attempts fn (λ u. calls u ≤ calls v + 1)
            (λ u. calls u ≤ calls v + suc left) (λ d u x. omega (arith, asleep d u))
            (λ u x. omega arith) attempt (retry_from clock attempts fn left (attempt + 1))
            (fn attempt v).0 (fn attempt v).1 (λ u x. omega (arith, go left (attempt + 1) u))
            (call attempt v)
