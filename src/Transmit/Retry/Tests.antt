-- ===== src/Transmit/Retry/Tests.antt =====
-- The retry policy on concrete inputs: a world that counts calls, and a request that fails twice.
use swinv.Prelude.{
  ℕ, zero, suc, ◌+◌, ◌-◌, ◌*◌, ◌/◌, ◌^◌, ◌≤◌, ◌≡◌, refl, true, [], codes, none, ok, err, Eff, arith,
  pos, is_negative,
}
use Prim.Native.Nat.{min}
use swinv.Transmit.Retry.{
  Error, message, permanent, status, gave_up, Clock, backoff, retry, retry_base, retry_max, second,
  parse_retry_after, delay_of,
}
use swinv.Transmit.Retry.Waits.{backoff_bounds, delay_of_wraps}
use swinv.Transmit.Retry.Outcomes.{Answered, retry-ok}

-- The least jitter; a timer that always fires.
abbrev clock : Clock ℕ
clock = record {
  random = λ w n. 0;
  context_error = λ w. none;
  sleep = λ d w. (true, w);
  done_error = λ w. message [];
}

abbrev third_time : ℕ → Eff ℕ Error ℕ
third_time zero w = (err (status 503 []), w + 1)
third_time (suc zero) w = (err (status 503 []), w + 1)
third_time (suc (suc zero)) w = (err (status 503 []), w + 1)
third_time (suc (suc (suc n))) w = (ok 7, w + 1)

third_time_succeeds : retry clock 5 third_time 0 ≡ (ok 7, 3)
unfolding retry
third_time_succeeds = refl

gives_up : retry clock 2 third_time 0 ≡ (err (gave_up 2 (status 503 [])), 2)
unfolding retry
gives_up = refl

retry-ok_example : Answered clock 5 third_time 7 3 5
retry-ok_example = retry-ok clock 5 third_time 0 7 3 third_time_succeeds

abbrev refused : ℕ → Eff ℕ Error ℕ
refused n w = (err (permanent (status 401 [])), w + 1)

third_time-counts : (attempt w : ℕ) → (third_time attempt w).1 ≤ w + 1
third_time-counts zero w = omega arith
third_time-counts (suc zero) w = omega arith
third_time-counts (suc (suc zero)) w = omega arith
third_time-counts (suc (suc (suc n))) w = omega arith

backoff_bounds_example :
    (min (retry_base * 2 ^ (3 - 1)) retry_max / 2 ≤ backoff (λ n. n - 1) 3)
    × (backoff (λ n. n - 1) 3 ≤ min (retry_base * 2 ^ (3 - 1)) retry_max)
    × (retry_base / 2 ≤ backoff (λ n. n - 1) 3)
    × (backoff (λ n. n - 1) 3 ≤ retry_max)
backoff_bounds_example = backoff_bounds (λ n. n - 1) 3 (λ n h. omega arith)

delay_of_wraps_example : is_negative (delay_of (pos 9223372037)) ≡ true
delay_of_wraps_example = delay_of_wraps 9223372037 (omega arith) (omega arith)

retry_after_minute : parse_retry_after (codes "60") ≡ pos (60 * second)
unfolding parse_retry_after
retry_after_minute = refl
