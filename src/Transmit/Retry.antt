-- ===== src/Transmit/Retry.antt =====
-- internal/transmit/http.go: errors, `classify`, `parseRetryAfter`, `backoff` and `retry`.
-- Durations are in nanoseconds. Error texts are kept where they carry a number or a reply.
pub mod Waits
pub mod Outcomes
mod Tests
use swinv.Prelude.{
  ℕ, zero, suc, ◌+◌, ◌-◌, ◌*◌, ◌/◌, ◌%◌, ◌^◌, Bool, true, false, not, ◌&&◌, ◌||◌, List, [], ◌∷◌,
  Option, none, some, Bytes, codes, ltb, leb, ◌==◌, if◌then◌else◌, is_empty, Result, ok, err, Eff,
  ℤ, pos, negsuc, is_negative, ltb_ℤ, int64,
}

-- `wrapped` is `fmt.Errorf` with one `%w`, `joined` with two.
pub data Error : Type 0 where
  message : Bytes → Error
  permanent : Error → Error
  retry_after : ℤ → Error → Error
  wrapped : Bytes → Error → Error
  joined : Error → Error → Error
  status : ℕ → Bytes → Error
  gave_up : ℕ → Error → Error

-- `IsPermanent`: `errors.As` looks through every error that is wrapped.
unfoldable pub is_permanent : Error → Bool
is_permanent (message m) = false
is_permanent (permanent e) = true
is_permanent (retry_after d e) = is_permanent e
is_permanent (wrapped m e) = is_permanent e
is_permanent (joined e f) = is_permanent e || is_permanent f
is_permanent (status n b) = false
is_permanent (gave_up n e) = is_permanent e

abbrev or_else {ℓ} : {A : Type ℓ} → Option A → Option A → Option A
or_else none o = o
or_else (some a) o = some a

-- The delay of the first `retryAfterError` that `errors.As` finds.
unfoldable pub find_retry_after : Error → Option ℤ
find_retry_after (message m) = none
find_retry_after (permanent e) = find_retry_after e
find_retry_after (retry_after d e) = some d
find_retry_after (wrapped m e) = find_retry_after e
find_retry_after (joined e f) = or_else (find_retry_after e) (find_retry_after f)
find_retry_after (status n b) = none
find_retry_after (gave_up n e) = find_retry_after e

-- `strconv.Atoi`, on a 64-bit machine.
digits : ℕ → Bytes → Option ℕ
digits n [] = some n
digits n (c ∷ cs) =
    let rest = digits (n * 10 + (c - b'0')) cs in if leb b'0' c && leb c b'9' then rest else none

magnitude : Bytes → Option ℕ
unfolding digits
magnitude [] = none
magnitude (c ∷ cs) = digits 0 (c ∷ cs)

as_positive : Option ℕ → Option ℤ
as_positive none = none
as_positive (some n) = if ltb n (2 ^ 63) then some (pos n) else none

as_negative : Option ℕ → Option ℤ
as_negative none = none
as_negative (some zero) = some (pos 0)
as_negative (some (suc n)) = if ltb n (2 ^ 63) then some (negsuc n) else none

unfoldable pub atoi : Bytes → Option ℤ
unfolding magnitude as_positive as_negative
atoi [] = none
atoi (c ∷ cs) =
    if c == b'-'
    then as_negative (magnitude cs)
    else if c == b'+'
    then as_positive (magnitude cs)
    else as_positive (magnitude (c ∷ cs))

abbrev pub second : ℕ
second = 1000000000

abbrev pub retry_after_cap : ℕ
retry_after_cap = 5 * (60 * second)

-- The product of two durations is an `int64`, which wraps.
unfoldable pub delay_of : ℤ → ℤ
delay_of (negsuc n) = pos 0
delay_of (pos n) =
    let d = int64 (n * second) in if ltb_ℤ (pos retry_after_cap) d then pos retry_after_cap else d

unfoldable pub parse_retry_after : Bytes → ℤ
unfolding atoi delay_of
parse_retry_after v =
    if is_empty v then pos 0 else elim (atoi v) [ none ↦ pos 0 | some n ↦ delay_of n ]

-- What the transport returned: `reply` is what could be read of the body.
pub record Response : Type 0 where
  pub status_code : ℕ
  pub retry_after_header : Bytes
  pub reply : Bytes
  pub read_error : Option Error

unfoldable pub classify : Response → Option Error
unfolding parse_retry_after
classify resp =
    let code = resp.status_code in
    let body = resp.reply in
    if leb 200 code && ltb code 300
    then none
    else if code == 429
    then some (retry_after (parse_retry_after resp.retry_after_header) (status 429 body))
    else if code == 409
    then some (permanent (status 409 body))
    else if leb 400 code && ltb code 500
    then some (permanent (status code body))
    else some (status code body)

abbrev pub retry_base : ℕ
retry_base = 500000000

abbrev pub retry_max : ℕ
retry_max = 8 * second

-- `retryBase << (attempt - 1)` as an `int64`, and the two tests behind it.
unfoldable pub interval : ℕ → ℕ
interval attempt =
    let d = (retry_base * 2 ^ (attempt - 1)) % 2 ^ 64 in
    if (ltb retry_max d || leb (2 ^ 63) d) || d == 0 then retry_max else d

-- `random` stands for what `rand.Int64N` returns, which is below its argument.
unfoldable pub backoff : (ℕ → ℕ) → ℕ → ℕ
unfolding interval
backoff random attempt = let half = interval attempt / 2 in half + random (half + 1)

-- What `retry` uses of the context, the timer and the random numbers. `sleep` says whether the timer
-- fired; if not, the context was done.
pub record Clock (W : Type 0) : Type 0 where
  pub random : W → ℕ → ℕ
  pub context_error : W → Option Error
  pub sleep : ℕ → W → Bool × W
  pub done_error : W → Error

unfoldable pub wait_for : ℕ → Error → ℕ
unfolding find_retry_after
wait_for base e = elim (find_retry_after e) [
  | none ↦ base
  | some (pos after) ↦ if ltb base after then after else base
  | some (negsuc _) ↦ base
]

module _ {W A : Type 0} (clock : Clock W) (attempts : ℕ) (fn : ℕ → Eff W Error A) where
  -- After a failure that is neither permanent nor the end of the context.
  pause : ℕ → Error → (W → Result Error A × W) → W → Result Error A × W
  unfolding wait_for backoff
  pause attempt e again w =
      let (fired, w') = clock.sleep (wait_for (backoff (clock.random w) attempt) e) w in
      let next = again w' in if fired then next else (err (joined (clock.done_error w') e), w')

  failed : ℕ → Error → (W → Result Error A × W) → W → Result Error A × W
  unfolding pause is_permanent
  failed attempt e again w = if is_permanent e then (err e, w) else elim (clock.context_error w) [
    | some c ↦ (err (joined c e), w)
    | none ↦ if attempt == attempts then (err (gave_up attempts e), w) else pause attempt e again w
  ]

  settle : ℕ → (W → Result Error A × W) → Result Error A → W → Result Error A × W
  unfolding failed
  settle attempt again (ok a) w = (ok a, w)
  settle attempt again (err e) w = failed attempt e again w

  -- `left` attempts remain, of which `attempt` is the next.
  retry_from : ℕ → ℕ → Eff W Error A
  unfolding settle
  retry_from zero attempt w = (err (gave_up attempts (message [])), w)
  retry_from (suc left) attempt w =
      let again = λ (w' : W). retry_from left (attempt + 1) w' in
      let (r, w') = fn attempt w in settle attempt again r w'

  unfoldable pub retry : Eff W Error A
  unfolding retry_from
  retry = retry_from attempts 1
