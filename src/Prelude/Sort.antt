-- ===== src/Prelude/Sort.antt =====
-- `sort.SliceStable` and `sort.Strings`: a stable sort by a strict order, whatever its algorithm.
use Prim.Native.Nat.{ℕ, ◌+◌, ◌≤◌}
use mathlib.Core.Path.{◌≡◌, refl, ap, ◌∙◌}
use mathlib.Core.Logic.{inl, inr}
use mathlib.Core.Bool.{Bool, true, false, not, ◌||◌}
use mathlib.Core.Option.{Option, none, some}
use mathlib.Core.List.{List, [], ◌∷◌, ◌++◌}
use native.Mathlib.Omega.{arith}
use swinv.Prelude.Tests.{ltb, if◌then◌else◌, Bool-cases}
use swinv.Prelude.Text.{Bytes}

module _ {ℓ} {A : Type ℓ} where
  abbrev pub any : (A → Bool) → List A → Bool
  any p [] = false
  any p (x ∷ xs) = p x || any p xs

  abbrev pub count_if : (A → Bool) → List A → ℕ
  count_if p [] = 0
  count_if p (x ∷ xs) = (if p x then 1 else 0) + count_if p xs

  pub count_if-append :
      (p : A → Bool) (xs ys : List A) → count_if p (xs ++ ys) ≡ count_if p xs + count_if p ys
  count_if-append p [] ys = omega arith
  count_if-append p (x ∷ xs) ys = omega (arith, count_if-append p xs ys)

  abbrev pub first_with : (A → Bool) → List A → Option A
  first_with p [] = none
  first_with p (x ∷ xs) = let later = first_with p xs in if p x then some x else later

  pub first_with-any : (p : A → Bool) (xs : List A) → any p xs ≡ false → first_with p xs ≡ none
  first_with-any p [] h = refl
  first_with-any p (x ∷ xs) h = ground (arith, first_with-any p xs)

  pub count_if-any : (p : A → Bool) (xs : List A) → any p xs ≡ false → count_if p xs ≡ 0
  count_if-any p [] h = refl
  count_if-any p (x ∷ xs) h = ground (arith, count_if-any p xs)

  pub any-count_if : (p : A → Bool) (xs : List A) → count_if p xs ≡ 0 → any p xs ≡ false
  any-count_if p [] h = refl
  any-count_if p (x ∷ xs) h = ground (arith, any-count_if p xs)

module _ {A : Type 0} (less : A → A → Bool) where
  unfoldable pub put_by : A → List A → List A
  put_by x [] = x ∷ []
  put_by x (y ∷ ys) = let later = put_by x ys in if less y x then y ∷ later else x ∷ y ∷ ys

  unfoldable pub sort_by : List A → List A
  unfolding put_by
  sort_by [] = []
  sort_by (x ∷ xs) = put_by x (sort_by xs)

  -- No element is less than the one before it.
  abbrev pub IsSorted : List A → Type 0
  IsSorted [] = Unit
  IsSorted (x ∷ []) = Unit
  IsSorted (x ∷ y ∷ ys) = (less y x ≡ false) × IsSorted (y ∷ ys)

  any-put_by : (p : A → Bool) (x : A) (xs : List A) → any p (put_by x xs) ≡ (p x || any p xs)
  unfolding put_by
  any-put_by p x [] = refl
  any-put_by p x (y ∷ ys) = ground (arith, any-put_by p x ys)

  pub any-sort_by : (p : A → Bool) (xs : List A) → any p (sort_by xs) ≡ any p xs
  unfolding sort_by
  any-sort_by p [] = refl
  any-sort_by p (x ∷ xs) = any-put_by p x (sort_by xs) ∙ ap (◌||◌ (p x)) (any-sort_by p xs)

  count_if-put_by :
      (p : A → Bool) (x : A) (xs : List A)
      → count_if p (put_by x xs) ≡ (if p x then 1 else 0) + count_if p xs
  unfolding put_by
  count_if-put_by p x [] = refl
  count_if-put_by p x (y ∷ ys) = ground (arith, count_if-put_by p x ys)

  pub count_if-sort_by : (p : A → Bool) (xs : List A) → count_if p (sort_by xs) ≡ count_if p xs
  unfolding sort_by
  count_if-sort_by p [] = refl
  count_if-sort_by p (x ∷ xs) =
      count_if-put_by p x (sort_by xs) ∙ ap (◌+◌ (if p x then 1 else 0)) (count_if-sort_by p xs)

  first_with-put_by :
      (p : A → Bool) (x : A) (xs : List A)
      → (p x ≡ true → any p xs ≡ false)
      → first_with p (put_by x xs) ≡ (if p x then some x else first_with p xs)
  unfolding put_by
  first_with-put_by p x [] alone = refl
  first_with-put_by p x (y ∷ ys) alone = elim (Bool-cases (p x)) [
    | inl mine ↦
        let rest : (p y || any p ys) ≡ false = alone mine in
        let same = first_with-put_by p x ys (λ m. ground arith) in ground (arith, rest)
    | inr other ↦ let same = first_with-put_by p x ys (λ m. absurd (cc (m, other))) in ground arith
  ]

  -- Where at most one element passes the test, sorting does not change which one is found.
  pub first_with-sort_by :
      (p : A → Bool) (xs : List A) → count_if p xs ≤ 1 → first_with p (sort_by xs) ≡ first_with p xs
  unfolding sort_by
  first_with-sort_by p [] h = refl
  first_with-sort_by p (x ∷ xs) h =
      first_with-put_by p x (sort_by xs)
        (λ mine. any-sort_by p xs ∙ any-count_if p xs (ground arith))
      ∙ ap (λ later. if p x then some x else later) (first_with-sort_by p xs (ground arith))

  -- A sorted list is left as it is.
  pub sort_by_sorted : (xs : List A) → IsSorted xs → sort_by xs ≡ xs
  unfolding sort_by put_by
  sort_by_sorted [] s = refl
  sort_by_sorted (x ∷ []) s = refl
  sort_by_sorted (x ∷ y ∷ ys) (le, s) = rw (sort_by_sorted (y ∷ ys) s, put_by, le) refl

  module _ (asym : (x y : A) → less x y ≡ true → less y x ≡ false) where
    put_by-IsSorted_after :
        (z x : A) (xs : List A)
        → less x z ≡ false
        → IsSorted (z ∷ xs)
        → IsSorted (put_by x xs)
        → IsSorted (z ∷ put_by x xs)
    unfolding put_by
    put_by-IsSorted_after z x [] le s t = (le, tt)
    put_by-IsSorted_after z x (y ∷ ys) le s t = elim (Bool-cases (less y x)) [
      | inl after ↦ rw after (s.0, rw after at t)
      | inr before ↦ rw before (le, rw before at t)
    ]

    put_by-IsSorted : (x : A) (xs : List A) → IsSorted xs → IsSorted (put_by x xs)
    unfolding put_by
    put_by-IsSorted x [] s = tt
    put_by-IsSorted x (y ∷ ys) s = elim (Bool-cases (less y x)) [
      | inl after ↦
          rw after
            (put_by-IsSorted_after y x ys (asym y x after) s (put_by-IsSorted x ys (tail y ys s)))
      | inr before ↦ rw before (before, s)
    ]
      where
        tail : (z : A) (zs : List A) → IsSorted (z ∷ zs) → IsSorted zs
        tail z [] t = tt
        tail z (w ∷ ws) t = t.1

    pub sort_by-IsSorted : (xs : List A) → IsSorted (sort_by xs)
    unfolding sort_by
    sort_by-IsSorted [] = tt
    sort_by-IsSorted (x ∷ xs) = put_by-IsSorted x (sort_by xs) (sort_by-IsSorted xs)

-- Go's `<=` and `<` on strings.
unfoldable pub bytes_le : Bytes → Bytes → Bool
bytes_le [] b = true
bytes_le (x ∷ a) [] = false
bytes_le (x ∷ a) (y ∷ b) =
    let later = bytes_le a b in if ltb x y then true else if ltb y x then false else later

abbrev pub bytes_lt : Bytes → Bytes → Bool
bytes_lt a b = not (bytes_le b a)

pub bytes_le_total : (a b : Bytes) → bytes_le a b ≡ false → bytes_le b a ≡ true
unfolding bytes_le
bytes_le_total [] b h = absurd (cc h)
bytes_le_total (x ∷ a) [] h = refl
bytes_le_total (x ∷ a) (y ∷ b) h = ground (arith, bytes_le_total a b)

pub bytes_lt_asym : (a b : Bytes) → bytes_lt a b ≡ true → bytes_lt b a ≡ false
bytes_lt_asym a b h = ground (arith, bytes_le_total b a)

unfoldable pub sort_strings : List Bytes → List Bytes
unfolding sort_by bytes_le
sort_strings xs = sort_by bytes_lt xs
