-- ===== src/Prelude/Table.antt =====
-- A Go map with string keys as an association list in which a key stands once, in the order in which
-- the keys were first set.
use mathlib.Core.Path.{◌≡◌, refl, ap}
use mathlib.Core.Logic.{inl, inr}
use mathlib.Core.Bool.{false}
use mathlib.Core.Option.{Option, none, some}
use mathlib.Core.List.{List, [], ◌∷◌}
use swinv.Prelude.Tests.{if◌then◌else◌, Bool-cases}
use swinv.Prelude.Text.{Bytes, bytes_eq, bytes_eq_iff, bytes_eq_refl}

abbrev pub Table : Type 0 → Type 0
Table V = List (Bytes × V)

module _ {V : Type 0} where
  unfoldable pub find : Bytes → Table V → Option V
  find k [] = none
  find k ((j, v) ∷ rest) = let later = find k rest in if bytes_eq k j then some v else later

  unfoldable pub set : Bytes → V → Table V → Table V
  set k v [] = (k, v) ∷ []
  set k v ((j, w) ∷ rest) =
      let later = set k v rest in if bytes_eq k j then (k, v) ∷ rest else (j, w) ∷ later

  pub find-set : (k : Bytes) (v : V) (m : Table V) → find k (set k v m) ≡ some v
  unfolding find set
  find-set k v [] = rw (bytes_eq_refl k) refl
  find-set k v ((j, w) ∷ rest) = elim (Bool-cases (bytes_eq k j)) [
    | inl same ↦ rw (same, bytes_eq_refl k) refl
    | inr apart ↦ rw (apart, apart) (find-set k v rest)
  ]

  pub find-set_other :
      (i k : Bytes) (v : V) (m : Table V) → bytes_eq i k ≡ false → find i (set k v m) ≡ find i m
  unfolding find set
  find-set_other i k v [] h = rw h refl
  find-set_other i k v ((j, w) ∷ rest) h = elim (Bool-cases (bytes_eq k j)) [
    | inl same ↦
        let e : bytes_eq i j ≡ false = rw ((bytes_eq_iff k j).0 same) at h in rw (same, h, e) refl
    | inr apart ↦
        rw apart (ap (λ x. if bytes_eq i j then some w else x) (find-set_other i k v rest h))
  ]
