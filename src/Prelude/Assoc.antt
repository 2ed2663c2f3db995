-- ===== src/Prelude/Assoc.antt =====
-- A map with numeric keys as an association list in which a key stands once.
use Prim.Native.Nat.{ℕ}
use mathlib.Core.Path.{◌≡◌}
use mathlib.Core.Bool.{false}
use mathlib.Core.Option.{Option, none, some}
use mathlib.Core.List.{List, [], ◌∷◌}
use native.Mathlib.Omega.{arith}
use swinv.Prelude.Tests.{◌==◌, if◌then◌else◌}

abbrev pub Assoc : Type 0 → Type 0
Assoc V = List (ℕ × V)

module _ {V : Type 0} where
  unfoldable pub lookup : ℕ → Assoc V → Option V
  lookup k [] = none
  lookup k ((j, v) ∷ rest) = let later = lookup k rest in if k == j then some v else later

  unfoldable pub insert : ℕ → V → Assoc V → Assoc V
  insert k v [] = (k, v) ∷ []
  insert k v ((j, w) ∷ rest) =
      let later = insert k v rest in if k == j then (k, v) ∷ rest else (j, w) ∷ later

  pub lookup-insert : (k : ℕ) (v : V) (m : Assoc V) → lookup k (insert k v m) ≡ some v
  unfolding lookup insert
  lookup-insert k v [] = ground arith
  lookup-insert k v ((j, w) ∷ rest) = ground (arith, lookup-insert k v rest)

  pub lookup-insert_other :
      (i k : ℕ) (v : V) (m : Assoc V) → (i == k) ≡ false → lookup i (insert k v m) ≡ lookup i m
  unfolding lookup insert
  lookup-insert_other i k v [] h = ground (arith, h)
  lookup-insert_other i k v ((j, w) ∷ rest) h = ground (arith, h, lookup-insert_other i k v rest h)
