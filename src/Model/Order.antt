-- ===== src/Model/Order.antt =====
-- internal/model/model.go: the order `Less` of components.
use swinv.Prelude.{[], ◌∷◌, ◌≡◌, refl, true, false, bytes_eq, arith, Bytes}
use swinv.Prelude.Sort.{bytes_lt_asym}
use swinv.Model.Component.{Component, less}

bytes_eq_sym : (a b : Bytes) → bytes_eq a b ≡ bytes_eq b a
unfolding bytes_eq
bytes_eq_sym [] [] = refl
bytes_eq_sym [] (y ∷ b) = refl
bytes_eq_sym (x ∷ a) [] = refl
bytes_eq_sym (x ∷ a) (y ∷ b) = ground (arith, bytes_eq_sym a b)

-- `Less` is asymmetric, so that a stable sort by it is determined.
pub less_asym : (a b : Component) → less a b ≡ true → less b a ≡ false
unfolding less
less_asym a b h = ground (
  arith,
  bytes_eq_sym a.type' b.type',
  bytes_eq_sym a.name b.name,
  bytes_eq_sym a.version b.version,
  bytes_lt_asym a.type' b.type',
  bytes_lt_asym a.name b.name,
  bytes_lt_asym a.version b.version,
  bytes_lt_asym a.purl b.purl,
)
