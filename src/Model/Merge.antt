-- ===== src/Model/Merge.antt =====
-- internal/model/model.go: `Normalize` and `mergeAttributes`. `merged` and `order` are one list, the
-- components by key in the order in which the keys were first seen.
pub mod Keys
pub mod Fields
use swinv.Prelude.{
  ℕ, Bool, true, false, List, [], ◌∷◌, ◌++◌, Option, none, some, Bytes, bytes_eq, if◌then◌else◌,
  is_empty, map,
}
use swinv.Prelude.Space.{split_at, join_with}
use swinv.Prelude.Table.{Table, find, set}
use swinv.Prelude.Sort.{sort_by}
use swinv.Model.Sets.{sorted_set}
use swinv.Model.Component.{Component, key, key_eq, less}

abbrev pub or_empty : Option Bytes → Bytes
or_empty none = []
or_empty (some v) = v

-- Conflicting values are joined by ";".
unfoldable pub joined : Bytes → Bytes → Bytes
unfolding sorted_set join_with split_at
joined existing v = join_with (b';' ∷ []) (sorted_set (split_at b';' existing ++ (v ∷ [])))

unfoldable pub merge_value : Bytes → Bytes → Bytes
unfolding joined
merge_value existing v =
    if is_empty existing then v else if bytes_eq existing v then existing else joined existing v

-- The order in which Go's loop visits `b` does not matter: each round changes its own key.
unfoldable pub merge_attributes : Table Bytes → Table Bytes → Table Bytes
unfolding merge_value find set
merge_attributes a [] = a
merge_attributes a ((k, v) ∷ b) = merge_attributes (set k (merge_value (or_empty (find k a)) v) a) b

abbrev pub first_of : Bytes → Bytes → Bytes
first_of a b = if is_empty a then b else a

unfoldable pub absorb : Component → Component → Component
unfolding merge_attributes
absorb existing c = record existing {
  cpes = existing.cpes ++ c.cpes;
  licenses = existing.licenses ++ c.licenses;
  locations = existing.locations ++ c.locations;
  language = first_of existing.language c.language;
  found_by = first_of existing.found_by c.found_by;
  sha256 = first_of existing.sha256 c.sha256;
  vendor = first_of existing.vendor c.vendor;
  owned_by = first_of existing.owned_by c.owned_by;
  attributes = merge_attributes existing.attributes c.attributes;
}

unfoldable pub merge_in : List Component → Component → List Component
unfolding absorb key_eq
merge_in [] c = c ∷ []
merge_in (x ∷ xs) c =
    let later = merge_in xs c in if key_eq (key c) (key x) then absorb x c ∷ xs else x ∷ later

unfoldable pub merge_all : List Component → List Component → List Component
unfolding merge_in
merge_all merged [] = merged
merge_all merged (c ∷ cs) = merge_all (merge_in merged c) cs

unfoldable pub with_sets : Component → Component
unfolding sorted_set
with_sets c = record c {
  cpes = sorted_set c.cpes;
  licenses = sorted_set c.licenses;
  locations = sorted_set c.locations;
}

unfoldable pub normalize : List Component → List Component
unfolding merge_all with_sets sort_by less
normalize components = sort_by less (map with_sets (merge_all [] components))
