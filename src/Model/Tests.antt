-- ===== src/Model/Tests.antt =====
-- internal/model/model.go: runs on a small inventory.
use swinv.Prelude.{
  ◌≡◌, ◌↔◌, refl, true, false, List, [], ◌∷◌, some, Bytes, codes, bytes_eq, is_empty,
}
use swinv.Prelude.Sort.{count_if, first_with, IsSorted}
use swinv.Model.Component.{Component, blank, Identity, key, key_eq, identity_eq, less, identity}
use swinv.Model.Merge.{normalize, absorb, with_sets}
use swinv.Model.Merge.Keys.{
  keyed, gathered, count_if-normalize, first_with-normalize, normalize-IsSorted,
}
use swinv.Model.Merge.Fields.{held, value_of, normalize-unions, normalize-first_values}
use swinv.Model.Delta.{compute_delta, is_empty_delta}
use swinv.Model.Delta.Tag.{tag_one, tag, delta_components}
use swinv.Model.Delta.Groups.{at}
use swinv.Model.Delta.Difference.{gained, lost, compute_delta_difference}
use swinv.Model.Delta.Tagged.{is_empty_delta_iff, tag_unmarked, present, delta_components_present}

abbrev bash : Component
bash = record blank {
  name = codes "bash";
  version = codes "5.1";
  type' = codes "deb";
  root = codes "/";
  locations = codes "/b" ∷ [];
}

abbrev bash_again : Component
bash_again = record bash {
  found_by = codes "dpkg";
  locations = codes "/a" ∷ codes "/b" ∷ [];
  attributes = (codes "k", codes "v") ∷ [];
}

abbrev newer : Component
newer = record bash { version = codes "5.2" }

abbrev awk : Component
awk = record blank {
  name = codes "awk";
  version = codes "1";
  type' = codes "deb";
  root = codes "/";
}

abbrev inventory : List Component
inventory = bash ∷ awk ∷ bash_again ∷ []

normalize_run :
    normalize inventory ≡ awk ∷ record bash_again { locations = codes "/a" ∷ codes "/b" ∷ [] } ∷ []
unfolding normalize bytes_eq
normalize_run = refl

count_if-normalize_example : count_if (keyed (key bash)) (normalize inventory) ≡ 1
unfolding key_eq bytes_eq
count_if-normalize_example = count_if-normalize (key bash) inventory

first_with-normalize_example :
    first_with (keyed (key bash)) (normalize inventory) ≡ some (with_sets (absorb bash bash_again))
unfolding gathered bytes_eq
first_with-normalize_example = first_with-normalize (key bash) inventory

normalize-IsSorted_example : IsSorted less (normalize inventory)
normalize-IsSorted_example = normalize-IsSorted inventory

abbrev after : List Component
after = newer ∷ awk ∷ []

abbrev before : List Component
before = bash ∷ awk ∷ []

delta_run :
    (compute_delta after before).changed
    ≡ record {
      name = codes "bash";
      type' = codes "deb";
      from_version = codes "5.1";
      to_version = codes "5.2";
      purl = [];
    }
      ∷ []
unfolding compute_delta bytes_eq
delta_run = refl

normalize-unions_example :
    (held (λ d. d.locations) (codes "/a") (first_with (keyed (key bash)) (normalize inventory))
      ≡ true)
    × (held (λ d. d.cpes) (codes "/a") (first_with (keyed (key bash)) (normalize inventory))
        ≡ false)
    × (held (λ d. d.licenses) (codes "/a") (first_with (keyed (key bash)) (normalize inventory))
        ≡ false)
unfolding key_eq bytes_eq
normalize-unions_example = normalize-unions (codes "/a") (key bash) inventory

normalize-first_values_example :
    (value_of (λ d. d.language) (first_with (keyed (key bash)) (normalize inventory)) ≡ [])
    × (value_of (λ d. d.found_by) (first_with (keyed (key bash)) (normalize inventory))
        ≡ codes "dpkg")
    × (value_of (λ d. d.sha256) (first_with (keyed (key bash)) (normalize inventory)) ≡ [])
    × (value_of (λ d. d.vendor) (first_with (keyed (key bash)) (normalize inventory)) ≡ [])
    × (value_of (λ d. d.owned_by) (first_with (keyed (key bash)) (normalize inventory)) ≡ [])
unfolding key_eq bytes_eq
normalize-first_values_example = normalize-first_values (key bash) inventory

compute_delta_difference_example :
    (gained (identity bash) (codes "5.2") (compute_delta after before) ≡ 1)
    × (lost (identity bash) (codes "5.2") (compute_delta after before) ≡ 0)
unfolding identity_eq bytes_eq
compute_delta_difference_example =
    compute_delta_difference (identity bash) (codes "5.2") after before

is_empty_delta_iff_example :
    (is_empty_delta (some (compute_delta inventory inventory)) ≡ true)
    ↔ ((i : Identity) (v : Bytes) → count_if (at i v) inventory ≡ count_if (at i v) inventory)
is_empty_delta_iff_example = is_empty_delta_iff inventory inventory

tag_unmarked_example : is_empty (tag_one (compute_delta after before) newer).change ≡ false
unfolding identity_eq bytes_eq
tag_unmarked_example = tag_unmarked after before newer refl

delta_components_present_example :
    present
      (identity bash)
      (codes "5.2")
      (delta_components (some (compute_delta after before)) after)
    ≡ 1
unfolding identity_eq bytes_eq
delta_components_present_example =
    delta_components_present (identity bash) (codes "5.2") after before

-- Both installs of a version are marked where only one of them is new.
elsewhere :
    tag
      (some (compute_delta (bash ∷ record bash { root = codes "/snap" } ∷ []) (bash ∷ [])))
      (bash ∷ [])
    ≡ record bash { change = codes "added" } ∷ []
unfolding compute_delta tag bytes_eq
elsewhere = refl
