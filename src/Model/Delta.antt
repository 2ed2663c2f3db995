-- ===== src/Model/Delta.antt =====
-- internal/model/model.go: `Delta`, `ComputeDelta` and `IsEmpty`. A Go map from identities
-- is the list of its groups in the order in which the identities were first seen: the stable sorts at
-- the end leave nothing of the order in which a loop visits a map, for the groups differ in what is
-- compared.
pub mod Tag
pub mod Versions
pub mod Groups
pub mod Difference
pub mod Tagged
use swinv.Prelude.{
  ℕ, zero, suc, ◌+◌, ◌-◌, Bool, true, false, not, ◌&&◌, ◌||◌, List, [], ◌∷◌, ◌++◌, Option, none,
  some, Bytes, bytes_eq, if◌then◌else◌, ltb, is_empty,
}
use swinv.Prelude.Table.{Table, find, set}
use swinv.Prelude.Sort.{sort_by, any, bytes_lt}
use swinv.Model.Component.{Component, Identity, identity, identity_eq, less}

pub record Change : Type 0 where
  pub name : Bytes
  pub type' : Bytes
  pub from_version : Bytes
  pub to_version : Bytes
  pub purl : Bytes

-- The times are in some unit from some origin.
pub record Delta : Type 0 where
  pub since : Bytes
  pub only : Bool
  pub baseline_at : ℕ
  pub baseline_host : Bytes
  pub added : List Component
  pub removed : List Component
  pub changed : List Change

abbrev pub empty_delta : Delta
empty_delta = record {
  since = [];
  only = false;
  baseline_at = 0;
  baseline_host = [];
  added = [];
  removed = [];
  changed = [];
}

abbrev pub Groups : Type 0
Groups = List (Identity × List Component)

unfoldable pub add_to_group : Groups → Component → Groups
unfolding identity_eq
add_to_group [] c = (identity c, c ∷ []) ∷ []
add_to_group ((i, cs) ∷ groups) c =
    let later = add_to_group groups c in
    if identity_eq (identity c) i then (i, cs ++ (c ∷ [])) ∷ groups else (i, cs) ∷ later

unfoldable pub group_onto : Groups → List Component → Groups
unfolding add_to_group
group_onto groups [] = groups
group_onto groups (c ∷ cs) = group_onto (add_to_group groups c) cs

unfoldable pub group_by_identity : List Component → Groups
unfolding group_onto
group_by_identity components = group_onto [] components

-- What Go reads under an identity, nil where there is no such key.
unfoldable pub members : Identity → Groups → List Component
unfolding identity_eq
members i [] = []
members i ((j, cs) ∷ groups) = let later = members i groups in if identity_eq i j then cs else later

abbrev pub has_group : Identity → Groups → Bool
has_group i groups = any (λ g. identity_eq i g.0) groups

-- The counter under a version, 0 where there is none.
unfoldable pub tally : Bytes → Table ℕ → ℕ
unfolding find
tally v counts = or_zero (find v counts)
  where
    or_zero : Option ℕ → ℕ
    or_zero none = 0
    or_zero (some n) = n

unfoldable pub count_versions : Table ℕ → List Component → Table ℕ
unfolding tally set
count_versions counts [] = counts
count_versions counts (c ∷ cs) =
    count_versions (set c.version (tally c.version counts + 1) counts) cs

unfoldable pub unmatched : Table ℕ → List Component → List Component × ℕ
unfolding tally set
unmatched counts [] = ([], 0)
unmatched counts (c ∷ cs) =
    let fewer = unmatched (set c.version (tally c.version counts - 1) counts) cs in
    let same = unmatched counts cs in
    if ltb 0 (tally c.version counts) then (fewer.0, fewer.1 + 1) else (c ∷ same.0, same.1)

unfoldable pub diff_versions : List Component → List Component → List Component × ℕ
unfolding count_versions unmatched
diff_versions a b = unmatched (count_versions [] b) a

abbrev pub change_between : Identity → Component → Component → Change
change_between i a r = record {
  name = i.name;
  type' = i.type';
  from_version = r.version;
  to_version = a.version;
  purl = a.purl;
}

-- The cases of the `switch`.
unfoldable pub record_difference : Identity → List Component → List Component → Delta → Delta
record_difference i (a ∷ []) (r ∷ []) d = record d {
  changed = d.changed ++ (change_between i a r ∷ []);
}
record_difference i added removed d = record d {
  added = d.added ++ added;
  removed = d.removed ++ removed;
}

unfoldable pub compare_groups : Groups → Groups → Delta → Delta
unfolding record_difference diff_versions members
compare_groups baseline [] d = d
compare_groups baseline ((i, cur) ∷ groups) d =
    let base = members i baseline in
    compare_groups baseline groups
      (record_difference i (diff_versions cur base).0 (diff_versions base cur).0 d)

unfoldable pub vanished : Groups → Groups → Delta → Delta
unfolding identity_eq
vanished current [] d = d
vanished current ((i, base) ∷ groups) d =
    vanished current groups
      (if has_group i current then d else record d { removed = d.removed ++ base })

unfoldable pub change_less : Change → Change → Bool
unfolding bytes_eq
change_less a b =
    if not (bytes_eq a.type' b.type') then bytes_lt a.type' b.type' else bytes_lt a.name b.name

unfoldable pub compute_delta : List Component → List Component → Delta
unfolding group_by_identity compare_groups vanished sort_by less change_less
compute_delta current baseline =
    let current_by_id = group_by_identity current in
    let baseline_by_id = group_by_identity baseline in
    let d =
      vanished current_by_id baseline_by_id
        (compare_groups baseline_by_id current_by_id empty_delta) in
    record d {
      added = sort_by less d.added;
      removed = sort_by less d.removed;
      changed = sort_by change_less d.changed;
    }

unfoldable pub is_empty_delta : Option Delta → Bool
is_empty_delta none = true
is_empty_delta (some d) = is_empty d.added && is_empty d.removed && is_empty d.changed
