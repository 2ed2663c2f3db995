-- ===== src/Model/Delta/Difference.antt =====
-- internal/model/model.go: what `ComputeDelta` counts.
use swinv.Prelude.{
  ℕ, ◌+◌, ◌-◌, ◌≤◌, ◌≡◌, refl, ap, Bool, true, false, ◌&&◌, List, [], ◌∷◌, ◌++◌, bytes_eq, Bytes,
  Bool-cases, inl, inr, if◌then◌else◌, All, arith,
}
use swinv.Prelude.Sort.{count_if, count_if-append, count_if-sort_by, any-count_if}
use swinv.Model.Component.{Component, Identity, identity, identity_eq, less}
use swinv.Model.Delta.{
  Change, Delta, Groups, empty_delta, group_by_identity, members, has_group, diff_versions,
  record_difference, change_between, compare_groups, vanished, change_less, compute_delta,
}
use swinv.Model.Delta.Versions.{of_version, count_if-diff_versions, diff_versions-All}
use swinv.Model.Delta.Groups.{
  named, at, Homogeneous, versions_of, versions_of-group, named-group, group-Homogeneous,
  members-Homogeneous, members_none, count_if_at, identity_eq_sound,
}

-- The test for a change of the identity `i` that leads to the version `v`, or away from it.
abbrev pub changed_to : Identity → Bytes → Change → Bool
changed_to i v ch =
    identity_eq i (record { name = ch.name; type' = ch.type' }) && bytes_eq v ch.to_version

abbrev pub changed_from : Identity → Bytes → Change → Bool
changed_from i v ch =
    identity_eq i (record { name = ch.name; type' = ch.type' }) && bytes_eq v ch.from_version

-- How often a delta says that a version has appeared, or has gone.
abbrev pub gained : Identity → Bytes → Delta → ℕ
gained i v d = count_if (at i v) d.added + count_if (changed_to i v) d.changed

abbrev pub lost : Identity → Bytes → Delta → ℕ
lost i v d = count_if (at i v) d.removed + count_if (changed_from i v) d.changed

abbrev pub AllNamed : Identity → List Component → Type 0
AllNamed j = All (λ c. identity_eq j (identity c) ≡ true)

gained-record_difference :
    (i j : Identity) (v : Bytes) (added removed : List Component) (d : Delta)
    → AllNamed j added
    → gained i v (record_difference j added removed d)
      ≡ gained i v d + (if identity_eq i j then count_if (of_version v) added else 0)
unfolding record_difference
gained-record_difference i j v [] removed d h = ground (arith, count_if-append (at i v) d.added [])
gained-record_difference i j v (a ∷ []) [] d h =
    omega (arith, count_if-append (at i v) d.added (a ∷ []), count_if_at i j v (a ∷ []) h)
gained-record_difference i j v (a ∷ []) (r ∷ []) d h =
    let n = count_if-append (changed_to i v) d.changed (change_between j a r ∷ []) in
    ground (arith, n)
gained-record_difference i j v (a ∷ []) (r ∷ s ∷ removed) d h =
    omega (arith, count_if-append (at i v) d.added (a ∷ []), count_if_at i j v (a ∷ []) h)
gained-record_difference i j v (a ∷ b ∷ added) removed d h =
    omega
      (arith, count_if-append (at i v) d.added (a ∷ b ∷ added), count_if_at i j v (a ∷ b ∷ added) h)

lost-record_difference :
    (i j : Identity) (v : Bytes) (added removed : List Component) (d : Delta)
    → AllNamed j removed
    → lost i v (record_difference j added removed d)
      ≡ lost i v d + (if identity_eq i j then count_if (of_version v) removed else 0)
unfolding record_difference
lost-record_difference i j v [] removed d h =
    omega (arith, count_if-append (at i v) d.removed removed, count_if_at i j v removed h)
lost-record_difference i j v (a ∷ []) [] d h = ground (arith, count_if-append (at i v) d.removed [])
lost-record_difference i j v (a ∷ []) (r ∷ []) d h =
    let n = count_if-append (changed_from i v) d.changed (change_between j a r ∷ []) in
    ground (arith, n)
lost-record_difference i j v (a ∷ []) (r ∷ s ∷ removed) d h = omega (
  arith,
  count_if-append (at i v) d.removed (r ∷ s ∷ removed),
  count_if_at i j v (r ∷ s ∷ removed) h,
)
lost-record_difference i j v (a ∷ b ∷ added) removed d h =
    omega (arith, count_if-append (at i v) d.removed removed, count_if_at i j v removed h)

versions_of_none :
    (i : Identity) (v : Bytes) (groups : Groups)
    → has_group i groups ≡ false
    → versions_of i v groups ≡ 0
versions_of_none i v groups none' = ap (count_if (of_version v)) (members_none i groups none')

versions_of_same :
    (i j : Identity) (v : Bytes) (groups : Groups)
    → identity_eq i j ≡ true
    → versions_of i v groups ≡ versions_of j v groups
versions_of_same i j v groups same = ap (λ x. versions_of x v groups) (identity_eq_sound i j same)

gained-compare_groups :
    (i : Identity) (v : Bytes) (baseline groups : Groups) (d : Delta)
    → Homogeneous groups
    → count_if (named i) groups ≤ 1
    → gained i v (compare_groups baseline groups d)
      ≡ gained i v d + (versions_of i v groups - versions_of i v baseline)
unfolding compare_groups members
gained-compare_groups i v baseline [] d h u = omega arith
gained-compare_groups i v baseline ((j, cur) ∷ groups) d (mine, rest) u =
    let base = members j baseline in
    let only = (diff_versions cur base).0 in
    let gone = (diff_versions base cur).0 in
    let one =
      gained-record_difference i j v only gone d
        (diff_versions-All (λ c. identity_eq j (identity c) ≡ true) cur base mine) in
    let n = count_if-diff_versions v cur base in
    elim (Bool-cases (identity_eq i j)) [
      | inl same ↦
          let none' : has_group i groups ≡ false = any-count_if (named i) groups (ground arith) in
          let later =
            gained-compare_groups i v baseline groups (record_difference j only gone d) rest
              (ground arith) in
          let empty = versions_of_none i v groups none' in
          let e = versions_of_same i j v baseline same in
          rw (same, later, one, same) (omega (arith, empty, e, n))
      | inr other ↦
          let later =
            gained-compare_groups i v baseline groups (record_difference j only gone d) rest
              (ground arith) in
          rw (other, later, one, other) (omega arith)
    ]

-- The first loop counts nothing as lost under an identity that the current scan does not have.
lost-compare_groups :
    (i : Identity) (v : Bytes) (baseline groups : Groups) (d : Delta)
    → Homogeneous baseline
    → count_if (named i) groups ≤ 1
    → lost i v (compare_groups baseline groups d)
      ≡ lost i v d
        + (if has_group i groups then versions_of i v baseline - versions_of i v groups else 0)
unfolding compare_groups members
lost-compare_groups i v baseline [] d h u = omega arith
lost-compare_groups i v baseline ((j, cur) ∷ groups) d h u =
    let base = members j baseline in
    let only = (diff_versions cur base).0 in
    let gone = (diff_versions base cur).0 in
    let one = lost-record_difference i j v only gone d (
      diff_versions-All (λ c. identity_eq j (identity c) ≡ true) base cur
        (members-Homogeneous j baseline h)) in
    let n = count_if-diff_versions v base cur in
    elim (Bool-cases (identity_eq i j)) [
      | inl same ↦
          let none' : has_group i groups ≡ false = any-count_if (named i) groups (ground arith) in
          let later =
            lost-compare_groups i v baseline groups (record_difference j only gone d) h
              (ground arith) in
          let e = versions_of_same i j v baseline same in
          rw (same, later, one, same, none') (omega (arith, e, n))
      | inr other ↦
          let later =
            lost-compare_groups i v baseline groups (record_difference j only gone d) h
              (ground arith) in
          rw (other, later, one, other) (omega arith)
    ]

measure_if :
    (f : Delta → ℕ) (b : Bool) (x y : Delta) → f (if b then x else y) ≡ (if b then f x else f y)
measure_if f true x y = refl
measure_if f false x y = refl

gained-vanished :
    (i : Identity) (v : Bytes) (current groups : Groups) (d : Delta)
    → gained i v (vanished current groups d) ≡ gained i v d
unfolding vanished
gained-vanished i v current [] d = refl
gained-vanished i v current ((j, base) ∷ groups) d =
    let d' = record d { removed = d.removed ++ base } in
    let later = gained-vanished i v current groups (if has_group j current then d else d') in
    let one = measure_if (gained i v) (has_group j current) d d' in ground (arith, later, one)

lost-vanished :
    (i : Identity) (v : Bytes) (current groups : Groups) (d : Delta)
    → Homogeneous groups
    → count_if (named i) groups ≤ 1
    → lost i v (vanished current groups d)
      ≡ lost i v d + (if has_group i current then 0 else versions_of i v groups)
unfolding vanished members
lost-vanished i v current [] d h u = ground arith
lost-vanished i v current ((j, base) ∷ groups) d (mine, rest) u =
    let d' = record d { removed = d.removed ++ base } in
    let n = count_if-append (at i v) d.removed base in
    let m = count_if_at i j v base mine in
    let later =
      lost-vanished i v current groups (if has_group j current then d else d') rest
        (ground arith) in
    let one = measure_if (lost i v) (has_group j current) d d' in
    elim (Bool-cases (identity_eq i j)) [
      | inl same ↦
          let none' : has_group i groups ≡ false = any-count_if (named i) groups (ground arith) in
          let empty = versions_of_none i v groups none' in
          let e : has_group i current ≡ has_group j current =
            ap (λ x. has_group x current) (identity_eq_sound i j same) in
          ground (arith, later, one, n, m, same, empty, e)
      | inr other ↦ ground (arith, later, one, n, m, other)
    ]

-- The delta says of each version under each identity that as many have appeared as the current
-- inventory has more than the baseline, and that as many have gone as it has fewer.
pub compute_delta_difference :
    (i : Identity) (v : Bytes) (current baseline : List Component)
    → (gained i v (compute_delta current baseline)
        ≡ count_if (at i v) current - count_if (at i v) baseline)
      × (lost i v (compute_delta current baseline)
          ≡ count_if (at i v) baseline - count_if (at i v) current)
unfolding compute_delta
compute_delta_difference i v current baseline =
    let cur = group_by_identity current in
    let base = group_by_identity baseline in
    let first = compare_groups base cur empty_delta in
    let d = vanished cur base first in
    let sorted_added = count_if-sort_by less (at i v) d.added in
    let sorted_removed = count_if-sort_by less (at i v) d.removed in
    let sorted_to = count_if-sort_by change_less (changed_to i v) d.changed in
    let sorted_from = count_if-sort_by change_less (changed_from i v) d.changed in
    let nc = versions_of-group i v current in
    let nb = versions_of-group i v baseline in
    let g1 =
      gained-compare_groups i v base cur empty_delta (group-Homogeneous current)
        (named-group i current) in
    let g2 = gained-vanished i v cur base first in
    let l1 =
      lost-compare_groups i v base cur empty_delta (group-Homogeneous baseline)
        (named-group i current) in
    let l2 =
      lost-vanished i v cur base first (group-Homogeneous baseline) (named-group i baseline) in
    let none' = versions_of_none i v cur in
    (
      omega (arith, sorted_added, sorted_to, nc, nb, g1, g2),
      ground (arith, sorted_removed, sorted_from, nc, nb, l1, l2, none'),
    )
