-- ===== src/Model/Delta/Groups.antt =====
-- internal/model/model.go: what the groups of `groupByIdentity` hold.
use swinv.Prelude.{
  ℕ, ◌+◌, ◌≤◌, ◌≡◌, refl, sym, ap, ◌∙◌, Bool, true, false, not, ◌&&◌, List, [], ◌∷◌, bytes_eq,
  bytes_eq_iff, bytes_eq_refl, Bytes, Bool-cases, inl, inr, if◌then◌else◌, All, All-append, All-map,
  arith,
}
use swinv.Prelude.Sort.{count_if, count_if-append, count_if-any}
use swinv.Model.Component.{Component, Identity, identity, identity_eq}
use swinv.Model.Delta.{Groups, add_to_group, group_onto, group_by_identity, members, has_group}
use swinv.Model.Delta.Versions.{of_version}

pub identity_eq_refl : (i : Identity) → identity_eq i i ≡ true
unfolding identity_eq
identity_eq_refl i = rw (bytes_eq_refl i.name, bytes_eq_refl i.type') refl

pub identity_eq_sound : (a b : Identity) → identity_eq a b ≡ true → a ≡ b
unfolding identity_eq
identity_eq_sound a b h =
    let n : bytes_eq a.name b.name ≡ true = ground arith in
    let t : bytes_eq a.type' b.type' ≡ true = ground arith in
    λ k. record {
      name = (bytes_eq_iff a.name b.name).0 n k;
      type' = (bytes_eq_iff a.type' b.type').0 t k;
    }

-- Whoever equals `j` equals `k` or not as `j` does.
pub identity_eq_via :
    (i j k : Identity) → identity_eq j k ≡ true → identity_eq i j ≡ identity_eq i k
identity_eq_via i j k same = ap (identity_eq i) (identity_eq_sound j k same)

pub identity_eq_apart :
    (i j k : Identity) → identity_eq i k ≡ true → identity_eq j k ≡ false → identity_eq i j ≡ false
identity_eq_apart i j k same apart = elim (Bool-cases (identity_eq i j)) [
  | inl both ↦ absurd (cc (same, apart, ap (λ x. identity_eq x k) (identity_eq_sound i j both)))
  | inr off ↦ off
]

-- The test for a component of the identity `i` and the version `v`.
abbrev pub at : Identity → Bytes → Component → Bool
at i v c = identity_eq i (identity c) && of_version v c

abbrev pub named : {A : Type 0} → Identity → Identity × A → Bool
named i g = identity_eq i g.0

abbrev pub Homogeneous : Groups → Type 0
Homogeneous = All (λ g. All (λ c. identity_eq g.0 (identity c) ≡ true) g.1)

-- The versions under an identity.
abbrev pub versions_of : Identity → Bytes → Groups → ℕ
versions_of i v groups = count_if (of_version v) (members i groups)

versions_of-add_to_group :
    (i : Identity) (v : Bytes) (groups : Groups) (c : Component)
    → versions_of i v (add_to_group groups c) ≡ versions_of i v groups + (if at i v c then 1 else 0)
unfolding add_to_group members
versions_of-add_to_group i v [] c = ground arith
versions_of-add_to_group i v ((j, cs) ∷ groups) c = elim (Bool-cases (identity_eq (identity c) j)) [
  | inl same ↦ elim (Bool-cases (identity_eq i j)) [
    | inl mine ↦
        rw
          (
            same,
            identity_eq_via i (identity c) j same,
            mine,
            count_if-append (of_version v) cs (c ∷ []),
          )
          (omega arith)
    | inr other ↦ rw (same, identity_eq_via i (identity c) j same, other) (omega arith)
  ]
  | inr apart ↦ elim (Bool-cases (identity_eq i j)) [
    | inl mine ↦ rw (apart, mine, identity_eq_apart i (identity c) j mine apart) (omega arith)
    | inr other ↦ rw (apart, other) (versions_of-add_to_group i v groups c)
  ]
]

named-add_to_group :
    (i : Identity) (groups : Groups) (c : Component)
    → count_if (named i) (add_to_group groups c)
      ≡ count_if (named i) groups
        + (if identity_eq i (identity c) && not (has_group i groups) then 1 else 0)
unfolding add_to_group
named-add_to_group i [] c = ground arith
named-add_to_group i ((j, cs) ∷ groups) c = elim (Bool-cases (identity_eq (identity c) j)) [
  | inl same ↦ rw (same, identity_eq_via i (identity c) j same) (ground arith)
  | inr apart ↦ elim (Bool-cases (identity_eq i j)) [
    | inl mine ↦
        rw
          (
            apart,
            mine,
            named-add_to_group i groups c,
            identity_eq_apart i (identity c) j mine apart,
          )
          (omega arith)
    | inr other ↦ rw (apart, other, named-add_to_group i groups c) (omega arith)
  ]
]

add_to_group-Homogeneous :
    (groups : Groups) (c : Component) → Homogeneous groups → Homogeneous (add_to_group groups c)
unfolding add_to_group
add_to_group-Homogeneous [] c h = ((identity_eq_refl (identity c), tt), tt)
add_to_group-Homogeneous ((j, cs) ∷ groups) c (mine, rest) =
    elim (Bool-cases (identity_eq (identity c) j)) [
      | inl same ↦
          let e : identity_eq j (identity c) ≡ true =
            identity_eq_via j (identity c) j same ∙ identity_eq_refl j in
          rw same
            (All-append (λ d. identity_eq j (identity d) ≡ true) cs (c ∷ []) mine (e, tt), rest)
      | inr apart ↦ rw apart (mine, add_to_group-Homogeneous groups c rest)
    ]

versions_of-group_onto :
    (i : Identity) (v : Bytes) (groups : Groups) (cs : List Component)
    → versions_of i v (group_onto groups cs) ≡ versions_of i v groups + count_if (at i v) cs
unfolding group_onto
versions_of-group_onto i v groups [] = omega arith
versions_of-group_onto i v groups (c ∷ cs) =
    let later = versions_of-group_onto i v (add_to_group groups c) cs in
    let one = versions_of-add_to_group i v groups c in omega (arith, later, one)

named-group_onto :
    (i : Identity) (groups : Groups) (cs : List Component)
    → count_if (named i) groups ≤ 1
    → count_if (named i) (group_onto groups cs) ≤ 1
unfolding group_onto
named-group_onto i groups [] h = h
named-group_onto i groups (c ∷ cs) h =
    let one = named-add_to_group i groups c in
    named-group_onto i (add_to_group groups c) cs
      (ground (arith, one, h, count_if-any (named i) groups))

group_onto-Homogeneous :
    (groups : Groups) (cs : List Component)
    → Homogeneous groups
    → Homogeneous (group_onto groups cs)
unfolding group_onto
group_onto-Homogeneous groups [] h = h
group_onto-Homogeneous groups (c ∷ cs) h =
    group_onto-Homogeneous (add_to_group groups c) cs (add_to_group-Homogeneous groups c h)

-- The group of an identity has the components of the input with that identity.
pub versions_of-group :
    (i : Identity) (v : Bytes) (cs : List Component)
    → versions_of i v (group_by_identity cs) ≡ count_if (at i v) cs
unfolding group_by_identity members
versions_of-group i v cs = omega (arith, versions_of-group_onto i v [] cs)

pub named-group :
    (i : Identity) (cs : List Component) → count_if (named i) (group_by_identity cs) ≤ 1
unfolding group_by_identity
named-group i cs = named-group_onto i [] cs (omega arith)

pub group-Homogeneous : (cs : List Component) → Homogeneous (group_by_identity cs)
unfolding group_by_identity
group-Homogeneous cs = group_onto-Homogeneous [] cs tt

pub members-Homogeneous :
    (i : Identity) (groups : Groups)
    → Homogeneous groups
    → All (λ c. identity_eq i (identity c) ≡ true) (members i groups)
unfolding members
members-Homogeneous i [] h = tt
members-Homogeneous i ((j, cs) ∷ groups) (mine, rest) = elim (Bool-cases (identity_eq i j)) [
  | inl same ↦ rw same (
      All-map (λ c. identity_eq j (identity c) ≡ true) (λ c. identity_eq i (identity c) ≡ true)
        (λ c e. sym (identity_eq_via i j (identity c) e) ∙ same) cs mine)
  | inr other ↦ rw other (members-Homogeneous i groups rest)
]

pub members_none :
    (i : Identity) (groups : Groups) → has_group i groups ≡ false → members i groups ≡ []
unfolding members
members_none i [] h = refl
members_none i ((j, cs) ∷ groups) h = elim (Bool-cases (identity_eq i j)) [
  | inl same ↦ absurd (cc (h, same))
  | inr other ↦ rw other (members_none i groups (rw other at h))
]

-- Among components of one identity only the version decides.
pub count_if_at :
    (i j : Identity) (v : Bytes) (cs : List Component)
    → All (λ c. identity_eq j (identity c) ≡ true) cs
    → count_if (at i v) cs ≡ (if identity_eq i j then count_if (of_version v) cs else 0)
count_if_at i j v [] h = ground arith
count_if_at i j v (c ∷ cs) (e, h) =
    rw (sym (identity_eq_via i j (identity c) e), count_if_at i j v cs h) (ground arith)
