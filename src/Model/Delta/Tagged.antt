-- ===== src/Model/Delta/Tagged.antt =====
-- internal/model/model.go: when a delta is empty, and what `Tag` and `DeltaComponents` mark.
use swinv.Prelude.{
  ℕ, ◌-◌, ◌≡◌, ◌↔◌, refl, sym, ap, ◌∙◌, Bool, true, false, not, ◌&&◌, ◌||◌, List, [], ◌∷◌, ◌++◌,
  some, bytes_eq, bytes_eq_refl, bytes_eq_iff, Bytes, Bool-cases, inl, inr, if◌then◌else◌, All,
  arith, codes, map, is_empty, is_empty_nil, leb,
}
use swinv.Prelude.Sort.{
  any, count_if, count_if-append, count_if-sort_by, any-count_if, count_if-any,
}
use swinv.Model.Component.{Component, Identity, identity, identity_eq, less}
use swinv.Model.Delta.{Change, Delta, compute_delta, is_empty_delta}
use swinv.Model.Delta.Tag.{
  Versioned, versioned, versioned_to, versioned_eq, Writes, latest, write_added, write_changed,
  tag_one, write_components, labelled, component_of, changed_component, delta_components,
}
use swinv.Model.Delta.Groups.{at, identity_eq_refl, identity_eq_sound}
use swinv.Model.Delta.Difference.{changed_to, changed_from, compute_delta_difference}

at_self : (c : Component) → at (identity c) c.version c ≡ true
at_self c = rw (identity_eq_refl (identity c), bytes_eq_refl c.version) refl

count_if_zero :
    (cs : List Component)
    → ((i : Identity) (v : Bytes) → count_if (at i v) cs ≡ 0)
    → is_empty cs ≡ true
count_if_zero [] h = refl
count_if_zero (c ∷ cs) h = absurd (ground (arith, h (identity c) c.version, at_self c))

changed_to_zero :
    (chs : List Change)
    → ((i : Identity) (v : Bytes) → count_if (changed_to i v) chs ≡ 0)
    → is_empty chs ≡ true
changed_to_zero [] h = refl
changed_to_zero (ch ∷ chs) h =
    let i : Identity = record { name = ch.name; type' = ch.type' } in
    absurd (ground (arith, h i ch.to_version, identity_eq_refl i, bytes_eq_refl ch.to_version))

-- The delta of two inventories is empty exactly when they have every version under every identity
-- equally often.
pub is_empty_delta_iff :
    (current baseline : List Component)
    → (is_empty_delta (some (compute_delta current baseline)) ≡ true)
      ↔ ((i : Identity) (v : Bytes) → count_if (at i v) current ≡ count_if (at i v) baseline)
unfolding is_empty_delta
is_empty_delta_iff current baseline = (same, none')
  where
    same :
        is_empty_delta (some (compute_delta current baseline)) ≡ true
        → (i : Identity) (v : Bytes) → count_if (at i v) current ≡ count_if (at i v) baseline
    same h i v =
        let d = compute_delta current baseline in
        let (g, l) = compute_delta_difference i v current baseline in
        let a : is_empty d.added ≡ true = ground arith in
        let r : is_empty d.removed ≡ true = ground arith in
        let c : is_empty d.changed ≡ true = ground arith in
        let na : count_if (at i v) d.added ≡ 0 = ap (count_if (at i v)) (is_empty_nil d.added a) in
        let nr : count_if (at i v) d.removed ≡ 0 =
          ap (count_if (at i v)) (is_empty_nil d.removed r) in
        let nt : count_if (changed_to i v) d.changed ≡ 0 =
          ap (count_if (changed_to i v)) (is_empty_nil d.changed c) in
        let nf : count_if (changed_from i v) d.changed ≡ 0 =
          ap (count_if (changed_from i v)) (is_empty_nil d.changed c) in
        omega (arith, g, l, na, nr, nt, nf)

    none' :
        ((i : Identity) (v : Bytes) → count_if (at i v) current ≡ count_if (at i v) baseline)
        → is_empty_delta (some (compute_delta current baseline)) ≡ true
    none' h =
        let d = compute_delta current baseline in
        let a = count_if_zero d.added (λ i v.
          let (g, l) = compute_delta_difference i v current baseline in omega (arith, g, h i v)) in
        let r = count_if_zero d.removed (λ i v.
          let (g, l) = compute_delta_difference i v current baseline in omega (arith, l, h i v)) in
        let c = changed_to_zero d.changed (λ i v.
          let (g, l) = compute_delta_difference i v current baseline in omega (arith, g, h i v)) in
        rw (a, r, c) refl

latest-write_added :
    (k : Versioned) (kind : Writes Bytes) (cs : List Component)
    → latest k (write_added kind cs)
      ≡ (if any (at k.id k.version) cs then some (codes "added") else latest k kind)
unfolding latest write_added versioned_eq
latest-write_added k kind [] = refl
latest-write_added k kind (c ∷ cs) =
    ground (arith, latest-write_added k ((versioned c, codes "added") ∷ kind) cs)

latest-write_changed :
    (k : Versioned) (kind : Writes Bytes) (chs : List Change)
    → latest k (write_changed kind chs)
      ≡ (if any (changed_to k.id k.version) chs then some (codes "changed") else latest k kind)
unfolding latest write_changed versioned_eq
latest-write_changed k kind [] = refl
latest-write_changed k kind (ch ∷ chs) =
    ground (arith, latest-write_changed k ((versioned_to ch, codes "changed") ∷ kind) chs)

-- What `Tag` writes, from the delta's two lists.
abbrev kind_of : Component → Delta → Bytes
kind_of c d =
    if any (changed_to (identity c) c.version) d.changed
    then codes "changed"
    else if any (at (identity c) c.version) d.added
    then codes "added"
    else c.change

tag_one_change : (d : Delta) (c : Component) → (tag_one d c).change ≡ kind_of c d
unfolding tag_one
tag_one_change d c =
    let w = latest-write_changed (versioned c) (write_added [] d.added) d.changed in
    let a = latest-write_added (versioned c) [] d.added in
    rw (w, a)
      (elim (Bool-cases (any (changed_to (identity c) c.version) d.changed)) [
        | inl moved ↦ rw moved refl
        | inr still ↦ elim (Bool-cases (any (at (identity c) c.version) d.added)) [
          | inl new ↦ rw (still, new) refl
          | inr old ↦ rw (still, old) refl
        ]
      ])

is_empty_kind :
    (moved new : Bool) (mark : Bytes)
    → mark ≡ []
    → is_empty (if moved then codes "changed" else if new then codes "added" else mark)
      ≡ not (moved || new)
is_empty_kind true new mark h = refl
is_empty_kind false true mark h = refl
is_empty_kind false false mark h = rw h refl

-- A component without a mark keeps none from `Tag` exactly when the current inventory has its version
-- under its identity at most as often as the baseline.
pub tag_unmarked :
    (current baseline : List Component) (c : Component)
    → c.change ≡ []
    → is_empty (tag_one (compute_delta current baseline) c).change
      ≡ leb
          (count_if (at (identity c) c.version) current)
          (count_if (at (identity c) c.version) baseline)
tag_unmarked current baseline c h =
    let d = compute_delta current baseline in
    let (g, l) = compute_delta_difference (identity c) c.version current baseline in
    let ca = count_if-any (changed_to (identity c) c.version) d.changed in
    let aa = count_if-any (at (identity c) c.version) d.added in
    let ac = any-count_if (changed_to (identity c) c.version) d.changed in
    let aa' = any-count_if (at (identity c) c.version) d.added in
    ap is_empty (tag_one_change d c)
    ∙ is_empty_kind (any (changed_to (identity c) c.version) d.changed)
        (any (at (identity c) c.version) d.added) c.change h
    ∙ ground (arith, g, ca, aa, ac, aa')

versioned_eq_sound : (a b : Versioned) → versioned_eq a b ≡ true → a ≡ b
unfolding versioned_eq
versioned_eq_sound a b h =
    let n : identity_eq a.id b.id ≡ true = ground arith in
    let w : bytes_eq a.version b.version ≡ true = ground arith in
    λ k. record {
      id = identity_eq_sound a.id b.id n k;
      version = (bytes_eq_iff a.version b.version).0 w k;
    }

-- The components of a map of writes stand under what they are.
abbrev IsIndexed : Writes Component → Type 0
IsIndexed = All (λ e. e.0 ≡ versioned e.1)

write_components-IsIndexed :
    (m : Writes Component) (cs : List Component) → IsIndexed m → IsIndexed (write_components m cs)
unfolding write_components
write_components-IsIndexed m [] h = h
write_components-IsIndexed m (c ∷ cs) h =
    write_components-IsIndexed ((versioned c, c) ∷ m) cs (refl, h)

at_component_of :
    (i : Identity) (v : Bytes) (m : Writes Component) (ch : Change)
    → IsIndexed m
    → at i v (component_of (latest (versioned_to ch) m) ch) ≡ changed_to i v ch
unfolding latest
at_component_of i v [] ch h = refl
at_component_of i v ((k, c) ∷ m) ch (e, h) = elim (Bool-cases (versioned_eq (versioned_to ch) k)) [
  | inl same ↦ rw same (
      sym (
        ap (λ w. identity_eq i w.id && bytes_eq v w.version)
          (versioned_eq_sound (versioned_to ch) k same ∙ e)))
  | inr other ↦ rw other (at_component_of i v m ch h)
]

abbrev pub is_removed : Component → Bool
is_removed c = bytes_eq c.change (codes "removed")

-- The entries of a version that `DeltaComponents` does not mark as removed.
abbrev pub present : Identity → Bytes → List Component → ℕ
present i v cs = count_if (λ c. at i v c && not (is_removed c)) cs

present-added :
    (i : Identity) (v : Bytes) (cs : List Component)
    → present i v (map (labelled (codes "added")) cs) ≡ count_if (at i v) cs
unfolding bytes_eq
present-added i v [] = refl
present-added i v (c ∷ cs) = ground (arith, present-added i v cs)

present-removed :
    (i : Identity) (v : Bytes) (cs : List Component)
    → present i v (map (labelled (codes "removed")) cs) ≡ 0
unfolding bytes_eq
present-removed i v [] = refl
present-removed i v (c ∷ cs) = ground (arith, present-removed i v cs)

present-changed :
    (i : Identity) (v : Bytes) (m : Writes Component) (chs : List Change)
    → IsIndexed m
    → present i v (map (changed_component m) chs) ≡ count_if (changed_to i v) chs
unfolding bytes_eq changed_component
present-changed i v m [] h = refl
present-changed i v m (ch ∷ chs) h =
    ground (arith, present-changed i v m chs h, at_component_of i v m ch h)

-- The entries of `DeltaComponents` under a version that are not marked as removed are as many as the
-- current inventory has more of it than the baseline.
pub delta_components_present :
    (i : Identity) (v : Bytes) (current baseline : List Component)
    → present i v (delta_components (some (compute_delta current baseline)) current)
      ≡ count_if (at i v) current - count_if (at i v) baseline
unfolding delta_components
delta_components_present i v current baseline =
    let d = compute_delta current baseline in
    let m = write_components [] current in
    let p : Component → Bool = λ c. at i v c && not (is_removed c) in
    let added = map (labelled (codes "added")) d.added in
    let removed = map (labelled (codes "removed")) d.removed in
    let changed = map (changed_component m) d.changed in
    let (g, l) = compute_delta_difference i v current baseline in
    omega (
      arith,
      g,
      count_if-sort_by less p (added ++ (removed ++ changed)),
      count_if-append p added (removed ++ changed),
      count_if-append p removed changed,
      present-added i v d.added,
      present-removed i v d.removed,
      present-changed i v m d.changed (write_components-IsIndexed [] current tt),
    )
