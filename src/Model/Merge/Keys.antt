-- ===== src/Model/Merge/Keys.antt =====
-- internal/model/model.go: the keys of what `Normalize` returns.
use mathlib.Core.Option
use swinv.Prelude.{
  ◌+◌, not, ◌≡◌, refl, ap, ◌∙◌, Bool, true, false, ◌&&◌, ◌||◌, List, [], ◌∷◌, Option, none, some,
  bytes_eq, bytes_eq_iff, bytes_eq_refl, Bool-cases, inl, inr, if◌then◌else◌, map, arith, ◌≤◌,
}
use swinv.Prelude.Sort.{
  any, count_if, count_if-sort_by, any-count_if, count_if-any, IsSorted, sort_by-IsSorted,
  first_with, first_with-sort_by,
}
use swinv.Model.Component.{Component, Key, key, key_eq, less}
use swinv.Model.Order.{less_asym}
use swinv.Model.Merge.{absorb, merge_in, merge_all, with_sets, normalize}

pub key_eq_refl : (k : Key) → key_eq k k ≡ true
unfolding key_eq
key_eq_refl k =
    rw
      (
        bytes_eq_refl k.name,
        bytes_eq_refl k.version,
        bytes_eq_refl k.type',
        bytes_eq_refl k.purl,
        bytes_eq_refl k.root,
      )
      refl

pub key_eq_sound : (a b : Key) → key_eq a b ≡ true → a ≡ b
unfolding key_eq
key_eq_sound a b h =
    let n : bytes_eq a.name b.name ≡ true = ground arith in
    let v : bytes_eq a.version b.version ≡ true = ground arith in
    let t : bytes_eq a.type' b.type' ≡ true = ground arith in
    let p : bytes_eq a.purl b.purl ≡ true = ground arith in
    let r : bytes_eq a.root b.root ≡ true = ground arith in
    λ i. record {
      name = (bytes_eq_iff a.name b.name).0 n i;
      version = (bytes_eq_iff a.version b.version).0 v i;
      type' = (bytes_eq_iff a.type' b.type').0 t i;
      purl = (bytes_eq_iff a.purl b.purl).0 p i;
      root = (bytes_eq_iff a.root b.root).0 r i;
    }

-- The test for a component with the key `k`.
abbrev pub keyed : Key → Component → Bool
keyed k d = key_eq k (key d)

-- What a component is merged onto, if anything.
abbrev pub onto : Option Component → Component → Component
onto none c = c
onto (some d) c = absorb d c

-- The components of the key `k`, merged one by one in their order.
unfoldable pub gathered : Key → Option Component → List Component → Option Component
unfolding absorb key_eq
gathered k acc [] = acc
gathered k acc (c ∷ cs) = gathered k (if keyed k c then some (onto acc c) else acc) cs

key-absorb : (a c : Component) → key (absorb a c) ≡ key a
unfolding absorb
key-absorb a c = refl

keyed_at : (k : Key) (x c : Component) → key_eq (key c) (key x) ≡ true → keyed k c ≡ keyed k x
keyed_at k x c same = ap (key_eq k) (key_eq_sound (key c) (key x) same)

keyed_apart :
    (k : Key) (x c : Component)
    → key_eq (key c) (key x) ≡ false
    → keyed k x ≡ true
    → keyed k c ≡ false
keyed_apart k x c apart mine = elim (Bool-cases (keyed k c)) [
  | inl same ↦ absurd (cc (mine, apart, ap (λ j. key_eq j (key x)) (key_eq_sound k (key c) same)))
  | inr off ↦ off
]

any-merge_in :
    (k : Key) (xs : List Component) (c : Component)
    → any (keyed k) (merge_in xs c) ≡ (any (keyed k) xs || keyed k c)
unfolding merge_in absorb
any-merge_in k [] c = ground arith
any-merge_in k (x ∷ xs) c = elim (Bool-cases (key_eq (key c) (key x))) [
  | inl same ↦ rw (same, keyed_at k x c same) (ground arith)
  | inr apart ↦ rw (apart, any-merge_in k xs c) (ground arith)
]

count_if-merge_in :
    (k : Key) (xs : List Component) (c : Component)
    → count_if (keyed k) (merge_in xs c)
      ≡ (if keyed k c && not (any (keyed k) xs) then 1 else 0) + count_if (keyed k) xs
unfolding merge_in absorb
count_if-merge_in k [] c = ground arith
count_if-merge_in k (x ∷ xs) c = elim (Bool-cases (key_eq (key c) (key x))) [
  | inl same ↦ rw (same, keyed_at k x c same) (ground arith)
  | inr apart ↦ elim (Bool-cases (keyed k x)) [
    | inr other ↦ rw (apart, other, count_if-merge_in k xs c) (omega arith)
    | inl mine ↦
        rw (apart, mine, count_if-merge_in k xs c, keyed_apart k x c apart mine) (omega arith)
  ]
]

-- What `merge_in` does to the component that is found under a key.
first_with-merge_in :
    (k : Key) (xs : List Component) (c : Component)
    → first_with (keyed k) (merge_in xs c)
      ≡ (if keyed k c then some (onto (first_with (keyed k) xs) c) else first_with (keyed k) xs)
unfolding merge_in absorb
first_with-merge_in k [] c = refl
first_with-merge_in k (x ∷ xs) c = elim (Bool-cases (key_eq (key c) (key x))) [
  | inl same ↦ elim (Bool-cases (keyed k x)) [
    | inl mine ↦ rw (same, keyed_at k x c same, mine) refl
    | inr other ↦ rw (same, keyed_at k x c same, other) refl
  ]
  | inr apart ↦ elim (Bool-cases (keyed k x)) [
    | inl mine ↦ rw (apart, mine, keyed_apart k x c apart mine) refl
    | inr other ↦ rw (apart, other) (first_with-merge_in k xs c)
  ]
]

first_with-merge_all :
    (k : Key) (xs cs : List Component)
    → first_with (keyed k) (merge_all xs cs) ≡ gathered k (first_with (keyed k) xs) cs
unfolding merge_all gathered
first_with-merge_all k xs [] = refl
first_with-merge_all k xs (c ∷ cs) =
    first_with-merge_all k (merge_in xs c) cs
    ∙ ap (λ o. gathered k o cs) (first_with-merge_in k xs c)

count_if-merge_all :
    (k : Key) (xs cs : List Component)
    → count_if (keyed k) xs ≤ 1
    → count_if (keyed k) (merge_all xs cs) ≡ (if any (keyed k) xs || any (keyed k) cs then 1 else 0)
unfolding merge_all
count_if-merge_all k xs [] h = ground (arith, any-count_if (keyed k) xs, count_if-any (keyed k) xs)
count_if-merge_all k xs (c ∷ cs) h =
    let n = count_if-merge_in k xs c in
    let a = any-merge_in k xs c in
    let step = count_if-merge_all k (merge_in xs c) cs in
    ground (arith, n, a, step, count_if-any (keyed k) xs)

count_if-map-with_sets :
    (k : Key) (cs : List Component) → count_if (keyed k) (map with_sets cs) ≡ count_if (keyed k) cs
unfolding with_sets
count_if-map-with_sets k [] = refl
count_if-map-with_sets k (c ∷ cs) =
    ap (◌+◌ (if keyed k c then 1 else 0)) (count_if-map-with_sets k cs)

-- Of the components that `Normalize` returns, exactly one has a given key if some component of the
-- input has it, and none has it otherwise.
pub count_if-normalize :
    (k : Key) (cs : List Component)
    → count_if (keyed k) (normalize cs) ≡ (if any (keyed k) cs then 1 else 0)
unfolding normalize
count_if-normalize k cs =
    count_if-sort_by less (keyed k) (map with_sets (merge_all [] cs))
    ∙ count_if-map-with_sets k (merge_all [] cs)
    ∙ count_if-merge_all k [] cs (omega arith)

first_with-map-with_sets :
    (k : Key) (cs : List Component)
    → first_with (keyed k) (map with_sets cs) ≡ Option.map with_sets (first_with (keyed k) cs)
unfolding with_sets
first_with-map-with_sets k [] = refl
first_with-map-with_sets k (c ∷ cs) = elim (Bool-cases (keyed k c)) [
  | inl mine ↦ rw mine refl
  | inr other ↦ rw other (first_with-map-with_sets k cs)
]

-- The component that `Normalize` returns under a key is the input's components of that key, merged
-- one by one in the input's order, with its three lists made sets.
pub first_with-normalize :
    (k : Key) (cs : List Component)
    → first_with (keyed k) (normalize cs) ≡ Option.map with_sets (gathered k none cs)
unfolding normalize
first_with-normalize k cs =
    first_with-sort_by less (keyed k) (map with_sets (merge_all [] cs)) (at_most_one k cs)
    ∙ first_with-map-with_sets k (merge_all [] cs)
    ∙ ap (Option.map with_sets) (first_with-merge_all k [] cs)
  where
    at_most_one :
        (k : Key) (cs : List Component) → count_if (keyed k) (map with_sets (merge_all [] cs)) ≤ 1
    at_most_one k cs =
        let n = count_if-map-with_sets k (merge_all [] cs) in
        let m = count_if-merge_all k [] cs (omega arith) in ground (arith, n, m)

-- What `Normalize` returns is in the order of `Less`.
pub normalize-IsSorted : (cs : List Component) → IsSorted less (normalize cs)
unfolding normalize
normalize-IsSorted cs = sort_by-IsSorted less less_asym (map with_sets (merge_all [] cs))
