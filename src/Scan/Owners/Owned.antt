-- ===== src/Scan/Owners/Owned.antt =====
-- internal/scan/fileowners.go: which owners are reported for a path.
use swinv.Prelude.{
  codes, Option, none, some, ℕ, ◌+◌, ◌≤◌, ◌≡◌, refl, ap, ◌∙◌, Bool, true, false, not, ◌||◌, ◌&&◌,
  List, [], ◌∷◌, ◌++◌, Bytes, bytes_eq, bytes_eq_iff, if◌then◌else◌, is_empty, is_empty_nil,
  Bool-cases, inl, inr, arith, get_elem?,
}
use swinv.Prelude.Table.{Table, find, set}
use swinv.Prelude.Sort.{any, count_if, count_if-any, any-count_if, sort_strings, sort_by}
use swinv.Model.Sets.{member, member-append, member-sorted_set, sorted_set, distinct_onto}
use swinv.Model.Component.{Component, identify}
use swinv.Scan.Owners.{
  Paths, list_at, append_at, probe_set, expand_probe_symlinks, add_hits, resolve_owners, all_owners,
  host_identity, identities, finalize_owners, compared,
}
use swinv.Scan.Owners.Hits.{owns, any-all_owners, answers}
use swinv.Scan.Owners.Expanded.{asks_by, member-expanded_probe}

abbrev keyed_by : {A : Type 0} → Bytes → Bytes × A → Bool
keyed_by k e = bytes_eq k e.0

-- Each key stands once.
abbrev HasKeysOnce : {A : Type 0} → Table A → Type 0
HasKeysOnce m = (k : Bytes) → count_if (keyed_by k) m ≤ 1

count_if-set :
    {A : Type 0} (k j : Bytes) (v : A) (m : Table A)
    → count_if (keyed_by k) (set j v m)
      ≡ (if bytes_eq k j && not (any (keyed_by k) m) then 1 else 0) + count_if (keyed_by k) m
unfolding set
count_if-set k j v [] = ground arith
count_if-set k j v ((i, w) ∷ m) = elim (Bool-cases (bytes_eq j i)) [
  | inl same ↦
      let e : bytes_eq k j ≡ bytes_eq k i = ap (bytes_eq k) ((bytes_eq_iff j i).0 same) in
      rw (same, e) (ground arith)
  | inr apart ↦ elim (Bool-cases (bytes_eq k i)) [
    | inl mine ↦ rw (apart, mine, count_if-set k j v m, differs k j i mine apart) (omega arith)
    | inr other ↦ rw (apart, other, count_if-set k j v m) (omega arith)
  ]
]
  where
    differs : (k a b : Bytes) → bytes_eq k b ≡ true → bytes_eq a b ≡ false → bytes_eq k a ≡ false
    differs k a b same apart = elim (Bool-cases (bytes_eq k a)) [
      | inl both ↦ absurd (cc (same, apart, ap (λ x. bytes_eq x b) ((bytes_eq_iff k a).0 both)))
      | inr off ↦ off
    ]

append_at-HasKeysOnce :
    {A : Type 0} (j : Bytes) (xs : List A) (m : Table (List A))
    → HasKeysOnce m
    → HasKeysOnce (append_at j xs m)
unfolding append_at
append_at-HasKeysOnce j xs m h k =
    ground (arith, h k, count_if-set k j (list_at j m ++ xs) m, count_if-any (keyed_by k) m)

module _ (os : Paths) where
  add_hits-HasKeysOnce :
      (probed : List Bytes) (index : ℕ) (hits : Table (List ℕ))
      → HasKeysOnce hits
      → HasKeysOnce (add_hits os probed index hits)
  unfolding add_hits
  add_hits-HasKeysOnce [] index hits h = h
  add_hits-HasKeysOnce (p ∷ probed) index hits h =
      add_hits-HasKeysOnce probed index (append_at p (index ∷ []) hits)
        (append_at-HasKeysOnce p (index ∷ []) hits h)

  resolve_owners-HasKeysOnce :
      (probe : Table (List Bytes)) (files : List Bytes) (index : ℕ) (hits : Table (List ℕ))
      → HasKeysOnce hits
      → HasKeysOnce (resolve_owners os probe files index hits)
  unfolding resolve_owners
  resolve_owners-HasKeysOnce probe [] index hits h = h
  resolve_owners-HasKeysOnce probe (f ∷ files) index hits h = elim (Bool-cases (is_empty f)) [
    | inl none' ↦ rw none' (resolve_owners-HasKeysOnce probe files index hits h)
    | inr there ↦
        let probed = list_at (compared os f) probe in
        rw there (
          resolve_owners-HasKeysOnce probe files index (add_hits os probed index hits)
            (add_hits-HasKeysOnce probed index hits h))
  ]

  all_owners-HasKeysOnce :
      (probe : Table (List Bytes)) (packages : List (List Bytes)) (index : ℕ)
      (hits : Table (List ℕ))
      → HasKeysOnce hits
      → HasKeysOnce (all_owners os probe packages index hits)
  unfolding all_owners
  all_owners-HasKeysOnce probe [] index hits h = h
  all_owners-HasKeysOnce probe (files ∷ packages) index hits h =
      all_owners-HasKeysOnce probe packages (index + 1) (resolve_owners os probe files index hits)
        (resolve_owners-HasKeysOnce probe files index hits h)

-- The test for a component of the host with the identity `id`.
abbrev pub is_host : Bytes → Option Component → Bool
is_host id none = false
is_host id (some c) = bytes_eq c.root (codes "/") && bytes_eq id (identify c)

member-host_identity :
    (id : Bytes) (o : Option Component) → member id (host_identity o) ≡ is_host id o
member-host_identity id none = refl
member-host_identity id (some c) = elim (Bool-cases (bytes_eq c.root (codes "/"))) [
  | inl host ↦ rw host (ground arith)
  | inr nested ↦ rw nested refl
]

member-identities :
    (components : List Component) (id : Bytes) (indices : List ℕ)
    → member id (identities components indices)
      ≡ any (λ i. is_host id (get_elem? components i)) indices
unfolding identities
member-identities components id [] = refl
member-identities components id (i ∷ indices) =
    let one = member-host_identity id (get_elem? components i) in
    let both =
      member-append id (host_identity (get_elem? components i)) (identities components indices) in
    both ∙ rw (one, member-identities components id indices) refl

finalize_owners_absent :
    (components : List Component) (a : Bytes) (hits : Table (List ℕ))
    → any (keyed_by a) hits ≡ false
    → list_at a (finalize_owners components hits) ≡ []
unfolding finalize_owners list_at find
finalize_owners_absent components a [] h = refl
finalize_owners_absent components a ((p, indices) ∷ hits) h =
    let other : bytes_eq a p ≡ false = ground (arith, h) in
    let rest = finalize_owners_absent components a hits (ground (arith, h)) in
    elim (Bool-cases (is_empty (identities components indices))) [
      | inl none' ↦ rw none' rest
      | inr there ↦ rw (there, other) rest
    ]

list_at-finalize_owners :
    (components : List Component) (a : Bytes) (hits : Table (List ℕ))
    → HasKeysOnce hits
    → list_at a (finalize_owners components hits)
      ≡ sorted_set (identities components (list_at a hits))
unfolding finalize_owners list_at find sorted_set distinct_onto sort_strings sort_by identities
list_at-finalize_owners components a [] h = refl
list_at-finalize_owners components a ((p, indices) ∷ hits) h =
    let ids = identities components indices in
    elim (Bool-cases (bytes_eq a p)) [
      | inl same ↦
          let gone = any-count_if (keyed_by a) hits (ground (arith, h a, same)) in
          elim (Bool-cases (is_empty ids)) [
            | inl none' ↦
                rw (none', same, is_empty_nil ids none')
                  (finalize_owners_absent components a hits gone)
            | inr there ↦ rw (there, same) refl
          ]
      | inr other ↦
          let rest = list_at-finalize_owners components a hits (λ k. ground (arith, h k)) in
          elim (Bool-cases (is_empty ids)) [
            | inl none' ↦ rw (none', other) rest
            | inr there ↦ rw (there, other) rest
          ]
    ]

module _ (os : Paths) (keys paths : List Bytes) (a : Bytes) where
  -- The test for a file that is compared as the path asked for as `a` is, or that this path leads to.
  abbrev pub is_asked : Bytes → Bool
  is_asked f = not (is_empty f) && any (asks_by os keys (compared os f) a) paths

  -- Whether some package, counted from `from`, passes the test and has such a file.
  abbrev pub listed : (ℕ → Bool) → ℕ → List (List Bytes) → Bool
  listed q from [] = false
  listed q from (files ∷ packages) = (q from && any is_asked files) || listed q (from + 1) packages

  abbrev probed : Table (List Bytes)
  probed = expand_probe_symlinks os keys (probe_set os paths)

  any-answers : (files : List Bytes) → any (answers os probed a) files ≡ any is_asked files
  any-answers [] = refl
  any-answers (f ∷ files) =
      rw (member-expanded_probe os keys paths (compared os f) a, any-answers files) refl

  owns-listed :
      (q : ℕ → Bool) (from : ℕ) (packages : List (List Bytes))
      → owns os probed a q from packages ≡ listed q from packages
  owns-listed q from [] = refl
  owns-listed q from (files ∷ packages) =
      rw (any-answers files, owns-listed q (from + 1) packages) refl

-- The owners reported for a path are the identities, where they are not empty, of the host's
-- components whose package lists a file that is compared as the path is, or as a file that the path
-- leads to by links; the keys of the probe are followed once each, in the order in which they are
-- given.
pub owners_iff :
    (os : Paths) (components : List Component) (keys paths : List Bytes)
    (packages : List (List Bytes)) (a id : Bytes)
    → member id (
        list_at a (
          finalize_owners components
            (all_owners os (expand_probe_symlinks os keys (probe_set os paths)) packages 0 [])))
      ≡ (not (is_empty id)
          && listed os keys paths a (λ i. is_host id (get_elem? components i)) 0 packages)
unfolding list_at find
owners_iff os components keys paths packages a id =
    let probe = expand_probe_symlinks os keys (probe_set os paths) in
    let hits = all_owners os probe packages 0 [] in
    let once = all_owners-HasKeysOnce os probe packages 0 [] (λ k. omega arith) in
    ap (member id) (list_at-finalize_owners components a hits once)
    ∙ member-sorted_set id (identities components (list_at a hits))
    ∙ ap (◌&&◌ (not (is_empty id))) (
        member-identities components id (list_at a hits)
        ∙ any-all_owners os (λ i. is_host id (get_elem? components i)) 0 a probe packages []
        ∙ owns-listed os keys paths a (λ i. is_host id (get_elem? components i)) 0 packages)
