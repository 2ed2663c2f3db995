-- ===== src/Scan/Owners/Hits.antt =====
-- internal/scan/fileowners.go: what the maps of the owner probe hold.
use swinv.Prelude.{
  ℕ, ◌+◌, ◌≡◌, refl, Bool, false, not, ◌||◌, ◌&&◌, List, [], ◌∷◌, ◌++◌, Bytes, bytes_eq,
  bytes_eq_iff, if◌then◌else◌, is_empty, Bool-cases, inl, inr, arith,
}
use swinv.Prelude.Space.{trim_space}
use swinv.Prelude.Table.{Table, find, find-set, find-set_other}
use swinv.Prelude.Sort.{any}
use swinv.Model.Sets.{member, member-append}
use swinv.Scan.Owners.{
  Paths, list_at, append_at, or_none, compared, add_probe, probe_onto, probe_set, add_hits,
  resolve_owners, all_owners,
}

pub list_at-append_at :
    {A : Type 0} (k j : Bytes) (xs : List A) (m : Table (List A))
    → list_at k (append_at j xs m) ≡ (if bytes_eq k j then list_at k m ++ xs else list_at k m)
unfolding list_at append_at
list_at-append_at k j xs m = elim (Bool-cases (bytes_eq k j)) [
  | inl same ↦
      let e = (bytes_eq_iff k j).0 same in
      rw (same, e, find-set j (or_none (find j m) ++ xs) m) refl
  | inr apart ↦ rw (apart, find-set_other k j (or_none (find j m) ++ xs) m apart) refl
]

any-append :
    {A : Type 0} (p : A → Bool) (xs ys : List A) → any p (xs ++ ys) ≡ (any p xs || any p ys)
any-append p [] ys = refl
any-append p (x ∷ xs) ys = ground (arith, any-append p xs ys)

module _ (os : Paths) where
  -- The test for a path asked for as `a` that is compared as `k`.
  abbrev pub asks : Bytes → Bytes → Bytes → Bool
  asks k a p =
      not (is_empty (trim_space p))
      && (bytes_eq k (compared os (trim_space p)) && bytes_eq a (trim_space p))

  member-add_probe :
      (k a p : Bytes) (m : Table (List Bytes))
      → member a (list_at k (add_probe os p m)) ≡ (member a (list_at k m) || asks k a p)
  unfolding add_probe
  member-add_probe k a p m = elim (Bool-cases (is_empty (trim_space p))) [
    | inl none' ↦ rw none' (ground arith)
    | inr there ↦
        let n = list_at-append_at k (compared os (trim_space p)) (trim_space p ∷ []) m in
        elim (Bool-cases (bytes_eq k (compared os (trim_space p)))) [
          | inl same ↦
              rw (there, n, same, member-append a (list_at k m) (trim_space p ∷ [])) (ground arith)
          | inr apart ↦ rw (there, n, apart) (ground arith)
        ]
  ]

  member-probe_onto :
      (k a : Bytes) (paths : List Bytes) (m : Table (List Bytes))
      → member a (list_at k (probe_onto os paths m))
        ≡ (member a (list_at k m) || any (asks k a) paths)
  unfolding probe_onto
  member-probe_onto k a [] m = ground arith
  member-probe_onto k a (p ∷ paths) m =
      ground (arith, member-probe_onto k a paths (add_probe os p m), member-add_probe k a p m)

  pub member-probe_set :
      (k a : Bytes) (paths : List Bytes)
      → member a (list_at k (probe_set os paths)) ≡ any (asks k a) paths
  unfolding probe_set list_at find
  member-probe_set k a paths = member-probe_onto k a paths []

  any-add_hits :
      (q : ℕ → Bool) (index : ℕ) (a : Bytes) (probed : List Bytes) (hits : Table (List ℕ))
      → any q (list_at a (add_hits os probed index hits))
        ≡ (any q (list_at a hits) || (q index && member a probed))
  unfolding add_hits
  any-add_hits q index a [] hits = ground arith
  any-add_hits q index a (p ∷ probed) hits =
      let later = any-add_hits q index a probed (append_at p (index ∷ []) hits) in
      let n = list_at-append_at a p (index ∷ []) hits in
      elim (Bool-cases (bytes_eq a p)) [
        | inl same ↦ rw (later, n, same, any-append q (list_at a hits) (index ∷ [])) (ground arith)
        | inr apart ↦ rw (later, n, apart) refl
      ]

  -- The test for a file of a package that answers for the path asked for as `a`.
  abbrev pub answers : Table (List Bytes) → Bytes → Bytes → Bool
  answers probe a f = not (is_empty f) && member a (list_at (compared os f) probe)

  any-resolve_owners :
      (q : ℕ → Bool) (index : ℕ) (a : Bytes) (probe : Table (List Bytes)) (files : List Bytes)
      (hits : Table (List ℕ))
      → any q (list_at a (resolve_owners os probe files index hits))
        ≡ (any q (list_at a hits) || (q index && any (answers probe a) files))
  unfolding resolve_owners
  any-resolve_owners q index a probe [] hits = ground arith
  any-resolve_owners q index a probe (f ∷ files) hits = elim (Bool-cases (is_empty f)) [
    | inl none' ↦ rw (none', any-resolve_owners q index a probe files hits) (ground arith)
    | inr there ↦
        let probed = list_at (compared os f) probe in
        rw
          (
            there,
            any-resolve_owners q index a probe files (add_hits os probed index hits),
            any-add_hits q index a probed hits,
          )
          (ground arith)
  ]

  -- Whether some package, counted from `from`, passes the test and has a file that answers.
  abbrev pub owns : Table (List Bytes) → Bytes → (ℕ → Bool) → ℕ → List (List Bytes) → Bool
  owns probe a q from [] = false
  owns probe a q from (files ∷ packages) =
      (q from && any (answers probe a) files) || owns probe a q (from + 1) packages

  pub any-all_owners :
      (q : ℕ → Bool) (index : ℕ) (a : Bytes) (probe : Table (List Bytes))
      (packages : List (List Bytes)) (hits : Table (List ℕ))
      → any q (list_at a (all_owners os probe packages index hits))
        ≡ (any q (list_at a hits) || owns probe a q index packages)
  unfolding all_owners
  any-all_owners q index a probe [] hits = ground arith
  any-all_owners q index a probe (files ∷ packages) hits =
      let later =
        any-all_owners q (index + 1) a probe packages (resolve_owners os probe files index hits) in
      let one = any-resolve_owners q index a probe files hits in ground (arith, later, one)
