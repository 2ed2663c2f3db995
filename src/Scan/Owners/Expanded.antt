-- ===== src/Scan/Owners/Expanded.antt =====
-- internal/scan/fileowners.go: `expandProbeSymlinks`, by which a probed link answers for its file.
use swinv.Prelude.{
  ◌≡◌, refl, ap, ◌∙◌, Bool, true, false, not, ◌||◌, ◌&&◌, List, [], ◌∷◌, Option, none, some, Bytes,
  bytes_eq, if◌then◌else◌, is_empty, Bool-cases, inl, inr, arith,
}
use swinv.Prelude.Space.{trim_space}
use swinv.Prelude.Table.{Table}
use swinv.Prelude.Sort.{any}
use swinv.Model.Sets.{member, member-append}
use swinv.Scan.Owners.{
  Paths, list_at, chase_symlink, compared, expanded, expand_probe_symlinks, probe_set,
}
use swinv.Scan.Owners.Hits.{asks, list_at-append_at, member-probe_set}

module _ (os : Paths) where
  abbrev elsewhere : Bytes → Option Bytes → Option Bytes
  elsewhere key none = none
  elsewhere key (some r) =
      if bytes_eq r key || bytes_eq (os.canon r) key then none else some (os.canon r)

  -- The compared form of the file that a link at `key` leads to.
  abbrev pub link_of : Bytes → Option Bytes
  link_of key = elsewhere key (chase_symlink os key)

  abbrev is_some_of : Option Bytes → (Bytes → Bool) → Bool
  is_some_of none p = false
  is_some_of (some m) p = p m

  -- The path `j` is `k`, or a link that leads to `k`: each of the keys, in their order, may take one
  -- more step.
  abbrev pub stands_for : List Bytes → Bytes → Bytes → Bool
  stands_for [] j k = bytes_eq k j
  stands_for (key ∷ keys) j k =
      stands_for keys j k || (bytes_eq key j && is_some_of (link_of key) (λ m. stands_for keys m k))

  -- The same over a set of paths.
  abbrev known : List Bytes → (Bytes → Bool) → Bytes → Bool
  known [] at k = at k
  known (key ∷ keys) at k =
      known keys (λ j. at j || (at key && is_some_of (link_of key) (bytes_eq j))) k

  known_cong :
      (keys : List Bytes) (f g : Bytes → Bool) (k : Bytes)
      → ((j : Bytes) → f j ≡ g j)
      → known keys f k ≡ known keys g k
  known_cong [] f g k same = same k
  known_cong (key ∷ keys) f g k same = known_cong keys _ _ k (λ j. rw (same j, same key) refl)

  known_or :
      (keys : List Bytes) (f g : Bytes → Bool) (k : Bytes)
      → known keys (λ j. f j || g j) k ≡ (known keys f k || known keys g k)
  known_or [] f g k = refl
  known_or (key ∷ keys) f g k =
      known_cong keys _
        (λ j.
          (f j || (f key && is_some_of (link_of key) (bytes_eq j)))
          || (g j || (g key && is_some_of (link_of key) (bytes_eq j))))
        k (λ j. ground arith)
      ∙ known_or keys _ _ k

  known-false : (keys : List Bytes) (k : Bytes) → known keys (λ j. false) k ≡ false
  known-false [] k = refl
  known-false (key ∷ keys) k = known-false keys k

  known_and :
      (keys : List Bytes) (c : Bool) (f : Bytes → Bool) (k : Bytes)
      → known keys (λ j. c && f j) k ≡ (c && known keys f k)
  known_and keys true f k = refl
  known_and keys false f k = known-false keys k

  known-is_some_of :
      (keys : List Bytes) (k : Bytes) (o : Option Bytes)
      → ((j : Bytes) → known keys (λ i. bytes_eq i j) k ≡ stands_for keys j k)
      → known keys (λ i. is_some_of o (bytes_eq i)) k ≡ is_some_of o (λ m. stands_for keys m k)
  known-is_some_of keys k none later = known-false keys k
  known-is_some_of keys k (some m) later = later m

  known-stands_for :
      (keys : List Bytes) (j k : Bytes) → known keys (λ i. bytes_eq i j) k ≡ stands_for keys j k
  known-stands_for [] j k = refl
  known-stands_for (key ∷ keys) j k =
      let link : Bytes → Bool = λ i. is_some_of (link_of key) (bytes_eq i) in
      known_or keys (λ i. bytes_eq i j) (λ i. bytes_eq key j && link i) k
      ∙ rw
          (
            known-stands_for keys j k,
            known_and keys (bytes_eq key j) link k,
            known-is_some_of keys k (link_of key) (λ i. known-stands_for keys i k),
          )
          refl

  member-expanded :
      (a j key : Bytes) (o : Option Bytes) (m : Table (List Bytes))
      → member a (list_at j (expanded os o key m)) ≡ (
          member a (list_at j m)
          || (member a (list_at key m) && is_some_of (elsewhere key o) (bytes_eq j)))
  member-expanded a j key none m = ground arith
  member-expanded a j key (some r) m =
      elim (Bool-cases (bytes_eq r key || bytes_eq (os.canon r) key)) [
        | inl same ↦ rw same (ground arith)
        | inr apart ↦
            let n = list_at-append_at j (os.canon r) (list_at key m) m in
            elim (Bool-cases (bytes_eq j (os.canon r))) [
              | inl here ↦
                  rw (apart, n, here, member-append a (list_at j m) (list_at key m)) (ground arith)
              | inr away ↦ rw (apart, n, away) (ground arith)
            ]
      ]

  member-expand_probe_symlinks :
      (keys : List Bytes) (a k : Bytes) (m : Table (List Bytes))
      → member a (list_at k (expand_probe_symlinks os keys m))
        ≡ known keys (λ j. member a (list_at j m)) k
  unfolding expand_probe_symlinks
  member-expand_probe_symlinks [] a k m = refl
  member-expand_probe_symlinks (key ∷ keys) a k m =
      member-expand_probe_symlinks keys a k (expanded os (chase_symlink os key) key m)
      ∙ known_cong keys _ _ k (λ j. member-expanded a j key (chase_symlink os key) m)

  -- The test for a path asked for as `a` that is `k` in the compared form, or a link to it.
  abbrev pub asks_by : List Bytes → Bytes → Bytes → Bytes → Bool
  asks_by keys k a p =
      (not (is_empty (trim_space p)) && bytes_eq a (trim_space p))
      && stands_for keys (compared os (trim_space p)) k

  known-asks :
      (keys : List Bytes) (k a : Bytes) (paths : List Bytes)
      → known keys (λ j. any (asks os j a) paths) k ≡ any (asks_by keys k a) paths
  known-asks keys k a [] = known-false keys k
  known-asks keys k a (p ∷ paths) =
      known_or keys (λ j. asks os j a p) _ k
      ∙ rw (known-asks keys k a paths) (
          ap (λ b. b || any (asks_by keys k a) paths)
            (known_cong keys _
                (λ j.
                  (not (is_empty (trim_space p)) && bytes_eq a (trim_space p))
                  && bytes_eq j (compared os (trim_space p)))
                k (λ j. ground arith)
              ∙ known_and keys _ _ k
              ∙ ap (◌&&◌ _) (known-stands_for keys (compared os (trim_space p)) k)))

  pub member-expanded_probe :
      (keys paths : List Bytes) (k a : Bytes)
      → member a (list_at k (expand_probe_symlinks os keys (probe_set os paths)))
        ≡ any (asks_by keys k a) paths
  member-expanded_probe keys paths k a =
      member-expand_probe_symlinks keys a k (probe_set os paths)
      ∙ known_cong keys _ _ k (λ j. member-probe_set os j a paths)
      ∙ known-asks keys k a paths
