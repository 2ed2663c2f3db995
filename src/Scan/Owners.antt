-- ===== src/Scan/Owners.antt =====
-- internal/scan/fileowners.go. The paths that a package's database lists, the file system and the
-- functions of package path are parameters.
pub mod Chased
pub mod Expanded
pub mod Hits
pub mod Owned
use swinv.Prelude.{
  ℕ, zero, suc, ◌+◌, Bool, true, false, not, ◌||◌, ◌&&◌, List, [], ◌∷◌, ◌++◌, Option, none, some,
  Bytes, codes, bytes_eq, has_prefix, if◌then◌else◌, is_empty, get_elem?, map,
}
use swinv.Prelude.Space.{trim_space}
use swinv.Prelude.Table.{Table, find, set}
use swinv.Model.Sets.{sorted_set}
use swinv.Model.Component.{Component, identify}

-- What `Lstat` says of a path under the scan root; a link carries its target, if `Readlink` gives it.
pub data Entry : Type 0 where
  regular : Entry
  symlink : Option Bytes → Entry
  other : Entry

-- What the code asks of the machine and of package path; `canon` is the function of `UsrMerge`.
pub record Paths : Type 0 where
  pub lstat : Bytes → Option Entry
  pub clean : Bytes → Bytes
  pub join : Bytes → Bytes → Bytes
  pub dir : Bytes → Bytes
  pub canon : Bytes → Bytes

abbrev pub max_hops : ℕ
max_hops = 8

-- What a Go map of lists gives for a key.
abbrev pub or_none {ℓ} : {A : Type ℓ} → Option (List A) → List A
or_none none = []
or_none (some xs) = xs

unfoldable pub list_at : {A : Type 0} → Bytes → Table (List A) → List A
unfolding find
list_at k m = or_none (find k m)

unfoldable pub append_at : {A : Type 0} → Bytes → List A → Table (List A) → Table (List A)
unfolding list_at set
append_at k xs m = set k (list_at k m ++ xs) m

-- A path with a slash before it.
abbrev pub rooted : Bytes → Bytes
rooted p = if has_prefix p (codes "/") then p else b'/' ∷ p

module _ (os : Paths) where
  -- Where a link at `p` leads.
  abbrev pub target_of : Bytes → Bytes → Bytes
  target_of p target =
      if has_prefix target (codes "/") then os.clean target else os.join (os.dir p) target

  abbrev pub follow : (Bytes → Option Bytes) → Bytes → Option Entry → Option Bytes
  follow later p none = none
  follow later p (some regular) = some p
  follow later p (some other) = none
  follow later p (some (symlink none)) = none
  follow later p (some (symlink (some target))) = later target

  -- `none` is the empty text that means no file.
  unfoldable pub chase : ℕ → Bytes → Option Bytes
  unfolding has_prefix
  chase zero p = none
  chase (suc hops) p = follow (λ target. chase hops (target_of p target)) p (os.lstat p)

  unfoldable pub chase_symlink : Bytes → Option Bytes
  unfolding chase
  chase_symlink p = chase max_hops p

  -- The form in which paths are compared.
  unfoldable pub compared : Bytes → Bytes
  unfolding has_prefix
  compared p = os.canon (os.clean (rooted p))

  unfoldable pub add_probe : Bytes → Table (List Bytes) → Table (List Bytes)
  unfolding trim_space compared append_at
  add_probe p out =
      let asked = trim_space p in
      if is_empty asked then out else append_at (compared asked) (asked ∷ []) out

  unfoldable pub probe_onto : List Bytes → Table (List Bytes) → Table (List Bytes)
  unfolding add_probe
  probe_onto [] out = out
  probe_onto (p ∷ paths) out = probe_onto paths (add_probe p out)

  unfoldable pub probe_set : List Bytes → Table (List Bytes)
  unfolding probe_onto
  probe_set paths = probe_onto paths []

  abbrev pub expanded : Option Bytes → Bytes → Table (List Bytes) → Table (List Bytes)
  expanded none key probe = probe
  expanded (some resolved) key probe =
      if bytes_eq resolved key || bytes_eq (os.canon resolved) key
      then probe
      else append_at (os.canon resolved) (list_at key probe) probe

  -- The keys in the order in which Go visits the map.
  unfoldable pub expand_probe_symlinks : List Bytes → Table (List Bytes) → Table (List Bytes)
  unfolding chase_symlink append_at bytes_eq
  expand_probe_symlinks [] probe = probe
  expand_probe_symlinks (key ∷ keys) probe =
      expand_probe_symlinks keys (expanded (chase_symlink key) key probe)

  unfoldable pub add_hits : List Bytes → ℕ → Table (List ℕ) → Table (List ℕ)
  unfolding append_at
  add_hits [] index hits = hits
  add_hits (probed ∷ more) index hits = add_hits more index (append_at probed (index ∷ []) hits)

  -- The argument after the probe is what `ownedFiles` gives.
  unfoldable pub resolve_owners :
      Table (List Bytes) → List Bytes → ℕ → Table (List ℕ) → Table (List ℕ)
  unfolding add_hits compared list_at
  resolve_owners probe [] index hits = hits
  resolve_owners probe (f ∷ files) index hits =
      resolve_owners probe files index
        (if is_empty f then hits else add_hits (list_at (compared f) probe) index hits)

  -- The loop of scan.go over the packages, each with its files.
  unfoldable pub all_owners :
      Table (List Bytes) → List (List Bytes) → ℕ → Table (List ℕ) → Table (List ℕ)
  unfolding resolve_owners
  all_owners probe [] index hits = hits
  all_owners probe (files ∷ packages) index hits =
      all_owners probe packages (index + 1) (resolve_owners probe files index hits)

-- The identity of a component of the host itself.
abbrev pub host_identity : Option Component → List Bytes
host_identity none = []
host_identity (some c) = if bytes_eq c.root (codes "/") then identify c ∷ [] else []

unfoldable pub identities : List Component → List ℕ → List Bytes
unfolding bytes_eq identify
identities components [] = []
identities components (i ∷ indices) =
    host_identity (get_elem? components i) ++ identities components indices

-- Where no list is left, Go returns nil, which is the empty map to its readers.
unfoldable pub finalize_owners : List Component → Table (List ℕ) → Table (List Bytes)
unfolding identities sorted_set
finalize_owners components [] = []
finalize_owners components ((p, indices) ∷ hits) =
    let later = finalize_owners components hits in
    let ids = identities components indices in
    if is_empty ids then later else (p, sorted_set ids) ∷ later
