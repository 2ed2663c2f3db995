-- ===== src/Scan/Provenance.antt =====
-- internal/scan/provenance.go. `strings.EqualFold`, `filepath.Join` and the reading of os-release files
-- are parameters.
pub mod Stripped
use swinv.Prelude.{
  ℕ, Bool, true, false, not, ◌||◌, ◌&&◌, List, [], ◌∷◌, ◌++◌, Option, none, some, Bytes, codes,
  bytes_eq, has_prefix, trim_suffix, if◌then◌else◌, is_empty, drop, length, map,
}
use swinv.Prelude.Space.{split_at, join_with, cut_at}
use swinv.Prelude.Table.{Table, find, set}
use swinv.Model.Component.{Component}

abbrev pub host_root : Bytes
host_root = codes "/"

unfoldable pub lies_under : Bytes → Bytes → Bool
unfolding bytes_eq has_prefix trim_suffix
lies_under loc root =
    bytes_eq loc root || has_prefix loc (trim_suffix root (codes "/") ++ codes "/")

-- The inner loop of `rootOf`.
unfoldable pub root_above : Bytes → List Bytes → Option Bytes
unfolding lies_under
root_above loc [] = none
root_above loc (root ∷ nested) =
    let later = root_above loc nested in if lies_under loc root then some root else later

abbrev pub or_else : Option Bytes → Bytes → Bytes
or_else none later = later
or_else (some root) later = root

unfoldable pub root_of : List Bytes → List Bytes → Bytes
unfolding root_above
root_of [] nested = host_root
root_of (loc ∷ locations) nested = or_else (root_above loc nested) (root_of locations nested)

-- `strings.Cut` at one byte: what stands before it, and what after it, if it is there.
unfoldable pub cut_or_all : ℕ → Bytes → Bytes × Option Bytes
unfolding cut_at
cut_or_all sep s = parts (cut_at sep s)
  where
    parts : Option (Bytes × Bytes) → Bytes × Option Bytes
    parts none = (s, none)
    parts (some (before, after)) = (before, some after)

abbrev pub last_of : Bytes → List Bytes → Bytes
last_of s [] = s
last_of s (t ∷ ts) = last_of t ts

-- The namespace is dropped where there are more than two segments.
unfoldable pub without_namespace : Bytes → List Bytes → Bytes
without_namespace body (typ ∷ s ∷ name ∷ more) = codes "pkg:" ++ (typ ++ (b'/' ∷ last_of name more))
without_namespace body segments = body

unfoldable pub joined_to : Bytes → List Bytes → Bytes
unfolding join_with
joined_to body [] = body
joined_to body (q ∷ qs) = body ++ (b'?' ∷ join_with (codes "&") (q ∷ qs))

module _ (equal_fold : Bytes → Bytes → Bool) where
  unfoldable pub kept_qualifiers : List Bytes → List Bytes
  unfolding cut_or_all
  kept_qualifiers [] = []
  kept_qualifiers (q ∷ qs) =
      let later = kept_qualifiers qs in
      if not (equal_fold (cut_or_all b'=' q).0 (codes "distro")) then q ∷ later else later

  unfoldable pub with_qualifiers : Bytes → Option Bytes → Bytes
  unfolding kept_qualifiers split_at joined_to
  with_qualifiers body none = body
  with_qualifiers body (some qualifiers) =
      joined_to body (kept_qualifiers (split_at b'&' qualifiers))

  abbrev pub with_subpath : Bytes → Option Bytes → Bytes
  with_subpath body none = body
  with_subpath body (some subpath) = body ++ (b'#' ∷ subpath)

  unfoldable pub strip_distro_claim : Bytes → Bytes
  unfolding has_prefix cut_or_all without_namespace with_qualifiers split_at
  strip_distro_claim purl =
      let asked = cut_or_all b'?' purl in
      let path = cut_or_all b'#' asked.0 in
      if not (has_prefix purl (codes "pkg:"))
      then purl
      else with_subpath
          (with_qualifiers (without_namespace path.0 (split_at b'/' (drop 4 path.0))) asked.1)
          path.1

pub record RootRelease : Type 0 where
  pub id : Bytes
  pub version_id : Bytes

-- What a nested root's os-release files say; `read` gives what `ParseOSRelease` makes of a file.
pub record Releases : Type 0 where
  pub join : Bytes → Bytes → Bytes
  pub read : Bytes → Option (Table Bytes)

unfoldable pub value_at : Bytes → Table Bytes → Bytes
unfolding find
value_at k values = or_else (find k values) []

module _ (files : Releases) where
  abbrev pub release_of : Option (Table Bytes) → Option RootRelease → Option RootRelease
  release_of none later = later
  release_of (some values) later =
      if not (is_empty (value_at (codes "ID") values))
      then some (record {
        id = value_at (codes "ID") values;
        version_id = value_at (codes "VERSION_ID") values;
      })
      else later

  unfoldable pub read_release : Bytes → List Bytes → Option RootRelease
  unfolding value_at
  read_release root [] = none
  read_release root (name ∷ names) =
      release_of (files.read (files.join root name)) (read_release root names)

  unfoldable pub add_release : Bytes → Option RootRelease → Table RootRelease → Table RootRelease
  unfolding set
  add_release root none out = out
  add_release root (some r) out = set root r out

  unfoldable pub read_root_releases : List Bytes → Table RootRelease → Table RootRelease
  unfolding read_release add_release
  read_root_releases [] out = out
  read_root_releases (root ∷ nested) out = read_root_releases nested (
      add_release root
        (read_release root (codes "etc/os-release" ∷ codes "usr/lib/os-release" ∷ [])) out)

unfoldable pub with_root_release : Option RootRelease → Table Bytes → Table Bytes
unfolding set
with_root_release none attrs = attrs
with_root_release (some r) attrs =
    let named = if is_empty r.id then attrs else set (codes "root_os_id") r.id attrs in
    if is_empty r.version_id then named else set (codes "root_os_version_id") r.version_id named

unfoldable pub assign_root :
    (Bytes → Bytes → Bool) → Table RootRelease → List Bytes → Component → Component
unfolding root_of strip_distro_claim with_root_release find bytes_eq
assign_root equal_fold releases nested c =
    let root = root_of c.locations nested in
    if bytes_eq root host_root then record c { root = root } else record c {
      root = root;
      purl = strip_distro_claim equal_fold c.purl;
      attributes = with_root_release (find root releases) c.attributes;
    }

unfoldable pub assign_roots :
    (Bytes → Bytes → Bool) → Releases → List Component → List Bytes → List Component
unfolding assign_root read_root_releases
assign_roots equal_fold files components nested =
    map (assign_root equal_fold (read_root_releases files nested []) nested) components
