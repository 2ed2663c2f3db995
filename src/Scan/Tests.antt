-- ===== src/Scan/Tests.antt =====
-- internal/scan and internal/pathnorm on small inputs.
use swinv.Prelude.{
  get_elem?, map, ℕ, ◌≡◌, ◌↔◌, ◌<◌, ◌++◌, refl, true, List, [], ◌∷◌, Option, none, some, Bytes,
  codes, bytes_eq, if◌then◌else◌,
}
use swinv.Prelude.Space.{trim_space, trim_head, space_at_head, space_at_end, join_with}
use swinv.Prelude.Table.{find}
use swinv.Model.Sets.{member}
use swinv.Model.Component.{Component, blank, identify}
use swinv.Scan.PathNorm.{usr_merge}
use swinv.Scan.Provenance.{strip_distro_claim, root_of}
use swinv.Scan.Provenance.Stripped.{Qualifier, text_of, query, strip_distro_claim_parts}
use swinv.Scan.Owners.{
  Paths, Entry, regular, symlink, probe_set, expand_probe_symlinks, all_owners, finalize_owners,
  list_at, chase_symlink, compared, append_at, max_hops,
}
use swinv.Scan.Ownership.{Relationship, apply_file_ownership}
use swinv.Scan.Ownership.Vouched.{get_elem?-apply_file_ownership}
use swinv.Scan.Owners.Chased.{Leads, chase_symlink_iff}
use swinv.Scan.Owners.Owned.{owners_iff}

abbrev lstat : Bytes → Option Entry
lstat p =
    if bytes_eq p (codes "/bin/rm")
    then some (symlink (some (codes "/bin/box")))
    else if bytes_eq p (codes "/bin/box")
    then some regular
    else none

abbrev os : Paths
os = record { lstat = lstat; clean = λ p. p; join = λ d p. p; dir = λ p. p; canon = λ p. p }

chase_symlink_iff_example :
    (chase_symlink os (codes "/bin/rm") ≡ some (codes "/bin/box"))
    ↔ ((n : ℕ) × (n < max_hops) × Leads os n (codes "/bin/rm") (codes "/bin/box"))
chase_symlink_iff_example = chase_symlink_iff os (codes "/bin/rm") (codes "/bin/box")

chase_run : chase_symlink os (codes "/bin/rm") ≡ some (codes "/bin/box")
unfolding chase_symlink bytes_eq
chase_run = refl

abbrev box : Component
box = record blank { name = codes "box"; version = codes "1"; root = codes "/" }

-- "/bin/rm" is a link to "/bin/box", the file that the package lists.
abbrev asked : List Bytes
asked = codes "/bin/rm" ∷ []

abbrev owners : List Bytes
owners = list_at (codes "/bin/rm") (
    finalize_owners (box ∷ []) (
      all_owners os (expand_probe_symlinks os asked (probe_set os asked))
        ((codes "bin/box" ∷ []) ∷ []) 0 []))

owners_run : owners ≡ codes "box@1" ∷ []
unfolding list_at finalize_owners all_owners probe_set expand_probe_symlinks trim_space trim_head
    space_at_head space_at_end bytes_eq
owners_run = refl

owners_iff_example : member (codes "box@1") owners ≡ true
unfolding probe_set list_at append_at chase_symlink compared identify trim_space trim_head
    space_at_head space_at_end bytes_eq find
owners_iff_example =
    owners_iff os (box ∷ []) asked asked ((codes "bin/box" ∷ []) ∷ []) (codes "/bin/rm")
      (codes "box@1")

-- A subpath behind the qualifiers goes with the qualifier it stands in.
strip_subpath :
    strip_distro_claim bytes_eq (codes "pkg:deb/ubuntu/ssl@3?arch=amd64&distro=u#etc")
    ≡ codes "pkg:deb/ssl@3?arch=amd64"
unfolding strip_distro_claim bytes_eq
strip_subpath = refl

abbrev arch : Qualifier
arch = record { key = codes "arch"; value = some (codes "amd64") }

abbrev distro : Qualifier
distro = record { key = codes "distro"; value = some (codes "u") }

strip_distro_claim_parts_example :
    strip_distro_claim bytes_eq (
      (codes "pkg:"
        ++ join_with (codes "/") (codes "deb" ∷ (codes "ubuntu" ∷ []) ++ (codes "ssl@3" ∷ [])))
      ++ query (map text_of (arch ∷ distro ∷ [])))
    ≡ codes "pkg:deb/ssl@3?arch=amd64"
unfolding bytes_eq join_with
strip_distro_claim_parts_example =
    strip_distro_claim_parts bytes_eq (codes "deb") (codes "ssl@3") (codes "ubuntu" ∷ [])
      (arch ∷ distro ∷ []) ((refl, refl, refl), ((refl, refl, refl), ((refl, refl, refl), tt)))
      ((refl, refl), ((refl, refl), tt))

root_run :
    root_of (codes "/usr/x" ∷ codes "/snap/core/bin/y" ∷ []) (codes "/snap/core/" ∷ [])
    ≡ codes "/snap/core/"
unfolding root_of
root_run = refl

usr_run : usr_merge (λ d. bytes_eq d (codes "bin")) (codes "/bin/nc") ≡ codes "/usr/bin/nc"
unfolding usr_merge bytes_eq
usr_run = refl

abbrev cryptography : Component
cryptography = record blank {
  name = codes "cryptography";
  type' = codes "python";
  root = codes "/";
}

abbrev packaged : Component
packaged = record blank {
  name = codes "python3-cryptography";
  type' = codes "deb";
  root = codes "/";
  purl = codes "pkg:deb/c@2";
}

abbrev overlap : List Relationship
overlap = record { by_file_overlap = true; from = codes "p"; to = codes "c" } ∷ []

abbrev linked : List Component
linked =
    apply_file_ownership (cryptography ∷ packaged ∷ []) ((codes "c", 0) ∷ (codes "p", 1) ∷ [])
      overlap

linked_run : linked ≡ record cryptography { owned_by = codes "pkg:deb/c@2" } ∷ packaged ∷ []
unfolding apply_file_ownership find bytes_eq
linked_run = refl

get_elem?-apply_file_ownership_example :
    get_elem? linked 0 ≡ some (record cryptography { owned_by = codes "pkg:deb/c@2" })
unfolding find bytes_eq
get_elem?-apply_file_ownership_example =
    get_elem?-apply_file_ownership (cryptography ∷ packaged ∷ [])
      ((codes "c", 0) ∷ (codes "p", 1) ∷ []) overlap 0
