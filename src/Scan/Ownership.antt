-- ===== src/Scan/Ownership.antt =====
-- internal/scan/ownership.go. The package types that `isOSPackage` names are constants of the Syft
-- library, taken by their documented texts; the relationships that it computes are an argument.
pub mod Vouched
use swinv.Prelude.{
  ℕ, zero, suc, Bool, true, false, not, ◌||◌, ◌&&◌, List, [], ◌∷◌, Option, none, some, Bytes, codes,
  bytes_eq, if◌then◌else◌, is_empty, get_elem?, ◌==◌,
}
use swinv.Prelude.Table.{Table, find}
use swinv.Prelude.Sort.{any}
use swinv.Model.Component.{Component}

-- Whether the relationship is one of ownership by overlapping files, and the two packages.
pub record Relationship : Type 0 where
  pub by_file_overlap : Bool
  pub from : Bytes
  pub to : Bytes

abbrev pub update_at : ℕ → (Component → Component) → List Component → List Component
update_at i f [] = []
update_at zero f (c ∷ cs) = f c ∷ cs
update_at (suc i) f (c ∷ cs) = c ∷ update_at i f cs

-- `pkg.DebPkg`, `pkg.RpmPkg`, `pkg.ApkPkg`, `pkg.AlpmPkg` and `pkg.PortagePkg`, by their texts.
abbrev os_types : List Bytes
os_types = codes "deb" ∷ codes "rpm" ∷ codes "apk" ∷ codes "alpm" ∷ codes "portage" ∷ []

unfoldable pub is_os_package : Bytes → Bool
unfolding bytes_eq
is_os_package typ = any (bytes_eq typ) os_types

-- The conditions under which `owner` vouches for `owned`.
unfoldable pub vouches : Component → Component → Bool
unfolding is_os_package bytes_eq
vouches owner owned =
    is_os_package owner.type'
    && not (is_os_package owned.type')
    && bytes_eq owner.root owned.root
    && not (is_empty owner.purl)

abbrev pub link_pair : ℕ → Option Component → Option Component → List Component → List Component
unfolding vouches
link_pair i (some owner) (some owned) cs =
    if vouches owner owned then update_at i (λ c. record c { owned_by = owner.purl }) cs else cs
link_pair i none owned cs = cs
link_pair i (some owner) none cs = cs

unfoldable pub link_at : Option ℕ → Option ℕ → List Component → List Component
unfolding link_pair
link_at none owned cs = cs
link_at (some j) none cs = cs
link_at (some j) (some i) cs =
    if j == i then cs else link_pair i (get_elem? cs j) (get_elem? cs i) cs

-- `by_id` leads from a package to the position of its component.
unfoldable pub apply_file_ownership : List Component → Table ℕ → List Relationship → List Component
unfolding link_at find
apply_file_ownership components by_id [] = components
apply_file_ownership components by_id (r ∷ relationships) =
    apply_file_ownership
      (if r.by_file_overlap
        then link_at (find r.from by_id) (find r.to by_id) components
        else components)
      by_id relationships
