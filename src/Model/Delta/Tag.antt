-- ===== src/Model/Delta/Tag.antt =====
-- internal/model/model.go: `Tag` and `DeltaComponents`.
use swinv.Prelude.{
  Bool, ◌&&◌, List, [], ◌∷◌, ◌++◌, Option, none, some, Bytes, codes, bytes_eq, if◌then◌else◌, map,
}
use swinv.Prelude.Sort.{sort_by}
use swinv.Model.Component.{Component, blank, Identity, identity, identity_eq, less}
use swinv.Model.Delta.{Change, Delta}

-- `versioned` of both functions.
pub record Versioned : Type 0 where
  pub id : Identity
  pub version : Bytes

abbrev pub versioned : Component → Versioned
versioned c = record { id = identity c; version = c.version }

abbrev pub versioned_to : Change → Versioned
versioned_to ch = record {
  id = record { name = ch.name; type' = ch.type' };
  version = ch.to_version;
}

unfoldable pub versioned_eq : Versioned → Versioned → Bool
unfolding identity_eq
versioned_eq a b = identity_eq a.id b.id && bytes_eq a.version b.version

-- A map as the writes to it, the latest first.
abbrev pub Writes : Type 0 → Type 0
Writes V = List (Versioned × V)

unfoldable pub latest : {V : Type 0} → Versioned → Writes V → Option V
unfolding versioned_eq
latest k [] = none
latest k ((j, v) ∷ m) = let earlier = latest k m in if versioned_eq k j then some v else earlier

unfoldable pub write_added : Writes Bytes → List Component → Writes Bytes
write_added kind [] = kind
write_added kind (c ∷ cs) = write_added ((versioned c, codes "added") ∷ kind) cs

unfoldable pub write_changed : Writes Bytes → List Change → Writes Bytes
write_changed kind [] = kind
write_changed kind (ch ∷ chs) = write_changed ((versioned_to ch, codes "changed") ∷ kind) chs

abbrev pub set_change : Option Bytes → Component → Component
set_change none c = c
set_change (some k) c = record c { change = k }

unfoldable pub tag_one : Delta → Component → Component
unfolding latest write_added write_changed
tag_one d c = set_change (latest (versioned c) (write_changed (write_added [] d.added) d.changed)) c

-- `none` is the nil pointer.
unfoldable pub tag : Option Delta → List Component → List Component
unfolding tag_one
tag none components = components
tag (some d) components = map (tag_one d) components

unfoldable pub write_components : Writes Component → List Component → Writes Component
write_components by_version [] = by_version
write_components by_version (c ∷ cs) = write_components ((versioned c, c) ∷ by_version) cs

abbrev pub labelled : Bytes → Component → Component
labelled k c = record c { change = k }

abbrev pub component_of : Option Component → Change → Component
component_of (some c) ch = c
component_of none ch = record blank {
  name = ch.name;
  type' = ch.type';
  version = ch.to_version;
  purl = ch.purl;
}

unfoldable pub changed_component : Writes Component → Change → Component
unfolding latest
changed_component by_version ch =
    labelled (codes "changed") (component_of (latest (versioned_to ch) by_version) ch)

unfoldable pub delta_components : Option Delta → List Component → List Component
unfolding write_components changed_component sort_by less
delta_components none current = []
delta_components (some d) current = sort_by less (
    map (labelled (codes "added")) d.added
    ++ (map (labelled (codes "removed")) d.removed
        ++ map (changed_component (write_components [] current)) d.changed))
