-- ===== src/Model/Component.antt =====
-- internal/model/model.go: `Component`, its two keys, `Less` and `Identify`.
use swinv.Prelude.{Bool, not, ◌&&◌, List, [], Bytes, bytes_eq, ◌++◌, ◌∷◌, if◌then◌else◌, is_empty}
use swinv.Prelude.Table.{Table}
use swinv.Prelude.Sort.{bytes_lt}

-- An empty text or list stands for Go's absent one.
pub record Component : Type 0 where
  pub name : Bytes
  pub version : Bytes
  pub type' : Bytes
  pub language : Bytes
  pub vendor : Bytes
  pub owned_by : Bytes
  pub root : Bytes
  pub attributes : Table Bytes
  pub purl : Bytes
  pub cpes : List Bytes
  pub licenses : List Bytes
  pub locations : List Bytes
  pub found_by : Bytes
  pub source_key : Bytes
  pub sha256 : Bytes
  pub change : Bytes

-- `Component{}`.
abbrev pub blank : Component
blank = record {
  name = [];
  version = [];
  type' = [];
  language = [];
  vendor = [];
  owned_by = [];
  root = [];
  attributes = [];
  purl = [];
  cpes = [];
  licenses = [];
  locations = [];
  found_by = [];
  source_key = [];
  sha256 = [];
  change = [];
}

-- The deduplication tuple.
pub record Key : Type 0 where
  pub name : Bytes
  pub version : Bytes
  pub type' : Bytes
  pub purl : Bytes
  pub root : Bytes

abbrev pub key : Component → Key
key c = record { name = c.name; version = c.version; type' = c.type'; purl = c.purl; root = c.root }

unfoldable pub key_eq : Key → Key → Bool
key_eq a b =
    bytes_eq a.name b.name
    && bytes_eq a.version b.version
    && bytes_eq a.type' b.type'
    && bytes_eq a.purl b.purl
    && bytes_eq a.root b.root

-- The pair by which a component is found again in another scan.
pub record Identity : Type 0 where
  pub name : Bytes
  pub type' : Bytes

abbrev pub identity : Component → Identity
identity c = record { name = c.name; type' = c.type' }

unfoldable pub identity_eq : Identity → Identity → Bool
identity_eq a b = bytes_eq a.name b.name && bytes_eq a.type' b.type'

unfoldable pub less : Component → Component → Bool
less a b =
    if not (bytes_eq a.type' b.type')
    then bytes_lt a.type' b.type'
    else if not (bytes_eq a.name b.name)
    then bytes_lt a.name b.name
    else if not (bytes_eq a.version b.version)
    then bytes_lt a.version b.version
    else bytes_lt a.purl b.purl

unfoldable pub identify : Component → Bytes
identify c =
    if not (is_empty c.purl)
    then c.purl
    else if not (is_empty c.version)
    then c.name ++ (b'@' ∷ c.version)
    else c.name
