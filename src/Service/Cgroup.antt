-- ===== src/Service/Cgroup.antt =====
-- internal/service/cgroup.go: `UnitFromCgroup`, `containerID` and `isHex`, on the lines of the file.
pub mod Ids
use swinv.Prelude.{
  ℕ, suc, Bool, true, false, not, ◌&&◌, ◌||◌, List, [], ◌∷◌, Option, none, some, Bytes, codes,
  cut_prefix, has_suffix, trim_suffix, ltb, leb, ◌==◌, if◌then◌else◌, is_empty, length,
}
use swinv.Prelude.Space.{split_at}

abbrev pub hex_digit : ℕ → Bool
hex_digit r = (leb b'0' r && leb r b'9') || (leb b'a' r && leb r b'f')

abbrev pub all_hex : Bytes → Bool
all_hex [] = true
all_hex (r ∷ rs) = hex_digit r && all_hex rs

unfoldable pub is_hex : Bytes → Bool
is_hex s = not (is_empty s) && all_hex s

abbrev pub short_id_len : ℕ
short_id_len = 12

abbrev pub prefixes : List Bytes
prefixes =
    codes "cri-containerd-"
    ∷ codes "docker-"
    ∷ codes "crio-"
    ∷ codes "libpod-"
    ∷ codes "containerd-"
    ∷ codes "conmon-"
    ∷ []

abbrev accepted : Option Bytes → Option Bytes
accepted none = none
accepted (some rest) = if is_hex rest && leb short_id_len (length rest) then some rest else none

abbrev first_of : Option Bytes → Option Bytes → Option Bytes
first_of (some id) later = some id
first_of none later = later

unfoldable pub after_prefix : Bytes → List Bytes → Option Bytes
unfolding is_hex
after_prefix segment [] = none
after_prefix segment (p ∷ ps) = first_of (accepted (cut_prefix segment p)) (after_prefix segment ps)

abbrev bare : Bytes → Bytes
bare segment =
    if (length segment == 64) || (length segment == 32)
    then if is_hex segment then segment else []
    else []

abbrev or_bare : Bytes → Option Bytes → Bytes
or_bare segment (some id) = id
or_bare segment none = bare segment

-- The empty text where there is no identifier.
unfoldable pub container_id : Bytes → Bytes
unfolding after_prefix
container_id segment =
    let s = trim_suffix segment (codes ".scope") in or_bare s (after_prefix s prefixes)

-- The unit and the container found so far.
abbrev pub Found : Type 0
Found = Bytes × Bytes

abbrev is_unit : Bytes → Bool
is_unit segment =
    has_suffix segment (codes ".service")
    || has_suffix segment (codes ".socket")
    || has_suffix segment (codes ".mount")

unfoldable pub take_segment : Bytes → Found → Found
unfolding container_id
take_segment segment (unit, container) =
    let id = container_id segment in
    if not (is_empty id)
    then (unit, if is_empty container then id else container)
    else if is_unit segment
    then (segment, container)
    else if has_suffix segment (codes ".scope") && is_empty unit
    then (segment, container)
    else (unit, container)

abbrev take_segments : List Bytes → Found → Found
take_segments [] found = found
take_segments (s ∷ ss) found = take_segments ss (take_segment s found)

abbrev last : Bytes → List Bytes → Bytes
last x [] = x
last x (y ∷ ys) = last y ys

-- The path is the last of at least three fields.
abbrev path_of : List Bytes → Option Bytes
path_of (a ∷ b ∷ c ∷ rest) = some (last c rest)
path_of _ = none

abbrev with_path : Option Bytes → Found → Found
with_path none found = found
with_path (some path) found = take_segments (split_at b'/' path) found

unfoldable pub unit_from_cgroup : List Bytes → Found
unfolding take_segment
unit_from_cgroup [] = ([], [])
unit_from_cgroup (line ∷ lines) =
    let (unit, container) = with_path (path_of (split_at b':' line)) ([], []) in
    let later = unit_from_cgroup lines in
    if not (is_empty unit) || not (is_empty container) then (unit, container) else later
