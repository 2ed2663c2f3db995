-- ===== src/Usn/Volumes.antt =====
-- internal/usn: `normalizeVolume` of path.go and `ParseVolumes` of usn.go.
pub mod Drives
use swinv.Prelude.{
  ℕ, zero, suc, ◌+◌, ◌-◌, Bool, true, false, not, ◌&&◌, ◌||◌, List, [], ◌∷◌, ◌++◌, Bytes, bytes_eq,
  ltb, leb, ◌==◌, if◌then◌else◌, is_empty, length, Result, ok, err,
}
use swinv.Prelude.Space.{trim_space, reverse_onto, split_at}

pub data VolumeError : Type 0 where
  not_a_drive : Bytes → VolumeError
  names_no_volumes : Bytes → VolumeError

-- `strings.TrimRight(v, `\/`)`, on the reversed bytes.
trim_separators : Bytes → Bytes
trim_separators [] = []
trim_separators (c ∷ cs) =
    let rest = trim_separators cs in if (c == b'\\') || (c == b'/') then rest else c ∷ cs

unfoldable pub trim_right : Bytes → Bytes
unfolding trim_separators
trim_right v = reverse_onto (trim_separators (reverse_onto v [])) []

abbrev pub upper : ℕ → ℕ
upper letter = if leb b'a' letter && leb letter b'z' then letter - 32 else letter

abbrev pub is_upper : ℕ → Bool
is_upper letter = leb b'A' letter && leb letter b'Z'

unfoldable pub drive_of : Bytes → Result VolumeError Bytes
drive_of (c ∷ d ∷ []) =
    if d == b':'
    then if is_upper (upper c) then ok (upper c ∷ b':' ∷ []) else err (not_a_drive (c ∷ d ∷ []))
    else err (not_a_drive (c ∷ d ∷ []))
drive_of v = err (not_a_drive v)

unfoldable pub normalize_volume : Bytes → Result VolumeError Bytes
unfolding drive_of trim_right
normalize_volume v = drive_of (trim_right (trim_space v))

abbrev pub contains : Bytes → List Bytes → Bool
contains v [] = false
contains v (w ∷ ws) = bytes_eq v w || contains v ws

abbrev keep_new : Bytes → List Bytes → List Bytes
keep_new v out = if contains v out then out else out ++ (v ∷ [])

abbrev with_drive :
    Result VolumeError Bytes
    → (Bytes → Result VolumeError (List Bytes))
    → Result VolumeError (List Bytes)
with_drive (err e) next = err e
with_drive (ok v) next = next v

-- The loop over the fields; `seen` holds just what `out` does.
unfoldable pub add_fields : List Bytes → List Bytes → Result VolumeError (List Bytes)
unfolding normalize_volume
add_fields [] out = ok out
add_fields (field ∷ fields) out =
    let skipped = add_fields fields out in
    let added = with_drive (normalize_volume field) λ v. add_fields fields (keep_new v out) in
    if is_empty (trim_space field) then skipped else added

abbrev named_or_error : Bytes → Result VolumeError (List Bytes) → Result VolumeError (List Bytes)
named_or_error spec (err e) = err e
named_or_error spec (ok out) = if is_empty out then err (names_no_volumes spec) else ok out

-- An empty list stands for Go's nil.
unfoldable pub parse_volumes : Bytes → Result VolumeError (List Bytes)
unfolding add_fields
parse_volumes spec =
    if is_empty (trim_space spec)
    then ok []
    else named_or_error spec (add_fields (split_at b',' spec) [])
