-- ===== src/Usn/Tests.antt =====
-- internal/usn on concrete inputs: a volume with two directories and a file, read in two buffers.
use swinv.Prelude.{
  ℕ, ◌+◌, ◌*◌, ◌≤◌, ◌<◌, ◌≡◌, ◌≢◌, ◌↔◌, refl, List, [], ◌∷◌, ◌++◌, none, some, Bytes, codes,
  bytes_eq, length, map, All, arith, ok, Result, has_suffix,
}
use swinv.Prelude.Assoc.{Assoc, lookup}
use swinv.Prelude.Binary.{put16, put32, put64, u16_at, u32_at, u64_at}
use swinv.Prelude.Space.{trim_space, trim_head, space_at_head, space_at_end, split_at}
use swinv.Usn.Record.{
  done, panicked, timed_out, UsnError, RawRecord, layout_of, parse_fields, parse_one, parse_records,
}
use swinv.Usn.Record.Text.{decode_utf16}
use swinv.Usn.Record.Safe.{parse_one-panicked}
use swinv.Usn.Record.Walk.{
  Frame, IsFramed, stream, parse_records-call_each, parse_records-ends, parse_records-panics,
}
use swinv.Usn.FilePath.{
  Candidate, DirEntry, Listing, entry_at, mft_index, max_path_depth, climb, step_up, write_back,
  resolve_path, build_result,
}
use swinv.Usn.FilePath.Chain.{Under, spell, resolve_path_iff}
use swinv.Usn.FilePath.Accounts.{path_or_empty, without_path, build_result-lists}
use swinv.Usn.Volumes.{normalize_volume, drive_of, trim_right, add_fields, parse_volumes}
use swinv.Usn.Enumerate.{Keep, Device, Options, end_of_table, keep_of, enumerate}
use swinv.Usn.Enumerate.Collected.{
  Chunk, IsChunk, reply_of, note_chunks, nothing, enumerate-note_chunks,
}
use swinv.Usn.Enumerate.Filtered.{accepts_entry, select, enumerate-select}

abbrev wide : Bytes → Bytes
wide [] = []
wide (c ∷ cs) = c ∷ 0 ∷ wide cs

abbrev zeros : Bytes
zeros = put64 0 ++ put64 0 ++ put64 0 ++ put32 0

-- A version 2 record.
abbrev record_of : ℕ → ℕ → ℕ → Bytes → Bytes
record_of file_ref parent_ref attributes name =
    put32 (60 + 2 * length name)
    ++ put16 2
    ++ put16 0
    ++ put64 file_ref
    ++ put64 parent_ref
    ++ zeros
    ++ put32 attributes
    ++ put16 (2 * length name)
    ++ put16 60
    ++ wide name

abbrev frame_of : ℕ → ℕ → ℕ → Bytes → Frame
frame_of file_ref parent_ref attributes name = record {
  bytes = record_of file_ref parent_ref attributes name;
  raw = record {
    file_ref = file_ref;
    parent_ref = parent_ref;
    attributes = attributes;
    name = name;
  };
}

-- The references carry sequence numbers: 5 · 2^48 + 5 is the root.
abbrev root : ℕ
root = 1407374883553285

abbrev app : Frame
app = frame_of 11 10 32 (codes "a.exe")

abbrev windows : Frame
windows = frame_of 10 root 16 (codes "Windows")

abbrev notes : Frame
notes = frame_of 12 99 32 (codes "n.txt")

app-IsFramed : IsFramed app
unfolding parse_one layout_of parse_fields u16_at u32_at u64_at decode_utf16
app-IsFramed = record { header = omega arith; claims = refl; parses = refl }

windows-IsFramed : IsFramed windows
unfolding parse_one layout_of parse_fields u16_at u32_at u64_at decode_utf16
windows-IsFramed = record { header = omega arith; claims = refl; parses = refl }

notes-IsFramed : IsFramed notes
unfolding parse_one layout_of parse_fields u16_at u32_at u64_at decode_utf16
notes-IsFramed = record { header = omega arith; claims = refl; parses = refl }

abbrev log_names : RawRecord → List Bytes → Result UsnError Unit × List Bytes
log_names r seen = (ok tt, seen ++ (r.name ∷ []))

abbrev four_bytes : Bytes
four_bytes = put32 4

parse_one-panicked_example : (parse_one four_bytes ≡ panicked) ↔ (length four_bytes < 6)
parse_one-panicked_example = parse_one-panicked four_bytes

parse_records-call_each_example :
    parse_records log_names (stream (app ∷ windows ∷ [])) []
    ≡ (done tt, codes "a.exe" ∷ codes "Windows" ∷ [])
parse_records-call_each_example =
    parse_records-call_each log_names (app ∷ windows ∷ []) (app-IsFramed, (windows-IsFramed, tt)) []

parse_records-ends_example : (parse_records log_names (stream (app ∷ [])) []).0 ≢ timed_out
parse_records-ends_example = parse_records-ends log_names (stream (app ∷ [])) []

-- A record of sixty-two bytes that claims two.
abbrev short_claim : Bytes
short_claim =
    put32 2 ++ put16 2 ++ put64 0 ++ put64 0 ++ put64 0 ++ put64 0 ++ put64 0 ++ put64 0 ++ put64 0

parse_records-panics_example : parse_records log_names short_claim [] ≡ (panicked, [])
unfolding u32_at
parse_records-panics_example =
    parse_records-panics log_names short_claim [] 2 (omega arith) refl (omega arith) (omega arith)

abbrev dirs : Assoc DirEntry
dirs =
    (10, record { name = codes "Windows"; parent = root })
    ∷ (11, record { name = codes "System32"; parent = 10 })
    ∷ (20, record { name = codes "loop"; parent = 21 })
    ∷ (21, record { name = codes "back"; parent = 20 })
    ∷ []

resolved :
    resolve_path (codes "C:") dirs 11 (codes "a.dll") ≡ some (codes "C:\\Windows\\System32\\a.dll")
unfolding resolve_path climb step_up lookup write_back
resolved = refl

cycle_has_no_path : resolve_path (codes "C:") dirs 20 (codes "a.dll") ≡ none
unfolding resolve_path climb step_up lookup write_back
cycle_has_no_path = refl

resolve_path_iff_example :
    (resolve_path (codes "C:") dirs 11 (codes "a.dll")
      ≡ some (codes "C:\\Windows\\System32\\a.dll"))
    ↔ ((names : List Bytes) × Under dirs (mft_index 11) names
        × (length names ≤ max_path_depth)
        × (codes "C:\\Windows\\System32\\a.dll"
            ≡ codes "C:" ++ spell (names ++ (codes "a.dll" ∷ []))))
resolve_path_iff_example =
    resolve_path_iff (codes "C:") dirs 11 (codes "a.dll") (codes "C:\\Windows\\System32\\a.dll")

abbrev candidates : List Candidate
candidates =
    record { name = codes "a.dll"; file_ref = 30; parent_ref = 11; attributes = 32 }
    ∷ record { name = codes "gone"; file_ref = 31; parent_ref = 99; attributes = 16 }
    ∷ []

build_result-lists_example : build_result (codes "C:") dirs candidates 7 ≡ record {
  entries =
      map
        (λ c. entry_at (path_or_empty (resolve_path (codes "C:") dirs c.parent_ref c.name)) c)
        candidates;
  records = 7;
  directories = 4;
  unresolved = without_path (
      map
        (λ c. entry_at (path_or_empty (resolve_path (codes "C:") dirs c.parent_ref c.name)) c)
        candidates);
}
build_result-lists_example = build_result-lists (codes "C:") dirs candidates 7

abbrev drives : List Bytes
drives = codes "D:" ∷ codes "C:" ∷ []

parsed : parse_volumes (codes " d:\\, C: ,D:") ≡ ok drives
unfolding parse_volumes trim_space trim_head space_at_head space_at_end split_at add_fields
    normalize_volume drive_of trim_right bytes_eq
parsed = refl

abbrev device : Device
device = record { require_ntfs = λ v. none; open_volume = λ v. none }

abbrev eight_bytes : Bytes
eight_bytes = put64 0

abbrev chunks : List Chunk
chunks =
    record { cursor = eight_bytes; frames = app ∷ [] }
    ∷ record { cursor = eight_bytes; frames = windows ∷ notes ∷ [] }
    ∷ []

chunks-IsChunk : All IsChunk chunks
chunks-IsChunk = (
  record { eight = refl; framed = (app-IsFramed, tt); has_record = omega arith },
  (
    record {
      eight = refl;
      framed = (windows-IsFramed, (notes-IsFramed, tt));
      has_record = omega arith;
    },
    tt,
  ),
)

c_drive : normalize_volume (codes "c:\\") ≡ ok (codes "C:")
unfolding trim_space trim_head space_at_head space_at_end normalize_volume drive_of trim_right
c_drive = refl

abbrev executables : Keep
executables name is_dir attributes = has_suffix name (codes ".exe")

abbrev options : Options
options = record { volume = codes "c:\\"; keep = some executables }

enumerate-note_chunks_example :
    enumerate device options (map reply_of chunks ++ (end_of_table ∷ [])) ≡ (
      let s = note_chunks (keep_of options.keep) chunks nothing in
      done (build_result (codes "C:") s.dirs s.candidates s.records))
enumerate-note_chunks_example =
    enumerate-note_chunks device options (codes "C:") chunks c_drive refl refl chunks-IsChunk

enumerate-select_example :
    (all some_files : Listing) × (enumerate device
        (record { volume = codes "c:\\"; keep = none })
        (map reply_of chunks ++ (end_of_table ∷ []))
      ≡ done all)
    × (enumerate device options (map reply_of chunks ++ (end_of_table ∷ [])) ≡ done some_files)
    × (some_files.entries ≡ select (accepts_entry executables) all.entries)
    × (some_files.records ≡ all.records)
    × (some_files.directories ≡ all.directories)
enumerate-select_example =
    enumerate-select device (codes "c:\\") (codes "C:") executables chunks c_drive refl refl
      chunks-IsChunk
