-- ===== src/Usn/Enumerate.antt =====
-- internal/usn/usn_windows.go: `enumerate`. The volume's two checks are parameters, and the kernel's
-- answers are given as the sequence of rounds that the loop goes through.
pub mod Collected
pub mod Filtered
use swinv.Prelude.{
  ℕ, suc, ◌+◌, Bool, true, false, List, [], ◌∷◌, ◌++◌, Option, none, some, Bytes, leb,
  if◌then◌else◌, length, drop, Result, ok, err, Eff,
}
use swinv.Prelude.Assoc.{Assoc, insert}
use swinv.Usn.Record.{
  Outcome, done, failed, panicked, timed_out, ◌>>=◌, UsnError, RawRecord, parse_records, bad_volume,
}
use swinv.Usn.Volumes.{VolumeError, not_a_drive, names_no_volumes, normalize_volume}
use swinv.Usn.FilePath.{Candidate, DirEntry, Listing, mft_index, is_directory, build_result}

abbrev pub Keep : Type 0
Keep = Bytes → Bool → ℕ → Bool

pub record Scan : Type 0 where
  pub dirs : Assoc DirEntry
  pub candidates : List Candidate
  pub records : ℕ

abbrev pub candidate_of : RawRecord → Candidate
candidate_of r = record {
  name = r.name;
  file_ref = r.file_ref;
  parent_ref = r.parent_ref;
  attributes = r.attributes;
}

abbrev pub count_record : Scan → Scan
count_record s = record { dirs = s.dirs; candidates = s.candidates; records = suc s.records }

abbrev pub hold_directory : RawRecord → Scan → Scan
hold_directory r s = record {
  dirs = insert (mft_index r.file_ref) (record { name = r.name; parent = r.parent_ref }) s.dirs;
  candidates = s.candidates;
  records = s.records;
}

abbrev pub hold_candidate : RawRecord → Scan → Scan
hold_candidate r s = record {
  dirs = s.dirs;
  candidates = s.candidates ++ (candidate_of r ∷ []);
  records = s.records;
}

-- What the callback does with one record.
unfoldable pub note_record : Keep → RawRecord → Scan → Scan
note_record keep r s =
    let is_dir = is_directory r.attributes in
    let counted = count_record s in
    let held = if is_dir then hold_directory r counted else counted in
    if keep r.name is_dir r.attributes then hold_candidate r held else held

abbrev pub on_record : Keep → RawRecord → Scan → Result UsnError Unit × Scan
on_record keep r s = (ok tt, note_record keep r s)

-- What a round of the loop meets: a cancelled context, the end of the table, a failed call, or the
-- bytes that the kernel returned, its eight-byte cursor first.
pub data Reply : Type 0 where
  cancelled : UsnError → Reply
  end_of_table : Reply
  io_error : UsnError → Reply
  buffer : Bytes → Reply

abbrev after_walk : Outcome Unit × Scan → (Scan → Outcome Scan) → Outcome Scan
after_walk (done u, s) next = next s
after_walk (failed e, s) next = failed e
after_walk (panicked, s) next = panicked
after_walk (timed_out, s) next = timed_out

-- Past the rounds that are given, the kernel has not answered yet.
unfoldable pub rounds : Keep → List Reply → Scan → Outcome Scan
rounds keep [] s = timed_out
rounds keep (cancelled e ∷ rs) s = failed e
rounds keep (end_of_table ∷ rs) s = done s
rounds keep (io_error e ∷ rs) s = failed e
rounds keep (buffer out ∷ rs) s =
    let more = after_walk (parse_records (on_record keep) (drop 8 out) s) (rounds keep rs) in
    if leb (length out) 8 then done s else more

pub record Options : Type 0 where
  pub volume : Bytes
  pub keep : Option Keep

abbrev pub keep_of : Option Keep → Keep
keep_of none = λ name is_dir attributes. true
keep_of (some keep) = keep

-- `requireNTFS` and `openVolume`: what they refuse a volume with.
pub record Device : Type 0 where
  pub require_ntfs : Bytes → Option UsnError
  pub open_volume : Bytes → Option UsnError

abbrev guard : Option UsnError → Outcome Unit
guard none = done tt
guard (some e) = failed e

abbrev lift : {A : Type 0} → Result VolumeError A → Outcome A
lift (ok a) = done a
lift (err (not_a_drive v)) = failed (bad_volume v)
lift (err (names_no_volumes v)) = failed (bad_volume v)

unfoldable pub enumerate : Device → Options → List Reply → Outcome Listing
unfolding rounds
enumerate device opts replies = do
  volume ← lift (normalize_volume opts.volume)
  ntfs ← guard (device.require_ntfs volume)
  handle ← guard (device.open_volume volume)
  s ← rounds (keep_of opts.keep) replies (record { dirs = []; candidates = []; records = 0 })
  done (build_result volume s.dirs s.candidates s.records)
