-- ===== src/Usn/Enumerate/Filtered.antt =====
-- The name filter decides what an enumeration returns, and nothing else.
use swinv.Prelude.{
  suc, ◌≡◌, refl, sym, ap, ◌∙◌, Bool, true, false, Bool-cases, inl, inr, List, [], ◌∷◌, ◌++◌, none,
  some, Bytes, map, All, ok, if◌then◌else◌, append-nil, length,
}
use swinv.Prelude.Assoc.{insert}
use swinv.Usn.Record.{done, RawRecord}
use swinv.Usn.Record.Walk.{Frame}
use swinv.Usn.FilePath.{
  Candidate, Entry, Listing, is_directory, mft_index, entry_at, build_result, resolve_path,
}
use swinv.Usn.FilePath.Accounts.{path_or_empty, build_result-lists}
use swinv.Usn.Volumes.{normalize_volume}
use swinv.Usn.Enumerate.{
  Keep, Scan, note_record, candidate_of, count_record, hold_directory, hold_candidate, end_of_table,
  Device, enumerate,
}
use swinv.Usn.Enumerate.Collected.{
  Chunk, IsChunk, reply_of, note_frames, note_chunks, nothing, enumerate-note_chunks,
}

abbrev pub select {ℓ} : {A : Type ℓ} → (A → Bool) → List A → List A
select p [] = []
select p (x ∷ xs) = if p x then x ∷ select p xs else select p xs

abbrev everything : Keep
everything = λ name is_dir attributes. true

module _ (keep : Keep) where
  abbrev accepts : Candidate → Bool
  accepts c = keep c.name (is_directory c.attributes) c.attributes

  abbrev pub accepts_entry : Entry → Bool
  accepts_entry e = keep e.name e.is_dir e.attributes

  record Filtered (s all : Scan) : Type 0 where
    dirs : s.dirs ≡ all.dirs
    records : s.records ≡ all.records
    candidates : s.candidates ≡ select accepts all.candidates

  select-append :
      (xs : List Candidate) (c : Candidate)
      → select accepts (xs ++ (c ∷ [])) ≡ select accepts xs ++ select accepts (c ∷ [])
  select-append [] c = refl
  select-append (x ∷ xs) c = elim (Bool-cases (accepts x)) [
    | inl yes' ↦ rw yes' (ap (◌∷◌ x) (select-append xs c))
    | inr no' ↦ rw no' (select-append xs c)
  ]

  held-Filtered :
      (r : RawRecord) (dir : Bool) (s all : Scan)
      → Filtered s all
      → Filtered
          (if dir then hold_directory r (count_record s) else count_record s)
          (if dir then hold_directory r (count_record all) else count_record all)
  held-Filtered r true s all f = record {
    dirs =
        ap (insert (mft_index r.file_ref) (record { name = r.name; parent = r.parent_ref })) f.dirs;
    records = ap suc f.records;
    candidates = f.candidates;
  }
  held-Filtered r false s all f = record {
    dirs = f.dirs;
    records = ap suc f.records;
    candidates = f.candidates;
  }

  chosen-Filtered :
      (r : RawRecord) (b : Bool) (s all : Scan)
      → accepts (candidate_of r) ≡ b
      → Filtered s all
      → Filtered (if b then hold_candidate r s else s) (hold_candidate r all)
  chosen-Filtered r true s all h f = record {
    dirs = f.dirs;
    records = f.records;
    candidates = rw (f.candidates, select-append all.candidates (candidate_of r), h) refl;
  }
  chosen-Filtered r false s all h f = record {
    dirs = f.dirs;
    records = f.records;
    candidates =
        rw (select-append all.candidates (candidate_of r), h)
          (f.candidates ∙ sym (append-nil (select accepts all.candidates)));
  }

  note_record-Filtered :
      (r : RawRecord) (s all : Scan)
      → Filtered s all
      → Filtered (note_record keep r s) (note_record everything r all)
  unfolding note_record
  note_record-Filtered r s all f =
      chosen-Filtered r (accepts (candidate_of r)) _ _ refl
        (held-Filtered r (is_directory r.attributes) s all f)

  note_frames-Filtered :
      (fs : List Frame) (s all : Scan)
      → Filtered s all
      → Filtered (note_frames keep fs s) (note_frames everything fs all)
  note_frames-Filtered [] s all f = f
  note_frames-Filtered (r ∷ fs) s all f =
      note_frames-Filtered fs _ _ (note_record-Filtered r.raw s all f)

  note_chunks-Filtered :
      (cs : List Chunk) (s all : Scan)
      → Filtered s all
      → Filtered (note_chunks keep cs s) (note_chunks everything cs all)
  note_chunks-Filtered [] s all f = f
  note_chunks-Filtered (c ∷ cs) s all f =
      note_chunks-Filtered cs _ _ (note_frames-Filtered c.frames s all f)

  map-select :
      (g : Candidate → Bytes) (cs : List Candidate)
      → map (λ c. entry_at (g c) c) (select accepts cs)
        ≡ select accepts_entry (map (λ c. entry_at (g c) c) cs)
  map-select g [] = refl
  map-select g (c ∷ cs) = elim (Bool-cases (accepts c)) [
    | inl yes' ↦ rw yes' (ap (◌∷◌ (entry_at (g c) c)) (map-select g cs))
    | inr no' ↦ rw no' (map-select g cs)
  ]

-- The two runs' listings, when the kernel answers both with the same whole buffers: the filter only
-- selects entries, and it changes neither a path nor the number of records and of directories.
pub enumerate-select :
    (device : Device) (spec volume : Bytes) (keep : Keep) (cs : List Chunk)
    → normalize_volume spec ≡ ok volume
    → device.require_ntfs volume ≡ none
    → device.open_volume volume ≡ none
    → All IsChunk cs
    → (all some_files : Listing) × (enumerate device
          (record { volume = spec; keep = none })
          (map reply_of cs ++ (end_of_table ∷ []))
        ≡ done all)
      × (enumerate device
            (record { volume = spec; keep = some keep })
            (map reply_of cs ++ (end_of_table ∷ []))
          ≡ done some_files)
      × (some_files.entries ≡ select (accepts_entry keep) all.entries)
      × (some_files.records ≡ all.records)
      × (some_files.directories ≡ all.directories)
enumerate-select device spec volume keep cs normal ntfs opened h =
    let s = note_chunks keep cs nothing in
    let t = note_chunks everything cs nothing in
    let f : Filtered keep s t =
      note_chunks-Filtered keep cs nothing nothing
        (record { dirs = refl; records = refl; candidates = refl }) in
    let path = λ (c : Candidate). path_or_empty (resolve_path volume t.dirs c.parent_ref c.name) in
    let lists_all = build_result-lists volume t.dirs t.candidates t.records in
    let lists_some = build_result-lists volume s.dirs s.candidates s.records in
    (
      build_result volume t.dirs t.candidates t.records,
      build_result volume s.dirs s.candidates s.records,
      enumerate-note_chunks device _ volume cs normal ntfs opened h,
      enumerate-note_chunks device _ volume cs normal ntfs opened h,
      rw (lists_all, lists_some, f.dirs, f.candidates) (map-select keep path t.candidates),
      rw (lists_all, lists_some) f.records,
      rw (lists_all, lists_some) (ap length f.dirs),
    )
