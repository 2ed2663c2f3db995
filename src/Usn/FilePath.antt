-- ===== src/Usn/FilePath.antt =====
-- internal/usn/path.go: `mftIndex`, `resolvePath` and `buildResult`.
pub mod Chain
pub mod Accounts
use swinv.Prelude.{
  ℕ, zero, suc, ◌+◌, ◌/◌, ◌%◌, Bool, true, false, List, [], ◌∷◌, ◌++◌, Option, none, some, Bytes,
  codes, ◌==◌, if◌then◌else◌, length,
}
use swinv.Prelude.Assoc.{Assoc, lookup}

pub record Candidate : Type 0 where
  pub name : Bytes
  pub file_ref : ℕ
  pub parent_ref : ℕ
  pub attributes : ℕ

pub record DirEntry : Type 0 where
  pub name : Bytes
  pub parent : ℕ

abbrev pub root_file_index : ℕ
root_file_index = 5

abbrev pub max_path_depth : ℕ
max_path_depth = 512

-- The low 48 bits.
abbrev pub mft_index : ℕ → ℕ
mft_index ref = ref % 281474976710656

-- One step up: `next` goes on with the parent's index and the names so far.
unfoldable pub step_up :
    Assoc DirEntry → ℕ → List Bytes → (ℕ → List Bytes → Option (List Bytes)) → Option (List Bytes)
step_up dirs ref parts next = found (lookup ref dirs)
  where
    found : Option DirEntry → Option (List Bytes)
    found none = none
    found (some d) =
        let higher = next (mft_index d.parent) (parts ++ (d.name ∷ [])) in
        if mft_index d.parent == ref then none else higher

-- The loop, with `left` steps up to `max_path_depth`.
unfoldable pub climb : Assoc DirEntry → ℕ → ℕ → List Bytes → Option (List Bytes)
climb dirs zero ref parts = if ref == root_file_index then some parts else none
climb dirs (suc left) ref parts =
    if ref == root_file_index then some parts else step_up dirs ref parts (climb dirs left)

-- The parts from the last to the first, each after a separator.
unfoldable pub write_back : List Bytes → Bytes
write_back [] = []
write_back (part ∷ parts) = write_back parts ++ (b'\\' ∷ part)

abbrev written : Bytes → Bytes → Option (List Bytes) → Option Bytes
written volume name none = none
written volume name (some parts) = some (volume ++ (write_back parts ++ (b'\\' ∷ name)))

unfoldable pub resolve_path : Bytes → Assoc DirEntry → ℕ → Bytes → Option Bytes
unfolding climb write_back
resolve_path volume dirs parent_ref name =
    written volume name (climb dirs max_path_depth (mft_index parent_ref) [])

pub record Entry : Type 0 where
  pub path : Bytes
  pub name : Bytes
  pub is_dir : Bool
  pub attributes : ℕ
  pub file_ref : ℕ
  pub parent_ref : ℕ

pub record Listing : Type 0 where
  pub entries : List Entry
  pub records : ℕ
  pub directories : ℕ
  pub unresolved : ℕ

-- `attributes & attrDirectory != 0`.
abbrev pub is_directory : ℕ → Bool
is_directory attributes = attributes / 16 % 2 == 1

abbrev pub entry_at : Bytes → Candidate → Entry
entry_at path c = record {
  path = path;
  name = c.name;
  is_dir = is_directory c.attributes;
  attributes = c.attributes;
  file_ref = c.file_ref;
  parent_ref = c.parent_ref;
}

abbrev pub add_entry : Option Bytes → Candidate → Listing → Listing
add_entry (some path) c res = record {
  entries = res.entries ++ (entry_at path c ∷ []);
  records = res.records;
  directories = res.directories;
  unresolved = res.unresolved;
}
add_entry none c res = record {
  entries = res.entries ++ (entry_at [] c ∷ []);
  records = res.records;
  directories = res.directories;
  unresolved = suc res.unresolved;
}

unfoldable pub add_entries : Bytes → Assoc DirEntry → List Candidate → Listing → Listing
add_entries volume dirs [] res = res
add_entries volume dirs (c ∷ cs) res =
    add_entries volume dirs cs (add_entry (resolve_path volume dirs c.parent_ref c.name) c res)

unfoldable pub build_result : Bytes → Assoc DirEntry → List Candidate → ℕ → Listing
unfolding add_entries
build_result volume dirs candidates records =
    add_entries volume dirs candidates
      (record { entries = []; records = records; directories = length dirs; unresolved = 0 })
