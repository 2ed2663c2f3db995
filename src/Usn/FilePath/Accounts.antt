-- ===== src/Usn/FilePath/Accounts.antt =====
-- What `buildResult` lists and counts.
use swinv.Prelude.{
  ℕ, suc, ◌+◌, ◌≡◌, refl, sym, ap, ◌∙◌, false, inl, inr, List, [], ◌∷◌, ◌++◌, append_assoc,
  append-nil, Option, Option-cases, none, some, Bytes, is_empty, if◌then◌else◌, length, map, arith,
}
use mathlib.Core.Path.{ap₂}
use swinv.Prelude.Assoc.{Assoc}
use swinv.Usn.FilePath.{
  Candidate, DirEntry, Entry, Listing, entry_at, add_entries, build_result, resolve_path, climb,
  max_path_depth, mft_index, write_back,
}

-- The path, or the empty text where there is none.
abbrev pub path_or_empty : Option Bytes → Bytes
path_or_empty none = []
path_or_empty (some path) = path

abbrev pub without_path : List Entry → ℕ
without_path [] = 0
without_path (e ∷ es) = if is_empty e.path then suc (without_path es) else without_path es

module _ (volume : Bytes) (dirs : Assoc DirEntry) where
  abbrev entry_of : Candidate → Entry
  entry_of c = entry_at (path_or_empty (resolve_path volume dirs c.parent_ref c.name)) c

  not_empty_after : (a : Bytes) (c : ℕ) (b rest : Bytes) → is_empty (a ++ (b ++ (c ∷ rest))) ≡ false
  not_empty_after [] c [] rest = refl
  not_empty_after [] c (x ∷ b) rest = refl
  not_empty_after (x ∷ a) c b rest = refl

  resolved-not_empty :
      (parent : ℕ) (name path : Bytes)
      → resolve_path volume dirs parent name ≡ some path
      → is_empty path ≡ false
  unfolding resolve_path
  resolved-not_empty parent name path h =
      elim (Option-cases (climb dirs max_path_depth (mft_index parent) [])) [
        | inl missing ↦ absurd (cc (rw missing at h))
        | inr (out, reached) ↦
            let same : volume ++ (write_back out ++ (b'\\' ∷ name)) ≡ path = cc (rw reached at h) in
            sym (ap is_empty same) ∙ not_empty_after volume b'\\' (write_back out) name
      ]

  abbrev listing : List Entry → ℕ → ℕ → ℕ → Listing
  listing entries records directories unresolved = record {
    entries = entries;
    records = records;
    directories = directories;
    unresolved = unresolved;
  }

  add_entries-lists :
      (cs : List Candidate) (es : List Entry) (r d u : ℕ)
      → add_entries volume dirs cs (listing es r d u)
        ≡ listing (es ++ map entry_of cs) r d (u + without_path (map entry_of cs))
  unfolding add_entries
  add_entries-lists [] es r d u =
      let same : u ≡ u + 0 = omega arith in ap₂ (λ x y. listing x r d y) (sym (append-nil es)) same
  add_entries-lists (c ∷ cs) es r d u =
      elim (Option-cases (resolve_path volume dirs c.parent_ref c.name)) [
        | inl missing ↦
            let e = entry_at [] c in
            let same : suc u + without_path (map entry_of cs)
                ≡ u + suc (without_path (map entry_of cs)) =
              omega arith in
            rw missing (
              add_entries-lists cs (es ++ (e ∷ [])) r d (suc u)
              ∙ ap₂ (λ x y. listing x r d y) (append_assoc es (e ∷ []) (map entry_of cs)) same)
        | inr (path, found) ↦
            let e = entry_at path c in
            rw (found, resolved-not_empty c.parent_ref c.name path found)
              (add_entries-lists cs (es ++ (e ∷ [])) r d u
                ∙ ap (λ x. listing x r d (u + without_path (map entry_of cs)))
                    (append_assoc es (e ∷ []) (map entry_of cs)))
      ]

-- The listing has one entry for each candidate, in their order, with the candidate's name and
-- attributes and with the resolved path or, where there is none, the empty text; it counts exactly
-- the entries whose path is empty as unresolved.
pub build_result-lists :
    (volume : Bytes) (dirs : Assoc DirEntry) (cs : List Candidate) (records : ℕ)
    → build_result volume dirs cs records ≡ record {
      entries =
          map (λ c. entry_at (path_or_empty (resolve_path volume dirs c.parent_ref c.name)) c) cs;
      records = records;
      directories = length dirs;
      unresolved =
          without_path (
            map
              (λ c. entry_at (path_or_empty (resolve_path volume dirs c.parent_ref c.name)) c)
              cs);
    }
unfolding build_result
build_result-lists volume dirs cs records =
    let es = map (entry_of volume dirs) cs in
    let same : 0 + without_path es ≡ without_path es = omega arith in
    add_entries-lists volume dirs cs [] records (length dirs) 0
    ∙ ap (listing volume dirs es records (length dirs)) same
