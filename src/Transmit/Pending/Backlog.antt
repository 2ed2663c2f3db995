-- ===== src/Transmit/Pending/Backlog.antt =====
-- What `Pending` lists, and what one unreadable state file does to the list.
use swinv.Prelude.{
  ◌≡◌, refl, ap, ◌∙◌, true, false, Bool, ◌||◌, ◌&&◌, not, ◌==◌, ◌≤◌, ◌<◌, ◌⊎◌, Bool-cases, inl, inr,
  List, [], ◌∷◌, ◌++◌, map, append_assoc, append-nil, none, some, Bytes, bytes_eq, codes, is_empty,
  has_suffix, has_suffix-append, trim_suffix-append, if◌then◌else◌, Result-cases, ok, err, All,
  arith,
}
use swinv.Prelude.Sort.{sort_by, IsSorted, sort_by-IsSorted, count_if, count_if-sort_by}
use swinv.Transmit.Retry.{Error, wrapped}
use swinv.Transmit.Spool.{Spool, SpoolState}
use swinv.Transmit.Pending.{
  DirEntry, Queue, perm_or, load_spool, is_wanted, is_state_file, name_of, add, walk, sorted,
  pending, is_created_before,
}

-- What stands in the spool directory: a queued scan, by the name, the content and the state of its
-- state file, or some other entry.
pub data Item : Type 0 where
  queued : Bytes → Bytes → SpoolState → Item
  other : DirEntry → Item

abbrev pub entry_of : Item → DirEntry
entry_of (queued name raw st) = record { name = name ++ codes ".state.json"; is_dir = false }
entry_of (other e) = e

-- The first was created no later than the second, and so on.
abbrev pub IsOldestFirst : List Spool → Type 0
IsOldestFirst [] = Unit
IsOldestFirst (s ∷ []) = Unit
IsOldestFirst (s ∷ t ∷ rest) = (s.state.created ≤ t.state.created) × IsOldestFirst (t ∷ rest)

IsSorted-IsOldestFirst : (ss : List Spool) → IsSorted is_created_before ss → IsOldestFirst ss
unfolding is_created_before
IsSorted-IsOldestFirst [] h = tt
IsSorted-IsOldestFirst (s ∷ []) h = tt
IsSorted-IsOldestFirst (s ∷ t ∷ rest) (le, h) =
    (ground (arith, le), IsSorted-IsOldestFirst (t ∷ rest) h)

is_created_before-asym :
    (s t : Spool) → is_created_before s t ≡ true → is_created_before t s ≡ false
unfolding is_created_before
is_created_before-asym s t h = ground (arith, h)

wanted_due :
    (asked built : Bytes) (there : Bool)
    → (if is_empty asked then true else if not (bytes_eq built asked) then false else there)
      ≡ (bytes_eq asked [] || (bytes_eq built asked && there))
unfolding bytes_eq
wanted_due [] built there = refl
wanted_due (b ∷ asked) built there = ground arith

module _ (queue : Queue) (dir endpoint : Bytes) where
  -- The state file is read and decoded and has batch sizes; another entry is a directory or is
  -- called otherwise.
  abbrev pub IsReadable : Item → Type 0
  IsReadable (queued name raw st) =
      (queue.read_file (queue.join dir (name ++ codes ".state.json")) ≡ ok raw)
      × (queue.decode raw ≡ ok st)
      × (0 < st.batch_lines)
      × (0 < st.batch_bytes)
  IsReadable (other e) = (e.is_dir ≡ true) ⊎ (has_suffix e.name (codes ".state.json") ≡ false)

  abbrev pub spool_of : Bytes → SpoolState → Spool
  spool_of name st = record {
    dir = dir;
    name = name;
    perm = perm_or 0o600 (queue.perm_of (queue.join dir (name ++ codes ".state.json")));
    dir_perm = perm_or 0o700 (queue.perm_of dir);
    state = st;
  }

  -- Every scan is due where no endpoint is asked for; otherwise those built for it whose payload is
  -- there.
  abbrev pub is_due : Bytes → SpoolState → Bool
  is_due name st =
      bytes_eq endpoint []
      || (bytes_eq st.endpoint endpoint
          && queue.has_file (queue.join dir (name ++ codes ".ndjson")))

  -- The queued scans that are due.
  abbrev pub backlog : List Item → List Spool
  backlog [] = []
  backlog (queued name raw st ∷ items) =
      let later = backlog items in if is_due name st then spool_of name st ∷ later else later
  backlog (other e ∷ items) = backlog items

  is_wanted-is_due :
      (name : Bytes) (st : SpoolState)
      → is_wanted queue endpoint (spool_of name st) ≡ is_due name st
  unfolding is_wanted
  is_wanted-is_due name st =
      wanted_due endpoint st.endpoint (queue.has_file (queue.join dir (name ++ codes ".ndjson")))

  load_spool-queued :
      (name raw : Bytes) (st : SpoolState)
      → IsReadable (queued name raw st)
      → load_spool queue dir name ≡ ok (spool_of name st)
  unfolding load_spool
  load_spool-queued name raw st (reads, decodes, lines, bytes) =
      let none' : ((st.batch_lines == 0) || (st.batch_bytes == 0)) ≡ false =
        ground (arith, lines, bytes) in
      rw (reads, decodes, none') refl

  add-backlog :
      (out : List Spool) (name raw : Bytes) (st : SpoolState) (items : List Item)
      → add queue endpoint out (spool_of name st) ++ backlog items
        ≡ out ++ backlog (queued name raw st ∷ items)
  add-backlog out name raw st items =
      rw (is_wanted-is_due name st) (elim (Bool-cases (is_due name st)) [
        | inl yes' ↦ rw yes' (append_assoc out (spool_of name st ∷ []) (backlog items))
        | inr no' ↦ rw no' refl
      ])

  is_state_file-other : (e : DirEntry) → IsReadable (other e) → is_state_file queue e ≡ false
  is_state_file-other e h = ground (arith, h)

  walk-backlog :
      (items : List Item) (out : List Spool)
      → All IsReadable items
      → walk queue dir endpoint (map entry_of items) out ≡ (out ++ backlog items, none)
  unfolding walk
  walk-backlog [] out h = rw (append-nil out) refl
  walk-backlog (other e ∷ items) out (h, hs) =
      rw (is_state_file-other e h) (walk-backlog items out hs)
  walk-backlog (queued name raw st ∷ items) out (h, hs) =
      rw
        (
          has_suffix-append name (codes ".state.json"),
          trim_suffix-append name (codes ".state.json"),
          load_spool-queued name raw st h,
        )
        (walk-backlog items (add queue endpoint out (spool_of name st)) hs
          ∙ ap (λ x. (x, none)) (add-backlog out name raw st items))

  walk-stops :
      (before rest : List DirEntry) (bad : DirEntry) (out : List Spool) (x : Error)
      → is_state_file queue bad ≡ true
      → load_spool queue dir (name_of queue bad) ≡ err x
      → walk queue dir endpoint (before ++ (bad ∷ rest)) out
        ≡ walk queue dir endpoint (before ++ (bad ∷ [])) out
  unfolding walk
  walk-stops [] rest bad out x state fails = rw (state, fails) refl
  walk-stops (e ∷ es) rest bad out x state fails = elim (Bool-cases (is_state_file queue e)) [
    | inr skip ↦ rw skip (walk-stops es rest bad out x state fails)
    | inl it ↦ elim (Result-cases (load_spool queue dir (name_of queue e))) [
      | inr (y, e') ↦ rw (it, e') refl
      | inl (s, e') ↦ rw (it, e') (walk-stops es rest bad (add queue endpoint out s) x state fails)
    ]
  ]

  walk-fails :
      (before rest : List DirEntry) (bad : DirEntry) (out : List Spool) (x : Error)
      → is_state_file queue bad ≡ true
      → load_spool queue dir (name_of queue bad) ≡ err x
      → (found : List Spool) × (e : Error) × (walk queue dir endpoint (before ++ (bad ∷ rest)) out
          ≡ (found, some e))
  unfolding walk
  walk-fails [] rest bad out x state fails =
      rw (state, fails) (out, wrapped (name_of queue bad) x, refl)
  walk-fails (e ∷ es) rest bad out x state fails = elim (Bool-cases (is_state_file queue e)) [
    | inr skip ↦ rw skip (walk-fails es rest bad out x state fails)
    | inl it ↦ elim (Result-cases (load_spool queue dir (name_of queue e))) [
      | inr (y, e') ↦ rw (it, e') (out, wrapped (name_of queue e) y, refl)
      | inl (s, e') ↦ rw (it, e') (walk-fails es rest bad (add queue endpoint out s) x state fails)
    ]
  ]

-- When the state files of a directory can be read, decoded and have batch sizes, and all its other
-- entries are directories or called otherwise, there is no error, and what is pending are exactly the
-- queued scans that are due, the oldest first.
pub pending-backlog :
    (queue : Queue) (dir endpoint : Bytes) (items : List Item)
    → All (IsReadable queue dir endpoint) items
    → (found : List Spool) × (pending queue dir endpoint (ok (some (map entry_of items)))
        ≡ (found, none))
      × IsOldestFirst found
      × ((p : Spool → Bool) → count_if p found ≡ count_if p (backlog queue dir endpoint items))
unfolding pending sorted
pending-backlog queue dir endpoint items h = (
  sort_by is_created_before (backlog queue dir endpoint items),
  rw (walk-backlog queue dir endpoint items [] h) refl,
  IsSorted-IsOldestFirst _ (
      sort_by-IsSorted is_created_before is_created_before-asym (backlog queue dir endpoint items)),
  λ p. count_if-sort_by is_created_before p (backlog queue dir endpoint items),
)

-- A state file that does not load makes `Pending` fail, and every entry behind it is ignored: without
-- those entries the spools listed and the error are the same.
pub pending_stops :
    (queue : Queue) (dir endpoint : Bytes) (before rest : List DirEntry) (bad : DirEntry)
    (x : Error)
    → is_state_file queue bad ≡ true
    → load_spool queue dir (name_of queue bad) ≡ err x
    → ((found : List Spool) × (e : Error) × (pending queue dir endpoint
            (ok (some (before ++ (bad ∷ rest))))
          ≡ (found, some e)))
      × (pending queue dir endpoint (ok (some (before ++ (bad ∷ rest))))
          ≡ pending queue dir endpoint (ok (some (before ++ (bad ∷ [])))))
unfolding pending sorted
pending_stops queue dir endpoint before rest bad x state fails =
    let (found, e, stops) = walk-fails queue dir endpoint before rest bad [] x state fails in
    (
      (found, e, ap (sorted) stops),
      ap (sorted) (walk-stops queue dir endpoint before rest bad [] x state fails),
    )
