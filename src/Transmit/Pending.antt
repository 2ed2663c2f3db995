-- ===== src/Transmit/Pending.antt =====
-- internal/transmit/spool.go: `Pending` and `loadSpool`. The directory and JSON are parameters; a batch
-- size below zero is decoded as 0. `sort.Slice` may order spools of the same time of creation in any
-- way; here they keep the order of the directory.
pub mod Backlog
mod Tests
use swinv.Prelude.{
  ℕ, Bool, true, false, not, ◌||◌, List, [], ◌∷◌, ◌++◌, Option, none, some, Bytes, codes, bytes_eq,
  has_suffix, trim_suffix, ◌==◌, ltb, if◌then◌else◌, is_empty, Result, ok, err,
}
use swinv.Prelude.Sort.{sort_by}
use swinv.Transmit.Retry.{Error, message, wrapped}
use swinv.Transmit.Spool.{SpoolState, Spool}

pub record DirEntry : Type 0 where
  pub name : Bytes
  pub is_dir : Bool

pub record Queue : Type 0 where
  pub join : Bytes → Bytes → Bytes
  pub read_file : Bytes → Result Error Bytes
  pub decode : Bytes → Result Error SpoolState
  pub perm_of : Bytes → Option ℕ
  pub has_file : Bytes → Bool

abbrev pub state_ext : Bytes
state_ext = codes ".state.json"

abbrev pub perm_or : ℕ → Option ℕ → ℕ
perm_or default none = default
perm_or default (some perm) = perm

unfoldable pub is_created_before : Spool → Spool → Bool
is_created_before s t = ltb s.state.created t.state.created

unfoldable pub sorted : List Spool × Option Error → List Spool × Option Error
unfolding sort_by is_created_before
sorted (out, some e) = (out, some e)
sorted (out, none) = (sort_by is_created_before out, none)

module _ (queue : Queue) where
  abbrev checked : Bytes → Bytes → SpoolState → Result Error Spool
  checked dir name st =
      if (st.batch_lines == 0) || (st.batch_bytes == 0)
      then err (message (codes "the state file records no batch sizes"))
      else ok (record {
        dir = dir;
        name = name;
        perm = perm_or 0o600 (queue.perm_of (queue.join dir (name ++ state_ext)));
        dir_perm = perm_or 0o700 (queue.perm_of dir);
        state = st;
      })

  abbrev decoded : Bytes → Bytes → Result Error SpoolState → Result Error Spool
  decoded dir name (err e) = err (wrapped (codes "the state file is not valid JSON") e)
  decoded dir name (ok st) = checked dir name st

  abbrev loaded : Bytes → Bytes → Result Error Bytes → Result Error Spool
  loaded dir name (err e) = err e
  loaded dir name (ok raw) = decoded dir name (queue.decode raw)

  unfoldable pub load_spool : Bytes → Bytes → Result Error Spool
  load_spool dir name = loaded dir name (queue.read_file (queue.join dir (name ++ state_ext)))

  -- Whether a loaded spool is listed.
  unfoldable pub is_wanted : Bytes → Spool → Bool
  is_wanted endpoint s =
      if is_empty endpoint
      then true
      else if not (bytes_eq s.state.endpoint endpoint)
      then false
      else queue.has_file (queue.join s.dir (s.name ++ codes ".ndjson"))

  abbrev pub is_state_file : DirEntry → Bool
  is_state_file e = not (e.is_dir || not (has_suffix e.name state_ext))

  abbrev pub name_of : DirEntry → Bytes
  name_of e = trim_suffix e.name state_ext

  -- The loop's next state, and whether it returns.
  abbrev pub add : Bytes → List Spool → Spool → List Spool
  add endpoint out s = if is_wanted endpoint s then out ++ (s ∷ []) else out

  abbrev pub visited :
      Bytes
      → Bytes
      → List Spool
      → Result Error Spool
      → (List Spool → List Spool × Option Error)
      → List Spool × Option Error
  visited endpoint name out (err e) next = (out, some (wrapped name e))
  visited endpoint name out (ok s) next = next (add endpoint out s)

  unfoldable pub walk : Bytes → Bytes → List DirEntry → List Spool → List Spool × Option Error
  unfolding load_spool is_wanted
  walk dir endpoint [] out = (out, none)
  walk dir endpoint (e ∷ es) out =
      let visit =
        visited endpoint (name_of e) out (load_spool dir (name_of e)) (walk dir endpoint es) in
      if is_state_file e then visit else walk dir endpoint es out

  abbrev listed : Bytes → Bytes → Result Error (Option (List DirEntry)) → List Spool × Option Error
  listed dir endpoint (err e) = ([], some (wrapped dir e))
  listed dir endpoint (ok none) = ([], none)
  listed dir endpoint (ok (some es)) = sorted (walk dir endpoint es [])

  -- The last argument is what reading the directory gives, `ok none` when there is none.
  unfoldable pub pending :
      Bytes → Bytes → Result Error (Option (List DirEntry)) → List Spool × Option Error
  unfolding walk sorted
  pending dir endpoint entries = listed dir endpoint entries
