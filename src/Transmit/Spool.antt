-- ===== src/Transmit/Spool.antt =====
-- internal/transmit/spool.go: the spool on disk and the record of how much of it the server has.
-- Paths, files and JSON belong to the standard library and to internal/output: a `Disk` stands for them.
use swinv.Prelude.{
  ℕ, ◌+◌, Bool, [], ◌∷◌, ◌++◌, Option, none, some, Bytes, codes, bytes_eq, leb, if◌then◌else◌,
  is_empty, Result, ok, err, Eff, pure, fail, ◌>>=◌, ◌>>◌,
}
use swinv.Transmit.Payload.{File, read_lines, trim_newline}
use swinv.Transmit.Batches.{Limits}
use swinv.Transmit.Name.{sanitize_spool_name}
use swinv.Transmit.Retry.{Error, message, wrapped}

pub record SpoolState : Type 0 where
  pub scan_id : Bytes
  pub endpoint : Bytes
  pub hostname : Bytes
  pub created : ℕ
  pub batch_lines : ℕ
  pub batch_bytes : ℕ
  pub acked : ℕ
  pub declared : ℕ

pub record Spool : Type 0 where
  pub dir : Bytes
  pub name : Bytes
  pub perm : ℕ
  pub dir_perm : ℕ
  pub state : SpoolState

-- `W` is the state of the world that the operations change: the files here, the server elsewhere.
pub record Disk (W : Type 0) : Type 0 where
  pub join : Bytes → Bytes → Bytes
  pub make_dir : Bytes → ℕ → Eff W Error Unit
  pub atomic_write_file : Bytes → ℕ → Bytes → Eff W Error Unit
  pub rename : Bytes → Bytes → Eff W Error Unit
  pub remove : Bytes → Eff W Error Unit
  pub is_not_exist : Error → Bool
  pub open_file : Bytes → Eff W Error (File Error)
  pub now : W → ℕ
  pub encode : SpoolState → Bytes
  pub record_type : Bytes → Result Error Bytes

-- The spool that a method changes, and the world.
pub record Session (W : Type 0) : Type 0 where
  pub spool : Spool
  pub world : W

abbrev pub on_world : {W A : Type 0} → Eff W Error A → Eff (Session W) Error A
on_world m s = let (r, w) = m s.world in (r, record s { world = w })

abbrev pub update : {W : Type 0} → (Spool → Spool) → Eff (Session W) Error Unit
update f s = (ok tt, record s { spool = f s.spool })

abbrev pub get : {W : Type 0} → Eff (Session W) Error Spool
get s = (ok s.spool, s)

-- Report an error of `m` as it is wrapped by the caller.
abbrev pub label : {S A : Type 0} → Bytes → Eff S Error A → Eff S Error A
label text m s =
    let (r, s') = m s in elim r [ ok a ↦ (ok a, s') | err e ↦ (err (wrapped text e), s') ]

-- `_ = f()`: the error is dropped.
abbrev pub ignore : {S A : Type 0} → Eff S Error A → Eff S Error Unit
ignore m s = let (r, s') = m s in (ok tt, s')

module _ {W : Type 0} (disk : Disk W) where
  abbrev pub payload_path : Spool → Bytes
  payload_path s = disk.join s.dir (s.name ++ codes ".ndjson")

  abbrev pub state_path : Spool → Bytes
  state_path s = disk.join s.dir (s.name ++ codes ".state.json")

  unfoldable pub save_state : Spool → Eff W Error Unit
  save_state s = disk.atomic_write_file (state_path s) s.perm (disk.encode s.state)

  -- `NewSpool`: `write` is the NDJSON that the caller's function writes.
  unfoldable pub new_spool : Bytes → Limits → Bytes → Bytes → Bytes → ℕ → Bytes → Eff W Error Spool
  unfolding save_state
  new_spool base limits dir scan_id hostname declared write w =
      let s : Spool = record {
        dir = dir;
        name = sanitize_spool_name scan_id;
        perm = 0o600;
        dir_perm = 0o700;
        state = record {
          scan_id = scan_id;
          endpoint = base;
          hostname = hostname;
          created = disk.now w;
          batch_lines = limits.batch_lines;
          batch_bytes = limits.batch_bytes;
          acked = 0;
          declared = declared;
        };
      } in
      let unwind = λ (e : Error). do ignore (disk.remove (payload_path s)); fail e
      in (do
        label (codes "creating the spool directory") (disk.make_dir dir 0o700)
        label (codes "spooling the scan") (disk.atomic_write_file (payload_path s) s.perm write)
        (λ v. let (r, v') = save_state s v in elim r [ ok u ↦ (ok s, v') | err e ↦ unwind e v' ]))
        w

  -- Change the spool, and save its state.
  unfoldable pub store_as : (Spool → Spool) → Eff (Session W) Error Unit
  unfolding save_state
  store_as f = do update f; s ← get; on_world (save_state s)

  unfoldable pub rename_as : Spool → (Spool → Spool) → Eff (Session W) Error Unit
  unfolding save_state
  rename_as old f = do
    update f
    s ← get
    on_world (
        label (codes "renaming the spool payload")
          (disk.rename (payload_path old) (payload_path s)))
    on_world (save_state s)
    on_world (ignore (disk.remove (state_path old)))

  -- `SetScanID`: the fields of the spool change before the files do.
  unfoldable pub set_scan_id : Bytes → Eff (Session W) Error Unit
  unfolding store_as rename_as
  set_scan_id id = do
    old ← get
    let new_name = sanitize_spool_name id
    let named = λ (s : Spool). record s { name = new_name; state = record s.state { scan_id = id } }
    if bytes_eq new_name old.name
        then store_as (λ s. record s { state = record s.state { scan_id = id } })
        else rename_as old named

  -- `Ack`.
  unfoldable pub ack : ℕ → Eff (Session W) Error Unit
  unfolding store_as
  ack index = do
    old ← get
    if leb (index + 1) old.state.acked
        then pure tt
        else store_as (λ s. record s { state = record s.state { acked = index + 1 } })

  -- One path of `Done`: the error that is reported is the first.
  unfoldable pub remove_spooled : Bytes → Option Error → W → Option Error × W
  remove_spooled path first w =
      let (r, w') = disk.remove path w in
      elim r [
        | ok u ↦ (first, w')
        | err e ↦ if disk.is_not_exist e then (first, w') else elim first [
          | some f ↦ (some f, w')
          | none ↦ (some (wrapped (codes "removing") e), w')
        ]
      ]

  unfoldable pub done : Spool → W → Option Error × W
  unfolding remove_spooled
  done s w =
      let (first, w') = remove_spooled (payload_path s) none w in
      remove_spooled (state_path s) first w'

  -- The first result of `ReadBytes('\n')`, and whether the file failed before the delimiter.
  abbrev pub first_line : File Error → Result Error Bytes
  first_line file = elim (read_lines file.content).complete [
    | l ∷ ls ↦ ok l
    | [] ↦ elim file.failure [ none ↦ ok (read_lines file.content).last | some e ↦ err e ]
  ]

  check_manifest : Bytes → Result Error Bytes
  unfolding bytes_eq
  check_manifest line =
      if is_empty line
      then err (message (codes "the spooled scan is empty"))
      else elim (disk.record_type line) [
        | err e ↦ err (wrapped (codes "not JSON") e)
        | ok kind ↦
            if bytes_eq kind (codes "heartbeat")
            then ok line
            else err (wrapped kind (message (codes "not the manifest")))
      ]

  -- `Manifest`.
  unfoldable pub manifest : Spool → Eff W Error Bytes
  unfolding check_manifest trim_newline read_lines
  manifest s w =
      let (r, w') = disk.open_file (payload_path s) w in
      elim r [
        | err e ↦ (err (wrapped (codes "reading the spooled scan") e), w')
        | ok file ↦ elim (first_line file) [
          | err e ↦ (err (wrapped (codes "reading the manifest") e), w')
          | ok raw ↦ (check_manifest (trim_newline raw), w')
        ]
      ]
