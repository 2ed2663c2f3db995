-- ===== src/Transmit/Send/Keeps.antt =====
-- What the files and the network keep, every step of `Send` keeps.
use swinv.Prelude.{
  ℕ, Bool, true, false, inl, inr, Bytes, Result-cases, Eff, pure, Keeps, Keeps-bind, ◌>>◌, ◌+◌, leb,
  codes, bytes_eq, Bool-cases, if◌then◌else◌,
}
use swinv.Transmit.Name.{sanitize_spool_name}
use swinv.Transmit.Retry.{Error}
use swinv.Transmit.Spool.{
  Spool, Disk, Session, on_world, get, update, label, ignore, payload_path, state_path, save_state,
  manifest, set_scan_id, ack, first_line, store_as, rename_as,
}
use swinv.Transmit.Request.{Client, Api, OpenResponse, open_scan, status, post_batch, close_scan}
use swinv.Transmit.Request.Calls.{KeptByNetwork, do_request-Keeps}
use swinv.Transmit.Send.{adopt, resume_point}

pub record KeptByDisk {W : Type 0} (disk : Disk W) (P : W → Type 0) : Type 0 where
  pub write :
      (path : Bytes) (perm : ℕ) (content : Bytes)
      → Keeps P (disk.atomic_write_file path perm content)
  pub rename : (from to : Bytes) → Keeps P (disk.rename from to)
  pub remove : (path : Bytes) → Keeps P (disk.remove path)
  pub open_file : (path : Bytes) → Keeps P (disk.open_file path)

module _ {W : Type 0} (P : W → Type 0) where
  abbrev pub InWorld : Session W → Type 0
  InWorld s = P s.world

  pub Keeps-label :
      {A : Type 0} (text : Bytes) (m : Eff W Error A) → Keeps P m → Keeps P (label text m)
  Keeps-label text m k = record {
    at = λ s h. elim (Result-cases (m s).0) [
      | inl (a, e) ↦ rw (e, label) (k.at s h)
      | inr (x, e) ↦ rw (e, label) (k.at s h)
    ];
  }

  pub Keeps-on_world : {A : Type 0} (m : Eff W Error A) → Keeps P m → Keeps InWorld (on_world m)
  Keeps-on_world m k = record { at = λ s h. k.at s.world h }

  Keeps-ignore : {A : Type 0} (m : Eff W Error A) → Keeps P m → Keeps P (ignore m)
  Keeps-ignore m k = record { at = λ s h. k.at s h }

  Keeps-update : (f : Spool → Spool) → Keeps InWorld (update f)
  Keeps-update f = record { at = λ s h. h }

  Keeps-get : Keeps InWorld get
  Keeps-get = record { at = λ s h. h }

  Keeps-pure : {A : Type 0} (a : A) → Keeps {E = Error} InWorld (pure a)
  Keeps-pure a = record { at = λ s h. h }

Keeps-if :
    {S E A : Type 0} (P : S → Type 0) (b : Bool) (m n : Eff S E A)
    → Keeps P m
    → Keeps P n
    → Keeps P (if b then m else n)
Keeps-if P true m n km kn = km
Keeps-if P false m n km kn = kn

ruleset keeps_rules = (
  Keeps-bind, Keeps-label, Keeps-on_world, Keeps-ignore, Keeps-update, Keeps-get, Keeps-pure,
  Keeps-if,
)

module _ {W : Type 0} (disk : Disk W) (P : W → Type 0) (k : KeptByDisk disk P) where
  save_state-Keeps : (s : Spool) → Keeps P (save_state disk s)
  unfolding save_state
  save_state-Keeps s = k.write (state_path disk s) s.perm (disk.encode s.state)

  store_as-Keeps : (f : Spool → Spool) → Keeps (InWorld P) (store_as disk f)
  unfolding store_as
  store_as-Keeps f = record { at = λ s h. (save_state-Keeps (f s.spool)).at s.world h }

  rename_as-Keeps : (old : Spool) (f : Spool → Spool) → Keeps (InWorld P) (rename_as disk old f)
  unfolding rename_as
  rename_as-Keeps old f = record {
    at = λ s h.
        let files : Keeps (InWorld P) (do
          on_world (
              label (codes "renaming the spool payload")
                (disk.rename (payload_path disk old) (payload_path disk (f s.spool))))
          on_world (save_state disk (f s.spool))
          on_world (ignore (disk.remove (state_path disk old)))) =
          search (keeps_rules, save_state-Keeps, k.rename, k.remove) depth 8 in
        files.at (record s { spool = f s.spool }) h;
  }

  pub ack-Keeps : (index : ℕ) → Keeps (InWorld P) (ack disk index)
  unfolding ack
  ack-Keeps index = record {
    at = λ s h.
        (Keeps-if (InWorld P) (leb (index + 1) s.spool.state.acked) (pure tt)
            (store_as disk (λ t. record t { state = record t.state { acked = index + 1 } }))
            (Keeps-pure P tt) (store_as-Keeps _)).at
          s h;
  }

  set_scan_id-Keeps : (id : Bytes) → Keeps (InWorld P) (set_scan_id disk id)
  unfolding set_scan_id
  set_scan_id-Keeps id = record {
    at = λ s h. elim (Bool-cases (bytes_eq (sanitize_spool_name id) s.spool.name)) [
      | inl e ↦
          rw (e, set_scan_id)
            ((store_as-Keeps (λ t. record t { state = record t.state { scan_id = id } })).at s h)
      | inr e ↦
          rw (e, set_scan_id)
            ((rename_as-Keeps s.spool (λ t. record t {
              name = sanitize_spool_name id;
              state = record t.state { scan_id = id };
            })).at
              s h)
    ];
  }

  pub adopt-Keeps :
      (api : Api W) (client : Client) (scan_id minted : Bytes)
      → Keeps (InWorld P) (adopt disk api client scan_id minted)
  unfolding adopt
  adopt-Keeps api client scan_id minted = search (keeps_rules, set_scan_id-Keeps)

pub manifest-Keeps :
    {W : Type 0} (disk : Disk W) (P : W → Type 0) (s : Spool)
    → Keeps P (disk.open_file (payload_path disk s))
    → Keeps P (manifest disk s)
unfolding manifest
manifest-Keeps disk P s k = record {
  at = λ w h. elim (Result-cases (disk.open_file (payload_path disk s) w).0) [
    | inr (e, x) ↦ rw (x, manifest) (k.at w h)
    | inl (file, x) ↦ elim (Result-cases (first_line disk file)) [
      | inr (e, y) ↦ rw (x, y, manifest) (k.at w h)
      | inl (l, y) ↦ rw (x, y, manifest) (k.at w h)
    ]
  ];
}

module _ {W : Type 0} (api : Api W) (client : Client) (P : W → Type 0)
    (k : KeptByNetwork api P) where
  pub open_scan-Keeps : (line : Bytes) → Keeps P (open_scan api client line)
  unfolding open_scan
  open_scan-Keeps line = Keeps-label P _ _ (do_request-Keeps api client P k _ _ _ _ _ _ _)

  pub status-Keeps : (id : Bytes) → Keeps P (status api client id)
  unfolding status
  status-Keeps id = Keeps-label P _ _ (do_request-Keeps api client P k _ _ _ _ _ _ _)

  pub post_batch-Keeps :
      (id : Bytes) (index : ℕ) (body : Bytes) → Keeps P (post_batch api client id index body)
  unfolding post_batch
  post_batch-Keeps id index body = Keeps-label P _ _ (do_request-Keeps api client P k _ _ _ _ _ _ _)

  pub close_scan-Keeps : (id : Bytes) → Keeps P (close_scan api client id)
  unfolding close_scan
  close_scan-Keeps id =
      Keeps-bind _ _ (Keeps-label P _ _ (do_request-Keeps api client P k _ _ _ _ _ _ _))
        (λ out. record { at = λ s h. h })

  pub resume_point-Keeps :
      (disk : Disk W) (id : Bytes) (opened : OpenResponse)
      → Keeps (InWorld P) (resume_point disk api client id opened)
  unfolding resume_point
  resume_point-Keeps disk id opened = search (keeps_rules, status-Keeps)
