-- ===== src/Transmit/Send/Payload.antt =====
-- The spool's payload stays what it was until it is walked, under whatever name.
use swinv.Prelude.{
  ℕ, ◌≡◌, ◌≢◌, refl, sym, inl, inr, ◌++◌, Bytes, bytes_eq, bytes_eq_iff, codes, ok, Bool-cases, ◌∙◌,
  false, is_empty, ltb, Eff, pure, Keeps, Keeps-bind, Keeps-after, bind-ok, ok-injective, ◌>>◌,
}
use mathlib.Core.Path.{subst, subst₂}
use swinv.Transmit.Payload.{File}
use swinv.Transmit.Name.{sanitize_spool_name}
use swinv.Transmit.Retry.{Error}
use swinv.Transmit.Spool.{
  Spool, Disk, Session, on_world, label, ignore, payload_path, state_path, save_state, set_scan_id,
  store_as, rename_as, manifest,
}
use swinv.Transmit.Request.{Client, Api, OpenResponse, open_scan, status}
use swinv.Transmit.Request.Calls.{KeptByNetwork, label-ok}
use swinv.Transmit.Send.{limits_of, adopt, resume_point}
use swinv.Transmit.Send.Keeps.{manifest-Keeps, open_scan-Keeps, status-Keeps}
use swinv.Transmit.Send.Custody.{goes_by}

-- `Contains w path content`: the file at `path` has this content. A file keeps it while others are
-- written, removed and opened and over requests, moves when it is renamed, and is read back. No state
-- file stands at a payload's path.
pub record Files {W : Type 0} (disk : Disk W) (api : Api W) (Contains : W → Bytes → Bytes → Type 0)
    : Type 0 where
  pub apart :
      (dir a b : Bytes)
      → disk.join dir (a ++ codes ".state.json") ≢ disk.join dir (b ++ codes ".ndjson")
  pub write :
      (path other content text : Bytes) (perm : ℕ)
      → path ≢ other
      → Keeps (λ w. Contains w other content) (disk.atomic_write_file path perm text)
  pub remove :
      (path other content : Bytes)
      → path ≢ other
      → Keeps (λ w. Contains w other content) (disk.remove path)
  pub rename :
      (from to content : Bytes) (w w' : W)
      → Contains w from content
      → disk.rename from to w ≡ (ok tt, w')
      → Contains w' to content
  pub open_file :
      (path other content : Bytes) → Keeps (λ w. Contains w other content) (disk.open_file path)
  pub reads :
      (path content : Bytes) (w w' : W) (file : File Error)
      → Contains w path content
      → disk.open_file path w ≡ (ok file, w')
      → file.content ≡ content
  pub by_network : (path content : Bytes) → KeptByNetwork api (λ w. Contains w path content)

module _ {W : Type 0} (disk : Disk W) (api : Api W) (client : Client)
    (Contains : W → Bytes → Bytes → Type 0) (files : Files disk api Contains)
    (content : Bytes) where
  open files use {apart, write, remove, rename, by_network}

  -- The session is at this spool, whose payload has the content.
  abbrev pub IsAt : Spool → Session W → Type 0
  IsAt sp s = (s.spool ≡ sp) × Contains s.world (payload_path disk sp) content

  pub IsAt-on_world :
      {A : Type 0} (sp : Spool) (m : Eff W Error A)
      → Keeps (λ w. Contains w (payload_path disk sp) content) m
      → Keeps (IsAt sp) (on_world m)
  IsAt-on_world sp m k = record { at = λ s h. (h.0, k.at s.world h.1) }

  -- The state file of a spool is written or removed.
  save_state-Contains :
      (sp : Spool) → Keeps (λ w. Contains w (payload_path disk sp) content) (save_state disk sp)
  unfolding save_state
  save_state-Contains sp =
      write (state_path disk sp) (payload_path disk sp) content (disk.encode sp.state) sp.perm
        (apart sp.dir sp.name sp.name)

  pub manifest-IsAt : (sp : Spool) → Keeps (IsAt sp) (on_world (manifest disk sp))
  manifest-IsAt sp = IsAt-on_world sp (manifest disk sp) (
      manifest-Keeps disk (λ w. Contains w (payload_path disk sp) content) sp
        (files.open_file (payload_path disk sp) (payload_path disk sp) content))

  pub open_scan-IsAt :
      (sp : Spool) (line : Bytes) → Keeps (IsAt sp) (on_world (open_scan api client line))
  open_scan-IsAt sp line = IsAt-on_world sp (open_scan api client line) (
      open_scan-Keeps api client (λ w. Contains w (payload_path disk sp) content)
        (by_network (payload_path disk sp) content) line)

  pub resume_point-IsAt :
      (sp : Spool) (id : Bytes) (opened : OpenResponse)
      → Keeps (IsAt sp) (resume_point disk api client id opened)
  unfolding resume_point
  resume_point-IsAt sp id opened = record {
    at = λ s h. elim (Bool-cases (ltb 0 s.spool.state.acked)) [
      | inl e ↦
          rw (e, resume_point)
            ((Keeps-bind (on_world (status api client id)) (λ st. pure st.resume_from)
                (IsAt-on_world sp (status api client id) (
                  status-Keeps api client (λ w. Contains w (payload_path disk sp) content)
                    (by_network (payload_path disk sp) content) id))
                (λ st. record { at = λ t k. k })).at
              s h)
      | inr e ↦ rw (e, resume_point) h
    ];
  }

  -- The spool under the id that the server named.
  abbrev renamed : Bytes → Spool → Spool
  renamed id sp = record sp {
    name = sanitize_spool_name id;
    state = record sp.state { scan_id = id };
  }

  rename_as-IsAt :
      (id : Bytes) (s s' : Session W)
      → IsAt s.spool s
      → rename_as disk s.spool (renamed id) s ≡ (ok tt, s')
      → IsAt (renamed id s.spool) s'
  unfolding rename_as
  rename_as-IsAt id s s' h e =
      let sp = renamed id s.spool in
      let move =
        label (codes "renaming the spool payload")
          (disk.rename (payload_path disk s.spool) (payload_path disk sp)) in
      let (u, t, moved, rest) =
        bind-ok (on_world move)
          (λ _.
            on_world (save_state disk sp)
            >> on_world (ignore (disk.remove (state_path disk s.spool))))
          (record s { spool = sp }) e in
      let there : Contains t.world (payload_path disk sp) content =
        rename (payload_path disk s.spool) (payload_path disk sp) content s.world t.world h.1 (
          label-ok (codes "renaming the spool payload")
            (disk.rename (payload_path disk s.spool) (payload_path disk sp)) s.world
            (λ k. ((moved k).0, (moved k).1.world))) in
      let cleared : Keeps (IsAt sp) (on_world (ignore (disk.remove (state_path disk s.spool)))) =
        IsAt-on_world sp _ (record {
          at = λ w c.
              (remove (state_path disk s.spool) (payload_path disk sp) content
                  (apart s.spool.dir s.spool.name sp.name)).at
                w c;
        }) in
      Keeps-after (IsAt sp) _
        (Keeps-bind (on_world (save_state disk sp))
          (λ _. on_world (ignore (disk.remove (state_path disk s.spool))))
          (IsAt-on_world sp _ (save_state-Contains sp)) (λ _. cleared))
        t (ok tt) s' rest ((λ k. (sym moved k).1.spool), there)

  -- What `Send` works on once it follows the server's id.
  pub record Adopted (s : Session W) (minted used : Bytes) (s' : Session W) : Type 0 where
    pub spool : Spool
    pub at : IsAt spool s'
    pub named : spool.state.scan_id ≡ used
    pub by_server : used ≡ goes_by s.spool.state.scan_id minted
    pub sizes : limits_of spool ≡ limits_of s.spool

  set_scan_id-Adopted :
      (id : Bytes) (s s' : Session W)
      → IsAt s.spool s
      → is_empty id ≡ false
      → set_scan_id disk id s ≡ (ok tt, s')
      → Adopted s id id s'
  unfolding set_scan_id store_as
  set_scan_id-Adopted id s s' h filled e =
      elim (Bool-cases (bytes_eq (sanitize_spool_name id) s.spool.name)) [
        | inl same ↦
            let sp : Spool = record s.spool { state = record s.spool.state { scan_id = id } } in
            record {
              spool = sp;
              at =
                  Keeps-after (IsAt sp) (on_world (save_state disk sp))
                    (IsAt-on_world sp _ (save_state-Contains sp)) (record s { spool = sp }) (ok tt)
                    s' (rw (same, set_scan_id) at e) (refl, h.1);
              named = refl;
              by_server = rw filled refl;
              sizes = refl;
            }
        | inr new ↦ record {
          spool = renamed id s.spool;
          at = rename_as-IsAt id s s' h (rw (new, set_scan_id) at e);
          named = refl;
          by_server = rw filled refl;
          sizes = refl;
        }
      ]

  unchanged :
      (minted : Bytes) (s : Session W) (used : Bytes) (s' : Session W)
      → IsAt s.spool s
      → s.spool.state.scan_id ≡ goes_by s.spool.state.scan_id minted
      → pure {E = Error} s.spool.state.scan_id s ≡ (ok used, s')
      → Adopted s minted used s'
  unchanged minted s used s' h by e =
      let (same, here) = ok-injective e in
      record {
        spool = s.spool;
        at = subst (IsAt s.spool) here h;
        named = same;
        by_server = sym same ∙ by;
        sizes = refl;
      }

  pub adopt-Adopted :
      (minted : Bytes) (s : Session W) (used : Bytes) (s' : Session W)
      → IsAt s.spool s
      → adopt disk api client s.spool.state.scan_id minted s ≡ (ok used, s')
      → Adopted s minted used s'
  unfolding adopt
  adopt-Adopted minted s used s' h e = elim (Bool-cases (is_empty minted)) [
    | inl blank ↦ unchanged minted s used s' h (rw blank refl) (rw (blank, adopt) at e)
    | inr filled ↦ elim (Bool-cases (bytes_eq minted s.spool.state.scan_id)) [
      | inl same ↦
          unchanged minted s used s' h
            (rw filled (sym ((bytes_eq_iff minted s.spool.state.scan_id).0 same)))
            (rw (filled, same, adopt) at e)
      | inr new ↦
          let (u, t, changed, rest) =
            bind-ok (set_scan_id disk minted) (λ _. pure minted) s (rw (filled, new, adopt) at e) in
          let (same, here) = ok-injective rest in
          subst₂ (Adopted s minted) same here (set_scan_id-Adopted minted s t h filled changed)
    ]
  ]
