-- ===== src/Transmit/Send/Resumed.antt =====
-- From the answer to the manifest to the verdict: nothing of the payload is left behind.
use swinv.Prelude.{
  ℕ, ◌+◌, ◌≡◌, inl, inr, refl, sym, ap, ◌∙◌, none, some, ok, Bool-cases, List, [], Bytes, codes,
  get_elem?, ltb, map, arith, pure, Keeps-after, bind-ok, ok-injective,
}
use mathlib.Core.Path.{subst, subst₂}
use swinv.Transmit.Batches.{each_batch}
use swinv.Transmit.Batches.Plan.{
  body, cut, deliver, record_lines, each_batch-deliver, each_batch-readable,
}
use swinv.Transmit.Spool.{Spool, Disk, Session, on_world, label, payload_path}
use swinv.Transmit.Request.{
  Client, Api, OpenResponse, StatusResponse, CloseVerdict, open_scan, status, close_scan,
}
use swinv.Transmit.Request.Calls.{open_scan-ok, status-ok, label-ok}
use swinv.Transmit.Send.{limits_of, adopt, resume_point, send_batch, send_batches}
use swinv.Transmit.Send.Keeps.{adopt-Keeps, close_scan-Keeps}
use swinv.Transmit.Send.Custody.{Custody, HoldsTexts, goes_by, delivered-HoldsTexts}
use swinv.Transmit.Send.Payload.{Files, IsAt, resume_point-IsAt, adopt-Adopted}
use swinv.Transmit.Send.Named.{delivered-GoesBy}

-- The bodies of the batches into which a payload is cut, by the batch sizes that the spool records.
abbrev pub texts_of : Spool → Bytes → List Bytes
texts_of sp content = map body (cut (limits_of sp) [] (record_lines content))

-- The server holds all texts, in their places, under the id that the spool goes by.
abbrev pub Uploaded :
    {W : Type 0} → (W → Bytes → ℕ → Bytes → Type 0) → List Bytes → Session W → Type 0
Uploaded Stored texts s =
    (i : ℕ) (text : Bytes)
    → get_elem? texts i ≡ some text
    → Stored s.world s.spool.state.scan_id i text

module _ {W : Type 0} (disk : Disk W) (api : Api W) (client : Client)
    (Stored : W → Bytes → ℕ → Bytes → Type 0) (Ours : Bytes → Type 0) (own : Bytes)
    (texts : List Bytes) (custody : Custody disk api client Stored Ours own texts) where
  open custody use {by_disk, by_network, ours, opened, asked}

  abbrev pub Held : Bytes → ℕ → W → Type 0
  Held = HoldsTexts Stored texts

  -- What the server has promised once it answered the manifest.
  abbrev pub Promised : OpenResponse → W → Type 0
  Promised a w = Ours (goes_by own a.scan_id) × Held (goes_by own a.scan_id) a.resume_from w

  pub open_scan-Promised :
      (line : Bytes) (w : W) (a : OpenResponse) (w' : W)
      → open_scan api client line w ≡ (ok a, w')
      → Promised a w'
  open_scan-Promised line w a w' h =
      let r = open_scan-ok api client line w a w' h in
      elim r.value [
        | inl e ↦
            subst (λ (x : OpenResponse). Promised x w') (sym e)
              (ours, λ j x p. absurd (omega (arith, p)))
        | inr e ↦ opened r.request r.asked r.response w' a r.of_url r.answered r.accepted e
      ]

  status-Held :
      (id : Bytes) (w : W) (a : StatusResponse) (w' : W)
      → Ours id
      → status api client id w ≡ (ok a, w')
      → Held id a.resume_from w'
  status-Held id w a w' o h =
      let r = status-ok api client id w a w' h in
      λ j x p. elim r.value [
        | inl e ↦ absurd (omega (arith, p, ap (λ (y : StatusResponse). y.resume_from) e))
        | inr e ↦
            asked id o r.request r.asked r.response w' a r.of_url r.answered r.accepted e j x p
      ]

  adopt-Held :
      (id minted : Bytes) (s : Session W) (used : Bytes) (s' : Session W) (n : ℕ)
      → Held used n s.world
      → adopt disk api client id minted s ≡ (ok used, s')
      → Held used n s'.world
  adopt-Held id minted s used s' n held h = λ j x p e.
      Keeps-after (λ (t : Session W). Stored t.world used j x) (adopt disk api client id minted)
        (adopt-Keeps disk (λ w. Stored w used j x) (by_disk used j x) api client id minted) s
        (ok used) s' h (held j x p e)

  resume_point-Held :
      (id : Bytes) (answer : OpenResponse) (s : Session W) (start : ℕ) (s' : Session W)
      → Ours id
      → Held id answer.resume_from s.world
      → resume_point disk api client id answer s ≡ (ok start, s')
      → Held id start s'.world
  unfolding resume_point
  resume_point-Held id answer s start s' o held h = elim (Bool-cases (ltb 0 s.spool.state.acked)) [
    | inl progress ↦
        let (a, t, e, rest) =
          bind-ok (on_world (status api client id)) (λ st. pure st.resume_from) s
            (rw (progress, resume_point) at h) in
        let (same, world) = ok-injective rest in
        subst₂ (λ (n : ℕ) (x : Session W). Held id n x.world) same world
          (status-Held id s.world a t.world o (λ k. ((e k).0, (e k).1.world)))
    | inr fresh ↦
        let (same, world) = ok-injective (rw (fresh, resume_point) at h) in
        subst₂ (λ (n : ℕ) (x : Session W). Held id n x.world) same world held
  ]

  module _ (Contains : W → Bytes → Bytes → Type 0) (files : Files disk api Contains)
      (content : Bytes) where
    walked :
        (id : Bytes) (start : ℕ) (s s' : Session W)
        → Contains s.world (payload_path disk s.spool) content
        → texts_of s.spool content ≡ texts
        → s.spool.state.scan_id ≡ id
        → Held id start s.world
        → send_batches disk api client id start s ≡ (ok tt, s')
        → Uploaded Stored texts s'
    unfolding send_batches
    walked id start s s' there same named held h =
        let opening = disk.open_file (payload_path disk s.spool) in
        let fn = send_batch disk api client id start in
        let bs = cut (limits_of s.spool) [] (record_lines content) in
        let (file, t, e, rest) =
          bind-ok (on_world (label (codes "reading the spooled scan") opening))
            (each_batch (limits_of s.spool) fn) s h in
        let read =
          label-ok (codes "reading the spooled scan") opening s.world
            (λ k. ((e k).0, (e k).1.world)) in
        let all = files.reads (payload_path disk s.spool) content s.world t.world file there read in
        let fine = each_batch-readable (limits_of s.spool) fn file t s' rest in
        let whole : file ≡ record { content = content; failure = none } =
          λ k. record { content = all k; failure = fine k } in
        let walk : deliver fn 0 bs t ≡ (ok tt, s') =
          sym (each_batch-deliver (limits_of s.spool) fn content t)
          ∙ sym (ap (λ f. each_batch (limits_of s.spool) fn f t) whole)
          ∙ rest in
        let kept : Held id start t.world = λ j x p q.
          Keeps-after (λ w. Stored w id j x) opening
            ((by_disk id j x).open_file (payload_path disk s.spool)) s.world (ok file) t.world read
            (held j x p q) in
        let goes : s'.spool.state.scan_id ≡ id =
          delivered-GoesBy disk api client id start bs 0 t s'
            ((λ k. (sym e k).1.spool.state.scan_id) ∙ named) walk in
        λ i text q.
          subst (λ (x : Bytes). Stored s'.world x i text) (sym goes)
            (delivered-HoldsTexts disk api client Stored Ours own texts custody id start bs 0 t s'
              (λ k.
                let zero' : 0 + k ≡ k = omega arith in
                ap (get_elem? texts) zero' ∙ ap (λ ts. get_elem? ts k) (sym same))
              kept (λ j x p. absurd (omega (arith, p))) walk i text q)

    -- What follows the answer to the manifest, up to the last batch.
    pub resumed :
        (answer : OpenResponse) (s s3 s4 s5 : Session W) (id : Bytes) (start : ℕ)
        → Contains s.world (payload_path disk s.spool) content
        → s.spool.state.scan_id ≡ own
        → texts_of s.spool content ≡ texts
        → Promised answer s.world
        → adopt disk api client own answer.scan_id s ≡ (ok id, s3)
        → resume_point disk api client id answer s3 ≡ (ok start, s4)
        → send_batches disk api client id start s4 ≡ (ok tt, s5)
        → Uploaded Stored texts s5
    resumed answer s s3 s4 s5 id start there mine same promised e3 e4 e5 =
        let ad =
          adopt-Adopted disk api client Contains files content answer.scan_id s id s3 (refl, there)
            (subst (λ x. adopt disk api client x answer.scan_id s ≡ (ok id, s3)) (sym mine) e3) in
        let at4 =
          Keeps-after (IsAt disk api client Contains files content ad.spool)
            (resume_point disk api client id answer)
            (resume_point-IsAt disk api client Contains files content ad.spool id answer) s3
            (ok start) s4 e4 ad.at in
        let used : goes_by own answer.scan_id ≡ id =
          ap (λ x. goes_by x answer.scan_id) (sym mine) ∙ sym ad.by_server in
        let (o, held) =
          subst (λ (x : Bytes). Ours x × Held x answer.resume_from s.world) used promised in
        let held3 = adopt-Held own answer.scan_id s id s3 answer.resume_from held e3 in
        walked id start s4 s5
          (subst (λ (sp : Spool). Contains s4.world (payload_path disk sp) content) (sym at4.0)
            at4.1)
          (ap (λ l. map body (cut l [] (record_lines content))) (ap limits_of at4.0 ∙ ad.sizes)
            ∙ same)
          (ap (λ (sp : Spool). sp.state.scan_id) at4.0 ∙ ad.named)
          (resume_point-Held id answer s3 start s4 o held3 e4) e5

    pub close_scan-Uploaded :
        (id : Bytes) (s : Session W) (verdict : CloseVerdict) (s' : Session W)
        → Uploaded Stored texts s
        → on_world (close_scan api client id) s ≡ (ok verdict, s')
        → Uploaded Stored texts s'
    close_scan-Uploaded id s verdict s' up h = λ i text q.
        Keeps-after (λ (x : Session W). Stored x.world x.spool.state.scan_id i text)
          (on_world (close_scan api client id))
          (record {
            at = λ x k.
                (close_scan-Keeps api client (λ w. Stored w x.spool.state.scan_id i text)
                    (by_network x.spool.state.scan_id i text) id).at
                  x.world k;
          })
          s (ok verdict) s' h (up i text q)
