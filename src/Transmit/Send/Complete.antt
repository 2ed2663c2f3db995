-- ===== src/Transmit/Send/Complete.antt =====
-- A `Send` that succeeds leaves no batch behind.
use swinv.Prelude.{ℕ, ◌≡◌, refl, sym, ap, ok, Bytes, Keeps-after, bind-ok}
use mathlib.Core.Path.{subst}
use swinv.Transmit.Spool.{Spool, Disk, Session, on_world, manifest, payload_path}
use swinv.Transmit.Request.{Client, Api, CloseVerdict, open_scan}
use swinv.Transmit.Send.{adopt, resume_point, send_batches, send}
use swinv.Transmit.Send.Custody.{Custody}
use swinv.Transmit.Send.Payload.{Files, IsAt, manifest-IsAt, open_scan-IsAt}
use swinv.Transmit.Send.Resumed.{
  texts_of, Uploaded, open_scan-Promised, resumed, close_scan-Uploaded,
}

-- When `Send` succeeds, the server holds, under the id that the spool then goes by, the body of
-- every batch into which the payload is cut by the recorded batch sizes, each under its index:
-- those that this `Send` posted, as they are or in gzip's form, and those before the index from
-- which the server asked to resume. `Custody` is what the server promises and `Files` what the file
-- system does; at the start the payload file has the content.
pub send-Uploaded :
    {W : Type 0} (disk : Disk W) (api : Api W) (client : Client)
    (Stored : W → Bytes → ℕ → Bytes → Type 0) (Ours : Bytes → Type 0)
    (Contains : W → Bytes → Bytes → Type 0) (content : Bytes) (s : Session W)
    (verdict : CloseVerdict) (s' : Session W)
    → Custody disk api client Stored Ours s.spool.state.scan_id (texts_of s.spool content)
    → Files disk api Contains
    → Contains s.world (payload_path disk s.spool) content
    → send disk api client s ≡ (ok verdict, s')
    → Uploaded Stored (texts_of s.spool content) s'
unfolding send
send-Uploaded {W} disk api client Stored Ours Contains content s verdict s' custody files there h =
    let own = s.spool.state.scan_id in
    let texts = texts_of s.spool content in
    let at = λ (sp : Spool) (x : Session W). IsAt disk api client Contains files content sp x in
    let (line, s1, e1, h1) = bind-ok (on_world (manifest disk s.spool)) _ s h in
    let (answer, s2, e2, h2) = bind-ok (on_world (open_scan api client line)) _ s1 h1 in
    let (id, s3, e3, h3) = bind-ok (adopt disk api client own answer.scan_id) _ s2 h2 in
    let (start, s4, e4, h4) = bind-ok (resume_point disk api client id answer) _ s3 h3 in
    let (u, s5, e5, h5) = bind-ok (send_batches disk api client id start) _ s4 h4 in
    let at1 : at s.spool s1 =
      Keeps-after (at s.spool) (on_world (manifest disk s.spool))
        (manifest-IsAt disk api client Contains files content s.spool) s (ok line) s1 e1
        (refl, there) in
    let at2 : at s.spool s2 =
      Keeps-after (at s.spool) (on_world (open_scan api client line))
        (open_scan-IsAt disk api client Contains files content s.spool line) s1 (ok answer) s2 e2
        at1 in
    let same : s2.spool ≡ s.spool = at2.0 in
    let promised =
      open_scan-Promised disk api client Stored Ours own texts custody line s1.world answer s2.world
        (λ k. ((e2 k).0, (e2 k).1.world)) in
    close_scan-Uploaded disk api client Stored Ours own texts custody Contains files content id s5
      verdict s'
      (resumed disk api client Stored Ours own texts custody Contains files content answer s2 s3 s4
        s5 id start
        (subst (λ (sp : Spool). Contains s2.world (payload_path disk sp) content) (sym same) at2.1)
        (λ k. (same k).state.scan_id) (ap (λ (sp : Spool). texts_of sp content) same) promised e3 e4
        e5)
      h5
