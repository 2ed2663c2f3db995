-- ===== src/Transmit/Send.antt =====
-- internal/transmit/transmit.go: `Client.Send`. The progress lines that it logs are left out.
pub mod Keeps
pub mod Contract
pub mod Custody
pub mod Payload
pub mod Named
pub mod Resumed
pub mod Complete
pub mod Ledger
mod Uploads
mod Tests
use swinv.Prelude.{
  ℕ, ◌+◌, not, ◌&&◌, List, Option, Bytes, bytes_eq, codes, ltb, if◌then◌else◌, is_empty, Result, ok,
  err, Eff, pure, ◌>>=◌, ◌>>◌,
}
use swinv.Transmit.Payload.{File}
use swinv.Transmit.Batches.{Limits, each_batch}
use swinv.Transmit.Retry.{Error, wrapped}
use swinv.Transmit.Spool.{
  Spool, Disk, Session, on_world, get, label, payload_path, manifest, set_scan_id, ack,
}
use swinv.Transmit.Request.{
  Client, Api, OpenResponse, CloseVerdict, open_scan, status, post_batch, close_scan,
}

-- The batch boundaries come from the recorded state.
abbrev pub limits_of : Spool → Limits
limits_of s = record { batch_lines = s.state.batch_lines; batch_bytes = s.state.batch_bytes }

module _ {W : Type 0} (disk : Disk W) (api : Api W) (client : Client) where
  -- Follow the identifier that the server minted.
  unfoldable pub adopt : Bytes → Bytes → Eff (Session W) Error Bytes
  adopt scan_id minted =
      if not (is_empty minted) && not (bytes_eq minted scan_id)
      then set_scan_id disk minted >>= (λ _. pure minted)
      else pure scan_id

  -- Where to start: the server's answer, asked for again when the spool recorded progress.
  unfoldable pub resume_point : Bytes → OpenResponse → Eff (Session W) Error ℕ
  resume_point scan_id opened = do
    s ← get
    if ltb 0 s.state.acked
        then on_world (status api client scan_id) >>= (λ st. pure st.resume_from)
        else pure opened.resume_from

  -- The function that `EachBatch` is given.
  unfoldable pub send_batch : Bytes → ℕ → ℕ → Bytes → ℕ → Eff (Session W) Error Unit
  send_batch scan_id start index body lines =
      if ltb index start
      then pure tt
      else on_world (post_batch api client scan_id index body) >>= (λ _. ack disk index)

  -- `EachBatch` opens the payload before it walks it.
  unfoldable pub send_batches : Bytes → ℕ → Eff (Session W) Error Unit
  send_batches scan_id start = do
    s ← get
    file ←
        on_world (label (codes "reading the spooled scan") (disk.open_file (payload_path disk s)))
    each_batch (limits_of s) (send_batch scan_id start) file

  unfoldable pub send : Eff (Session W) Error CloseVerdict
  send = do
    s ← get
    line ← on_world (manifest disk s)
    opened ← on_world (open_scan api client line)
    scan_id ← adopt s.state.scan_id opened.scan_id
    start ← resume_point scan_id opened
    send_batches scan_id start
    on_world (close_scan api client scan_id)
