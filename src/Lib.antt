-- ===== src/Lib.antt =====
-- swinv: an inventory of the software on a host, collected from package databases, the registry,
-- containers and the file system, written as NDJSON and uploaded to a server.
--
-- What is modelled, and where:
--
-- * internal/transmit, the upload of one scan. `Transmit.Payload` reads the spooled file's lines
--   (`trimNewline`); `Transmit.Batches` is `Spool.EachBatch` and `Records`; `Transmit.Name` is
--   `sanitizeSpoolName`; `Transmit.Spool` is the spool on disk (`NewSpool`, `SetScanID`, `Ack`, `Done`,
--   `Manifest`); `Transmit.Pending` is `Pending` and `loadSpool`; `Transmit.Retry` is `classify`,
--   `parseRetryAfter`, `backoff` and `retry` of http.go;
--   `Transmit.Request` is `Client.do` and the server's four calls; `Transmit.Send` is `Client.Send`.
--   A handler is a function from the session (the spool and the outside world) to a result and the
--   session after it. The disk, the transport, gzip and JSON are the operations of two records, and
--   what the server promises is the record `Transmit.Send.Custody.Custody` for the texts that it is
--   sent and `Transmit.Send.Contract.Contract` for their indices; `Transmit.Send.Payload.Files` is
--   what the file system does.
-- * internal/usn, files from Master File Table records. `Usn.Record` is `parseRecords`, `parseOne` and
--   `decodeUTF16`; `Usn.FilePath` is `resolvePath` and `buildResult`; `Usn.Volumes` is
--   `normalizeVolume` and `ParseVolumes`; `Usn.Enumerate` is `enumerate` of usn_windows.go over the
--   sequence of the kernel's answers.
-- * internal/service. wintable.go, the Windows socket tables, is `Service.SocketTable`; cgroup.go is
--   `Service.Cgroup`; the merging of rows in expose.go is `Service.Exposure`, and
--   its `matchBackend` and `publishFor` are `Service.Backend`.
-- * internal/model/model.go, the components of a report. `Model.Component` is `Component` with its keys and
--   `Less`; `Model.Sets` is `SortedSet`; `Model.Merge` is `Normalize`; `Model.Delta` is `ComputeDelta`,
--   and `Model.Delta.Tag` is `Tag` and `DeltaComponents`.
-- * internal/pelink/pelink.go, the DLLs that a binary loads. `Links.Imports` is `parseImports`;
--   `Links.Prober` is the prober with its caches and its deadline; `Links.Probe` is `probe` and
--   `ProbeAll`, in which the workers are the order of their parses. `Links.Probe.Plain` is the same walk
--   without caches.
-- * internal/scan. `Scan.Provenance` is provenance.go (`assignRoots`, `stripDistroClaim`); `Scan.Owners`
--   is fileowners.go, with the loop of scan.go that calls it; `Scan.Ownership` is ownership.go.
--   internal/pathnorm is `Scan.PathNorm`.
-- * cmd/swinv/heartbeat_state.go with internal/model/digest.go: `Inventory.Heartbeat`.
-- * cmd/swinv/sources.go with internal/model/sources.go: `Inventory.Sources`.
--
-- How they are modelled. Strings and byte slices are lists of byte values. Go's `int` is a natural
-- number where the code keeps it non-negative; a 64-bit wrap-around is written out where the code can
-- reach it. A Go panic is a value (`panicked`, or `none` for a read), so that its absence is a theorem.
-- An instant is a number of nanoseconds. A map is an association list in which a key stands once;
-- in `Model.Delta.Tag` it is the list of the writes to it, the latest first.
--
-- Fuel. The loop of `retry` runs on the number of attempts and the climb of `resolvePath` on
-- `maxPathDepth`, as in the code. The import walk has fuel for its rounds, and is `none` where it runs
-- out; `Links.Probe.Enough` bounds what it needs. `parseRecords` runs on the buffer's length, which is
-- enough, since every round takes at least one byte. `TrimSpace` runs on the text's length.
-- `Usn.Enumerate.rounds` recurses on the kernel's answers; after the last one that is given it has no
-- result yet.
--
-- Not modelled: log lines, deadlines and contexts (a cancelled enumeration and the import probe's
-- excepted), TLS and PKCS#8, `systemDir`, the pauses and progress lines of the import probe, the
-- collectors that read /proc, the registry and containers, the writers of the reports, the HTML
-- report, and the flags. Error texts are constructors that keep the values the text is made of.
pub mod Prelude
pub mod Model
pub mod Links
pub mod Scan
pub mod Transmit
pub mod Usn
pub mod Service
pub mod Inventory
