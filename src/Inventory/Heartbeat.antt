-- ===== src/Inventory/Heartbeat.antt =====
-- cmd/swinv/heartbeat_state.go: `applyHeartbeat`, with `InventoryDigest` of internal/model/digest.go.
-- SHA-256, JSON and the file system are parameters; an instant is a number of nanoseconds.
pub mod Full
use swinv.Prelude.{
  ℕ, suc, ◌+◌, ◌≤◌, Bool, true, false, not, ◌&&◌, ◌||◌, List, [], ◌∷◌, ◌++◌, Option, none, some,
  Bytes, codes, bytes_eq, ltb, leb, if◌then◌else◌, is_empty, map, length, Result, ok, err, ℤ, pos,
  negsuc,
}
use swinv.Prelude.Space.{join_with, trim_space}
use swinv.Prelude.Table.{Table, find, set}
use swinv.Prelude.Sort.{sort_strings}
use swinv.Model.Component.{Component}

unfoldable pub identity_line : Component → Bytes
identity_line c =
    join_with (b'\t' ∷ []) (c.type' ∷ c.name ∷ c.version ∷ c.root ∷ c.purl ∷ c.sha256 ∷ [])

abbrev hashed : List Bytes → Bytes
hashed [] = []
hashed (l ∷ ls) = l ++ (b'\n' ∷ hashed ls)

pub record HeartbeatHost : Type 0 where
  pub digest : Bytes
  pub full_at : ℕ

pub record Config : Type 0 where
  pub heartbeat : Bool
  pub transmit : Bytes
  pub force_full : Bool
  pub full_interval : ℤ

pub record Report : Type 0 where
  pub components : List Component
  pub hostname : Bytes
  pub started_at : ℕ
  pub inventory_digest : Bytes
  pub inventory_unchanged : Bool
  pub warnings : List Bytes

-- The state file: what a read of it decodes to, when it can be read, and the error of a write.
pub record StateFile (W : Type 0) : Type 0 where
  pub sha256_hex : Bytes → Bytes
  pub read : W → Result Bytes (Option (Table HeartbeatHost))
  pub write : Table HeartbeatHost → W → Option Bytes × W

abbrev decoded : Result Bytes (Option (Table HeartbeatHost)) → Table HeartbeatHost
decoded (err e) = []
decoded (ok none) = []
decoded (ok (some hosts)) = hosts

-- `cfg.fullInterval > 0 && now.Sub(previous.FullAt) >= cfg.fullInterval`.
abbrev pub overdue : ℤ → ℕ → ℕ → Bool
overdue (negsuc n) now full_at = false
overdue (pos n) now full_at = ltb 0 n && leb (full_at + n) now

pub data Reason : Type 0 where
  forced : Reason
  no_previous : Reason
  changed : Reason
  too_long : Reason

abbrev against : Config → Bytes → ℕ → Option HeartbeatHost → Option Reason
against cfg digest now none = some no_previous
against cfg digest now (some previous) =
    if not (bytes_eq previous.digest digest)
    then some changed
    else if overdue cfg.full_interval now previous.full_at
    then some too_long
    else none

-- Why the components are sent in full, if they are.
unfoldable pub full_reason : Config → Bytes → ℕ → Option HeartbeatHost → Option Reason
full_reason cfg digest now previous =
    if cfg.force_full then some forced else against cfg digest now previous

abbrev pub host_of : Report → Bytes
host_of report = if is_empty report.hostname then codes "unknown-host" else report.hostname

abbrev pub with_digest : Bytes → Report → Report
with_digest digest r = record {
  components = r.components;
  hostname = r.hostname;
  started_at = r.started_at;
  inventory_digest = digest;
  inventory_unchanged = r.inventory_unchanged;
  warnings = r.warnings;
}

abbrev pub unchanged : Report → Report
unchanged r = record {
  components = r.components;
  hostname = r.hostname;
  started_at = r.started_at;
  inventory_digest = r.inventory_digest;
  inventory_unchanged = true;
  warnings = r.warnings;
}

abbrev not_recorded : Bytes
not_recorded =
    codes
      "could not record the heartbeat digest, so the next scan will send a full component list: "

abbrev known : Bytes → List Bytes → Bool
known w [] = false
known w (x ∷ xs) = bytes_eq x w || known w xs

-- internal/model/model.go: `ScanMeta.AddWarning`.
unfoldable pub add_warning : Bytes → List Bytes → List Bytes
unfolding trim_space
add_warning format warnings =
    let w = trim_space format in
    if is_empty w || known w warnings then warnings else warnings ++ (w ∷ [])

abbrev pub warn : Option Bytes → Report → Report
warn none r = r
warn (some e) r = record {
  components = r.components;
  hostname = r.hostname;
  started_at = r.started_at;
  inventory_digest = r.inventory_digest;
  inventory_unchanged = r.inventory_unchanged;
  warnings = add_warning (not_recorded ++ e) r.warnings;
}

module _ {W : Type 0} (file : StateFile W) where
  unfoldable pub inventory_digest : List Component → Bytes
  unfolding sort_strings identity_line
  inventory_digest components =
      codes "sha256:" ++ file.sha256_hex (hashed (sort_strings (map identity_line components)))

  abbrev pub read_state : W → Table HeartbeatHost
  read_state w = decoded (file.read w)

  abbrev after_write : Report → Option Bytes × W → Report × W
  after_write r (e, w) = (warn e r, w)

  abbrev decided : Option Reason → Bytes → Bytes → Report → W → Report × W
  decided none host digest r w = (unchanged r, w)
  decided (some reason) host digest r w =
      after_write r (
        file.write (set host (record { digest = digest; full_at = r.started_at }) (read_state w)) w)

  unfoldable pub apply_heartbeat : Config → Report → W → Report × W
  unfolding inventory_digest full_reason
  apply_heartbeat cfg report w =
      let digest = inventory_digest report.components in
      let r = with_digest digest report in
      let host = host_of r in
      let reason = full_reason cfg digest r.started_at (find host (read_state w)) in
      if not cfg.heartbeat && is_empty cfg.transmit
      then (report, w)
      else if not cfg.heartbeat
      then (r, w)
      else decided reason host digest r w
