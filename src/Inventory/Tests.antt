-- ===== src/Inventory/Tests.antt =====
-- cmd/swinv on concrete inputs: two scans of an unchanged host, and the sources of a small inventory.
use swinv.Prelude.{
  ℕ, ◌≡◌, refl, true, false, List, [], ◌∷◌, none, some, Bytes, codes, bytes_eq, inl, inr, length,
  ok, All, pos, trim_suffix, has_suffix,
}
use swinv.Prelude.Space.{trim_space, trim_head, space_at_head, space_at_end, join_with}
use swinv.Prelude.Table.{Table, find, set}
use swinv.Model.Component.{Component, blank}
use swinv.Inventory.Heartbeat.{
  Config, Report, HeartbeatHost, StateFile, overdue, inventory_digest, identity_line, full_reason,
  apply_heartbeat,
}
use swinv.Inventory.Heartbeat.Full.{
  Sent, In, StateLaws, start, run, logged, digest_of, apply_heartbeat-sent,
}
use swinv.Inventory.Sources.{
  SourceProbe, ProbeResult, result, source_key, count_into, components_by_source, source_statuses,
  source_component_total,
}
use swinv.Inventory.Sources.Total.{IsAccounted, source_component_total-length}

abbrev file : StateFile (Table HeartbeatHost)
file = record { sha256_hex = λ b. b; read = λ w. ok (some w); write = λ t w. (none, t) }

file-StateLaws : StateLaws file
file-StateLaws = record { written = λ t w e. refl; failed = λ t w e h. cc h }

abbrev cfg : Config
cfg = record { heartbeat = true; transmit = []; force_full = false; full_interval = pos 1000 }

abbrev bash : Component
bash = record blank {
  type' = codes "deb";
  name = codes "bash";
  version = codes "5.2";
  root = codes "/";
  purl = codes "pkg:deb/bash@5.2";
}

abbrev report_at : ℕ → Report
report_at started_at = record {
  components = bash ∷ [];
  hostname = codes "alpha";
  started_at = started_at;
  inventory_digest = [];
  inventory_unchanged = false;
  warnings = [];
}

abbrev sent : List Sent
sent = logged file cfg (report_at 100) [] []

abbrev state : Table HeartbeatHost
state = (apply_heartbeat file cfg (report_at 100) []).1

second_run_unchanged : (apply_heartbeat file cfg (report_at 150) state).0.inventory_unchanged ≡ true
unfolding apply_heartbeat inventory_digest full_reason identity_line join_with find set bytes_eq
second_run_unchanged = refl

overdue_run_full : (apply_heartbeat file cfg (report_at 1100) state).0.inventory_unchanged ≡ false
unfolding apply_heartbeat inventory_digest full_reason identity_line join_with find set bytes_eq
overdue_run_full = refl

apply_heartbeat-sent_example :
    (cfg.force_full ≡ false)
    × ((at : ℕ) × In
          (record { host = codes "alpha"; digest = digest_of file (report_at 150); at = at })
          sent
        × (overdue cfg.full_interval 150 at ≡ false))
apply_heartbeat-sent_example =
    apply_heartbeat-sent file file-StateLaws sent state
      (run [] [] cfg (report_at 100) (start [] refl)) cfg (report_at 150) refl second_run_unchanged

abbrev found_bys : List Bytes
found_bys =
    codes "dpkg-db-cataloger"
    ∷ codes "python-package-cataloger"
    ∷ codes "dpkg-db-cataloger"
    ∷ []
    ∷ []

abbrev probe : Bytes → SourceProbe
probe name = record { name = name; what = codes "package database"; paths = []; dir = false }

abbrev probed : List ProbeResult
probed =
    result (probe (codes "dpkg")) (codes "/var/lib/dpkg/status") true false none
    ∷ result (probe (codes "rpm")) [] false false none
    ∷ []

python_key : source_key (codes "python-package-cataloger") ≡ codes "python-package"
unfolding source_key trim_space trim_head space_at_head space_at_end find bytes_eq trim_suffix
    has_suffix
python_key = refl

probed-IsAccounted : All (IsAccounted (components_by_source found_bys)) probed
unfolding components_by_source count_into source_key trim_space trim_head space_at_head space_at_end
    find set bytes_eq trim_suffix has_suffix
probed-IsAccounted = (inr (refl, refl), (inl refl, tt))

source_component_total-length_example :
    source_component_total (source_statuses probed (components_by_source found_bys))
    ≡ length found_bys
source_component_total-length_example =
    source_component_total-length found_bys probed probed-IsAccounted
