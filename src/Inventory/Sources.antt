-- ===== src/Inventory/Sources.antt =====
-- cmd/swinv/sources.go and internal/model/sources.go: what each enumeration source did. The file
-- system is a parameter.
pub mod Total
use swinv.Prelude.{
  ℕ, zero, suc, ◌+◌, Bool, true, false, not, ◌&&◌, ◌||◌, List, [], ◌∷◌, ◌++◌, Option, none, some,
  Bytes, codes, bytes_eq, ◌==◌, if◌then◌else◌, is_empty, map, Result, ok, err, trim_suffix,
}
use swinv.Prelude.Space.{trim_space}
use swinv.Prelude.Table.{Table, find, set}
use swinv.Prelude.Sort.{sort_strings}

pub record SourceProbe : Type 0 where
  pub name : Bytes
  pub what : Bytes
  pub paths : List Bytes
  pub dir : Bool

pub record ProbeResult : Type 0 where
  pub probe : SourceProbe
  pub path : Bytes
  pub present : Bool
  pub empty : Bool
  pub failure : Option Bytes

-- What a stat finds: nothing, another failure, or an entry of some size.
pub data Stat : Type 0 where
  not_exist : Stat
  stat_failed : Bytes → Stat
  entry : ℕ → Stat

-- `read_dir` answers with the number of entries.
pub record Files : Type 0 where
  pub join : Bytes → Bytes → Bytes
  pub stat : Bytes → Stat
  pub read_dir : Bytes → Result Bytes ℕ
  pub open_file : Bytes → Option Bytes

abbrev pub result : SourceProbe → Bytes → Bool → Bool → Option Bytes → ProbeResult
result p path present empty failure = record {
  probe = p;
  path = path;
  present = present;
  empty = empty;
  failure = failure;
}

abbrev listed : SourceProbe → Bytes → Result Bytes ℕ → ProbeResult
listed p full (err e) = result p full true false (some e)
listed p full (ok n) = result p full true (n == 0) none

abbrev opened : SourceProbe → Bytes → ℕ → Option Bytes → ProbeResult
opened p full size (some e) = result p full true false (some e)
opened p full size none = result p full true (size == 0) none

module _ (files : Files) where
  abbrev look : SourceProbe → Bytes → Stat → ProbeResult → ProbeResult
  look p full not_exist rest = rest
  look p full (stat_failed e) rest = result p full true false (some e)
  look p full (entry size) rest =
      if p.dir
      then listed p full (files.read_dir full)
      else opened p full size (files.open_file full)

  -- The candidates in their order.
  unfoldable pub probe_paths : Bytes → SourceProbe → List Bytes → ProbeResult
  probe_paths root p [] = result p [] false false none
  probe_paths root p (rel ∷ rels) =
      let full = files.join root rel in look p full (files.stat full) (probe_paths root p rels)

  abbrev pub probe_one : Bytes → SourceProbe → ProbeResult
  probe_one root p = probe_paths root p p.paths

  unfoldable pub probe_sources : Bytes → List SourceProbe → List ProbeResult
  unfolding probe_paths
  probe_sources root probes = map (probe_one (if is_empty root then codes "/" else root)) probes

abbrev pub cataloger_sources : Table Bytes
cataloger_sources =
    (codes "dpkg-db-cataloger", codes "dpkg")
    ∷ (codes "rpm-db-cataloger", codes "rpm")
    ∷ (codes "apk-db-cataloger", codes "apk")
    ∷ (codes "portage-cataloger", codes "portage")
    ∷ []

abbrev mapped_or : Bytes → Option Bytes → Bytes
mapped_or found_by (some k) = k
mapped_or found_by none = trim_suffix found_by (codes "-cataloger")

unfoldable pub source_key : Bytes → Bytes
unfolding find trim_space
source_key found_by =
    let f = trim_space found_by in
    if is_empty f then codes "unattributed" else mapped_or f (find f cataloger_sources)

abbrev pub or_zero : Option ℕ → ℕ
or_zero none = 0
or_zero (some n) = n

abbrev pub increment : Bytes → Table ℕ → Table ℕ
increment key counts = set key (suc (or_zero (find key counts))) counts

-- The argument is each component's `FoundBy`.
unfoldable pub count_into : List Bytes → Table ℕ → Table ℕ
unfolding source_key
count_into [] counts = counts
count_into (found_by ∷ rest) counts = count_into rest (increment (source_key found_by) counts)

unfoldable pub components_by_source : List Bytes → Table ℕ
unfolding count_into
components_by_source found_bys = count_into found_bys []

pub data Status : Type 0 where
  source_ok : Status
  source_skipped : Status
  source_error : Status

pub data Reason : Type 0 where
  no_reason : Reason
  not_on_this_host : Bytes → Reason
  cannot_read : Bytes → Bytes → Bytes → Reason
  is_blank : Bytes → Bytes → Reason
  returned_nothing : Bytes → Bytes → Reason
  not_selected : Bytes → Reason

pub record SourceStatus : Type 0 where
  pub status : Status
  pub components : ℕ
  pub reason : Reason

abbrev pub status_of : Status → ℕ → Reason → SourceStatus
status_of status components reason = record {
  status = status;
  components = components;
  reason = reason;
}

abbrev pub readable : ProbeResult → ℕ → Option Bytes → SourceStatus
readable r n (some e) = status_of source_error n (cannot_read r.probe.what r.path e)
readable r n none =
    if r.empty
    then status_of source_skipped 0 (is_blank r.probe.what r.path)
    else if n == 0
    then status_of source_error 0 (returned_nothing r.probe.what r.path)
    else status_of source_ok n no_reason

-- The verdict on one probed source, which contributed `n` components.
unfoldable pub verdict : ProbeResult → ℕ → SourceStatus
verdict r n =
    if not r.present
    then status_of source_skipped 0 (not_on_this_host r.probe.what)
    else readable r n r.failure

abbrev from_counts : Bytes × ℕ → Bytes × SourceStatus
from_counts (name, n) = (name, status_of source_ok n no_reason)

unfoldable pub judge : List ProbeResult → Table ℕ → Table SourceStatus → Table SourceStatus
unfolding verdict
judge [] counts sources = sources
judge (r ∷ rs) counts sources =
    judge rs counts (set r.probe.name (verdict r (or_zero (find r.probe.name counts))) sources)

unfoldable pub source_statuses : List ProbeResult → Table ℕ → Table SourceStatus
unfolding judge
source_statuses results counts = judge results counts (map from_counts counts)

unfoldable pub source_component_total : Table SourceStatus → ℕ
source_component_total [] = 0
source_component_total ((name, s) ∷ rest) = s.components + source_component_total rest

abbrev is_error : Status → Bool
is_error source_error = true
is_error source_ok = false
is_error source_skipped = false

unfoldable pub failing : Table SourceStatus → List Bytes
failing [] = []
failing ((name, s) ∷ rest) =
    let others = failing rest in if is_error s.status then name ∷ others else others

unfoldable pub failed_sources : Table SourceStatus → List Bytes
unfolding failing sort_strings
failed_sources sources = sort_strings (failing sources)
