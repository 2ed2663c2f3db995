-- ===== src/Links/Prober.antt =====
-- internal/pelink/pelink.go: the prober with its two caches.
pub mod Caches
use swinv.Prelude.{
  ℕ, zero, suc, ◌+◌, ◌≡◌, Bool, true, false, not, List, [], ◌∷◌, ◌++◌, Option, none, some, Bytes,
  bytes_eq, if◌then◌else◌, is_empty, Result, ok, err, ltb,
}
use swinv.Prelude.Table.{Table, find, set}
use swinv.Links.Imports.{Module, Machine, parse_imports}

pub record Parsed : Type 0 where
  pub mods : List Module
  pub machine : ℕ
  pub not_pe : Bool

-- The lock and the pacing are left out. `deadline` is the context: nil, or one that lets so many more
-- parses begin before it expires.
pub record Prober : Type 0 where
  pub cache : Table Parsed
  pub deadline : Option ℕ
  pub stat_cache : Table Bool
  pub first_err : Option (Bytes × Bytes)

abbrev pub new_prober : Prober
new_prober = record { cache = []; deadline = none; stat_cache = []; first_err = none }

abbrev pub expired : Option ℕ → Bool
expired none = false
expired (some zero) = true
expired (some (suc n)) = false

abbrev pub one_less : Option ℕ → Option ℕ
one_less none = none
one_less (some zero) = some zero
one_less (some (suc n)) = some n

-- The entry of a parse; a file that fails is cached as one that is not PE, whose machine type nothing
-- reads.
abbrev pub parsed_of : Result Bytes (List Module × ℕ) → Parsed
parsed_of (err e) = record { mods = []; machine = 0; not_pe = true }
parsed_of (ok (mods, machine)) = record { mods = mods; machine = machine; not_pe = false }

abbrev pub first_of_errors :
    Option (Bytes × Bytes) → Bytes → Result Bytes (List Module × ℕ) → Option (Bytes × Bytes)
first_of_errors none path (err e) = some (path, e)
first_of_errors none path (ok r) = none
first_of_errors (some e) path r = some e

abbrev pub answer : Parsed → List Module × ℕ × Bool
answer e = (e.mods, e.machine, not e.not_pe)

module _ (os : Machine) where
  unfoldable pub parse_through : Bytes → Option Parsed → Prober → (List Module × ℕ × Bool) × Prober
  unfolding parse_imports set
  parse_through path (some entry) p = (answer entry, p)
  parse_through path none p = if expired p.deadline then (([], 0, false), p) else (
    answer (parsed_of (parse_imports os path)),
    record p {
      cache = set (os.lower path) (parsed_of (parse_imports os path)) p.cache;
      deadline = one_less p.deadline;
      first_err = first_of_errors p.first_err path (parse_imports os path);
    },
  )

  unfoldable pub imports : Bytes → Prober → (List Module × ℕ × Bool) × Prober
  unfolding parse_through find
  imports path p = parse_through path (find (os.lower path) p.cache) p

  unfoldable pub stat_through : Bytes → Option Bool → Prober → Bool × Prober
  unfolding set
  stat_through path (some hit) p = (hit, p)
  stat_through path none p = (
    os.is_regular path,
    record p { stat_cache = set (os.lower path) (os.is_regular path) p.stat_cache },
  )

  unfoldable pub is_file : Bytes → Prober → Bool × Prober
  unfolding stat_through find
  is_file path p = stat_through path (find (os.lower path) p.stat_cache) p

  -- The loop over the three directories.
  unfoldable pub resolve_in : Bytes → List Bytes → Prober → Bytes × Prober
  unfolding is_file
  resolve_in name [] p = ([], p)
  resolve_in name (dir ∷ dirs) p =
      let skipped = resolve_in name dirs p in
      let asked = is_file (os.join dir name) p in
      let later = resolve_in name dirs asked.1 in
      if is_empty dir then skipped else if asked.0 then (os.join dir name, asked.1) else later

  unfoldable pub resolve : Bytes → Bytes → Bytes → Bytes → Prober → Bytes × Prober
  unfolding resolve_in
  resolve name obj_dir app_dir sys_dir p = resolve_in name (obj_dir ∷ app_dir ∷ sys_dir ∷ []) p

-- Microseconds, here as nanoseconds.
unfoldable pub polite_pause : ℕ → ℕ
polite_pause parse =
    if ltb parse 200000 then 200000 else if ltb 25000000 parse then 25000000 else parse
