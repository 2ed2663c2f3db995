-- ===== src/Links/Tests.antt =====
-- internal/pelink/pelink.go on a binary that imports two DLLs, one of which imports the other.
use mathlib.Core.Option
use swinv.Prelude.{
  ℕ, ◌≤◌, ◌≡◌, refl, true, false, ◌&&◌, List, [], ◌∷◌, ◌++◌, none, some, Bytes, codes, bytes_eq,
  Bool-cases, inl, inr, arith, pos, if◌then◌else◌, Result, ok, err, length,
}
use swinv.Prelude.Sort.{count_if, first_with}
use swinv.Prelude.Table.{Table}
use swinv.Links.Imports.{Module, Link, Machine, parse_imports, add_imports}
use swinv.Links.Imports.Grouping.{module_called, contents, symbols_of, add_imports_symbols}
use swinv.Links.Prober.{Prober, new_prober, parsed_of}
use swinv.Links.Probe.{Options, Start, Walk, walk_from, probe, probe_all, start_of, Stats}
use swinv.Links.Probe.Names.{called}
use swinv.Links.Probe.Direct.{walk_from_once}
use swinv.Links.Probe.Enough.{cost, probe-Enough}
use swinv.Links.Probe.Plain.{plain_probe, plain_all}
use swinv.Links.Probe.Faithful.{IgnoresCase, IsFaithful}
use swinv.Links.Probe.All.{probe_plain, probe_all_plain}

abbrev exe : Bytes
exe = codes "a.exe"

abbrev kernel : Bytes
kernel = codes "S/k.dll"

abbrev exe_symbols : List Bytes
exe_symbols = codes "f:k.dll" ∷ codes "g:u.dll" ∷ codes "h:k.dll" ∷ []

abbrev symbols_at : Bytes → Result Bytes (List Bytes × ℕ)
symbols_at path =
    if bytes_eq path exe
    then ok (exe_symbols, 1)
    else if bytes_eq path kernel
    then ok (codes "x:u.dll" ∷ [], 1)
    else err (codes "not a PE file")

abbrev machine : Machine
machine = record {
  lower = λ b. b;
  join = λ d n. d ++ (b'/' ∷ n);
  dir = λ p. codes "S";
  imported_symbols = symbols_at;
  is_regular = λ p. bytes_eq p kernel;
  system_dir = λ m. codes "W";
}

abbrev opts : Options
opts = record { symbols = true; max_depth = pos 0; system_dir = [] }

abbrev found : List Link
found =
    record {
      name = codes "k.dll";
      path = kernel;
      direct = true;
      api_set = false;
      n_symbols = 2;
      symbols = codes "f" ∷ codes "h" ∷ [];
      symbols_truncated = false;
    }
    ∷ record {
      name = codes "u.dll";
      path = [];
      direct = true;
      api_set = false;
      n_symbols = 1;
      symbols = codes "g" ∷ [];
      symbols_truncated = false;
    }
    ∷ []

probe_run :
    Option.map (λ (r : List Link × Prober). r.0) (probe machine 14 exe opts new_prober) ≡ some found
unfolding probe bytes_eq
probe_run = refl

abbrev direct : List Module
direct = add_imports machine exe_symbols []

abbrev start : Start
start = start_of machine exe opts 1

ends : (w : Walk) × (walk_from machine 14 start direct new_prober ≡ some w)
unfolding walk_from add_imports bytes_eq
ends = (_, refl)

walk_from_once_example :
    (count_if (called machine (codes "u.dll")) ends.0.out ≤ 1)
    × (count_if (λ l. called machine (codes "u.dll") l && l.direct) ends.0.out ≡ 1)
unfolding add_imports bytes_eq
walk_from_once_example =
    walk_from_once machine direct 14 start new_prober ends.0 (codes "u.dll") ends.1

few_imports : (path : Bytes) → length (parsed_of (parse_imports machine path)).mods ≤ 2
unfolding parse_imports add_imports bytes_eq
few_imports path = elim (Bool-cases (bytes_eq path exe)) [
  | inl binary ↦ rw binary (omega arith)
  | inr other ↦ elim (Bool-cases (bytes_eq path kernel)) [
    | inl library ↦ rw (other, library) (omega arith)
    | inr none' ↦ rw (other, none') (omega arith)
  ]
]

probe-Enough_example : (r : List Link × Prober) × (probe machine 14 exe opts new_prober ≡ some r)
unfolding cost
probe-Enough_example = probe-Enough machine 2 few_imports 14 exe opts new_prober tt (omega arith)

ignores_case : IgnoresCase machine
ignores_case = record { parsed = λ a b e. rw e refl; regular = λ a b e. rw e refl }

probe_plain_example :
    (Option.map (λ (r : List Link × Prober). r.0) (probe machine 14 exe opts new_prober)
      ≡ plain_probe machine 14 exe opts)
    × ((r : List Link × Prober)
        → probe machine 14 exe opts new_prober ≡ some r
        → IsFaithful machine ignores_case r.1)
probe_plain_example =
    probe_plain machine ignores_case 14 exe opts new_prober
      (record { parses = tt; stats = tt; unlimited = refl })

probe_all_plain_example :
    Option.map
      (λ (r : Table (List Link) × Stats). (r.0, r.1.pe))
      (probe_all 14 machine none (exe ∷ []) (kernel ∷ exe ∷ []) opts)
    ≡ plain_all machine 14 opts (kernel ∷ exe ∷ []) 0 []
probe_all_plain_example =
    probe_all_plain machine ignores_case 14 (exe ∷ []) (kernel ∷ exe ∷ []) opts

add_imports_symbols_example :
    contents machine
      (first_with (module_called machine (codes "k.dll")) (add_imports machine exe_symbols []))
    ≡ some (codes "f" ∷ codes "h" ∷ [], false)
unfolding symbols_of bytes_eq
add_imports_symbols_example = add_imports_symbols machine (codes "k.dll") exe_symbols
