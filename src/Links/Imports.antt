-- ===== src/Links/Imports.antt =====
-- internal/pelink/pelink.go: `parseImports`, `isAPISet` and the types. debug/pe, the file system and the
-- functions of package filepath and `strings.ToLower` are parameters.
pub mod Grouping
use swinv.Prelude.{
  ℕ, ◌≡◌, Bool, true, false, ◌||◌, List, [], ◌∷◌, ◌++◌, Option, none, some, Bytes, codes, bytes_eq,
  has_prefix, if◌then◌else◌, is_empty, leb, length, Result, ok, err, ◌==◌,
}
use swinv.Prelude.Space.{cut_at}

-- One binary's direct imports from one DLL.
pub record Module : Type 0 where
  pub name : Bytes
  pub symbols : List Bytes
  pub truncated : Bool

pub record Link : Type 0 where
  pub name : Bytes
  pub path : Bytes
  pub direct : Bool
  pub api_set : Bool
  pub n_symbols : ℕ
  pub symbols : List Bytes
  pub symbols_truncated : Bool

-- What the probe asks of the machine. `imported_symbols` is `pe.Open` with `ImportedSymbols`, the strings
-- "symbol:DLL" and the machine type.
pub record Machine : Type 0 where
  pub lower : Bytes → Bytes
  pub join : Bytes → Bytes → Bytes
  pub dir : Bytes → Bytes
  pub imported_symbols : Bytes → Result Bytes (List Bytes × ℕ)
  pub is_regular : Bytes → Bool
  pub system_dir : ℕ → Bytes

abbrev pub max_symbols : ℕ
max_symbols = 5000

abbrev pub with_symbol : Bytes → Module → Module
with_symbol name m =
    if leb max_symbols (length m.symbols)
    then record m { truncated = true }
    else record m { symbols = m.symbols ++ (name ∷ []) }

module _ (os : Machine) where
  -- `index` leads from a DLL's name in lower case to its module.
  unfoldable pub add_symbol : Bytes → Bytes → List Module → List Module
  unfolding bytes_eq
  add_symbol name dll [] =
      with_symbol name (record { name = dll; symbols = []; truncated = false }) ∷ []
  add_symbol name dll (m ∷ ms) =
      let later = add_symbol name dll ms in
      if bytes_eq (os.lower dll) (os.lower m.name) then with_symbol name m ∷ ms else m ∷ later

  unfoldable pub add_import : Bytes → List Module → List Module
  unfolding add_symbol cut_at
  add_import s mods = add (cut_at b':' s)
    where
      add : Option (Bytes × Bytes) → List Module
      add none = mods
      add (some (name, dll)) = if is_empty dll then mods else add_symbol name dll mods

  unfoldable pub add_imports : List Bytes → List Module → List Module
  unfolding add_import
  add_imports [] mods = mods
  add_imports (s ∷ syms) mods = add_imports syms (add_import s mods)

  unfoldable pub parse_imports : Bytes → Result Bytes (List Module × ℕ)
  unfolding add_imports
  parse_imports path = group (os.imported_symbols path)
    where
      group : Result Bytes (List Bytes × ℕ) → Result Bytes (List Module × ℕ)
      group (err e) = err e
      group (ok (syms, machine)) = ok (add_imports syms [], machine)

  unfoldable pub is_api_set : Bytes → Bool
  unfolding has_prefix
  is_api_set name =
      let lower = os.lower name in
      has_prefix lower (codes "api-ms-") || has_prefix lower (codes "ext-ms-")
