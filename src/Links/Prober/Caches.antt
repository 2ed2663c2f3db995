-- ===== src/Links/Prober/Caches.antt =====
-- internal/pelink/pelink.go: what the prober's caches hold.
use mathlib.Core.Path.{subst}
use swinv.Prelude.{
  some-injective, ◌≡◌, refl, ◌∙◌, Bool, true, List, [], ◌∷◌, Option, none, some, Bytes, bytes_eq,
  Bool-cases, inl, inr, All, is_empty,
}
use swinv.Prelude.Table.{Table, find, set}
use swinv.Links.Imports.{Machine, parse_imports}
use swinv.Links.Prober.{
  Prober, Parsed, parsed_of, expired, parse_through, imports, stat_through, is_file, resolve_in,
  resolve,
}

module _ {V : Type 0} (P : Bytes × V → Type 0) where
  pub find-All :
      (k : Bytes) (m : Table V)
      → ((j : Bytes) (v : V) → bytes_eq k j ≡ true → P (j, v) → P (k, v))
      → All P m
      → (v : V) → find k m ≡ some v
      → P (k, v)
  unfolding find
  find-All k [] same h v e = absurd (cc e)
  find-All k ((j, w) ∷ m) same (p, h) v e = elim (Bool-cases (bytes_eq k j)) [
    | inl mine ↦
        let i : w ≡ v = some-injective w v (rw mine at e) in
        same j v mine (subst (λ x. P (j, x)) i p)
    | inr other ↦ find-All k m same h v (rw other at e)
  ]

  pub set-All : (k : Bytes) (v : V) (m : Table V) → P (k, v) → All P m → All P (set k v m)
  unfolding set
  set-All k v [] p h = (p, tt)
  set-All k v ((j, w) ∷ m) p (q, h) = elim (Bool-cases (bytes_eq k j)) [
    | inl mine ↦ rw mine (p, h)
    | inr other ↦ rw other (q, set-All k v m p h)
  ]

module _ (os : Machine) (P : Bytes × Parsed → Type 0) where
  -- A property of the entries that every parse gives is kept, and the answer has it.
  pub imports-Keeps :
      (path : Bytes) (p : Prober)
      → P (os.lower path, parsed_of (parse_imports os path))
      → All P p.cache
      → All P (imports os path p).1.cache
  unfolding imports parse_through
  imports-Keeps path p fresh h = by_entry (find (os.lower path) p.cache)
    where
      by_entry : (o : Option Parsed) → All P (parse_through os path o p).1.cache
      by_entry (some e) = h
      by_entry none = elim (Bool-cases (expired p.deadline)) [
        | inl late ↦ rw late h
        | inr early ↦
            rw early (set-All P (os.lower path) (parsed_of (parse_imports os path)) p.cache fresh h)
      ]

module _ (os : Machine) where
  is_file_cache : (path : Bytes) (p : Prober) → (is_file os path p).1.cache ≡ p.cache
  unfolding is_file stat_through
  is_file_cache path p = by_entry (find (os.lower path) p.stat_cache)
    where
      by_entry : (o : Option Bool) → (stat_through os path o p).1.cache ≡ p.cache
      by_entry none = refl
      by_entry (some hit) = refl

  resolve_in_cache :
      (name : Bytes) (dirs : List Bytes) (p : Prober)
      → (resolve_in os name dirs p).1.cache ≡ p.cache
  unfolding resolve_in
  resolve_in_cache name [] p = refl
  resolve_in_cache name (dir ∷ dirs) p =
      let asked = is_file os (os.join dir name) p in
      let e = is_file_cache (os.join dir name) p in
      elim (Bool-cases (is_empty dir)) [
        | inl none' ↦ rw none' (resolve_in_cache name dirs p)
        | inr dir' ↦ elim (Bool-cases asked.0) [
          | inl there ↦ rw (dir', there) e
          | inr off ↦ rw (dir', off) (resolve_in_cache name dirs asked.1 ∙ e)
        ]
      ]

  -- Resolving a name parses nothing.
  pub resolve_cache :
      (name obj_dir app_dir sys_dir : Bytes) (p : Prober)
      → (resolve os name obj_dir app_dir sys_dir p).1.cache ≡ p.cache
  unfolding resolve
  resolve_cache name obj_dir app_dir sys_dir p =
      resolve_in_cache name (obj_dir ∷ app_dir ∷ sys_dir ∷ []) p
