-- ===== src/Links/Imports/Grouping.antt =====
-- internal/pelink/pelink.go: how `parseImports` groups the symbols.
use swinv.Prelude.{
  some-injective, Option-cases, ℕ, zero, suc, ◌≤◌, ◌<◌, ◌≡◌, refl, sym, ap, ◌∙◌, Bool, true, false,
  List, [], ◌∷◌, ◌++◌, append-nil, append_assoc, Option, none, some, Bytes, bytes_eq, bytes_eq_iff,
  Bool-cases, inl, inr, arith, is_empty, leb, ltb, if◌then◌else◌, length, take, length-append,
  length-take, take_all, leb→le, lt→ltb,
}
use swinv.Prelude.Sort.{first_with}
use swinv.Prelude.Space.{cut_at}
use swinv.Links.Imports.{
  Module, Machine, max_symbols, with_symbol, add_symbol, add_import, add_imports,
}

take_over : (n : ℕ) (xs ys : List Bytes) → n ≤ length xs → take n (xs ++ ys) ≡ take n xs
take_over zero xs ys h = refl
take_over (suc n) [] ys h = absurd (omega arith)
take_over (suc n) (x ∷ xs) ys h = ap (◌∷◌ x) (take_over n xs ys (omega arith))

below : (a b : ℕ) → leb a b ≡ false → b < a
below a b h = ground arith

not_below : (a b : ℕ) → b ≤ a → ltb a b ≡ false
not_below a b h = ground arith

module _ (os : Machine) where
  -- The symbol and the DLL that a string names, if it names one.
  abbrev pub pair_of : Option (Bytes × Bytes) → Option (Bytes × Bytes)
  pair_of none = none
  pair_of (some (name, dll)) = if is_empty dll then none else some (name, dll)

  abbrev pub onto_symbols : Bytes → Option (Bytes × Bytes) → List Bytes → List Bytes
  onto_symbols k none later = later
  onto_symbols k (some (name, dll)) later =
      if bytes_eq k (os.lower dll) then name ∷ later else later

  -- The symbols that the strings name of the DLL `k`, in their order.
  unfoldable pub symbols_of : Bytes → List Bytes → List Bytes
  unfolding cut_at
  symbols_of k [] = []
  symbols_of k (s ∷ syms) = onto_symbols k (pair_of (cut_at b':' s)) (symbols_of k syms)

  -- The test for a module whose name in lower case is `k`.
  abbrev pub module_called : Bytes → Module → Bool
  module_called k m = bytes_eq k (os.lower m.name)

  abbrev pub contents : Option Module → Option (List Bytes × Bool)
  contents none = none
  contents (some m) = some (m.symbols, m.truncated)

  -- What is kept of the symbols `ns`: the first 5000, and whether there were more.
  abbrev pub kept : List Bytes → Option (List Bytes × Bool)
  kept [] = none
  kept (n ∷ ns) = some (take max_symbols (n ∷ ns), ltb max_symbols (length (n ∷ ns)))

  kept_end :
      (name : Bytes) (ns : List Bytes)
      → kept (ns ++ (name ∷ []))
        ≡ some (take max_symbols (ns ++ (name ∷ [])), ltb max_symbols (length (ns ++ (name ∷ []))))
  kept_end name [] = refl
  kept_end name (n ∷ ns) = refl

  contents-with_symbol :
      (name : Bytes) (m : Module) (ns : List Bytes)
      → m.symbols ≡ take max_symbols ns
      → m.truncated ≡ ltb max_symbols (length ns)
      → contents (some (with_symbol name m)) ≡ kept (ns ++ (name ∷ []))
  contents-with_symbol name m ns s t =
      let l = length-take max_symbols ns in
      let l' : length m.symbols ≡ length (take max_symbols ns) = ap length s in
      let n = length-append ns (name ∷ []) in
      elim (Bool-cases (leb max_symbols (length m.symbols))) [
        | inl full ↦
            let over : max_symbols ≤ length ns =
              omega (arith, leb→le max_symbols (length m.symbols) full, l, l') in
            let more : ltb max_symbols (length (ns ++ (name ∷ []))) ≡ true =
              lt→ltb max_symbols (length (ns ++ (name ∷ []))) (omega (arith, over, n)) in
            rw (full, kept_end name ns, take_over max_symbols ns (name ∷ []) over, more, s) refl
        | inr room ↦
            let under : length ns < max_symbols =
              omega (arith, below max_symbols (length m.symbols) room, l, l') in
            let whole : take max_symbols (ns ++ (name ∷ [])) ≡ ns ++ (name ∷ []) =
              take_all max_symbols (ns ++ (name ∷ [])) (omega (arith, under, n)) in
            let few : ltb max_symbols (length (ns ++ (name ∷ []))) ≡ false =
              not_below max_symbols (length (ns ++ (name ∷ []))) (omega (arith, under, n)) in
            let before : ltb max_symbols (length ns) ≡ false =
              not_below max_symbols (length ns) (omega (arith, under)) in
            rw
              (
                room,
                kept_end name ns,
                whole,
                few,
                t,
                before,
                s,
                take_all max_symbols ns (omega (arith, under)),
              )
              refl
      ]

  -- The module that is found under `k` holds the symbols `ns`.
  Holds : Bytes → List Module → List Bytes → Type 0
  Holds k mods ns = contents (first_with (module_called k) mods) ≡ kept ns

  name-with_symbol : (name : Bytes) (m : Module) → (with_symbol name m).name ≡ m.name
  name-with_symbol name m = elim (Bool-cases (leb max_symbols (length m.symbols))) [
    | inl full ↦ rw full refl
    | inr room ↦ rw room refl
  ]

  abbrev new_module : Bytes → Module
  new_module dll = record { name = dll; symbols = []; truncated = false }

  abbrev or_new : Bytes → Option Module → Module
  or_new dll none = new_module dll
  or_new dll (some m) = m

  called_with_symbol :
      (k name : Bytes) (m : Module) → module_called k (with_symbol name m) ≡ module_called k m
  called_with_symbol k name m = ap (λ x. bytes_eq k (os.lower x)) (name-with_symbol name m)

  differs : (k a b : Bytes) → bytes_eq k b ≡ true → bytes_eq a b ≡ false → bytes_eq k a ≡ false
  differs k a b same apart = elim (Bool-cases (bytes_eq k a)) [
    | inl both ↦ absurd (cc (same, apart, ap (λ x. bytes_eq x b) ((bytes_eq_iff k a).0 both)))
    | inr off ↦ off
  ]

  first_with-add_symbol :
      (k name dll : Bytes) (mods : List Module)
      → contents (first_with (module_called k) (add_symbol os name dll mods)) ≡ (
          if bytes_eq k (os.lower dll)
          then contents (some (with_symbol name (or_new dll (first_with (module_called k) mods))))
          else contents (first_with (module_called k) mods))
  unfolding add_symbol
  first_with-add_symbol k name dll [] =
      let same_name = called_with_symbol k name (new_module dll) in
      elim (Bool-cases (bytes_eq k (os.lower dll))) [
        | inl mine ↦ rw (same_name, mine) refl
        | inr other ↦ rw (same_name, other) refl
      ]
  first_with-add_symbol k name dll (m ∷ mods) =
      elim (Bool-cases (bytes_eq (os.lower dll) (os.lower m.name))) [
        | inl same ↦
            let same_name = called_with_symbol k name m in
            let e : bytes_eq k (os.lower dll) ≡ bytes_eq k (os.lower m.name) =
              ap (bytes_eq k) ((bytes_eq_iff (os.lower dll) (os.lower m.name)).0 same) in
            elim (Bool-cases (bytes_eq k (os.lower m.name))) [
              | inl mine ↦ rw (same, same_name, e, mine) refl
              | inr other ↦ rw (same, same_name, e, other) refl
            ]
        | inr apart ↦ elim (Bool-cases (bytes_eq k (os.lower m.name))) [
          | inl mine ↦
              let off : bytes_eq k (os.lower dll) ≡ false =
                differs k (os.lower dll) (os.lower m.name) mine apart in
              rw (apart, mine, off) refl
          | inr other ↦ rw (apart, other) (first_with-add_symbol k name dll mods)
        ]
      ]

  add_symbol-Holds :
      (k name dll : Bytes) (mods : List Module) (ns : List Bytes)
      → Holds k mods ns
      → Holds k
          (add_symbol os name dll mods)
          (if bytes_eq k (os.lower dll) then ns ++ (name ∷ []) else ns)
  unfolding Holds
  add_symbol-Holds k name dll mods ns h = elim (Bool-cases (bytes_eq k (os.lower dll))) [
    | inr other ↦ rw other (first_with-add_symbol k name dll mods ∙ rw other h)
    | inl mine ↦ rw mine (
        first_with-add_symbol k name dll mods
        ∙ rw mine (by_found (first_with (module_called k) mods) ns h))
  ]
    where
      by_found :
          (o : Option Module) (ns : List Bytes)
          → contents o ≡ kept ns
          → contents (some (with_symbol name (or_new dll o))) ≡ kept (ns ++ (name ∷ []))
      by_found none [] e = refl
      by_found none (n ∷ ns) e = absurd (cc e)
      by_found (some m) [] e = absurd (cc e)
      by_found (some m) (n ∷ ns) e =
          let pair =
            some-injective (m.symbols, m.truncated)
              (take max_symbols (n ∷ ns), ltb max_symbols (length (n ∷ ns))) e in
          contents-with_symbol name m (n ∷ ns) (ap (λ x. x.0) pair) (ap (λ x. x.1) pair)

  add_imports-Holds :
      (k : Bytes) (syms : List Bytes) (mods : List Module) (ns : List Bytes)
      → Holds k mods ns
      → Holds k (add_imports os syms mods) (ns ++ symbols_of k syms)
  unfolding add_imports add_import symbols_of
  add_imports-Holds k [] mods ns h = rw (append-nil ns) h
  add_imports-Holds k (s ∷ syms) mods ns h = elim (Option-cases (cut_at b':' s)) [
    | inl none' ↦ rw none' (add_imports-Holds k syms mods ns h)
    | inr ((name, dll), found) ↦ elim (Bool-cases (is_empty dll)) [
      | inl bare ↦ rw (found, bare) (add_imports-Holds k syms mods ns h)
      | inr there ↦
          let step = add_symbol-Holds k name dll mods ns h in
          elim (Bool-cases (bytes_eq k (os.lower dll))) [
            | inl mine ↦
                let later =
                  add_imports-Holds k syms (add_symbol os name dll mods) (ns ++ (name ∷ []))
                    (rw mine at step) in
                rw (found, there, mine, sym (append_assoc ns (name ∷ []) (symbols_of k syms))) later
            | inr other ↦
                rw (found, there, other)
                  (add_imports-Holds k syms (add_symbol os name dll mods) ns (rw other at step))
          ]
    ]
  ]

  -- Of each DLL, whatever the case of its letters, the first 5000 imported symbols are kept in their
  -- order and it is marked whether there were more; a DLL without a symbol has no entry.
  pub add_imports_symbols :
      (k : Bytes) (syms : List Bytes)
      → contents (first_with (module_called k) (add_imports os syms [])) ≡ kept (symbols_of k syms)
  unfolding Holds
  add_imports_symbols k syms = add_imports-Holds k syms [] [] refl
