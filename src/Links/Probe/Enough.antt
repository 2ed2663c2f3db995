-- ===== src/Links/Probe/Enough.antt =====
-- internal/pelink/pelink.go: the walk ends.
use mathlib.Core.Path.{subst}
use swinv.Prelude.{
  ℕ, zero, suc, ◌+◌, ◌*◌, ◌-◌, ◌≤◌, ◌≡◌, refl, sym, false, not, ◌||◌, List, [], ◌∷◌, ◌++◌, Option,
  none, some, Bytes, Bool-cases, inl, inr, arith, All, is_empty, leb, length,
}
use native.Mathlib.Nat.{mul-le-mul_right}
use swinv.Prelude.Table.{find}
use swinv.Model.Sets.{member}
use swinv.Links.Imports.{Module, Link, Machine, parse_imports, is_api_set}
use swinv.Links.Prober.{Prober, Parsed, parsed_of, expired, imports, parse_through}
use swinv.Links.Prober.Caches.{imports-Keeps, resolve_cache, find-All}
use swinv.Links.Probe.{
  Options, Item, Walk, Start, items, key_of, visit, walk_on, walk_from, locate, next_items, probe,
  start_of, depth_of,
}
use swinv.Links.Probe.Walking.{queued}

-- The rounds that one name costs with `d` hops below it, where no file imports more than `bound` DLLs.
unfoldable pub cost : ℕ → ℕ → ℕ
cost bound zero = 1
cost bound (suc d) = 1 + bound * cost bound d

module _ (os : Machine) (bound : ℕ) where
  -- No cached file imports more.
  abbrev pub IsBounded : Prober → Type 0
  IsBounded p = All (λ e. length e.1.mods ≤ bound) p.cache

  module _ (files : (path : Bytes) → length (parsed_of (parse_imports os path)).mods ≤ bound) where
    imports-IsBounded : (path : Bytes) (p : Prober) → IsBounded p → IsBounded (imports os path p).1
    imports-IsBounded path p h =
        imports-Keeps os (λ e. length e.1.mods ≤ bound) path p (files path) h

    length-imports :
        (path : Bytes) (p : Prober) → IsBounded p → length (imports os path p).0.0 ≤ bound
    unfolding imports parse_through
    length-imports path p h =
        by_entry (find (os.lower path) p.cache) (λ e.
          find-All (λ x. length x.1.mods ≤ bound) (os.lower path) p.cache (λ j v same q. q) h e)
      where
        by_entry :
            (o : Option Parsed)
            → ((e : Parsed) → o ≡ some e → length e.mods ≤ bound)
            → length (parse_through os path o p).0.0 ≤ bound
        by_entry (some e) k = k e refl
        by_entry none k = elim (Bool-cases (expired p.deadline)) [
          | inl late ↦ rw late (omega arith)
          | inr early ↦ rw early (files path)
        ]

    locate-IsBounded :
        (s : Start) (it : Item) (p : Prober) → IsBounded p → IsBounded (locate os s it p).1
    unfolding locate
    locate-IsBounded s it p h = elim (Bool-cases (is_api_set os it.mod'.name)) [
      | inl virtual ↦ rw virtual h
      | inr file ↦ rw file (
          subst (All (λ e. length e.1.mods ≤ bound))
            (sym (resolve_cache os it.mod'.name it.from s.app_dir s.sys_dir p)) h)
    ]

    abbrev weight : ℕ → List Item → ℕ
    weight depth [] = 0
    weight depth (it ∷ queue) = cost bound (depth - it.hop) + weight depth queue

    weight-append :
        (depth : ℕ) (q r : List Item) → weight depth (q ++ r) ≡ weight depth q + weight depth r
    weight-append depth [] r = omega arith
    weight-append depth (it ∷ q) r = omega (arith, weight-append depth q r)

    weight-items :
        (depth hop : ℕ) (from : Bytes) (mods : List Module)
        → weight depth (items from hop mods) ≡ length mods * cost bound (depth - hop)
    weight-items depth hop from [] = omega arith
    weight-items depth hop from (m ∷ mods) = grind (arith, weight-items depth hop from mods)

    cost_pos : (d : ℕ) → 1 ≤ cost bound d
    unfolding cost
    cost_pos zero = omega arith
    cost_pos (suc d) = omega arith

    next_items-weight :
        (s : Start) (it : Item) (path : Bytes) (p : Prober)
        → IsBounded p
        → 1 + weight s.depth (next_items os s it path p).0 ≤ cost bound (s.depth - it.hop)
    unfolding next_items cost
    next_items-weight s it path p h = elim (Bool-cases (is_empty path || leb s.depth it.hop)) [
      | inl stop ↦ rw stop (cost_pos (s.depth - it.hop))
      | inr go ↦ elim (Bool-cases (imports os path p).0.2) [
        | inr other ↦ rw (go, other) (cost_pos (s.depth - it.hop))
        | inl pe ↦
            let mods = (imports os path p).0.0 in
            let below = cost bound (s.depth - (it.hop + 1)) in
            let less : leb s.depth it.hop ≡ false = ground (arith, go) in
            let deeper : s.depth - it.hop ≡ suc (s.depth - (it.hop + 1)) = ground (arith, less) in
            let n = weight-items s.depth (it.hop + 1) (os.dir path) mods in
            let m : length mods * below ≤ bound * below =
              mul-le-mul_right below (length-imports path p h) in
            rw (go, pe, deeper) (omega (arith, n, m))
      ]
    ]

    next_items-IsBounded :
        (s : Start) (it : Item) (path : Bytes) (p : Prober)
        → IsBounded p
        → IsBounded (next_items os s it path p).1
    unfolding next_items
    next_items-IsBounded s it path p h = elim (Bool-cases (is_empty path || leb s.depth it.hop)) [
      | inl stop ↦ rw stop h
      | inr go ↦ rw go (imports-IsBounded path p h)
    ]

    visit-Enough :
        (s : Start) (it : Item) (rest : List Item) (w : Walk)
        → IsBounded w.prober
        → IsBounded (visit os s it (queued w rest)).prober
          × (1 + weight s.depth (visit os s it (queued w rest)).queue
              ≤ cost bound (s.depth - it.hop) + weight s.depth rest)
    unfolding visit
    visit-Enough s it rest w h = elim (Bool-cases (member (key_of os it) w.seen)) [
      | inl old ↦ let c = cost_pos (s.depth - it.hop) in rw old (h, omega (arith, c))
      | inr new ↦
          let found = locate os s it w.prober in
          let b = locate-IsBounded s it w.prober h in
          let next = next_items os s it found.0 found.1 in
          let n = weight-append s.depth rest next.0 in
          let m = next_items-weight s it found.0 found.1 b in
          rw new (next_items-IsBounded s it found.0 found.1 b, omega (arith, n, m))
    ]

    -- Fuel of the queue's weight is enough.
    walk_on-Enough :
        (fuel : ℕ) (s : Start) (queue : List Item) (w : Walk)
        → IsBounded w.prober
        → weight s.depth queue ≤ fuel
        → (w' : Walk) × (walk_on os fuel s queue w ≡ some w')
    unfolding walk_on
    walk_on-Enough fuel s [] w h f = (w, refl)
    walk_on-Enough zero s (it ∷ rest) w h f =
        let c = cost_pos (s.depth - it.hop) in absurd (omega (arith, c, f))
    walk_on-Enough (suc fuel) s (it ∷ rest) w h f =
        let v = visit os s it (queued w rest) in
        let (b, n) = visit-Enough s it rest w h in
        walk_on-Enough fuel s v.queue v b (omega (arith, n, f))

    walk_from-Enough :
        (fuel : ℕ) (s : Start) (direct : List Module) (p : Prober)
        → IsBounded p
        → length direct ≤ bound
        → bound * cost bound (s.depth - 1) ≤ fuel
        → (w : Walk) × (walk_from os fuel s direct p ≡ some w)
    unfolding walk_from
    walk_from-Enough fuel s direct p h l f =
        let queue = items s.app_dir 1 direct in
        let n = weight-items s.depth 1 s.app_dir direct in
        let m : length direct * cost bound (s.depth - 1) ≤ bound * cost bound (s.depth - 1) =
          mul-le-mul_right (cost bound (s.depth - 1)) l in
        walk_on-Enough fuel s queue (record { queue = queue; seen = []; out = []; prober = p }) h
          (omega (arith, n, m, f))

    -- Where no file imports more than `bound` DLLs, and none in the cache does, a probe ends, after at
    -- most the rounds that `bound` names cost with all hops but one below them.
    pub probe-Enough :
        (fuel : ℕ) (exe : Bytes) (opts : Options) (p : Prober)
        → IsBounded p
        → bound * cost bound (depth_of opts.max_depth - 1) ≤ fuel
        → (r : List Link × Prober) × (probe os fuel exe opts p ≡ some r)
    unfolding probe
    probe-Enough fuel exe opts p h f =
        let got = imports os exe p in
        let s = start_of os exe opts got.0.1 in
        elim (Bool-cases (not got.0.2 || is_empty got.0.0)) [
          | inl nothing ↦ rw nothing (([], got.1), refl)
          | inr some' ↦
              let (w, e) =
                walk_from-Enough fuel s got.0.0 got.1 (imports-IsBounded exe p h)
                  (length-imports exe p h) f in
              rw (some', e) ((w.out, w.prober), refl)
        ]
