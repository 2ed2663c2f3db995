-- ===== src/Links/Probe/All.antt =====
-- internal/pelink/pelink.go: the caches do not change what a probe finds.
use mathlib.Core.Option
use mathlib.Core.Path.{subst}
use swinv.Prelude.{
  some-injective, Option-cases, ℕ, zero, suc, ◌+◌, ◌≡◌, refl, sym, ap, ◌∙◌, Bool, true, false, not,
  ◌||◌, List, [], ◌∷◌, Option, none, some, Bytes, Bool-cases, inl, inr, is_empty, leb,
  if◌then◌else◌,
}
use swinv.Prelude.Table.{Table}
use swinv.Model.Sets.{member}
use swinv.Links.Imports.{Link, Machine, is_api_set}
use swinv.Links.Prober.{Prober, imports, resolve, new_prober}
use swinv.Links.Probe.{
  Options, Item, Walk, Start, items, key_of, visit, walk_on, walk_from, links_of, locate,
  next_items, probe, start_of, parse_phase, assemble, probe_all, kept_links, Stats, with_stats,
}
use swinv.Links.Probe.Walking.{queued}
use swinv.Links.Probe.Plain.{
  View, file_of, located, queued_next, plain_visit, plain_walk, plain_probe, plain_all,
}
use swinv.Links.Probe.Faithful.{IgnoresCase, IsFaithful, imports-IsFaithful, resolve_in-IsFaithful}

module _ (os : Machine) (laws : IgnoresCase os) where
  locate-IsFaithful :
      (s : Start) (it : Item) (p : Prober)
      → IsFaithful os laws p
      → ((locate os s it p).0 ≡ located os s it) × IsFaithful os laws (locate os s it p).1
  unfolding locate located resolve
  locate-IsFaithful s it p h = elim (Bool-cases (is_api_set os it.mod'.name)) [
    | inl virtual ↦ rw virtual (refl, h)
    | inr file ↦
        rw file
          (resolve_in-IsFaithful os laws it.mod'.name (it.from ∷ s.app_dir ∷ s.sys_dir ∷ []) p h)
  ]

  next_items-IsFaithful :
      (s : Start) (it : Item) (path : Bytes) (p : Prober)
      → IsFaithful os laws p
      → ((next_items os s it path p).0 ≡ queued_next os s it path)
        × IsFaithful os laws (next_items os s it path p).1
  unfolding next_items queued_next
  next_items-IsFaithful s it path p h = elim (Bool-cases (is_empty path || leb s.depth it.hop)) [
    | inl stop ↦ rw stop (refl, h)
    | inr go ↦
        let (e, f) = imports-IsFaithful os laws path p h in
        rw go (ap (λ a. if a.2 then items (os.dir path) (it.hop + 1) a.0 else []) e, f)
  ]

  abbrev view : Walk → View
  view w = record { queue = w.queue; seen = w.seen; out = w.out }

  visit-IsFaithful :
      (s : Start) (it : Item) (w : Walk)
      → IsFaithful os laws w.prober
      → (view (visit os s it w) ≡ plain_visit os s it (view w))
        × IsFaithful os laws (visit os s it w).prober
  unfolding visit plain_visit
  visit-IsFaithful s it w h = elim (Bool-cases (member (key_of os it) w.seen)) [
    | inl old ↦ rw old (refl, h)
    | inr new ↦
        let found = locate os s it w.prober in
        let (e, f) = locate-IsFaithful s it w.prober h in
        let (n, g) = next_items-IsFaithful s it found.0 found.1 f in rw new (rw (n, e) refl, g)
  ]

  walk_on-IsFaithful :
      (fuel : ℕ) (s : Start) (queue : List Item) (w : Walk)
      → IsFaithful os laws w.prober
      → (Option.map view (walk_on os fuel s queue w) ≡ plain_walk os fuel s queue (view w))
        × ((w' : Walk) → walk_on os fuel s queue w ≡ some w' → IsFaithful os laws w'.prober)
  unfolding walk_on plain_walk
  walk_on-IsFaithful fuel s [] w h =
      (refl, λ w' e. subst (λ x. IsFaithful os laws x.prober) (some-injective w w' e) h)
  walk_on-IsFaithful zero s (it ∷ rest) w h = (refl, λ w' e. absurd (cc e))
  walk_on-IsFaithful (suc fuel) s (it ∷ rest) w h =
      let (e, f) = visit-IsFaithful s it (queued w rest) h in
      let v = visit os s it (queued w rest) in
      let (n, g) = walk_on-IsFaithful fuel s v.queue v f in
      (n ∙ ap (λ x. plain_walk os fuel s x.queue x) e, g)

  double_not : (b : Bool) → not (not b) ≡ b
  double_not true = refl
  double_not false = refl

  links_of-view :
      (o : Option Walk)
      → Option.map (λ (r : List Link × Prober). r.0) (links_of os o)
        ≡ Option.map (λ (v : View). v.out) (Option.map view o)
  links_of-view none = refl
  links_of-view (some w) = refl

  links_of-IsFaithful :
      (o : Option Walk)
      → ((w : Walk) → o ≡ some w → IsFaithful os laws w.prober)
      → (r : List Link × Prober) → links_of os o ≡ some r
      → IsFaithful os laws r.1
  links_of-IsFaithful none h r e = absurd (cc e)
  links_of-IsFaithful (some w) h r e =
      subst (λ x. IsFaithful os laws x.1) (some-injective (w.out, w.prober) r e) (h w refl)

  -- A probe through faithful caches finds what one without caches does, or runs out of fuel as it does,
  -- and leaves the caches faithful.
  pub probe_plain :
      (fuel : ℕ) (exe : Bytes) (opts : Options) (p : Prober)
      → IsFaithful os laws p
      → (Option.map (λ (r : List Link × Prober). r.0) (probe os fuel exe opts p)
          ≡ plain_probe os fuel exe opts)
        × ((r : List Link × Prober) → probe os fuel exe opts p ≡ some r → IsFaithful os laws r.1)
  unfolding probe plain_probe walk_from
  probe_plain fuel exe opts p h =
      let (e, f) = imports-IsFaithful os laws exe p h in
      let got = imports os exe p in
      let s = start_of os exe opts (file_of os exe).machine in
      let queue = items s.app_dir 1 (file_of os exe).mods in
      let start : Walk = record { queue = queue; seen = []; out = []; prober = got.1 } in
      let (n, g) = walk_on-IsFaithful fuel s queue start f in
      rw e (elim (Bool-cases ((file_of os exe).not_pe || is_empty (file_of os exe).mods)) [
        | inl none' ↦
            rw (double_not (file_of os exe).not_pe, none')
              (refl, λ r i. subst (λ x. IsFaithful os laws x.1) (some-injective ([], got.1) r i) f)
        | inr some' ↦
            rw (double_not (file_of os exe).not_pe, some')
              (
                links_of-view (walk_on os fuel s queue start)
                    ∙ ap (Option.map (λ (v : View). v.out)) n,
                links_of-IsFaithful (walk_on os fuel s queue start) g,
              )
      ])

  parse_phase-IsFaithful :
      (paths : List Bytes) (p : Prober)
      → IsFaithful os laws p
      → IsFaithful os laws (parse_phase os paths p)
  unfolding parse_phase
  parse_phase-IsFaithful [] p h = h
  parse_phase-IsFaithful (path ∷ paths) p h =
      parse_phase-IsFaithful paths (imports os path p).1 (imports-IsFaithful os laws path p h).1

  abbrev table_of : Table (List Link) × ℕ × Prober → Table (List Link) × ℕ
  table_of r = (r.0, r.1)

  assemble_plain :
      (fuel : ℕ) (opts : Options) (paths : List Bytes) (pe : ℕ) (out : Table (List Link))
      (p : Prober)
      → IsFaithful os laws p
      → Option.map table_of (assemble os fuel opts paths pe out p)
        ≡ plain_all os fuel opts paths pe out
  unfolding assemble plain_all Option.bind
  assemble_plain fuel opts [] pe out p h = refl
  assemble_plain fuel opts (path ∷ paths) pe out p h =
      let (e, f) = imports-IsFaithful os laws path p h in
      let p1 = (imports os path p).1 in
      let (n, g) = probe_plain fuel path opts p1 f in
      elim (Option-cases (probe os fuel path opts p1)) [
        | inl out' ↦ rw (out', sym n, out') refl
        | inr (r, found) ↦
            rw (found, sym n, found, e)
              (assemble_plain fuel opts paths (if not (file_of os path).not_pe then pe + 1 else pe)
                (kept_links os path r.0 out) r.1 (g r found))
      ]

  -- What `ProbeAll` finds and how many files it counts as PE, where no deadline ends it, are what probing
  -- each path by itself without caches gives, whichever files the workers parsed first, in any order.
  pub probe_all_plain :
      (fuel : ℕ) (done paths : List Bytes) (opts : Options)
      → Option.map
          (λ (r : Table (List Link) × Stats). (r.0, r.1.pe))
          (probe_all fuel os none done paths opts)
        ≡ plain_all os fuel opts paths 0 []
  unfolding probe_all
  probe_all_plain fuel done paths opts =
      with_stats_pe (assemble os fuel opts paths 0 [] (parse_phase os done new_prober))
      ∙ assemble_plain fuel opts paths 0 [] (parse_phase os done new_prober) (
          parse_phase-IsFaithful done new_prober
            (record { parses = tt; stats = tt; unlimited = refl }))
    where
      with_stats_pe :
          (o : Option (Table (List Link) × ℕ × Prober))
          → Option.map (λ (r : Table (List Link) × Stats). (r.0, r.1.pe)) (with_stats done paths o)
            ≡ Option.map table_of o
      with_stats_pe none = refl
      with_stats_pe (some r) = refl
