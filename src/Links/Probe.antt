-- ===== src/Links/Probe.antt =====
-- internal/pelink/pelink.go: `probe`, the walk over what a binary imports, and `ProbeAll`.
pub mod Walking
pub mod Names
pub mod Direct
pub mod Enough
pub mod Plain
pub mod Faithful
pub mod All
use mathlib.Core.Option
use swinv.Prelude.{
  ℕ, zero, suc, ◌+◌, ◌≡◌, Bool, true, false, not, ◌||◌, ◌&&◌, List, [], ◌∷◌, ◌++◌, Option, none,
  some, Bytes, bytes_eq, if◌then◌else◌, is_empty, ltb, leb, ℤ, pos, negsuc, map, length, ◌==◌,
}
use swinv.Prelude.Table.{Table, set}
use swinv.Model.Sets.{member}
use swinv.Links.Imports.{Module, Link, Machine, is_api_set}
use swinv.Links.Prober.{Prober, new_prober, imports, resolve, expired}

-- The pacing and the progress lines are left out.
pub record Options : Type 0 where
  pub symbols : Bool
  pub max_depth : ℤ
  pub system_dir : Bytes

abbrev pub default_depth : ℕ
default_depth = 3

abbrev pub depth_of : ℤ → ℕ
depth_of (negsuc n) = default_depth
depth_of (pos zero) = default_depth
depth_of (pos (suc n)) = suc n

pub record Item : Type 0 where
  pub mod' : Module
  pub from : Bytes
  pub hop : ℕ

-- What the loop keeps.
pub record Walk : Type 0 where
  pub queue : List Item
  pub seen : List Bytes
  pub out : List Link
  pub prober : Prober

abbrev pub items : Bytes → ℕ → List Module → List Item
items from hop mods = map (λ m. record { mod' = m; from = from; hop = hop }) mods

-- What stays the same in one walk.
pub record Start : Type 0 where
  pub app_dir : Bytes
  pub sys_dir : Bytes
  pub depth : ℕ
  pub symbols : Bool

module _ (os : Machine) where
  abbrev pub key_of : Item → Bytes
  key_of it = os.lower it.mod'.name

  -- Where the loader would find the DLL; an API set has no file.
  unfoldable pub locate : Start → Item → Prober → Bytes × Prober
  unfolding is_api_set resolve
  locate s it p =
      if is_api_set os it.mod'.name
      then ([], p)
      else resolve os it.mod'.name it.from s.app_dir s.sys_dir p

  unfoldable pub link_of : Start → Item → Bytes → Link
  unfolding is_api_set
  link_of s it path =
      let kept = s.symbols && (it.hop == 1) in
      record {
        name = it.mod'.name;
        path = path;
        direct = it.hop == 1;
        api_set = is_api_set os it.mod'.name;
        n_symbols = length it.mod'.symbols;
        symbols = if kept then it.mod'.symbols else [];
        symbols_truncated = if kept then it.mod'.truncated else false;
      }

  -- What is queued behind a link.
  unfoldable pub next_items : Start → Item → Bytes → Prober → List Item × Prober
  unfolding imports
  next_items s it path p = if is_empty path || leb s.depth it.hop then ([], p) else (
    (if (imports os path p).0.2
        then items (os.dir path) (it.hop + 1) (imports os path p).0.0
        else []),
    (imports os path p).1,
  )

  -- The body of the loop once `it` is taken off the queue.
  unfoldable pub visit : Start → Item → Walk → Walk
  unfolding locate link_of next_items
  visit s it w =
      let found = locate s it w.prober in
      let next = next_items s it found.0 found.1 in
      if member (key_of it) w.seen then w else record {
        queue = w.queue ++ next.0;
        seen = key_of it ∷ w.seen;
        out = w.out ++ (link_of s it found.0 ∷ []);
        prober = next.1;
      }

  -- `none` says that the fuel was not enough.
  unfoldable pub walk_on : ℕ → Start → List Item → Walk → Option Walk
  unfolding visit
  walk_on fuel s [] w = some w
  walk_on zero s (it ∷ rest) w = none
  walk_on (suc fuel) s (it ∷ rest) w =
      let w' = visit s it (record w { queue = rest }) in walk_on fuel s w'.queue w'

  abbrev pub start_of : Bytes → Options → ℕ → Start
  start_of exe opts machine = record {
    app_dir = os.dir exe;
    sys_dir = if is_empty opts.system_dir then os.system_dir machine else opts.system_dir;
    depth = depth_of opts.max_depth;
    symbols = opts.symbols;
  }

  abbrev pub links_of : Option Walk → Option (List Link × Prober)
  links_of none = none
  links_of (some w) = some (w.out, w.prober)

  -- The walk over a binary's direct imports.
  unfoldable pub walk_from : ℕ → Start → List Module → Prober → Option Walk
  unfolding walk_on
  walk_from fuel s direct p =
      let queue = items s.app_dir 1 direct in
      walk_on fuel s queue (record { queue = queue; seen = []; out = []; prober = p })

  unfoldable pub probe : ℕ → Bytes → Options → Prober → Option (List Link × Prober)
  unfolding imports walk_from
  probe fuel exe opts p =
      let got = imports os exe p in
      if not got.0.2 || is_empty got.0.0
      then some ([], got.1)
      else links_of (walk_from fuel (start_of exe opts got.0.1) got.0.0 got.1)

  -- The workers' parses, in the order in which they end.
  unfoldable pub parse_phase : List Bytes → Prober → Prober
  unfolding imports
  parse_phase [] p = p
  parse_phase (path ∷ paths) p = parse_phase paths (imports os path p).1

  unfoldable pub kept_links : Bytes → List Link → Table (List Link) → Table (List Link)
  unfolding set
  kept_links path links out = if is_empty links then out else set path links out

  -- The sequential phase, with `stats.PE`.
  unfoldable pub assemble :
      ℕ
      → Options
      → List Bytes
      → ℕ
      → Table (List Link)
      → Prober
      → Option (Table (List Link) × ℕ × Prober)
  unfolding imports probe kept_links
  assemble fuel opts [] pe out p = some (out, pe, p)
  assemble fuel opts (path ∷ paths) pe out p =
      Option.bind (probe fuel path opts (imports os path p).1) (λ r.
        assemble fuel opts paths (if (imports os path p).0.2 then pe + 1 else pe)
          (kept_links path r.0 out) r.1)

pub record Stats : Type 0 where
  pub files : ℕ
  pub probed : ℕ
  pub pe : ℕ
  pub linked : ℕ
  pub first_error : Option (Bytes × Bytes)
  pub aborted : Bool

abbrev pub with_stats :
    List Bytes
    → List Bytes
    → Option (Table (List Link) × ℕ × Prober)
    → Option (Table (List Link) × Stats)
with_stats done paths none = none
with_stats done paths (some (out, pe, p)) = some (
  out,
  record {
    files = length paths;
    probed = length done;
    pe = pe;
    linked = length out;
    first_error = p.first_err;
    aborted = expired p.deadline;
  },
)

-- `done` are the paths that the workers took before the context expired.
unfoldable pub probe_all :
    ℕ → Machine → Option ℕ → List Bytes → List Bytes → Options → Option (Table (List Link) × Stats)
unfolding parse_phase assemble
probe_all fuel os deadline done paths opts = with_stats done paths (
    assemble os fuel opts paths 0 []
      (parse_phase os done (record new_prober { deadline = deadline })))
