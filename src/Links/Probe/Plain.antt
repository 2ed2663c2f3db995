-- ===== src/Links/Probe/Plain.antt =====
-- The probe without caches and deadline, to which that of internal/pelink/pelink.go is compared.
use mathlib.Core.Option
use swinv.Prelude.{
  ℕ, zero, suc, ◌+◌, not, ◌||◌, List, [], ◌∷◌, ◌++◌, Option, none, some, Bytes, if◌then◌else◌,
  is_empty, leb,
}
use swinv.Prelude.Table.{Table}
use swinv.Model.Sets.{member}
use swinv.Links.Imports.{Link, Machine, parse_imports, is_api_set}
use swinv.Links.Prober.{Parsed, parsed_of}
use swinv.Links.Probe.{Options, Item, Start, items, key_of, link_of, start_of, kept_links}

pub record View : Type 0 where
  pub queue : List Item
  pub seen : List Bytes
  pub out : List Link

module _ (os : Machine) where
  abbrev pub file_of : Bytes → Parsed
  file_of path = parsed_of (parse_imports os path)

  unfoldable pub found_in : Bytes → List Bytes → Bytes
  found_in name [] = []
  found_in name (dir ∷ dirs) =
      let later = found_in name dirs in
      if is_empty dir
      then later
      else if os.is_regular (os.join dir name)
      then os.join dir name
      else later

  unfoldable pub located : Start → Item → Bytes
  unfolding found_in is_api_set
  located s it =
      if is_api_set os it.mod'.name
      then []
      else found_in it.mod'.name (it.from ∷ s.app_dir ∷ s.sys_dir ∷ [])

  unfoldable pub queued_next : Start → Item → Bytes → List Item
  queued_next s it path =
      if is_empty path || leb s.depth it.hop
      then []
      else if not (file_of path).not_pe
      then items (os.dir path) (it.hop + 1) (file_of path).mods
      else []

  unfoldable pub plain_visit : Start → Item → View → View
  unfolding located queued_next link_of
  plain_visit s it v = if member (key_of os it) v.seen then v else record {
    queue = v.queue ++ queued_next s it (located s it);
    seen = key_of os it ∷ v.seen;
    out = v.out ++ (link_of os s it (located s it) ∷ []);
  }

  unfoldable pub plain_walk : ℕ → Start → List Item → View → Option View
  unfolding plain_visit
  plain_walk fuel s [] v = some v
  plain_walk zero s (it ∷ rest) v = none
  plain_walk (suc fuel) s (it ∷ rest) v =
      let v' = plain_visit s it (record v { queue = rest }) in plain_walk fuel s v'.queue v'

  unfoldable pub plain_probe : ℕ → Bytes → Options → Option (List Link)
  unfolding plain_walk
  plain_probe fuel exe opts =
      let s = start_of os exe opts (file_of exe).machine in
      let queue = items s.app_dir 1 (file_of exe).mods in
      if (file_of exe).not_pe || is_empty (file_of exe).mods
      then some []
      else Option.map (λ v. v.out)
          (plain_walk fuel s queue (record { queue = queue; seen = []; out = [] }))

  unfoldable pub plain_all :
      ℕ → Options → List Bytes → ℕ → Table (List Link) → Option (Table (List Link) × ℕ)
  unfolding plain_probe kept_links
  plain_all fuel opts [] pe out = some (out, pe)
  plain_all fuel opts (path ∷ paths) pe out = Option.bind (plain_probe fuel path opts) (λ links.
      plain_all fuel opts paths (if not (file_of path).not_pe then pe + 1 else pe)
        (kept_links os path links out))
