-- ===== src/Links/Probe/Walking.antt =====
-- internal/pelink/pelink.go: what the loop of `probe` keeps.
use mathlib.Core.Path.{subst}
use swinv.Prelude.{ℕ, zero, suc, ◌≡◌, List, [], ◌∷◌, some, some-injective}
use swinv.Links.Imports.{Machine}
use swinv.Links.Probe.{Item, Walk, Start, visit, walk_on}

-- The walk with the queue `queue`.
abbrev pub queued : Walk → List Item → Walk
queued w queue = record w { queue = queue }

module _ (os : Machine) (s : Start) (P : Walk → Type 0) where
  -- What each round keeps holds at the end, with an empty queue.
  pub walk_on-Keeps :
      ((it : Item) (rest : List Item) (w : Walk)
        → P (queued w (it ∷ rest))
        → P (visit os s it (queued w rest)))
      → (fuel : ℕ) (queue : List Item) (w w' : Walk) → P (queued w queue)
      → walk_on os fuel s queue w ≡ some w'
      → P (queued w' [])
  unfolding walk_on
  walk_on-Keeps round fuel [] w w' h e = subst (λ x. P (queued x [])) (some-injective w w' e) h
  walk_on-Keeps round zero (it ∷ rest) w w' h e = absurd (cc e)
  walk_on-Keeps round (suc fuel) (it ∷ rest) w w' h e =
      let v = visit os s it (queued w rest) in
      walk_on-Keeps round fuel v.queue v w' (round it rest w h) e
