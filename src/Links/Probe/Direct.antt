-- ===== src/Links/Probe/Direct.antt =====
-- internal/pelink/pelink.go: which links of a walk are direct.
use mathlib.Core.Path.{subst}
use swinv.Prelude.{
  ℕ, ◌+◌, ◌≤◌, ◌<◌, ◌≡◌, refl, sym, ap, ◌∙◌, Bool, true, false, ◌||◌, ◌&&◌, List, [], ◌∷◌, ◌++◌,
  append_assoc, append-nil, some, Bytes, bytes_eq, bytes_eq_iff, bytes_eq_refl, if◌then◌else◌,
  Bool-cases, inl, inr, arith, All, All-append, ◌==◌, is_empty, leb,
}
use swinv.Prelude.Sort.{any, count_if}
use swinv.Model.Sets.{member}
use swinv.Links.Imports.{Module, Link, Machine}
use swinv.Links.Prober.{Prober, imports}
use swinv.Links.Probe.{
  Item, Walk, Start, items, key_of, visit, walk_from, link_of, locate, next_items,
}
use swinv.Links.Probe.Walking.{queued, walk_on-Keeps}
use swinv.Links.Probe.Names.{called, IsNamed, visit-IsNamed}

nil_append : {A : Type 0} (xs ys : List A) → [] ≡ xs ++ ys → xs ≡ []
nil_append [] ys e = refl
nil_append (x ∷ xs) ys e = absurd (cc e)

module _ (os : Machine) (direct : List Module) where
  -- The test for a name in lower case that the binary itself imports.
  abbrev pub is_imported : Bytes → Bool
  is_imported k = any (λ m. bytes_eq k (os.lower m.name)) direct

  abbrev queued_under : Bytes → List Item → Bool
  queued_under k ones = any (λ it. bytes_eq k (key_of os it)) ones

  -- The binary's own imports stand before all others in the queue.
  record IsLayered (w : Walk) : Type 0 where
    ones : List Item
    later : List Item
    split : w.queue ≡ ones ++ later
    firsts : All (λ it. (it.hop ≡ 1) × (is_imported (key_of os it) ≡ true)) ones
    others : All (λ it. 1 < it.hop) later
    covered : (k : Bytes) → is_imported k ≡ true → (member k w.seen || queued_under k ones) ≡ true
    marked : All (λ l. l.direct ≡ is_imported (os.lower l.name)) w.out

  items-others :
      (from : Bytes) (hop : ℕ) (mods : List Module)
      → 1 < hop
      → All (λ it. 1 < it.hop) (items from hop mods)
  items-others from hop [] h = tt
  items-others from hop (m ∷ mods) h = (h, items-others from hop mods h)

  next_items-others :
      (s : Start) (it : Item) (path : Bytes) (p : Prober)
      → 1 ≤ it.hop
      → All (λ x. 1 < x.hop) (next_items os s it path p).0
  unfolding next_items
  next_items-others s it path p h = elim (Bool-cases (is_empty path || leb s.depth it.hop)) [
    | inl stop ↦ rw stop tt
    | inr go ↦ elim (Bool-cases (imports os path p).0.2) [
      | inl pe ↦
          rw (go, pe)
            (items-others (os.dir path) (it.hop + 1) (imports os path p).0.0 (omega arith))
      | inr other ↦ rw (go, other) tt
    ]
  ]

  covered_old :
      (key : Bytes) (seen : List Bytes) (ones : List Item)
      → member key seen ≡ true
      → (k : Bytes) → (member k (key ∷ seen) || queued_under k ones) ≡ true
      → (member k seen || queued_under k ones) ≡ true
  covered_old key seen ones old k h = elim (Bool-cases (bytes_eq k key)) [
    | inl same ↦
        let e : member k seen ≡ true =
          ap (λ x. member x seen) ((bytes_eq_iff k key).0 same) ∙ old in
        rw e refl
    | inr other ↦ rw other at h
  ]

  visit-IsLayered :
      (s : Start) (it : Item) (w : Walk) (rest ones later : List Item)
      → rest ≡ ones ++ later
      → All (λ x. (x.hop ≡ 1) × (is_imported (key_of os x) ≡ true)) ones
      → All (λ x. 1 < x.hop) later
      → ((k : Bytes)
          → is_imported k ≡ true
          → (member k (key_of os it ∷ w.seen) || queued_under k ones) ≡ true)
      → All (λ l. l.direct ≡ is_imported (os.lower l.name)) w.out
      → 1 ≤ it.hop
      → (member (key_of os it) w.seen ≡ false → (it.hop == 1) ≡ is_imported (key_of os it))
      → IsLayered (visit os s it (queued w rest))
  unfolding visit link_of
  visit-IsLayered s it w rest ones later e f o c m h d =
      elim (Bool-cases (member (key_of os it) w.seen)) [
        | inl old ↦ rw old (record {
          ones = ones;
          later = later;
          split = e;
          firsts = f;
          others = o;
          covered = λ k i. covered_old (key_of os it) w.seen ones old k (c k i);
          marked = m;
        })
        | inr new ↦
            let found = locate os s it w.prober in
            let next = next_items os s it found.0 found.1 in
            rw new (record {
              ones = ones;
              later = later ++ next.0;
              split = ap (λ q. q ++ next.0) e ∙ append_assoc ones later next.0;
              firsts = f;
              others =
                  All-append (λ x. 1 < x.hop) later next.0 o
                    (next_items-others s it found.0 found.1 h);
              covered = c;
              marked =
                  All-append (λ l. l.direct ≡ is_imported (os.lower l.name)) w.out
                    (link_of os s it found.0 ∷ []) m (d new, tt);
            })
      ]

  round :
      (s : Start) (it : Item) (rest : List Item) (w : Walk)
      → IsLayered (queued w (it ∷ rest))
      → IsLayered (visit os s it (queued w rest))
  round s it rest w h = by_first h.ones h.later h.split h.firsts h.others h.covered
    where
      by_first :
          (ones later : List Item)
          → it ∷ rest ≡ ones ++ later
          → All (λ x. (x.hop ≡ 1) × (is_imported (key_of os x) ≡ true)) ones
          → All (λ x. 1 < x.hop) later
          → ((k : Bytes) → is_imported k ≡ true → (member k w.seen || queued_under k ones) ≡ true)
          → IsLayered (visit os s it (queued w rest))
      by_first [] [] e f o c = absurd (cc e)
      by_first [] (x ∷ later) e f (o, os') c =
          let i : it ≡ x = cc e in
          let hop : 1 < it.hop = subst (λ y. 1 < y.hop) (sym i) o in
          let seen : (k : Bytes) → is_imported k ≡ true → member k w.seen ≡ true =
            λ k own. ground (arith, c k own) in
          visit-IsLayered s it w rest [] later (cc e) tt os'
            (λ k own. rw (seen k own) (ground arith)) h.marked (omega arith)
            (λ new. elim (Bool-cases (is_imported (key_of os it))) [
              | inl own ↦ absurd (cc (new, seen (key_of os it) own))
              | inr foreign ↦ rw foreign (ground arith)
            ])
      by_first (x ∷ ones) later e (f, fs) o c =
          let i : it ≡ x = cc e in
          let hop : it.hop ≡ 1 = ap (λ y. y.hop) i ∙ f.0 in
          let own : is_imported (key_of os it) ≡ true =
            ap (λ y. is_imported (key_of os y)) i ∙ f.1 in
          visit-IsLayered s it w rest ones later (cc e) fs o
            (λ k k_own. ground (arith, c k k_own, ap (λ y. bytes_eq k (key_of os y)) i)) h.marked
            (omega arith) (λ new. rw (own, hop) refl)

  items-firsts :
      (from : Bytes) (mods : List Module)
      → ((k : Bytes) → any (λ m. bytes_eq k (os.lower m.name)) mods ≡ true → is_imported k ≡ true)
      → All (λ x. (x.hop ≡ 1) × (is_imported (key_of os x) ≡ true)) (items from 1 mods)
  items-firsts from [] h = tt
  items-firsts from (m ∷ mods) h = (
    (refl, h (os.lower m.name) (rw (bytes_eq_refl (os.lower m.name)) refl)),
    items-firsts from mods (λ k e. h k (ground (arith, e))),
  )

  queued_items :
      (k from : Bytes) (mods : List Module)
      → queued_under k (items from 1 mods) ≡ any (λ m. bytes_eq k (os.lower m.name)) mods
  queued_items k from [] = refl
  queued_items k from (m ∷ mods) =
      ap (◌||◌ (bytes_eq k (os.lower m.name))) (queued_items k from mods)

  count_direct :
      (k : Bytes) (out : List Link)
      → All (λ l. l.direct ≡ is_imported (os.lower l.name)) out
      → count_if (λ l. called os k l && l.direct) out
        ≡ (if is_imported k then count_if (called os k) out else 0)
  count_direct k [] h = ground arith
  count_direct k (l ∷ out) (d, h) = elim (Bool-cases (called os k l)) [
    | inl same ↦
        let e : l.direct ≡ is_imported k =
          d ∙ sym (ap is_imported ((bytes_eq_iff k (os.lower l.name)).0 same)) in
        rw (same, e, count_direct k out h) (ground arith)
    | inr other ↦ rw (other, count_direct k out h) (ground arith)
  ]

  -- A walk that ends has at most one link for each name, whatever the case of its letters, and exactly
  -- one direct link for each name that the binary imports itself, and no other direct link.
  pub walk_from_once :
      (fuel : ℕ) (s : Start) (p : Prober) (w : Walk) (k : Bytes)
      → walk_from os fuel s direct p ≡ some w
      → (count_if (called os k) w.out ≤ 1)
        × (count_if (λ l. called os k l && l.direct) w.out ≡ (if is_imported k then 1 else 0))
  unfolding walk_from
  walk_from_once fuel s p w k e =
      let queue = items s.app_dir 1 direct in
      let start : Walk = record { queue = queue; seen = []; out = []; prober = p } in
      let first : IsLayered start = record {
        ones = queue;
        later = [];
        split = sym (append-nil queue);
        firsts = items-firsts s.app_dir direct (λ j i. i);
        others = tt;
        covered = λ j i. queued_items j s.app_dir direct ∙ i;
        marked = tt;
      } in
      let end =
        walk_on-Keeps os s IsLayered (λ it rest v. round s it rest v) fuel queue start w first e in
      let once =
        walk_on-Keeps os s (IsNamed os) (λ it rest v. visit-IsNamed os s it (queued v rest)) fuel
          queue start w (λ j. refl) e k in
      (
        ground (arith, once),
        count_direct k w.out end.marked ∙ elim (Bool-cases (is_imported k)) [
          | inr foreign ↦ rw foreign refl
          | inl own ↦
              let none' : queued_under k end.ones ≡ false =
                ap (queued_under k) (nil_append end.ones end.later end.split) in
              let seen : member k w.seen ≡ true = ground (arith, end.covered k own, none') in
              rw (own, once, seen) refl
        ],
      )
