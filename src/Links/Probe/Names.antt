-- ===== src/Links/Probe/Names.antt =====
-- internal/pelink/pelink.go: a walk names each DLL once.
use swinv.Prelude.{
  ◌≡◌, refl, ap, ◌∙◌, Bool, false, [], ◌∷◌, Bytes, bytes_eq, bytes_eq_iff, if◌then◌else◌,
  Bool-cases, inl, inr, arith,
}
use swinv.Prelude.Sort.{count_if, count_if-append}
use swinv.Model.Sets.{member}
use swinv.Links.Imports.{Link, Machine}
use swinv.Links.Probe.{Item, Walk, Start, key_of, visit, link_of, locate}

module _ (os : Machine) where
  -- The test for a link whose name in lower case is `k`.
  abbrev pub called : Bytes → Link → Bool
  called k l = bytes_eq k (os.lower l.name)

  -- Just the names that were seen have been given out, and each once.
  abbrev pub IsNamed : Walk → Type 0
  IsNamed w = (k : Bytes) → count_if (called k) w.out ≡ (if member k w.seen then 1 else 0)

  pub visit-IsNamed : (s : Start) (it : Item) (w : Walk) → IsNamed w → IsNamed (visit os s it w)
  unfolding visit link_of
  visit-IsNamed s it w h k = elim (Bool-cases (member (key_of os it) w.seen)) [
    | inl old ↦ rw old (h k)
    | inr new ↦
        let l = link_of os s it (locate os s it w.prober).0 in
        let n = count_if-append (called k) w.out (l ∷ []) in
        elim (Bool-cases (bytes_eq k (key_of os it))) [
          | inl same ↦
              let e : member k w.seen ≡ false =
                ap (λ x. member x w.seen) ((bytes_eq_iff k (key_of os it)).0 same) ∙ new in
              rw (new, n, h k, e, same) refl
          | inr other ↦ rw (new, n, h k, other) (omega arith)
        ]
  ]
