-- ===== src/Links/Probe/Faithful.antt =====
-- internal/pelink/pelink.go: what faithful caches answer.
use swinv.Prelude.{
  ◌≡◌, refl, sym, ap, ◌∙◌, Bool, List, [], ◌∷◌, Option, none, some, Bytes, Bool-cases, inl, inr,
  All, bytes_eq_iff, is_empty,
}
use swinv.Prelude.Table.{find}
use swinv.Links.Imports.{Machine}
use swinv.Links.Prober.{
  Prober, Parsed, answer, imports, parse_through, stat_through, is_file, resolve_in,
}
use swinv.Links.Prober.Caches.{find-All, set-All}
use swinv.Links.Probe.Plain.{file_of, found_in}

-- A file's name may be spelled in capitals or not.
pub record IgnoresCase (os : Machine) : Type 0 where
  pub parsed : (a b : Bytes) → os.lower a ≡ os.lower b → file_of os a ≡ file_of os b
  pub regular : (a b : Bytes) → os.lower a ≡ os.lower b → os.is_regular a ≡ os.is_regular b

module _ (os : Machine) (laws : IgnoresCase os) where
  abbrev Parses : Bytes × Parsed → Type 0
  Parses e = (path : Bytes) → os.lower path ≡ e.0 → file_of os path ≡ e.1

  abbrev Stats' : Bytes × Bool → Type 0
  Stats' e = (path : Bytes) → os.lower path ≡ e.0 → os.is_regular path ≡ e.1

  -- The caches hold what the files would give, and there is no deadline.
  pub record IsFaithful (p : Prober) : Type 0 where
    pub parses : All Parses p.cache
    pub stats : All Stats' p.stat_cache
    pub unlimited : p.deadline ≡ none

  pub imports-IsFaithful :
      (path : Bytes) (p : Prober)
      → IsFaithful p
      → ((imports os path p).0 ≡ answer (file_of os path)) × IsFaithful (imports os path p).1
  unfolding imports parse_through
  imports-IsFaithful path p h = by_entry (find (os.lower path) p.cache) (λ e i.
      find-All Parses (os.lower path) p.cache
        (λ j v same q x y. q x (y ∙ (bytes_eq_iff (os.lower path) j).0 same)) h.parses e i path
        refl)
    where
      by_entry :
          (o : Option Parsed)
          → ((e : Parsed) → o ≡ some e → file_of os path ≡ e)
          → ((parse_through os path o p).0 ≡ answer (file_of os path))
            × IsFaithful (parse_through os path o p).1
      by_entry (some e) k = (sym (ap answer (k e refl)), h)
      by_entry none k = rw (h.unlimited) (
        refl,
        record {
          parses =
              set-All Parses (os.lower path) (file_of os path) p.cache (λ x y. laws.parsed x path y)
                h.parses;
          stats = h.stats;
          unlimited = refl;
        },
      )

  is_file-IsFaithful :
      (path : Bytes) (p : Prober)
      → IsFaithful p
      → ((is_file os path p).0 ≡ os.is_regular path) × IsFaithful (is_file os path p).1
  unfolding is_file stat_through
  is_file-IsFaithful path p h = by_entry (find (os.lower path) p.stat_cache) (λ e i.
      find-All Stats' (os.lower path) p.stat_cache
        (λ j v same q x y. q x (y ∙ (bytes_eq_iff (os.lower path) j).0 same)) h.stats e i path refl)
    where
      by_entry :
          (o : Option Bool)
          → ((e : Bool) → o ≡ some e → os.is_regular path ≡ e)
          → ((stat_through os path o p).0 ≡ os.is_regular path)
            × IsFaithful (stat_through os path o p).1
      by_entry (some e) k = (sym (k e refl), h)
      by_entry none k = (
        refl,
        record {
          parses = h.parses;
          stats =
              set-All Stats' (os.lower path) (os.is_regular path) p.stat_cache
                (λ x y. laws.regular x path y) h.stats;
          unlimited = h.unlimited;
        },
      )

  pub resolve_in-IsFaithful :
      (name : Bytes) (dirs : List Bytes) (p : Prober)
      → IsFaithful p
      → ((resolve_in os name dirs p).0 ≡ found_in os name dirs)
        × IsFaithful (resolve_in os name dirs p).1
  unfolding resolve_in found_in
  resolve_in-IsFaithful name [] p h = (refl, h)
  resolve_in-IsFaithful name (dir ∷ dirs) p h =
      let asked = is_file os (os.join dir name) p in
      let (e, f) = is_file-IsFaithful (os.join dir name) p h in
      elim (Bool-cases (is_empty dir)) [
        | inl none' ↦ rw none' (resolve_in-IsFaithful name dirs p h)
        | inr dir' ↦ elim (Bool-cases (os.is_regular (os.join dir name))) [
          | inl there ↦ rw (dir', e, there) (refl, f)
          | inr off ↦ rw (dir', e, off) (resolve_in-IsFaithful name dirs asked.1 f)
        ]
      ]
