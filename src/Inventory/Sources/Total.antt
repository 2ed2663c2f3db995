-- ===== src/Inventory/Sources/Total.antt =====
-- The sources' counts against the inventory they were counted from.
use swinv.Prelude.{
  ℕ, suc, ◌+◌, ◌≡◌, ◌⊎◌, inl, inr, refl, sym, ap, true, false, Bool-cases, List, [], ◌∷◌, Option,
  none, some, Bytes, bytes_eq, bytes_eq_iff, ◌==◌, ==_iff, map, length, All, arith,
}
use swinv.Prelude.Table.{Table, find, set, find-set, find-set_other}
use swinv.Inventory.Sources.{
  SourceStatus, ProbeResult, or_zero, increment, source_key, count_into, components_by_source,
  readable, verdict, from_counts, judge, source_statuses, source_component_total,
}

module _ {V : Type 0} (weight : V → ℕ) where
  abbrev sum_of : Table V → ℕ
  sum_of [] = 0
  sum_of ((k, v) ∷ rest) = weight v + sum_of rest

  abbrev weight_or_zero : Option V → ℕ
  weight_or_zero none = 0
  weight_or_zero (some v) = weight v

  sum_of-set :
      (k : Bytes) (v : V) (m : Table V)
      → sum_of (set k v m) + weight_or_zero (find k m) ≡ sum_of m + weight v
  unfolding find set
  sum_of-set k v [] = omega arith
  sum_of-set k v ((j, w) ∷ rest) = elim (Bool-cases (bytes_eq k j)) [
    | inl same ↦ rw same (omega arith)
    | inr apart ↦ rw apart (omega (arith, sum_of-set k v rest))
  ]

abbrev sum_counts : Table ℕ → ℕ
sum_counts = sum_of (λ n. n)

or_zero-weight : (o : Option ℕ) → weight_or_zero (λ n. n) o ≡ or_zero o
or_zero-weight none = refl
or_zero-weight (some n) = refl

count_into-sum :
    (found_bys : List Bytes) (counts : Table ℕ)
    → sum_counts (count_into found_bys counts) ≡ length found_bys + sum_counts counts
unfolding count_into
count_into-sum [] counts = omega arith
count_into-sum (f ∷ fs) counts =
    let k = source_key f in
    let n = or_zero (find k counts) in
    omega (
      arith,
      count_into-sum fs (increment k counts),
      sum_of-set (λ x. x) k (suc n) counts,
      or_zero-weight (find k counts),
    )

abbrev components_at : Bytes → Table SourceStatus → ℕ
components_at k m = weight_or_zero (λ s. s.components) (find k m)

source_component_total-sum :
    (m : Table SourceStatus) → source_component_total m ≡ sum_of (λ s. s.components) m
unfolding source_component_total
source_component_total-sum [] = refl
source_component_total-sum ((k, s) ∷ rest) = ap (◌+◌ s.components) (source_component_total-sum rest)

-- A probed source that contributed components was found, and not found empty.
abbrev pub IsAccounted : Table ℕ → ProbeResult → Type 0
IsAccounted counts r =
    (or_zero (find r.probe.name counts) ≡ 0) ⊎ ((r.present ≡ true) × (r.empty ≡ false))

readable-components :
    (r : ProbeResult) (n : ℕ) (e : Option Bytes) → r.empty ≡ false → (readable r n e).components ≡ n
readable-components r n (some e) h = refl
readable-components r n none h = elim (Bool-cases (n == 0)) [
  | inl zero' ↦ rw (h, zero') (sym ((==_iff n 0).0 zero'))
  | inr more ↦ rw (h, more) refl
]

readable-zero : (r : ProbeResult) (e : Option Bytes) → (readable r 0 e).components ≡ 0
readable-zero r (some e) = refl
readable-zero r none = elim (Bool-cases r.empty) [
  | inl empty ↦ rw empty refl
  | inr full ↦ rw full refl
]

verdict-zero : (r : ProbeResult) → (verdict r 0).components ≡ 0
unfolding verdict
verdict-zero r = elim (Bool-cases r.present) [
  | inl here ↦ rw here (readable-zero r r.failure)
  | inr away ↦ rw away refl
]

verdict-components :
    (counts : Table ℕ) (r : ProbeResult)
    → IsAccounted counts r
    → (verdict r (or_zero (find r.probe.name counts))).components
      ≡ or_zero (find r.probe.name counts)
unfolding verdict
verdict-components counts r (inl none') = rw none' (verdict-zero r)
verdict-components counts r (inr (here, full)) =
    rw here (readable-components r (or_zero (find r.probe.name counts)) r.failure full)

-- The table still shows what was counted for each source.
abbrev Agrees : Table ℕ → Table SourceStatus → Type 0
Agrees counts m = (k : Bytes) → components_at k m ≡ or_zero (find k counts)

Agrees-set :
    (counts : Table ℕ) (m : Table SourceStatus) (k : Bytes) (s : SourceStatus)
    → Agrees counts m
    → s.components ≡ or_zero (find k counts)
    → Agrees counts (set k s m)
Agrees-set counts m k s agrees same i = elim (Bool-cases (bytes_eq i k)) [
  | inl it ↦ rw ((bytes_eq_iff i k).0 it, find-set k s m) same
  | inr other ↦ rw (find-set_other i k s m other) (agrees i)
]

judge-total :
    (rs : List ProbeResult) (counts : Table ℕ) (m : Table SourceStatus)
    → All (IsAccounted counts) rs
    → Agrees counts m
    → sum_of (λ s. s.components) (judge rs counts m) ≡ sum_of (λ s. s.components) m
unfolding judge
judge-total [] counts m h agrees = refl
judge-total (r ∷ rs) counts m (h, hs) agrees =
    let k = r.probe.name in
    let s = verdict r (or_zero (find k counts)) in
    let same = verdict-components counts r h in
    let further = judge-total rs counts (set k s m) hs (Agrees-set counts m k s agrees same) in
    omega (arith, further, sum_of-set (λ x. x.components) k s m, agrees k, same)

from_counts-Agrees : (counts : Table ℕ) → Agrees counts (map from_counts counts)
unfolding find
from_counts-Agrees [] k = refl
from_counts-Agrees ((j, n) ∷ rest) k = elim (Bool-cases (bytes_eq k j)) [
  | inl same ↦ rw same refl
  | inr apart ↦ rw apart (from_counts-Agrees rest k)
]

from_counts-sum :
    (counts : Table ℕ) → sum_of (λ s. s.components) (map from_counts counts) ≡ sum_counts counts
from_counts-sum [] = refl
from_counts-sum ((j, n) ∷ rest) = ap (◌+◌ n) (from_counts-sum rest)

-- The per-source counts add up to the number of components, whatever their `FoundBy` values, as long
-- as every probed source that contributed a component was present and not empty.
pub source_component_total-length :
    (found_bys : List Bytes) (results : List ProbeResult)
    → All (IsAccounted (components_by_source found_bys)) results
    → source_component_total (source_statuses results (components_by_source found_bys))
      ≡ length found_bys
unfolding source_statuses components_by_source
source_component_total-length found_bys results h =
    let counts = count_into found_bys [] in
    omega (
      arith,
      source_component_total-sum (judge results counts (map from_counts counts)),
      judge-total results counts (map from_counts counts) h (from_counts-Agrees counts),
      from_counts-sum counts,
      count_into-sum found_bys [],
    )
