-- ===== src/Model/Delta/Versions.antt =====
-- internal/model/model.go: what `diffVersions` counts.
use swinv.Prelude.{
  ℕ, ◌+◌, ◌-◌, ◌≡◌, refl, ap, Bool, true, List, [], ◌∷◌, Bytes, bytes_eq, bytes_eq_iff, Bool-cases,
  inl, inr, if◌then◌else◌, All, ltb, arith,
}
use swinv.Prelude.Table.{Table, find, set, find-set, find-set_other}
use swinv.Prelude.Sort.{count_if}
use swinv.Model.Component.{Component}
use swinv.Model.Delta.{tally, count_versions, unmatched, diff_versions}

-- The test for a component of the version `v`.
abbrev pub of_version : Bytes → Component → Bool
of_version v c = bytes_eq v c.version

tally-set :
    (v w : Bytes) (n : ℕ) (counts : Table ℕ)
    → tally v (set w n counts) ≡ (if bytes_eq v w then n else tally v counts)
unfolding tally
tally-set v w n counts = elim (Bool-cases (bytes_eq v w)) [
  | inl same ↦ rw (same, (bytes_eq_iff v w).0 same, find-set w n counts) refl
  | inr apart ↦ rw (apart, find-set_other v w n counts apart) refl
]

same_tally :
    (v w : Bytes) (counts : Table ℕ) → bytes_eq v w ≡ true → tally v counts ≡ tally w counts
same_tally v w counts same = ap (λ x. tally x counts) ((bytes_eq_iff v w).0 same)

tally-count_versions :
    (v : Bytes) (counts : Table ℕ) (cs : List Component)
    → tally v (count_versions counts cs) ≡ tally v counts + count_if (of_version v) cs
unfolding count_versions
tally-count_versions v counts [] = omega arith
tally-count_versions v counts (c ∷ cs) =
    let step = tally-count_versions v (set c.version (tally c.version counts + 1) counts) cs in
    let one = tally-set v c.version (tally c.version counts + 1) counts in
    elim (Bool-cases (bytes_eq v c.version)) [
      | inl same ↦
          let e : tally v counts ≡ tally c.version counts = same_tally v c.version counts same in
          rw (step, one, same) (omega arith)
      | inr apart ↦ rw (step, one, apart) (omega arith)
    ]

count_if-unmatched :
    (v : Bytes) (counts : Table ℕ) (cs : List Component)
    → count_if (of_version v) (unmatched counts cs).0 ≡ count_if (of_version v) cs - tally v counts
unfolding unmatched
count_if-unmatched v counts [] = omega arith
count_if-unmatched v counts (c ∷ cs) =
    let fewer = count_if-unmatched v (set c.version (tally c.version counts - 1) counts) cs in
    let one = tally-set v c.version (tally c.version counts - 1) counts in
    let rest = count_if-unmatched v counts cs in
    elim (Bool-cases (bytes_eq v c.version)) [
      | inl same ↦
          let e : tally v counts ≡ tally c.version counts = same_tally v c.version counts same in
          ground (arith, fewer, one, rest, same, e)
      | inr apart ↦ ground (arith, fewer, one, rest, apart)
    ]

unmatched-All :
    (P : Component → Type 0) (counts : Table ℕ) (cs : List Component)
    → All P cs
    → All P (unmatched counts cs).0
unfolding unmatched
unmatched-All P counts [] a = a
unmatched-All P counts (c ∷ cs) (p, a) = elim (Bool-cases (ltb 0 (tally c.version counts))) [
  | inl some' ↦ rw some' (unmatched-All P (set c.version (tally c.version counts - 1) counts) cs a)
  | inr none' ↦ rw none' (p, unmatched-All P counts cs a)
]

tally-nil : (v : Bytes) → tally v [] ≡ 0
unfolding tally find
tally-nil v = refl

-- Of each version, `diffVersions` returns as many components as `a` has more than `b`.
pub count_if-diff_versions :
    (v : Bytes) (a b : List Component)
    → count_if (of_version v) (diff_versions a b).0
      ≡ count_if (of_version v) a - count_if (of_version v) b
unfolding diff_versions
count_if-diff_versions v a b =
    let n = count_if-unmatched v (count_versions [] b) a in
    let t = tally-count_versions v [] b in omega (arith, n, t, tally-nil v)

pub diff_versions-All :
    (P : Component → Type 0) (a b : List Component) → All P a → All P (diff_versions a b).0
unfolding diff_versions
diff_versions-All P a b all = unmatched-All P (count_versions [] b) a all
