-- ===== src/Model/Sets.antt =====
-- internal/model/model.go: `SortedSet`.
use swinv.Prelude.{
  ◌≡◌, refl, sym, ap, ◌∙◌, Bool, true, false, Bool-cases, inl, inr, not, ◌&&◌, ◌||◌, List, [], ◌∷◌,
  ◌++◌, Bytes, bytes_eq, bytes_eq_iff, bytes_eq_refl, if◌then◌else◌, is_empty, arith,
}
use swinv.Prelude.Sort.{
  any, any-sort_by, IsSorted, sort_by-IsSorted, bytes_lt, bytes_lt_asym, sort_strings,
}

abbrev pub member : Bytes → List Bytes → Bool
member s xs = any (bytes_eq s) xs

-- The loop; `seen` holds just what `out` does.
unfoldable pub distinct_onto : List Bytes → List Bytes → List Bytes
distinct_onto [] out = out
distinct_onto (s ∷ ss) out =
    distinct_onto ss (if is_empty s || member s out then out else out ++ (s ∷ []))

unfoldable pub sorted_set : List Bytes → List Bytes
unfolding distinct_onto sort_strings
sorted_set xs = sort_strings (distinct_onto xs [])

or_false : (a b : Bool) → ((a || (false || false)) || b) ≡ (a || b)
or_false true b = refl
or_false false b = refl

or_true : (a b : Bool) → ((a || (true || false)) || b) ≡ (a || (true || b))
or_true true b = refl
or_true false b = refl

pub member-append :
    (l : Bytes) (xs ys : List Bytes) → member l (xs ++ ys) ≡ (member l xs || member l ys)
member-append l [] ys = refl
member-append l (x ∷ xs) ys = ground (arith, member-append l xs ys)

member_empty :
    (l s : Bytes) (xs : List Bytes)
    → is_empty s ≡ true
    → (not (is_empty l) && member l (s ∷ xs)) ≡ (not (is_empty l) && member l xs)
unfolding bytes_eq
member_empty [] s xs h = refl
member_empty (c ∷ l) [] xs h = refl
member_empty (c ∷ l) (d ∷ s) xs h = absurd (cc h)

member_seen :
    (l s : Bytes) (xs out : List Bytes)
    → member s out ≡ true
    → (member l out || (not (is_empty l) && member l (s ∷ xs)))
      ≡ (member l out || (not (is_empty l) && member l xs))
member_seen l s xs out h = elim (Bool-cases (bytes_eq l s)) [
  | inr apart ↦ rw apart refl
  | inl same ↦ rw ((bytes_eq_iff l s).0 same, h) refl
]

member-distinct_onto :
    (l : Bytes) (xs out : List Bytes)
    → member l (distinct_onto xs out) ≡ (member l out || (not (is_empty l) && member l xs))
unfolding distinct_onto
member-distinct_onto l [] out = ground arith
member-distinct_onto l (s ∷ ss) out = elim (Bool-cases (is_empty s)) [
  | inl none' ↦
      rw none'
        (member-distinct_onto l ss out ∙ ap (◌||◌ (member l out)) (sym (member_empty l s ss none')))
  | inr text ↦ elim (Bool-cases (member s out)) [
    | inl seen ↦ rw (text, seen) (member-distinct_onto l ss out ∙ sym (member_seen l s ss out seen))
    | inr new ↦
        rw (text, new)
          (member-distinct_onto l ss (out ++ (s ∷ []))
            ∙ (rw (member-append l out (s ∷ [])) (added l s ss out text)))
  ]
]
  where
    added :
        (l s : Bytes) (ss out : List Bytes)
        → is_empty s ≡ false
        → ((member l out || member l (s ∷ [])) || (not (is_empty l) && member l ss))
          ≡ (member l out || (not (is_empty l) && member l (s ∷ ss)))
    added l s ss out text = elim (Bool-cases (bytes_eq l s)) [
      | inr apart ↦ rw apart (or_false (member l out) (not (is_empty l) && member l ss))
      | inl same ↦
          rw ((bytes_eq_iff l s).0 same, text, bytes_eq_refl s)
            (or_true (member s out) (member s ss))
    ]

-- A text is in the set exactly when it is not empty and in the list.
pub member-sorted_set :
    (l : Bytes) (xs : List Bytes) → member l (sorted_set xs) ≡ (not (is_empty l) && member l xs)
unfolding sorted_set sort_strings
member-sorted_set l xs =
    any-sort_by bytes_lt (bytes_eq l) (distinct_onto xs []) ∙ member-distinct_onto l xs []

pub sorted_set-IsSorted : (xs : List Bytes) → IsSorted bytes_lt (sorted_set xs)
unfolding sorted_set sort_strings
sorted_set-IsSorted xs = sort_by-IsSorted bytes_lt bytes_lt_asym (distinct_onto xs [])
