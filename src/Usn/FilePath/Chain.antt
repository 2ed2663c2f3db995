-- ===== src/Usn/FilePath/Chain.antt =====
-- `resolvePath` against the relation "this directory stands under these names".
use swinv.Prelude.{
  ℕ, zero, suc, ◌+◌, ◌*◌, ◌≤◌, ◌≡◌, ◌↔◌, refl, sym, ap, ◌∙◌, true, false, Bool-cases, inl, inr,
  List, [], ◌∷◌, ◌++◌, append_assoc, append-nil, Option, Option-cases, some, Bytes, ◌==◌, ==_iff,
  length, length-append, some-injective, arith,
}
use swinv.Prelude.Assoc.{Assoc, lookup}
use swinv.Usn.FilePath.{
  DirEntry, max_path_depth, mft_index, step_up, climb, write_back, written, resolve_path,
}

-- The directory with the index `ref` is reached from the volume's root by `names`, outermost first.
pub data Under (dirs : Assoc DirEntry) : ℕ → List Bytes → Type 0 where
  at_root : Under dirs 5 []
  below :
      (ref : ℕ) (d : DirEntry) (names : List Bytes)
      → (ref == 5) ≡ false
      → lookup ref dirs ≡ some d
      → Under dirs (mft_index d.parent) names
      → Under dirs ref (names ++ (d.name ∷ []))

-- A directory that is its own parent stands under nothing.
no_loop :
    (dirs : Assoc DirEntry) (ref : ℕ) (d : DirEntry) (names : List Bytes)
    → lookup ref dirs ≡ some d
    → mft_index d.parent ≡ ref
    → (ref == 5) ≡ false
    → Under dirs ref names
    → ⊥
no_loop dirs ref d names found loop away u = go ref names u refl
  where
    go : (r : ℕ) (ns : List Bytes) → Under dirs r ns → r ≡ ref → ⊥
    go r ns at_root e = ground (arith, away, e)
    go r ns (below ref' d' names' away' found' u') e =
        let same : d' ≡ d =
          some-injective d' d (sym found' ∙ (ap (λ k. lookup k dirs) e ∙ found)) in
        go (mft_index d'.parent) names' u' (ap (λ x. mft_index x.parent) same ∙ loop)

abbrev pub spell : List Bytes → Bytes
spell [] = []
spell (n ∷ ns) = (b'\\' ∷ n) ++ spell ns

spell-append : (xs ys : List Bytes) → spell (xs ++ ys) ≡ spell xs ++ spell ys
spell-append [] ys = refl
spell-append (x ∷ xs) ys =
    ap (λ t. (b'\\' ∷ x) ++ t) (spell-append xs ys)
    ∙ sym (append_assoc (b'\\' ∷ x) (spell xs) (spell ys))

write_back-append : (xs ys : List Bytes) → write_back (xs ++ ys) ≡ write_back ys ++ write_back xs
unfolding write_back
write_back-append [] ys = sym (append-nil (write_back ys))
write_back-append (x ∷ xs) ys =
    ap (λ t. t ++ (b'\\' ∷ x)) (write_back-append xs ys)
    ∙ append_assoc (write_back ys) (write_back xs) (b'\\' ∷ x)

-- The names of one more level, before those that are written already.
one_level :
    (names parts : List Bytes) (n out : Bytes)
    → out ≡ spell names ++ write_back (parts ++ (n ∷ []))
    → out ≡ spell (names ++ (n ∷ [])) ++ write_back parts
unfolding write_back
one_level names parts n out e =
    rw (e, write_back-append parts (n ∷ []), spell-append names (n ∷ []), append-nil (b'\\' ∷ n))
      (sym (append_assoc (spell names) (b'\\' ∷ n) (write_back parts)))

module _ (dirs : Assoc DirEntry) where
  climb_root :
      (left ref : ℕ) (parts : List Bytes)
      → (ref == 5) ≡ true
      → climb dirs left ref parts ≡ some parts
  unfolding climb
  climb_root zero ref parts h = rw h
  climb_root (suc left) ref parts h = rw h

  step_up-enter :
      (ref : ℕ) (parts : List Bytes) (next : ℕ → List Bytes → Option (List Bytes)) (d : DirEntry)
      → lookup ref dirs ≡ some d
      → (mft_index d.parent == ref) ≡ false
      → step_up dirs ref parts next ≡ next (mft_index d.parent) (parts ++ (d.name ∷ []))
  unfolding step_up
  step_up-enter ref parts next d found away = rw (found, away) refl

  step_up-some :
      (ref : ℕ) (parts : List Bytes) (next : ℕ → List Bytes → Option (List Bytes))
      (out : List Bytes)
      → step_up dirs ref parts next ≡ some out
      → (d : DirEntry) × (lookup ref dirs ≡ some d)
        × (next (mft_index d.parent) (parts ++ (d.name ∷ [])) ≡ some out)
  unfolding step_up
  step_up-some ref parts next out h = elim (Option-cases (lookup ref dirs)) [
    | inl missing ↦ absurd (cc (rw missing at h))
    | inr (d, found) ↦ elim (Bool-cases (mft_index d.parent == ref)) [
      | inl loop ↦ absurd (cc (rw (found, loop) at h))
      | inr away ↦ (d, found, sym (step_up-enter ref parts next d found away) ∙ h)
    ]
  ]

  -- What a climb that stops above `ref` has written.
  abbrev Climbed : ℕ → ℕ → List Bytes → List Bytes → Type 0
  Climbed left ref parts out =
      (names : List Bytes) × Under dirs ref names
      × (length names ≤ left)
      × (write_back out ≡ spell names ++ write_back parts)

  Climbed-root :
      (left ref : ℕ) (parts out : List Bytes)
      → (ref == 5) ≡ true
      → climb dirs left ref parts ≡ some out
      → Climbed left ref parts out
  Climbed-root left ref parts out at_top h = (
    [],
    rw ((==_iff ref 5).0 at_top) at_root,
    omega arith,
    sym (ap write_back (some-injective parts out (sym (climb_root left ref parts at_top) ∙ h))),
  )

  climb_sound :
      (left ref : ℕ) (parts out : List Bytes)
      → climb dirs left ref parts ≡ some out
      → Climbed left ref parts out
  unfolding climb
  climb_sound zero ref parts out h = elim (Bool-cases (ref == 5)) [
    | inl at_top ↦ Climbed-root zero ref parts out at_top h
    | inr away ↦ absurd (cc (rw away at h))
  ]
  climb_sound (suc left) ref parts out h = elim (Bool-cases (ref == 5)) [
    | inl at_top ↦ Climbed-root (suc left) ref parts out at_top h
    | inr away ↦
        let (d, found, up) = step_up-some ref parts (climb dirs left) out (rw away at h) in
        let (names, under, short, e) =
          climb_sound left (mft_index d.parent) (parts ++ (d.name ∷ [])) out up in
        (
          names ++ (d.name ∷ []),
          below ref d names away found under,
          omega (arith, length-append names (d.name ∷ []), short),
          one_level names parts d.name (write_back out) e,
        )
  ]

  climb_complete :
      (ref : ℕ) (names : List Bytes)
      → Under dirs ref names
      → (left : ℕ) (parts : List Bytes) → length names ≤ left
      → (out : List Bytes) × (climb dirs left ref parts ≡ some out)
        × (write_back out ≡ spell names ++ write_back parts)
  unfolding climb
  climb_complete ref names at_root left parts short = (parts, climb_root left 5 parts refl, refl)
  climb_complete ref names (below ref' d names' away found under) zero parts short =
      absurd (omega (arith, short, length-append names' (d.name ∷ [])))
  climb_complete ref names (below ref' d names' away found under) (suc left) parts short =
      let straight : (mft_index d.parent == ref) ≡ false = apart in
      let total = length-append names' (d.name ∷ []) in
      let (out, up, e) =
        climb_complete (mft_index d.parent) names' under left (parts ++ (d.name ∷ []))
          (omega (arith, short, total)) in
      (
        out,
        rw away (step_up-enter ref parts (climb dirs left) d found straight ∙ up),
        one_level names' parts d.name (write_back out) e,
      )
    where
      apart : (mft_index d.parent == ref) ≡ false
      apart = elim (Bool-cases (mft_index d.parent == ref)) [
        | inl loop ↦ absurd (
            no_loop dirs ref d (names' ++ (d.name ∷ [])) found
              ((==_iff (mft_index d.parent) ref).0 loop) away (below ref d names' away found under))
        | inr no' ↦ no'
      ]

written_path :
    (volume name : Bytes) (names out : List Bytes)
    → write_back out ≡ spell names ++ write_back []
    → volume ++ (write_back out ++ (b'\\' ∷ name)) ≡ volume ++ spell (names ++ (name ∷ []))
unfolding write_back
written_path volume name names out e =
    rw (e, append-nil (spell names), spell-append names (name ∷ []), append-nil name) refl

-- A path is given exactly to a file whose parent directory is reached from the volume's root over at
-- most 512 directories, and it is the volume followed by those directories' names and the file's,
-- each after a backslash. A missing ancestor, a cycle and a longer chain give none.
pub resolve_path_iff :
    (volume : Bytes) (dirs : Assoc DirEntry) (parent_ref : ℕ) (name path : Bytes)
    → (resolve_path volume dirs parent_ref name ≡ some path) ↔ (
        (names : List Bytes) × Under dirs (mft_index parent_ref) names
        × (length names ≤ max_path_depth)
        × (path ≡ volume ++ spell (names ++ (name ∷ []))))
unfolding resolve_path
resolve_path_iff volume dirs parent_ref name path = (
  λ h. elim (Option-cases (climb dirs max_path_depth (mft_index parent_ref) [])) [
    | inl missing ↦ absurd (cc (rw missing at h))
    | inr (out, reached) ↦
        let (names, under, short, e) =
          climb_sound dirs max_path_depth (mft_index parent_ref) [] out reached in
        (
          names,
          under,
          short,
          some-injective path _ (sym h ∙ ap (written volume name) reached)
              ∙ written_path volume name names out e,
        )
  ],
  λ (names, under, short, spelled).
      let (out, reached, e) =
        climb_complete dirs (mft_index parent_ref) names under max_path_depth [] short in
      ap (written volume name) reached
      ∙ ap some (written_path volume name names out e ∙ sym spelled),
)

-- The sequence number in the high 16 bits of the parent's reference does not matter.
pub resolve_path_sequence :
    (volume : Bytes) (dirs : Assoc DirEntry) (index sequence : ℕ) (name : Bytes)
    → resolve_path volume dirs (index + 281474976710656 * sequence) name
      ≡ resolve_path volume dirs index name
unfolding resolve_path
resolve_path_sequence volume dirs index sequence name =
    ap (λ i. written volume name (climb dirs max_path_depth i [])) (omega arith)
