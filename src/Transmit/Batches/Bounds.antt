-- ===== src/Transmit/Batches/Bounds.antt =====
-- The planned batches partition the record lines, respect both limits, and are as full as these allow.
use swinv.Prelude.{
  ℕ, suc, ◌+◌, ◌<◌, ◌≤◌, ◌⊎◌, inl, inr, List, [], ◌∷◌, ◌++◌, ◌≡◌, refl, Bytes, true, false, ltb,
  leb, length, length-append, concat, All, All-append, arith, append-nil, append_assoc, sym, ap,
  ◌∙◌, Bool-cases, if◌then◌else◌, ltb→lt, leb→le,
}
use swinv.Transmit.Batches.{Limits}
use swinv.Transmit.Batches.Plan.{body, body_concat, before, after, cut, cut-cons}

concat_prefix :
    (limits : Limits) (current : List Bytes) (l : Bytes)
    → concat (before limits current l) ++ after limits current l ≡ current ++ (l ∷ [])
concat_prefix limits [] l = refl
concat_prefix limits (c ∷ cs) l = ground (arith, append-nil cs)

concat-append {ℓ} :
    {A : Type ℓ} (xs ys : List (List A)) → concat (xs ++ ys) ≡ concat xs ++ concat ys
concat-append [] ys = refl
concat-append (x ∷ xs) ys =
    ap (λ t. x ++ t) (concat-append xs ys) ∙ sym (append_assoc x (concat xs) (concat ys))

glue :
    (limits : Limits) (current : List Bytes) (l : Bytes) (ls : List Bytes)
    → concat (before limits current l) ++ (after limits current l ++ ls) ≡ current ++ (l ∷ ls)
glue limits current l ls =
    sym (append_assoc (concat (before limits current l)) (after limits current l) ls)
    ∙ ap (λ t. t ++ ls) (concat_prefix limits current l)
    ∙ append_assoc current (l ∷ []) ls

-- The batches hold every line once, in order.
pub concat-cut :
    (limits : Limits) (ls current : List Bytes) → concat (cut limits current ls) ≡ current ++ ls
concat-cut limits [] [] = unfold cut in refl
concat-cut limits [] (c ∷ cs) = unfold cut in refl
concat-cut limits (l ∷ ls) current =
    elim (Bool-cases (leb limits.batch_lines (length (after limits current l)))) [
      | inl full ↦
          rw (cut-cons limits current l ls, full, concat-append, concat-cut limits ls [])
            (glue limits current l ls)
      | inr room ↦
          rw
            (
              cut-cons limits current l ls,
              room,
              concat-append,
              concat-cut limits ls (after limits current l),
            )
            (glue limits current l ls)
    ]

length-body :
    (b : List Bytes) (l : Bytes) {n : ℕ}
    → ltb n (length (body b) + length l + 1) ≡ false
    → length (body (b ++ (l ∷ []))) ≤ n
length-body b l h =
    rw (body_concat b l)
      (ground (arith, length-append (body b) (l ++ (b'\n' ∷ [])), length-append l (b'\n' ∷ [])))

-- What each batch satisfies.
pub record Within (limits : Limits) (batch : List Bytes) : Type 0 where
  pub has_lines : 0 < length batch
  pub lines_bound : length batch ≤ limits.batch_lines
  pub bytes_bound : (length (body batch) ≤ limits.batch_bytes) ⊎ (length batch ≡ 1)

-- A batch that is still open.
abbrev Open : Limits → List Bytes → Type 0
Open limits [] = Unit
Open limits (c ∷ cs) = Within limits (c ∷ cs) × (length (c ∷ cs) < limits.batch_lines)

before-Within :
    (limits : Limits) (current : List Bytes) (l : Bytes)
    → Open limits current
    → All (Within limits) (before limits current l)
before-Within limits [] l o = tt
before-Within limits (c ∷ cs) l o =
    elim (Bool-cases (ltb limits.batch_bytes (length (body (c ∷ cs)) + length l + 1))) [
      | inl over ↦ rw over (o.0, tt)
      | inr fits ↦ rw fits tt
    ]

after-Within :
    (limits : Limits) (current : List Bytes) (l : Bytes)
    → 0 < limits.batch_lines
    → Open limits current
    → Within limits (after limits current l)
after-Within limits [] l p o = record {
  has_lines = omega arith;
  lines_bound = omega arith;
  bytes_bound = inr refl;
}
after-Within limits (c ∷ cs) l p o =
    elim (Bool-cases (ltb limits.batch_bytes (length (body (c ∷ cs)) + length l + 1))) [
      | inl over ↦
          rw over
            (record { has_lines = omega arith; lines_bound = omega arith; bytes_bound = inr refl })
      | inr fits ↦ rw fits (record {
        has_lines = omega arith;
        lines_bound = omega (arith, length-append cs (l ∷ []), o.1);
        bytes_bound = inl (length-body (c ∷ cs) l fits);
      })
    ]

after-Open :
    (limits : Limits) (current : List Bytes) (l : Bytes)
    → Within limits (after limits current l)
    → leb limits.batch_lines (length (after limits current l)) ≡ false
    → Open limits (after limits current l)
after-Open limits current l w room = go (after limits current l) w room
  where
    go :
        (b : List Bytes)
        → Within limits b
        → leb limits.batch_lines (length b) ≡ false
        → Open limits b
    go [] v r = tt
    go (x ∷ xs) v r = (v, ground arith)

cut-Within :
    (limits : Limits) (ls current : List Bytes)
    → 0 < limits.batch_lines
    → Open limits current
    → All (Within limits) (cut limits current ls)
cut-Within limits [] [] p o = unfold cut in tt
cut-Within limits [] (c ∷ cs) p o = unfold cut in (o.0, tt)
cut-Within limits (l ∷ ls) current p o =
    let w = after-Within limits current l p o in
    elim (Bool-cases (leb limits.batch_lines (length (after limits current l)))) [
      | inl full ↦
          rw (cut-cons limits current l ls, full)
            (All-append (Within limits) (before limits current l) _
              (before-Within limits current l o) (w, cut-Within limits ls [] p tt))
      | inr room ↦
          rw (cut-cons limits current l ls, room)
            (All-append (Within limits) (before limits current l) _
              (before-Within limits current l o)
              (cut-Within limits ls (after limits current l) p
                (after-Open limits current l w room)))
    ]

-- Adding the next line would have passed a limit.
abbrev pub Full : Limits → List Bytes → List Bytes → Type 0
Full limits b [] = ⊥
Full limits b (l ∷ _) =
    (limits.batch_lines ≤ length b) ⊎ (limits.batch_bytes < length (body b) + length l + 1)

-- Every batch but the last is full.
abbrev pub Tight : Limits → List (List Bytes) → Type 0
Tight limits [] = Unit
Tight limits (b ∷ []) = Unit
Tight limits (b ∷ b' ∷ bs) = Full limits b b' × Tight limits (b' ∷ bs)

Starts : Bytes → List (List Bytes) → Type 0
Starts x bs = (r : List Bytes) × (rest : List (List Bytes)) × (bs ≡ (x ∷ r) ∷ rest)

cut-Starts :
    (limits : Limits) (ls : List Bytes) (x : Bytes) (xs : List Bytes)
    → Starts x (cut limits (x ∷ xs) ls)
unfolding Starts
cut-Starts limits [] x xs = (xs, [], unfold cut in refl)
cut-Starts limits (l ∷ ls) x xs =
    elim (Bool-cases (ltb limits.batch_bytes (length (body (x ∷ xs)) + length l + 1))) [
      | inl over ↦ (
        xs,
        (if leb limits.batch_lines 1 then (l ∷ []) ∷ cut limits [] ls else cut limits (l ∷ []) ls),
        cut-cons limits (x ∷ xs) l ls ∙ rw over refl,
      )
      | inr fits ↦ elim (Bool-cases (leb limits.batch_lines (suc (length (xs ++ (l ∷ [])))))) [
        | inl full ↦
            (xs ++ (l ∷ []), cut limits [] ls, cut-cons limits (x ∷ xs) l ls ∙ rw (fits, full) refl)
        | inr room ↦
            let (r, rest, e) = cut-Starts limits ls x (xs ++ (l ∷ [])) in
            (r, rest, cut-cons limits (x ∷ xs) l ls ∙ rw (fits, room) e)
      ]
    ]

full-Tight :
    (limits : Limits) (b : List Bytes) (bs : List (List Bytes))
    → limits.batch_lines ≤ length b
    → All (Within limits) bs
    → Tight limits bs
    → Tight limits (b ∷ bs)
full-Tight limits b [] h w t = tt
full-Tight limits b ([] ∷ bs) h w t = absurd (omega (arith, w.0.has_lines))
full-Tight limits b ((l ∷ ls) ∷ bs) h w t = (inl h, t)

over-Tight :
    (limits : Limits) (b : List Bytes) (l : Bytes) (bs : List (List Bytes))
    → ltb limits.batch_bytes (length (body b) + length l + 1) ≡ true
    → Starts l bs
    → Tight limits bs
    → Tight limits (b ∷ bs)
unfolding Starts
over-Tight limits b l bs h (r, rest, e) t = rw e (inr (ltb→lt _ _ h), rw e at t)

before-Tight :
    (limits : Limits) (current : List Bytes) (l : Bytes) (bs : List (List Bytes))
    → ((x : Bytes) (xs : List Bytes) → after limits current l ≡ x ∷ xs → Starts x bs)
    → Tight limits bs
    → Tight limits (before limits current l ++ bs)
before-Tight limits [] l bs s t = t
before-Tight limits (c ∷ cs) l bs s t =
    elim (Bool-cases (ltb limits.batch_bytes (length (body (c ∷ cs)) + length l + 1))) [
      | inl over ↦ rw over (over-Tight limits (c ∷ cs) l bs over (s l [] (rw over refl)) t)
      | inr fits ↦ rw fits t
    ]

cut-Tight :
    (limits : Limits) (ls current : List Bytes)
    → 0 < limits.batch_lines
    → Open limits current
    → Tight limits (cut limits current ls)
cut-Tight limits [] [] p o = unfold cut in tt
cut-Tight limits [] (c ∷ cs) p o = unfold cut in tt
cut-Tight limits (l ∷ ls) current p o =
    let next = after limits current l in
    let w = after-Within limits current l p o in
    elim (Bool-cases (leb limits.batch_lines (length next))) [
      | inl full ↦
          rw (cut-cons limits current l ls, full)
            (before-Tight limits current l (next ∷ cut limits [] ls)
              (λ x xs e. unfold Starts in (xs, cut limits [] ls, ap (λ b. b ∷ cut limits [] ls) e))
              (full-Tight limits next _ (leb→le _ _ full) (cut-Within limits ls [] p tt)
                (cut-Tight limits ls [] p tt)))
      | inr room ↦
          rw (cut-cons limits current l ls, room)
            (before-Tight limits current l (cut limits next ls)
              (λ x xs e. rw e (cut-Starts limits ls x xs))
              (cut-Tight limits ls next p (after-Open limits current l w room)))
    ]

-- What the planned batches promise.
pub record Packed (limits : Limits) (lines : List Bytes) (batches : List (List Bytes))
    : Type 0 where
  pub partitions : concat batches ≡ lines
  pub within : All (Within limits) batches
  pub tight : Tight limits batches

pub cut-Packed :
    (limits : Limits) (ls : List Bytes)
    → 0 < limits.batch_lines
    → Packed limits ls (cut limits [] ls)
cut-Packed limits ls p = record {
  partitions = concat-cut limits ls [];
  within = cut-Within limits ls [] p tt;
  tight = cut-Tight limits ls [] p tt;
}
