-- ===== src/Transmit/Batches/Plan.antt =====
-- The batches of a payload, described without the loop: the record lines, cut greedily.
use swinv.Prelude.{
  ℕ, ◌+◌, ◌<◌, List, [], ◌∷◌, ◌++◌, ◌≡◌, refl, Option, none, some, Bytes, ltb, lt→ltb, leb,
  if◌then◌else◌, length, length-append, is_empty, ok, Eff, pure, ◌>>=◌, ◌>>◌, bind_assoc, bind_ext,
  bind_head, bind-ok, arith, append-nil, append_assoc, sym, ap, ◌∙◌, Bool-cases, true, false, inl,
  inr,
}
use native.Mathlib.Nat.{add-zero, add_assoc}
use swinv.Transmit.Payload.{File, read_lines, trim_newline}
use swinv.Transmit.Batches.{
  Limits, Batcher, start, Callback, flush, add_line, take_line, each_line, each_batch, end_of_file,
}

-- The body of a batch: its lines, each with its terminator.
abbrev pub body : List Bytes → Bytes
body [] = []
body (l ∷ ls) = (l ++ (b'\n' ∷ [])) ++ body ls

abbrev pub after : Limits → List Bytes → Bytes → List Bytes
after limits [] l = l ∷ []
after limits (c ∷ cs) l =
    if ltb limits.batch_bytes (length (body (c ∷ cs)) + length l + 1)
    then l ∷ []
    else (c ∷ cs) ++ (l ∷ [])

abbrev pub before : Limits → List Bytes → Bytes → List (List Bytes)
before limits [] l = []
before limits (c ∷ cs) l =
    if ltb limits.batch_bytes (length (body (c ∷ cs)) + length l + 1) then (c ∷ cs) ∷ [] else []

-- `current` holds the lines of the batch that is not closed yet.
unfoldable pub cut : Limits → List Bytes → List Bytes → List (List Bytes)
cut limits [] [] = []
cut limits (c ∷ cs) [] = (c ∷ cs) ∷ []
cut limits current (l ∷ ls) =
    let next = after limits current l in
    let full = next ∷ cut limits [] ls in
    let more = cut limits next ls in
    before limits current l ++ (if leb limits.batch_lines (length next) then full else more)

-- The lines that are not blank, their terminators dropped.
unfoldable pub filled : List Bytes → List Bytes
filled [] = []
filled (raw ∷ raws) =
    let rest = filled raws in if is_empty (trim_newline raw) then rest else trim_newline raw ∷ rest

abbrev pub behind_manifest : List Bytes → List Bytes
behind_manifest [] = []
behind_manifest (m ∷ ls) = ls

unfoldable pub record_lines : Bytes → List Bytes
unfolding filled
record_lines content =
    let r = read_lines content in behind_manifest (filled (r.complete ++ (r.last ∷ [])))

-- Hand the batches over in order, and stop at the first error.
unfoldable pub deliver : {S E : Type 0} → Callback S E → ℕ → List (List Bytes) → Eff S E Unit
deliver fn i [] = pure tt
deliver fn i (b ∷ bs) = do fn i (body b) (length b); deliver fn (i + 1) bs

body-append : (a b : List Bytes) → body (a ++ b) ≡ body a ++ body b
body-append [] b = refl
body-append (l ∷ a) b =
    ap (λ t. (l ++ (b'\n' ∷ [])) ++ t) (body-append a b)
    ∙ sym (append_assoc (l ++ (b'\n' ∷ [])) (body a) (body b))

pub body_concat :
    (a : List Bytes) (l : Bytes) → body (a ++ (l ∷ [])) ≡ body a ++ (l ++ (b'\n' ∷ []))
body_concat a l = body-append a (l ∷ []) ∙ ap (λ t. body a ++ t) (append-nil (l ++ (b'\n' ∷ [])))

module _ {S E : Type 0} (fn : Callback S E) where
  pub deliver-append :
      (xs ys : List (List Bytes)) (i : ℕ) (s : S)
      → deliver fn i (xs ++ ys) s ≡ (deliver fn i xs >>= λ _. deliver fn (i + length xs) ys) s
  unfolding deliver
  deliver-append [] ys i s = rw add-zero refl
  deliver-append (x ∷ xs) ys i s =
      let tail = λ (_ : Unit {0}). deliver fn (i + 1 + length xs) ys in
      bind_ext (fn i (body x) (length x)) (λ _. deliver fn (i + 1) (xs ++ ys))
        (λ _. deliver fn (i + 1) xs >>= tail) (λ _ s'. deliver-append xs ys (i + 1) s') s
      ∙ sym (bind_assoc (fn i (body x) (length x)) (λ _. deliver fn (i + 1) xs) tail s)
      ∙ ap (λ (m : ℕ). (deliver fn i (x ∷ xs) >>= λ _. deliver fn m ys) s)
          (add_assoc i 1 (length xs) ∙ ap (λ (m : ℕ). i + m) (omega arith))

pub cut-cons :
    (limits : Limits) (current : List Bytes) (l : Bytes) (ls : List Bytes)
    → cut limits current (l ∷ ls)
      ≡ before limits current l
        ++ (if leb limits.batch_lines (length (after limits current l))
            then after limits current l ∷ cut limits [] ls
            else cut limits (after limits current l) ls)
unfolding cut
cut-cons limits [] l ls = refl
cut-cons limits (c ∷ cs) l ls = refl

module _ {S E : Type 0} (limits : Limits) (fn : Callback S E) where
  abbrev holding : List Bytes → ℕ → ℕ → Batcher
  holding current i n = record {
    batch = body current;
    lines = length current;
    index = i;
    line_num = n;
  }

  finish : Batcher → Eff S E Unit
  finish b = do flush limits fn b; pure tt

  -- One record line, whatever follows.
  add_line_lem :
      (current : List Bytes) (l : Bytes) (i n : ℕ) (k : Batcher → Eff S E Unit) (s : S)
      → (add_line limits fn l (holding current i n) >>= k) s
        ≡ (deliver fn i (before limits current l) >>= λ _.
              let j = i + length (before limits current l) in
              let next = after limits current l in
              if leb limits.batch_lines (length next)
              then (deliver fn j (next ∷ []) >>= λ _. k (holding [] (j + 1) n))
              else k (holding next j n))
            s
  unfolding add_line deliver
  add_line_lem [] l i n k s = ground (arith, append-nil (l ++ (b'\n' ∷ [])))
  add_line_lem (c ∷ cs) l i n k s = ground (
    arith,
    append-nil (l ++ (b'\n' ∷ [])),
    body_concat (c ∷ cs) l,
    length-append (c ∷ cs) (l ∷ []),
  )

  close :
      (next ls : List Bytes) (j n : ℕ) (k : Batcher → Eff S E Unit)
      → ((current : List Bytes) (i : ℕ) (s : S)
          → k (holding current i n) s ≡ deliver fn i (cut limits current ls) s)
      → (s : S)
      → (if leb limits.batch_lines (length next)
            then (deliver fn j (next ∷ []) >>= λ _. k (holding [] (j + 1) n))
            else k (holding next j n))
          s
        ≡ deliver fn j
            (if leb limits.batch_lines (length next)
              then next ∷ cut limits [] ls
              else cut limits next ls)
            s
  close next ls j n k ih s = elim (Bool-cases (leb limits.batch_lines (length next))) [
    | inl full ↦ rw full (
        bind_ext (deliver fn j (next ∷ [])) (λ _. k (holding [] (j + 1) n))
          (λ _. deliver fn (j + 1) (cut limits [] ls)) (λ _ s'. ih [] (j + 1) s') s
        ∙ sym (deliver-append fn (next ∷ []) (cut limits [] ls) j s))
    | inr room ↦ rw room (ih next j s)
  ]

  take_line_blank :
      (raw : Bytes) (b : Batcher)
      → is_empty (trim_newline raw) ≡ true
      → take_line limits fn raw b ≡ pure b
  unfolding take_line
  take_line_blank raw b h = rw h

  take_line_filled :
      (raw : Bytes) (current : List Bytes) (i n : ℕ)
      → is_empty (trim_newline raw) ≡ false
      → 0 < n
      → take_line limits fn raw (holding current i n)
        ≡ add_line limits fn (trim_newline raw) (holding current i (n + 1))
  unfolding take_line
  take_line_filled raw current i n h p = rw (h, lt→ltb 1 (n + 1) (omega arith))

  drain :
      (raws current : List Bytes) (i n : ℕ)
      → 0 < n
      → (s : S)
      → (each_line limits fn raws (holding current i n) >>= finish) s
        ≡ deliver fn i (cut limits current (filled raws)) s
  unfolding each_line cut filled deliver finish flush
  drain [] [] i n p s = refl
  drain [] (c ∷ cs) i n p s = ground arith
  drain (raw ∷ raws) current i n p s = elim (Bool-cases (is_empty (trim_newline raw))) [
    | inl blank ↦
        rw (blank, take_line_blank raw (holding current i n) blank) (drain raws current i n p s)
    | inr text ↦
        let l = trim_newline raw in
        let k = λ (b : Batcher). each_line limits fn raws b >>= finish in
        let ls = filled raws in
        rw (text, take_line_filled raw current i n text p)
          (bind_assoc (add_line limits fn l (holding current i (n + 1))) (each_line limits fn raws)
              finish s
            ∙ add_line_lem current l i (n + 1) k s
            ∙ bind_ext (deliver fn i (before limits current l)) _ _
                (λ _ s'.
                  close (after limits current l) ls (i + length (before limits current l)) (n + 1) k
                    (λ cur j t. drain raws cur j (n + 1) (omega arith) t) s')
                s
            ∙ sym (deliver-append fn (before limits current l) _ i s)
            ∙ ap (λ (bs : List (List Bytes)). deliver fn i bs s)
                (sym (cut-cons limits current l ls)))
  ]

  -- The first line that is not blank is the manifest, which is not handed over.
  skip_manifest :
      (raws : List Bytes) (s : S)
      → (each_line limits fn raws start >>= finish) s
        ≡ deliver fn 0 (cut limits [] (behind_manifest (filled raws))) s
  unfolding each_line filled
  skip_manifest [] s = unfold finish flush cut deliver in refl
  skip_manifest (raw ∷ raws) s = elim (Bool-cases (is_empty (trim_newline raw))) [
    | inl blank ↦ rw (blank, take_line_blank raw start blank) (skip_manifest raws s)
    | inr text ↦ unfold take_line in rw text (drain raws [] 0 1 (omega arith) s)
  ]

  each_line-append :
      (xs ys : List Bytes) (b : Batcher) (s : S)
      → each_line limits fn (xs ++ ys) b s ≡ (each_line limits fn xs b >>= each_line limits fn ys) s
  unfolding each_line
  each_line-append [] ys b s = refl
  each_line-append (x ∷ xs) ys b s =
      bind_ext (take_line limits fn x b) _ _ (λ c s'. each_line-append xs ys c s') s
      ∙ sym
          (bind_assoc (take_line limits fn x b) (each_line limits fn xs) (each_line limits fn ys) s)

  -- With a readable payload the loop hands over the planned batches, in order, numbered from 0,
  -- and stops at the first error that the callback returns.
  pub each_batch-deliver :
      (content : Bytes) (s : S)
      → each_batch limits fn (record { content = content; failure = none }) s
        ≡ deliver fn 0 (cut limits [] (record_lines content)) s
  unfolding each_batch record_lines each_line finish
  each_batch-deliver content s =
      let complete = (read_lines content).complete in
      let last = (read_lines content).last in
      bind_ext (each_line limits fn complete start) _
        (λ b. each_line limits fn (last ∷ []) b >>= finish)
        (λ b s'. sym (bind_assoc (take_line limits fn last b) pure finish s')) s
      ∙ sym (
          bind_assoc (each_line limits fn complete start) (each_line limits fn (last ∷ [])) finish
            s)
      ∙ bind_head (each_line limits fn complete start >>= each_line limits fn (last ∷ []))
          (each_line limits fn (complete ++ (last ∷ [])) start) finish s
          (sym (each_line-append complete (last ∷ []) start s))
      ∙ skip_manifest (complete ++ (last ∷ [])) s

  -- A payload whose reading failed is never walked to a success.
  pub each_batch-readable :
      (file : File E) (s s' : S) → each_batch limits fn file s ≡ (ok tt, s') → file.failure ≡ none
  unfolding each_batch
  each_batch-readable file s s' h =
      let (b, t, e, h1) =
        bind-ok (each_line limits fn (read_lines file.content).complete start) _ s h in
      let (c, u, e', h2) = bind-ok (take_line limits fn (read_lines file.content).last b) _ t h1 in
      let (x, v, e'', h3) = bind-ok (end_of_file file.failure) _ u h2 in go file.failure u v e''
    where
      go : (o : Option E) (u v : S) → end_of_file o u ≡ (ok tt, v) → o ≡ none
      go none u v e = refl
      go (some x) u v e = absurd (cc e)
