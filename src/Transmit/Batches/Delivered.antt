-- ===== src/Transmit/Batches/Delivered.antt =====
-- What a caller of `EachBatch` receives, and the count that `Records` makes.
use swinv.Prelude.{
  ℕ, ◌+◌, ◌<◌, List, [], ◌∷◌, ◌++◌, ◌≡◌, Bytes, none, length, length-append, concat, ok, arith,
  append-nil, append_assoc, ap, ◌∙◌,
}
use native.Mathlib.Nat.{add-zero}
use swinv.Transmit.Batches.{Limits, Callback, each_batch, records}
use swinv.Transmit.Batches.Plan.{body, cut, record_lines, deliver, each_batch-deliver}
use swinv.Transmit.Batches.Bounds.{Packed, cut-Packed, concat-cut}

-- One call of the callback: the index, the body and the number of lines.
pub record Call : Type 0 where
  pub index : ℕ
  pub text : Bytes
  pub lines : ℕ

abbrev pub collect : {E : Type 0} → Callback (List Call) E
collect i text n calls = (ok tt, calls ++ (record { index = i; text = text; lines = n } ∷ []))

abbrev pub calls_of : ℕ → List (List Bytes) → List Call
calls_of i [] = []
calls_of i (b ∷ bs) = record { index = i; text = body b; lines = length b } ∷ calls_of (i + 1) bs

pub deliver-collect :
    {E : Type 0} (bs : List (List Bytes)) (i : ℕ) (calls : List Call)
    → deliver {E = E} collect i bs calls ≡ (ok tt, calls ++ calls_of i bs)
unfolding deliver
deliver-collect [] i calls = rw append-nil
deliver-collect (b ∷ bs) i calls = deliver-collect bs (i + 1) _ ∙ rw append_assoc

-- The calls that `EachBatch` makes are the batches of a list that partitions the record lines
-- of the payload in order, numbered from 0: each batch has a line, and at most `BatchLines` of
-- them; its body has at most `BatchBytes` bytes unless it is one line; and no batch but the last
-- has room for the next line. `BatchLines` must be positive and the payload readable.
pub each_batch-Packed :
    {E : Type 0} (limits : Limits) (content : Bytes)
    → 0 < limits.batch_lines
    → (batches : List (List Bytes)) × (each_batch {E = E} limits collect
          (record { content = content; failure = none })
          []
        ≡ (ok tt, calls_of 0 batches))
      × Packed limits (record_lines content) batches
each_batch-Packed limits content p = (
  cut limits [] (record_lines content),
  each_batch-deliver limits collect content [] ∙ deliver-collect _ 0 [],
  cut-Packed limits (record_lines content) p,
)

abbrev count_lines : {E : Type 0} → Callback ℕ E
count_lines index text lines n = (ok tt, n + lines)

deliver-count_lines :
    {E : Type 0} (bs : List (List Bytes)) (i n : ℕ)
    → deliver {E = E} count_lines i bs n ≡ (ok tt, n + length (concat bs))
unfolding deliver
deliver-count_lines [] i n = rw add-zero
deliver-count_lines (b ∷ bs) i n =
    deliver-count_lines bs (i + 1) (n + length b)
    ∙ ap (λ (m : ℕ). (ok tt, m)) (omega (arith, length-append b (concat bs)))

-- `Records` counts the record lines of a readable payload, whatever the limits are.
pub records-length :
    {E : Type 0} (limits : Limits) (content : Bytes)
    → records {E = E} limits (record { content = content; failure = none })
      ≡ (ok tt, length (record_lines content))
unfolding records
records-length limits content =
    each_batch-deliver limits count_lines content 0
    ∙ deliver-count_lines (cut limits [] (record_lines content)) 0 0
    ∙ rw concat-cut (ap (λ (m : ℕ). (ok tt, m)) (omega arith))
