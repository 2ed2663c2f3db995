-- ===== src/Transmit/Batches/RoundTrip.antt =====
-- A payload that was written one record to a line is cut at exactly these records.
use swinv.Prelude.{
  ◌∙◌, none, ok, concat, List, [], ◌∷◌, ◌++◌, ◌≡◌, refl, Bytes, All, append_assoc, ap,
}
use swinv.Transmit.Payload.{read_lines, trim_newline}
use swinv.Transmit.Payload.RoundTrip.{IsRecord, read_lines-line, trim_newline-terminate}
use swinv.Transmit.Batches.Plan.{
  body, filled, behind_manifest, record_lines, cut, each_batch-deliver,
}
use swinv.Transmit.Batches.{Limits, each_batch}
use swinv.Transmit.Batches.Bounds.{concat-cut}
use swinv.Transmit.Batches.Delivered.{collect, calls_of, deliver-collect}

abbrev reads_of : Bytes → List Bytes
reads_of content = (read_lines content).complete ++ ((read_lines content).last ∷ [])

filled-body : (ls : List Bytes) → All IsRecord ls → filled (reads_of (body ls)) ≡ ls
unfolding filled
filled-body [] h = unfold read_lines trim_newline in refl
filled-body (l ∷ ls) h =
    rw
      (
        append_assoc l (b'\n' ∷ []) (body ls),
        read_lines-line l (body ls) (h.0.one_line),
        trim_newline-terminate l (h.0.no_return),
        h.0.has_text,
      )
      (ap (◌∷◌ l) (filled-body ls h.1))

record_lines-body :
    (manifest : Bytes) (ls : List Bytes)
    → IsRecord manifest
    → All IsRecord ls
    → record_lines (body (manifest ∷ ls)) ≡ ls
unfolding record_lines
record_lines-body manifest ls m h = ap behind_manifest (filled-body (manifest ∷ ls) (m, h))

-- A payload that is a manifest and records, written one to a line, is handed over as batches that hold
-- these records, each once and in order, whatever the limits are: the manifest is left out, nothing
-- else is.
pub each_batch-body :
    {E : Type 0} (limits : Limits) (manifest : Bytes) (ls : List Bytes)
    → IsRecord manifest
    → All IsRecord ls
    → (batches : List (List Bytes)) × (each_batch {E = E} limits collect
          (record { content = body (manifest ∷ ls); failure = none })
          []
        ≡ (ok tt, calls_of 0 batches))
      × (concat batches ≡ ls)
each_batch-body limits manifest ls m h = (
  cut limits [] (record_lines (body (manifest ∷ ls))),
  each_batch-deliver limits collect (body (manifest ∷ ls)) [] ∙ deliver-collect _ 0 [],
  concat-cut limits _ [] ∙ record_lines-body manifest ls m h,
)
