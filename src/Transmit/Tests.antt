-- ===== src/Transmit/Tests.antt =====
-- internal/transmit on concrete inputs: a payload of three records, and a server that logs what it is sent.
use swinv.Prelude.{
  ℕ, zero, suc, ◌+◌, ◌-◌, ◌*◌, ◌/◌, ◌^◌, ◌<◌, ◌≤◌, concat, ◌≡◌, ◌⊎◌, inl, inr, refl, Bool, true,
  false, ◌||◌, List, [], ◌∷◌, ◌++◌, Bytes, codes, bytes_eq, bytes_eq_refl, none, some, ok, err, Eff,
  Keeps, All, length, arith, pos, negsuc, is_negative, ltb_ℤ, Bool-cases,
}
use swinv.Transmit.Payload.{File, read_lines, trim_newline}
use swinv.Transmit.Batches.{Limits, each_batch, each_line, take_line, add_line, flush}
use swinv.Transmit.Batches.Plan.{body, record_lines}
use swinv.Transmit.Batches.Bounds.{Packed}
use swinv.Transmit.Batches.Delivered.{collect, calls_of, each_batch-Packed}
use swinv.Transmit.Batches.RoundTrip.{each_batch-body}
use swinv.Transmit.Name.{IsSafe, sanitize_spool_name, sanitize_spool_name-IsSafe}

abbrev limits : Limits
limits = record { batch_lines = 2; batch_bytes = 100 }

abbrev lines : List Bytes
lines = codes "{one}" ∷ codes "{two}" ∷ codes "{three}" ∷ []

abbrev content : Bytes
content = codes "{manifest}\n{one}\r\n\n{two}\n{three}"

abbrev payload : File Bytes
payload = record { content = content; failure = none }

batches_of_payload : each_batch limits collect payload [] ≡ (
  ok tt,
  record { index = 0; text = codes "{one}\n{two}\n"; lines = 2 }
      ∷ record { index = 1; text = codes "{three}\n"; lines = 1 }
      ∷ [],
)
unfolding each_batch each_line take_line add_line flush read_lines trim_newline
batches_of_payload = refl

each_batch-Packed_example :
    (batches : List (List Bytes)) × (each_batch limits (collect {E = Bytes}) payload []
      ≡ (ok tt, calls_of 0 batches))
    × Packed limits (record_lines content) batches
each_batch-Packed_example = each_batch-Packed limits content (omega arith)

each_batch-body_example :
    (batches : List (List Bytes)) × (each_batch {E = Bytes} limits collect
        (record { content = body (codes "{manifest}" ∷ lines); failure = none })
        []
      ≡ (ok tt, calls_of 0 batches))
    × (concat batches ≡ lines)
unfolding swinv.Prelude.has_suffix
each_batch-body_example =
    each_batch-body limits (codes "{manifest}") lines
      (record { one_line = omega arith; has_text = refl; no_return = refl })
      (
        record { one_line = omega arith; has_text = refl; no_return = refl },
        (
          record { one_line = omega arith; has_text = refl; no_return = refl },
          (record { one_line = omega arith; has_text = refl; no_return = refl }, tt),
        ),
      )

sanitize_traversal : sanitize_spool_name (codes "../../etc/cron.d/x") ≡ codes "etccrondx"
unfolding sanitize_spool_name
sanitize_traversal = refl

sanitize_spool_name-IsSafe_example : IsSafe (sanitize_spool_name (codes "../../etc/cron.d/x"))
sanitize_spool_name-IsSafe_example = sanitize_spool_name-IsSafe (codes "../../etc/cron.d/x")
