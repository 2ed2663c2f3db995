-- ===== src/Transmit/Payload.antt =====
-- internal/transmit/spool.go: reading the spooled NDJSON line by line, `trimNewline`.
pub mod RoundTrip
use swinv.Prelude.{
  ℕ, Bool, List, [], ◌∷◌, ◌++◌, ◌≡◌, refl, ap, Option, Bytes, ◌==◌, if◌then◌else◌, trim_suffix,
  concat, append-nil,
}

-- The bytes of an opened file, and the error that ends it when that is not EOF.
pub record File (E : Type 0) : Type 0 where
  pub content : Bytes
  pub failure : Option E

-- The results of calling `ReadBytes('\n')` until it returns an error: the lines that end in the
-- delimiter, and what was read when the file ended.
pub record Reads : Type 0 where
  pub complete : List Bytes
  pub last : Bytes

onto : ℕ → List Bytes → Bytes → Reads
onto c [] last = record { complete = []; last = c ∷ last }
onto c (l ∷ ls) last = record { complete = (c ∷ l) ∷ ls; last = last }

unfoldable pub read_lines : Bytes → Reads
unfolding onto
read_lines [] = record { complete = []; last = [] }
read_lines (c ∷ cs) =
    let r = read_lines cs in
    if c == b'\n'
    then record { complete = (c ∷ []) ∷ r.complete; last = r.last }
    else onto c r.complete r.last

-- `trimNewline`.
unfoldable pub trim_newline : Bytes → Bytes
unfolding trim_suffix
trim_newline b = trim_suffix (trim_suffix b (b'\n' ∷ [])) (b'\r' ∷ [])
