-- ===== src/Transmit/Payload/RoundTrip.antt =====
-- Reading back a payload that was written one record to a line.
use swinv.Prelude.{
  ℕ, List, [], ◌∷◌, ◌++◌, ◌≡◌, ◌≢◌, refl, false, Bytes, All, arith, concat, is_empty, has_suffix,
  trim_suffix-append, trim_suffix_none,
}
use swinv.Transmit.Payload.{read_lines, onto, trim_newline}

abbrev pub terminate : List Bytes → List Bytes
terminate [] = []
terminate (l ∷ ls) = (l ++ (b'\n' ∷ [])) ∷ terminate ls

pub read_lines-line :
    (l rest : Bytes)
    → All (λ c. c ≢ b'\n') l
    → read_lines (l ++ (b'\n' ∷ rest)) ≡ record {
      complete = (l ++ (b'\n' ∷ [])) ∷ (read_lines rest).complete;
      last = (read_lines rest).last;
    }
unfolding read_lines
read_lines-line [] rest h = refl
read_lines-line (c ∷ l) rest h = ground (arith, h.0, read_lines-line l rest h.1)

concat-onto :
    (c : ℕ) (ls : List Bytes) (last : Bytes)
    → concat (onto c ls last).complete ++ (onto c ls last).last ≡ c ∷ (concat ls ++ last)
unfolding onto
concat-onto c [] last = refl
concat-onto c (l ∷ ls) last = refl

-- What is read is what was written.
pub concat-read_lines :
    (content : Bytes) → concat (read_lines content).complete ++ (read_lines content).last ≡ content
unfolding read_lines
concat-read_lines [] = refl
concat-read_lines (c ∷ cs) =
    ground
      (arith, concat-onto c (read_lines cs).complete (read_lines cs).last, concat-read_lines cs)

-- A record as the writer emits it: a line with some text, which no carriage return ends.
pub record IsRecord (l : Bytes) : Type 0 where
  pub one_line : All (λ c. c ≢ b'\n') l
  pub has_text : is_empty l ≡ false
  pub no_return : has_suffix l (b'\r' ∷ []) ≡ false

pub trim_newline-terminate :
    (l : Bytes) → has_suffix l (b'\r' ∷ []) ≡ false → trim_newline (l ++ (b'\n' ∷ [])) ≡ l
unfolding trim_newline
trim_newline-terminate l h =
    rw (trim_suffix-append l (b'\n' ∷ [])) (trim_suffix_none l (b'\r' ∷ []) h)
