-- ===== src/Transmit/Batches.antt =====
-- internal/transmit/spool.go: `EachBatch` and `Records`.
pub mod Plan
pub mod Bounds
pub mod Delivered
pub mod RoundTrip
use swinv.Prelude.{
  ℕ, ◌+◌, ◌&&◌, List, [], ◌∷◌, ◌++◌, Option, none, some, Bytes, ltb, leb, ◌==◌, if◌then◌else◌,
  length, is_empty, Result, ok, Eff, pure, fail, ◌>>=◌, ◌>>◌,
}
use swinv.Transmit.Payload.{File, read_lines, trim_newline}

-- `BatchLines` and `BatchBytes` of the recorded state.
pub record Limits : Type 0 where
  pub batch_lines : ℕ
  pub batch_bytes : ℕ

-- The variables of the loop.
pub record Batcher : Type 0 where
  pub batch : Bytes
  pub lines : ℕ
  pub index : ℕ
  pub line_num : ℕ

abbrev pub start : Batcher
start = record { batch = []; lines = 0; index = 0; line_num = 0 }

-- The function `fn(index, body, lines)` that the caller passes.
abbrev pub Callback : Type 0 → Type 0 → Type 0
Callback S E = ℕ → Bytes → ℕ → Eff S E Unit

abbrev end_of_file : {S E : Type 0} → Option E → Eff S E Unit
end_of_file none = pure tt
end_of_file (some e) = fail e

module _ {S E : Type 0} (limits : Limits) (fn : Callback S E) where
  unfoldable pub flush : Batcher → Eff S E Batcher
  flush b = if b.lines == 0 then pure b else (do
    fn b.index b.batch b.lines
    pure (record b { index = b.index + 1; batch = []; lines = 0 }))

  -- A record line, past the manifest.
  unfoldable pub add_line : Bytes → Batcher → Eff S E Batcher
  unfolding flush
  add_line line b = do
    let past_limit = ltb limits.batch_bytes (length b.batch + length line + 1)
    c ← if ltb 0 b.lines && past_limit then flush b else pure b
    let d = record c { batch = c.batch ++ (line ++ (b'\n' ∷ [])); lines = c.lines + 1 }
    if leb limits.batch_lines d.lines then flush d else pure d

  -- What the loop does with one result of `ReadBytes`.
  unfoldable pub take_line : Bytes → Batcher → Eff S E Batcher
  unfolding trim_newline
  take_line raw b =
      let line = trim_newline raw in
      let b' = record b { line_num = b.line_num + 1 } in
      if is_empty line then pure b else if ltb 1 b'.line_num then add_line line b' else pure b'

  unfoldable pub each_line : List Bytes → Batcher → Eff S E Batcher
  each_line [] b = pure b
  each_line (raw ∷ raws) b = do b' ← take_line raw b; each_line raws b'

  unfoldable pub each_batch : File E → Eff S E Unit
  each_batch file = do
    let reads = read_lines file.content
    b ← each_line reads.complete start
    c ← take_line reads.last b
    end_of_file file.failure
    flush c
    pure tt

-- `Records`.
unfoldable pub records : {E : Type 0} → Limits → File E → Result E Unit × ℕ
unfolding each_batch
records limits file = each_batch limits (λ index body lines n. (ok tt, n + lines)) file 0
