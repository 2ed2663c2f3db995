-- ===== src/Usn/Record/Walk.antt =====
-- The walk over a buffer: what it does with whole records, that it ends, and where it panics.
use swinv.Prelude.{
  ℕ, zero, suc, ◌+◌, ◌≤◌, ◌≡◌, ◌≢◌, ◌⊎◌, refl, false, Bool-cases, inl, inr, List, [], ◌∷◌, ◌++◌,
  some, Bytes, ltb, ◌==◌, arith, length, length-append, length-drop, length-take, take, drop, All,
  Result, ok, err, take-length-append, drop-length-append,
}
use swinv.Prelude.Binary.{u32_at, u32_at-reads}
use swinv.Usn.Record.{
  Outcome, done, failed, panicked, timed_out, UsnError, RawRecord, parse_one, at_record,
  record_length, parse_from, parse_records, with_length, each, after_call, v2_header_len, truncated,
  zero_length, past_buffer,
}
use swinv.Usn.Record.Safe.{parse_one-panicked, Ends, parse_one-Ends}

-- The bytes of one record and what they say.
pub record Frame : Type 0 where
  pub bytes : Bytes
  pub raw : RawRecord

-- A record that claims its own length, and that the layout of its version fits.
pub record IsFramed (f : Frame) : Type 0 where
  pub header : 60 ≤ length f.bytes
  pub claims : u32_at f.bytes 0 ≡ some (length f.bytes)
  pub parses : parse_one f.bytes ≡ done f.raw

abbrev pub stream : List Frame → Bytes
stream [] = []
stream (f ∷ fs) = f.bytes ++ stream fs

u32_at-append : (a b : Bytes) → 4 ≤ length a → u32_at (a ++ b) 0 ≡ u32_at a 0
unfolding u32_at
u32_at-append (w ∷ x ∷ y ∷ z ∷ a) b h = refl
u32_at-append [] b h = absurd (omega arith)
u32_at-append (w ∷ []) b h = absurd (omega arith)
u32_at-append (w ∷ x ∷ []) b h = absurd (omega arith)
u32_at-append (w ∷ x ∷ y ∷ []) b h = absurd (omega arith)

record_length-frame :
    (offset : ℕ) (a b : Bytes)
    → 60 ≤ length a
    → u32_at a 0 ≡ some (length a)
    → record_length offset (a ++ b) ≡ done (length a)
unfolding record_length v2_header_len
record_length-frame offset a b h claims =
    let short : ltb (length (a ++ b)) 60 ≡ false = ground (arith, length-append a b) in
    let some_bytes : (length a == 0) ≡ false = ground arith in
    let inside : ltb (length (a ++ b)) (length a) ≡ false = ground (arith, length-append a b) in
    rw (short, u32_at-append a b (omega arith), claims, some_bytes, inside) refl

-- A length is refused, or it is not zero and lies within the buffer; reading it does not panic.
record_length-cases :
    (offset : ℕ) (rest : Bytes)
    → ((n : ℕ) × (record_length offset rest ≡ done n)
        × (1 ≤ n)
        × (n ≤ length rest)
        × (60 ≤ length rest))
      ⊎ ((e : UsnError) × (record_length offset rest ≡ failed e))
unfolding record_length v2_header_len
record_length-cases offset rest = elim (Bool-cases (ltb (length rest) 60)) [
  | inl short ↦ rw short (inr (truncated offset (length rest), refl))
  | inr long ↦
      let h : 60 ≤ length rest = ground (arith, long) in
      let (n, e) = u32_at-reads rest 0 (omega (arith, h)) in
      elim (Bool-cases (n == 0)) [
        | inl empty ↦ rw (long, e, empty) (inr (zero_length offset, refl))
        | inr some_bytes ↦ elim (Bool-cases (ltb (length rest) n)) [
          | inl past ↦ rw (long, e, some_bytes, past) (inr (past_buffer offset n, refl))
          | inr inside ↦
              rw (long, e, some_bytes, inside)
                (inl (n, refl, ground (arith, some_bytes), ground (arith, inside), h))
        ]
      ]
]

module _ {S : Type 0} (fn : RawRecord → S → Result UsnError Unit × S) where
  -- The callback on each record in turn, up to its first error.
  abbrev pub call_each : List Frame → S → Outcome Unit × S
  call_each [] s = (done tt, s)
  call_each (f ∷ fs) s = after_call fn (fn f.raw s) (call_each fs)

  parse_from-step :
      (fuel offset : ℕ) (rest : Bytes) (s : S)
      → 1 ≤ length rest
      → parse_from fn (suc fuel) offset rest s
        ≡ with_length fn
            (record_length offset rest)
            (λ n t.
              each fn
                (at_record offset (parse_one (take n rest)))
                (λ u. parse_from fn fuel (offset + n) (drop n rest) u)
                t)
            s
  unfolding parse_from
  parse_from-step fuel offset [] s h = absurd (omega arith)
  parse_from-step fuel offset (b ∷ bs) s h = refl

  after_call-ext :
      (o : Result UsnError Unit × S) (f g : S → Outcome Unit × S)
      → ((s : S) → f s ≡ g s)
      → after_call fn o f ≡ after_call fn o g
  after_call-ext (ok u, s) f g h = h s
  after_call-ext (err e, s) f g h = refl

  parse_from-stream :
      (fuel offset : ℕ) (fs : List Frame) (s : S)
      → All IsFramed fs
      → length (stream fs) ≤ fuel
      → parse_from fn fuel offset (stream fs) s ≡ call_each fs s
  unfolding parse_from
  parse_from-stream fuel offset [] s h enough = refl
  parse_from-stream zero offset (f ∷ fs) s (h, hs) enough =
      absurd (omega (arith, h.header, length-append f.bytes (stream fs)))
  parse_from-stream (suc fuel) offset (f ∷ fs) s (h, hs) enough =
      let total = length-append f.bytes (stream fs) in
      rw
        (
          parse_from-step fuel offset (stream (f ∷ fs)) s (omega (arith, h.header, total)),
          record_length-frame offset f.bytes (stream fs) h.header h.claims,
          take-length-append f.bytes (stream fs),
          drop-length-append f.bytes (stream fs),
          h.parses,
        )
        (after_call-ext (fn f.raw s) _ _ λ t.
          parse_from-stream fuel (offset + length f.bytes) fs t hs (omega (arith, h.header, total)))

-- A buffer of whole records is parsed record by record: the callback gets the parsed records in
-- their order, its first error ends the walk, and nothing else does.
pub parse_records-call_each :
    {S : Type 0} (fn : RawRecord → S → Result UsnError Unit × S) (fs : List Frame)
    → All IsFramed fs
    → (s : S) → parse_records fn (stream fs) s ≡ call_each fn fs s
unfolding parse_records
parse_records-call_each fn fs h s = parse_from-stream fn (length (stream fs)) 0 fs s h (omega arith)

module _ {S : Type 0} (fn : RawRecord → S → Result UsnError Unit × S) where
  after_call-Ends :
      (o : Result UsnError Unit × S) (f : S → Outcome Unit × S)
      → ((s : S) → Ends (f s).0)
      → Ends (after_call fn o f).0
  after_call-Ends (ok u, s) f k = k s
  after_call-Ends (err e, s) f k = λ p. cc p

  each-Ends :
      (o : Outcome RawRecord) (offset : ℕ) (f : S → Outcome Unit × S) (s : S)
      → Ends o
      → ((s : S) → Ends (f s).0)
      → Ends (each fn (at_record offset o) f s).0
  each-Ends (done r) offset f s h k = after_call-Ends (fn r s) f k
  each-Ends (failed e) offset f s h k = λ p. cc p
  each-Ends panicked offset f s h k = λ p. cc p
  each-Ends timed_out offset f s h k = absurd (h refl)

  parse_from-Ends :
      (fuel offset : ℕ) (rest : Bytes) (s : S)
      → length rest ≤ fuel
      → Ends (parse_from fn fuel offset rest s).0
  unfolding parse_from
  parse_from-Ends fuel offset [] s enough = λ p. cc p
  parse_from-Ends zero offset (b ∷ bs) s enough = absurd (omega arith)
  parse_from-Ends (suc fuel) offset (b ∷ bs) s enough = elim (record_length-cases offset (b ∷ bs)) [
    | inr (e, refused) ↦ rw refused λ p. cc p
    | inl (n, accepted, low, high, h) ↦ rw accepted (
        each-Ends (parse_one (take n (b ∷ bs))) offset _ s (parse_one-Ends (take n (b ∷ bs))) λ t.
          parse_from-Ends fuel (offset + n) (drop n (b ∷ bs)) t
            (omega (arith, enough, low, length-drop n (b ∷ bs))))
  ]

-- The walk ends on every buffer, within as many rounds as the buffer has bytes: in success, in an
-- error, or in a panic.
pub parse_records-ends :
    {S : Type 0} (fn : RawRecord → S → Result UsnError Unit × S) (buf : Bytes) (s : S)
    → (parse_records fn buf s).0 ≢ timed_out
unfolding parse_records
parse_records-ends fn buf s = parse_from-Ends fn (length buf) 0 buf s (omega arith)

-- A buffer of at least 60 bytes whose first record claims between 1 and 5 bytes makes the walk
-- panic, before the callback is called.
pub parse_records-panics :
    {S : Type 0} (fn : RawRecord → S → Result UsnError Unit × S) (buf : Bytes) (s : S) (n : ℕ)
    → 60 ≤ length buf
    → u32_at buf 0 ≡ some n
    → 1 ≤ n
    → n ≤ 5
    → parse_records fn buf s ≡ (panicked, s)
unfolding parse_records record_length v2_header_len
parse_records-panics fn [] s n h claims low high = absurd (omega arith)
parse_records-panics fn (b ∷ bs) s n h claims low high =
    let buf = b ∷ bs in
    let long : ltb (length buf) 60 ≡ false = ground (arith, h) in
    let some_bytes : (n == 0) ≡ false = ground (arith, low) in
    let inside : ltb (length buf) n ≡ false = ground (arith, h, high) in
    rw
      (
        parse_from-step fn (length bs) 0 buf s (omega arith),
        long,
        claims,
        some_bytes,
        inside,
        (parse_one-panicked (take n buf)).1 (omega (arith, high, length-take n buf)),
      )
      refl
