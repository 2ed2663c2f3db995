-- ===== src/Usn/Record/Safe.antt =====
-- The parser ends, and panics exactly when a record claims fewer bytes than its version field needs.
use swinv.Prelude.{
  ℕ, ◌+◌, ◌<◌, ◌≤◌, ◌≡◌, ◌≢◌, ◌↔◌, refl, Bool, true, false, Bool-cases, inl, inr, [], ◌∷◌, Option,
  none, some, Bytes, ltb, arith, length, ◌==◌, ◌%◌, not, sym, ◌∙◌,
}
use native.Mathlib.Decide.{dec_lt}
use swinv.Prelude.Binary.{Reads, u16_at, u16_at-reads, u32_at-reads, u64_at-reads}
use swinv.Usn.Record.{
  Outcome, done, failed, panicked, timed_out, ◌>>=◌, read, check, UsnError, RawRecord, RecordLayout,
  name_overlaps_header, odd_name_length, name_past_record, v2, v3, layout_of, parse_fields,
  parse_one,
}

-- The outcome is a value or an error.
abbrev pub Calm : {A : Type 0} → Outcome A → Type 0
Calm (done a) = Unit
Calm (failed e) = Unit
Calm panicked = ⊥
Calm timed_out = ⊥

Calm-read :
    {A : Type 0} (o : Option ℕ) (f : ℕ → Outcome A)
    → Reads o
    → ((n : ℕ) → Calm (f n))
    → Calm (read o >>= f)
Calm-read none f (n, e) k = absurd (cc e)
Calm-read (some m) f r k = k m

after_check :
    {A : Type 0} (b : Bool) (e : UsnError) (f : Unit → Outcome A)
    → Calm (f tt)
    → Calm (check b e >>= f)
after_check true e f h = tt
after_check false e f h = h

-- The header holds every field.
record Covers (l : RecordLayout) : Type 0 where
  file_ref : l.off_file_ref + 8 ≤ l.header_len
  parent_ref : l.off_parent_ref + 8 ≤ l.header_len
  attributes : l.off_attributes + 4 ≤ l.header_len
  name_length : l.off_name_length + 2 ≤ l.header_len
  name_offset : l.off_name_offset + 2 ≤ l.header_len

at_least : (n m : ℕ) → ltb n m ≡ false → m ≤ n
at_least n m h = ground arith

parse_fields-Calm : (l : RecordLayout) (rec : Bytes) → Covers l → Calm (parse_fields l rec)
unfolding parse_fields
parse_fields-Calm l rec c = elim (Bool-cases (ltb (length rec) l.header_len)) [
  | inl short ↦ rw short tt
  | inr long ↦
      let fits = at_least (length rec) l.header_len long in
      let (n1, e1) = u16_at-reads rec l.off_name_length (omega (arith, c.name_length)) in
      let (n2, e2) = u16_at-reads rec l.off_name_offset (omega (arith, c.name_offset)) in
      let (n3, e3) = u64_at-reads rec l.off_file_ref (omega (arith, c.file_ref)) in
      let (n4, e4) = u64_at-reads rec l.off_parent_ref (omega (arith, c.parent_ref)) in
      let (n5, e5) = u32_at-reads rec l.off_attributes (omega (arith, c.attributes)) in
      rw (long, e1, e2, e3, e4, e5)
        (after_check (ltb n2 l.header_len) (name_overlaps_header n2) _ (
          after_check (not (n1 % 2 == 0)) (odd_name_length n1) _
            (after_check (ltb (length rec) (n2 + n1)) (name_past_record (n2 + n1)) _ tt)))
]

parse_one-Calm : (rec : Bytes) → 6 ≤ length rec → Calm (parse_one rec)
unfolding parse_one layout_of
parse_one-Calm rec h = Calm-read _ _ (u16_at-reads rec 4 (omega arith)) λ major. versions major
  where
    versions : (major : ℕ) → Calm (layout_of major >>= λ l. parse_fields l rec)
    versions major = elim (Bool-cases (major == 2)) [
      | inl two ↦ rw two (parse_fields-Calm v2 rec (omega arith))
      | inr other ↦ elim (Bool-cases (major == 3)) [
        | inl three ↦ rw (other, three) (parse_fields-Calm v3 rec (omega arith))
        | inr unknown ↦ rw (other, unknown) tt
      ]
    ]

short_panics : (rec : Bytes) → length rec < 6 → parse_one rec ≡ panicked
unfolding parse_one u16_at
short_panics [] h = refl
short_panics (a ∷ []) h = refl
short_panics (a ∷ b ∷ []) h = refl
short_panics (a ∷ b ∷ c ∷ []) h = refl
short_panics (a ∷ b ∷ c ∷ d ∷ []) h = refl
short_panics (a ∷ b ∷ c ∷ d ∷ e ∷ []) h = refl
short_panics (a ∷ b ∷ c ∷ d ∷ e ∷ f ∷ rest) h = absurd (omega arith)

-- A record is parsed to a value or an error unless it has fewer than six bytes: then its version
-- field is read out of range, and the program panics.
pub parse_one-panicked : (rec : Bytes) → (parse_one rec ≡ panicked) ↔ (length rec < 6)
parse_one-panicked rec = (
  λ e. elim (dec_lt (length rec) 6) [
    | yes short ↦ short
    | no long ↦ absurd (rw e at (parse_one-Calm rec (omega arith)))
  ],
  short_panics rec,
)

-- The outcome is one of the program's: a value, an error or a panic.
abbrev pub Ends : {A : Type 0} → Outcome A → Type 0
Ends o = o ≢ timed_out

pub parse_one-Ends : (rec : Bytes) → Ends (parse_one rec)
parse_one-Ends rec e = elim (dec_lt (length rec) 6) [
  | yes short ↦ panicked_ends (sym (short_panics rec short) ∙ e)
  | no long ↦ rw e at (parse_one-Calm rec (omega arith))
]
  where
    panicked_ends : Ends {A = RawRecord} panicked
    panicked_ends p = cc p
