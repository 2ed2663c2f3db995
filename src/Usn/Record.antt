-- ===== src/Usn/Record.antt =====
-- internal/usn/record.go: `parseRecords`, `parseOne` and `decodeUTF16`. A Go panic is an outcome.
pub mod Safe
pub mod Text
pub mod Walk
use swinv.Prelude.{
  ℕ, zero, suc, ◌+◌, ◌-◌, ◌%◌, Bool, true, false, not, List, [], ◌∷◌, Option, none, some, Bytes,
  ltb, leb, ◌==◌, if◌then◌else◌, length, take, drop, Result, ok, err, Eff,
}
use swinv.Prelude.Binary.{u16_at, u32_at, u64_at, slice}
use Text.{decode_utf16}

pub data UsnError : Type 0 where
  truncated : ℕ → ℕ → UsnError
  zero_length : ℕ → UsnError
  past_buffer : ℕ → ℕ → UsnError
  unsupported_version : ℕ → UsnError
  short_record : ℕ → ℕ → UsnError
  name_overlaps_header : ℕ → UsnError
  odd_name_length : ℕ → UsnError
  name_past_record : ℕ → UsnError
  at_offset : ℕ → UsnError → UsnError
  bad_volume : Bytes → UsnError
  from_system : ℕ → UsnError

-- `timed_out` is no behaviour of the program: it says that the loop's fuel ran out.
pub data Outcome (A : Type 0) : Type 0 where
  done : A → Outcome A
  failed : UsnError → Outcome A
  panicked : Outcome A
  timed_out : Outcome A

infixl 5 ◌>>=◌
abbrev pub ◌>>=◌ : {A B : Type 0} → Outcome A → (A → Outcome B) → Outcome B
done a >>= f = f a
failed e >>= f = failed e
panicked >>= f = panicked
timed_out >>= f = timed_out

-- A read that panics when it is out of range.
abbrev pub read : Option ℕ → Outcome ℕ
read none = panicked
read (some n) = done n

abbrev pub check : Bool → UsnError → Outcome Unit
check true e = failed e
check false e = done tt

pub record RawRecord : Type 0 where
  pub file_ref : ℕ
  pub parent_ref : ℕ
  pub attributes : ℕ
  pub name : Bytes

-- The offsets of one record version.
pub record RecordLayout : Type 0 where
  pub off_file_ref : ℕ
  pub off_parent_ref : ℕ
  pub off_attributes : ℕ
  pub off_name_length : ℕ
  pub off_name_offset : ℕ
  pub header_len : ℕ

abbrev pub v2 : RecordLayout
v2 = record {
  off_file_ref = 8;
  off_parent_ref = 16;
  off_attributes = 52;
  off_name_length = 56;
  off_name_offset = 58;
  header_len = 60;
}

abbrev pub v3 : RecordLayout
v3 = record {
  off_file_ref = 8;
  off_parent_ref = 24;
  off_attributes = 68;
  off_name_length = 72;
  off_name_offset = 74;
  header_len = 76;
}

unfoldable pub layout_of : ℕ → Outcome RecordLayout
layout_of major =
    if major == 2
    then done v2
    else if major == 3
    then done v3
    else failed (unsupported_version major)

-- The fields, once the layout is known.
unfoldable pub parse_fields : RecordLayout → Bytes → Outcome RawRecord
parse_fields l rec = do
  check1 ← check (ltb (length rec) l.header_len) (short_record (length rec) l.header_len)
  name_len ← read (u16_at rec l.off_name_length)
  name_off ← read (u16_at rec l.off_name_offset)
  check2 ← check (ltb name_off l.header_len) (name_overlaps_header name_off)
  check3 ← check (not (name_len % 2 == 0)) (odd_name_length name_len)
  check4 ← check (ltb (length rec) (name_off + name_len)) (name_past_record (name_off + name_len))
  file_ref ← read (u64_at rec l.off_file_ref)
  parent_ref ← read (u64_at rec l.off_parent_ref)
  attributes ← read (u32_at rec l.off_attributes)
  done (record {
    file_ref = file_ref;
    parent_ref = parent_ref;
    attributes = attributes;
    name = decode_utf16 (slice rec name_off (name_off + name_len));
  })

unfoldable pub parse_one : Bytes → Outcome RawRecord
parse_one rec = do major ← read (u16_at rec 4); l ← layout_of major; parse_fields l rec

-- The error of one record names its offset.
abbrev pub at_record : {A : Type 0} → ℕ → Outcome A → Outcome A
at_record offset (done a) = done a
at_record offset (failed e) = failed (at_offset offset e)
at_record offset panicked = panicked
at_record offset timed_out = timed_out

v2_header_len : ℕ
v2_header_len = 60

-- The length of the record at the head of `rest`, which stands at `offset`.
unfoldable pub record_length : ℕ → Bytes → Outcome ℕ
unfolding v2_header_len
record_length offset rest = do
  check1 ← check (ltb (length rest) v2_header_len) (truncated offset (length rest))
  n ← read (u32_at rest 0)
  check2 ← check (n == 0) (zero_length offset)
  check3 ← check (ltb (length rest) n) (past_buffer offset n)
  done n

module _ {S : Type 0} (fn : RawRecord → S → Result UsnError Unit × S) where
  abbrev after_call : Result UsnError Unit × S → (S → Outcome Unit × S) → Outcome Unit × S
  after_call (ok u, s) next = next s
  after_call (err e, s) next = (failed e, s)

  abbrev each : Outcome RawRecord → (S → Outcome Unit × S) → S → Outcome Unit × S
  each (done r) next s = after_call (fn r s) next
  each (failed e) next s = (failed e, s)
  each panicked next s = (panicked, s)
  each timed_out next s = (timed_out, s)

  abbrev with_length : Outcome ℕ → (ℕ → S → Outcome Unit × S) → S → Outcome Unit × S
  with_length (done n) next s = next n s
  with_length (failed e) next s = (failed e, s)
  with_length panicked next s = (panicked, s)
  with_length timed_out next s = (timed_out, s)

  -- `rest` is `buf[offset:]`.
  unfoldable pub parse_from : ℕ → ℕ → Bytes → S → Outcome Unit × S
  parse_from fuel offset [] s = (done tt, s)
  parse_from zero offset (b ∷ bs) s = (timed_out, s)
  parse_from (suc fuel) offset (b ∷ bs) s =
      let rest = b ∷ bs in
      with_length (record_length offset rest)
        (λ n t.
          each (at_record offset (parse_one (take n rest)))
            (λ u. parse_from fuel (offset + n) (drop n rest) u) t)
        s

  -- Each round takes a record off the buffer, so its length is fuel enough.
  unfoldable pub parse_records : Bytes → S → Outcome Unit × S
  parse_records buf s = parse_from (length buf) 0 buf s
