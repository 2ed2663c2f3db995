-- ===== src/Prelude/Binary.antt =====
-- Reading and writing the integers of `encoding/binary` in a byte slice. `none` is Go's panic on an
-- index or a slice out of range.
use Prim.Native.Nat.{ℕ, ◌+◌, ◌-◌, ◌*◌, ◌/◌, ◌%◌, ◌≤◌, ◌<◌}
use mathlib.Core.Path.{◌≡◌, refl}
use mathlib.Core.Option.{Option, none, some}
use mathlib.Core.List.{[], ◌∷◌, ◌++◌}
use native.Mathlib.Omega.{arith}
use swinv.Prelude.Lists.{length, length-drop, take, drop}
use swinv.Prelude.Text.{Bytes}

abbrev pub le16 : Bytes → Option ℕ
le16 (a ∷ b ∷ rest) = some (a + 256 * b)
le16 (a ∷ []) = none
le16 [] = none

abbrev pub be16 : Bytes → Option ℕ
be16 (a ∷ b ∷ rest) = some (256 * a + b)
be16 (a ∷ []) = none
be16 [] = none

abbrev join16 : ℕ → Option ℕ → Option ℕ → Option ℕ
join16 base none high = none
join16 base (some low) none = none
join16 base (some low) (some high) = some (low + base * high)

abbrev pub le32 : Bytes → Option ℕ
le32 b = join16 65536 (le16 b) (le16 (drop 2 b))

abbrev pub le64 : Bytes → Option ℕ
le64 b = join16 4294967296 (le32 b) (le32 (drop 4 b))

-- `binary.LittleEndian.Uint16(b[offset:])`, and so on.
unfoldable pub u16_at : Bytes → ℕ → Option ℕ
u16_at b offset = le16 (drop offset b)

unfoldable pub u32_at : Bytes → ℕ → Option ℕ
u32_at b offset = le32 (drop offset b)

unfoldable pub u64_at : Bytes → ℕ → Option ℕ
u64_at b offset = le64 (drop offset b)

-- `b[from:to]`, for bounds that the caller has checked.
abbrev pub slice : Bytes → ℕ → ℕ → Bytes
slice b from to = take (to - from) (drop from b)

abbrev pub Reads : Option ℕ → Type 0
Reads o = (n : ℕ) × (o ≡ some n)

le16-reads : (b : Bytes) → 2 ≤ length b → Reads (le16 b)
le16-reads [] h = absurd (omega arith)
le16-reads (a ∷ []) h = absurd (omega arith)
le16-reads (a ∷ c ∷ b) h = (a + 256 * c, refl)

join16-reads : (base : ℕ) (o p : Option ℕ) → Reads o → Reads p → Reads (join16 base o p)
join16-reads base none p (n, e) q = absurd (cc e)
join16-reads base (some a) none r (n, e) = absurd (cc e)
join16-reads base (some a) (some b) r q = (a + base * b, refl)

le32-reads : (b : Bytes) → 4 ≤ length b → Reads (le32 b)
le32-reads b h =
    join16-reads 65536 (le16 b) (le16 (drop 2 b)) (le16-reads b (omega arith))
      (le16-reads (drop 2 b) (omega (arith, length-drop 2 b)))

le64-reads : (b : Bytes) → 8 ≤ length b → Reads (le64 b)
le64-reads b h =
    join16-reads 4294967296 (le32 b) (le32 (drop 4 b)) (le32-reads b (omega arith))
      (le32-reads (drop 4 b) (omega (arith, length-drop 4 b)))

pub u16_at-reads : (b : Bytes) (offset : ℕ) → offset + 2 ≤ length b → Reads (u16_at b offset)
unfolding u16_at
u16_at-reads b offset h = le16-reads (drop offset b) (omega (arith, length-drop offset b))

pub u32_at-reads : (b : Bytes) (offset : ℕ) → offset + 4 ≤ length b → Reads (u32_at b offset)
unfolding u32_at
u32_at-reads b offset h = le32-reads (drop offset b) (omega (arith, length-drop offset b))

pub u64_at-reads : (b : Bytes) (offset : ℕ) → offset + 8 ≤ length b → Reads (u64_at b offset)
unfolding u64_at
u64_at-reads b offset h = le64-reads (drop offset b) (omega (arith, length-drop offset b))

-- `binary.LittleEndian.PutUint16`, and so on.
abbrev pub put16 : ℕ → Bytes
put16 n = (n % 256) ∷ (n / 256 % 256) ∷ []

abbrev pub put32 : ℕ → Bytes
put32 n = (n % 256) ∷ (n / 256 % 256) ∷ (n / 65536 % 256) ∷ (n / 16777216 % 256) ∷ []

pub le16-put16 : (n : ℕ) (rest : Bytes) → n < 65536 → le16 (put16 n ++ rest) ≡ some n
le16-put16 n rest h = ground arith

pub le32-put32 : (n : ℕ) (rest : Bytes) → n < 4294967296 → le32 (put32 n ++ rest) ≡ some n
le32-put32 n rest h = ground arith

abbrev pub put64 : ℕ → Bytes
put64 n = put32 (n % 4294967296) ++ put32 (n / 4294967296)

pub le64-put64 : (n : ℕ) (rest : Bytes) → n < 18446744073709551616 → le64 (put64 n ++ rest) ≡ some n
le64-put64 n rest h = ground arith
