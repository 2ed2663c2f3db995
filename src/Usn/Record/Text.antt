-- ===== src/Usn/Record/Text.antt =====
-- internal/usn/record.go: `decodeUTF16`, with what it uses of `unicode/utf16` and of string conversion.
use swinv.Prelude.{
  ℕ, ◌+◌, ◌-◌, ◌*◌, ◌/◌, ◌%◌, Bool, ◌&&◌, List, [], ◌∷◌, ◌++◌, Bytes, ltb, leb, if◌then◌else◌,
}

abbrev within : ℕ → ℕ → ℕ → Bool
within lo hi r = leb lo r && ltb r hi

-- The little-endian code units; an odd byte at the end is dropped.
unfoldable pub units : Bytes → List ℕ
units (a ∷ b ∷ rest) = (a + 256 * b) ∷ units rest
units _ = []

-- `utf16.Decode`: a surrogate without its partner becomes U+FFFD.
unfoldable pub decode : List ℕ → List ℕ
decode [] = []
decode (u ∷ []) = (if within 0xd800 0xe000 u then 0xfffd else u) ∷ []
decode (u ∷ v ∷ rest) =
    let pair = ((u - 0xd800) * 1024 + (v - 0xdc00) + 0x10000) ∷ decode rest in
    let one = (if within 0xd800 0xe000 u then 0xfffd else u) ∷ decode (v ∷ rest) in
    if within 0xd800 0xdc00 u && within 0xdc00 0xe000 v then pair else one

-- The UTF-8 bytes of a code point.
utf8 : ℕ → Bytes
utf8 r =
    if ltb r 0x80
    then r ∷ []
    else if ltb r 0x800
    then (0xc0 + r / 64) ∷ (0x80 + r % 64) ∷ []
    else if ltb r 0x10000
    then (0xe0 + r / 4096) ∷ (0x80 + r / 64 % 64) ∷ (0x80 + r % 64) ∷ []
    else (0xf0 + r / 262144) ∷ (0x80 + r / 4096 % 64) ∷ (0x80 + r / 64 % 64) ∷ (0x80 + r % 64) ∷ []

unfoldable pub encode : List ℕ → Bytes
unfolding utf8
encode [] = []
encode (r ∷ rs) = utf8 r ++ encode rs

unfoldable pub decode_utf16 : Bytes → Bytes
unfolding units decode encode
decode_utf16 b = encode (decode (units b))
