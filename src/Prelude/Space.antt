-- ===== src/Prelude/Space.antt =====
-- `strings.TrimSpace` and `bytes.TrimSpace` on UTF-8, and `strings.Split`, `strings.Join` at one byte.
use Prim.Native.Nat.{ℕ, zero, suc}
use mathlib.Core.Bool.{Bool, ◌&&◌, ◌||◌}
use mathlib.Core.Option.{Option, none, some}
use mathlib.Core.List.{List, [], ◌∷◌, ◌++◌}
use swinv.Prelude.Tests.{leb, ◌==◌, if◌then◌else◌}
use swinv.Prelude.Lists.{length, drop}
use swinv.Prelude.Text.{Bytes}

-- The white space below U+0080.
unfoldable pub ascii_space : ℕ → Bool
ascii_space c = (leb 9 c && leb c 13) || (c == 32)

-- U+2000 to U+200A, U+2028, U+2029 and U+202F after their first two bytes.
general_space : ℕ → Bool
general_space z = (leb 0x80 z && leb z 0x8a) || (z == 0xa8) || (z == 0xa9) || (z == 0xaf)

wide_space : ℕ → ℕ → ℕ → Bool
unfolding general_space
wide_space x y z =
    (x == 0xe1 && y == 0x9a && z == 0x80)
    || (x == 0xe2 && y == 0x80 && general_space z)
    || (x == 0xe2 && y == 0x81 && z == 0x9f)
    || (x == 0xe3 && y == 0x80 && z == 0x80)

-- The length of the white-space character at the head, 0 where there is none.
unfoldable pub space_at_head : Bytes → ℕ
unfolding ascii_space wide_space
space_at_head [] = 0
space_at_head (x ∷ []) = if ascii_space x then 1 else 0
space_at_head (x ∷ y ∷ []) =
    if ascii_space x then 1 else if x == 0xc2 && (y == 0x85 || y == 0xa0) then 2 else 0
space_at_head (x ∷ y ∷ z ∷ rest) =
    if ascii_space x
    then 1
    else if x == 0xc2 && (y == 0x85 || y == 0xa0)
    then 2
    else if wide_space x y z
    then 3
    else 0

-- The same at the head of the reversed bytes.
unfoldable pub space_at_end : Bytes → ℕ
unfolding ascii_space wide_space
space_at_end [] = 0
space_at_end (x ∷ []) = if ascii_space x then 1 else 0
space_at_end (y ∷ x ∷ []) =
    if ascii_space y then 1 else if x == 0xc2 && (y == 0x85 || y == 0xa0) then 2 else 0
space_at_end (z ∷ y ∷ x ∷ rest) =
    if ascii_space z
    then 1
    else if y == 0xc2 && (z == 0x85 || z == 0xa0)
    then 2
    else if wide_space x y z
    then 3
    else 0

abbrev when_space : ℕ → (ℕ → Bytes) → Bytes → Bytes
when_space zero trimmed b = b
when_space (suc n) trimmed b = trimmed (suc n)

-- Each step drops a character, so the length is fuel enough.
unfoldable pub trim_head : (Bytes → ℕ) → ℕ → Bytes → Bytes
trim_head space zero b = b
trim_head space (suc fuel) b = when_space (space b) (λ n. trim_head space fuel (drop n b)) b

abbrev pub reverse_onto : Bytes → Bytes → Bytes
reverse_onto [] acc = acc
reverse_onto (c ∷ cs) acc = reverse_onto cs (c ∷ acc)

unfoldable pub trim_space : Bytes → Bytes
unfolding trim_head space_at_head space_at_end
trim_space b =
    let start = trim_head space_at_head (length b) b in
    reverse_onto (trim_head space_at_end (length start) (reverse_onto start [])) []

-- `strings.Split(s, ",")`, for any one byte.
abbrev onto_first : ℕ → List Bytes → List Bytes
onto_first c [] = (c ∷ []) ∷ []
onto_first c (w ∷ ws) = (c ∷ w) ∷ ws

unfoldable pub split_at : ℕ → Bytes → List Bytes
split_at sep [] = [] ∷ []
split_at sep (c ∷ cs) =
    let fields = split_at sep cs in if c == sep then [] ∷ fields else onto_first c fields

unfoldable pub join_with : Bytes → List Bytes → Bytes
join_with sep [] = []
join_with sep (w ∷ []) = w
join_with sep (w ∷ v ∷ ws) = w ++ (sep ++ join_with sep (v ∷ ws))

-- `strings.Cut(s, ":")`, for any one byte.
unfoldable pub cut_at : ℕ → Bytes → Option (Bytes × Bytes)
cut_at sep [] = none
cut_at sep (c ∷ cs) =
    let later = cut_at sep cs in if c == sep then some ([], cs) else onto_head c later
  where
    onto_head : ℕ → Option (Bytes × Bytes) → Option (Bytes × Bytes)
    onto_head c none = none
    onto_head c (some (before, after)) = some (c ∷ before, after)
