-- ===== src/Transmit/Name.antt =====
-- internal/transmit/spool.go: `sanitizeSpoolName`. `strings.Map` goes over code points; every byte of a
-- code point past ASCII, and every invalid byte, is outside the alphabet, so the bytes are filtered.
use swinv.Prelude.{
  ℕ, ◌≤◌, Bool, true, false, ◌&&◌, ◌||◌, [], ◌∷◌, ◌≡◌, refl, ap, Bytes, codes, leb, ltb, ◌==◌,
  if◌then◌else◌, length, length-take, take, is_empty, All, All-take, All-map, arith, Bool-cases,
  inl, inr, ◌⊎◌, ◌<◌,
}

unfoldable pub is_identifier : ℕ → Bool
is_identifier r =
    (leb b'a' r && leb r b'z')
    || (leb b'A' r && leb r b'Z')
    || (leb b'0' r && leb r b'9')
    || (r == b'-')
    || (r == b'_')

unfoldable pub keep_identifier : Bytes → Bytes
unfolding is_identifier
keep_identifier [] = []
keep_identifier (r ∷ rs) =
    let rest = keep_identifier rs in if is_identifier r then r ∷ rest else rest

abbrev max : ℕ
max = 64

unfoldable pub sanitize_spool_name : Bytes → Bytes
unfolding keep_identifier
sanitize_spool_name id =
    let out = keep_identifier id in
    if is_empty out then codes "scan" else if ltb max (length out) then take max out else out

abbrev IsIdentifier : Bytes → Type 0
IsIdentifier = All (λ r. is_identifier r ≡ true)

keep_identifier-IsIdentifier : (s : Bytes) → IsIdentifier (keep_identifier s)
unfolding keep_identifier
keep_identifier-IsIdentifier [] = tt
keep_identifier-IsIdentifier (r ∷ rs) = elim (Bool-cases (is_identifier r)) [
  | inl yes' ↦ rw yes' (yes', keep_identifier-IsIdentifier rs)
  | inr no' ↦ rw no' (keep_identifier-IsIdentifier rs)
]

keep_identifier_id : (s : Bytes) → IsIdentifier s → keep_identifier s ≡ s
unfolding keep_identifier
keep_identifier_id [] h = refl
keep_identifier_id (r ∷ rs) h = rw h.0 (ap (◌∷◌ r) (keep_identifier_id rs h.1))

-- The byte stands in no path: it is a letter, a digit, a dash or an underscore, by its ASCII code.
abbrev pub IsPlain : ℕ → Type 0
IsPlain r =
    ((96 < r) × (r < 123)) ⊎ ((64 < r) × (r < 91)) ⊎ ((47 < r) × (r < 58)) ⊎ (r ≡ 45) ⊎ (r ≡ 95)

is_identifier-IsPlain : (r : ℕ) → is_identifier r ≡ true → IsPlain r
unfolding is_identifier
is_identifier-IsPlain r h = ground (arith, h)

-- A name that is safe to use as a file name: `/`, `.`, `\\` and the control codes are not plain.
pub record IsSafe (name : Bytes) : Type 0 where
  pub plain : All IsPlain name
  pub not_empty : is_empty name ≡ false
  pub short : length name ≤ 64

IsIdentifier-IsPlain : (name : Bytes) → IsIdentifier name → All IsPlain name
IsIdentifier-IsPlain name = All-map _ IsPlain is_identifier-IsPlain name

IsSafe-cases :
    (out : Bytes)
    → IsIdentifier out
    → IsSafe
        (if is_empty out then codes "scan" else if ltb max (length out) then take max out else out)
IsSafe-cases [] h = record {
  plain =
      IsIdentifier-IsPlain (codes "scan")
        (unfold is_identifier in (refl, (refl, (refl, (refl, tt)))));
  not_empty = refl;
  short = omega arith;
}
IsSafe-cases (c ∷ cs) h = elim (Bool-cases (ltb max (length (c ∷ cs)))) [
  | inl long ↦ rw long (record {
    plain = IsIdentifier-IsPlain (take max (c ∷ cs)) (All-take _ max (c ∷ cs) h);
    not_empty = refl;
    short = omega (arith, length-take max (c ∷ cs));
  })
  | inr fits ↦
      rw fits
        (record { plain = IsIdentifier-IsPlain (c ∷ cs) h; not_empty = refl; short = ground arith })
]

-- Whatever the server sends as a scan id, the spool's name is not empty, is at most 64 bytes long and
-- has only ASCII letters, digits, dashes and underscores, so it holds no separator and no dot.
pub sanitize_spool_name-IsSafe : (id : Bytes) → IsSafe (sanitize_spool_name id)
unfolding sanitize_spool_name
sanitize_spool_name-IsSafe id = IsSafe-cases (keep_identifier id) (keep_identifier-IsIdentifier id)

IsPlain-is_identifier : (r : ℕ) → IsPlain r → is_identifier r ≡ true
unfolding is_identifier
IsPlain-is_identifier r h = ground (arith, h)

-- A safe name is left as it is.
pub sanitize_spool_name_safe : (name : Bytes) → IsSafe name → sanitize_spool_name name ≡ name
unfolding sanitize_spool_name
sanitize_spool_name_safe name s =
    rw (keep_identifier_id name (All-map IsPlain _ IsPlain-is_identifier name s.plain), s.not_empty)
      (elim (Bool-cases (ltb max (length name))) [
        | inl long ↦ absurd (ground (arith, s.short))
        | inr fits ↦ rw fits
      ])
