-- ===== src/Usn/Volumes/Drives.antt =====
-- What `ParseVolumes` returns: drives, each once.
use swinv.Prelude.{
  ℕ, ◌≡◌, refl, true, false, Bool-cases, inl, inr, List, [], ◌∷◌, ◌++◌, Bytes, bytes_eq, ok,
  is_empty, bytes_eq_iff, bytes_eq_refl, All, All-append, Result, Result-cases, ◌==◌, sym, ◌∙◌, ap,
}
use mathlib.Core.Path.{subst}
use swinv.Prelude.Space.{trim_space, split_at}
use swinv.Usn.Volumes.{
  VolumeError, trim_right, upper, is_upper, drive_of, normalize_volume, contains, keep_new,
  add_fields, parse_volumes,
}

-- An upper-case letter and a colon.
abbrev pub IsDrive : Bytes → Type 0
IsDrive v = (c : ℕ) × (is_upper c ≡ true) × (v ≡ c ∷ b':' ∷ [])

-- No element stands again after itself.
abbrev pub Distinct : List Bytes → Type 0
Distinct [] = Unit
Distinct (v ∷ vs) = (contains v vs ≡ false) × Distinct vs

abbrev pub AreVolumes : List Bytes → Type 0
AreVolumes vs = All IsDrive vs × Distinct vs

contains-append :
    (v : Bytes) (xs : List Bytes) (w : Bytes)
    → contains v xs ≡ false
    → bytes_eq v w ≡ false
    → contains v (xs ++ (w ∷ [])) ≡ false
contains-append v [] w h k = rw k refl
contains-append v (x ∷ xs) w h k = elim (Bool-cases (bytes_eq v x)) [
  | inl same ↦ absurd (cc (rw same at h))
  | inr apart ↦ rw apart (contains-append v xs w (rw apart at h) k)
]

bytes_eq-false_sym : (a b : Bytes) → bytes_eq a b ≡ false → bytes_eq b a ≡ false
bytes_eq-false_sym a b h = elim (Bool-cases (bytes_eq b a)) [
  | inr no' ↦ no'
  | inl same ↦ absurd (cc (sym h ∙ (ap (bytes_eq a) ((bytes_eq_iff b a).0 same) ∙ bytes_eq_refl a)))
]

Distinct-append :
    (xs : List Bytes) (v : Bytes) → Distinct xs → contains v xs ≡ false → Distinct (xs ++ (v ∷ []))
Distinct-append [] v d h = (refl, tt)
Distinct-append (x ∷ xs) v (new, d) h = elim (Bool-cases (bytes_eq v x)) [
  | inl same ↦ absurd (cc (rw same at h))
  | inr apart ↦ (
    contains-append x xs v new (bytes_eq-false_sym v x apart),
    Distinct-append xs v d (rw apart at h),
  )
]

keep_new-AreVolumes :
    (v : Bytes) (out : List Bytes) → IsDrive v → AreVolumes out → AreVolumes (keep_new v out)
keep_new-AreVolumes v out drive (drives, d) = elim (Bool-cases (contains v out)) [
  | inl seen ↦ rw seen (drives, d)
  | inr new ↦
      rw new (All-append IsDrive out (v ∷ []) drives (drive, tt), Distinct-append out v d new)
]

drive_of-IsDrive : (v w : Bytes) → drive_of v ≡ ok w → IsDrive w
unfolding drive_of
drive_of-IsDrive (c ∷ d ∷ []) w h = elim (Bool-cases (d == b':')) [
  | inr other ↦ absurd (cc (rw other at h))
  | inl colon ↦ elim (Bool-cases (is_upper (upper c))) [
    | inr other ↦ absurd (cc (rw (colon, other) at h))
    | inl letter ↦ (upper c, letter, cc (rw (colon, letter) at h))
  ]
]
drive_of-IsDrive [] w h = absurd (cc h)
drive_of-IsDrive (c ∷ []) w h = absurd (cc h)
drive_of-IsDrive (c ∷ d ∷ e ∷ v) w h = absurd (cc h)

ok_same : {xs ys : List Bytes} → ◌≡◌ {A = Result VolumeError (List Bytes)} (ok xs) (ok ys) → xs ≡ ys
ok_same e = cc e

add_fields-AreVolumes :
    (fields out vs : List Bytes) → AreVolumes out → add_fields fields out ≡ ok vs → AreVolumes vs
unfolding add_fields normalize_volume
add_fields-AreVolumes [] out vs good h = subst AreVolumes (ok_same h) good
add_fields-AreVolumes (field ∷ fields) out vs good h =
    elim (Bool-cases (is_empty (trim_space field))) [
      | inl blank ↦ add_fields-AreVolumes fields out vs good (rw blank at h)
      | inr text ↦ elim (Result-cases (drive_of (trim_right (trim_space field)))) [
        | inr (e, refused) ↦ absurd (cc (rw (text, refused) at h))
        | inl (v, drive) ↦
            add_fields-AreVolumes fields (keep_new v out) vs
              (keep_new-AreVolumes v out (drive_of-IsDrive (trim_right (trim_space field)) v drive)
                good)
              (rw (text, drive) at h)
      ]
    ]

-- The volumes returned are drive specifications with an upper-case letter, each once, whatever the
-- operator wrote.
pub parse_volumes-AreVolumes :
    (spec : Bytes) (vs : List Bytes) → parse_volumes spec ≡ ok vs → All IsDrive vs × Distinct vs
unfolding parse_volumes
parse_volumes-AreVolumes spec vs h = elim (Bool-cases (is_empty (trim_space spec))) [
  | inl blank ↦ subst AreVolumes (ok_same (rw blank at h)) (tt, tt)
  | inr text ↦ elim (Result-cases (add_fields (split_at b',' spec) [])) [
    | inr (e, refused) ↦ absurd (cc (rw (text, refused) at h))
    | inl (out, added) ↦
        let good = add_fields-AreVolumes (split_at b',' spec) [] out (tt, tt) added in
        elim (Bool-cases (is_empty out)) [
          | inl nothing ↦ absurd (cc (rw (text, added, nothing) at h))
          | inr some_volume ↦ subst AreVolumes (ok_same (rw (text, added, some_volume) at h)) good
        ]
  ]
]
