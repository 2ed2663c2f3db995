-- ===== src/Service/Cgroup/Ids.antt =====
-- What counts as a container identifier.
use swinv.Prelude.{
  ◌≤◌, ◌≡◌, ◌⊎◌, inl, inr, refl, sym, ap, ◌∙◌, true, Bool-cases, ◌||◌, List, [], ◌∷◌, ◌++◌, Option,
  Option-cases, none, some, Bytes, codes, cut_prefix, trim_suffix, trim_suffix-append, leb, leb→le,
  ◌==◌, length, arith,
}
use swinv.Service.Cgroup.{
  is_hex, short_id_len, prefixes, accepted, after_prefix, bare, container_id,
}

abbrev pub IsId : Bytes → Type 0
IsId id = (is_hex id ≡ true) × (12 ≤ length id)

accepted-IsId : (o : Option Bytes) (id : Bytes) → accepted o ≡ some id → IsId id
accepted-IsId none id h = absurd (cc h)
accepted-IsId (some rest) id h = elim (Bool-cases (is_hex rest)) [
  | inr no' ↦ absurd (cc (rw no' at h))
  | inl hex ↦ elim (Bool-cases (leb short_id_len (length rest))) [
    | inr no' ↦ absurd (cc (rw (hex, no') at h))
    | inl long ↦
        let same : rest ≡ id = cc (rw (hex, long) at h) in
        (ap is_hex (sym same) ∙ hex, rw (sym same) (leb→le 12 (length rest) long))
  ]
]

after_prefix-IsId :
    (segment : Bytes) (ps : List Bytes) (id : Bytes) → after_prefix segment ps ≡ some id → IsId id
unfolding after_prefix
after_prefix-IsId segment [] id h = absurd (cc h)
after_prefix-IsId segment (p ∷ ps) id h = elim (Option-cases (accepted (cut_prefix segment p))) [
  | inl none' ↦ after_prefix-IsId segment ps id (rw none' at h)
  | inr (x, e) ↦ accepted-IsId (cut_prefix segment p) id (e ∙ rw e at h)
]

bare-IsId : (segment : Bytes) → (bare segment ≡ []) ⊎ IsId (bare segment)
bare-IsId segment = elim (Bool-cases ((length segment == 64) || (length segment == 32))) [
  | inr no' ↦ rw no' (inl refl)
  | inl sized ↦ elim (Bool-cases (is_hex segment)) [
    | inr no' ↦ rw (sized, no') (inl refl)
    | inl hex ↦ rw (sized, hex) (inr (hex, ground (arith, sized)))
  ]
]

-- Of any path segment, what is taken for a container identifier is nothing, or at least twelve
-- lower-case hexadecimal digits.
pub container_id-IsId :
    (segment : Bytes) → (container_id segment ≡ []) ⊎ IsId (container_id segment)
unfolding container_id
container_id-IsId segment =
    let s = trim_suffix segment (codes ".scope") in
    elim (Option-cases (after_prefix s prefixes)) [
      | inl none' ↦ rw none' (bare-IsId s)
      | inr (id, e) ↦ rw e (inr (after_prefix-IsId s prefixes id e))
    ]

-- The segment that the systemd driver writes for a Docker container gives the container's identifier
-- back, whenever it has at least twelve hexadecimal digits.
pub container_id-docker :
    (id : Bytes) → IsId id → container_id (codes "docker-" ++ (id ++ codes ".scope")) ≡ id
unfolding container_id after_prefix cut_prefix
container_id-docker id (hex, long) =
    let trimmed = trim_suffix-append (codes "docker-" ++ id) (codes ".scope") in
    let enough : leb 12 (length id) ≡ true = ground (arith, long) in rw (trimmed, hex, enough) refl
