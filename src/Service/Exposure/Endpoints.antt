-- ===== src/Service/Exposure/Endpoints.antt =====
-- One row per endpoint, and no row forgotten.
use swinv.Prelude.{
  ℕ, ◌+◌, ◌≡◌, refl, sym, ◌∙◌, Bool, true, false, Bool-cases, inl, inr, ◌&&◌, List, [], ◌∷◌,
  bytes_eq, bytes_eq_iff, bytes_eq_refl, ◌==◌, ==_iff, and_true, if◌then◌else◌, length, All, arith,
}
use swinv.Service.Exposure.{Exposure, is_better, same_endpoint, folded, merge_row, merge_rows}

module _ {D : Type 0} where
  abbrev pub total_processes : List (Exposure D) → ℕ
  total_processes [] = 0
  total_processes (x ∷ xs) = x.processes + total_processes xs

  abbrev pub has_endpoint : Exposure D → List (Exposure D) → Bool
  has_endpoint row [] = false
  has_endpoint row (x ∷ xs) = if same_endpoint row x then true else has_endpoint row xs

  abbrev pub Distinct : List (Exposure D) → Type 0
  Distinct [] = Unit
  Distinct (x ∷ xs) = (has_endpoint x xs ≡ false) × Distinct xs

  abbrev all_os : Exposure D → List (Exposure D) → Bool
  all_os row [] = row.os_component
  all_os row (x ∷ xs) = x.os_component && all_os row xs

  folded-processes : (x row : Exposure D) → (folded x row).processes ≡ x.processes + 1
  unfolding folded
  folded-processes x row = refl

  merge_row-processes :
      (out : List (Exposure D)) (row : Exposure D)
      → total_processes (merge_row out row) ≡ total_processes out + 1
  unfolding merge_row
  merge_row-processes [] row = omega arith
  merge_row-processes (x ∷ xs) row = elim (Bool-cases (same_endpoint row x)) [
    | inl same ↦ rw (same, folded-processes x row) (omega arith)
    | inr apart ↦ rw apart (omega (arith, merge_row-processes xs row))
  ]

  -- Rows with the same endpoint have the same neighbours.
  record SameKey (a b : Exposure D) : Type 0 where
    address : a.address ≡ b.address
    port : a.port ≡ b.port
    protocol : a.protocol ≡ b.protocol

  same_endpoint-SameKey : (a b : Exposure D) → same_endpoint a b ≡ true → SameKey a b
  unfolding same_endpoint
  same_endpoint-SameKey a b h =
      let (left, protocol) = and_true _ (bytes_eq a.protocol b.protocol) h in
      let (address, port) = and_true (bytes_eq a.address b.address) (a.port == b.port) left in
      record {
        address = (bytes_eq_iff a.address b.address).0 address;
        port = (==_iff a.port b.port).0 port;
        protocol = (bytes_eq_iff a.protocol b.protocol).0 protocol;
      }

  folded-SameKey : (x row : Exposure D) → SameKey row x → SameKey (folded x row) x
  unfolding folded
  folded-SameKey x row k = elim (Bool-cases (is_better row x)) [
    | inl better ↦ rw better (record { address = k.address; port = k.port; protocol = k.protocol })
    | inr worse ↦ rw worse (record { address = refl; port = refl; protocol = refl })
  ]

  same_endpoint_left : (a b c : Exposure D) → SameKey a b → same_endpoint a c ≡ same_endpoint b c
  unfolding same_endpoint
  same_endpoint_left a b c k = rw (k.address, k.port, k.protocol) refl

  same_endpoint_right : (a b c : Exposure D) → SameKey a b → same_endpoint c a ≡ same_endpoint c b
  unfolding same_endpoint
  same_endpoint_right a b c k = rw (k.address, k.port, k.protocol) refl

  same_endpoint_refl : (a : Exposure D) → same_endpoint a a ≡ true
  unfolding same_endpoint
  same_endpoint_refl a =
      rw (bytes_eq_refl a.address, (==_iff a.port a.port).1 refl, bytes_eq_refl a.protocol) refl

  same_endpoint_sym : (a b : Exposure D) → same_endpoint a b ≡ false → same_endpoint b a ≡ false
  same_endpoint_sym a b h = elim (Bool-cases (same_endpoint b a)) [
    | inr apart ↦ apart
    | inl same ↦ absurd (
        cc (
          sym h
          ∙ (same_endpoint_right b a a (same_endpoint-SameKey b a same) ∙ same_endpoint_refl a)))
  ]

  has_endpoint_left :
      (a b : Exposure D) (xs : List (Exposure D))
      → SameKey a b
      → has_endpoint a xs ≡ has_endpoint b xs
  has_endpoint_left a b [] k = refl
  has_endpoint_left a b (x ∷ xs) k =
      rw (same_endpoint_left a b x k, has_endpoint_left a b xs k) refl

  has_endpoint-merge_row :
      (r : Exposure D) (out : List (Exposure D)) (row : Exposure D)
      → has_endpoint r out ≡ false
      → same_endpoint r row ≡ false
      → has_endpoint r (merge_row out row) ≡ false
  unfolding merge_row same_endpoint
  has_endpoint-merge_row r [] row h k = rw k refl
  has_endpoint-merge_row r (x ∷ xs) row h k = elim (Bool-cases (same_endpoint r x)) [
    | inl it ↦ absurd (cc (rw it at h))
    | inr other ↦ elim (Bool-cases (same_endpoint row x)) [
      | inl same ↦
          let key = folded-SameKey x row (same_endpoint-SameKey row x same) in
          rw (same, same_endpoint_right (folded x row) x r key, other) (rw other at h)
      | inr apart ↦ rw (apart, other) (has_endpoint-merge_row r xs row (rw other at h) k)
    ]
  ]

  merge_row-Distinct :
      (out : List (Exposure D)) (row : Exposure D) → Distinct out → Distinct (merge_row out row)
  unfolding merge_row
  merge_row-Distinct [] row d = (refl, tt)
  merge_row-Distinct (x ∷ xs) row (new, d) = elim (Bool-cases (same_endpoint row x)) [
    | inl same ↦
        let key = folded-SameKey x row (same_endpoint-SameKey row x same) in
        rw same (has_endpoint_left (folded x row) x xs key ∙ new, d)
    | inr apart ↦ rw apart (
      has_endpoint-merge_row x xs row new (same_endpoint_sym row x apart),
      merge_row-Distinct xs row d,
    )
  ]

  merge_row-has_endpoint :
      (out : List (Exposure D)) (row : Exposure D) → has_endpoint row (merge_row out row) ≡ true
  unfolding merge_row
  merge_row-has_endpoint [] row = rw (itself row) refl
    where
      itself : (a : Exposure D) → same_endpoint a (record a { processes = 1 }) ≡ true
      itself a =
          same_endpoint_right (record a { processes = 1 }) a a
            (record { address = refl; port = refl; protocol = refl })
          ∙ same_endpoint_refl a
  merge_row-has_endpoint (x ∷ xs) row = elim (Bool-cases (same_endpoint row x)) [
    | inl same ↦
        let key = folded-SameKey x row (same_endpoint-SameKey row x same) in
        rw (same, same_endpoint_right (folded x row) x row key, same) refl
    | inr apart ↦ rw (apart, apart) (merge_row-has_endpoint xs row)
  ]

  merge_row-keeps_endpoint :
      (r : Exposure D) (out : List (Exposure D)) (row : Exposure D)
      → has_endpoint r out ≡ true
      → has_endpoint r (merge_row out row) ≡ true
  unfolding merge_row
  merge_row-keeps_endpoint r [] row h = absurd (cc h)
  merge_row-keeps_endpoint r (x ∷ xs) row h = elim (Bool-cases (same_endpoint row x)) [
    | inl same ↦
        let key = folded-SameKey x row (same_endpoint-SameKey row x same) in
        rw (same, same_endpoint_right (folded x row) x r key) h
    | inr apart ↦ elim (Bool-cases (same_endpoint r x)) [
      | inl it ↦ rw (apart, it) refl
      | inr other ↦ rw (apart, other) (merge_row-keeps_endpoint r xs row (rw other at h))
    ]
  ]

  merge_rows-keeps_endpoint :
      (r : Exposure D) (rows out : List (Exposure D))
      → has_endpoint r out ≡ true
      → has_endpoint r (merge_rows out rows) ≡ true
  unfolding merge_rows
  merge_rows-keeps_endpoint r [] out h = h
  merge_rows-keeps_endpoint r (row ∷ rows) out h =
      merge_rows-keeps_endpoint r rows (merge_row out row) (merge_row-keeps_endpoint r out row h)

  merge_rows-has_endpoint :
      (rows out : List (Exposure D)) → All (λ r. has_endpoint r (merge_rows out rows) ≡ true) rows
  unfolding merge_rows
  merge_rows-has_endpoint [] out = tt
  merge_rows-has_endpoint (row ∷ rows) out = (
    merge_rows-keeps_endpoint row rows (merge_row out row) (merge_row-has_endpoint out row),
    merge_rows-has_endpoint rows (merge_row out row),
  )

  merge_rows-totals :
      (rows out : List (Exposure D))
      → Distinct out
      → Distinct (merge_rows out rows)
        × (total_processes (merge_rows out rows) ≡ total_processes out + length rows)
  unfolding merge_rows
  merge_rows-totals [] out d = (d, omega arith)
  merge_rows-totals (row ∷ rows) out d =
      let (distinct, total) =
        merge_rows-totals rows (merge_row out row) (merge_row-Distinct out row d) in
      (distinct, omega (arith, total, merge_row-processes out row))

-- Merging any sequence of rows leaves one row for each endpoint that occurs in it and no two for the
-- same, and their process counts add up to the number of rows that were merged.
pub merge_rows-Distinct :
    {D : Type 0} (rows : List (Exposure D))
    → Distinct (merge_rows [] rows)
      × All (λ r. has_endpoint r (merge_rows [] rows) ≡ true) rows
      × (total_processes (merge_rows [] rows) ≡ length rows)
merge_rows-Distinct rows =
    let (distinct, total) = merge_rows-totals rows [] tt in
    (distinct, merge_rows-has_endpoint rows [], omega (arith, total))
