-- ===== src/Service/SocketTable/Rows.antt =====
-- The number of rows read, and that no read is out of range.
use swinv.Prelude.{
  ℕ, zero, suc, ◌+◌, ◌-◌, ◌*◌, ◌/◌, ◌≤◌, ◌≡◌, inl, inr, refl, false, Bool-cases, List, [], ◌∷◌,
  Option, some, Bytes, ltb, length, length-drop, length-take, drop, arith,
}
use Prim.Native.Nat.{min}
use native.Mathlib.Nat.{suc-mul, div-mul-le_self, mul-le-mul_right}
use swinv.Prelude.Binary.{Reads, u32_at, be16, slice, u32_at-reads}
use swinv.Service.SocketTable.{
  WinSocket, table_rows, net_port, tcp_row4, tcp_row6, udp_row4, udp_row6, row_at, append_found,
  each_row, parse_table, parse_tcp_table4, parse_tcp_table6, parse_udp_table4, parse_udp_table6,
}

-- As many rows as the table claims, or as fit whole behind its count.
pub table_rows-fits :
    (raw : Bytes) (size : ℕ)
    → 4 ≤ length raw
    → (claimed : ℕ) × (u32_at raw 0 ≡ some claimed)
      × (table_rows raw size ≡ some (drop 4 raw, min claimed (length (drop 4 raw) / size)))
unfolding table_rows
table_rows-fits raw size h =
    let (claimed, e) = u32_at-reads raw 0 (omega (arith, h)) in
    let long : ltb (length raw) 4 ≡ false = ground (arith, h) in (claimed, e, rw (long, e) refl)

be16-reads : (b : Bytes) → 2 ≤ length b → Reads (be16 b)
be16-reads [] h = absurd (omega arith)
be16-reads (x ∷ []) h = absurd (omega arith)
be16-reads (x ∷ y ∷ b) h = (256 * x + y, refl)

net_port-reads : (row : Bytes) (offset : ℕ) → offset + 2 ≤ length row → Reads (net_port row offset)
net_port-reads row offset h = be16-reads (drop offset row) (omega (arith, length-drop offset row))

abbrev pub IsRead {ℓ} : {A : Type ℓ} → Option A → Type ℓ
IsRead {A = A} o = (a : A) × (o ≡ some a)

tcp_row4-IsRead : (row : Bytes) → length row ≡ 24 → IsRead (tcp_row4 row)
unfolding tcp_row4
tcp_row4-IsRead row h =
    let (n1, e1) = u32_at-reads row 0 (omega arith) in
    let (n2, e2) = net_port-reads row 8 (omega arith) in
    let (n3, e3) = u32_at-reads row 20 (omega arith) in rw (e1, e2, e3) (_, refl)

tcp_row6-IsRead : (row : Bytes) → length row ≡ 56 → IsRead (tcp_row6 row)
unfolding tcp_row6
tcp_row6-IsRead row h =
    let (n1, e1) = u32_at-reads row 48 (omega arith) in
    let (n2, e2) = net_port-reads row 20 (omega arith) in
    let (n3, e3) = u32_at-reads row 52 (omega arith) in rw (e1, e2, e3) (_, refl)

udp_row4-IsRead : (row : Bytes) → length row ≡ 12 → IsRead (udp_row4 row)
unfolding udp_row4
udp_row4-IsRead row h =
    let (n1, e1) = net_port-reads row 4 (omega arith) in
    let (n2, e2) = u32_at-reads row 8 (omega arith) in rw (e1, e2) (_, refl)

udp_row6-IsRead : (row : Bytes) → length row ≡ 28 → IsRead (udp_row6 row)
unfolding udp_row6
udp_row6-IsRead row h =
    let (n1, e1) = net_port-reads row 20 (omega arith) in
    let (n2, e2) = u32_at-reads row 24 (omega arith) in rw (e1, e2) (_, refl)

module _ (read_row : Bytes → Option (Option WinSocket)) (size : ℕ)
    (readable : (row : Bytes) → length row ≡ size → IsRead (read_row row)) where
  row_at-slice :
      (rows : Bytes) (from : ℕ)
      → from + size ≤ length rows
      → (row_at rows from size ≡ some (slice rows from (from + size)))
        × (length (slice rows from (from + size)) ≡ size)
  unfolding row_at
  row_at-slice rows from h =
      let inside : ltb (length rows) (from + size) ≡ false = ground (arith, h) in
      (
        rw inside refl,
        omega (arith, h, length-take (from + size - from) (drop from rows), length-drop from rows),
      )

  each_row-IsRead :
      (left i : ℕ) (rows : Bytes) (out : List WinSocket)
      → i * size + left * size ≤ length rows
      → IsRead (each_row read_row size left i rows out)
  unfolding each_row
  each_row-IsRead zero i rows out h = (out, refl)
  each_row-IsRead (suc left) i rows out h =
      let next = suc-mul left size in
      let step = suc-mul i size in
      let (at, whole) = row_at-slice rows (i * size) (omega (arith, h, next)) in
      let (found, e) = readable (slice rows (i * size) (i * size + size)) whole in
      rw (at, e)
        (each_row-IsRead left (suc i) rows (append_found out found) (omega (arith, h, next, step)))

  parse_table-IsRead : (raw : Bytes) → IsRead (parse_table read_row size raw)
  unfolding parse_table table_rows
  parse_table-IsRead raw = elim (Bool-cases (ltb (length raw) 4)) [
    | inl short ↦ rw short (unfold each_row in ([], refl))
    | inr long ↦
        let (claimed, e) = u32_at-reads raw 0 (ground (arith, long)) in
        let rows = drop 4 raw in
        let n = min claimed (length rows / size) in
        let few : n ≤ length rows / size = omega arith in
        let fits = mul-le-mul_right size few in
        rw (long, e)
          (each_row-IsRead n 0 rows [] (omega (arith, fits, div-mul-le_self (length rows) size)))
  ]

-- Whatever the kernel returned, none of the four tables' parsers reads out of range.
pub parse_tables-IsRead :
    (raw : Bytes)
    → IsRead (parse_tcp_table4 raw)
      × IsRead (parse_tcp_table6 raw)
      × IsRead (parse_udp_table4 raw)
      × IsRead (parse_udp_table6 raw)
parse_tables-IsRead raw = (
  parse_table-IsRead tcp_row4 24 tcp_row4-IsRead raw,
  parse_table-IsRead tcp_row6 56 tcp_row6-IsRead raw,
  parse_table-IsRead udp_row4 12 udp_row4-IsRead raw,
  parse_table-IsRead udp_row6 28 udp_row6-IsRead raw,
)
