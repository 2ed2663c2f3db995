-- ===== src/Service/SocketTable.antt =====
-- internal/service/wintable.go: the socket tables of iphlpapi. `none` is a Go panic.
pub mod Rows
pub mod Listening
use swinv.Prelude.{
  ℕ, zero, suc, ◌+◌, ◌-◌, ◌*◌, ◌/◌, Bool, true, false, List, [], ◌∷◌, ◌++◌, Option, none, some,
  Bytes, ltb, ◌==◌, if◌then◌else◌, length, take, drop,
}
use Prim.Native.Nat.{min}
use swinv.Prelude.Binary.{u16_at, u32_at, be16, slice}

abbrev pub tcp_row4_size : ℕ
tcp_row4_size = 24

abbrev pub tcp_row6_size : ℕ
tcp_row6_size = 56

abbrev pub udp_row4_size : ℕ
udp_row4_size = 12

abbrev pub udp_row6_size : ℕ
udp_row6_size = 28

abbrev pub mib_tcp_state_listen : ℕ
mib_tcp_state_listen = 2

pub data Protocol : Type 0 where
  tcp : Protocol
  tcp6 : Protocol
  udp : Protocol
  udp6 : Protocol

-- The address is kept as the bytes that `net.IP` prints.
pub record WinSocket : Type 0 where
  pub protocol : Protocol
  pub address : Bytes
  pub port : ℕ
  pub pid : ℕ

infixl 5 ◌>>=◌
abbrev pub ◌>>=◌ : {A B : Type 0} → Option A → (A → Option B) → Option B
none >>= f = none
some a >>= f = f a

-- A count of 32 bits is not negative as an `int`.
unfoldable pub table_rows : Bytes → ℕ → Option (Bytes × ℕ)
table_rows raw row_size =
    let counted = do
      claimed ← u32_at raw 0
      some (drop 4 raw, min claimed (length (drop 4 raw) / row_size))
    in if ltb (length raw) 4 then some ([], 0) else counted

-- `netPort(row[offset:])`.
abbrev pub net_port : Bytes → ℕ → Option ℕ
net_port row offset = be16 (drop offset row)

abbrev pub socket : Protocol → Bytes → ℕ → ℕ → WinSocket
socket protocol address port pid = record {
  protocol = protocol;
  address = address;
  port = port;
  pid = pid;
}

unfoldable pub tcp_row4 : Bytes → Option (Option WinSocket)
tcp_row4 row = do
  state ← u32_at row 0
  port ← net_port row 8
  pid ← u32_at row 20
  some (if state == mib_tcp_state_listen then some (socket tcp (slice row 4 8) port pid) else none)

unfoldable pub tcp_row6 : Bytes → Option (Option WinSocket)
tcp_row6 row = do
  state ← u32_at row 48
  port ← net_port row 20
  pid ← u32_at row 52
  some
      (if state == mib_tcp_state_listen then some (socket tcp6 (slice row 0 16) port pid) else none)

unfoldable pub udp_row4 : Bytes → Option (Option WinSocket)
udp_row4 row = do
  port ← net_port row 4
  pid ← u32_at row 8
  some (some (socket udp (slice row 0 4) port pid))

unfoldable pub udp_row6 : Bytes → Option (Option WinSocket)
udp_row6 row = do
  port ← net_port row 20
  pid ← u32_at row 24
  some (some (socket udp6 (slice row 0 16) port pid))

-- `rows[from:from+size]`.
unfoldable pub row_at : Bytes → ℕ → ℕ → Option Bytes
row_at rows from size =
    if ltb (length rows) (from + size) then none else some (slice rows from (from + size))

abbrev pub append_found : List WinSocket → Option WinSocket → List WinSocket
append_found out none = out
append_found out (some s) = out ++ (s ∷ [])

module _ (read_row : Bytes → Option (Option WinSocket)) (size : ℕ) where
  -- The loop with `left` rows to go, from the row `i` on.
  unfoldable pub each_row : ℕ → ℕ → Bytes → List WinSocket → Option (List WinSocket)
  unfolding row_at
  each_row zero i rows out = some out
  each_row (suc left) i rows out = do
    row ← row_at rows (i * size) size
    found ← read_row row
    each_row left (suc i) rows (append_found out found)

  unfoldable pub parse_table : Bytes → Option (List WinSocket)
  unfolding each_row table_rows
  parse_table raw = do (rows, n) ← table_rows raw size; each_row n 0 rows []

abbrev pub parse_tcp_table4 : Bytes → Option (List WinSocket)
parse_tcp_table4 = parse_table tcp_row4 tcp_row4_size

abbrev pub parse_tcp_table6 : Bytes → Option (List WinSocket)
parse_tcp_table6 = parse_table tcp_row6 tcp_row6_size

abbrev pub parse_udp_table4 : Bytes → Option (List WinSocket)
parse_udp_table4 = parse_table udp_row4 udp_row4_size

abbrev pub parse_udp_table6 : Bytes → Option (List WinSocket)
parse_udp_table6 = parse_table udp_row6 udp_row6_size
