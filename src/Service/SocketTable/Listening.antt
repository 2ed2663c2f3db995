-- ===== src/Service/SocketTable/Listening.antt =====
-- The TCP table written out in its documented layout and read back.
use swinv.Prelude.{
  ℕ, suc, ◌+◌, ◌-◌, ◌*◌, ◌/◌, ◌%◌, ◌<◌, ◌≡◌, refl, sym, ap, ◌∙◌, Bool, true, false, List, [], ◌∷◌,
  ◌++◌, append_assoc, append-nil, none, some, Bytes, ltb, ◌==◌, if◌then◌else◌, length,
  length-append, drop-length-append, take-length-append, All, arith,
}
use Prim.Native.Nat.{min}
use swinv.Prelude.Binary.{u32_at, slice, put32}
use swinv.Service.SocketTable.{
  WinSocket, socket, tcp, table_rows, tcp_row4, row_at, append_found, each_row, parse_table,
  parse_tcp_table4,
}

pub record Quad : Type 0 where
  pub a : ℕ
  pub b : ℕ
  pub c : ℕ
  pub d : ℕ

abbrev pub quad_bytes : Quad → Bytes
quad_bytes q = q.a ∷ q.b ∷ q.c ∷ q.d ∷ []

-- MIB_TCPROW_OWNER_PID; `undefined` is the high half of the local port's double word.
pub record TcpRow : Type 0 where
  pub state : ℕ
  pub local_address : Quad
  pub port : ℕ
  pub undefined1 : ℕ
  pub undefined2 : ℕ
  pub remote_address : Quad
  pub remote_port : Quad
  pub pid : ℕ

pub record IsTcpRow (r : TcpRow) : Type 0 where
  pub state : r.state < 4294967296
  pub port : r.port < 65536
  pub pid : r.pid < 4294967296

abbrev pub row_bytes : TcpRow → Bytes
row_bytes r =
    put32 r.state
    ++ quad_bytes r.local_address
    ++ ((r.port / 256) ∷ (r.port % 256) ∷ r.undefined1 ∷ r.undefined2 ∷ [])
    ++ quad_bytes r.remote_address
    ++ quad_bytes r.remote_port
    ++ put32 r.pid

abbrev pub rows_bytes : List TcpRow → Bytes
rows_bytes [] = []
rows_bytes (r ∷ rs) = row_bytes r ++ rows_bytes rs

abbrev pub socket_of : TcpRow → WinSocket
socket_of r = socket tcp (quad_bytes r.local_address) r.port r.pid

abbrev pub listening : List TcpRow → List WinSocket
listening [] = []
listening (r ∷ rs) = if r.state == 2 then socket_of r ∷ listening rs else listening rs

-- The four bytes that `put32` writes.
word :
    (n : ℕ)
    → n < 4294967296
    → n % 256 + 256 * (n / 256 % 256) + 65536 * (n / 65536 % 256 + 256 * (n / 16777216 % 256)) ≡ n
word n h = omega arith

tcp_row4-row_bytes :
    (r : TcpRow)
    → IsTcpRow r
    → tcp_row4 (row_bytes r) ≡ some (if r.state == 2 then some (socket_of r) else none)
unfolding tcp_row4 u32_at
tcp_row4-row_bytes r h =
    let port : 256 * (r.port / 256) + r.port % 256 ≡ r.port = omega arith in
    rw (word r.state h.state, word r.pid h.pid, port) refl

length-rows_bytes : (rs : List TcpRow) → length (rows_bytes rs) ≡ 24 * length rs
length-rows_bytes [] = omega arith
length-rows_bytes (r ∷ rs) = omega (arith, length-rows_bytes rs)

slice-append :
    (pre row rest : Bytes) (from : ℕ)
    → length pre ≡ from
    → slice (pre ++ (row ++ rest)) from (from + length row) ≡ row
slice-append pre row rest from h =
    let size : from + length row - from ≡ length row = omega arith in
    rw (size, sym h, drop-length-append pre (row ++ rest)) (take-length-append row rest)

append_row :
    (out : List WinSocket) (b : Bool) (s : WinSocket) (ss : List WinSocket)
    → append_found out (if b then some s else none) ++ ss ≡ out ++ (if b then s ∷ ss else ss)
append_row out true s ss = append_assoc out (s ∷ []) ss
append_row out false s ss = refl

each_row-rows_bytes :
    (rs : List TcpRow) (i : ℕ) (pre rest : Bytes) (out : List WinSocket)
    → All IsTcpRow rs
    → length pre ≡ i * 24
    → each_row tcp_row4 24 (length rs) i (pre ++ (rows_bytes rs ++ rest)) out
      ≡ some (out ++ listening rs)
unfolding each_row row_at
each_row-rows_bytes [] i pre rest out h at = ap some (sym (append-nil out))
each_row-rows_bytes (r ∷ rs) i pre rest out (h, hs) at =
    let inside : ltb (length (pre ++ (rows_bytes (r ∷ rs) ++ rest))) (i * 24 + 24) ≡ false =
      ground (arith, at, length-append pre (rows_bytes (r ∷ rs) ++ rest)) in
    let whole : slice (pre ++ (rows_bytes (r ∷ rs) ++ rest)) (i * 24) (i * 24 + 24) ≡ row_bytes r =
      slice-append pre (row_bytes r) (rows_bytes rs ++ rest) (i * 24) at in
    let further : pre ++ (rows_bytes (r ∷ rs) ++ rest)
        ≡ (pre ++ row_bytes r) ++ (rows_bytes rs ++ rest) =
      sym (append_assoc pre (row_bytes r) (rows_bytes rs ++ rest)) in
    let shown = append_row out (r.state == 2) (socket_of r) (listening rs) in
    rw (inside, whole, tcp_row4-row_bytes r h, further)
      (each_row-rows_bytes rs (suc i) (pre ++ row_bytes r) rest
          (append_found out (if r.state == 2 then some (socket_of r) else none)) hs
          (omega (arith, at, length-append pre (row_bytes r)))
        ∙ ap some shown)

-- A table that counts its rows and holds them in the documented layout, with anything behind them,
-- is read as the sockets of its listening rows, in their order and with every field in place.
pub parse_tcp_table4-listening :
    (rs : List TcpRow) (rest : Bytes)
    → All IsTcpRow rs
    → length rs < 4294967296
    → parse_tcp_table4 (put32 (length rs) ++ (rows_bytes rs ++ rest)) ≡ some (listening rs)
unfolding parse_table table_rows u32_at
parse_tcp_table4-listening rs rest h few =
    let all : min (length rs) (length (rows_bytes rs ++ rest) / 24) ≡ length rs =
      omega (arith, length-append (rows_bytes rs) rest, length-rows_bytes rs) in
    let long : ltb (length (put32 (length rs) ++ (rows_bytes rs ++ rest))) 4 ≡ false =
      ground arith in
    rw (long, word (length rs) few, all) (each_row-rows_bytes rs 0 [] rest [] h refl)
