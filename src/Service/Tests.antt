-- ===== src/Service/Tests.antt =====
-- internal/service on concrete inputs: a TCP table of three rows, cgroup paths, and three exposed sockets.
use swinv.Prelude.{
  ℕ, ◌≡◌, refl, none, true, List, [], ◌∷◌, ◌++◌, Bytes, codes, some, length, All, arith, cut_prefix,
  has_suffix, trim_suffix, bytes_eq,
}
use swinv.Prelude.Space.{split_at}
use swinv.Service.Backend.{Container, match_backend}
use swinv.Service.Backend.Unambiguous.{listens, AllCalled, match_backend_unambiguous}
use swinv.Prelude.Sort.{any}
use swinv.Service.Cgroup.{is_hex, container_id, after_prefix, take_segment, unit_from_cgroup}
use swinv.Service.Cgroup.Ids.{IsId}
use swinv.Service.Exposure.{Exposure, Confidence, high, low, merge_rows}
use swinv.Service.Exposure.Endpoints.{Distinct, has_endpoint, total_processes, merge_rows-Distinct}
use swinv.Prelude.Binary.{put32}
use swinv.Service.SocketTable.{
  parse_tcp_table4, parse_tcp_table6, parse_udp_table4, parse_udp_table6,
}
use swinv.Service.SocketTable.Rows.{IsRead, parse_tables-IsRead}
use swinv.Service.SocketTable.Listening.{
  Quad, TcpRow, IsTcpRow, rows_bytes, listening, parse_tcp_table4-listening,
}

abbrev quad : ℕ → ℕ → ℕ → ℕ → Quad
quad a b c d = record { a = a; b = b; c = c; d = d }

abbrev row : ℕ → ℕ → TcpRow
row state port = record {
  state = state;
  local_address = quad 127 0 0 1;
  port = port;
  undefined1 = 171;
  undefined2 = 205;
  remote_address = quad 0 0 0 0;
  remote_port = quad 0 0 0 0;
  pid = 4242;
}

abbrev rows : List TcpRow
rows = row 2 443 ∷ row 5 50000 ∷ row 2 65535 ∷ []

rows-IsTcpRow : All IsTcpRow rows
rows-IsTcpRow = (
  record { state = omega arith; port = omega arith; pid = omega arith },
  (
    record { state = omega arith; port = omega arith; pid = omega arith },
    (record { state = omega arith; port = omega arith; pid = omega arith }, tt),
  ),
)

abbrev truncated_table : Bytes
truncated_table = put32 1000000 ++ rows_bytes rows

parse_tables-IsRead_example :
    IsRead (parse_tcp_table4 truncated_table)
    × IsRead (parse_tcp_table6 truncated_table)
    × IsRead (parse_udp_table4 truncated_table)
    × IsRead (parse_udp_table6 truncated_table)
parse_tables-IsRead_example = parse_tables-IsRead truncated_table

parse_tcp_table4-listening_example :
    parse_tcp_table4 (put32 3 ++ (rows_bytes rows ++ (9 ∷ 9 ∷ []))) ≡ some (listening rows)
parse_tcp_table4-listening_example =
    parse_tcp_table4-listening rows (9 ∷ 9 ∷ []) rows-IsTcpRow (omega arith)

abbrev unit_id : Bytes
unit_id = codes "9d5a98d0dc04ab"

unit_id-IsId : IsId unit_id
unfolding is_hex
unit_id-IsId = (refl, omega arith)

-- The last unit of a user session is the one that runs.
session_unit :
    unit_from_cgroup (codes "0::/user.slice/user@1000.service/app.slice/foo.service" ∷ [])
    ≡ (codes "foo.service", [])
unfolding unit_from_cgroup take_segment container_id after_prefix is_hex cut_prefix has_suffix
    trim_suffix bytes_eq split_at
session_unit = refl

abbrev exposed : Bytes → Confidence → List Bytes → Exposure Unit
exposed address confidence components = record {
  address = address;
  port = 22;
  protocol = codes "tcp";
  confidence = confidence;
  components = components;
  os_component = true;
  processes = 0;
  detail = tt;
}

abbrev exposures : List (Exposure Unit)
exposures =
    exposed (codes "0.0.0.0") low []
    ∷ exposed (codes "::") low []
    ∷ exposed (codes "0.0.0.0") high (codes "openssh" ∷ [])
    ∷ []

merge_rows-Distinct_example :
    Distinct (merge_rows [] exposures)
    × All (λ r. has_endpoint r (merge_rows [] exposures) ≡ true) exposures
    × (total_processes (merge_rows [] exposures) ≡ length exposures)
merge_rows-Distinct_example = merge_rows-Distinct exposures

abbrev web : Container
web = record {
  id = codes "a";
  runtime = codes "docker";
  root_pid = 7;
  addresses = codes "172.17.0.2" ∷ [];
  services =
      (record {
        protocol = codes "tcp";
        address = codes "0.0.0.0";
        port = 80;
        inode = 1;
        net_ns = [];
      }
        ∷ [])
      ∷ [];
}

abbrev database : Container
database = record web { id = codes "b"; services = [] }

match_backend_unambiguous_example :
    ((c : Container)
      → match_backend bytes_eq (database ∷ web ∷ []) (codes "10.0.0.1") 80 ≡ some c
      → (listens 80 c ≡ true) × AllCalled 80 c.id (database ∷ web ∷ []))
    × ((k : Bytes)
        → any (listens 80) (database ∷ web ∷ []) ≡ true
        → AllCalled 80 k (database ∷ web ∷ [])
        → (c : Container) × (match_backend bytes_eq (database ∷ web ∷ []) (codes "10.0.0.1") 80
            ≡ some c))
unfolding bytes_eq
match_backend_unambiguous_example =
    match_backend_unambiguous bytes_eq (database ∷ web ∷ []) (codes "10.0.0.1") 80 refl

match_run : match_backend bytes_eq (database ∷ web ∷ []) (codes "10.0.0.1") 80 ≡ some web
unfolding match_backend bytes_eq
match_run = refl

match_ambiguous :
    match_backend bytes_eq (record web { id = codes "c" } ∷ web ∷ []) (codes "10.0.0.1") 80 ≡ none
unfolding match_backend bytes_eq
match_ambiguous = refl
