-- ===== src/Service/Backend.antt =====
-- internal/service/expose.go: the container behind a forwarded port. `net.ParseIP` with `Equal` is a
-- parameter. Of a container's service only the endpoints are read here.
pub mod Unambiguous
use swinv.Prelude.{
  ℕ, Bool, true, false, not, ◌||◌, ◌&&◌, List, [], ◌∷◌, Option, none, some, Bytes, codes, bytes_eq,
  if◌then◌else◌, ◌==◌, trim_suffix, is_empty, take,
}
use swinv.Prelude.Sort.{any, first_with}

pub record Endpoint : Type 0 where
  pub protocol : Bytes
  pub address : Bytes
  pub port : ℕ
  pub inode : ℕ
  pub net_ns : Bytes

pub record Container : Type 0 where
  pub id : Bytes
  pub runtime : Bytes
  pub root_pid : ℕ
  pub addresses : List Bytes
  pub services : List (List Endpoint)

pub record Publish : Type 0 where
  pub host_address : Bytes
  pub host_port : ℕ
  pub protocol : Bytes
  pub container_id : Bytes
  pub container_port : ℕ
  pub via : Bytes

-- The address of a publish takes in the endpoint's.
unfoldable pub binds : Bytes → Bytes → Bool
unfolding bytes_eq
binds host address =
    is_empty host
    || bytes_eq host (codes "0.0.0.0")
    || bytes_eq host (codes "::")
    || bytes_eq host address

-- The loop of `matchBackend` over ports: `ambiguous` is its early return.
pub data Search : Type 0 where
  ambiguous : Search
  so_far : Option Container → Search

unfoldable pub met : Container → Search → Search
unfolding bytes_eq
met c ambiguous = ambiguous
met c (so_far none) = so_far (some c)
met c (so_far (some m)) = if bytes_eq m.id c.id then so_far (some c) else ambiguous

unfoldable pub search_endpoints : ℕ → Container → List Endpoint → Search → Search
unfolding met
search_endpoints port c [] s = s
search_endpoints port c (e ∷ endpoints) s =
    search_endpoints port c endpoints (if e.port == port then met c s else s)

unfoldable pub search_services : ℕ → Container → List (List Endpoint) → Search → Search
unfolding search_endpoints
search_services port c [] s = s
search_services port c (endpoints ∷ services) s =
    search_services port c services (search_endpoints port c endpoints s)

unfoldable pub search_containers : ℕ → List Container → Search → Search
unfolding search_services
search_containers port [] s = s
search_containers port (c ∷ containers) s =
    search_containers port containers (search_services port c c.services s)

abbrev pub found_of : Search → Option Container
found_of ambiguous = none
found_of (so_far m) = m

abbrev pub or_search : Option Container → Option Container → Option Container
or_search none later = later
or_search (some c) later = some c

module _ (same_ip : Bytes → Bytes → Bool) where
  abbrev pub has_address : Bytes → Container → Bool
  has_address address c = any (same_ip address) c.addresses

  unfoldable pub match_backend : List Container → Bytes → ℕ → Option Container
  unfolding search_containers
  match_backend containers address port =
      or_search (first_with (has_address address) containers)
        (found_of (search_containers port containers (so_far none)))

-- `transportOf`.
unfoldable pub transport_of : Bytes → Bytes
unfolding bytes_eq
transport_of p =
    if bytes_eq p (codes "tcp") || bytes_eq p (codes "tcp6") then codes "tcp" else codes "udp"

unfoldable pub publish_for : List Publish → Endpoint → Option Publish
unfolding binds transport_of bytes_eq
publish_for [] e = none
publish_for (p ∷ publishes) e =
    let later = publish_for publishes e in
    if not (p.host_port == e.port) || not (bytes_eq p.protocol (transport_of e.protocol))
    then later
    else if binds p.host_address e.address
    then some p
    else later

unfoldable pub short_id : Bytes → Bytes
short_id id = take 12 id
