-- ===== src/Network/IpNeighbor/Defs.antt =====
-- The neighbors, the trait `IpNeighborScanner` and the errors of main/src/network/ip_neighbor/mod.rs.
use tansa.Prelude.{
  ℕ, Bool, true, not, ◌&&◌, List, [], ◌∷◌, Result, ok, ◌and_then◌, map_result, if◌then◌else◌,
}
use tansa.Async.{Signature, Async, done}
use tansa.Net.{
  Ipv6Addr, octets, starts_with, is_loopback, is_unspecified, is_multicast, SocketAddrV6,
  socket_addr_v6,
}
use tansa.Process.{ProcessError}

-- Errors of the crates `csv` and `serde_json`; the code only passes them on.
pub record CsvError : Type 0 where
  pub code : ℕ

pub record JsonError : Type 0 where
  pub code : ℕ

pub data IpNeighborScanError : Type 0 where
  child_process : ProcessError → IpNeighborScanError
  parse_csv : CsvError → IpNeighborScanError
  parse_json : JsonError → IpNeighborScanError

pub record IpNeighbor : Type 0 where
  pub address : Ipv6Addr
  pub network_interface_index : ℕ

unfoldable pub is_link_local : IpNeighbor → Bool
unfolding starts_with
is_link_local n = starts_with (octets n.address) (0xFE ∷ 0x80 ∷ [])

unfoldable pub get_socket_address : IpNeighbor → ℕ → SocketAddrV6
unfolding is_link_local
get_socket_address n port =
    let scope = if is_link_local n then n.network_interface_index else 0 in
    socket_addr_v6 n.address port 0 scope

unfoldable pub is_valid_ip : Ipv6Addr → Bool
unfolding is_loopback is_unspecified is_multicast
is_valid_ip ip = not (is_loopback ip) && not (is_unspecified ip) && not (is_multicast ip)

pub record IpNeighborScanner (S : Signature) : Type 0 where
  pub supports_current_operating_system : Async S Bool
  pub scan : Async S (Result (List IpNeighbor) IpNeighborScanError)

-- `DummyIpNeighborScanner`
abbrev pub dummy_scanner : {S : Signature} → IpNeighborScanner S
dummy_scanner = record { supports_current_operating_system = done true; scan = done (ok []) }

-- `.collect::<Result<Vec<_>, _>>()` of the standard library: the first error, or all the values.
abbrev pub collect_results : {A E : Type 0} → List (Result A E) → Result (List A) E
collect_results [] = ok []
collect_results (r ∷ l) = r and_then λ a. map_result (λ more. a ∷ more) (collect_results l)

-- `Iterator::filter` of the standard library.
abbrev pub keep : {A : Type 0} → (A → Bool) → List A → List A
keep p [] = []
keep p (a ∷ l) = if p a then a ∷ keep p l else keep p l
