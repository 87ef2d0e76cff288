-- ===== src/UnitTests/Neighbors.antt =====
-- The tests of main/src/network/ip_neighbor that run no command.
use Prim.Native.String.{String}
use tansa.Prelude.{ℕ, map, ◌≡◌, refl, List, [], ◌∷◌, Result, ok}
use tansa.Net.{ipv6, socket_addr_v6, SocketAddrV6, Ipv6Addr}
use tansa.Network.IpNeighbor.{
  IpNeighbor, get_socket_address, is_link_local, is_valid_ip, CsvError, IpNeighborScanError,
}
use tansa.Network.IpNeighbor.Linux
use tansa.Network.IpNeighbor.Linux.{Neighbor, Link, Readers}
use tansa.Network.IpNeighbor.Windows
use tansa.Network.IpNeighbor.Windows.{NetNeighbor}

-- `2001::1` and `FE80::1`
abbrev get_socket_address_unicast : SocketAddrV6
get_socket_address_unicast =
    get_socket_address
      (record { address = ipv6 0x2001 0 0 0 0 0 0 1; network_interface_index = 123 }) 10

abbrev get_socket_address_link_local : SocketAddrV6
get_socket_address_link_local =
    get_socket_address
      (record { address = ipv6 0xfe80 0 0 0 0 0 0 1; network_interface_index = 123 }) 10

unicast_address : get_socket_address_unicast ≡ socket_addr_v6 (ipv6 0x2001 0 0 0 0 0 0 1) 10 0 0
unfolding get_socket_address is_link_local
unicast_address = refl

link_local_address :
    get_socket_address_link_local ≡ socket_addr_v6 (ipv6 0xfe80 0 0 0 0 0 0 1) 10 0 123
unfolding get_socket_address is_link_local
link_local_address = refl

-- `fe80::N:abcd`
abbrev local : ℕ → Ipv6Addr
local n = ipv6 0xfe80 0 0 0 0 0 n 0xabcd

abbrev expected_neighbors : List IpNeighbor
expected_neighbors =
    record { address = local 1; network_interface_index = 1 }
    ∷ record { address = local 2; network_interface_index = 2 }
    ∷ []

-- A line of the output of `ip neighbor`, as csv reads it.
abbrev neighbor : Ipv6Addr → String → String → String → Neighbor
neighbor ip ifname mac state = record {
  ip = ip;
  dev = "dev";
  ifname = ifname;
  lladdr = "lladdr";
  mac = mac;
  router = "router";
  state = state;
}

abbrev ip_neighbor_output : List Neighbor
ip_neighbor_output =
    neighbor (local 1) "wlan0" "00:00:00:00:00:01" "REACHABLE"
    ∷ neighbor (local 2) "eth0" "00:00:00:00:00:02" "STALE"
    ∷ neighbor (local 3) "wlan2" "00:00:00:00:00:03" "STALE"
    ∷ neighbor (ipv6 0xff02 0 0 0 0 0 4 0xabcd) "wlan0" "00:00:00:00:00:04" "REACHABLE"
    ∷ neighbor (local 5) "wlan0" "00:00:00:00:00:05" "FAILED"
    ∷ []

abbrev ip_link_output : List Link
ip_link_output =
    record { ifindex = 1; ifname = "wlan0" } ∷ record { ifindex = 2; ifname = "eth0" } ∷ []

-- Readers that read the two outputs of the test as these.
abbrev readers : Readers
readers = record {
  read_neighbors = λ output. map ok ip_neighbor_output;
  read_links = λ output. ok ip_link_output;
}

abbrev linux_parse_output : Result (List IpNeighbor) IpNeighborScanError
linux_parse_output = Linux.parse_output readers [] []

linux_neighbors : linux_parse_output ≡ ok expected_neighbors
unfolding Linux.parse_output Linux.useful is_valid_ip
linux_neighbors = refl

-- The rows of the output of PowerShell, as csv reads them.
abbrev net_neighbors : List NetNeighbor
net_neighbors =
    record { interface_index = 1; ip_address = local 1; state = "Reachable" }
    ∷ record { interface_index = 2; ip_address = local 2; state = "Permanent" }
    ∷ record { interface_index = 3; ip_address = local 3; state = "Unreachable" }
    ∷ record {
      interface_index = 4;
      ip_address = ipv6 0xff02 0 0 0 0 0 4 0xabcd;
      state = "Reachable";
    }
    ∷ []

abbrev windows_parse_output : Result (List IpNeighbor) CsvError
windows_parse_output = Windows.parse_output (λ output. map ok net_neighbors) []

windows_neighbors : windows_parse_output ≡ ok expected_neighbors
unfolding Windows.parse_output Windows.useful is_valid_ip
windows_neighbors = refl
