-- ===== src/Network/IpNeighbor/Address.antt =====
-- Which neighbors are used, and by which address (`is_valid_ip`, `get_socket_address`).
use tansa.Prelude.{
  ℕ, ◌%◌, ◌≤◌, ◌≡◌, ◌≢◌, ◌↔◌, refl, Bool, true, false, arith, not, ◌&&◌, ◌==◌, if◌then◌else◌,
}
use tansa.Net.{
  Ipv6Addr, ipv6, SocketAddrV6, socket_addr_v6, is_loopback, is_unspecified, is_multicast,
}
use tansa.Network.IpNeighbor.Defs.{IpNeighbor, get_socket_address, is_valid_ip}

-- The address at which a neighbor should be reached: its own, at the given port. The scope is the
-- index of the network interface if the address lies in fe80::/16, and 0 otherwise.
abbrev pub neighbor_address : IpNeighbor → ℕ → SocketAddrV6
neighbor_address n port =
    socket_addr_v6 n.address port 0
      (if n.address.s0 % 65536 == 0xfe80 then n.network_interface_index else 0)

-- That is where the code reaches it.
pub get_socket_address_lem :
    (n : IpNeighbor) (port : ℕ) → get_socket_address n port ≡ neighbor_address n port
unfolding get_socket_address
get_socket_address_lem n port = ground arith

is_unspecified_iff : (a : Ipv6Addr) → (is_unspecified a ≡ true) ↔ (a ≡ ipv6 0 0 0 0 0 0 0 0)
unfolding is_unspecified
is_unspecified_iff a = (λ h. ground arith, λ e. ground arith)

is_loopback_iff : (a : Ipv6Addr) → (is_loopback a ≡ true) ↔ (a ≡ ipv6 0 0 0 0 0 0 0 1)
unfolding is_loopback
is_loopback_iff a = (λ h. ground arith, λ e. ground arith)

is_multicast_iff : (a : Ipv6Addr) → (is_multicast a ≡ true) ↔ (0xff00 ≤ a.s0 % 65536)
unfolding is_multicast
is_multicast_iff a = (λ e. ground arith, λ e. ground arith)

neither :
    (x y z : Bool) {X Y Z : Type 0}
    → (x ≡ true) ↔ X
    → (y ≡ true) ↔ Y
    → (z ≡ true) ↔ Z
    → ((not x && not y && not z) ≡ true) ↔ (¬ Y × ¬ X × ¬ Z)
neither true y z p q r = (λ h. cc, λ h. absurd (h.1 (p.0 refl)))
neither false true z p q r = (λ h. cc, λ h. absurd (h.0 (q.0 refl)))
neither false false true p q r = (λ h. cc, λ h. absurd (h.2 (r.0 refl)))
neither false false false p q r =
    (λ h. ((λ y. cc (q.1 y)), (λ x. cc (p.1 x)), (λ z. cc (r.1 z))), λ h. refl)

-- A unicast address other than `::` and `::1`: one below ff00::, where a segment has 16 bits.
abbrev pub IsUsable : Ipv6Addr → Type 0
IsUsable a = (a ≢ ipv6 0 0 0 0 0 0 0 0) × (a ≢ ipv6 0 0 0 0 0 0 0 1) × ¬ (0xff00 ≤ a.s0 % 65536)

-- The valid addresses are the usable ones.
pub is_valid_ip_iff : (a : Ipv6Addr) → (is_valid_ip a ≡ true) ↔ IsUsable a
unfolding is_valid_ip
is_valid_ip_iff a =
    neither (is_loopback a) (is_unspecified a) (is_multicast a) (is_loopback_iff a)
      (is_unspecified_iff a) (is_multicast_iff a)
