-- ===== src/Net.antt =====
-- The addresses of the Rust standard library (`std::net`) and main/src/lib.rs `get_discovery_ip`.
-- A `u8`, `u16` or `u32` is a number; where a result depends on its range, that is a hypothesis.
pub mod Display
pub mod Texts
use tansa.Prelude.{
  ℕ, ◌/◌, ◌%◌, ◌≤◌, ◌<◌, ◌≡◌, arith, Bool, ◌&&◌, Option, none, some, List, [], ◌∷◌, ltb, ◌==◌,
  if◌then◌else◌,
}

-- The eight segments, each a `u16`.
pub record Ipv6Addr : Type 0 where
  pub s0 : ℕ
  pub s1 : ℕ
  pub s2 : ℕ
  pub s3 : ℕ
  pub s4 : ℕ
  pub s5 : ℕ
  pub s6 : ℕ
  pub s7 : ℕ

abbrev pub ipv6 : ℕ → ℕ → ℕ → ℕ → ℕ → ℕ → ℕ → ℕ → Ipv6Addr
ipv6 a b c d e f g h = record { s0 = a; s1 = b; s2 = c; s3 = d; s4 = e; s5 = f; s6 = g; s7 = h }

abbrev pub segments : Ipv6Addr → List ℕ
segments a = a.s0 ∷ a.s1 ∷ a.s2 ∷ a.s3 ∷ a.s4 ∷ a.s5 ∷ a.s6 ∷ a.s7 ∷ []

-- The two bytes of a segment, the high one first.
abbrev high_byte : ℕ → ℕ
high_byte s = s / 256 % 256

abbrev low_byte : ℕ → ℕ
low_byte s = s % 256

-- Each segment in network byte order.
abbrev segment_octets : List ℕ → List ℕ
segment_octets [] = []
segment_octets (s ∷ l) = high_byte s ∷ low_byte s ∷ segment_octets l

abbrev pub octets : Ipv6Addr → List ℕ
octets a = segment_octets (segments a)

abbrev pub is_zero : List ℕ → Bool
is_zero [] = Bool.true
is_zero (s ∷ l) = s == 0 && is_zero l

-- `::`
unfoldable pub is_unspecified : Ipv6Addr → Bool
is_unspecified a = is_zero (segments a)

-- `::1`
unfoldable pub is_loopback : Ipv6Addr → Bool
is_loopback a = is_zero (a.s0 ∷ a.s1 ∷ a.s2 ∷ a.s3 ∷ a.s4 ∷ a.s5 ∷ a.s6 ∷ []) && a.s7 == 1

-- `ff00::/8`
unfoldable pub is_multicast : Ipv6Addr → Bool
is_multicast a = high_byte a.s0 == 0xff

-- `[u8]::starts_with`
unfoldable pub starts_with : List ℕ → List ℕ → Bool
starts_with l [] = Bool.true
starts_with [] (x ∷ p) = Bool.false
starts_with (y ∷ l) (x ∷ p) = y == x && starts_with l p

pub record SocketAddrV6 : Type 0 where
  pub ip : Ipv6Addr
  pub port : ℕ
  pub flowinfo : ℕ
  pub scope_id : ℕ

abbrev pub socket_addr_v6 : Ipv6Addr → ℕ → ℕ → ℕ → SocketAddrV6
socket_addr_v6 a p f s = record { ip = a; port = p; flowinfo = f; scope_id = s }

abbrev pub set_port : SocketAddrV6 → ℕ → SocketAddrV6
set_port a p = record a { port = p }

-- The four octets as one number.
pub record SocketAddrV4 : Type 0 where
  pub ip : ℕ
  pub port : ℕ

pub data SocketAddr : Type 0 where
  v4 : SocketAddrV4 → SocketAddr
  v6 : SocketAddrV6 → SocketAddr

-- `SocketAddr::port`
abbrev pub port_of : SocketAddr → ℕ
port_of (v4 a) = a.port
port_of (v6 a) = a.port

-- `u16::try_from` of a `u32`
abbrev pub try_into_u16 : ℕ → Option ℕ
try_into_u16 n = if ltb n 65536 then some n else none

-- The multicast address `FF05::F329:58AF`.
unfoldable pub get_discovery_ip : Ipv6Addr
get_discovery_ip = ipv6 0xff05 0 0 0 0 0 0xf329 0x58af

pub try_into_u16-eq_some : (n : ℕ) → n < 65536 → try_into_u16 n ≡ some n
try_into_u16-eq_some n h = ground arith

pub try_into_u16-eq_none : (n : ℕ) → 65536 ≤ n → try_into_u16 n ≡ none
try_into_u16-eq_none n h = ground arith
