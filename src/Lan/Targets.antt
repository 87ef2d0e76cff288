-- ===== src/Lan/Targets.antt =====
-- Where the datagrams of a scanner and of a server go, also when sending fails half-way:
-- `send_requests` of main/src/scanner.rs and `announce` of main/src/server.rs.
use mathlib.Core.List.{Memᴰ}
use tansa.Prelude.{All, ℕ, ◌≡◌, refl, sym, subst, Bool, List, [], ◌∷◌, Result}
use tansa.Async.{Async}
use tansa.Async.Runs.{Trace, Run}
use tansa.Async.Futures.{FuturesUtil, IsLawful}
use tansa.Net.{ipv6, SocketAddrV6, socket_addr_v6, get_discovery_ip}
use tansa.Os.{os}
use tansa.Protocol.{Bytes, Request, DiscoveryPacket, from_request, from_response, Prost}
use tansa.Network.UdpSender.{tokio_udp_sender}
use tansa.Network.Datagrams.{Datagram, datagram, datagrams}
use tansa.Network.IpNeighbor.{
  IpNeighbor, IpNeighborScanner, IpNeighborScanError, get_socket_address, CsvError,
}
use tansa.Network.IpNeighbor.Address.{
  IsUsable, neighbor_address, get_socket_address_lem, is_valid_ip_iff,
}
use tansa.Network.IpNeighbor.Scans.{FoundWithin}
use tansa.Network.IpNeighbor.Linux.{Readers}
use tansa.Network.IpNeighbor.Windows.{NetNeighbor}
use tansa.Network.IpNeighbor.Select.{scanners}
use tansa.Network.IpNeighbor.Selected.{Chosen}
use tansa.Network.IpNeighbor.Quiet.{Chosen-IsQuiet}
use tansa.Network.IpNeighbor.Valid.{IsValid, Chosen-AllValid}
use tansa.Scanner.{send_requests, ScanError}
use tansa.Scanner.Sent.{send_requests-All}
use tansa.Server.{announce, ServeError}
use tansa.Server.Sent.{announce-All}

-- `[ff05::f329:58af]` at the port, or a neighbor with a usable address, found by a scan within the
-- run, at the port.
pub data IsTarget (scan : Async os (Result (List IpNeighbor) IpNeighborScanError)) (t : Trace os)
    (port : ℕ) : SocketAddrV6 → Type 0 where
  group : IsTarget scan t port (socket_addr_v6 (ipv6 0xff05 0 0 0 0 0 0xf329 0x58af) port 0 0)
  neighbor :
      (found : List IpNeighbor)
      → FoundWithin scan t found
      → (n : IpNeighbor) → Memᴰ n found
      → IsUsable n.address
      → IsTarget scan t port (neighbor_address n port)

pub record IsSent (scan : Async os (Result (List IpNeighbor) IpNeighborScanError)) (t : Trace os)
    (bytes : Bytes) (port : ℕ) (d : Datagram) : Type 0 where
  pub carries : d.bytes ≡ bytes
  pub to : IsTarget scan t port d.address

module _ (F : FuturesUtil os) (L : IsLawful F) (P : Prost DiscoveryPacket) (debug : Bool)
    (scanner : IpNeighborScanner os) (port : ℕ) where
  -- A run of the requests or of an announcement, with any result, and the packet that it is to send.
  pub data Sending : Bytes → Trace os → Type 0 where
    requests :
        (request : Request) {t : Trace os} {r : Result (Unit {0}) ScanError}
        → Run (send_requests P (tokio_udp_sender debug) scanner request port) t r
        → Sending (P.encode_to_vec (from_request request)) t
    announcement :
        (service_port : ℕ) {t : Trace os} {r : Result (Unit {0}) ServeError}
        → Run
            (announce F P
              (socket_addr_v6 get_discovery_ip port 0 0)
              service_port
              (tokio_udp_sender debug)
              scanner)
            t
            r
        → Sending (P.encode_to_vec (from_response (record { service_port = service_port }))) t

  abbrev Sent : Trace os → Bytes → Datagram → Type 0
  Sent t bytes d = IsSent scanner.scan t bytes port d

  to_found :
      (t : Trace os) (bytes : Bytes) (found : List IpNeighbor)
      → FoundWithin scanner.scan t found
      → (l : List IpNeighbor) → ((n : IpNeighbor) → Memᴰ n l → Memᴰ n found)
      → All IsValid l
      → All (λ n. Sent t bytes (datagram bytes (get_socket_address n port))) l
  to_found t bytes found w [] among h = tt
  to_found t bytes found w (n ∷ l) among h = (
    record {
      carries = refl;
      to =
          subst (IsTarget scanner.scan t port) (sym (get_socket_address_lem n port))
            (neighbor found w n (among n (Memᴰ.head refl)) ((is_valid_ip_iff n.address).0 h.0));
    },
    to_found t bytes found w l (λ m i. among m (Memᴰ.tail i)) h.1,
  )

  to_group :
      (t : Trace os) (bytes : Bytes)
      → Sent t bytes (datagram bytes (socket_addr_v6 get_discovery_ip port 0 0))
  unfolding get_discovery_ip
  to_group t bytes = record { carries = refl; to = group }

  -- With a scanner for neighbors that was chosen, whatever becomes of the requests or of an
  -- announcement, also if it fails half-way: every datagram that it sent carries the packet, and goes
  -- at the discovery port to `[ff05::f329:58af]`, or to a neighbor that a scan within this run
  -- found, of which the address is unicast and neither `::` nor `::1`. The scope of a neighbor in
  -- fe80::/16 is the index of its network interface, any other scope is 0.
  pub Sending-AllSent :
      (read : Bytes → List (Result NetNeighbor CsvError)) (R : Readers) (choosing : Trace os)
      → Chosen (scanners read R) choosing scanner
      → (bytes : Bytes) (t : Trace os) → Sending bytes t
      → All (IsSent scanner.scan t bytes port) (datagrams t)
  Sending-AllSent read R choosing c bytes t (requests request q) =
      send_requests-All debug (Sent t bytes) P scanner request port (Chosen-IsQuiet read R c)
        (to_group t bytes)
        (λ found w.
          to_found t bytes found w found (λ n i. i) (Chosen-AllValid read R c w.during found w.run))
        q
  Sending-AllSent read R choosing c bytes t (announcement service_port q) =
      announce-All debug (Sent t bytes) F L P scanner (socket_addr_v6 get_discovery_ip port 0 0)
        service_port (Chosen-IsQuiet read R c) (to_group t bytes)
        (λ found w.
          to_found t bytes found w found (λ n i. i) (Chosen-AllValid read R c w.during found w.run))
        q
