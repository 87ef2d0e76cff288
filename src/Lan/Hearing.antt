-- ===== src/Lan/Hearing.antt =====
-- A scanner in a network can hear of every server, at any time.
use mathlib.Core.List.{Memᴰ}
use mathlib.Core.List.Memᴰ
use tansa.Prelude.{ℕ, ◌<◌, ◌≡◌, ◌++◌, refl, sym, subst, Bool, List, [], map, Result, ok}
use tansa.Async.{Async}
use tansa.Async.Execute.{Answer, execute, execute-ok}
use tansa.Async.Futures.{FuturesUtil, IsLawful}
use tansa.Async.Runs.{Trace}
use tansa.Net.{SocketAddrV6, set_port, socket_addr_v6, get_discovery_ip}
use tansa.Os.{os, Handle}
use tansa.Os.Works.{Works}
use tansa.Protocol.{Bytes, DiscoveryPacket, Prost, IsWireFormat, WritesPayload, from_response}
use tansa.Protocol.Decoder.{decode-encode_to_vec}
use tansa.Network.Datagrams.{Datagram, datagram, datagrams}
use tansa.Network.UdpSender.{tokio_udp_sender}
use tansa.Network.IpNeighbor.{IpNeighborScanner, CsvError}
use tansa.Network.IpNeighbor.Linux.{Readers}
use tansa.Network.IpNeighbor.Windows.{NetNeighbor}
use tansa.Network.IpNeighbor.Select.{scanners}
use tansa.Network.IpNeighbor.Selected.{Chosen}
use tansa.Network.IpNeighbor.Quiet.{Chosen-IsQuiet}
use tansa.Network.IpNeighbor.Robust.{parsable, Chosen-IsRobust}
use tansa.ResponseCollector.{Channel}
use tansa.Scanner.Extract.{extract_service_lem}
use tansa.Server.{announce, ServeError}
use tansa.Server.Announce.{announce-ok}
use tansa.Server.Delivery.{announce-IsRobust, Announced-datagrams}
use tansa.Service.{Service}
use tansa.Lan.{Host, service_of_host, Lan, announces, hears, Reach, here, next}

module _ (F : FuturesUtil os) (L : IsLawful F) (P : Prost DiscoveryPacket) (w : IsWireFormat P)
    (written : WritesPayload P) (C : Channel Service) (debug : Bool) (hosts : List Host)
    (home : SocketAddrV6) (collector_port discovery_port : ℕ) where
  abbrev Network : Type 0
  Network = Lan F P C debug hosts home collector_port discovery_port

  abbrev Leads : Network → Network → Type 0
  Leads = Reach F P C debug hosts home collector_port discovery_port

  abbrev group : SocketAddrV6
  group = socket_addr_v6 get_discovery_ip discovery_port 0 0

  abbrev announcing : Host → IpNeighborScanner os → Async os (Result (Unit {0}) ServeError)
  announcing host scanner = announce F P group host.service_port (tokio_udp_sender debug) scanner

  -- The datagram to the group.
  abbrev to_group : Host → Datagram
  to_group host =
      datagram (P.encode_to_vec (from_response (record { service_port = host.service_port }))) group

  -- In a network of a scanner and some servers, at any time, and whatever has failed so far: a server
  -- with a service port below 65536, on a system of which the calls succeed from then on, and where
  -- the commands of the scanners for neighbors print what can be parsed, can announce its service,
  -- and the scanner hear of it. The announcement is what the server sends on this system.
  pub Reach-hears :
      (read : Bytes → List (Result NetNeighbor CsvError)) (R : Readers) (prints : Handle → Bytes)
      (scanner : IpNeighborScanner os) (choosing : Trace os)
      → Chosen (scanners read R) choosing scanner
      → (answer : Answer os)
      → ((past : Trace os) (c : os.Call) → Works (parsable read R prints) c (answer past c))
      → (host : Host) → Memᴰ host hosts
      → host.service_port < 65536
      → (x : Network)
      → (y : Network) × Leads x y
        × Memᴰ (service_of_host host) y.heard
        × (y.announcements
            ≡ x.announcements
              ++ map (λ d. (host, d)) (datagrams (execute answer [] (announcing host scanner)).0))
  Reach-hears read R prints scanner choosing c answer works host m small x =
      let quiet = Chosen-IsQuiet read R c in
      let done =
        execute-ok (Works (parsable read R prints)) (announcing host scanner)
          (announce-IsRobust F L debug P group host.service_port scanner (parsable read R prints)
            (Chosen-IsRobust read R prints c))
          answer works [] in
      let sent =
        Announced-datagrams F L debug P group host.service_port scanner quiet
          (announce-ok F L (tokio_udp_sender debug) P group host.service_port scanner done.1) in
      let there = Memᴰ.append_right x.announcements (
        subst (λ l. Memᴰ {A = Host × Datagram} (host, to_group host) (map (λ d. (host, d)) l))
          (sym sent) (Memᴰ.head refl)) in
      let announced = next here (announces host scanner (ok tt) m quiet done.1) in
      let packet = from_response (record { service_port = host.service_port }) in
      let heard = next announced (
        hears host (to_group host) packet [] 0 (service_of_host host) there
          ((decode-encode_to_vec P w written).1 (record { service_port = host.service_port }))
          ((extract_service_lem (set_port host.address 0)).0 host.service_port small)) in
      (_, heard, Memᴰ.append_right x.heard (Memᴰ.head refl), refl)
