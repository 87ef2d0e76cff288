-- ===== src/Scanner/Working.antt =====
-- A scan on a system that works: `scan_internal` of main/src/scanner.rs with no error.
use mathlib.Core.List.{filter_map, Mem, mem-map, mem-filter_map, not-mem-nil}
use mathlib.Core.Logic.{∥∥₁_elim}
use mathlib.Core.Logic.Or
use mathlib.Core.HLevel.{⊥_prop}
use tansa.Prelude.{
  ℕ, ◌≡◌, ◌≢◌, subst, Bool, Option, some, none, List, map, Result, ok, err, map_error,
}
use tansa.Async.Runs.{Trace, Run}
use tansa.Async.Stream.{Sight, items, calls, Flows}
use tansa.Async.Shuffle.{Merges, mem_merged}
use tansa.Async.Futures.{FuturesUtil, IsLawful}
use tansa.Async.Execute.{AllGood, no_error}
use tansa.Net.{get_discovery_ip, SocketAddrV6}
use tansa.Protocol.{Bytes, DiscoveryPacket, Prost, IoError, Request}
use tansa.Network.UdpSender.{UdpSender, tokio_udp_sender}
use tansa.Network.IpNeighbor.{IpNeighborScanner, CsvError}
use tansa.Network.IpNeighbor.Linux.{Readers}
use tansa.Network.IpNeighbor.Windows.{NetNeighbor}
use tansa.Network.IpNeighbor.Select.{scanners}
use tansa.Network.IpNeighbor.Selected.{Chosen}
use tansa.Network.IpNeighbor.Quiet.{Chosen-IsQuiet}
use tansa.Network.IpNeighbor.Robust.{parsable, Chosen-IsRobust}
use tansa.Packet.{DiscoveryPacketReceiver}
use tansa.ResponseCollector.{ResponseCollector}
use tansa.Service.{Service}
use tansa.StreamJoin.Items.{error_item}
use tansa.Scanner.{scan_internal, send_requests, ScanError, collect_response}
use tansa.Scanner.Extract.{announced, announced_service, as_item}
use tansa.Scanner.Discovered.{Discovered, scan_internal-Discovered}
use tansa.Scanner.Delivery.{Delivered, send_requests-Delivered, send_requests-IsRobust}
use tansa.Os.Reliable.{AllGood-Merges, NoErrors, ShowsNoErrors}
use tansa.Os.{os, Handle, TransportError}
use tansa.Os.Works.{Works}

collected_error :
    (r : Result Service TransportError) (l : List (Result Service TransportError)) (e : ScanError)
    → NoErrors l
    → map_error collect_response r ≡ err e
    → ¬ Mem r l
collected_error (ok s) l e clean p m = cc
collected_error (err x) l e clean p m = clean x m

no_service_error : (o : Option Service) (e : ScanError) → as_item o ≢ some (err e)
no_service_error (some s) e p = cc
no_service_error none e p = cc

received_error :
    (r : Result (DiscoveryPacket × SocketAddrV6) IoError)
    (l : List (Result (DiscoveryPacket × SocketAddrV6) IoError)) (e : ScanError)
    → NoErrors l
    → announced r ≡ some (err e)
    → ¬ Mem r l
unfolding announced
received_error (ok (packet, a)) l e clean p m =
    no_service_error (announced_service packet.payload a) e p
received_error (err x) l e clean p m = clean x m

module _ (F : FuturesUtil os) (L : IsLawful F) (debug : Bool) (P : Prost DiscoveryPacket) (port : ℕ)
    (collector : ResponseCollector os) (receiver : DiscoveryPacketReceiver os)
    (scanner : IpNeighborScanner os) where
  abbrev sender : UdpSender os
  sender = tokio_udp_sender debug

  abbrev request : Request
  request = record { response_collector_port = collector.get_port }

  -- No item is an error. The calls of the requests are among those of the scan, in order, and their
  -- datagrams are those to the multicast address and to each neighbor.
  pub record Succeeds (l : List (Sight os (Result Service ScanError))) : Type 0 where
    pub no_errors : NoErrors (items l)
    pub requesting : Trace os
    pub incoming : Trace os
    pub interleaved : Merges incoming requesting (calls l)
    pub delivered : Delivered debug P request port scanner requesting

  found-NoErrors :
      (responses : List (Result Service TransportError))
      (packets : List (Result (DiscoveryPacket × SocketAddrV6) IoError))
      {found : List (Result Service ScanError)}
      → NoErrors responses
      → NoErrors packets
      → Merges (map (map_error collect_response) responses) (filter_map announced packets) found
      → NoErrors found
  found-NoErrors responses packets clean quiet s e m =
      Or.elim ⊥_prop ((mem_merged s).0 m)
        (λ i. ∥∥₁_elim (mem-map.0 i) ⊥_prop (λ w. collected_error w.0 responses e clean w.2 w.1))
        (λ i.
          ∥∥₁_elim ((mem-filter_map announced packets).0 i) ⊥_prop
            (λ w. received_error w.0 packets e quiet w.2 w.1))

  succeeded :
      (l : List (Sight os (Result Service ScanError))) {found : List (Result Service ScanError)}
      {r : Result (Unit {0}) ScanError}
      → r ≡ ok tt
      → NoErrors found
      → Merges found (error_item (λ e. e) r) (items l)
      → NoErrors (items l)
  succeeded l {found} is clean s e m =
      Or.elim ⊥_prop
        ((mem_merged (subst (λ r. Merges found (error_item (λ e. e) r) (items l)) is s)).0 m)
        (clean e) not-mem-nil

  -- Whatever was discovered on a system that works.
  pub Discovered-Succeeds :
      (read : Bytes → List (Result NetNeighbor CsvError)) (R : Readers) (prints : Handle → Bytes)
      (choosing : Trace os)
      → Chosen (scanners read R) choosing scanner
      → ShowsNoErrors (parsable read R prints) collector.collect
      → ShowsNoErrors (parsable read R prints) (receiver.receive get_discovery_ip port)
      → {l : List (Sight os (Result Service ScanError))}
      → Discovered F L P port collector sender receiver scanner l
      → AllGood (Works (parsable read R prints)) (calls l)
      → Succeeds l
  Discovered-Succeeds read R prints choosing c collects receives {l} d good =
      let g = AllGood-Merges d.calls_merged good in
      let h = AllGood-Merges d.incoming_merged g.0 in
      let is =
        no_error (Works (parsable read R prints))
          (send_requests-IsRobust debug P request port scanner (parsable read R prints)
            (Chosen-IsRobust read R prints c))
          d.result g.1 d.requested in
      record {
        no_errors =
            succeeded l is
              (found-NoErrors (items d.responses) (items d.packets)
                (collects d.responses d.collected h.0) (receives d.packets d.received h.1)
                d.found_merged)
              d.items_merged;
        requesting = d.trace;
        incoming = d.incoming;
        interleaved = d.calls_merged;
        delivered = send_requests-Delivered debug P request port scanner (Chosen-IsQuiet read R c) (
            subst (λ r. Run (send_requests P sender scanner request port) d.trace r) is
              d.requested);
      }

  -- On a system that works, where the commands of the scanners for neighbors print what can be
  -- parsed, with a chosen scanner for neighbors, a port other than 0, and a collector and a
  -- receiver that show no error there, a scan shows no error. Its requests were sent meanwhile: one
  -- datagram to the multicast address, and then one to each neighbor found, in order, and no
  -- others.
  pub scan_internal-Succeeds :
      (read : Bytes → List (Result NetNeighbor CsvError)) (R : Readers) (prints : Handle → Bytes)
      (choosing : Trace os)
      → Chosen (scanners read R) choosing scanner
      → port ≢ 0
      → ShowsNoErrors (parsable read R prints) collector.collect
      → ShowsNoErrors (parsable read R prints) (receiver.receive get_discovery_ip port)
      → {l : List (Sight os (Result Service ScanError))}
      → Flows (scan_internal F P port collector sender receiver scanner) l
      → AllGood (Works (parsable read R prints)) (calls l)
      → Succeeds l
  scan_internal-Succeeds read R prints choosing c given collects receives q good =
      Discovered-Succeeds read R prints choosing c collects receives
        (scan_internal-Discovered F L P port collector sender receiver scanner given q) good
