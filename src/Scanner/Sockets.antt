-- ===== src/Scanner/Sockets.antt =====
-- `scan` of main/src/scanner.rs over the sockets of tokio and the gRPC server of tonic, on a system
-- that works.
use mathlib.Core.List.{Mem, mem-filter_map}
use mathlib.Core.Logic.{∥∥₁_elim}
use mathlib.Core.HLevel.{⊥_prop}
use tansa.Prelude.{ℕ, ◌≡◌, ◌≢◌, sym, ap, subst, ◌∙◌, Bool, some, List, ◌++◌, map, Result, ok, err}
use tansa.Async.Runs.{Trace}
use tansa.Async.Stream.{Stream, Sight, called, items, calls, Flows, items_behind, calls_behind}
use tansa.Async.Shuffle.{Merges}
use tansa.Async.Adaptors.{map-Sifted}
use tansa.Async.Futures.{FuturesUtil, IsLawful}
use tansa.Async.Execute.{AllGood, AllGood-append, good_event, IsRobust}
use tansa.Net.{get_discovery_ip}
use tansa.Protocol.{Bytes, DiscoveryPacket, Prost, IoError}
use tansa.Network.UdpReceiver.{UdpFramed, tokio_udp_receiver}
use tansa.Network.IpNeighbor.{IpNeighborScanner, CsvError}
use tansa.Network.IpNeighbor.Linux.{Readers}
use tansa.Network.IpNeighbor.Windows.{NetNeighbor}
use tansa.Network.IpNeighbor.Select.{scanners}
use tansa.Network.IpNeighbor.Selected.{Chosen}
use tansa.Network.IpNeighbor.Robust.{parsable}
use tansa.Packet.{packet_receiver, DiscoveryPacketReceiver}
use tansa.Packet.Sockets.{FramesWell, packet_receiver-ShowsNoErrors}
use tansa.ResponseCollector.{GrpcResponseCollector, grpc_collector, Router}
use tansa.ResponseCollector.New.{Listening, NotListening, not_bound, no_address, new-NewEnds}
use tansa.Service.{Service}
use tansa.StreamJoin.Working.{join-ShowsNoErrors}
use tansa.Scanner.{scan, ScanError}
use tansa.Scanner.Whole.{Scanned, started, not_started, scan-Scanned}
use tansa.Scanner.Discovered.{rejected, discovered}
use tansa.Scanner.Working.{Succeeds, Discovered-Succeeds}
use tansa.Os.{os, Handle, TransportError}
use tansa.Os.Reliable.{NoErrors, ShowsNoErrors, AllGood-Merges}
use tansa.Os.Works.{Outputs, Works}

-- On a system that works the collector is started.
pub NotListening-Works :
    (W : Outputs) {t : Trace os} {e : IoError} → NotListening t e → ¬ AllGood (Works W) t
NotListening-Works W (not_bound e) (good_event _ _ bad _) = bad
NotListening-Works W (no_address l e) (good_event _ _ _ (good_event _ _ bad _)) = bad

module _ (F : FuturesUtil os) (L : IsLawful F) where
  no_errors :
      (W : Outputs) (s : Stream os Service) → ShowsNoErrors W {E = TransportError} (F.map ok s)
  no_errors W s l q g e m =
      let w = map-Sifted F L ok s l q in
      ∥∥₁_elim
        ((mem-filter_map (λ a. some (ok a)) (items w.sights)).0
          (subst (Mem (err e)) w.same_items m))
        ⊥_prop (λ i. cc (i.2))

  -- A collector whose server makes no error makes none.
  grpc_collector-ShowsNoErrors :
      (W : Outputs) (c : GrpcResponseCollector)
      → IsRobust (Works W) (c.grpc c.tcp)
      → ShowsNoErrors W (grpc_collector F c).collect
  unfolding grpc_collector
  grpc_collector-ShowsNoErrors W c robust =
      join-ShowsNoErrors W F L (λ e. e) (λ e. e) (c.grpc c.tcp) (F.map ok c.response_receiver)
        robust (no_errors W c.response_receiver)

  module _ (P : Prost DiscoveryPacket) (framed : UdpFramed) (debug : Bool) (grpc : Router)
      (responses : Stream os Service) (read : Bytes → List (Result NetNeighbor CsvError))
      (R : Readers) (port : ℕ) where
    abbrev receiver : DiscoveryPacketReceiver os
    receiver = packet_receiver F P (tokio_udp_receiver F framed)

    -- A collector was started while a scanner for neighbors was chosen. After that no error is
    -- shown, and the datagrams of the requests are those to the multicast address and to each
    -- neighbor, with the port of this collector.
    pub record Scans (l : List (Sight os (Result Service ScanError))) : Type 0 where
      pub collector : GrpcResponseCollector
      pub scanner : IpNeighborScanner os
      pub starting : Trace os
      pub choosing : Trace os
      pub trace : Trace os
      pub rest : List (Sight os (Result Service ScanError))
      pub listening : Listening grpc responses starting collector
      pub chosen : Chosen (scanners read R) choosing scanner
      pub preparing : Merges starting choosing trace
      pub whole : l ≡ map called trace ++ rest
      pub no_errors : NoErrors (items l)
      pub succeeds : Succeeds F L debug P port (grpc_collector F collector) receiver scanner rest

    scanned-Scans :
        (prints : Handle → Bytes)
        → port ≢ 0
        → FramesWell (parsable read R prints) F L P framed
        → ((socket : Handle) → IsRobust (Works (parsable read R prints)) (grpc socket))
        → {l : List (Sight os (Result Service ScanError))}
        → Scanned F L P framed debug grpc responses read R port l
        → AllGood (Works (parsable read R prints)) (calls l)
        → Scans l
    scanned-Scans prints given well serves {l} (not_started e t u v q p m whole) good =
        let g = AllGood-append (Works (parsable read R prints)) v _ (
          subst (AllGood (Works (parsable read R prints))) (ap calls whole ∙ calls_behind v _)
            good) in
        absurd (
          NotListening-Works (parsable read R prints) (new-NewEnds grpc responses (err e) q)
            (AllGood-Merges m g.0).0)
    scanned-Scans prints given well serves {l}
          (started c s t u v rest listens chosen m whole (rejected z _ _)) good =
        absurd (given z)
    scanned-Scans prints given well serves {l}
          (started c s t u v rest listens chosen m whole (discovered n d)) good =
        let g = AllGood-append (Works (parsable read R prints)) v (calls rest) (
          subst (AllGood (Works (parsable read R prints))) (ap calls whole ∙ calls_behind v rest)
            good) in
        let robust : IsRobust (Works (parsable read R prints)) (c.grpc c.tcp) =
          subst
            (λ (c : GrpcResponseCollector).
              IsRobust (Works (parsable read R prints)) (c.grpc c.tcp))
            (sym listens.made) (serves listens.listener) in
        let succeeds =
          Discovered-Succeeds F L debug P port (grpc_collector F c) receiver s read R prints u
            chosen (grpc_collector-ShowsNoErrors (parsable read R prints) c robust)
            (packet_receiver-ShowsNoErrors (parsable read R prints) F L P framed get_discovery_ip
              port well)
            d g.1 in
        record {
          collector = c;
          scanner = s;
          starting = t;
          choosing = u;
          trace = v;
          rest = rest;
          listening = listens;
          chosen = chosen;
          preparing = m;
          whole = whole;
          no_errors =
              subst NoErrors (sym (ap items whole ∙ items_behind v rest)) succeeds.no_errors;
          succeeds = succeeds;
        }

    -- On a system that works, where the commands of the scanners for neighbors print what can be
    -- parsed, with a port other than 0, and with a socket and a gRPC server that make no error
    -- while their calls succeed, a scan over the network shows no error. At first a collector was
    -- started while a scanner for neighbors was chosen; then the requests were sent, with the port
    -- of this collector: one datagram to the multicast address, and one to each neighbor found, in
    -- order, and no others.
    pub scan-Scans :
        (prints : Handle → Bytes)
        → port ≢ 0
        → FramesWell (parsable read R prints) F L P framed
        → ((socket : Handle) → IsRobust (Works (parsable read R prints)) (grpc socket))
        → {l : List (Sight os (Result Service ScanError))}
        → Flows (scan F P framed debug grpc responses read R port) l
        → AllGood (Works (parsable read R prints)) (calls l)
        → Scans l
    scan-Scans prints given well serves q =
        scanned-Scans prints given well serves
          (scan-Scanned F L P framed debug grpc responses read R port q)
