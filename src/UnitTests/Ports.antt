-- ===== src/UnitTests/Ports.antt =====
-- The tests of main/src/server.rs and main/src/scanner.rs at port 0, on any system, and on any
-- system that works.
use tansa.Prelude.{refl, ap, subst, ◌∙◌, ◌∷◌, ◌≡◌, sym, Bool, List, [], Result, err}
use tansa.Async.{done}
use tansa.Async.Runs.{Trace, Run, split, done_inv}
use tansa.Async.Execute.{Answer, execute, execute-Run}
use tansa.Async.Futures.{FuturesUtil}
use tansa.Protocol.{Bytes, DiscoveryPacket, Prost}
use tansa.Network.IpNeighbor.{IpNeighborScanner, CsvError}
use tansa.Network.IpNeighbor.Select.{ip_neighbor_scanner}
use tansa.Network.IpNeighbor.Linux.{Readers}
use tansa.Network.IpNeighbor.Windows.{NetNeighbor}
use tansa.Network.UdpReceiver.{UdpFramed}
use tansa.Async.Stream.{Stream, Sight, items, calls, Flows, items_behind, calls_behind}
use tansa.Async.Execute.{AllGood, AllGood-append}
use tansa.Async.Futures.{IsLawful}
use tansa.ResponseCollector.{Router}
use tansa.ResponseCollector.New.{new-NewEnds}
use tansa.Service.{Service}
use tansa.Scanner.{scan, ScanError, invalid_discovery_port as scan_error_at_zero}
use tansa.Scanner.Discovered.{rejected, discovered}
use tansa.Scanner.Whole.{Scanned, started, not_started, scan-Scanned}
use tansa.Scanner.Sockets.{NotListening-Works}
use tansa.Os.Reliable.{AllGood-Merges}
use tansa.Os.Works.{Outputs, Works}
use tansa.Server.{serve, serve_internal, ServeError, invalid_discovery_port as at_zero}
use tansa.Os.{os}

module _ (F : FuturesUtil os) (P : Prost DiscoveryPacket) (framed : UdpFramed) (debug : Bool)
    (read : Bytes → List (Result NetNeighbor CsvError)) (R : Readers) (answer : Answer os) where
  abbrev invalid_discovery_port : Result (Unit {0}) ServeError
  invalid_discovery_port = (execute answer [] (serve F P framed debug read R 0 1)).1

  stops_at_zero :
      {t : Trace os} {r : Result (Unit {0}) ServeError}
      → Run (serve F P framed debug read R 0 1) t r
      → r ≡ err at_zero
  unfolding serve serve_internal
  stops_at_zero q =
      let w =
        split {A = IpNeighborScanner os} (ip_neighbor_scanner F read R)
          (λ scanner. done (err at_zero)) q in
      sym ((done_inv w.rest).1)

  invalid_discovery_port_passes : invalid_discovery_port ≡ err at_zero
  invalid_discovery_port_passes =
      stops_at_zero (execute-Run answer [] (serve F P framed debug read R 0 1))

module _ (F : FuturesUtil os) (L : IsLawful F) (P : Prost DiscoveryPacket) (framed : UdpFramed)
    (debug : Bool) (grpc : Router) (responses : Stream os Service)
    (read : Bytes → List (Result NetNeighbor CsvError)) (R : Readers) where
  abbrev scan_at_zero : Stream os (Result Service ScanError)
  scan_at_zero = scan F P framed debug grpc responses read R 0

  shown_at_zero :
      (W : Outputs) {l : List (Sight os (Result Service ScanError))}
      → Scanned F L P framed debug grpc responses read R 0 l
      → AllGood (Works W) (calls l)
      → items l ≡ err scan_error_at_zero ∷ []
  shown_at_zero W (started c s t u v rest _ _ _ whole (rejected z one none)) good =
      ap items whole ∙ items_behind v rest ∙ one
  shown_at_zero W (started c s t u v rest _ _ _ whole (discovered n d)) good = absurd (n refl)
  shown_at_zero W (not_started e t u v q p m whole) good =
      let g =
        AllGood-append (Works W) v _
          (subst (AllGood (Works W)) (ap calls whole ∙ calls_behind v _) good) in
      absurd (NotListening-Works W (new-NewEnds grpc responses (err e) q) (AllGood-Merges m g.0).0)

  scan_at_zero_passes :
      (W : Outputs) {l : List (Sight os (Result Service ScanError))}
      → Flows scan_at_zero l
      → AllGood (Works W) (calls l)
      → items l ≡ err scan_error_at_zero ∷ []
  scan_at_zero_passes W q good =
      shown_at_zero W (scan-Scanned F L P framed debug grpc responses read R 0 q) good
