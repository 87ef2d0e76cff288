-- ===== src/Scanner/Whole.antt =====
-- `scan` of main/src/scanner.rs as a whole: the collector that it starts, the scanner for neighbors
-- that it chooses, and what it then shows.
use tansa.Prelude.{
  ℕ, ◌≡◌, refl, ap, subst, ◌∙◌, Bool, List, [], ◌∷◌, ◌++◌, map, Result, ok, err, map_result,
}
use tansa.Async.{Signature, Async, done, call, ◌>>=◌}
use tansa.Async.Runs.{Trace, Run, returns, replied, mapped}
use tansa.Async.Stream.{
  Stream, Sight, called, item, Flows, ends, gives, waited, wait_for, yields, finished,
}
use tansa.Async.Try.{with_error, with_error_ok, with_error_err}
use tansa.Async.Shuffle.{Merges}
use tansa.Async.Concurrent.{Partial}
use tansa.Async.Futures.{FuturesUtil, IsLawful, BothRun, both_ok, left_err, right_err, flattened}
use tansa.Protocol.{DiscoveryPacket, Prost, IoError, Bytes}
use tansa.Network.UdpSender.{tokio_udp_sender}
use tansa.Network.UdpReceiver.{UdpFramed, tokio_udp_receiver}
use tansa.Network.IpNeighbor.{IpNeighborScanner, CsvError}
use tansa.Network.IpNeighbor.Select.{ip_neighbor_scanner, scanners}
use tansa.Network.IpNeighbor.Selected.{Chosen, ip_neighbor_scanner-Chosen}
use tansa.Packet.{packet_receiver}
use tansa.ResponseCollector.{GrpcResponseCollector, grpc_collector, new, Router}
use tansa.ResponseCollector.New.{Listening, new-Listening}
use tansa.Service.{Service}
use tansa.Scanner.{scan, scan_internal, ScanError, send_request}
use tansa.Scanner.Discovered.{Shows, scan_internal-Shows}
use tansa.Network.IpNeighbor.Windows.{NetNeighbor}
use tansa.Network.IpNeighbor.Linux.{Readers}
use tansa.Os.{os}

-- A stream that waits for `m` shows the calls of `m` and then what its value makes of it.
record Waiting {S : Signature} {A B : Type 0} (m : Async S A) (f : A → Stream S B)
    (l : List (Sight S B)) : Type 0 where
  value : A
  trace : Trace S
  rest : List (Sight S B)
  whole : l ≡ map called trace ++ rest
  run : Run m trace value
  flow : Flows (f value) rest

waiting :
    {S : Signature} {A B : Type 0} (m : Async S A) (f : A → Stream S B) {l : List (Sight S B)}
    → Flows (wait_for m f) l
    → Waiting m f l
waiting (done a) f {l} q = record {
  value = a;
  trace = [];
  rest = l;
  whole = refl;
  run = returns a;
  flow = q;
}
waiting (call c k) f (waited _ r q) =
    let w = waiting (k r) f q in
    record {
      value = w.value;
      trace = (c, r) ∷ w.trace;
      rest = w.rest;
      whole = ap (λ u. called (c, r) ∷ u) w.whole;
      run = replied c r w.run;
      flow = w.flow;
    }

module _ (F : FuturesUtil os) (L : IsLawful F) (P : Prost DiscoveryPacket) (framed : UdpFramed)
    (debug : Bool) (grpc : Router) (responses : Stream os Service)
    (read_power_shell : Bytes → List (Result NetNeighbor CsvError)) (read_ip_route2 : Readers)
    (port : ℕ) where
  abbrev choice : Async os (IpNeighborScanner os)
  choice = ip_neighbor_scanner F read_power_shell read_ip_route2

  abbrev wrapped_choice : Async os (Result (IpNeighborScanner os) ScanError)
  wrapped_choice = choice >>= λ s. done (ok s)

  -- What a scan shows. At first a response collector was started while a scanner for neighbors was
  -- chosen, and then the scan went on with the two, if its port is not 0. Or the collector could not be started: then the
  -- choice was dropped where it was, and that error is the only item.
  pub data Scanned (l : List (Sight os (Result Service ScanError))) : Type 0 where
    started :
        (collector : GrpcResponseCollector) (scanner : IpNeighborScanner os)
        (starting choosing trace : Trace os) (rest : List (Sight os (Result Service ScanError)))
        → Listening grpc responses starting collector
        → Chosen (scanners read_power_shell read_ip_route2) choosing scanner
        → Merges starting choosing trace
        → l ≡ map called trace ++ rest
        → Shows F L P port
            (grpc_collector F collector)
            (tokio_udp_sender debug)
            (packet_receiver F P (tokio_udp_receiver F framed))
            scanner
            rest
        → Scanned l
    not_started :
        (e : IoError) (starting choosing trace : Trace os)
        → Run (new grpc responses) starting (err e)
        → Partial wrapped_choice choosing
        → Merges starting choosing trace
        → l ≡ map called trace ++ item (err (send_request e)) ∷ []
        → Scanned l

  abbrev internal :
      GrpcResponseCollector × IpNeighborScanner os → Stream os (Result Service ScanError)
  internal both =
      scan_internal F P port (grpc_collector F both.0) (tokio_udp_sender debug)
        (packet_receiver F P (tokio_udp_receiver F framed)) both.1

  abbrev starting_collector : Async os (Result GrpcResponseCollector ScanError)
  starting_collector = F.map_err_future send_request (new grpc responses)

  as_errors :
      {t : Trace os} {r : Result GrpcResponseCollector ScanError}
      → Run starting_collector t r
      → Run (with_error send_request (new grpc responses)) t r
  as_errors {t} {r} q =
      subst (λ m. Run m t r) (L.map_err_future_lem send_request (new grpc responses)) q

  started_with :
      (l rest : List (Sight os (Result Service ScanError))) (t u v : Trace os)
      (c : GrpcResponseCollector) (s : IpNeighborScanner os)
      → l ≡ map called t ++ rest
      → Run starting_collector u (ok c)
      → Run wrapped_choice v (ok s)
      → Merges u v t
      → Flows (internal (c, s)) rest
      → Scanned l
  started_with l rest t u v c s whole q r m flow =
      let w = mapped choice ok r in
      let same : w.value ≡ s = cc (w.mapped) in
      let chosen =
        ip_neighbor_scanner-Chosen F L read_power_shell read_ip_route2 v s
          (subst (λ x. Run choice v x) same w.inner) in
      started c s u v t rest
        (new-Listening grpc responses
          (with_error_ok send_request (new grpc responses) (as_errors q)))
        chosen m whole
        (scan_internal-Shows F L P port (grpc_collector F c) (tokio_udp_sender debug)
          (packet_receiver F P (tokio_udp_receiver F framed)) s flow)

  stopped :
      (l rest : List (Sight os (Result Service ScanError))) (t u v : Trace os) (e : ScanError)
      → l ≡ map called t ++ rest
      → Run starting_collector u (err e)
      → Partial wrapped_choice v
      → Merges u v t
      → Flows (yields (err e) finished) rest
      → Scanned l
  stopped l _ t u v e whole q p m (gives _ ends) =
      let (x, is, run) = with_error_err send_request (new grpc responses) (as_errors q) in
      not_started x u v t run p m (whole ∙ ap (λ y. map called t ++ item (err y) ∷ []) is)

  from_both :
      (l rest : List (Sight os (Result Service ScanError))) (t : Trace os)
      (r : Result (GrpcResponseCollector × IpNeighborScanner os) ScanError)
      → l ≡ map called t ++ rest
      → BothRun starting_collector wrapped_choice t r
      → Flows (flattened (map_result internal r)) rest
      → Scanned l
  from_both l rest t _ whole (both_ok {a = c} {b = s} {u = u} {v = v} q r m) flow =
      started_with l rest t u v c s whole q r m flow
  from_both l rest t _ whole (left_err {e = e} {u = u} {v = v} q p m) flow =
      stopped l rest t u v e whole q p m flow
  from_both l rest t _ whole (right_err p q m) flow = cc ((mapped choice ok q).mapped)

  abbrev preparing : Async os (Result (GrpcResponseCollector × IpNeighborScanner os) ScanError)
  preparing = F.try_join starting_collector (F.map_future ok choice)

  -- Whatever a scan over the network shows: at first a response collector was started while a
  -- scanner for neighbors was chosen, and what follows is, for port 0, one error and no call, and
  -- for any other port, discovered with the two; or the collector could not be started, and that
  -- error is the only item.
  pub scan-Scanned :
      {l : List (Sight os (Result Service ScanError))}
      → Flows (scan F P framed debug grpc responses read_power_shell read_ip_route2 port) l
      → Scanned l
  unfolding scan
  scan-Scanned {l} q =
      let w =
        waiting (F.map_ok_future internal preparing) flattened
          (subst (λ s. Flows s l) (L.try_flatten_stream_lem _) q) in
      let m =
        mapped preparing (map_result internal)
          (subst (λ n. Run n w.trace w.value) (L.map_ok_future_lem internal preparing) w.run) in
      let both = L.try_join_lem starting_collector (F.map_future ok choice) m.inner in
      from_both l w.rest w.trace m.value w.whole
        (subst (λ n. BothRun starting_collector n w.trace m.value) (L.map_future_lem ok choice)
          both)
        (subst (λ r. Flows (flattened r) w.rest) m.mapped w.flow)
