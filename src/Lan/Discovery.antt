-- ===== src/Lan/Discovery.antt =====
-- A scanner in a network can find every server, at any time.
use mathlib.Core.List.{Memᴰ}
use mathlib.Core.List.Memᴰ
use tansa.Prelude.{
  ℕ, ◌<◌, ◌≡◌, refl, sym, ap, subst, ◌∙◌, Bool, true, false, some, List, [], ◌∷◌, ◌++◌, Result, ok,
  not,
}
use tansa.Async.{Async}
use tansa.Async.Execute.{Answer, execute, execute-Run}
use tansa.Async.Futures.{FuturesUtil, IsLawful}
use tansa.Async.Runs.{Trace, Run, returns, replied}
use tansa.Net.{SocketAddrV6, set_port, v6, socket_addr_v6, get_discovery_ip}
use tansa.Os.{os, Handle, grpc_connect, grpc_submit_response}
use tansa.Os.Works.{Works}
use tansa.Protocol.{
  Bytes, Request, DiscoveryPacket, Prost, IsWireFormat, WritesPayload, from_request,
}
use tansa.Protocol.Decoder.{decode-encode_to_vec}
use tansa.Network.Datagrams.{Datagram, datagrams}
use tansa.Network.UdpSender.{tokio_udp_sender}
use tansa.Network.IpNeighbor.{IpNeighborScanner, CsvError}
use tansa.Network.IpNeighbor.Linux.{Readers}
use tansa.Network.IpNeighbor.Windows.{NetNeighbor}
use tansa.Network.IpNeighbor.Select.{scanners}
use tansa.Network.IpNeighbor.Selected.{Chosen}
use tansa.Network.IpNeighbor.Quiet.{Chosen-IsQuiet}
use tansa.Network.IpNeighbor.Robust.{parsable}
use tansa.ResponseCollector.{Channel, IsChannel}
use tansa.ResponseCollector.Interleaved as Collector
use tansa.ResponseCollector.Interleaved.{Collecting}
use tansa.ResponseCollector.Submit.{IsServicePort}
use tansa.ResponseSender.{grpc_send, grpc_response_sender}
use tansa.Scanner.{send_requests, ScanError}
use tansa.Scanner.Delivery.{send_requests-delivers}
use tansa.Scanner.EndToEnd.{submit_response-Added}
use tansa.Server.{handle_packet}
use tansa.Server.Answers.{collector_url}
use tansa.Server.Handle.{handle_packet_lem}
use tansa.Service.{Service}
use tansa.Lan.{Host, service_of_host, Lan, start, asks, answers, collects, polls, Reach, here, next}
use tansa.Lan.Honest.{Reach-IsHonest}

-- The calls of an answer over a connection that works.
abbrev answering : SocketAddrV6 → ℕ → ℕ → Trace os
answering remote service_port collector_port =
    (grpc_connect (collector_url remote collector_port), ok 0)
    ∷ (grpc_submit_response 0 (record { service_port = service_port }), ok tt)
    ∷ []

-- A request is answered over a connection that works.
answer_run :
    (remote : SocketAddrV6) (service_port collector_port : ℕ)
    → collector_port < 65536
    → Run
        (handle_packet
          (from_request (record { response_collector_port = collector_port }))
          remote
          service_port
          grpc_response_sender)
        (answering remote service_port collector_port)
        (ok tt)
unfolding grpc_response_sender grpc_send
answer_run remote service_port collector_port small =
    subst (λ m. Run m (answering remote service_port collector_port) (ok tt))
      (sym ((handle_packet_lem service_port grpc_response_sender remote).0 collector_port small))
      (replied _ (ok 0) (replied _ (ok tt) (returns _)))

module _ (F : FuturesUtil os) (L : IsLawful F) (P : Prost DiscoveryPacket) (w : IsWireFormat P)
    (written : WritesPayload P) (C : Channel Service) (H : IsChannel C) (debug : Bool)
    (hosts : List Host) (home : SocketAddrV6) (collector_port discovery_port : ℕ) where
  abbrev Network : Type 0
  Network = Lan F P C debug hosts home collector_port discovery_port

  abbrev Leads : Network → Network → Type 0
  Leads = Reach F P C debug hosts home collector_port discovery_port

  abbrev requesting : IpNeighborScanner os → Async os (Result (Unit {0}) ScanError)
  requesting scanner =
      send_requests P (tokio_udp_sender debug) scanner
        (record { response_collector_port = collector_port }) discovery_port

  -- The stream is polled until it gives the last service of the channel.
  drained :
      (l : List Service) (s : Service) {x : Network} (y : Network)
      → Leads x y
      → y.collecting.open_still ≡ true
      → C.queued y.collecting.channel ≡ l ++ s ∷ []
      → (z : Network) × Leads x z × Memᴰ s z.collecting.given × (z.requests ≡ y.requests)
  drained [] s y r still e =
      let n = H.polled_first s [] y.collecting.channel e in
      (
        record y { collecting = Collector.polled C y.collecting },
        next r (polls still),
        subst (λ g. Memᴰ s (Collector.give C y.collecting.given g)) (sym n.0)
            (Memᴰ.append_right y.collecting.given (Memᴰ.head refl)),
        refl,
      )
  drained (a ∷ l) s y r still e =
      let n = H.polled_first a (l ++ s ∷ []) y.collecting.channel e in
      drained l s (record y { collecting = Collector.polled C y.collecting }) (next r (polls still))
        still n.1

  -- A response on its way, and the collector still there.
  accepted_then :
      (host : Host) {x : Network} (y : Network)
      → Leads x y
      → IsServicePort host.service_port
      → y.collecting.open_still ≡ true
      → C.is_closed y.collecting.channel ≡ false
      → Memᴰ
          (record {
            from = host;
            url = collector_url home collector_port;
            response = record { service_port = host.service_port };
          })
          y.submissions
      → (z : Network) × Leads x z
        × Memᴰ (service_of_host host) z.collecting.given
        × (z.requests ≡ y.requests)
  accepted_then host y r port still opened m =
      let from = set_port host.address 0 in
      let a = submit_response-Added C H from host.service_port y.collecting.channel port opened in
      drained (C.queued y.collecting.channel) (service_of_host host)
        (record y {
          collecting = Collector.submitted C (some (v6 from)) host.service_port y.collecting;
        })
        (next r (collects _ 0 m refl)) still a.added

  -- In a network of a scanner and some servers that began with an open empty collector at a port
  -- below 65536, at any time that it can come to, whatever has failed so far, while the scanner still
  -- reads its stream: if the calls of the scanner's system succeed from then on, and its commands for
  -- neighbors print what can be parsed, the scanner can ask, be answered by any server with a
  -- service port from 1 to 65535 over a connection that works, and find the service of this server.
  -- What it asks is what it sends on this system.
  pub Reach-discovers :
      (read : Bytes → List (Result NetNeighbor CsvError)) (R : Readers) (prints : Handle → Bytes)
      (scanner : IpNeighborScanner os) (choosing : Trace os)
      → Chosen (scanners read R) choosing scanner
      → (answer : Answer os)
      → ((past : Trace os) (c : os.Call) → Works (parsable read R prints) c (answer past c))
      → collector_port < 65536
      → (host : Host) → Memᴰ host hosts
      → IsServicePort host.service_port
      → (s : C.State) → C.queued s ≡ []
      → C.is_closed s ≡ false
      → (x : Network) → Leads (start F P C debug hosts home collector_port discovery_port s) x
      → x.collecting.open_still ≡ true
      → (y : Network) × Leads x y
        × Memᴰ (service_of_host host) y.collecting.given
        × (y.requests ≡ x.requests ++ datagrams (execute answer [] (requesting scanner)).0)
  Reach-discovers read R prints scanner choosing c answer works small host m port s empty opened x r
        still =
      let request : Request = record { response_collector_port = collector_port } in
      let asking = requesting scanner in
      let done = execute answer [] asking in
      let delivered =
        (send_requests-delivers debug read R prints scanner choosing c P request discovery_port
          answer works).1 in
      let sound =
        (Reach-IsHonest F L P w written C H debug hosts home collector_port discovery_port s empty
          opened r).collected in
      let d : Datagram = record {
        bytes = P.encode_to_vec (from_request request);
        address = socket_addr_v6 get_discovery_ip discovery_port 0 0;
      } in
      let there : Memᴰ d (x.requests ++ datagrams done.0) =
        Memᴰ.append_right x.requests (subst (Memᴰ d) (sym delivered.sent) (Memᴰ.head refl)) in
      let asked =
        next here (asks scanner done.1 (Chosen-IsQuiet read R c) (execute-Run answer [] asking)) in
      let answered = next asked (
        answers host d (from_request request) [] 0 _ 0 _ (ok tt) (ok tt) m there
          ((decode-encode_to_vec P w written).0 request)
          (answer_run (set_port home 0) host.service_port collector_port small)) in
      accepted_then host _ answered port still (sound.closed_with ∙ ap not still)
        (Memᴰ.append_right x.submissions (Memᴰ.head refl))
