-- ===== src/Lan/Payloads.antt =====
-- What the datagrams of a scanner and of a server carry, also when sending fails half-way:
-- `send_requests` of main/src/scanner.rs and `announce` of main/src/server.rs.
use tansa.Prelude.{All, All-always, ℕ, ◌≡◌, refl, Bool, List, Result}
use tansa.Async.Runs.{Trace, Run}
use tansa.Async.Futures.{FuturesUtil, IsLawful}
use tansa.Net.{SocketAddrV6}
use tansa.Os.{os}
use tansa.Protocol.{Bytes, DiscoveryPacket, from_request, from_response, Prost}
use tansa.Network.UdpSender.{tokio_udp_sender}
use tansa.Network.Datagrams.{Datagram, datagrams, IsQuiet}
use tansa.Network.IpNeighbor.{IpNeighborScanner}
use tansa.Scanner.{send_requests, ScanError}
use tansa.Scanner.Sent.{send_requests-All}
use tansa.Server.{announce, ServeError}
use tansa.Server.Sent.{announce-All}

abbrev pub CarryAll : Bytes → List Datagram → Type 0
CarryAll b l = All (λ (d : Datagram). d.bytes ≡ b) l

module _ (debug : Bool) where
  abbrev pub request_bytes : Prost DiscoveryPacket → ℕ → Bytes
  request_bytes P collector_port =
      P.encode_to_vec (from_request (record { response_collector_port = collector_port }))

  abbrev pub announcement_bytes : Prost DiscoveryPacket → ℕ → Bytes
  announcement_bytes P service_port =
      P.encode_to_vec (from_response (record { service_port = service_port }))

  module _ (P : Prost DiscoveryPacket) (scanner : IpNeighborScanner os)
      (quiet : IsQuiet scanner.scan) where
    -- Whatever becomes of the requests, every datagram is the request with the collector's port.
    pub send_requests-CarryAll :
        (collector_port discovery_port : ℕ) {t : Trace os} {r : Result (Unit {0}) ScanError}
        → Run
            (send_requests P
              (tokio_udp_sender debug)
              scanner
              (record { response_collector_port = collector_port })
              discovery_port)
            t
            r
        → CarryAll (request_bytes P collector_port) (datagrams t)
    send_requests-CarryAll collector_port discovery_port q =
        send_requests-All debug (λ d. d.bytes ≡ request_bytes P collector_port) P scanner
          (record { response_collector_port = collector_port }) discovery_port quiet refl
          (λ neighbors _. All-always _ neighbors (λ n. refl)) q

    -- Whatever becomes of an announcement, every datagram is the announcement of the service port.
    pub announce-CarryAll :
        (F : FuturesUtil os)
        → IsLawful F
        → (address : SocketAddrV6) (service_port : ℕ) {t : Trace os}
          {r : Result (Unit {0}) ServeError}
        → Run (announce F P address service_port (tokio_udp_sender debug) scanner) t r
        → CarryAll (announcement_bytes P service_port) (datagrams t)
    announce-CarryAll F L address service_port q =
        announce-All debug (λ d. d.bytes ≡ announcement_bytes P service_port) F L P scanner address
          service_port quiet refl (λ neighbors _. All-always _ neighbors (λ n. refl)) q
