-- ===== src/Lan.antt =====
-- A network with one scanner and some servers: main/src/scanner.rs, main/src/server.rs,
-- main/src/response_sender.rs and main/src/response_collector.rs at work together, their steps in
-- any order. The network may lose, repeat, delay and reorder what is sent, and the sources of
-- datagrams and connections have any port. Nobody else sends anything.
pub mod Payloads
pub mod Targets
pub mod Offers
pub mod Honest
pub mod Discovery
pub mod Hearing
use mathlib.Core.List.{Memᴰ}
use tansa.Prelude.{ℕ, ◌≡◌, Option, some, List, [], ◌∷◌, ◌++◌, map, Bool, Result, ok}
use tansa.Async.Runs.{Trace, Run}
use tansa.Async.Futures.{FuturesUtil}
use tansa.Net.{SocketAddrV6, set_port, v6, socket_addr_v6, get_discovery_ip}
use tansa.Net.Display.{Text}
use tansa.Protocol.{Bytes, Response, DiscoveryPacket, Prost}
use tansa.Protocol.Decoder.{decode}
use tansa.Network.UdpSender.{tokio_udp_sender}
use tansa.Network.Datagrams.{Datagram, datagrams, IsQuiet}
use tansa.Network.IpNeighbor.{IpNeighborScanner}
use tansa.ResponseCollector.{Channel}
use tansa.ResponseCollector.Interleaved
use tansa.ResponseCollector.Interleaved.{Collecting}
use tansa.ResponseSender.{AnyhowError, grpc_response_sender}
use tansa.Scanner.{send_requests, extract_service, ScanError}
use tansa.Server.{announce, handle_packet, ServeError}
use tansa.Server.Answers.{collector_url}
use tansa.Service.{Service}
use tansa.Os.{os, Handle, Status, grpc_connect, grpc_submit_response}

-- A server, by the address of its host and the port of its service.
pub record Host : Type 0 where
  pub address : SocketAddrV6
  pub service_port : ℕ

-- What a scan should find.
abbrev pub service_of_host : Host → Service
service_of_host h = record { address = set_port h.address h.service_port }

-- A response on its way to a collector, from a host.
pub record Submission : Type 0 where
  pub from : Host
  pub url : Text
  pub response : Response

module _ (F : FuturesUtil os) (P : Prost DiscoveryPacket) (C : Channel Service) (debug : Bool)
    (hosts : List Host) (home : SocketAddrV6) (collector_port discovery_port : ℕ) where
  -- The datagrams and responses that were ever sent, the collector with its stream, and what the
  -- scanner learned from announcements.
  pub record Lan : Type 0 where
    pub requests : List Datagram
    pub announcements : List (Host × Datagram)
    pub submissions : List Submission
    pub collecting : Collecting C
    pub heard : List Service

  abbrev pub start : C.State → Lan
  start s = record {
    requests = [];
    announcements = [];
    submissions = [];
    collecting = Interleaved.started C s;
    heard = [];
  }

  pub data Step (x : Lan) : Lan → Type 0 where
    -- The scanner sends its requests, or fails to.
    asks :
        (scanner : IpNeighborScanner os) {t : Trace os} (r : Result (Unit {0}) ScanError)
        → IsQuiet scanner.scan
        → Run
            (send_requests P
              (tokio_udp_sender debug)
              scanner
              (record { response_collector_port = collector_port })
              discovery_port)
            t
            r
        → Step x (record x { requests = x.requests ++ datagrams t })
    -- A server announces its service, or fails to.
    announces :
        (host : Host) (scanner : IpNeighborScanner os) {t : Trace os}
        (r : Result (Unit {0}) ServeError)
        → Memᴰ host hosts
        → IsQuiet scanner.scan
        → Run
            (announce F P
              (socket_addr_v6 get_discovery_ip discovery_port 0 0)
              host.service_port
              (tokio_udp_sender debug)
              scanner)
            t
            r
        → Step x
            (record x { announcements = x.announcements ++ map (λ d. (host, d)) (datagrams t) })
    -- A server receives a request, and reaches a collector.
    answers :
        (host : Host) (d : Datagram) (packet : DiscoveryPacket) (left : Bytes) (source_port : ℕ)
        (u : Text) (h : Handle) (response : Response) (reply : Result (Unit {0}) Status)
        (r : Result (Unit {0}) AnyhowError)
        → Memᴰ host hosts
        → Memᴰ d x.requests
        → decode P d.bytes ≡ (ok (some packet), left)
        → Run
            (handle_packet packet
              (set_port home source_port)
              host.service_port
              grpc_response_sender)
            ((grpc_connect u, ok h) ∷ (grpc_submit_response h response, reply) ∷ [])
            r
        → Step x (record x {
          submissions = x.submissions ++ record { from = host; url = u; response = response } ∷ [];
        })
    -- A response reaches the collector of the scanner.
    collects :
        (s : Submission) (source_port : ℕ)
        → Memᴰ s x.submissions
        → s.url ≡ collector_url home collector_port
        → Step x (record x {
          collecting =
              Interleaved.submitted C
                (some (v6 (set_port s.from.address source_port)))
                s.response.service_port
                x.collecting;
        })
    -- The scanner polls the stream of the collector, and drops it.
    polls :
        x.collecting.open_still ≡ Bool.true
        → Step x (record x { collecting = Interleaved.polled C x.collecting })
    drops : Step x (record x {
      collecting = record x.collecting {
        channel = C.drop_receiver x.collecting.channel;
        open_still = Bool.false;
      };
    })
    -- The scanner receives an announcement.
    hears :
        (host : Host) (d : Datagram) (packet : DiscoveryPacket) (left : Bytes) (source_port : ℕ)
        (s : Service)
        → Memᴰ (host, d) x.announcements
        → decode P d.bytes ≡ (ok (some packet), left)
        → extract_service packet (set_port host.address source_port) ≡ ok s
        → Step x (record x { heard = x.heard ++ s ∷ [] })

  pub data Reach (x : Lan) : Lan → Type 0 where
    here : Reach x x
    next : {y z : Lan} → Reach x y → Step y z → Reach x z
