-- ===== src/Server/Answers.antt =====
-- The gRPC calls by which a server answers: `handle` and `serve_internal` of main/src/server.rs with
-- the sender of main/src/response_sender.rs.
use tansa.Prelude.{
  ℕ, ◌≤◌, ◌<◌, ◌≡◌, refl, subst, Option, none, some, List, [], ◌∷◌, ◌++◌, map, Result, ok, err,
  arith, ltb, ltb→lt, Bool-cases, inl, inr,
}
use tansa.Async.Runs.{Trace, Run, returns, replied, done_inv}
use tansa.Async.Stream.{Sight, items, calls, Flows}
use tansa.Async.Shuffle.{Shuffle}
use tansa.Async.Concurrent.{Each, no_more, each, Succeeds}
use tansa.Async.Futures.{FuturesUtil, IsLawful}
use tansa.Net.{SocketAddrV6, socket_addr_v6, set_port, get_discovery_ip}
use tansa.Net.Display.{Text, chars, print_socket_addr}
use tansa.Protocol.{
  Response, DiscoveryPacket, Payload, request, announcement, unwrap_request, Prost, IoError,
}
use tansa.Network.UdpSender.{UdpSender}
use tansa.Network.IpNeighbor.{IpNeighborScanner}
use tansa.Packet.{DiscoveryPacketReceiver}
use tansa.ResponseSender.{AnyhowError, grpc_send, grpc_response_sender}
use tansa.Server.{handle_packet, handle, serve_internal}
use tansa.Server.Handle.{handle_packet_lem, handle_lem}
use tansa.Server.Announce.{Announced}
use tansa.Server.Serve.{serve_internal-ok}
use tansa.Os.{os, Handle, TransportError, Status, grpc_connect, grpc_submit_response}

-- The address of the response collector of a scanner.
abbrev pub collector_url : SocketAddrV6 → ℕ → Text
collector_url remote port = chars "http://" ++ print_socket_addr (set_port remote port)

-- The calls for one response: a connection to the address, and over it one submission.
pub data Submits (response : Response) (url : Text) (t : Trace os) : Type 0 where
  submitted :
      (h : Handle) (reply : Result (Unit {0}) Status)
      → t ≡ (grpc_connect url, ok h) ∷ (grpc_submit_response h response, reply) ∷ []
      → Submits response url t
  not_connected : (e : TransportError) → t ≡ (grpc_connect url, err e) ∷ [] → Submits response url t

pub grpc_send-Submits :
    (response : Response) (url : Text) {t : Trace os} {x : Result (Unit {0}) AnyhowError}
    → Run (grpc_send response url) t x
    → Submits response url t
unfolding grpc_send
grpc_send-Submits response url (replied _ (ok h) (replied _ (ok u) (returns _))) =
    submitted h (ok u) refl
grpc_send-Submits response url (replied _ (ok h) (replied _ (err e) (returns _))) =
    submitted h (err e) refl
grpc_send-Submits response url (replied _ (err e) (returns _)) = not_connected e refl

module _ (service_port : ℕ) where
  -- How a packet is answered: a request with a port in range by a submission of the service port to
  -- that port of its source; any other request, and any other packet, by no call.
  pub data Answered (packet : DiscoveryPacket) (remote : SocketAddrV6) (t : Trace os) : Type 0 where
    answered :
        (port : ℕ)
        → unwrap_request packet ≡ some (record { response_collector_port = port })
        → port < 65536
        → Submits (record { service_port = service_port }) (collector_url remote port) t
        → Answered packet remote t
    out_of_range :
        (port : ℕ)
        → unwrap_request packet ≡ some (record { response_collector_port = port })
        → 65536 ≤ port
        → t ≡ []
        → Answered packet remote t
    no_request : unwrap_request packet ≡ none → t ≡ [] → Answered packet remote t

  from_payload :
      (payload : Option Payload) (remote : SocketAddrV6) {t : Trace os}
      {x : Result (Unit {0}) AnyhowError}
      → Run
          (handle_packet (record { payload = payload }) remote service_port grpc_response_sender)
          t
          x
      → Answered (record { payload = payload }) remote t
  unfolding unwrap_request grpc_response_sender
  from_payload (some (request r)) remote {t} {x} q =
      let lem = handle_packet_lem service_port grpc_response_sender remote in
      let port = r.response_collector_port in
      elim (Bool-cases (ltb port 65536)) [
        | inl lt ↦
            let small : port < 65536 = ltb→lt port 65536 lt in
            answered port refl small (
              grpc_send-Submits (record { service_port = service_port }) (collector_url remote port)
                (subst (λ m. Run m t x) (lem.0 port small) q))
        | inr ge ↦
            let large : 65536 ≤ port = ground arith in
            out_of_range port refl large
              ((done_inv (subst (λ m. Run m t x) (lem.1 port large) q)).0)
      ]
  from_payload (some (announcement r)) remote {t} {x} q =
      let lem = handle_packet_lem service_port grpc_response_sender remote in
      no_request refl (
        (done_inv
          (subst (λ m. Run m t x) (lem.2 (record { payload = some (announcement r) }) refl) q)).0)
  from_payload none remote {t} {x} q =
      let lem = handle_packet_lem service_port grpc_response_sender remote in
      no_request refl
        ((done_inv (subst (λ m. Run m t x) (lem.2 (record { payload = none }) refl) q)).0)

  pub handle_packet-Answered :
      (packet : DiscoveryPacket) (remote : SocketAddrV6) {t : Trace os}
      {x : Result (Unit {0}) AnyhowError}
      → Run (handle_packet packet remote service_port grpc_response_sender) t x
      → Answered packet remote t
  handle_packet-Answered packet remote q = from_payload packet.payload remote q

  -- Every packet of a list was answered, each by the calls of a trace of its own.
  pub data AllAnswered : List (DiscoveryPacket × SocketAddrV6) → List (Trace os) → Type 0 where
    no_packet : AllAnswered [] []
    next_packet :
        (packet : DiscoveryPacket) (remote : SocketAddrV6)
        {l : List (DiscoveryPacket × SocketAddrV6)} {t : Trace os} {ts : List (Trace os)}
        → Answered packet remote t
        → AllAnswered l ts
        → AllAnswered ((packet, remote) ∷ l) (t ∷ ts)

module _ (F : FuturesUtil os) (L : IsLawful F) (P : Prost DiscoveryPacket)
    (discovery_port service_port : ℕ) (receiver : DiscoveryPacketReceiver os)
    (sender : UdpSender os) (scanner : IpNeighborScanner os) where
  Each-AllAnswered :
      (l : List (DiscoveryPacket × SocketAddrV6)) {ts : List (Trace os)}
      → Each Succeeds (map (handle F service_port grpc_response_sender) l) ts
      → AllAnswered service_port l ts
  Each-AllAnswered [] no_more = no_packet
  Each-AllAnswered ((packet, remote) ∷ l) (each (a, q) rest) =
      let w = handle_lem F L service_port grpc_response_sender packet remote q in
      next_packet packet remote (handle_packet-Answered service_port packet remote w.1)
        (Each-AllAnswered l rest)

  -- The service was announced. Then packets came in, with no error, and each was answered. The calls
  -- for the packets and for the answers are interleaved, and there are no others.
  pub record AnswersAll (t : Trace os) : Type 0 where
    pub announcement : Trace os
    pub looping : Trace os
    pub whole : t ≡ announcement ++ looping
    pub announced :
        Announced F L sender P
          (socket_addr_v6 get_discovery_ip discovery_port 0 0)
          service_port
          scanner
          announcement
    pub sights : List (Sight os (Result (DiscoveryPacket × SocketAddrV6) IoError))
    pub received : Flows (receiver.receive get_discovery_ip discovery_port) sights
    pub packets : List (DiscoveryPacket × SocketAddrV6)
    pub no_errors : items sights ≡ map ok packets
    pub traces : List (Trace os)
    pub answers : AllAnswered service_port packets traces
    pub interleaved : Shuffle (calls sights ∷ traces) looping

  -- Serving over gRPC that ends with no error announced the service. Then packets came in, with no
  -- error, and each was answered: a request with a port in range by a submission of the service port
  -- to that port of its source, any other packet by no call. The calls for the packets and for the
  -- answers are interleaved, and there are no others.
  pub serve_internal-AnswersAll :
      {t : Trace os}
      → Run
          (serve_internal F P discovery_port service_port receiver grpc_response_sender sender
            scanner)
          t
          (ok tt)
      → AnswersAll t
  serve_internal-AnswersAll q =
      let w =
        serve_internal-ok F L P discovery_port service_port receiver grpc_response_sender sender
          scanner q in
      record {
        announcement = w.announcement;
        looping = w.looping;
        whole = w.whole;
        announced = w.announced;
        sights = w.served.sights;
        received = w.served.flow;
        packets = w.served.served;
        no_errors = w.served.all_ok;
        traces = w.served.traces;
        answers = Each-AllAnswered w.served.served w.served.all;
        interleaved = w.served.shuffled;
      }
