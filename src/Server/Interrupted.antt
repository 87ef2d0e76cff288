-- ===== src/Server/Interrupted.antt =====
-- The answers of a server whose stream of packets fails: `serve_internal` of main/src/server.rs
-- drops the answers that it has begun.
use tansa.Prelude.{
  ℕ, ◌≤◌, ◌<◌, ◌≡◌, ◌≢◌, refl, subst, Option, none, some, List, [], ◌∷◌, ◌++◌, map, Result, ok, err,
  arith, ltb, ltb→lt, Bool-cases, inl, inr,
}
use tansa.Async
use tansa.Async.{Async, done, call}
use tansa.Async.Runs.{Trace, Run}
use tansa.Async.Stream.{Sight, items, calls}
use tansa.Async.Shuffle.{Shuffle}
use tansa.Async.Concurrent.{Each, no_more, each, Partial, dropped, went_on}
use tansa.Async.ForEach.{Breaks}
use tansa.Async.Futures.{FuturesUtil, IsLawful, handled}
use tansa.Net.{SocketAddrV6, socket_addr_v6, get_discovery_ip}
use tansa.Net.Display.{Text}
use tansa.Protocol.{
  Response, DiscoveryPacket, Payload, request, announcement, unwrap_request, Prost, IoError,
}
use tansa.Network.UdpSender.{UdpSender}
use tansa.Network.IpNeighbor.{IpNeighborScanner}
use tansa.Packet.{DiscoveryPacketReceiver}
use tansa.ResponseSender.{AnyhowError, grpc_send, grpc_response_sender}
use tansa.Server.{
  handle_packet, handle, serve_internal, ServeError, network_io, invalid_discovery_port,
}
use tansa.Server.Handle.{handle_packet_lem}
use tansa.Server.Announce.{Announced, AnnounceFails}
use tansa.Server.Serve.{ServeFails, serve_internal-err}
use tansa.Server.Answers.{
  Submits, submitted, not_connected, collector_url, Answered, answered, AnswersAll,
  serve_internal-AnswersAll,
}
use tansa.Os.{os, Handle, grpc_connect}

-- The calls for one response so far: none, the connection, or all of them.
data Submitting (response : Response) (url : Text) (t : Trace os) : Type 0 where
  not_begun : t ≡ [] → Submitting response url t
  connected : (h : Handle) → t ≡ (grpc_connect url, ok h) ∷ [] → Submitting response url t
  finished : Submits response url t → Submitting response url t

grpc_send-Submitting :
    (response : Response) (url : Text) {t : Trace os}
    → Partial (grpc_send response url) t
    → Submitting response url t
unfolding grpc_send
grpc_send-Submitting response url dropped = not_begun refl
grpc_send-Submitting response url (went_on _ (ok h) dropped) = connected h refl
grpc_send-Submitting response url (went_on _ (ok h) (went_on _ (ok u) dropped)) =
    finished (submitted h (ok u) refl)
grpc_send-Submitting response url (went_on _ (ok h) (went_on _ (err e) dropped)) =
    finished (submitted h (err e) refl)
grpc_send-Submitting response url (went_on _ (err e) dropped) = finished (not_connected e refl)

swallowed_part :
    (m : Async os (Result (Unit {0}) AnyhowError)) {t : Trace os}
    → Partial (Async.◌>>=◌ {B = Result (Unit {0}) IoError} m (handled (λ _. done (ok tt)))) t
    → Partial m t
swallowed_part (done (ok u)) dropped = dropped
swallowed_part (done (err e)) dropped = dropped
swallowed_part (call c k) dropped = dropped
swallowed_part (call c k) (went_on _ r q) = went_on c r (swallowed_part (k r) q)

module _ (service_port : ℕ) where
  -- A packet is being answered: nothing was called for it yet; or it is a request with a port in
  -- range, and a connection was made to that port of its source; or it was answered.
  pub data Answering (packet : DiscoveryPacket) (remote : SocketAddrV6) (t : Trace os)
      : Type 0 where
    untouched : t ≡ [] → Answering packet remote t
    connecting :
        (port : ℕ) (h : Handle)
        → unwrap_request packet ≡ some (record { response_collector_port = port })
        → port < 65536
        → t ≡ (grpc_connect (collector_url remote port), ok h) ∷ []
        → Answering packet remote t
    all_answered : Answered service_port packet remote t → Answering packet remote t

  to_request :
      (port : ℕ) (packet : DiscoveryPacket) (remote : SocketAddrV6) {t : Trace os}
      → unwrap_request packet ≡ some (record { response_collector_port = port })
      → port < 65536
      → Submitting (record { service_port = service_port }) (collector_url remote port) t
      → Answering packet remote t
  to_request port packet remote is small (not_begun e) = untouched e
  to_request port packet remote is small (connected h e) = connecting port h is small e
  to_request port packet remote is small (finished s) = all_answered (answered port is small s)

  nothing_left : {x : Result (Unit {0}) AnyhowError} {t : Trace os} → Partial (done x) t → t ≡ []
  nothing_left dropped = refl

  payload_part :
      (payload : Option Payload) (remote : SocketAddrV6) {t : Trace os}
      → Partial
          (handle_packet (record { payload = payload }) remote service_port grpc_response_sender)
          t
      → Answering (record { payload = payload }) remote t
  unfolding unwrap_request grpc_response_sender
  payload_part (some (request r)) remote {t} q =
      let lem = handle_packet_lem service_port grpc_response_sender remote in
      let port = r.response_collector_port in
      elim (Bool-cases (ltb port 65536)) [
        | inl lt ↦
            let small : port < 65536 = ltb→lt port 65536 lt in
            to_request port _ remote refl small (
              grpc_send-Submitting _ (collector_url remote port)
                (subst (λ m. Partial m t) (lem.0 port small) q))
        | inr ge ↦
            let large : 65536 ≤ port = ground arith in
            untouched (nothing_left (subst (λ m. Partial m t) (lem.1 port large) q))
      ]
  payload_part (some (announcement r)) remote {t} q =
      let lem = handle_packet_lem service_port grpc_response_sender remote in
      untouched (
        nothing_left
          (subst (λ m. Partial m t) (lem.2 (record { payload = some (announcement r) }) refl) q))
  payload_part none remote {t} q =
      let lem = handle_packet_lem service_port grpc_response_sender remote in
      untouched (nothing_left (subst (λ m. Partial m t) (lem.2 (record { payload = none }) refl) q))

  pub data AllAnswering : List (DiscoveryPacket × SocketAddrV6) → List (Trace os) → Type 0 where
    no_packet : AllAnswering [] []
    next_packet :
        (packet : DiscoveryPacket) (remote : SocketAddrV6) {t : Trace os}
        {l : List (DiscoveryPacket × SocketAddrV6)} {ts : List (Trace os)}
        → Answering packet remote t
        → AllAnswering l ts
        → AllAnswering ((packet, remote) ∷ l) (t ∷ ts)

module _ (F : FuturesUtil os) (L : IsLawful F) (P : Prost DiscoveryPacket)
    (discovery_port service_port : ℕ) (receiver : DiscoveryPacketReceiver os)
    (sender : UdpSender os) (scanner : IpNeighborScanner os) where
  handle-Answering :
      (packet : DiscoveryPacket) (remote : SocketAddrV6) {t : Trace os}
      → Partial (handle F service_port grpc_response_sender (packet, remote)) t
      → Answering service_port packet remote t
  unfolding handle
  handle-Answering packet remote {t} q = payload_part service_port packet.payload remote (
      swallowed_part (handle_packet packet remote service_port grpc_response_sender)
        (subst (λ m. Partial m t) (L.or_else_lem _ _) q))

  Each-AllAnswering :
      (l : List (DiscoveryPacket × SocketAddrV6)) {ts : List (Trace os)}
      → Each Partial (map (handle F service_port grpc_response_sender) l) ts
      → AllAnswering service_port l ts
  Each-AllAnswering [] no_more = no_packet
  Each-AllAnswering ((packet, remote) ∷ l) (each q rest) =
      next_packet packet remote (handle-Answering packet remote q) (Each-AllAnswering l rest)

  abbrev Announcing : Trace os → Type 0
  Announcing t =
      Announced F L sender P (socket_addr_v6 get_discovery_ip discovery_port 0 0) service_port
        scanner t

  -- The service was announced. Then packets came in until the stream failed with `x`, and each was
  -- being answered. The calls for the packets and for the answers are interleaved, and there are no
  -- others.
  pub record AnswersUntil (x : IoError) (t : Trace os) : Type 0 where
    pub announcement : Trace os
    pub looping : Trace os
    pub whole : t ≡ announcement ++ looping
    pub announced : Announcing announcement
    pub sights : List (Sight os (Result (DiscoveryPacket × SocketAddrV6) IoError))
    pub received : Breaks x (receiver.receive get_discovery_ip discovery_port) sights
    pub packets : List (DiscoveryPacket × SocketAddrV6)
    pub no_errors : items sights ≡ map ok packets
    pub traces : List (Trace os)
    pub answers : AllAnswering service_port packets traces
    pub interleaved : Shuffle (calls sights ∷ traces) looping

  pub data AnswersFail (t : Trace os) (e : ServeError) : Type 0 where
    bad_port : discovery_port ≡ 0 → t ≡ [] → e ≡ invalid_discovery_port → AnswersFail t e
    announce_failed :
        discovery_port ≢ 0
        → AnnounceFails F L sender P
            (socket_addr_v6 get_discovery_ip discovery_port 0 0)
            service_port
            scanner
            t
            e
        → AnswersFail t e
    packets_failed :
        (x : IoError) → discovery_port ≢ 0 → e ≡ network_io x → AnswersUntil x t → AnswersFail t e

  serve_internal-AnswersFail :
      {t : Trace os} {e : ServeError}
      → ServeFails F L P discovery_port service_port receiver grpc_response_sender sender scanner t
          e
      → AnswersFail t e
  serve_internal-AnswersFail (ServeFails.bad_port z n is) = bad_port z n is
  serve_internal-AnswersFail (ServeFails.announce_failed n f) = announce_failed n f
  serve_internal-AnswersFail (ServeFails.packets_failed before after x n is whole a b) =
      packets_failed x n is (record {
        announcement = before;
        looping = after;
        whole = whole;
        announced = a;
        sights = b.sights;
        received = b.flow;
        packets = b.served;
        no_errors = b.all_ok;
        traces = b.traces;
        answers = Each-AllAnswering b.served b.all;
        interleaved = b.shuffled;
      })

  abbrev pub AnswersEnd : Trace os → Result (Unit {0}) ServeError → Type 0
  AnswersEnd t (ok u) = AnswersAll F L P discovery_port service_port receiver sender scanner t
  AnswersEnd t (err e) = AnswersFail t e

  -- Serving over gRPC that ends with no error announced the service. Then packets came in, with no
  -- error, and each was answered: a request with a port in range by a submission of the service port
  -- to that port of its source, any other packet by no call. The calls for the packets and for the
  -- answers are interleaved, and there are no others. Serving that ends with an error was given port
  -- 0, and made no call; or could not announce the service; or it went on like this until the stream
  -- of packets failed, and then dropped the answers that had not come to an end.
  pub serve_internal-AnswersEnd :
      {t : Trace os} (r : Result (Unit {0}) ServeError)
      → Run
          (serve_internal F P discovery_port service_port receiver grpc_response_sender sender
            scanner)
          t
          r
      → AnswersEnd t r
  serve_internal-AnswersEnd (ok tt) q =
      serve_internal-AnswersAll F L P discovery_port service_port receiver sender scanner q
  serve_internal-AnswersEnd (err e) q = serve_internal-AnswersFail (
      serve_internal-err F L P discovery_port service_port receiver grpc_response_sender sender
        scanner q)
