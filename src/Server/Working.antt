-- ===== src/Server/Working.antt =====
-- A server on a system that works: `serve_internal` of main/src/server.rs from the announcement to
-- the end of the packets.
use tansa.Prelude.{
  ℕ, ◌≡◌, ◌≢◌, subst, sym, Bool, false, List, [], ◌∷◌, Result, ok, ◌==◌, ==_iff, Bool-cases, inl,
  inr,
}
use tansa.Async.{Async}
use tansa.Async.Runs.{Trace}
use tansa.Async.Try.{◌>>=◌, with_error}
use tansa.Async.Stream.{Stream}
use tansa.Async.Shuffle.{Picks, here, there, AllEmpty, empty, also, Shuffle, over, take}
use tansa.Async.ForEach.{ForEach-err}
use tansa.Async.Futures.{FuturesUtil, IsLawful}
use tansa.Async.Execute.{
  Answer, execute, execute-ok, AllGood, no_event, good_event, IsRobust, bind-IsRobust,
  with_error-IsRobust,
}
use tansa.Net.{socket_addr_v6, get_discovery_ip, SocketAddrV6}
use tansa.Protocol.{Bytes, DiscoveryPacket, Prost, IoError}
use tansa.Network.UdpSender.{UdpSender, tokio_udp_sender}
use tansa.Network.IpNeighbor.{IpNeighborScanner, CsvError}
use tansa.Network.IpNeighbor.Linux.{Readers}
use tansa.Network.IpNeighbor.Windows.{NetNeighbor}
use tansa.Network.IpNeighbor.Select.{scanners}
use tansa.Network.IpNeighbor.Selected.{Chosen}
use tansa.Network.IpNeighbor.Quiet.{Chosen-IsQuiet}
use tansa.Network.IpNeighbor.Robust.{parsable, Chosen-IsRobust}
use tansa.Packet.{DiscoveryPacketReceiver}
use tansa.ResponseSender.{grpc_response_sender}
use tansa.Server.{serve_internal, announce, handle, ServeError, network_io}
use tansa.Server.Handle.{handle-NeverFails}
use tansa.Server.Answers.{AnswersAll, serve_internal-AnswersAll}
use tansa.Server.Delivery.{Delivered, Announced-Delivered, announce-IsRobust}
use tansa.Os.Reliable.{IsReliable}
use tansa.Os.{os, OsCall, OsReply, Handle}
use tansa.Os.Works.{Outputs, Works}

abbrev AllGoodEach : ((c : OsCall) → OsReply c → Type 0) → List (Trace os) → Type 0
AllGoodEach Good [] = Unit {0}
AllGoodEach Good (t ∷ ts) = AllGood Good t × AllGoodEach Good ts

AllEmpty-AllGoodEach :
    (Good : (c : OsCall) → OsReply c → Type 0) {ts : List (Trace os)}
    → AllEmpty ts
    → AllGoodEach Good ts
AllEmpty-AllGoodEach Good empty = tt
AllEmpty-AllGoodEach Good (also e) = (no_event, AllEmpty-AllGoodEach Good e)

Picks-AllGoodEach :
    (Good : (c : OsCall) → OsReply c → Type 0) {t u : Trace os} {ts us : List (Trace os)}
    → (AllGood Good u → AllGood Good t)
    → Picks ts t u us
    → AllGoodEach Good us
    → AllGoodEach Good ts
Picks-AllGoodEach Good more here g = (more g.0, g.1)
Picks-AllGoodEach Good more (there p) g = (g.0, Picks-AllGoodEach Good more p g.1)

Shuffle-AllGoodEach :
    (Good : (c : OsCall) → OsReply c → Type 0) {ts : List (Trace os)} {t : Trace os}
    → Shuffle ts t
    → AllGood Good t
    → AllGoodEach Good ts
Shuffle-AllGoodEach Good (over e) g = AllEmpty-AllGoodEach Good e
Shuffle-AllGoodEach Good (take p s) (good_event c r x g) =
    Picks-AllGoodEach Good (λ u. good_event c r x u) p (Shuffle-AllGoodEach Good s g)

module _ (F : FuturesUtil os) (L : IsLawful F) (debug : Bool) (P : Prost DiscoveryPacket)
    (discovery_port service_port : ℕ) (receiver : DiscoveryPacketReceiver os)
    (scanner : IpNeighborScanner os) where
  abbrev sender : UdpSender os
  sender = tokio_udp_sender debug

  abbrev address : SocketAddrV6
  address = socket_addr_v6 get_discovery_ip discovery_port 0 0

  abbrev packets : Stream os (Result (DiscoveryPacket × SocketAddrV6) IoError)
  packets = receiver.receive get_discovery_ip discovery_port

  abbrev loop : Async os (Result (Unit {0}) IoError)
  loop = F.try_for_each_concurrent 0 (handle F service_port grpc_response_sender) packets

  loop-IsRobust : (W : Outputs) → IsReliable W packets → IsRobust (Works W) loop
  loop-IsRobust W reliable t e g q =
      let b =
        ForEach-err (handle F service_port grpc_response_sender)
          (λ p. handle-NeverFails F L service_port grpc_response_sender p)
          (L.try_for_each_concurrent_lem _ packets q) in
      reliable e b.sights (Shuffle-AllGoodEach (Works W) b.shuffled g).0 b.flow

  abbrev serving : Async os (Result (Unit {0}) ServeError)
  serving =
      serve_internal F P discovery_port service_port receiver grpc_response_sender sender scanner

  past_zero :
      (discovery_port == 0) ≡ false
      → serving
        ≡ (announce F P address service_port sender scanner >>= λ _. with_error network_io loop)
  unfolding serve_internal
  past_zero n = rw n

  pub serve_internal-IsRobust :
      (W : Outputs)
      → discovery_port ≢ 0
      → IsReliable W packets
      → IsRobust (Works W) scanner.scan
      → IsRobust (Works W) serving
  serve_internal-IsRobust W given reliable robust = elim (Bool-cases (discovery_port == 0)) [
    | inl z ↦ absurd (given ((==_iff discovery_port 0).0 z))
    | inr n ↦
        subst (λ m. IsRobust (Works W) m) (sym (past_zero n))
          (bind-IsRobust (Works W) _ _
            (announce-IsRobust F L debug P address service_port scanner W robust)
            (λ _. with_error-IsRobust (Works W) network_io loop (loop-IsRobust W reliable)))
  ]

  -- Every packet was answered, and the datagrams of the announcement were sent.
  pub record Serves (t : Trace os) : Type 0 where
    pub answers : AnswersAll F L P discovery_port service_port receiver sender scanner t
    pub delivered : Delivered F L debug P address service_port scanner answers.announcement

  -- On a system that works, where the commands of the scanners for neighbors print what can be
  -- parsed, with a chosen scanner for neighbors, a port other than 0 and a stream of packets that
  -- gives no error there: a server returns no error when the packets have come to their end. Its
  -- datagrams for the announcement are one to the multicast address and one to each neighbor found,
  -- in some order; and after that every packet was answered, a request with a port in range by a
  -- submission to that port of its source.
  pub serve_internal-Serves :
      (read : Bytes → List (Result NetNeighbor CsvError)) (R : Readers) (prints : Handle → Bytes)
      (choosing : Trace os)
      → Chosen (scanners read R) choosing scanner
      → discovery_port ≢ 0
      → IsReliable (parsable read R prints) packets
      → (answer : Answer os)
      → ((past : Trace os) (c : os.Call) → Works (parsable read R prints) c (answer past c))
      → ((execute answer [] serving).1 ≡ ok tt) × Serves (execute answer [] serving).0
  serve_internal-Serves read R prints choosing c given reliable answer works =
      let w =
        execute-ok (Works (parsable read R prints)) serving
          (serve_internal-IsRobust (parsable read R prints) given reliable
            (Chosen-IsRobust read R prints c))
          answer works [] in
      let all =
        serve_internal-AnswersAll F L P discovery_port service_port receiver sender scanner w.1 in
      (
        w.0,
        record {
          answers = all;
          delivered =
              Announced-Delivered F L debug P address service_port scanner (Chosen-IsQuiet read R c)
                all.announced;
        },
      )
