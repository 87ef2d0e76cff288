-- ===== src/Server/Sockets.antt =====
-- `serve` of main/src/server.rs over the sockets of tokio, on a system that works.
use tansa.Prelude.{[], ℕ, ◌≡◌, ◌≢◌, subst, Bool, List, Result, ok}
use tansa.Async.{Async}
use tansa.Async.Runs.{Trace, split}
use tansa.Async.Futures.{FuturesUtil, IsLawful}
use tansa.Async.Execute.{Answer, execute, execute-ok, AllGood, AllGood-append, IsRobust}
use tansa.Net.{get_discovery_ip}
use tansa.Protocol.{Bytes, DiscoveryPacket, Prost}
use tansa.Network.UdpReceiver.{UdpFramed, tokio_udp_receiver}
use tansa.Network.IpNeighbor.{CsvError}
use tansa.Network.IpNeighbor.Linux.{Readers}
use tansa.Network.IpNeighbor.Windows.{NetNeighbor}
use tansa.Network.IpNeighbor.Selected.{ip_neighbor_scanner-Chosen}
use tansa.Network.IpNeighbor.Robust.{parsable, Chosen-IsRobust}
use tansa.Packet.{packet_receiver}
use tansa.Server.{serve, ServeError}
use tansa.Server.Whole.{Serving, serve-Serving}
use tansa.Server.Working.{serve_internal-IsRobust}
use tansa.Os.{os, OsCall, OsReply, Handle}
use tansa.Os.Reliable.{ShowsNoErrors-IsReliable}
use tansa.Os.Works.{Outputs, Works}
use tansa.Packet.Sockets.{FramesWell, packet_receiver-ShowsNoErrors}

module _ (F : FuturesUtil os) (L : IsLawful F) (P : Prost DiscoveryPacket) (framed : UdpFramed)
    (debug : Bool) (read : Bytes → List (Result NetNeighbor CsvError)) (R : Readers)
    (discovery_port service_port : ℕ) (prints : Handle → Bytes) where
  abbrev W : Outputs
  W = parsable read R prints

  abbrev serving : Async os (Result (Unit {0}) ServeError)
  serving = serve F P framed debug read R discovery_port service_port

  serve-IsRobust :
      ((c : OsCall) → (r : OsReply c) × Works W c r)
      → discovery_port ≢ 0
      → FramesWell W F L P framed
      → IsRobust (Works W) serving
  unfolding serve
  serve-IsRobust reply given well t e g q =
      let w = split _ _ q in
      let c = ip_neighbor_scanner-Chosen F L read R w.before w.value w.first in
      let gs = AllGood-append (Works W) w.before w.after (subst (AllGood (Works W)) w.whole g) in
      serve_internal-IsRobust F L debug P discovery_port service_port
        (packet_receiver F P (tokio_udp_receiver F framed)) w.value W given
        (ShowsNoErrors-IsReliable W reply _
          (packet_receiver-ShowsNoErrors W F L P framed get_discovery_ip discovery_port well))
        (Chosen-IsRobust read R prints c) w.after e gs.1 w.rest

  -- On a system that works, where the commands of the scanners for neighbors print what can be
  -- parsed, with a port other than 0 and a socket that shows no error of the network while its
  -- calls succeed, `serve` returns no error when the packets have come to their end. It chose a
  -- scanner for neighbors, announced the service, and then answered every packet that came over
  -- IPv6 and could be decoded: a request with a port in range by a submission to that port of its
  -- source, any other by no call.
  pub serve-Serves :
      discovery_port ≢ 0
      → FramesWell W F L P framed
      → (answer : Answer os) → ((past : Trace os) (c : os.Call) → Works W c (answer past c))
      → ((execute answer [] serving).1 ≡ ok tt)
        × Serving F L P framed debug read R discovery_port service_port
            (execute answer [] serving).0
            (ok tt)
  serve-Serves given well answer works =
      let robust = serve-IsRobust (λ c. (answer [] c, works [] c)) given well in
      let w = execute-ok (Works W) serving robust answer works [] in
      (w.0, serve-Serving F L P framed debug read R discovery_port service_port w.1)
