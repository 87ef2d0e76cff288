-- ===== src/Server/Whole.antt =====
-- `serve` of main/src/server.rs as a whole: the scanner that it chooses, and how it then serves.
use tansa.Prelude.{List, ℕ, ◌≡◌, Bool, ◌++◌, Result}
use tansa.Async.Runs.{Trace, Run, split}
use tansa.Async.Futures.{FuturesUtil, IsLawful}
use tansa.Protocol.{DiscoveryPacket, Prost, Bytes}
use tansa.Network.UdpSender.{tokio_udp_sender}
use tansa.Network.UdpReceiver.{UdpFramed, tokio_udp_receiver}
use tansa.Network.IpNeighbor.{IpNeighborScanner, CsvError}
use tansa.Network.IpNeighbor.Selected.{Chosen, ip_neighbor_scanner-Chosen}
use tansa.Packet.{packet_receiver}
use tansa.Server.{serve, ServeError}
use tansa.Network.IpNeighbor.Windows.{NetNeighbor}
use tansa.Network.IpNeighbor.Linux.{Readers}
use tansa.Network.IpNeighbor.Select.{scanners}
use tansa.Server.Interrupted.{AnswersEnd, serve_internal-AnswersEnd}
use tansa.Os.{os}

module _ (F : FuturesUtil os) (L : IsLawful F) (P : Prost DiscoveryPacket) (framed : UdpFramed)
    (debug : Bool) (read_power_shell : Bytes → List (Result NetNeighbor CsvError))
    (read_ip_route2 : Readers) (discovery_port service_port : ℕ) where
  -- A scanner was chosen, PowerShell before `iproute2`, and then it was served with that one.
  pub record Serving (t : Trace os) (r : Result (Unit {0}) ServeError) : Type 0 where
    pub scanner : IpNeighborScanner os
    pub choosing : Trace os
    pub rest : Trace os
    pub whole : t ≡ choosing ++ rest
    pub chosen : Chosen (scanners read_power_shell read_ip_route2) choosing scanner
    pub ends :
        AnswersEnd F L P discovery_port service_port
          (packet_receiver F P (tokio_udp_receiver F framed))
          (tokio_udp_sender debug)
          scanner
          rest
          r

  -- Every run of `serve` chooses a scanner, PowerShell before `iproute2`, and then serves over the
  -- sockets of tokio and gRPC. With no error it announced the service and answered every packet: a
  -- request with a port in range by a submission of the service port to that port of its source, any
  -- other by no call. With an error it was given port 0, or could not announce, or went on like this
  -- until the stream of packets failed.
  pub serve-Serving :
      {t : Trace os} {r : Result (Unit {0}) ServeError}
      → Run (serve F P framed debug read_power_shell read_ip_route2 discovery_port service_port) t r
      → Serving t r
  unfolding serve
  serve-Serving {r} q =
      let w = split _ _ q in
      record {
        scanner = w.value;
        choosing = w.before;
        rest = w.after;
        whole = w.whole;
        chosen =
            ip_neighbor_scanner-Chosen F L read_power_shell read_ip_route2 w.before w.value w.first;
        ends = serve_internal-AnswersEnd F L P discovery_port service_port _ _ w.value r w.rest;
      }
