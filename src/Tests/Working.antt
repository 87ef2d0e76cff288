-- ===== src/Tests/Working.antt =====
-- The announcement and the requests on a system that works, in which PowerShell is there.
use tansa.Prelude.{◌≡◌, true, false, [], ◌∷◌, ok, arith, Result}
use tansa.Async.Runs.{Trace, Run, returns, replied}
use tansa.Async.Execute.{execute}
use tansa.Net.{socket_addr_v6, ipv6, SocketAddrV6, get_discovery_ip}
use tansa.Protocol.{Request, from_request}
use tansa.Process.{probe}
use tansa.Process.Outcomes.{probe_command}
use tansa.Network.UdpSender.{tokio_udp_sender}
use tansa.Network.IpNeighbor.{IpNeighborScanner}
use tansa.Network.IpNeighbor.Linux.{ip_route2_scanner}
use tansa.Network.IpNeighbor.Windows.{power_shell_scanner}
use tansa.Network.IpNeighbor.Select.{scanners, ip_neighbor_scanner, first_supported}
use tansa.Network.IpNeighbor.Selected.{Chosen, ip_neighbor_scanner-Chosen}
use tansa.Network.IpNeighbor.Robust.{parsable}
use tansa.Tests.Systems.{prints, working, working-Works}
use tansa.Os.Works.{Outputs}
use tansa.Server.{announce, serve_internal, ServeError, serve}
use tansa.Server.Delivery as ServerDelivery
use tansa.Server.Delivery.{announce-delivers}
use tansa.Scanner.{send_requests}
use tansa.Scanner.Delivery as ScannerDelivery
use tansa.Scanner.Delivery.{send_requests-delivers}
use tansa.Os.{os, spawn, wait}
use mathlib.Core.List.{not-mem-nil, mem-cons}
use mathlib.Core.Logic.Or
use mathlib.Core.HLevel.{⊥_prop}
use tansa.Async.Stream.{gives, ends, yields, finished}
use tansa.Protocol.Decoder.{decode}
use tansa.Server.Whole.{Serving}
use tansa.Server.Sockets.{serve-Serves}
use tansa.Packet.Sockets.{FramesWell}
use tansa.Tests.{framed, futures, lawful, remote, wire, read_rows, readers}
use tansa.Async.ForEach.{gives_ok}
use tansa.Packet.{DiscoveryPacketReceiver}
use tansa.ResponseSender.{grpc_response_sender}
use tansa.Os.Reliable.{IsReliable}
use tansa.Server.Working.{Serves, serve_internal-Serves}

abbrev pub choosing : Trace os
choosing =
    (spawn (probe_command "pwsh" ("-Command" ∷ "Get-Command Get-NetNeighbor" ∷ [])), ok 1)
    ∷ (wait 1, ok true)
    ∷ []

abbrev pub chosen : IpNeighborScanner os
chosen = power_shell_scanner read_rows

chosen_run : Run (ip_neighbor_scanner futures read_rows readers) choosing chosen
unfolding ip_neighbor_scanner first_supported power_shell_scanner ip_route2_scanner probe
chosen_run = replied _ (ok 1) (replied _ (ok true) (returns _))

pub chosen_first : Chosen (scanners read_rows readers) choosing chosen
chosen_first =
    ip_neighbor_scanner-Chosen futures lawful read_rows readers choosing chosen chosen_run

abbrev pub group : SocketAddrV6
group = socket_addr_v6 (ipv6 0xff05 0 0 0 0 0 0xf329 0x58af) 50000 0 0

announce-delivers_example :
    ((execute working [] (announce futures wire group 10 (tokio_udp_sender false) chosen)).1
      ≡ ok tt)
    × ServerDelivery.Delivered futures lawful false wire group 10 chosen
        (execute working [] (announce futures wire group 10 (tokio_udp_sender false) chosen)).0
announce-delivers_example =
    announce-delivers futures lawful false read_rows readers prints chosen choosing chosen_first
      wire group 10 working working-Works

abbrev asking : Request
asking = record { response_collector_port = 3 }

send_requests-delivers_example :
    ((execute working [] (send_requests wire (tokio_udp_sender true) chosen asking 50000)).1
      ≡ ok tt)
    × ScannerDelivery.Delivered true wire asking 50000 chosen
        (execute working [] (send_requests wire (tokio_udp_sender true) chosen asking 50000)).0
send_requests-delivers_example =
    send_requests-delivers true read_rows readers prints chosen choosing chosen_first wire asking
      50000 working working-Works

-- One request, after which the socket is closed.
abbrev brief_receiver : DiscoveryPacketReceiver os
brief_receiver = record {
  receive = λ ip port.
      yields (ok (from_request (record { response_collector_port = 3 }), remote)) finished;
}

brief-IsReliable :
    IsReliable (parsable read_rows readers prints) (brief_receiver.receive get_discovery_ip 50000)
brief-IsReliable e _ g (gives_ok _ b) = elim b [ ]

abbrev served : Trace os × Result (Unit {0}) ServeError
served = execute working [] (
    serve_internal futures wire 50000 10 brief_receiver grpc_response_sender
      (tokio_udp_sender false) chosen)

serve_internal-Serves_example :
    (served.1 ≡ ok tt) × Serves futures lawful false wire 50000 10 brief_receiver chosen served.0
serve_internal-Serves_example =
    serve_internal-Serves futures lawful false wire 50000 10 brief_receiver chosen read_rows readers
      prints choosing chosen_first (λ e. omega arith) brief-IsReliable working working-Works

-- The socket of the examples shows no error.
pub framed_shows : (W : Outputs) → FramesWell W futures lawful wire framed
unfolding decode
framed_shows W socket _ (gives _ (gives _ (gives _ ends))) g e m =
    Or.elim ⊥_prop (mem-cons.0 m) (λ p. cc p)
      (λ m₁.
        Or.elim ⊥_prop (mem-cons.0 m₁) (λ p. cc p)
          (λ m₂. Or.elim ⊥_prop (mem-cons.0 m₂) (λ p. cc p) not-mem-nil))

abbrev served_whole : Trace os × Result (Unit {0}) ServeError
served_whole = execute working [] (serve futures wire framed false read_rows readers 50000 10)

serve-Serves_example :
    (served_whole.1 ≡ ok tt)
    × Serving futures lawful wire framed false read_rows readers 50000 10 served_whole.0 (ok tt)
serve-Serves_example =
    serve-Serves futures lawful wire framed false read_rows readers 50000 10 prints
      (λ e. omega arith) (framed_shows (parsable read_rows readers prints)) working working-Works
