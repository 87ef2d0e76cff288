-- ===== src/Tests/WorkingScans.antt =====
-- A scan over the network on a system that works, in which PowerShell finds one neighbor.
use tansa.Prelude.{refl, false, true, some, List, [], ◌∷◌, Result, ok, arith}
use tansa.Async.{done}
use tansa.Async.Execute.{AllGood, no_event, good_event, value-IsRobust}
use tansa.Async.Stream.{Sight, item, called, calls, finished, Flows, ends, gives, waited}
use tansa.Net.{ipv6, socket_addr_v6, v6, get_discovery_ip}
use tansa.Protocol.{unwrap_response}
use tansa.Protocol.Decoder.{decode}
use tansa.Process.{eval, read_stdout, probe}
use tansa.Process.Outcomes.{eval_command, probe_command}
use tansa.Network.UdpSender.{tokio_udp_sender, unspecified}
use tansa.Network.UdpReceiver.{tokio_udp_receiver, tokio_receive, new_socket}
use tansa.Network.IpNeighbor.{get_socket_address, is_valid_ip}
use tansa.Network.IpNeighbor.Linux.{ip_route2_scanner}
use tansa.Network.IpNeighbor.Windows
use tansa.Network.IpNeighbor.Windows.{power_shell_scanner, print_ip_neighbors}
use tansa.Network.IpNeighbor.Select.{ip_neighbor_scanner, first_supported}
use tansa.Packet.{packet_receiver, receive, strip_protobuf_error, extract_ipv6}
use tansa.ResponseCollector.{new, grpc_collector, Router}
use tansa.Service.{Service}
use tansa.StreamJoin.{join}
use tansa.Scanner.{
  scan, scan_internal, send_requests, send_to_neighbors, receive_announcements, extract_service,
  ScanError,
}
use tansa.Scanner.Sockets.{Scans, scan-Scans}
use tansa.Os.{
  os, spawn, take_stdin, take_stdout, write_all, close, wait, read_to_end, udp_bind,
  join_multicast_v6, set_multicast_loop_v6, send_to, tcp_bind, tcp_local_addr, health_set_serving,
}
use tansa.Os.Works.{Works}
use tansa.Network.IpNeighbor.Robust.{parsable}
use tansa.Tests.Systems.{prints, started-IsParsable}
use tansa.Tests.Working.{framed_shows}
use tansa.Tests.{futures, lawful, remote, near, wire, read_rows, readers, framed}

abbrev grpc : Router
grpc = λ socket. done (ok tt)

-- The collector starts, a scanner is chosen, an announcement comes, and the requests go out.
abbrev sights : List (Sight os (Result Service ScanError))
sights =
    called (tcp_bind (socket_addr_v6 unspecified 0 0 0), ok 5)
    ∷ called (tcp_local_addr 5, ok (v6 remote))
    ∷ called (health_set_serving, tt)
    ∷ called (spawn (probe_command "pwsh" ("-Command" ∷ "Get-Command Get-NetNeighbor" ∷ [])), ok 1)
    ∷ called (wait 1, ok true)
    ∷ called (udp_bind (socket_addr_v6 unspecified 50000 0 0), ok 4)
    ∷ called (join_multicast_v6 4 (ipv6 0xff05 0 0 0 0 0 0xf329 0x58af) 0, ok tt)
    ∷ called (set_multicast_loop_v6 4 false, ok tt)
    ∷ item (ok (record { address = record remote { port = 8 } }))
    ∷ called (udp_bind (socket_addr_v6 unspecified 0 0 0), ok 4)
    ∷ called (join_multicast_v6 4 get_discovery_ip 0, ok tt)
    ∷ called (send_to 4 (0 ∷ 2 ∷ []) (socket_addr_v6 get_discovery_ip 50000 0 0), ok 2)
    ∷ called (spawn (eval_command "pwsh" ("-Command" ∷ "-" ∷ [])), ok 1)
    ∷ called (take_stdin 1, some 2)
    ∷ called (write_all 2 print_ip_neighbors, ok tt)
    ∷ called (close 2, tt)
    ∷ called (wait 1, ok true)
    ∷ called (take_stdout 1, some 3)
    ∷ called (read_to_end 3, ok (34 ∷ []))
    ∷ called (udp_bind (socket_addr_v6 unspecified 0 0 0), ok 4)
    ∷ called (send_to 4 (0 ∷ 2 ∷ []) (socket_addr_v6 near 50000 0 1000), ok 2)
    ∷ []

flow : Flows (scan futures wire framed false grpc finished read_rows readers 50000) sights
unfolding scan new grpc_collector ip_neighbor_scanner first_supported power_shell_scanner
    ip_route2_scanner probe scan_internal join receive_announcements extract_service unwrap_response
    send_requests send_to_neighbors tokio_udp_sender get_socket_address tokio_udp_receiver
    tokio_receive new_socket packet_receiver receive strip_protobuf_error extract_ipv6 decode
    Windows.scan Windows.parse_output Windows.useful is_valid_ip eval read_stdout get_discovery_ip
flow = waited _ (ok 5) (
    waited _ (ok (v6 remote)) (
      waited _ tt (
        waited _ (ok 1) (
          waited _ (ok true) (
            waited _ (ok 4) (
              waited _ (ok tt) (
                waited _ (ok tt) (
                  gives _ (
                    waited _ (ok 4) (
                      waited _ (ok tt) (
                        waited _ (ok 2) (
                          waited _ (ok 1) (
                            waited _ (some 2) (
                              waited _ (ok tt) (
                                waited _ tt (
                                  waited _ (ok true) (
                                    waited _ (some 3) (
                                      waited _ (ok (34 ∷ []))
                                        (waited _ (ok 4) (waited _ (ok 2) ends))))))))))))))))))))

good : AllGood (Works (parsable read_rows readers prints)) (calls sights)
good = good_event _ _ tt (
    good_event _ _ tt (
      good_event _ _ tt (
        good_event _ _ (started-IsParsable _) (
          good_event _ _ tt (
            good_event _ _ tt (
              good_event _ _ tt (
                good_event _ _ tt (
                  good_event _ _ tt (
                    good_event _ _ tt (
                      good_event _ _ tt (
                        good_event _ _ (started-IsParsable _) (
                          good_event _ _ tt (
                            good_event _ _ tt (
                              good_event _ _ tt (
                                good_event _ _ tt (
                                  good_event _ _ refl (
                                    good_event _ _ refl (
                                      good_event _ _ tt
                                        (good_event _ _ tt (no_event))))))))))))))))))))

scan-Scans_example :
    Scans futures lawful wire framed false grpc finished read_rows readers 50000 sights
scan-Scans_example =
    scan-Scans futures lawful wire framed false grpc finished read_rows readers 50000 prints
      (λ e. omega arith) (framed_shows (parsable read_rows readers prints))
      (λ socket. value-IsRobust (Works (parsable read_rows readers prints)) tt) flow good
