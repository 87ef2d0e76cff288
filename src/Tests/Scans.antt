-- ===== src/Tests/Scans.antt =====
-- `scan` of main/src/scanner.rs as a whole, at a concrete input.
use tansa.Prelude.{false, List, [], ◌∷◌, Result, ok, err}
use tansa.Async.{done}
use tansa.Async.Stream.{Stream, finished, Sight, item, called, Flows, ends, gives, waited}
use tansa.Net.{ipv6, socket_addr_v6, v6}
use tansa.Protocol.{unwrap_response}
use tansa.Protocol.Decoder.{decode}
use tansa.Network.UdpSender.{unspecified, tokio_udp_sender}
use tansa.Network.UdpReceiver.{tokio_udp_receiver, tokio_receive, new_socket}
use tansa.Network.IpNeighbor.Select.{ip_neighbor_scanner, first_supported}
use tansa.Packet.{packet_receiver, receive, strip_protobuf_error, extract_ipv6}
use tansa.ResponseCollector.{new, grpc_collector, Router}
use tansa.Scanner.{
  scan, scan_internal, send_requests, receive_announcements, extract_service, ScanError,
  send_request, send_to_neighbors,
}
use tansa.Scanner.Whole.{Scanned, scan-Scanned}
use tansa.Service.{Service}
use tansa.StreamJoin.{join}
use tansa.Os.{
  os, tcp_bind, tcp_local_addr, health_set_serving, udp_bind, join_multicast_v6,
  set_multicast_loop_v6, print_discovered, send_to, spawn,
}
use tansa.Async.Runs.{Trace, Run, returns, replied}
use tansa.Network.IpNeighbor.{get_socket_address}
use tansa.Cli
use tansa.Cli.{main, print_service, scan_error}
use tansa.Cli.Printed.{ScanPrinted, main-ScanPrinted}
use tansa.Network.IpNeighbor.Linux.{ip_route2_scanner}
use tansa.Network.IpNeighbor.Windows.{power_shell_scanner}
use tansa.Process.{probe}
use tansa.Process.Outcomes.{probe_command}
use tansa.Cli.Stopped.{ScanStopped, main-ScanStopped}
use tansa.Tests.{read_rows, readers, futures, lawful, remote, wire, lost, framed}

abbrev grpc : Router
grpc = λ socket. done (ok tt)

abbrev silent : Stream os Service
silent = finished

-- The collector starts, an announcement is heard, and the request cannot be sent.
abbrev scan_sights : List (Sight os (Result Service ScanError))
scan_sights =
    called (tcp_bind (socket_addr_v6 unspecified 0 0 0), ok 5)
    ∷ called (tcp_local_addr 5, ok (v6 remote))
    ∷ called (health_set_serving, tt)
    ∷ called
        (spawn (probe_command "pwsh" ("-Command" ∷ "Get-Command Get-NetNeighbor" ∷ [])), err lost)
    ∷ called (spawn (probe_command "ip" ("-Version" ∷ [])), err lost)
    ∷ called (udp_bind (socket_addr_v6 unspecified 50000 0 0), ok 4)
    ∷ called (join_multicast_v6 4 (ipv6 0xff05 0 0 0 0 0 0xf329 0x58af) 0, ok tt)
    ∷ called (set_multicast_loop_v6 4 false, ok tt)
    ∷ item (ok (record { address = record remote { port = 8 } }))
    ∷ called (udp_bind (socket_addr_v6 unspecified 0 0 0), err lost)
    ∷ item (err (send_request lost))
    ∷ []

scan_flow : Flows (scan futures wire framed false grpc silent read_rows readers 50000) scan_sights
unfolding scan new grpc_collector ip_neighbor_scanner first_supported power_shell_scanner
    ip_route2_scanner probe scan_internal join receive_announcements extract_service unwrap_response
    send_requests tokio_udp_sender tokio_udp_receiver tokio_receive new_socket packet_receiver
    receive strip_protobuf_error extract_ipv6 decode
scan_flow = waited _ (ok 5) (
    waited _ (ok (v6 remote)) (
      waited _ tt (
        waited _ (err lost) (
          waited _ (err lost) (
            waited _ (ok 4) (
              waited _ (ok tt)
                (waited _ (ok tt) (gives _ (waited _ (err lost) (gives _ ends))))))))))

scan-Scanned_example :
    Scanned futures lawful wire framed false grpc silent read_rows readers 50000 scan_sights
scan-Scanned_example =
    scan-Scanned futures lawful wire framed false grpc silent read_rows readers 50000 scan_flow

-- The collector starts, an announcement is heard and printed, and the requests are sent.
abbrev main_trace : Trace os
main_trace =
    (tcp_bind (socket_addr_v6 unspecified 0 0 0), ok 5)
    ∷ (tcp_local_addr 5, ok (v6 remote))
    ∷ (health_set_serving, tt)
    ∷ (spawn (probe_command "pwsh" ("-Command" ∷ "Get-Command Get-NetNeighbor" ∷ [])), err lost)
    ∷ (spawn (probe_command "ip" ("-Version" ∷ [])), err lost)
    ∷ (udp_bind (socket_addr_v6 unspecified 50000 0 0), ok 4)
    ∷ (join_multicast_v6 4 (ipv6 0xff05 0 0 0 0 0 0xf329 0x58af) 0, ok tt)
    ∷ (set_multicast_loop_v6 4 false, ok tt)
    ∷ (print_discovered (record remote { port = 8 }), tt)
    ∷ (udp_bind (socket_addr_v6 unspecified 0 0 0), ok 1)
    ∷ (join_multicast_v6 1 (ipv6 0xff05 0 0 0 0 0 0xf329 0x58af) 0, ok tt)
    ∷ (
      send_to 1 (0 ∷ 2 ∷ []) (socket_addr_v6 (ipv6 0xff05 0 0 0 0 0 0xf329 0x58af) 50000 0 0),
      ok 2,
    )
    ∷ []

main_run :
    Run
      (main futures wire framed false grpc silent read_rows readers (Cli.scan 50000))
      main_trace
      (ok tt)
unfolding main print_service scan new grpc_collector ip_neighbor_scanner first_supported
    power_shell_scanner ip_route2_scanner probe scan_internal join receive_announcements
    extract_service unwrap_response send_requests send_to_neighbors get_socket_address
    tokio_udp_sender tokio_udp_receiver tokio_receive new_socket packet_receiver receive
    strip_protobuf_error extract_ipv6 decode
main_run = replied _ (ok 5) (
    replied _ (ok (v6 remote)) (
      replied _ tt (
        replied _ (err lost) (
          replied _ (err lost) (
            replied _ (ok 4) (
              replied _ (ok tt) (
                replied _ (ok tt) (
                  replied _ tt
                    (replied _ (ok 1) (replied _ (ok tt) (replied _ (ok 2) (returns _))))))))))))

main-ScanPrinted_example :
    ScanPrinted futures lawful wire framed false grpc silent read_rows readers 50000 main_trace
main-ScanPrinted_example =
    main-ScanPrinted futures lawful wire framed false grpc silent read_rows readers 50000 main_run

-- The announcement is printed before the socket for the requests cannot be bound.
abbrev stopped_trace : Trace os
stopped_trace =
    (tcp_bind (socket_addr_v6 unspecified 0 0 0), ok 5)
    ∷ (tcp_local_addr 5, ok (v6 remote))
    ∷ (health_set_serving, tt)
    ∷ (spawn (probe_command "pwsh" ("-Command" ∷ "Get-Command Get-NetNeighbor" ∷ [])), err lost)
    ∷ (spawn (probe_command "ip" ("-Version" ∷ [])), err lost)
    ∷ (udp_bind (socket_addr_v6 unspecified 50000 0 0), ok 4)
    ∷ (join_multicast_v6 4 (ipv6 0xff05 0 0 0 0 0 0xf329 0x58af) 0, ok tt)
    ∷ (set_multicast_loop_v6 4 false, ok tt)
    ∷ (print_discovered (record remote { port = 8 }), tt)
    ∷ (udp_bind (socket_addr_v6 unspecified 0 0 0), err lost)
    ∷ []

stopped_run :
    Run
      (main futures wire framed false grpc silent read_rows readers (Cli.scan 50000))
      stopped_trace
      (err (scan_error (send_request lost)))
unfolding main print_service scan new grpc_collector ip_neighbor_scanner first_supported
    power_shell_scanner ip_route2_scanner probe scan_internal join receive_announcements
    extract_service unwrap_response send_requests send_to_neighbors get_socket_address
    tokio_udp_sender tokio_udp_receiver tokio_receive new_socket packet_receiver receive
    strip_protobuf_error extract_ipv6 decode
stopped_run = replied _ (ok 5) (
    replied _ (ok (v6 remote)) (
      replied _ tt (
        replied _ (err lost) (
          replied _ (err lost) (
            replied _ (ok 4) (
              replied _ (ok tt)
                (replied _ (ok tt) (replied _ tt (replied _ (err lost) (returns _))))))))))

main-ScanStopped_example :
    ScanStopped futures lawful wire framed false grpc silent read_rows readers 50000
      (scan_error (send_request lost))
      stopped_trace
main-ScanStopped_example =
    main-ScanStopped futures lawful wire framed false grpc silent read_rows readers 50000
      stopped_run
