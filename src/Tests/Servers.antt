-- ===== src/Tests/Servers.antt =====
-- main/src/server.rs at concrete inputs.
use tansa.Cli
use tansa.Cli.{main}
use tansa.Cli.Served.{ServesAs, main-ServesAs}
use tansa.Async.{done}
use tansa.Prelude.{◌≡◌, refl, false, some, [], ◌∷◌, ◌++◌, ok, err, arith}
use tansa.Async.Runs.{Trace, Run, returns, replied}
use tansa.Async.Stream.{finished}
use tansa.Net.{ipv6, socket_addr_v6, SocketAddrV6}
use tansa.Net.Display.{chars, print_socket_addr}
use tansa.Protocol.{from_request, unwrap_request, DiscoveryPacket}
use tansa.Network.UdpSender.{UdpSender, tokio_udp_sender, unspecified}
use tansa.Network.IpNeighbor.{get_socket_address}
use tansa.ResponseSender.{grpc_response_sender}
use tansa.Packet.{packet_receiver, receive, strip_protobuf_error, extract_ipv6}
use tansa.Server.{
  serve_internal, announce, announce_to_ip_neighbors, handle, handle_packet,
  get_response_collector_address, network_io, serve,
}
use tansa.Server.Serve.{ServeEnds, serve_internal-ServeEnds}
use tansa.Os.{
  os, udp_bind, join_multicast_v6, send_to, grpc_connect, grpc_submit_response,
  set_multicast_loop_v6, spawn,
}
use tansa.Server.Announce.{AnnounceEnds, announce-AnnounceEnds}
use tansa.Protocol.Decoder.{decode}
use tansa.Network.IpNeighbor.Select.{ip_neighbor_scanner, first_supported}
use tansa.Network.UdpReceiver.{tokio_udp_receiver, tokio_receive, new_socket}
use tansa.Server.Whole.{Serving, serve-Serving}
use tansa.Network.IpNeighbor.Linux.{ip_route2_scanner}
use tansa.Network.IpNeighbor.Windows.{power_shell_scanner}
use tansa.Process.{probe}
use tansa.Process.Outcomes.{probe_command}
use tansa.Server.Answers.{collector_url}
use tansa.Server.Interrupted.{AnswersEnd, serve_internal-AnswersEnd}
use tansa.Scanner.EndToEnd.{Discovers, request-Discovers}
use tansa.Tests.{
  channel, channel-IsChannel, read_rows, readers, framed, wire-IsWireFormat, wire-WritesPayload,
  futures, lawful, remote, near, wire, lost, receiver, scanner,
}

-- The URL of the test `serve` of the source.
remote_url : get_response_collector_address remote 3 ≡ chars "http://[::123%456]:3"
unfolding get_response_collector_address print_socket_addr
remote_url = refl

sender : UdpSender os
unfolding tokio_udp_sender
sender = tokio_udp_sender false

abbrev announced : Trace os
announced =
    (udp_bind (socket_addr_v6 unspecified 0 0 0), ok 1)
    ∷ (join_multicast_v6 1 (ipv6 0xff05 0 0 0 0 0 0xf329 0x58af) 0, ok tt)
    ∷ (
      send_to 1 (1 ∷ 10 ∷ []) (socket_addr_v6 (ipv6 0xff05 0 0 0 0 0 0xf329 0x58af) 50000 0 0),
      ok 2,
    )
    ∷ (udp_bind (socket_addr_v6 unspecified 0 0 0), ok 2)
    ∷ (send_to 2 (1 ∷ 10 ∷ []) (socket_addr_v6 near 50000 0 1000), ok 2)
    ∷ []

abbrev answered : Trace os
answered =
    (grpc_connect (chars "http://[::123%456]:3"), ok 7)
    ∷ (grpc_submit_response 7 (record { service_port = 10 }), ok tt)
    ∷ []

-- The announcement goes out, the request is answered, and the failure of the socket ends serving.
served_run :
    Run
      (serve_internal futures wire 50000 10 receiver grpc_response_sender sender scanner)
      (announced ++ answered)
      (err (network_io lost))
unfolding unwrap_request serve_internal announce announce_to_ip_neighbors handle handle_packet
    sender grpc_response_sender get_response_collector_address print_socket_addr get_socket_address
served_run = replied _ (ok 1) (
    replied _ (ok tt) (
      replied _ (ok 2)
        (replied _ (ok 2) (replied _ (ok 2) (replied _ (ok 7) (replied _ (ok tt) (returns _)))))))

serve_internal-ServeEnds_example :
    ServeEnds futures lawful wire 50000 10 receiver grpc_response_sender sender scanner
      (announced ++ answered)
      (err (network_io lost))
serve_internal-ServeEnds_example =
    serve_internal-ServeEnds futures lawful wire 50000 10 receiver grpc_response_sender sender
      scanner (err (network_io lost)) served_run

serve_internal-AnswersEnd_example :
    AnswersEnd futures lawful wire 50000 10 receiver sender scanner
      (announced ++ answered)
      (err (network_io lost))
serve_internal-AnswersEnd_example =
    serve_internal-AnswersEnd futures lawful wire 50000 10 receiver sender scanner
      (err (network_io lost)) served_run

abbrev group : SocketAddrV6
group = socket_addr_v6 (ipv6 0xff05 0 0 0 0 0 0xf329 0x58af) 50000 0 0

-- The socket for the neighbor cannot be bound.
abbrev not_announced : Trace os
not_announced =
    (udp_bind (socket_addr_v6 unspecified 0 0 0), ok 1)
    ∷ (join_multicast_v6 1 (ipv6 0xff05 0 0 0 0 0 0xf329 0x58af) 0, ok tt)
    ∷ (send_to 1 (1 ∷ 10 ∷ []) group, ok 2)
    ∷ (udp_bind (socket_addr_v6 unspecified 0 0 0), err lost)
    ∷ []

not_announced_run :
    Run (announce futures wire group 10 sender scanner) not_announced (err (network_io lost))
unfolding announce announce_to_ip_neighbors sender get_socket_address
not_announced_run =
    replied _ (ok 1) (replied _ (ok tt) (replied _ (ok 2) (replied _ (err lost) (returns _))))

announce-AnnounceEnds_example :
    AnnounceEnds futures lawful sender wire group 10 scanner not_announced (err (network_io lost))
announce-AnnounceEnds_example =
    announce-AnnounceEnds futures lawful sender wire group 10 scanner (err (network_io lost))
      not_announced_run

abbrev request_at_3 : DiscoveryPacket
request_at_3 = from_request (record { response_collector_port = 3 })

-- `[fe80::a]:2` is the server that answers the request.
abbrev answering : SocketAddrV6
answering = socket_addr_v6 near 2 0 456

answering_run : Run (handle_packet request_at_3 remote 10 grpc_response_sender) answered (ok tt)
unfolding unwrap_request handle_packet grpc_response_sender get_response_collector_address
    print_socket_addr
answering_run = replied _ (ok 7) (replied _ (ok tt) (returns _))

request_decoded :
    decode wire (wire.encode_to_vec (from_request (record { response_collector_port = 3 })))
    ≡ (ok (some request_at_3), [])
unfolding decode
request_decoded = refl

request-Discovers_example :
    Discovers wire wire-IsWireFormat wire-WritesPayload channel channel-IsChannel answering 10
      (collector_url remote 3)
      (chars "http://[::123%456]:3")
      (record { service_port = 10 })
      (false, [])
request-Discovers_example =
    request-Discovers wire wire-IsWireFormat wire-WritesPayload channel channel-IsChannel remote
      answering 3 10 (λ e. omega arith, omega arith) request_at_3 [] request_decoded
      (chars "http://[::123%456]:3") 7 (record { service_port = 10 }) (ok tt) (ok tt) answering_run
      (false, []) refl

-- Neither command for neighbors can be spawned. None of the three datagrams is a request over IPv6.
abbrev whole_trace : Trace os
whole_trace =
    (spawn (probe_command "pwsh" ("-Command" ∷ "Get-Command Get-NetNeighbor" ∷ [])), err lost)
    ∷ (spawn (probe_command "ip" ("-Version" ∷ [])), err lost)
    ∷ (udp_bind (socket_addr_v6 unspecified 0 0 0), ok 1)
    ∷ (join_multicast_v6 1 (ipv6 0xff05 0 0 0 0 0 0xf329 0x58af) 0, ok tt)
    ∷ (send_to 1 (1 ∷ 10 ∷ []) group, ok 2)
    ∷ (udp_bind (socket_addr_v6 unspecified 50000 0 0), ok 4)
    ∷ (join_multicast_v6 4 (ipv6 0xff05 0 0 0 0 0 0xf329 0x58af) 0, ok tt)
    ∷ (set_multicast_loop_v6 4 false, ok tt)
    ∷ []

whole_run : Run (serve futures wire framed false read_rows readers 50000 10) whole_trace (ok tt)
unfolding serve ip_neighbor_scanner first_supported power_shell_scanner ip_route2_scanner probe
    unwrap_request serve_internal announce announce_to_ip_neighbors handle handle_packet
    tokio_udp_sender tokio_udp_receiver tokio_receive new_socket get_socket_address packet_receiver
    receive strip_protobuf_error extract_ipv6 decode
whole_run = replied _ (err lost) (
    replied _ (err lost) (
      replied _ (ok 1) (
        replied _ (ok tt) (
          replied _ (ok 2)
            (replied _ (ok 4) (replied _ (ok tt) (replied _ (ok tt) (returns _))))))))

serve-Serving_example :
    Serving futures lawful wire framed false read_rows readers 50000 10 whole_trace (ok tt)
serve-Serving_example =
    serve-Serving futures lawful wire framed false read_rows readers 50000 10 whole_run

main_run :
    Run
      (main futures wire framed false
        (λ socket. done (ok tt))
        finished
        read_rows
        readers
        (Cli.serve 50000 10))
      whole_trace
      (ok tt)
unfolding main serve ip_neighbor_scanner first_supported power_shell_scanner ip_route2_scanner probe
    unwrap_request serve_internal announce announce_to_ip_neighbors handle handle_packet
    tokio_udp_sender tokio_udp_receiver tokio_receive new_socket get_socket_address packet_receiver
    receive strip_protobuf_error extract_ipv6 decode
main_run = replied _ (err lost) (
    replied _ (err lost) (
      replied _ (ok 1) (
        replied _ (ok tt) (
          replied _ (ok 2)
            (replied _ (ok 4) (replied _ (ok tt) (replied _ (ok tt) (returns _))))))))

main-ServesAs_example :
    ServesAs futures lawful wire framed false
      (λ socket. done (ok tt))
      finished
      read_rows
      readers
      50000
      10
      whole_trace
      (ok tt)
main-ServesAs_example =
    main-ServesAs futures lawful wire framed false (λ socket. done (ok tt)) finished read_rows
      readers 50000 10 (ok tt) main_run
