-- ===== src/Tests/Scanners.antt =====
-- main/src/scanner.rs, main/src/packet.rs and main/src/stream.rs at concrete inputs.
use tansa.Prelude.{ℕ, ◌≡◌, false, some, List, [], ◌∷◌, Result, ok, err, arith}
use tansa.Async.{Async, done}
use tansa.Async.Runs.{Trace, Run, returns, replied}
use tansa.Async.Stream.{Stream, Sight, item, called, yields, finished, Flows, ends, gives, waited}
use tansa.Async.Adaptors.{Sifted}
use tansa.Net.{ipv6, socket_addr_v6, SocketAddrV6, get_discovery_ip, set_port}
use tansa.Protocol.{
  from_request, from_response, DiscoveryPacket, IoError, io, unwrap_response, Request,
}
use tansa.Protocol.Decoder.{decode}
use tansa.Network.UdpSender.{UdpSender, tokio_udp_sender, unspecified}
use tansa.Network.UdpReceiver.{UdpReceiver}
use tansa.Network.IpNeighbor.{get_socket_address}
use tansa.Packet.{DiscoveryPacketReceiver, strip_protobuf_error, extract_ipv6, receive}
use tansa.Packet.Receive.{heard, receive-Sifted}
use tansa.ResponseCollector.{ResponseCollector}
use tansa.Scanner.{
  send_requests, send_to_neighbors, extract_service, receive_announcements, scan_internal,
  ScanError, send_request,
}
use tansa.Scanner.Extract.{announced, receive_announcements-Sifted}
use tansa.Scanner.Requests.{RequestEnds, send_requests-RequestEnds}
use tansa.Scanner.Discovered.{Shows, scan_internal-Shows}
use tansa.Scanner.RoundTrip.{announcement-extract_service}
use tansa.Service.{Service}
use tansa.StreamJoin.{join}
use tansa.StreamJoin.Items.{Beside, join-Beside}
use tansa.Os.{os, udp_bind, join_multicast_v6, send_to}
use tansa.Scanner.Sources.{Sourced, scan_internal-Sourced}
use tansa.Tests.{
  futures, lawful, remote, wire, wire-IsWireFormat, wire-WritesPayload, lost, scanner, framed,
}

-- The results of a stream, and the error of the future beside it.
abbrev joined : Stream os (Result ℕ ℕ)
joined = yields (ok 1) (yields (err 2) finished)

abbrev failing : Async os (Result ℕ ℕ)
failing = done (err 3)

abbrev joined_sights : List (Sight os (Result ℕ ℕ))
joined_sights = item (ok 1) ∷ item (err 2) ∷ item (err 3) ∷ []

join_flow : Flows (join futures (λ e. e) (λ e. e) failing joined) joined_sights
unfolding join
join_flow = gives _ (gives _ (gives _ ends))

join-Beside_example : Beside futures lawful (λ e. e) (λ e. e) failing joined joined_sights
join-Beside_example = join-Beside futures lawful (λ e. e) (λ e. e) failing joined join_flow

sender : UdpSender os
unfolding tokio_udp_sender
sender = tokio_udp_sender false

abbrev group : SocketAddrV6
group = socket_addr_v6 (ipv6 0xff05 0 0 0 0 0 0xf329 0x58af) 50000 0 0

abbrev asking : Request
asking = record { response_collector_port = 3 }

-- The socket for the neighbor cannot be bound.
abbrev half_asked : Trace os
half_asked =
    (udp_bind (socket_addr_v6 unspecified 0 0 0), ok 1)
    ∷ (join_multicast_v6 1 (ipv6 0xff05 0 0 0 0 0 0xf329 0x58af) 0, ok tt)
    ∷ (send_to 1 (0 ∷ 3 ∷ []) group, ok 2)
    ∷ (udp_bind (socket_addr_v6 unspecified 0 0 0), err lost)
    ∷ []

half_asked_run :
    Run (send_requests wire sender scanner asking 50000) half_asked (err (send_request lost))
unfolding send_requests send_to_neighbors sender get_socket_address
half_asked_run =
    replied _ (ok 1) (replied _ (ok tt) (replied _ (ok 2) (replied _ (err lost) (returns _))))

send_requests-RequestEnds_example :
    RequestEnds wire sender scanner asking 50000 half_asked (err (send_request lost))
send_requests-RequestEnds_example =
    send_requests-RequestEnds wire sender scanner asking 50000 (err (send_request lost))
      half_asked_run

-- A service on port 0 is accepted.
announcement-extract_service_example :
    (packet : DiscoveryPacket) × (decode wire
        (wire.encode_to_vec (from_response (record { service_port = 0 })))
      ≡ (ok (some packet), []))
    × (extract_service packet remote ≡ ok (record { address = set_port remote 0 }))
announcement-extract_service_example =
    announcement-extract_service wire wire-IsWireFormat wire-WritesPayload 0 remote (omega arith)

-- An announcement, a request, and a failure of the socket.
abbrev receiver : DiscoveryPacketReceiver os
receiver = record {
  receive = λ ip port.
      yields (ok (from_response (record { service_port = 8 }), remote))
        (yields (ok (from_request asking, remote)) (yields (err lost) finished));
}

abbrev eighth : Result Service ScanError
eighth = ok (record { address = set_port remote 8 })

abbrev heard_sights : List (Sight os (Result Service ScanError))
heard_sights = item eighth ∷ item (err (send_request lost)) ∷ []

heard_flow : Flows (receive_announcements futures receiver get_discovery_ip 50000) heard_sights
unfolding receive_announcements extract_service unwrap_response
heard_flow = gives _ (gives _ ends)

receive_announcements-Sifted_example :
    Sifted announced (receiver.receive get_discovery_ip 50000) heard_sights
receive_announcements-Sifted_example =
    receive_announcements-Sifted futures lawful receiver get_discovery_ip 50000 heard_sights
      heard_flow

-- A response, and then the end.
abbrev collector : ResponseCollector os
collector = record { get_port = 3; collect = yields (ok (record { address = remote })) finished }

abbrev scanned_sights : List (Sight os (Result Service ScanError))
scanned_sights =
    item (ok (record { address = remote }))
    ∷ item eighth
    ∷ item (err (send_request lost))
    ∷ called (udp_bind (socket_addr_v6 unspecified 0 0 0), err lost)
    ∷ item (err (send_request lost))
    ∷ []

scanned_flow :
    Flows (scan_internal futures wire 50000 collector sender receiver scanner) scanned_sights
unfolding scan_internal join receive_announcements extract_service unwrap_response send_requests
    sender
scanned_flow = gives _ (gives _ (gives _ (waited _ (err lost) (gives _ ends))))

scan_internal-Shows_example :
    Shows futures lawful wire 50000 collector sender receiver scanner scanned_sights
scan_internal-Shows_example =
    scan_internal-Shows futures lawful wire 50000 collector sender receiver scanner scanned_flow

abbrev udp : UdpReceiver os
udp = record { receive = λ from ip port decoder. framed.frames from 1 decoder }

abbrev passed_on : List (Sight os (Result (DiscoveryPacket × SocketAddrV6) IoError))
passed_on = item (ok (from_response (record { service_port = 8 }), remote)) ∷ []

-- Of three datagrams only the one that came over IPv6 and can be decoded is passed on.
passed_on_flow : Flows (receive futures wire udp get_discovery_ip 50000) passed_on
unfolding receive strip_protobuf_error extract_ipv6 decode
passed_on_flow = gives _ ends

receive-Sifted_example :
    Sifted heard (udp.receive io get_discovery_ip 50000 (decode wire)) passed_on
receive-Sifted_example =
    receive-Sifted futures lawful wire udp get_discovery_ip 50000 passed_on passed_on_flow

scan_internal-Sourced_example :
    Sourced futures lawful wire 50000 collector sender receiver scanner scanned_sights
scan_internal-Sourced_example =
    scan_internal-Sourced futures lawful wire 50000 collector sender receiver scanner
      (λ e. omega arith) scanned_flow
