-- ===== src/UnitTests/Servers.antt =====
-- The tests of main/src/server.rs.
use tansa.Prelude.{ℕ, zero, suc, ◌==◌, ◌≡◌, refl, Bool, true, false, List, [], ◌∷◌, Result, ok, err}
use tansa.Async.Runs.{Trace}
use tansa.Async.Execute.{execute}
use tansa.Async.Sequential.{sequential}
use tansa.Net.{ipv6, socket_addr_v6, SocketAddrV6, get_discovery_ip}
use tansa.Net.Display.{chars, print_socket_addr}
use tansa.Protocol.{
  Bytes, DiscoveryPacket, from_request, from_response, unwrap_request, Prost, IoError,
}
use tansa.Network.IpNeighbor.{IpNeighbor, IpNeighborScanner, get_socket_address, is_link_local}
use tansa.ResponseSender.{message}
use tansa.Server.{
  serve_internal, announce, announce_to_ip_neighbors, handle, handle_packet,
  get_response_collector_address, ServeError, network_io,
}
use tansa.UnitTests.{
  mocks, send_multicast, send_unicast, send, receive, replying, mock_udp_sender,
  mock_response_sender, mock_receiver, mock_scanner, other,
}

abbrev discovery_port : ℕ
discovery_port = 50000

-- The test fails on a result that is no error, and on an error of the network of another kind.
abbrev assert_server_exits_with_dummy_error : Result (Unit {0}) ServeError → Bool
assert_server_exits_with_dummy_error (ok u) = false
assert_server_exits_with_dummy_error (err (network_io e)) = e.code == other.code
assert_server_exits_with_dummy_error (err e) = true

abbrev mock_ip_neighbor_scanner : IpNeighborScanner mocks
mock_ip_neighbor_scanner = mock_scanner []

abbrev one_shot_request_ending_with_dummy_error :
    Result (DiscoveryPacket × SocketAddrV6) IoError
    → List (Result (DiscoveryPacket × SocketAddrV6) IoError)
one_shot_request_ending_with_dummy_error request = request ∷ err other ∷ []

-- `[::123%456]:2` and `[::123]:2`
abbrev request_address : SocketAddrV6
request_address = socket_addr_v6 (ipv6 0 0 0 0 0 0 0 0x123) 2 0 456

abbrev request_source_address : SocketAddrV6
request_source_address = socket_addr_v6 (ipv6 0 0 0 0 0 0 0 0x123) 2 0 0

abbrev multicast_address : SocketAddrV6
multicast_address = socket_addr_v6 get_discovery_ip discovery_port 0 0

-- `FE80::A` and `2001::B`
abbrev ip_neighbors : List IpNeighbor
ip_neighbors =
    record { address = ipv6 0xfe80 0 0 0 0 0 0 0xa; network_interface_index = 1000 }
    ∷ record { address = ipv6 0x2001 0 0 0 0 0 0 0xb; network_interface_index = 1001 }
    ∷ []

module _ (P : Prost DiscoveryPacket) where
  abbrev Outcome : Type 0
  Outcome = Trace mocks × Result (Unit {0}) ServeError

  abbrev response_bytes : Bytes
  response_bytes = P.encode_to_vec (from_response (record { service_port = 10 }))

  abbrev serve : Outcome
  serve = execute (replying (ok tt)) [] (
      serve_internal sequential P discovery_port 10
        (mock_receiver (
          ok (from_request (record { response_collector_port = 3 }), request_address)
          ∷ err other
          ∷ []))
        mock_response_sender mock_udp_sender (mock_scanner ip_neighbors))

  -- The announcements go to the group and to both neighbors, and the request is answered.
  serve_calls :
      serve.0
      ≡ (send_multicast multicast_address response_bytes, ok tt)
        ∷ (
          send_unicast (socket_addr_v6 (ipv6 0xfe80 0 0 0 0 0 0 0xa) 50000 0 1000) response_bytes,
          ok tt,
        )
        ∷ (
          send_unicast (socket_addr_v6 (ipv6 0x2001 0 0 0 0 0 0 0xb) 50000 0 0) response_bytes,
          ok tt,
        )
        ∷ (receive get_discovery_ip discovery_port, tt)
        ∷ (send (record { service_port = 10 }) (chars "http://[::123%456]:3"), ok tt)
        ∷ []
  unfolding execute unwrap_request serve_internal announce announce_to_ip_neighbors handle
      handle_packet get_response_collector_address print_socket_addr get_socket_address
      is_link_local
  serve_calls = refl

  serve_exits : assert_server_exits_with_dummy_error serve.1 ≡ true
  unfolding execute unwrap_request serve_internal announce announce_to_ip_neighbors handle
      handle_packet
  serve_exits = refl

  abbrev port_out_of_range : Outcome
  port_out_of_range = execute (replying (ok tt)) [] (
      serve_internal sequential P discovery_port 10
        (mock_receiver (
          ok (from_request (record { response_collector_port = 10000000 }), request_address)
          ∷ err other
          ∷ []))
        mock_response_sender mock_udp_sender mock_ip_neighbor_scanner)

  port_out_of_range_exits : assert_server_exits_with_dummy_error port_out_of_range.1 ≡ true
  unfolding execute unwrap_request serve_internal announce announce_to_ip_neighbors handle
      handle_packet
  port_out_of_range_exits = refl

  abbrev failing_to_handle_packet_does_not_stop_serving : Outcome
  failing_to_handle_packet_does_not_stop_serving =
      execute (replying (err (message "Failed to send response"))) [] (
        serve_internal sequential P discovery_port 1
          (mock_receiver (
            one_shot_request_ending_with_dummy_error
              (ok (from_request (record { response_collector_port = 0 }), request_source_address))))
          mock_response_sender mock_udp_sender mock_ip_neighbor_scanner)

  failing_to_handle_packet_exits :
      assert_server_exits_with_dummy_error failing_to_handle_packet_does_not_stop_serving.1 ≡ true
  unfolding execute unwrap_request serve_internal announce announce_to_ip_neighbors handle
      handle_packet get_response_collector_address print_socket_addr
  failing_to_handle_packet_exits = refl

  abbrev repeated :
      ℕ
      → Result (DiscoveryPacket × SocketAddrV6) IoError
      → List (Result (DiscoveryPacket × SocketAddrV6) IoError)
  repeated zero request = err other ∷ []
  repeated (suc n) request = request ∷ repeated n request

  abbrev handle_many_requests : Outcome
  handle_many_requests = execute (replying (ok tt)) [] (
      serve_internal sequential P discovery_port 1
        (mock_receiver (
          repeated 128
            (ok (from_request (record { response_collector_port = 0 }), request_source_address))))
        mock_response_sender mock_udp_sender mock_ip_neighbor_scanner)

  -- How many responses are sent.
  abbrev responses : Trace mocks → ℕ
  responses [] = 0
  responses ((send r u, _) ∷ t) = suc (responses t)
  responses (_ ∷ t) = responses t

  handle_many_requests_exits :
      (assert_server_exits_with_dummy_error handle_many_requests.1 ≡ true)
      × (responses handle_many_requests.0 ≡ 128)
  unfolding execute unwrap_request serve_internal announce announce_to_ip_neighbors handle
      handle_packet get_response_collector_address print_socket_addr
  handle_many_requests_exits = (refl, refl)
