-- ===== src/UnitTests/Scanners.antt =====
-- The test `scan` of main/src/scanner.rs. The test takes up to three items; all its sources end, so
-- here the stream is seen to its end.
use tansa.Prelude.{ℕ, ◌≡◌, refl, List, [], ◌∷◌, map, Result, ok}
use tansa.Async.Sequential.{sequential}
use tansa.Async.Stream.{Stream, Sight, called, item, items, Flows, ends, gives, waited}
use tansa.Net.{Ipv6Addr, ipv6, socket_addr_v6, get_discovery_ip}
use tansa.Protocol.{Bytes, DiscoveryPacket, from_request, from_response, unwrap_response, Prost}
use tansa.Network.IpNeighbor.{IpNeighbor, get_socket_address, is_link_local}
use tansa.ResponseCollector.{ResponseCollector}
use tansa.Service.{Service}
use tansa.StreamJoin.{join}
use tansa.Scanner.{
  scan_internal, send_requests, send_to_neighbors, receive_announcements, extract_service,
  ScanError,
}
use tansa.UnitTests.{
  mocks, send_multicast, send_unicast, receive, mock_udp_sender, mock_receiver, mock_scanner, iter,
}

-- `[::N]`
abbrev at : ℕ → Ipv6Addr
at n = ipv6 0 0 0 0 0 0 0 n

abbrev service : ℕ → Service
service n = record { address = socket_addr_v6 (at n) n 0 0 }

abbrev expected_services : List Service
expected_services = service 1 ∷ service 2 ∷ []

-- `fe80::1:abcd` and `fe80::2:abcd`
abbrev ip_neighbors : List IpNeighbor
ip_neighbors =
    record { address = ipv6 0xfe80 0 0 0 0 0 1 0xabcd; network_interface_index = 1 }
    ∷ record { address = ipv6 0xfe80 0 0 0 0 0 2 0xabcd; network_interface_index = 2 }
    ∷ []

-- `MockResponseCollector`
abbrev response_collector : ResponseCollector mocks
response_collector = record { get_port = 100; collect = iter (ok (service 1) ∷ []) }

module _ (P : Prost DiscoveryPacket) where
  abbrev packet_bytes : Bytes
  packet_bytes = P.encode_to_vec (from_request (record { response_collector_port = 100 }))

  abbrev scan : Stream mocks (Result Service ScanError)
  scan =
      scan_internal sequential P 10 response_collector mock_udp_sender
        (mock_receiver
          (ok (from_response (record { service_port = 2 }), socket_addr_v6 (at 2) 10 0 0) ∷ []))
        (mock_scanner ip_neighbors)

  -- The services, the packets that are listened for, and the requests.
  abbrev seen : List (Sight mocks (Result Service ScanError))
  seen =
      item (ok (service 1))
      ∷ called (receive get_discovery_ip 10, tt)
      ∷ item (ok (service 2))
      ∷ called (send_multicast (socket_addr_v6 get_discovery_ip 10 0 0) packet_bytes, ok tt)
      ∷ called (
        send_unicast (socket_addr_v6 (ipv6 0xfe80 0 0 0 0 0 1 0xabcd) 10 0 1) packet_bytes,
        ok tt,
      )
      ∷ called (
        send_unicast (socket_addr_v6 (ipv6 0xfe80 0 0 0 0 0 2 0xabcd) 10 0 2) packet_bytes,
        ok tt,
      )
      ∷ []

  scan_flow : Flows scan seen
  unfolding scan_internal join receive_announcements extract_service unwrap_response send_requests
      send_to_neighbors get_socket_address is_link_local
  scan_flow =
      gives _ (waited _ tt (gives _ (waited _ (ok tt) (waited _ (ok tt) (waited _ (ok tt) ends)))))

  scan_services : items seen ≡ map ok expected_services
  scan_services = refl
