-- ===== src/Server.antt =====
-- main/src/server.rs: announces a service, and answers the requests of scanners.
pub mod Handle
pub mod Announce
pub mod Serve
pub mod Whole
pub mod Delivery
pub mod Answers
pub mod Interrupted
pub mod Working
pub mod Sockets
pub mod Sent
pub mod Urls
use tansa.Prelude.{ℕ, Bool, List, map, ◌++◌, Result, ok, err, ok_or, map_error, ◌==◌, if◌then◌else◌}
use tansa.Async
use tansa.Async.{Signature, Async, done}
use tansa.Async.Try.{◌>>=◌, ◌>>◌, with_error}
use tansa.Async.Futures.{FuturesUtil}
use tansa.Net.{SocketAddrV6, socket_addr_v6, set_port, try_into_u16, get_discovery_ip}
use tansa.Net.Display.{Text, chars, print_socket_addr}
use tansa.Protocol.{
  Bytes, Request, Response, DiscoveryPacket, unwrap_request, from_response, Prost, IoError,
}
use tansa.Network.UdpSender.{UdpSender, tokio_udp_sender}
use tansa.Network.UdpReceiver.{UdpFramed, tokio_udp_receiver}
use tansa.Network.IpNeighbor.Select.{ip_neighbor_scanner}
use tansa.Network.IpNeighbor.{
  CsvError, IpNeighbor, get_socket_address, IpNeighborScanner, IpNeighborScanError,
}
use tansa.Network.IpNeighbor.Windows.{NetNeighbor}
use tansa.Network.IpNeighbor.Linux.{Readers}
use tansa.Os.{os}
use tansa.Packet.{DiscoveryPacketReceiver, packet_receiver}
use tansa.ResponseSender.{AnyhowError, message, ResponseSender, grpc_response_sender}

pub data ServeError : Type 0 where
  invalid_discovery_port : ServeError
  network_io : IoError → ServeError
  ip_neighbor : IpNeighborScanError → ServeError

unfoldable pub get_response_collector_address : SocketAddrV6 → ℕ → Text
get_response_collector_address packet_source_address response_collector_port =
    let address = set_port packet_source_address response_collector_port in
    chars "http://" ++ print_socket_addr address

module _ {S : Signature} where
  unfoldable pub handle_packet :
      DiscoveryPacket
      → SocketAddrV6
      → ℕ
      → ResponseSender S
      → Async S (Result (Unit {0}) AnyhowError)
  handle_packet packet remote_address service_port response_sender = do
    request ← done (ok_or (unwrap_request packet) (message "Not a `Request`"))
    response_collector_port ←
        done (ok_or (try_into_u16 request.response_collector_port) (message "Port out of range"))
    response_sender.send (record { service_port = service_port })
        (get_response_collector_address remote_address response_collector_port)

module _ {S : Signature} (F : FuturesUtil S) where
  unfoldable pub announce_to_ip_neighbors :
      ℕ → List IpNeighbor → Bytes → UdpSender S → Async S (Result (Unit {0}) IoError)
  announce_to_ip_neighbors discovery_port neighbors bytes udp_sender =
      let tasks =
        map (λ a. udp_sender.send_unicast a bytes)
          (map (λ n. get_socket_address n discovery_port) neighbors) in
      F.map_ok_future (λ _. tt) (F.try_join_all tasks)

  unfoldable pub announce :
      Prost DiscoveryPacket
      → SocketAddrV6
      → ℕ
      → UdpSender S
      → IpNeighborScanner S
      → Async S (Result (Unit {0}) ServeError)
  announce P discovery_address service_port udp_sender ip_neighbor_scanner = do
    neighbors ← with_error ip_neighbor ip_neighbor_scanner.scan
    let announcement_bytes =
        P.encode_to_vec (from_response (record { service_port = service_port }))
    with_error network_io (udp_sender.send_multicast discovery_address announcement_bytes)
    with_error network_io
        (announce_to_ip_neighbors discovery_address.port neighbors announcement_bytes udp_sender)

  -- The closure `handle`. A packet that cannot be handled is logged, and not an error.
  unfoldable pub handle :
      ℕ → ResponseSender S → DiscoveryPacket × SocketAddrV6 → Async S (Result (Unit {0}) IoError)
  handle service_port response_sender (request, remote_address) =
      F.or_else (λ _. done (ok tt))
        (handle_packet request remote_address service_port response_sender)

  unfoldable pub serve_internal :
      Prost DiscoveryPacket
      → ℕ
      → ℕ
      → DiscoveryPacketReceiver S
      → ResponseSender S
      → UdpSender S
      → IpNeighborScanner S
      → Async S (Result (Unit {0}) ServeError)
  unfolding get_discovery_ip
  serve_internal P discovery_port service_port udp_receiver response_sender udp_sender
        ip_neighbor_scanner =
      if discovery_port == 0 then done (err invalid_discovery_port) else do
        announce P (socket_addr_v6 get_discovery_ip discovery_port 0 0) service_port udp_sender
            ip_neighbor_scanner
        with_error network_io (
            F.try_for_each_concurrent 0 (handle service_port response_sender)
              (udp_receiver.receive get_discovery_ip discovery_port))

module _ (F : FuturesUtil os) (P : Prost DiscoveryPacket) (framed : UdpFramed) (debug : Bool) where
  -- The search for a scanner comes before the test on the port.
  unfoldable pub serve :
      (Bytes → List (Result NetNeighbor CsvError))
      → Readers
      → ℕ
      → ℕ
      → Async os (Result (Unit {0}) ServeError)
  serve read_power_shell read_ip_route2 discovery_port service_port =
      Async.◌>>=◌ (ip_neighbor_scanner F read_power_shell read_ip_route2) λ scanner.
        serve_internal F P discovery_port service_port
          (packet_receiver F P (tokio_udp_receiver F framed)) grpc_response_sender
          (tokio_udp_sender debug) scanner
