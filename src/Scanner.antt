-- ===== src/Scanner.antt =====
-- main/src/scanner.rs: asks for services, and gathers responses and announcements.
pub mod Extract
pub mod Requests
pub mod Discovered
pub mod RoundTrip
pub mod Whole
pub mod Delivery
pub mod Sources
pub mod Working
pub mod Sockets
pub mod Sent
pub mod EndToEnd
use tansa.Prelude.{
  ℕ, Option, List, [], ◌∷◌, Result, ok, err, ok_or, ok_value, transpose, ◌==◌, if◌then◌else◌, Bool,
  ◌and_then◌,
}
use tansa.Async.{Signature, Async, done}
use tansa.Async.Try.{◌>>=◌, ◌>>◌, with_error}
use tansa.Async.Stream.{Stream}
use tansa.Async.Futures.{FuturesUtil}
use tansa.Net.{Ipv6Addr, SocketAddrV6, socket_addr_v6, set_port, try_into_u16, get_discovery_ip}
use tansa.Protocol.{Bytes, Request, DiscoveryPacket, unwrap_response, from_request, Prost, IoError}
use tansa.Network.UdpSender.{UdpSender, tokio_udp_sender}
use tansa.Network.UdpReceiver.{UdpFramed, tokio_udp_receiver}
use tansa.Network.IpNeighbor.{
  IpNeighbor, get_socket_address, IpNeighborScanner, IpNeighborScanError, CsvError,
}
use tansa.Network.IpNeighbor.Select.{ip_neighbor_scanner}
use tansa.Packet.{DiscoveryPacketReceiver, packet_receiver}
use tansa.ResponseSender.{AnyhowError, message}
use tansa.ResponseCollector.{ResponseCollector, GrpcResponseCollector, grpc_collector, new, Router}
use tansa.Service.{Service}
use tansa.StreamJoin.{join}
use tansa.Network.IpNeighbor.Windows.{NetNeighbor}
use tansa.Network.IpNeighbor.Linux.{Readers}
use tansa.Os.{os, TransportError}

pub data ScanError : Type 0 where
  invalid_discovery_port : ScanError
  send_request : IoError → ScanError
  collect_response : TransportError → ScanError
  scan_ip_neighbor : IpNeighborScanError → ScanError

unfoldable pub extract_service : DiscoveryPacket → SocketAddrV6 → Result Service AnyhowError
extract_service packet address =
    ok_or (unwrap_response packet) (message "Not an `Announcement`") and_then λ response.
    ok_or (try_into_u16 response.service_port) (message "Port out of range") and_then λ port.
    ok (record { address = set_port address port })

module _ {S : Signature} where
  -- The `for` loop over the neighbors: the first error ends it.
  unfoldable pub send_to_neighbors :
      UdpSender S → ℕ → Bytes → List IpNeighbor → Async S (Result (Unit {0}) ScanError)
  send_to_neighbors udp_sender discovery_port packet_bytes [] = done (ok tt)
  send_to_neighbors udp_sender discovery_port packet_bytes (ip_neighbor ∷ rest) = do
    with_error send_request
        (udp_sender.send_unicast (get_socket_address ip_neighbor discovery_port) packet_bytes)
    send_to_neighbors udp_sender discovery_port packet_bytes rest

  unfoldable pub send_requests :
      Prost DiscoveryPacket
      → UdpSender S
      → IpNeighborScanner S
      → Request
      → ℕ
      → Async S (Result (Unit {0}) ScanError)
  unfolding get_discovery_ip
  send_requests P udp_sender ip_neighbor_scanner request discovery_port = do
    let packet_bytes = P.encode_to_vec (from_request request)
    with_error send_request (
        udp_sender.send_multicast (socket_addr_v6 get_discovery_ip discovery_port 0 0) packet_bytes)
    neighbors ← with_error scan_ip_neighbor ip_neighbor_scanner.scan
    send_to_neighbors udp_sender discovery_port packet_bytes neighbors

module _ {S : Signature} (F : FuturesUtil S) where
  -- Packets that are no announcement of a port are dropped.
  unfoldable pub receive_announcements :
      DiscoveryPacketReceiver S → Ipv6Addr → ℕ → Stream S (Result Service ScanError)
  unfolding extract_service
  receive_announcements udp_receiver discovery_ip discovery_port =
      F.filter_map (λ r. done (transpose r))
        (F.map_ok (λ received. ok_value (extract_service received.0 received.1))
          (F.map_err send_request (udp_receiver.receive discovery_ip discovery_port)))

  unfoldable pub scan_internal :
      Prost DiscoveryPacket
      → ℕ
      → ResponseCollector S
      → UdpSender S
      → DiscoveryPacketReceiver S
      → IpNeighborScanner S
      → Stream S (Result Service ScanError)
  unfolding receive_announcements get_discovery_ip
  scan_internal P discovery_port response_collector udp_sender udp_receiver ip_neighbor_scanner =
      let request : Request = record { response_collector_port = response_collector.get_port } in
      let services =
        F.select (F.map_err collect_response response_collector.collect)
          (receive_announcements udp_receiver get_discovery_ip discovery_port) in
      if discovery_port == 0
      then F.once (done (err invalid_discovery_port))
      else join F (λ e. e) (λ e. e)
          (send_requests P udp_sender ip_neighbor_scanner request discovery_port) services

module _ (F : FuturesUtil os) (P : Prost DiscoveryPacket) (framed : UdpFramed) (debug : Bool) where
  -- The arguments of `new` are what the crates build for the response collector.
  unfoldable pub scan :
      Router
      → Stream os Service
      → (Bytes → List (Result NetNeighbor CsvError))
      → Readers
      → ℕ
      → Stream os (Result Service ScanError)
  scan grpc response_receiver read_power_shell read_ip_route2 discovery_port =
      let response_collector : Async os (Result GrpcResponseCollector ScanError) =
        F.map_err_future send_request (new grpc response_receiver) in
      let scanner : Async os (Result (IpNeighborScanner os) ScanError) =
        F.map_future ok (ip_neighbor_scanner F read_power_shell read_ip_route2) in
      F.try_flatten_stream (
        F.map_ok_future
          (λ (both : GrpcResponseCollector × IpNeighborScanner os).
            scan_internal F P discovery_port (grpc_collector F both.0) (tokio_udp_sender debug)
              (packet_receiver F P (tokio_udp_receiver F framed)) both.1)
          (F.try_join response_collector scanner))
