-- ===== src/Scanner/Sent.antt =====
-- The datagrams of `send_requests` of main/src/scanner.rs, also when it fails half-way.
use tansa.Prelude.{ap, ◌∙◌, ◌++◌, All, ℕ, Bool, List, [], ◌∷◌, Result, ok}
use tansa.Async.Runs.{Trace, Run}
use tansa.Async.Try.{with_error_ok}
use tansa.Net.{SocketAddrV6, socket_addr_v6, get_discovery_ip}
use tansa.Os.{os}
use tansa.Protocol.{Bytes, Request, DiscoveryPacket, from_request, Prost}
use tansa.Network.UdpSender.{UdpSender, tokio_udp_sender}
use tansa.Network.Datagrams.{Datagram, datagram, datagrams, IsQuiet}
use tansa.Network.Carries.{
  Carries, carries_done, Carries-datagrams, IsQuiet-Carries, try-Carries, with_error-Carries,
  in_two_parts, unicast-Carries, multicast-Carries,
}
use tansa.Network.IpNeighbor.{IpNeighbor, get_socket_address, IpNeighborScanner}
use tansa.Network.IpNeighbor.Scans.{FoundWithin}
use tansa.Scanner.{send_requests, send_to_neighbors, send_request, scan_ip_neighbor, ScanError}

module _ (debug : Bool) (Q : Datagram → Type 0) where
  abbrev sender : UdpSender os
  sender = tokio_udp_sender debug

  send_to_neighbors-Carries :
      (port : ℕ) (bytes : Bytes) (neighbors : List IpNeighbor)
      → All (λ n. Q (datagram bytes (get_socket_address n port))) neighbors
      → Carries Q (send_to_neighbors sender port bytes neighbors)
  unfolding send_to_neighbors tokio_udp_sender
  send_to_neighbors-Carries port bytes [] h = carries_done (ok tt)
  send_to_neighbors-Carries port bytes (n ∷ neighbors) h =
      try-Carries Q
        (with_error-Carries Q send_request
          (unicast-Carries Q (get_socket_address n port) bytes h.0 debug))
        (λ u. send_to_neighbors-Carries port bytes neighbors h.1)

  module _ (P : Prost DiscoveryPacket) (scanner : IpNeighborScanner os) (request : Request)
      (port : ℕ) where
    abbrev bytes : Bytes
    bytes = P.encode_to_vec (from_request request)

    abbrev group : SocketAddrV6
    group = socket_addr_v6 get_discovery_ip port 0 0

    -- Whatever becomes of the requests, every datagram has a property that the one to the group and
    -- those to the neighbors found have.
    pub send_requests-All :
        IsQuiet scanner.scan
        → Q (datagram bytes group)
        → {t : Trace os}
        → ((neighbors : List IpNeighbor)
            → FoundWithin scanner.scan t neighbors
            → All (λ n. Q (datagram bytes (get_socket_address n port))) neighbors)
        → {r : Result (Unit {0}) ScanError} → Run (send_requests P sender scanner request port) t r
        → All Q (datagrams t)
    unfolding send_requests tokio_udp_sender
    send_requests-All quiet one each q =
        in_two_parts Q _ _
          (with_error-Carries Q send_request (multicast-Carries Q group bytes one debug))
          (λ _ u t r whole _ s.
            in_two_parts Q _ _ (with_error-Carries Q scan_ip_neighbor (IsQuiet-Carries Q quiet))
              (λ neighbors v t r rest scanned s.
                Carries-datagrams Q
                  (send_to_neighbors-Carries port bytes neighbors (
                    each neighbors (record {
                      before = u;
                      during = v;
                      after = t;
                      whole = whole ∙ ap (λ l. u ++ l) rest;
                      run = with_error_ok scan_ip_neighbor scanner.scan scanned;
                    })))
                  s)
              s)
          q
