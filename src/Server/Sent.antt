-- ===== src/Server/Sent.antt =====
-- The datagrams of `announce` of main/src/server.rs, also when it fails half-way.
use tansa.Prelude.{All, ℕ, Bool, List, [], ◌∷◌, Result}
use tansa.Async.Runs.{Trace, Run}
use tansa.Async.Futures.{FuturesUtil, IsLawful}
use tansa.Async.Try.{with_error, with_error_inv, with_error_ok}
use tansa.Net.{SocketAddrV6}
use tansa.Os.{os}
use tansa.Protocol.{Bytes, DiscoveryPacket, from_response, Prost}
use tansa.Network.UdpSender.{UdpSender, tokio_udp_sender}
use tansa.Network.Datagrams.{Datagram, datagram, datagrams, IsQuiet}
use tansa.Network.Carries.{
  IsQuiet-Carries, with_error-Carries, AllCarries, no_future, next_future, Joined-datagrams,
  in_two_parts, unicast-Carries, multicast-Carries,
}
use tansa.Network.IpNeighbor.{IpNeighbor, get_socket_address, IpNeighborScanner}
use tansa.Network.IpNeighbor.Scans.{FoundWithin}
use tansa.Server.{announce, announce_to_ip_neighbors, network_io, ip_neighbor, ServeError}
use tansa.Server.Announce.{unicasts, announce_to_ip_neighbors-Joined}

module _ (debug : Bool) (Q : Datagram → Type 0) (F : FuturesUtil os) (L : IsLawful F) where
  abbrev sender : UdpSender os
  sender = tokio_udp_sender debug

  unicasts-AllCarries :
      (port : ℕ) (neighbors : List IpNeighbor) (bytes : Bytes)
      → All (λ n. Q (datagram bytes (get_socket_address n port))) neighbors
      → AllCarries Q (unicasts F L sender port neighbors bytes)
  unfolding tokio_udp_sender
  unicasts-AllCarries port [] bytes h = no_future
  unicasts-AllCarries port (n ∷ neighbors) bytes h =
      next_future (unicast-Carries Q (get_socket_address n port) bytes h.0 debug)
        (unicasts-AllCarries port neighbors bytes h.1)

  to_neighbors-All :
      (port : ℕ) (bytes : Bytes) (neighbors : List IpNeighbor) (t : Trace os)
      (r : Result (Unit {0}) ServeError)
      → All (λ n. Q (datagram bytes (get_socket_address n port))) neighbors
      → Run (with_error network_io (announce_to_ip_neighbors F port neighbors bytes sender)) t r
      → All Q (datagrams t)
  to_neighbors-All port bytes neighbors t r h q =
      Joined-datagrams Q (unicasts-AllCarries port neighbors bytes h) (
        announce_to_ip_neighbors-Joined F L sender port neighbors bytes
          (with_error_inv network_io _ q).inner)

  module _ (P : Prost DiscoveryPacket) (scanner : IpNeighborScanner os) (address : SocketAddrV6)
      (service_port : ℕ) where
    abbrev bytes : Bytes
    bytes = P.encode_to_vec (from_response (record { service_port = service_port }))

    -- Whatever becomes of an announcement, every datagram has a property that the one to the
    -- multicast address and those to the neighbors found have.
    pub announce-All :
        IsQuiet scanner.scan
        → Q (datagram bytes address)
        → {t : Trace os}
        → ((neighbors : List IpNeighbor)
            → FoundWithin scanner.scan t neighbors
            → All (λ n. Q (datagram bytes (get_socket_address n address.port))) neighbors)
        → {r : Result (Unit {0}) ServeError}
        → Run (announce F P address service_port sender scanner) t r
        → All Q (datagrams t)
    unfolding announce tokio_udp_sender
    announce-All quiet one each q =
        in_two_parts Q _ _ (with_error-Carries Q ip_neighbor (IsQuiet-Carries Q quiet))
          (λ neighbors u t r whole scanned s.
            in_two_parts Q _ _
              (with_error-Carries Q network_io (multicast-Carries Q address bytes one debug))
              (λ _ _ t₁ r _ _ s.
                to_neighbors-All address.port bytes neighbors t₁ r
                  (each neighbors (record {
                    before = [];
                    during = u;
                    after = t;
                    whole = whole;
                    run = with_error_ok ip_neighbor scanner.scan scanned;
                  }))
                  s)
              s)
          q
