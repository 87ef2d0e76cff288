-- ===== src/Packet/Receive.antt =====
-- What `receive` of main/src/packet.rs passes on.
use tansa.Prelude.{ℕ, ◌≡◌, refl, Option, none, some, List, Result, ok, err}
use mathlib.Core.Option.{bind}
use tansa.Async.{Signature}
use tansa.Async.Stream.{Sight, Flows}
use tansa.Async.Futures.{FuturesUtil, IsLawful}
use tansa.Async.Adaptors.{Sifted, filter_map-Sifted, Sifted_trans, Sifted_ext}
use tansa.Net.{Ipv6Addr, SocketAddr, v4, v6, SocketAddrV6}
use tansa.Protocol.{DiscoveryPacket, IoError, DecodeError, io, protobuf, Prost}
use tansa.Protocol.Decoder.{decode}
use tansa.Network.UdpReceiver.{UdpReceiver}
use tansa.Packet.{receive, strip_protobuf_error, extract_ipv6}

-- What is heard of a datagram: its packet if it came over IPv6 and could be decoded, and the error
-- if the socket failed.
unfoldable pub heard :
    Result (DiscoveryPacket × SocketAddr) DecodeError
    → Option (Result (DiscoveryPacket × SocketAddrV6) IoError)
heard (ok (packet, v6 a)) = some (ok (packet, a))
heard (ok (packet, v4 a)) = none
heard (err (io e)) = some (err e)
heard (err (protobuf e)) = none

strip-extract :
    (r : Result (DiscoveryPacket × SocketAddr) DecodeError)
    → bind (strip_protobuf_error r) extract_ipv6 ≡ heard r
unfolding bind strip_protobuf_error extract_ipv6 heard
strip-extract (ok (packet, v6 a)) = refl
strip-extract (ok (packet, v4 a)) = refl
strip-extract (err (io e)) = refl
strip-extract (err (protobuf e)) = refl

module _ {S : Signature} (F : FuturesUtil S) (L : IsLawful F) (P : Prost DiscoveryPacket)
    (udp : UdpReceiver S) where
  -- The receiver makes the calls of the socket and passes on, in order, what is heard of each
  -- datagram: neither a datagram over IPv4 nor one that cannot be decoded stops it.
  pub receive-Sifted :
      (ip : Ipv6Addr) (port : ℕ)
      (l : List (Sight S (Result (DiscoveryPacket × SocketAddrV6) IoError)))
      → Flows (receive F P udp ip port) l
      → Sifted heard (udp.receive io ip port (decode P)) l
  unfolding receive
  receive-Sifted ip port l q = Sifted_ext _ heard strip-extract (
      Sifted_trans strip_protobuf_error extract_ipv6
        (λ m. filter_map-Sifted F L strip_protobuf_error _ m)
        (filter_map-Sifted F L extract_ipv6 _ l q))
