-- ===== src/Packet.antt =====
-- main/src/packet.rs: the discovery packets that arrive over IPv6.
pub mod Receive
pub mod Sockets
use tansa.Prelude.{ℕ, Option, none, some, Result, ok, err}
use tansa.Async.{Signature, done}
use tansa.Async.Stream.{Stream}
use tansa.Async.Futures.{FuturesUtil}
use tansa.Net.{Ipv6Addr, SocketAddr, v4, v6, SocketAddrV6}
use tansa.Protocol.{DiscoveryPacket, IoError, DecodeError, io, protobuf, Prost}
use tansa.Protocol.Decoder.{decode}
use tansa.Network.UdpReceiver.{UdpReceiver}

pub record DiscoveryPacketReceiver (S : Signature) : Type 0 where
  pub receive : Ipv6Addr → ℕ → Stream S (Result (DiscoveryPacket × SocketAddrV6) IoError)

unfoldable pub strip_protobuf_error :
    Result (DiscoveryPacket × SocketAddr) DecodeError
    → Option (Result (DiscoveryPacket × SocketAddr) IoError)
strip_protobuf_error (ok inner) = some (ok inner)
strip_protobuf_error (err (io e)) = some (err e)
strip_protobuf_error (err (protobuf e)) = none

unfoldable pub extract_ipv6 :
    Result (DiscoveryPacket × SocketAddr) IoError
    → Option (Result (DiscoveryPacket × SocketAddrV6) IoError)
extract_ipv6 (ok (_, v4 a)) = none
extract_ipv6 (ok (packet, v6 addr)) = some (ok (packet, addr))
extract_ipv6 (err e) = some (err e)

module _ {S : Signature} (F : FuturesUtil S) (P : Prost DiscoveryPacket) (udp : UdpReceiver S) where
  unfoldable pub receive : Ipv6Addr → ℕ → Stream S (Result (DiscoveryPacket × SocketAddrV6) IoError)
  receive multicast_ip port =
      F.filter_map (λ r. done (extract_ipv6 r))
        (F.filter_map (λ r. done (strip_protobuf_error r))
          (udp.receive io multicast_ip port (decode P)))

  -- `impl DiscoveryPacketReceiver for T where T: UdpReceiver`
  unfoldable pub packet_receiver : DiscoveryPacketReceiver S
  unfolding receive
  packet_receiver = record { receive = receive }
