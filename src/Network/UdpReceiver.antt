-- ===== src/Network/UdpReceiver.antt =====
-- main/src/network/udp_receiver.rs: the trait `UdpReceiver` and its implementation over `tokio`.
-- `UdpFramed` of `tokio-util`, which reads datagrams and decodes them, is a parameter.
pub mod Listens
use tansa.Prelude.{ℕ, Bool, false, Result, ok, err}
use tansa.Async.{Signature, Async, done, call}
use tansa.Async.Try.{◌>>=◌, ◌>>◌}
use tansa.Async.Stream.{Stream}
use tansa.Async.Futures.{FuturesUtil}
use tansa.Net.{Ipv6Addr, SocketAddr, socket_addr_v6}
use tansa.Protocol.{IoError}
use tansa.Protocol.Decoder.{Decoder}
use tansa.Network.UdpSender.{unspecified}
use tansa.Os.{os, Handle, udp_bind, join_multicast_v6, set_multicast_loop_v6}

-- The first argument is `From<std::io::Error> for E`.
pub record UdpReceiver (S : Signature) : Type 1 where
  pub receive :
      {T E : Type 0}
      → (IoError → E)
      → Ipv6Addr
      → ℕ
      → Decoder T E
      → Stream S (Result (T × SocketAddr) E)

pub record UdpFramed : Type 1 where
  pub frames :
      {T E : Type 0} → (IoError → E) → Handle → Decoder T E → Stream os (Result (T × SocketAddr) E)

module _ (F : FuturesUtil os) (framed : UdpFramed) where
  -- A build without tests disables the multicast loop.
  unfoldable pub new_socket :
      {T E : Type 0}
      → (IoError → E)
      → Ipv6Addr
      → ℕ
      → Decoder T E
      → Async os (Result (Stream os (Result (T × SocketAddr) E)) IoError)
  new_socket from multicast_ip port decoder = do
    socket ← call (udp_bind (socket_addr_v6 unspecified port 0 0)) done
    call (join_multicast_v6 socket multicast_ip 0) done
    call (set_multicast_loop_v6 socket false) done
    done (ok (framed.frames from socket decoder))

  unfoldable pub tokio_receive :
      {T E : Type 0}
      → (IoError → E)
      → Ipv6Addr
      → ℕ
      → Decoder T E
      → Stream os (Result (T × SocketAddr) E)
  unfolding new_socket
  tokio_receive from multicast_ip port decoder =
      F.try_flatten_stream (F.map_err_future from (new_socket from multicast_ip port decoder))

  unfoldable pub tokio_udp_receiver : UdpReceiver os
  unfolding tokio_receive
  tokio_udp_receiver = record { receive = tokio_receive }
