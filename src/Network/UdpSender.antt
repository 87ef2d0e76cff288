-- ===== src/Network/UdpSender.antt =====
-- main/src/network/udp_sender.rs: the trait `UdpSender` and its implementation over `tokio`.
pub mod Sends
pub mod Robust
pub mod Ends
use tansa.Prelude.{ℕ, Bool, true, false, Result, ok, err, if◌then◌else◌}
use tansa.Async.{Signature, Async, done, call}
use tansa.Async.Try.{◌>>=◌, ◌>>◌}
use tansa.Net.{Ipv6Addr, ipv6, SocketAddrV6, socket_addr_v6}
use tansa.Protocol.{Bytes, IoError}
use tansa.Os.{os, Handle, udp_bind, local_addr, join_multicast_v6, send_to}

pub record UdpSender (S : Signature) : Type 0 where
  pub send_multicast : SocketAddrV6 → Bytes → Async S (Result (Unit {0}) IoError)
  pub send_unicast : SocketAddrV6 → Bytes → Async S (Result (Unit {0}) IoError)

-- `Ipv6Addr::UNSPECIFIED`
abbrev pub unspecified : Ipv6Addr
unspecified = ipv6 0 0 0 0 0 0 0 0

-- The arguments of a log macro run only if its level is on, so `local_addr` is asked for only with
-- debug logs.
abbrev pub logged_address : Bool → Handle → Async os (Result (Unit {0}) IoError)
logged_address debug socket =
    if debug then (call (local_addr socket) done >>= λ _. done (ok tt)) else done (ok tt)

module _ (debug : Bool) where
  unfoldable pub new_socket : Async os (Result Handle IoError)
  new_socket = do
    socket ← call (udp_bind (socket_addr_v6 unspecified 0 0 0)) done
    logged_address debug socket
    done (ok socket)

  unfoldable pub tokio_send_multicast : SocketAddrV6 → Bytes → Async os (Result (Unit {0}) IoError)
  unfolding new_socket
  tokio_send_multicast multicast_address bytes = do
    socket ← new_socket
    call (join_multicast_v6 socket multicast_address.ip 0) done
    call (send_to socket bytes multicast_address) done
    done (ok tt)

  unfoldable pub tokio_send_unicast : SocketAddrV6 → Bytes → Async os (Result (Unit {0}) IoError)
  unfolding new_socket
  tokio_send_unicast unicast_address bytes = do
    socket ← new_socket
    call (send_to socket bytes unicast_address) done
    done (ok tt)

  unfoldable pub tokio_udp_sender : UdpSender os
  unfolding tokio_send_multicast tokio_send_unicast
  tokio_udp_sender = record {
    send_multicast = tokio_send_multicast;
    send_unicast = tokio_send_unicast;
  }
