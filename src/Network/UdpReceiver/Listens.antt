-- ===== src/Network/UdpReceiver/Listens.antt =====
-- `TokioUdpReceiver` of main/src/network/udp_receiver.rs: what its stream shows.
use tansa.Prelude.{ℕ, subst, false, List, [], ◌∷◌, Result, ok, err, map_error}
use tansa.Async.{done, ◌>>=◌}
use tansa.Async.Stream.{Sight, called, item, Flows, ends, gives, waited, wait_for}
use tansa.Async.Futures.{FuturesUtil, IsLawful, flattened}
use tansa.Net.{Ipv6Addr, SocketAddr, socket_addr_v6}
use tansa.Protocol.{IoError}
use tansa.Protocol.Decoder.{Decoder}
use tansa.Network.UdpSender.{unspecified}
use tansa.Network.UdpReceiver.{UdpFramed, tokio_receive, new_socket}
use tansa.Os.{os, Handle, udp_bind, join_multicast_v6, set_multicast_loop_v6}

module _ {T E : Type 0} (framed : UdpFramed) (from : IoError → E) (ip : Ipv6Addr) (port : ℕ)
    (decoder : Decoder T E) where
  -- The stream binds a socket to the port, joins the multicast group and turns off the loop. Then it
  -- shows the frames of that socket. If one of the three fails, it shows that error alone.
  pub data Listens : List (Sight os (Result (T × SocketAddr) E)) → Type 0 where
    listening :
        (socket : Handle) (l : List (Sight os (Result (T × SocketAddr) E)))
        → Flows (framed.frames from socket decoder) l
        → Listens (
            called (udp_bind (socket_addr_v6 unspecified port 0 0), ok socket)
            ∷ called (join_multicast_v6 socket ip 0, ok tt)
            ∷ called (set_multicast_loop_v6 socket false, ok tt)
            ∷ l)
    not_bound :
        (e : IoError)
        → Listens (
            called (udp_bind (socket_addr_v6 unspecified port 0 0), err e)
            ∷ item (err (from e))
            ∷ [])
    not_joined :
        (socket : Handle) (e : IoError)
        → Listens (
            called (udp_bind (socket_addr_v6 unspecified port 0 0), ok socket)
            ∷ called (join_multicast_v6 socket ip 0, err e)
            ∷ item (err (from e))
            ∷ [])
    loop_not_set :
        (socket : Handle) (e : IoError)
        → Listens (
            called (udp_bind (socket_addr_v6 unspecified port 0 0), ok socket)
            ∷ called (join_multicast_v6 socket ip 0, ok tt)
            ∷ called (set_multicast_loop_v6 socket false, err e)
            ∷ item (err (from e))
            ∷ [])

module _ (F : FuturesUtil os) (L : IsLawful F) (framed : UdpFramed) where
  listens :
      {T E : Type 0} (from : IoError → E) (ip : Ipv6Addr) (port : ℕ) (decoder : Decoder T E)
      {l : List (Sight os (Result (T × SocketAddr) E))}
      → Flows
          (wait_for
            (new_socket F framed from ip port decoder >>= λ r. done (map_error from r))
            flattened)
          l
      → Listens framed from ip port decoder l
  unfolding new_socket
  listens from ip port decoder (waited _ (ok s) (waited _ (ok u) (waited _ (ok v) q))) =
      listening s _ q
  listens from ip port decoder
        (waited _ (ok s) (waited _ (ok u) (waited _ (err e) (gives _ ends)))) =
      loop_not_set s e
  listens from ip port decoder (waited _ (ok s) (waited _ (err e) (gives _ ends))) = not_joined s e
  listens from ip port decoder (waited _ (err e) (gives _ ends)) = not_bound e

  -- Whatever the receiver's stream shows: it bound the port, joined the group, turned off the
  -- multicast loop and then shows the frames; or one of the three failed, and its error is the
  -- only item.
  pub tokio_receive-Listens :
      {T E : Type 0} (from : IoError → E) (ip : Ipv6Addr) (port : ℕ) (decoder : Decoder T E)
      {l : List (Sight os (Result (T × SocketAddr) E))}
      → Flows (tokio_receive F framed from ip port decoder) l
      → Listens framed from ip port decoder l
  unfolding tokio_receive
  tokio_receive-Listens from ip port decoder {l} q = listens from ip port decoder (
      subst (λ m. Flows (wait_for m flattened) l)
        (L.map_err_future_lem from (new_socket F framed from ip port decoder))
        (subst (λ s. Flows s l) (L.try_flatten_stream_lem _) q))
