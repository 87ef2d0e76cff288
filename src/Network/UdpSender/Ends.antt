-- ===== src/Network/UdpSender/Ends.antt =====
-- How the sends of `TokioUdpSender` of main/src/network/udp_sender.rs end: one datagram, or none.
use tansa.Prelude.{◌≡◌, refl, Bool, true, false, Result, [], ◌∷◌, ◌++◌, ok, err}
use tansa.Async.Runs.{Trace, Run, returns, replied}
use tansa.Net.{SocketAddrV6, socket_addr_v6}
use tansa.Protocol.{Bytes, IoError}
use tansa.Network.UdpSender.{tokio_send_multicast, tokio_send_unicast, unspecified}
use tansa.Network.UdpSender.Sends.{
  Logged, silent, asked, OneDatagram, OneMulticast, tokio_send_unicast-ok, tokio_send_multicast-ok,
}
use tansa.Os.{os, Handle, udp_bind, local_addr, join_multicast_v6, send_to}

module _ (debug : Bool) where
  -- No socket, or, with debug logs on, none that knows its address.
  pub data NoSocket : Trace os → IoError → Type 0 where
    not_bound :
        (e : IoError) → NoSocket ((udp_bind (socket_addr_v6 unspecified 0 0 0), err e) ∷ []) e
    no_address :
        (s : Handle) (e : IoError)
        → debug ≡ true
        → NoSocket
            ((udp_bind (socket_addr_v6 unspecified 0 0 0), ok s) ∷ (local_addr s, err e) ∷ [])
            e

  module _ (address : SocketAddrV6) (bytes : Bytes) where
    -- There was no socket, or the datagram was refused.
    pub data UnicastFails (t : Trace os) (e : IoError) : Type 0 where
      no_socket : NoSocket t e → UnicastFails t e
      not_sent :
          (s : Handle) {logging : Trace os}
          → Logged s debug logging
          → t
            ≡ (udp_bind (socket_addr_v6 unspecified 0 0 0), ok s)
              ∷ (logging ++ (send_to s bytes address, err e) ∷ [])
          → UnicastFails t e

    -- There was no socket, or it could not join the group, or the datagram was refused.
    pub data MulticastFails (t : Trace os) (e : IoError) : Type 0 where
      no_socket : NoSocket t e → MulticastFails t e
      not_joined :
          (s : Handle) {logging : Trace os}
          → Logged s debug logging
          → t
            ≡ (udp_bind (socket_addr_v6 unspecified 0 0 0), ok s)
              ∷ (logging ++ (join_multicast_v6 s address.ip 0, err e) ∷ [])
          → MulticastFails t e
      not_sent :
          (s : Handle) {logging : Trace os}
          → Logged s debug logging
          → t
            ≡ (udp_bind (socket_addr_v6 unspecified 0 0 0), ok s)
              ∷ (logging
                  ++ (join_multicast_v6 s address.ip 0, ok tt)
                    ∷ (send_to s bytes address, err e)
                    ∷ [])
          → MulticastFails t e

    abbrev pub UnicastEnds : Trace os → Result (Unit {0}) IoError → Type 0
    UnicastEnds t (ok u) = OneDatagram debug address bytes t
    UnicastEnds t (err e) = UnicastFails t e

    abbrev pub MulticastEnds : Trace os → Result (Unit {0}) IoError → Type 0
    MulticastEnds t (ok u) = OneMulticast debug address bytes t
    MulticastEnds t (err e) = MulticastFails t e

tokio_send_unicast-err :
    (debug : Bool) (address : SocketAddrV6) (bytes : Bytes) {t : Trace os} {e : IoError}
    → Run (tokio_send_unicast debug address bytes) t (err e)
    → UnicastFails debug address bytes t e
unfolding tokio_send_unicast
tokio_send_unicast-err debug address bytes (replied _ (err e) (returns _)) =
    UnicastFails.no_socket (not_bound e)
tokio_send_unicast-err false address bytes (replied _ (ok s) (replied _ (err e) (returns _))) =
    UnicastFails.not_sent s silent refl
tokio_send_unicast-err false address bytes (replied _ (ok s) (replied _ (ok n) q)) = elim q [ ]
tokio_send_unicast-err true address bytes (replied _ (ok s) (replied _ (err e) (returns _))) =
    UnicastFails.no_socket (no_address s e refl)
tokio_send_unicast-err true address bytes
      (replied _ (ok s) (replied _ (ok a) (replied _ (err e) (returns _)))) =
    UnicastFails.not_sent s (asked a) refl
tokio_send_unicast-err true address bytes
      (replied _ (ok s) (replied _ (ok a) (replied _ (ok n) q))) =
    elim q [ ]

tokio_send_multicast-err :
    (debug : Bool) (address : SocketAddrV6) (bytes : Bytes) {t : Trace os} {e : IoError}
    → Run (tokio_send_multicast debug address bytes) t (err e)
    → MulticastFails debug address bytes t e
unfolding tokio_send_multicast
tokio_send_multicast-err debug address bytes (replied _ (err e) (returns _)) =
    MulticastFails.no_socket (not_bound e)
tokio_send_multicast-err false address bytes (replied _ (ok s) (replied _ (err e) (returns _))) =
    MulticastFails.not_joined s silent refl
tokio_send_multicast-err false address bytes
      (replied _ (ok s) (replied _ (ok j) (replied _ (err e) (returns _)))) =
    MulticastFails.not_sent s silent refl
tokio_send_multicast-err false address bytes
      (replied _ (ok s) (replied _ (ok j) (replied _ (ok n) q))) =
    elim q [ ]
tokio_send_multicast-err true address bytes (replied _ (ok s) (replied _ (err e) (returns _))) =
    MulticastFails.no_socket (no_address s e refl)
tokio_send_multicast-err true address bytes
      (replied _ (ok s) (replied _ (ok a) (replied _ (err e) (returns _)))) =
    MulticastFails.not_joined s (asked a) refl
tokio_send_multicast-err true address bytes
      (replied _ (ok s) (replied _ (ok a) (replied _ (ok j) (replied _ (err e) (returns _))))) =
    MulticastFails.not_sent s (asked a) refl
tokio_send_multicast-err true address bytes
      (replied _ (ok s) (replied _ (ok a) (replied _ (ok j) (replied _ (ok n) q)))) =
    elim q [ ]

-- Every run of a unicast ends in one of these ways: a socket on any port sends the bytes in one
-- datagram to the address; or no socket is bound, or, with debug logs on, its address is not known,
-- or the datagram is refused, and then that error is the result and the last reply.
pub tokio_send_unicast-UnicastEnds :
    (debug : Bool) (address : SocketAddrV6) (bytes : Bytes) {t : Trace os}
    (r : Result (Unit {0}) IoError)
    → Run (tokio_send_unicast debug address bytes) t r
    → UnicastEnds debug address bytes t r
tokio_send_unicast-UnicastEnds debug address bytes (ok tt) q =
    tokio_send_unicast-ok debug address bytes q
tokio_send_unicast-UnicastEnds debug address bytes (err e) q =
    tokio_send_unicast-err debug address bytes q

-- Every run of a multicast ends in one of these ways: a socket on any port joins the group and sends
-- it the bytes in one datagram; or no socket is bound, or, with debug logs on, its address is not
-- known, or it cannot join, or the datagram is refused, and then that error is the result and the
-- last reply.
pub tokio_send_multicast-MulticastEnds :
    (debug : Bool) (address : SocketAddrV6) (bytes : Bytes) {t : Trace os}
    (r : Result (Unit {0}) IoError)
    → Run (tokio_send_multicast debug address bytes) t r
    → MulticastEnds debug address bytes t r
tokio_send_multicast-MulticastEnds debug address bytes (ok tt) q =
    tokio_send_multicast-ok debug address bytes q
tokio_send_multicast-MulticastEnds debug address bytes (err e) q =
    tokio_send_multicast-err debug address bytes q
