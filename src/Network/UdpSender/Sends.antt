-- ===== src/Network/UdpSender/Sends.antt =====
-- The runs of `TokioUdpSender` of main/src/network/udp_sender.rs.
use tansa.Prelude.{ℕ, ◌≡◌, refl, Bool, true, false, [], ◌∷◌, ◌++◌, ok, err}
use tansa.Async.Runs.{Trace, Run, returns, replied}
use tansa.Net.{SocketAddr, SocketAddrV6, socket_addr_v6}
use tansa.Protocol.{Bytes}
use tansa.Network.UdpSender.{tokio_send_multicast, tokio_send_unicast, unspecified}
use tansa.Os.{os, Handle, udp_bind, local_addr, join_multicast_v6, send_to}

-- With debug logs on, the socket was asked for its address, and had one.
pub data Logged (socket : Handle) : Bool → Trace os → Type 0 where
  silent : Logged socket false []
  asked : (a : SocketAddr) → Logged socket true ((local_addr socket, ok a) ∷ [])

module _ (debug : Bool) (address : SocketAddrV6) (bytes : Bytes) where
  -- The calls of a unicast: a socket on any port, and one datagram.
  pub record OneDatagram (t : Trace os) : Type 0 where
    pub socket : Handle
    pub sent : ℕ
    pub logging : Trace os
    pub logged : Logged socket debug logging
    pub history :
        t
        ≡ (udp_bind (socket_addr_v6 unspecified 0 0 0), ok socket)
          ∷ (logging ++ (send_to socket bytes address, ok sent) ∷ [])

  -- The calls of a multicast: a socket on any port, which joins the group, and one datagram.
  pub record OneMulticast (t : Trace os) : Type 0 where
    pub socket : Handle
    pub sent : ℕ
    pub logging : Trace os
    pub logged : Logged socket debug logging
    pub history :
        t
        ≡ (udp_bind (socket_addr_v6 unspecified 0 0 0), ok socket)
          ∷ (logging
              ++ (join_multicast_v6 socket address.ip 0, ok tt)
                ∷ (send_to socket bytes address, ok sent)
                ∷ [])

-- A unicast returns with no error only if it sent the bytes in one datagram to the address.
pub tokio_send_unicast-ok :
    (debug : Bool) (address : SocketAddrV6) (bytes : Bytes) {t : Trace os}
    → Run (tokio_send_unicast debug address bytes) t (ok tt)
    → OneDatagram debug address bytes t
unfolding tokio_send_unicast
tokio_send_unicast-ok false address bytes (replied _ (ok s) (replied _ (ok n) (returns _))) =
    record { socket = s; sent = n; logging = []; logged = silent; history = refl }
tokio_send_unicast-ok false address bytes (replied _ (ok s) (replied _ (err e) q)) = elim q [ ]
tokio_send_unicast-ok false address bytes (replied _ (err e) q) = elim q [ ]
tokio_send_unicast-ok true address bytes
      (replied _ (ok s) (replied c (ok a) (replied _ (ok n) (returns _)))) =
    record {
      socket = s;
      sent = n;
      logging = (local_addr s, ok a) ∷ [];
      logged = asked a;
      history = refl;
    }
tokio_send_unicast-ok true address bytes
      (replied _ (ok s) (replied _ (ok a) (replied _ (err e) q))) =
    elim q [ ]
tokio_send_unicast-ok true address bytes (replied _ (ok s) (replied _ (err e) q)) = elim q [ ]
tokio_send_unicast-ok true address bytes (replied _ (err e) q) = elim q [ ]

-- A multicast returns with no error only if it joined the group and sent it the bytes.
pub tokio_send_multicast-ok :
    (debug : Bool) (address : SocketAddrV6) (bytes : Bytes) {t : Trace os}
    → Run (tokio_send_multicast debug address bytes) t (ok tt)
    → OneMulticast debug address bytes t
unfolding tokio_send_multicast
tokio_send_multicast-ok false address bytes
      (replied _ (ok s) (replied _ (ok u) (replied _ (ok n) (returns _)))) =
    record { socket = s; sent = n; logging = []; logged = silent; history = refl }
tokio_send_multicast-ok false address bytes
      (replied _ (ok s) (replied _ (ok u) (replied _ (err e) q))) =
    elim q [ ]
tokio_send_multicast-ok false address bytes (replied _ (ok s) (replied _ (err e) q)) = elim q [ ]
tokio_send_multicast-ok false address bytes (replied _ (err e) q) = elim q [ ]
tokio_send_multicast-ok true address bytes
      (replied _ (ok s) (replied _ (ok a) (replied _ (ok u) (replied _ (ok n) (returns _))))) =
    record {
      socket = s;
      sent = n;
      logging = (local_addr s, ok a) ∷ [];
      logged = asked a;
      history = refl;
    }
tokio_send_multicast-ok true address bytes
      (replied _ (ok s) (replied _ (ok a) (replied _ (ok u) (replied _ (err e) q)))) =
    elim q [ ]
tokio_send_multicast-ok true address bytes
      (replied _ (ok s) (replied _ (ok a) (replied _ (err e) q))) =
    elim q [ ]
tokio_send_multicast-ok true address bytes (replied _ (ok s) (replied _ (err e) q)) = elim q [ ]
tokio_send_multicast-ok true address bytes (replied _ (err e) q) = elim q [ ]
