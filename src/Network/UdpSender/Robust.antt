-- ===== src/Network/UdpSender/Robust.antt =====
-- On a system that works, `TokioUdpSender` of main/src/network/udp_sender.rs does not fail.
use tansa.Prelude.{Bool, true, false, ok, err}
use tansa.Async.Runs.{replied}
use tansa.Async.Execute.{good_event, IsRobust}
use tansa.Net.{SocketAddrV6}
use tansa.Protocol.{Bytes}
use tansa.Network.UdpSender.{tokio_send_unicast, tokio_send_multicast}
use tansa.Os.Works.{Outputs, Works}

pub unicast-IsRobust :
    (W : Outputs) (debug : Bool) (address : SocketAddrV6) (bytes : Bytes)
    → IsRobust (Works W) (tokio_send_unicast debug address bytes)
unfolding tokio_send_unicast
unicast-IsRobust W _ address bytes _ _ (good_event _ _ x _) (replied _ (err e) q) = x
unicast-IsRobust W false address bytes _ _ (good_event _ _ _ (good_event _ _ x _))
      (replied _ (ok s) (replied _ (err e) q)) =
    x
unicast-IsRobust W false address bytes _ _ g (replied _ (ok s) (replied _ (ok n) q)) = elim q [ ]
unicast-IsRobust W true address bytes _ _ (good_event _ _ _ (good_event _ _ x _))
      (replied _ (ok s) (replied _ (err e) q)) =
    x
unicast-IsRobust W true address bytes _ _ (good_event _ _ _ (good_event _ _ _ (good_event _ _ x _)))
      (replied _ (ok s) (replied _ (ok a) (replied _ (err e) q))) =
    x
unicast-IsRobust W true address bytes _ _ g
      (replied _ (ok s) (replied _ (ok a) (replied _ (ok n) q))) =
    elim q [ ]

pub multicast-IsRobust :
    (W : Outputs) (debug : Bool) (address : SocketAddrV6) (bytes : Bytes)
    → IsRobust (Works W) (tokio_send_multicast debug address bytes)
unfolding tokio_send_multicast
multicast-IsRobust W _ address bytes _ _ (good_event _ _ x _) (replied _ (err e) q) = x
multicast-IsRobust W false address bytes _ _ (good_event _ _ _ (good_event _ _ x _))
      (replied _ (ok s) (replied _ (err e) q)) =
    x
multicast-IsRobust W false address bytes _ _
      (good_event _ _ _ (good_event _ _ _ (good_event _ _ x _)))
      (replied _ (ok s) (replied _ (ok j) (replied _ (err e) q))) =
    x
multicast-IsRobust W false address bytes _ _ g
      (replied _ (ok s) (replied _ (ok j) (replied _ (ok n) q))) =
    elim q [ ]
multicast-IsRobust W true address bytes _ _ (good_event _ _ _ (good_event _ _ x _))
      (replied _ (ok s) (replied _ (err e) q)) =
    x
multicast-IsRobust W true address bytes _ _
      (good_event _ _ _ (good_event _ _ _ (good_event _ _ x _)))
      (replied _ (ok s) (replied _ (ok a) (replied _ (err e) q))) =
    x
multicast-IsRobust W true address bytes _ _
      (good_event _ _ _ (good_event _ _ _ (good_event _ _ _ (good_event _ _ x _))))
      (replied _ (ok s) (replied _ (ok a) (replied _ (ok j) (replied _ (err e) q)))) =
    x
multicast-IsRobust W true address bytes _ _ g
      (replied _ (ok s) (replied _ (ok a) (replied _ (ok j) (replied _ (ok n) q)))) =
    elim q [ ]
