-- ===== src/UnitTests/Senders.antt =====
-- The tests of main/src/network/udp_sender.rs, on any system that works.
use tansa.Prelude.{◌≡◌, Bool, [], ◌∷◌, Result, ok}
use tansa.Async.Runs.{Trace}
use tansa.Async.Execute.{Answer, execute, execute-ok}
use tansa.Net.{ipv6, socket_addr_v6, get_discovery_ip}
use tansa.Protocol.{IoError}
use tansa.Network.UdpSender.{tokio_udp_sender}
use tansa.Network.UdpSender.Robust.{unicast-IsRobust, multicast-IsRobust}
use tansa.Os.{os}
use tansa.Os.Works.{Outputs, Works}

module _ (debug : Bool) (answer : Answer os) where
  abbrev multicast_sent : Result (Unit {0}) IoError
  multicast_sent =
      (execute answer [] (
        (tokio_udp_sender debug).send_multicast (socket_addr_v6 get_discovery_ip 1 0 0) (1 ∷ []))).1

  -- To `[::1]:1`.
  abbrev unicast_sent : Result (Unit {0}) IoError
  unicast_sent =
      (execute answer [] (
        (tokio_udp_sender debug).send_unicast (socket_addr_v6 (ipv6 0 0 0 0 0 0 0 1) 1 0 0)
          (1 ∷ []))).1

  module _ (W : Outputs) (works : (past : Trace os) (c : os.Call) → Works W c (answer past c)) where
    multicast_passes : multicast_sent ≡ ok tt
    unfolding tokio_udp_sender
    multicast_passes =
        (execute-ok (Works W) _
          (multicast-IsRobust W debug (socket_addr_v6 get_discovery_ip 1 0 0) (1 ∷ [])) answer works
          []).0

    unicast_passes : unicast_sent ≡ ok tt
    unfolding tokio_udp_sender
    unicast_passes =
        (execute-ok (Works W) _
          (unicast-IsRobust W debug (socket_addr_v6 (ipv6 0 0 0 0 0 0 0 1) 1 0 0) (1 ∷ [])) answer
          works []).0
