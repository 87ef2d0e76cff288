-- ===== src/Tests/Sockets.antt =====
-- main/src/network/udp_sender.rs, main/src/network/udp_receiver.rs and main/src/process.rs at
-- concrete inputs.
use tansa.Prelude.{true, false, some, List, [], ◌∷◌, Result, ok, err}
use tansa.Async.Runs.{Trace, Run, returns, replied}
use tansa.Async.Stream.{Sight, called, item, Flows, ends, gives, waited}
use tansa.Net.{socket_addr_v6, SocketAddr, v6, get_discovery_ip}
use tansa.Protocol.{DiscoveryPacket, DecodeError, io}
use tansa.Protocol.Decoder.{decode}
use tansa.Network.UdpSender.{unspecified, tokio_send_unicast, tokio_send_multicast}
use tansa.Network.UdpSender.Ends.{
  UnicastEnds, MulticastEnds, tokio_send_unicast-UnicastEnds, tokio_send_multicast-MulticastEnds,
}
use tansa.Network.UdpReceiver.{tokio_receive, new_socket}
use tansa.Network.UdpReceiver.Listens.{Listens, tokio_receive-Listens}
use tansa.Process.{eval, run, probe, read_stdout, external_command}
use tansa.Process.Failures.{EvalEnds, eval-EvalEnds, RunEnds, run-RunEnds}
use tansa.Process.Outcomes.{eval_command, run_command, ProbeFails, probe_command, probe_lem}
use tansa.Os.{
  os, udp_bind, local_addr, join_multicast_v6, send_to, spawn, take_stdin, take_stdout, write_all,
  close, wait, read_to_end,
}
use tansa.Tests.{futures, lawful, remote, lost, framed, wire}

abbrev datagram : Trace os
datagram =
    (udp_bind (socket_addr_v6 unspecified 0 0 0), ok 1)
    ∷ (local_addr 1, ok (v6 remote))
    ∷ (send_to 1 (1 ∷ 8 ∷ []) remote, ok 2)
    ∷ []

datagram_run : Run (tokio_send_unicast true remote (1 ∷ 8 ∷ [])) datagram (ok tt)
unfolding tokio_send_unicast
datagram_run = replied _ (ok 1) (replied _ (ok (v6 remote)) (replied _ (ok 2) (returns _)))

tokio_send_unicast-UnicastEnds_example : UnicastEnds true remote (1 ∷ 8 ∷ []) datagram (ok tt)
tokio_send_unicast-UnicastEnds_example =
    tokio_send_unicast-UnicastEnds true remote (1 ∷ 8 ∷ []) (ok tt) datagram_run

-- The group cannot be joined.
abbrev multicast : Trace os
multicast =
    (udp_bind (socket_addr_v6 unspecified 0 0 0), ok 1)
    ∷ (join_multicast_v6 1 remote.ip 0, err lost)
    ∷ []

multicast_run : Run (tokio_send_multicast false remote (1 ∷ 8 ∷ [])) multicast (err lost)
unfolding tokio_send_multicast
multicast_run = replied _ (ok 1) (replied _ (err lost) (returns _))

tokio_send_multicast-MulticastEnds_example :
    MulticastEnds false remote (1 ∷ 8 ∷ []) multicast (err lost)
tokio_send_multicast-MulticastEnds_example =
    tokio_send_multicast-MulticastEnds false remote (1 ∷ 8 ∷ []) (err lost) multicast_run

-- The group cannot be joined.
abbrev not_joined_sights : List (Sight os (Result (DiscoveryPacket × SocketAddr) DecodeError))
not_joined_sights =
    called (udp_bind (socket_addr_v6 unspecified 50000 0 0), ok 1)
    ∷ called (join_multicast_v6 1 get_discovery_ip 0, err lost)
    ∷ item (err (io lost))
    ∷ []

not_joined_flow :
    Flows (tokio_receive futures framed io get_discovery_ip 50000 (decode wire)) not_joined_sights
unfolding tokio_receive new_socket
not_joined_flow = waited _ (ok 1) (waited _ (err lost) (gives _ ends))

tokio_receive-Listens_example :
    Listens framed io get_discovery_ip 50000 (decode wire) not_joined_sights
tokio_receive-Listens_example =
    tokio_receive-Listens futures lawful framed io get_discovery_ip 50000 (decode wire)
      not_joined_flow

abbrev evaluated : Trace os
evaluated =
    (spawn (eval_command "cat" []), ok 1)
    ∷ (take_stdin 1, some 2)
    ∷ (write_all 2 (7 ∷ []), ok tt)
    ∷ (close 2, tt)
    ∷ (wait 1, ok true)
    ∷ (take_stdout 1, some 3)
    ∷ (read_to_end 3, ok (7 ∷ []))
    ∷ []

evaluated_run : Run (eval "cat" [] (7 ∷ [])) evaluated (ok (7 ∷ []))
unfolding eval read_stdout
evaluated_run = replied _ (ok 1) (
    replied _ (some 2) (
      replied _ (ok tt) (
        replied _ tt
          (replied _ (ok true) (replied _ (some 3) (replied _ (ok (7 ∷ [])) (returns _)))))))

eval-EvalEnds_example : EvalEnds (eval_command "cat" []) (7 ∷ []) evaluated (ok (7 ∷ []))
eval-EvalEnds_example = eval-EvalEnds "cat" [] (7 ∷ []) (ok (7 ∷ [])) evaluated_run

abbrev failed : Trace os
failed = (spawn (probe_command "ip" ("-Version" ∷ [])), ok 1) ∷ (wait 1, ok false) ∷ []

failed_run : Run (probe "ip" ("-Version" ∷ [])) failed false
unfolding probe
failed_run = replied _ (ok 1) (replied _ (ok false) (returns _))

probe_lem_example : ProbeFails (probe_command "ip" ("-Version" ∷ [])) failed
probe_lem_example = probe_lem "ip" ("-Version" ∷ []) failed_run

abbrev ran_badly : Trace os
ran_badly = (spawn (run_command "date" []), ok 1) ∷ (wait 1, ok false) ∷ []

ran_badly_run : Run (run "date" []) ran_badly (err external_command)
unfolding run read_stdout
ran_badly_run = replied _ (ok 1) (replied _ (ok false) (returns _))

run-RunEnds_example : RunEnds (run_command "date" []) ran_badly (err external_command)
run-RunEnds_example = run-RunEnds "date" [] (err external_command) ran_badly_run
