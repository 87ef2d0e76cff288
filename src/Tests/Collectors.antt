-- ===== src/Tests/Collectors.antt =====
-- main/src/response_collector.rs at concrete inputs.
use tansa.Prelude.{true, err, ◌≡◌, refl, false, some, none, List, [], ◌∷◌, ◌++◌, ok}
use tansa.Async.{done}
use tansa.Async.Runs.{Trace, Run, returns, replied}
use tansa.Async.Stream.{Stream, finished}
use tansa.Net.{socket_addr_v6, v6}
use tansa.Network.UdpSender.{unspecified}
use tansa.ResponseCollector.{submit_response, new, Router, GrpcResponseCollector}
use tansa.ResponseCollector.Submit.{Outcome, submit_response-Outcome}
use tansa.ResponseCollector.Collected.{Submission, all_added, submit_all, queued-submit_all}
use tansa.ResponseCollector.New.{NewEnds, new-NewEnds}
use tansa.Service.{Service}
use tansa.Os.{os, tcp_bind, tcp_local_addr, health_set_serving, unimplemented}
use tansa.ResponseCollector.Interleaved.Invariant.{Reach-IsSound}
use tansa.ResponseCollector.Interleaved.{
  Collecting, started, Reach, here, next, submits, polls, drops, IsSound,
}
use tansa.Tests.{remote, channel, channel-IsChannel}

submit_response-Outcome_example :
    Outcome channel channel-IsChannel
      (some (v6 remote))
      10
      (false, [])
      (submit_response channel (some (v6 remote)) (record { service_port = 10 }) (false, []))
submit_response-Outcome_example =
    submit_response-Outcome channel channel-IsChannel (some (v6 remote)) 10 (false, [])

abbrev submissions : List Submission
submissions =
    (some (v6 remote), 10)
    ∷ (some (v6 remote), 0)
    ∷ (none, 7)
    ∷ (some (v6 remote), 65536)
    ∷ (some (v6 remote), 11)
    ∷ []

queued-submit_all_example :
    channel.queued (submit_all channel submissions (false, []))
    ≡ channel.queued (false, []) ++ all_added submissions
queued-submit_all_example = queued-submit_all channel channel-IsChannel submissions (false, []) refl

two_added :
    all_added submissions
    ≡ record { address = record remote { port = 10 } }
      ∷ record { address = record remote { port = 11 } }
      ∷ []
two_added = refl

abbrev grpc : Router
grpc = λ socket. done (ok tt)

abbrev silent : Stream os Service
silent = finished

abbrev listened : Trace os
listened =
    (tcp_bind (socket_addr_v6 unspecified 0 0 0), ok 4)
    ∷ (tcp_local_addr 4, ok (v6 (socket_addr_v6 unspecified 40000 0 0)))
    ∷ (health_set_serving, tt)
    ∷ []

abbrev started_collector : GrpcResponseCollector
started_collector = record { tcp = 4; port = 40000; grpc = grpc; response_receiver = silent }

started_run : Run (new grpc silent) listened (ok started_collector)
unfolding new
started_run =
    replied _ (ok 4)
      (replied _ (ok (v6 (socket_addr_v6 unspecified 40000 0 0))) (replied _ tt (returns _)))

new-NewEnds_example : NewEnds grpc silent listened (ok started_collector)
new-NewEnds_example = new-NewEnds grpc silent (ok started_collector) started_run

abbrev opened : Collecting channel
opened = started channel (false, [])

-- A submission is accepted, one is rejected, and the stream gives the first and is dropped.
abbrev collected : Collecting channel
collected = record {
  channel = (true, []);
  given = record { address = record remote { port = 10 } } ∷ [];
  open_still = false;
  log =
      record { from = some (v6 remote); port = 10; answer = ok tt }
      ∷ record { from = none; port = 7; answer = err (unimplemented "Remote address unavailable") }
      ∷ [];
}

collected_reached : Reach channel opened collected
unfolding submit_response
collected_reached =
    next
      (next (next (next here (submits (some (v6 remote)) 10 _)) (submits none 7 _)) (polls _ refl))
      (drops _)

Reach-IsSound_example : IsSound channel collected
Reach-IsSound_example =
    Reach-IsSound channel channel-IsChannel (false, []) refl refl collected_reached
