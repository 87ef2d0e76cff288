-- ===== src/UnitTests/Collectors.antt =====
-- The tests of main/src/response_collector.rs that need no server.
use Prim.Native.String.{String}
use tansa.Prelude.{ℕ, ◌≡◌, refl, Option, none, some, Result, ok, err}
use tansa.Net.{ipv6, socket_addr_v6, SocketAddr, v4, v6}
use tansa.Service.{Service}
use tansa.ResponseCollector.{Channel, IsChannel, submit_response}
use tansa.Os.{Status, invalid_argument, unimplemented, unavailable, other_status}

-- `Status::message`, where the status is one of the program's.
abbrev message : Status → Option String
message (invalid_argument s) = some s
message (unimplemented s) = some s
message (unavailable s) = some s
message (other_status n) = none

-- The message of an error; the tests fail without one.
abbrev error_message : {S : Type 0} → Result (Unit {0}) Status × S → Option String
error_message (ok u, s) = none
error_message (err e, s) = message e

-- `[::1]:1` and `1.1.1.1:1`
abbrev remote_v6 : SocketAddr
remote_v6 = v6 (socket_addr_v6 (ipv6 0 0 0 0 0 0 0 1) 1 0 0)

abbrev remote_v4 : SocketAddr
remote_v4 = v4 (record { ip = 0x01010101; port = 1 })

-- A channel and the state that `unbounded` makes.
module _ (C : Channel Service) (H : IsChannel C) (unbounded : C.State) where
  -- The receiver is dropped at once.
  abbrev new_response_collector_service_provider : C.State
  new_response_collector_service_provider = C.drop_receiver unbounded

  abbrev submitting : Option SocketAddr → ℕ → Option String
  submitting remote port = error_message (
      submit_response C remote (record { service_port = port })
        new_response_collector_service_provider)

  abbrev remote_address_unavailable : Option String
  remote_address_unavailable = submitting none 1

  abbrev ipv4_unsupported : Option String
  ipv4_unsupported = submitting (some remote_v4) 1

  abbrev port_out_of_range : Option String
  port_out_of_range = submitting (some remote_v6) 100000

  abbrev port_must_not_be_0 : Option String
  port_must_not_be_0 = submitting (some remote_v6) 0

  abbrev no_longer_accepting : Option String
  no_longer_accepting = submitting (some remote_v6) 1

  remote_address_unavailable_message :
      remote_address_unavailable ≡ some "Remote address unavailable"
  unfolding submit_response
  remote_address_unavailable_message = refl

  ipv4_unsupported_message : ipv4_unsupported ≡ some "IPv4 unsupported"
  unfolding submit_response
  ipv4_unsupported_message = refl

  port_out_of_range_message : port_out_of_range ≡ some "Port out of range"
  unfolding submit_response
  port_out_of_range_message = refl

  port_must_not_be_0_message : port_must_not_be_0 ≡ some "Port must not be 0"
  unfolding submit_response
  port_must_not_be_0_message = refl

  no_longer_accepting_message : no_longer_accepting ≡ some "No longer accepting responses"
  unfolding submit_response
  no_longer_accepting_message = let closed = H.dropped unbounded in rw (H.refused _ _ closed)
