-- ===== src/ResponseCollector.antt =====
-- main/src/response_collector.rs: the gRPC service that takes the responses of servers. The gRPC
-- server of `tonic` and the channel of `futures-channel` are parameters.
pub mod Submit
pub mod Collected
pub mod New
pub mod Interleaved
use tansa.Prelude.{
  ℕ, suc, ◌≡◌, Bool, true, false, Option, none, some, List, [], ◌∷◌, ◌++◌, Result, ok, err, ◌==◌,
  if◌then◌else◌,
}
use tansa.Async.{Signature, Async, done, call}
use tansa.Async.Try.{◌>>=◌, ◌>>◌}
use tansa.Async.Stream.{Stream}
use tansa.Async.Futures.{FuturesUtil}
use tansa.Net.{SocketAddr, v4, v6, SocketAddrV6, socket_addr_v6, set_port, port_of, try_into_u16}
use tansa.Network.UdpSender.{unspecified}
use tansa.Protocol.{Response, IoError}
use tansa.Os.{
  os, Handle, TransportError, Status, invalid_argument, unimplemented, unavailable, tcp_bind,
  tcp_local_addr, health_set_serving,
}
use tansa.Service.{Service}
use tansa.StreamJoin.{join}

pub record ResponseCollector (S : Signature) : Type 0 where
  pub get_port : ℕ
  pub collect : Stream S (Result Service TransportError)

-- `Router` and its `serve_with_incoming`, by the socket.
abbrev pub Router : Type 0
Router = Handle → Async os (Result (Unit {0}) TransportError)

pub record GrpcResponseCollector : Type 0 where
  pub tcp : Handle
  pub port : ℕ
  pub grpc : Router
  pub response_receiver : Stream os Service

-- The router and the receiving end of the channel are what the crates build.
unfoldable pub new : Router → Stream os Service → Async os (Result GrpcResponseCollector IoError)
new grpc response_receiver = do
  tcp ← call (tcp_bind (socket_addr_v6 unspecified 0 0 0)) done
  address ← call (tcp_local_addr tcp) done
  call health_set_serving (λ reported. done (ok reported))
  done (
      ok (record {
        tcp = tcp;
        port = port_of address;
        grpc = grpc;
        response_receiver = response_receiver;
      }))

unfoldable pub grpc_collector : FuturesUtil os → GrpcResponseCollector → ResponseCollector os
grpc_collector F c = record {
  get_port = c.port;
  collect = join F (λ e. e) (λ e. e) (c.grpc c.tcp) (F.map ok c.response_receiver);
}

-- `futures_channel::mpsc::unbounded`
pub record Channel (A : Type 0) : Type 1 where
  pub State : Type 0
  pub is_closed : State → Bool
  pub queued : State → List A
  pub unbounded_send : A → State → Result (Unit {0}) (Unit {0}) × State
  -- The receiver as a stream, and its end.
  pub poll_next : State → Option A × State
  pub drop_receiver : State → State

-- A message is queued behind the others while the receiver is there, and refused after that.
pub record IsChannel {A : Type 0} (C : Channel A) : Type 0 where
  pub sent : (a : A) (s : C.State) → C.is_closed s ≡ false → (C.unbounded_send a s).0 ≡ ok tt
  pub queued_last :
      (a : A) (s : C.State)
      → C.is_closed s ≡ false
      → C.queued (C.unbounded_send a s).1 ≡ C.queued s ++ a ∷ []
  pub refused : (a : A) (s : C.State) → C.is_closed s ≡ true → C.unbounded_send a s ≡ (err tt, s)
  pub still_open : (a : A) (s : C.State) → C.is_closed (C.unbounded_send a s).1 ≡ C.is_closed s
  -- The receiver gives the messages in order, and dropping it closes the channel.
  pub polled_first :
      (a : A) (l : List A) (s : C.State)
      → C.queued s ≡ a ∷ l
      → ((C.poll_next s).0 ≡ some a)
        × (C.queued (C.poll_next s).1 ≡ l)
        × (C.is_closed (C.poll_next s).1 ≡ C.is_closed s)
  pub polled_empty : (s : C.State) → C.queued s ≡ [] → C.poll_next s ≡ (none, s)
  pub dropped : (s : C.State) → C.is_closed (C.drop_receiver s) ≡ true

source_address : Option SocketAddr → Result SocketAddrV6 Status
source_address (some (v6 a)) = ok a
source_address (some (v4 a)) = err (unimplemented "IPv4 unsupported")
source_address none = err (unimplemented "Remote address unavailable")

module _ (C : Channel Service) where
  -- The match on the result of `unbounded_send`.
  abbrev answer : Result (Unit {0}) (Unit {0}) × C.State → Result (Unit {0}) Status × C.State
  answer (ok _, s) = (ok tt, s)
  answer (err _, s) = (err (unavailable "No longer accepting responses"), s)

  abbrev send_service :
      ℕ → Result SocketAddrV6 Status → C.State → Result (Unit {0}) Status × C.State
  send_service port (err status) s = (err status, s)
  send_service port (ok a) s = answer (C.unbounded_send (record { address = set_port a port }) s)

  abbrev submit_port : Option ℕ → Option SocketAddr → C.State → Result (Unit {0}) Status × C.State
  submit_port none remote_address s = (err (invalid_argument "Port out of range"), s)
  submit_port (some service_port) remote_address s =
      if service_port == 0
      then (err (invalid_argument "Port must not be 0"), s)
      else send_service service_port (source_address remote_address) s

  -- The request is its remote address and its message; the channel is the provider's state.
  unfoldable pub submit_response :
      Option SocketAddr → Response → C.State → Result (Unit {0}) Status × C.State
  unfolding source_address
  submit_response remote_address request s =
      submit_port (try_into_u16 request.service_port) remote_address s
