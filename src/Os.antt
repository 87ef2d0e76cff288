-- ===== src/Os.antt =====
-- The calls that the program makes of the operating system, through `tokio`, and of `tonic`. The
-- replies are open: a theorem holds for whatever they are.
pub mod Works
pub mod Reliable
use Prim.Native.String.{String}
use tansa.Prelude.{ℕ, Bool, Option, List, Result}
use tansa.Async.{Signature}
use tansa.Net.{Ipv6Addr, SocketAddr, SocketAddrV6}
use tansa.Net.Display.{Text}
use tansa.Protocol.{Bytes, Response, IoError}

pub data Stdio : Type 0 where
  null piped inherit : Stdio

-- `tokio::process::Command`
pub record Command : Type 0 where
  pub program : String
  pub args : List String
  pub env : List (String × String)
  pub stdin : Stdio
  pub stdout : Stdio
  pub stderr : Stdio

-- Handles of child processes, pipes, sockets and gRPC channels.
abbrev pub Handle : Type 0
Handle = ℕ

-- `tonic::transport::Error`; the code only passes it on.
pub record TransportError : Type 0 where
  pub code : ℕ

-- `tonic::Status`, with the codes that the program uses or receives.
pub data Status : Type 0 where
  invalid_argument unimplemented unavailable : String → Status
  other_status : ℕ → Status

pub data OsCall : Type 0 where
  spawn : Command → OsCall
  take_stdin take_stdout : Handle → OsCall
  write_all : Handle → Bytes → OsCall
  close : Handle → OsCall
  wait : Handle → OsCall
  read_to_end : Handle → OsCall
  udp_bind : SocketAddrV6 → OsCall
  local_addr : Handle → OsCall
  join_multicast_v6 : Handle → Ipv6Addr → ℕ → OsCall
  set_multicast_loop_v6 : Handle → Bool → OsCall
  send_to : Handle → Bytes → SocketAddrV6 → OsCall
  tcp_bind : SocketAddrV6 → OsCall
  tcp_local_addr : Handle → OsCall
  health_set_serving : OsCall
  grpc_connect : Text → OsCall
  grpc_submit_response : Handle → Response → OsCall
  print_discovered : SocketAddrV6 → OsCall

-- `wait` replies whether the process ended with success, `send_to` how many bytes were sent.
abbrev pub OsReply : OsCall → Type 0
OsReply (spawn c) = Result Handle IoError
OsReply (take_stdin p) = Option Handle
OsReply (take_stdout p) = Option Handle
OsReply (write_all h b) = Result (Unit {0}) IoError
OsReply (close h) = Unit {0}
OsReply (wait p) = Result Bool IoError
OsReply (read_to_end h) = Result Bytes IoError
OsReply (udp_bind a) = Result Handle IoError
OsReply (local_addr h) = Result SocketAddr IoError
OsReply (join_multicast_v6 h a i) = Result (Unit {0}) IoError
OsReply (set_multicast_loop_v6 h b) = Result (Unit {0}) IoError
OsReply (send_to h b a) = Result ℕ IoError
OsReply (tcp_bind a) = Result Handle IoError
OsReply (tcp_local_addr h) = Result SocketAddr IoError
OsReply health_set_serving = Unit {0}
OsReply (grpc_connect u) = Result Handle TransportError
OsReply (print_discovered a) = Unit {0}
OsReply (grpc_submit_response h r) = Result (Unit {0}) Status

abbrev pub os : Signature
os = record { Call = OsCall; Reply = OsReply }
