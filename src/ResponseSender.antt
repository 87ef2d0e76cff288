-- ===== src/ResponseSender.antt =====
-- main/src/response_sender.rs: the trait `ResponseSender` and its implementation over gRPC.
use Prim.Native.String.{String}
use tansa.Prelude.{Result, ok}
use tansa.Async.{Signature, Async, done, call}
use tansa.Async.Try.{◌>>=◌, ◌>>◌, with_error}
use tansa.Net.Display.{Text}
use tansa.Protocol.{Response}
use tansa.Os.{os, TransportError, Status, grpc_connect, grpc_submit_response}

-- `anyhow::Error`: a message of the program, or an error of `tonic`.
pub data AnyhowError : Type 0 where
  message : String → AnyhowError
  transport : TransportError → AnyhowError
  status : Status → AnyhowError

pub record ResponseSender (S : Signature) : Type 0 where
  pub send : Response → Text → Async S (Result (Unit {0}) AnyhowError)

unfoldable pub grpc_send : Response → Text → Async os (Result (Unit {0}) AnyhowError)
grpc_send response response_collector_address = do
  client ← with_error transport (call (grpc_connect response_collector_address) done)
  with_error status (call (grpc_submit_response client response) done)
  done (ok tt)

unfoldable pub grpc_response_sender : ResponseSender os
unfolding grpc_send
grpc_response_sender = record { send = grpc_send }
