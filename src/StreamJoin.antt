-- ===== src/StreamJoin.antt =====
-- main/src/stream.rs: the items of a stream, while a future runs beside it.
pub mod Items
pub mod Working
use tansa.Prelude.{Option, none, some, Result, transpose}
use tansa.Async.{Signature, Async, done}
use tansa.Async.Stream.{Stream}
use tansa.Async.Futures.{FuturesUtil}

module _ {S : Signature} (F : FuturesUtil S) where
  -- The first two arguments are `Into<RE>` for the errors of the future and of the stream.
  unfoldable pub join :
      {RE SI FE SE FI : Type 0}
      → (FE → RE)
      → (SE → RE)
      → Async S (Result FI FE)
      → Stream S (Result SI SE)
      → Stream S (Result SI RE)
  join {SI} from_future from_stream future stream =
      let wrapped_future =
        F.into_stream
          (F.map_err_future from_future (F.map_ok_future {B = Option SI} (λ _. none) future)) in
      let wrapped_stream = F.map_err from_stream (F.map_ok (λ i. some i) stream) in
      F.filter_map (λ item. done (transpose item)) (F.select wrapped_stream wrapped_future)
