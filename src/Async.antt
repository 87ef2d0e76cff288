-- ===== src/Async.antt =====
-- `async fn` and `.await`: a future is a tree of calls to code outside the program. `done a` is
-- ready with `a`; `call c k` makes the call `c`, and goes on as `k r` when the reply `r` arrives.
-- What the calls are, and what they reply, is a signature: the code leaves both open.
pub mod Runs
pub mod Try
pub mod Stream
pub mod Shuffle
pub mod Concurrent
pub mod Joining
pub mod ForEach
pub mod Futures
pub mod Adaptors
pub mod Sequential
pub mod Execute
use tansa.Prelude.{List, Result, ok, err, map_error}

pub record Signature : Type 1 where
  pub Call : Type 0
  pub Reply : Call → Type 0

pub data Async (S : Signature) (A : Type 0) : Type 0 where
  done : A → Async S A
  call : (c : S.Call) → (S.Reply c → Async S A) → Async S A

module _ {S : Signature} {A : Type 0} where
  -- `let x = m.await; f(x)`
  infixl 5 ◌>>=◌ ◌>>◌
  abbrev pub ◌>>=◌ : {B : Type 0} → Async S A → (A → Async S B) → Async S B
  done a >>= f = f a
  call c k >>= f = call c (λ r. k r >>= f)

  abbrev pub ◌>>◌ : {B : Type 0} → Async S A → Async S B → Async S B
  m >> n = m >>= λ _. n
