-- ===== src/Async/Sequential.antt =====
-- A `futures-util` that does one thing after another. It meets what `IsLawful` states, and the
-- examples run on it.
pub mod Lawful
use tansa.Prelude.{ℕ, Bool, Option, List, [], ◌∷◌, Result, ok, err, map_result, map_error}
use tansa.Async.{Signature, Async, done, call, ◌>>=◌}
use tansa.Async.Try
use tansa.Async.Stream.{Stream, finished, yields, awaits, wait_for}
use tansa.Async.Futures.{
  FuturesUtil, keep_if, emit_some, flattened, handled, list_stream, first_item,
}

module _ {S : Signature} where
  abbrev pub seq_join :
      {A B E : Type 0} → Async S (Result A E) → Async S (Result B E) → Async S (Result (A × B) E)
  seq_join m n = Try.◌>>=◌ m (λ a. n >>= λ r. done (map_result (λ b. (a, b)) r))

  abbrev pub seq_join_all :
      {A E : Type 0} → List (Async S (Result A E)) → Async S (Result (List A) E)
  seq_join_all [] = done (ok [])
  seq_join_all (m ∷ ms) =
      Try.◌>>=◌ m (λ a. seq_join_all ms >>= λ r. done (map_result (λ l. a ∷ l) r))

  abbrev pub seq_map : {A B : Type 0} → (A → B) → Stream S A → Stream S B
  seq_map f finished = finished
  seq_map f (yields a s) = yields (f a) (seq_map f s)
  seq_map f (awaits c k) = awaits c (λ r. seq_map f (k r))

  abbrev pub seq_filter : {A : Type 0} → (A → Async S Bool) → Stream S A → Stream S A
  seq_filter p finished = finished
  seq_filter p (yields a s) = wait_for (p a) (keep_if a (seq_filter p s))
  seq_filter p (awaits c k) = awaits c (λ r. seq_filter p (k r))

  abbrev pub seq_filter_map : {A B : Type 0} → (A → Async S (Option B)) → Stream S A → Stream S B
  seq_filter_map f finished = finished
  seq_filter_map f (yields a s) = wait_for (f a) (emit_some (seq_filter_map f s))
  seq_filter_map f (awaits c k) = awaits c (λ r. seq_filter_map f (k r))

  abbrev pub seq_select : {A : Type 0} → Stream S A → Stream S A → Stream S A
  seq_select finished u = u
  seq_select (yields a s) u = yields a (seq_select s u)
  seq_select (awaits c k) u = awaits c (λ r. seq_select (k r) u)

  abbrev pub seq_for_each :
      {A E : Type 0}
      → (A → Async S (Result (Unit {0}) E))
      → Stream S (Result A E)
      → Async S (Result (Unit {0}) E)
  seq_for_each f finished = done (ok tt)
  seq_for_each f (yields (ok a) s) = Try.◌>>=◌ (f a) (λ _. seq_for_each f s)
  seq_for_each f (yields (err e) s) = done (err e)
  seq_for_each f (awaits c k) = call c (λ r. seq_for_each f (k r))

  abbrev pub sequential : FuturesUtil S
  sequential = record {
    map_future = λ f m. m >>= λ a. done (f a);
    map_ok_future = λ f m. m >>= λ r. done (map_result f r);
    map_err_future = λ f m. m >>= λ r. done (map_error f r);
    or_else = λ f m. m >>= handled f;
    try_join = seq_join;
    try_join_all = seq_join_all;
    into_stream = λ m. wait_for m (λ a. yields a finished);
    try_flatten_stream = λ m. wait_for m flattened;
    once = λ m. wait_for m (λ a. yields a finished);
    iter = list_stream;
    map = seq_map;
    map_ok = λ f s. seq_map (map_result f) s;
    map_err = λ f s. seq_map (map_error f) s;
    filter = seq_filter;
    filter_map = seq_filter_map;
    next = first_item;
    select = seq_select;
    try_for_each = seq_for_each;
    try_for_each_concurrent = λ limit f s. seq_for_each f s;
  }
