-- ===== src/Async/Futures.antt =====
-- The crate `futures-util`, as far as the code calls it: an interface, which the development takes
-- as a parameter. `IsLawful` states what the crate documents of each function.
use tansa.Prelude.{
  ℕ, ◌≡◌, Bool, if◌then◌else◌, Option, none, some, List, [], ◌∷◌, Result, ok, err, map_result,
  map_error,
}
use tansa.Async.Try
use tansa.Async.{Signature, Async, done, call, ◌>>=◌}
use tansa.Async.Runs.{Trace, Run}
use tansa.Async.Stream.{Stream, finished, yields, awaits, wait_for, Sight, Flows}
use tansa.Async.Shuffle.{Merges}
use tansa.Async.Concurrent.{Joined, Partial}
use tansa.Async.ForEach.{ForEach}

pub record FuturesUtil (S : Signature) : Type 1 where
  -- `TryFutureExt::map_ok` and `FutureExt::map`, `TryFutureExt::or_else`
  pub map_future : {A B : Type 0} → (A → B) → Async S A → Async S B
  pub map_ok_future : {A B E : Type 0} → (A → B) → Async S (Result A E) → Async S (Result B E)
  pub map_err_future : {A E F : Type 0} → (E → F) → Async S (Result A E) → Async S (Result A F)
  pub or_else :
      {A E F : Type 0} → (E → Async S (Result A F)) → Async S (Result A E) → Async S (Result A F)
  pub try_join :
      {A B E : Type 0} → Async S (Result A E) → Async S (Result B E) → Async S (Result (A × B) E)
  pub try_join_all : {A E : Type 0} → List (Async S (Result A E)) → Async S (Result (List A) E)
  -- `FutureExt::into_stream`, `TryFutureExt::try_flatten_stream`, `stream::once`, `stream::iter`
  pub into_stream : {A : Type 0} → Async S A → Stream S A
  pub try_flatten_stream :
      {A E : Type 0} → Async S (Result (Stream S (Result A E)) E) → Stream S (Result A E)
  pub once : {A : Type 0} → Async S A → Stream S A
  pub iter : {A : Type 0} → List A → Stream S A
  -- `StreamExt` and `TryStreamExt`
  pub map : {A B : Type 0} → (A → B) → Stream S A → Stream S B
  pub map_ok : {A B E : Type 0} → (A → B) → Stream S (Result A E) → Stream S (Result B E)
  pub map_err : {A E F : Type 0} → (E → F) → Stream S (Result A E) → Stream S (Result A F)
  pub filter : {A : Type 0} → (A → Async S Bool) → Stream S A → Stream S A
  pub filter_map : {A B : Type 0} → (A → Async S (Option B)) → Stream S A → Stream S B
  pub next : {A : Type 0} → Stream S A → Async S (Option A)
  pub select : {A : Type 0} → Stream S A → Stream S A → Stream S A
  pub try_for_each :
      {A E : Type 0}
      → (A → Async S (Result (Unit {0}) E))
      → Stream S (Result A E)
      → Async S (Result (Unit {0}) E)
  -- The limit 0 stands for no limit.
  pub try_for_each_concurrent :
      {A E : Type 0}
      → ℕ
      → (A → Async S (Result (Unit {0}) E))
      → Stream S (Result A E)
      → Async S (Result (Unit {0}) E)

-- How `try_join` ends: both futures ran to their values, or one returned an error and the other was
-- dropped.
pub data BothRun {S : Signature} {A B E : Type 0} (m : Async S (Result A E))
    (n : Async S (Result B E)) (t : Trace S) : Result (A × B) E → Type 0 where
  both_ok :
      {a : A} {b : B} {u v : Trace S}
      → Run m u (ok a)
      → Run n v (ok b)
      → Merges u v t
      → BothRun m n t (ok (a, b))
  left_err :
      {e : E} {u v : Trace S} → Run m u (err e) → Partial n v → Merges u v t → BothRun m n t (err e)
  right_err :
      {e : E} {u v : Trace S} → Partial m u → Run n v (err e) → Merges u v t → BothRun m n t (err e)

-- `l` is what two streams show, interleaved.
pub record Selected {S : Signature} {A : Type 0} (s u : Stream S A) (l : List (Sight S A))
    : Type 0 where
  pub of_first : List (Sight S A)
  pub of_second : List (Sight S A)
  pub first : Flows s of_first
  pub second : Flows u of_second
  pub merged : Merges of_first of_second l

module _ {S : Signature} {A : Type 0} where
  abbrev pub keep_if : A → Stream S A → Bool → Stream S A
  keep_if a s b = if b then yields a s else s

  abbrev pub emit_some : Stream S A → Option A → Stream S A
  emit_some s none = s
  emit_some s (some a) = yields a s

  abbrev pub flattened : {E : Type 0} → Result (Stream S (Result A E)) E → Stream S (Result A E)
  flattened (ok s) = s
  flattened (err e) = yields (err e) finished

  abbrev pub handled :
      {E F : Type 0} → (E → Async S (Result A F)) → Result A E → Async S (Result A F)
  handled f (ok a) = done (ok a)
  handled f (err e) = f e

  abbrev pub list_stream : List A → Stream S A
  list_stream [] = finished
  list_stream (a ∷ l) = yields a (list_stream l)

  abbrev pub first_item : Stream S A → Async S (Option A)
  first_item finished = done none
  first_item (yields a s) = done (some a)
  first_item (awaits c k) = Async.call c (λ r. first_item (k r))

module _ {S : Signature} (F : FuturesUtil S) where
  open F use {
    map_future, map_ok_future, map_err_future, or_else, try_join, try_join_all, into_stream,
    try_flatten_stream, once, iter, map, map_ok, map_err, filter, filter_map, next, select,
    try_for_each, try_for_each_concurrent,
  }

  pub record IsLawful : Type 1 where
    pub map_future_lem :
        {A B : Type 0} (f : A → B) (m : Async S A) → map_future f m ≡ (m >>= λ a. done (f a))
    pub map_ok_future_lem :
        {A B E : Type 0} (f : A → B) (m : Async S (Result A E))
        → map_ok_future f m ≡ (m >>= λ r. done (map_result f r))
    pub map_err_future_lem :
        {A E G : Type 0} (f : E → G) (m : Async S (Result A E))
        → map_err_future f m ≡ (m >>= λ r. done (map_error f r))
    pub or_else_lem :
        {A E G : Type 0} (f : E → Async S (Result A G)) (m : Async S (Result A E))
        → or_else f m ≡ (m >>= handled f)
    pub try_join_lem :
        {A B E : Type 0} (m : Async S (Result A E)) (n : Async S (Result B E)) {t : Trace S}
        {r : Result (A × B) E}
        → Run (try_join m n) t r
        → BothRun m n t r
    pub try_join_all_lem :
        {A E : Type 0} (ms : List (Async S (Result A E))) {t : Trace S} {r : Result (List A) E}
        → Run (try_join_all ms) t r
        → Joined ms t (map_result (λ _. tt) r)
    pub into_stream_lem :
        {A : Type 0} (m : Async S A) → into_stream m ≡ wait_for m (λ a. yields a finished)
    pub try_flatten_stream_lem :
        {A E : Type 0} (m : Async S (Result (Stream S (Result A E)) E))
        → try_flatten_stream m ≡ wait_for m flattened
    pub once_lem : {A : Type 0} (m : Async S A) → once m ≡ wait_for m (λ a. yields a finished)
    pub iter_lem : {A : Type 0} (l : List A) → iter l ≡ list_stream l
    pub map_finished : {A B : Type 0} (f : A → B) → map f finished ≡ finished
    pub map_yields :
        {A B : Type 0} (f : A → B) (a : A) (s : Stream S A)
        → map f (yields a s) ≡ yields (f a) (map f s)
    pub map_awaits :
        {A B : Type 0} (f : A → B) (c : S.Call) (k : S.Reply c → Stream S A)
        → map f (awaits c k) ≡ awaits c (λ r. map f (k r))
    pub map_ok_lem :
        {A B E : Type 0} (f : A → B) (s : Stream S (Result A E)) → map_ok f s ≡ map (map_result f) s
    pub map_err_lem :
        {A E G : Type 0} (f : E → G) (s : Stream S (Result A E)) → map_err f s ≡ map (map_error f) s
    pub filter_finished : {A : Type 0} (p : A → Async S Bool) → filter p finished ≡ finished
    pub filter_yields :
        {A : Type 0} (p : A → Async S Bool) (a : A) (s : Stream S A)
        → filter p (yields a s) ≡ wait_for (p a) (keep_if a (filter p s))
    pub filter_awaits :
        {A : Type 0} (p : A → Async S Bool) (c : S.Call) (k : S.Reply c → Stream S A)
        → filter p (awaits c k) ≡ awaits c (λ r. filter p (k r))
    pub filter_map_finished :
        {A B : Type 0} (f : A → Async S (Option B)) → filter_map f finished ≡ finished
    pub filter_map_yields :
        {A B : Type 0} (f : A → Async S (Option B)) (a : A) (s : Stream S A)
        → filter_map f (yields a s) ≡ wait_for (f a) (emit_some (filter_map f s))
    pub filter_map_awaits :
        {A B : Type 0} (f : A → Async S (Option B)) (c : S.Call) (k : S.Reply c → Stream S A)
        → filter_map f (awaits c k) ≡ awaits c (λ r. filter_map f (k r))
    pub next_lem : {A : Type 0} (s : Stream S A) → next s ≡ first_item s
    pub select_lem :
        {A : Type 0} (s u : Stream S A) {l : List (Sight S A)}
        → Flows (select s u) l
        → Selected s u l
    pub try_for_each_finished :
        {A E : Type 0} (f : A → Async S (Result (Unit {0}) E))
        → try_for_each f finished ≡ done (ok tt)
    pub try_for_each_ok :
        {A E : Type 0} (f : A → Async S (Result (Unit {0}) E)) (a : A) (s : Stream S (Result A E))
        → try_for_each f (yields (ok a) s) ≡ Try.◌>>=◌ (f a) (λ _. try_for_each f s)
    pub try_for_each_err :
        {A E : Type 0} (f : A → Async S (Result (Unit {0}) E)) (e : E) (s : Stream S (Result A E))
        → try_for_each f (yields (err e) s) ≡ done (err e)
    pub try_for_each_awaits :
        {A E : Type 0} (f : A → Async S (Result (Unit {0}) E)) (c : S.Call)
        (k : S.Reply c → Stream S (Result A E))
        → try_for_each f (awaits c k) ≡ call c (λ r. try_for_each f (k r))
    pub try_for_each_concurrent_lem :
        {A E : Type 0} (f : A → Async S (Result (Unit {0}) E)) (s : Stream S (Result A E))
        {t : Trace S} {r : Result (Unit {0}) E}
        → Run (try_for_each_concurrent 0 f s) t r
        → ForEach f s [] t r
