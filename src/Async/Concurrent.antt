-- ===== src/Async/Concurrent.antt =====
-- Futures that make progress side by side on one task, as `try_join_all` and
-- `try_for_each_concurrent` poll them: any of them makes the next call, and the first error ends
-- them all.
use tansa.Prelude.{List, [], ◌∷◌, Result, ok, err}
use tansa.Async.{Signature, Async, done, call}
use tansa.Async.Runs.{Trace, Run}
use tansa.Async.Shuffle.{Picks}

module _ {S : Signature} {A E : Type 0} where
  -- The tasks that are left have all returned a value.
  pub data AllDone : List (Async S (Result A E)) → Type 0 where
    none_left : AllDone []
    one_done : (a : A) {ms : List (Async S (Result A E))} → AllDone ms → AllDone (done (ok a) ∷ ms)

  pub data Fails (e : E) : List (Async S (Result A E)) → Type 0 where
    this : {ms : List (Async S (Result A E))} → Fails e (done (err e) ∷ ms)
    other :
        {m : Async S (Result A E)} {ms : List (Async S (Result A E))}
        → Fails e ms
        → Fails e (m ∷ ms)

  -- The runs of `try_join_all`: `r` is the first error, or nothing when there is none.
  pub data Joined : List (Async S (Result A E)) → Trace S → Result (Unit {0}) E → Type 0 where
    all_done : {ms : List (Async S (Result A E))} → AllDone ms → Joined ms [] (ok tt)
    one_failed : {ms : List (Async S (Result A E))} (e : E) → Fails e ms → Joined ms [] (err e)
    one_step :
        {ms ns : List (Async S (Result A E))} (c : S.Call) {k : S.Reply c → Async S (Result A E)}
        (r : S.Reply c) {t : Trace S} {result : Result (Unit {0}) E}
        → Picks ms (call c k) (k r) ns
        → Joined ns t result
        → Joined ms ((c, r) ∷ t) result

  -- A property of each future and its own trace.
  pub data Each (P : Async S (Result A E) → Trace S → Type 0)
      : List (Async S (Result A E)) → List (Trace S) → Type 0 where
    no_more : Each P [] []
    each :
        {m : Async S (Result A E)} {t : Trace S} {ms : List (Async S (Result A E))}
        {ts : List (Trace S)}
        → P m t
        → Each P ms ts
        → Each P (m ∷ ms) (t ∷ ts)

  abbrev pub Succeeds : Async S (Result A E) → Trace S → Type 0
  Succeeds m t = (a : A) × Run m t (ok a)

  -- `m` made the calls of `t` and was then dropped.
  pub data Partial : Async S (Result A E) → Trace S → Type 0 where
    dropped : {m : Async S (Result A E)} → Partial m []
    went_on :
        (c : S.Call) {k : S.Reply c → Async S (Result A E)} (r : S.Reply c) {t : Trace S}
        → Partial (k r) t
        → Partial (call c k) ((c, r) ∷ t)
