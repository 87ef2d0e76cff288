-- ===== src/Async/Joining.antt =====
-- What the runs of futures that are polled side by side say of each future.
use tansa.Prelude.{List, [], ◌∷◌, Result, ok, err}
use tansa.Async.{Signature, Async, done, call}
use tansa.Async.Runs.{Event, Trace, Run, returns, replied}
use tansa.Async.Shuffle.{Picks, here, there, empty, also, Shuffle, over, take, Shuffle-empty}
use tansa.Async.Concurrent.{
  AllDone, none_left, one_done, Fails, this, other, Joined, all_done, one_failed, one_step, Each,
  no_more, each, Succeeds, Partial, dropped, went_on,
}

module _ {S : Signature} {A E : Type 0} where
  -- Putting a call in front of one future's trace.
  pub record Fronted (P : Async S (Result A E) → Trace S → Type 0)
      (ms : List (Async S (Result A E))) (e : Event S) (us : List (Trace S)) : Type 0 where
    pub traces : List (Trace S)
    pub trace : Trace S
    pub picked : Picks traces (e ∷ trace) trace us
    pub all : Each P ms traces

  front_other :
      (P : Async S (Result A E) → Trace S → Type 0) (m : Async S (Result A E)) (t : Trace S)
      {ms : List (Async S (Result A E))} {e : Event S} {us : List (Trace S)}
      → P m t
      → Fronted P ms e us
      → Fronted P (m ∷ ms) e (t ∷ us)
  front_other P m t p f = record {
    traces = t ∷ f.traces;
    trace = f.trace;
    picked = there f.picked;
    all = each p f.all;
  }

  pub front :
      (P : Async S (Result A E) → Trace S → Type 0) {x y : Async S (Result A E)} (e : Event S)
      (step : (u : Trace S) → P y u → P x (e ∷ u)) {ms ns : List (Async S (Result A E))}
      {us : List (Trace S)}
      → Picks ms x y ns
      → Each P ns us
      → Fronted P ms e us
  front P e step here (each {t = t} {ts = ts} p ps) = record {
    traces = (e ∷ t) ∷ ts;
    trace = t;
    picked = here;
    all = each (step t p) ps;
  }
  front P e step (there q) (each {m = m} {t = t} p ps) = front_other P m t p (front P e step q ps)

  pub Succeeds-call :
      (c : S.Call) (k : S.Reply c → Async S (Result A E)) (r : S.Reply c) (u : Trace S)
      → Succeeds (k r) u
      → Succeeds (call c k) ((c, r) ∷ u)
  Succeeds-call c k r u (a, q) = (a, replied c r q)

  -- Each future of a list ran on a trace of its own, and `t` interleaves these.
  pub record Together (P : Async S (Result A E) → Trace S → Type 0)
      (ms : List (Async S (Result A E))) (t : Trace S) : Type 0 where
    pub traces : List (Trace S)
    pub all : Each P ms traces
    pub shuffled : Shuffle traces t

  pub Together-step :
      (P : Async S (Result A E) → Trace S → Type 0) {x y : Async S (Result A E)} (e : Event S)
      (step : (u : Trace S) → P y u → P x (e ∷ u)) {ms ns : List (Async S (Result A E))}
      {t : Trace S}
      → Picks ms x y ns
      → Together P ns t
      → Together P ms (e ∷ t)
  Together-step P e step p w =
      let f = front P e step p w.all in
      record { traces = f.traces; all = f.all; shuffled = take f.picked w.shuffled }

  pub AllDone-Together : {ms : List (Async S (Result A E))} → AllDone ms → Together Succeeds ms []
  AllDone-Together none_left = record { traces = []; all = no_more; shuffled = over empty }
  AllDone-Together (one_done a d) = done_first a (AllDone-Together d)
    where
      done_first :
          {ms : List (Async S (Result A E))} (a : A)
          → Together Succeeds ms []
          → Together Succeeds (done (ok a) ∷ ms) []
      done_first a w = record {
        traces = [] ∷ w.traces;
        all = each (a, returns _) w.all;
        shuffled = over (also (Shuffle-empty w.shuffled));
      }

  pub idle : (ms : List (Async S (Result A E))) → Together Partial ms []
  idle [] = record { traces = []; all = no_more; shuffled = over empty }
  idle (m ∷ ms) = idle_first m (idle ms)
    where
      idle_first :
          (m : Async S (Result A E)) {ms : List (Async S (Result A E))}
          → Together Partial ms []
          → Together Partial (m ∷ ms) []
      idle_first m w = record {
        traces = [] ∷ w.traces;
        all = each dropped w.all;
        shuffled = over (also (Shuffle-empty w.shuffled));
      }

  -- Futures that are joined with no error all ran to their ends, interleaved.
  pub Joined-ok :
      {ms : List (Async S (Result A E))} {t : Trace S}
      → Joined ms t (ok tt)
      → Together Succeeds ms t
  Joined-ok (all_done d) = AllDone-Together d
  Joined-ok (one_step c {k} r p j) =
      Together-step Succeeds (c, r) (Succeeds-call c k r) p (Joined-ok j)

  -- However they end, each future made a part of its calls.
  pub Joined-Partial :
      {ms : List (Async S (Result A E))} {t : Trace S} {r : Result (Unit {0}) E}
      → Joined ms t r
      → Together Partial ms t
  Joined-Partial (all_done {ms = ms} d) = idle ms
  Joined-Partial (one_failed {ms = ms} e f) = idle ms
  Joined-Partial (one_step c {k} r p j) =
      Together-step Partial (c, r) (λ u q. went_on c r q) p (Joined-Partial j)

  -- Some future of the list has a run that ends in `e`.
  pub data AnyFails (e : E) : List (Async S (Result A E)) → Type 0 where
    first :
        {m : Async S (Result A E)} {t : Trace S} {ms : List (Async S (Result A E))}
        → Run m t (err e)
        → AnyFails e (m ∷ ms)
    later :
        {m : Async S (Result A E)} {ms : List (Async S (Result A E))}
        → AnyFails e ms
        → AnyFails e (m ∷ ms)

  widen :
      {e : E} {x : Async S (Result A E)} (ms : List (Async S (Result A E)))
      → AnyFails e (x ∷ [])
      → AnyFails e (x ∷ ms)
  widen ms (first q) = first q
  widen ms (later f) = elim f [ ]

  AnyFails-step :
      (e : E) {x y : Async S (Result A E)}
      (step : (t : Trace S) → Run y t (err e) → AnyFails e (x ∷ []))
      {ms ns : List (Async S (Result A E))}
      → Picks ms x y ns
      → AnyFails e ns
      → AnyFails e ms
  AnyFails-step e step {ms = _ ∷ ms} here (first {t = t} q) = widen ms (step t q)
  AnyFails-step e step here (later f) = later f
  AnyFails-step e step (there p) (first q) = first q
  AnyFails-step e step (there p) (later f) = later (AnyFails-step e step p f)

  Fails-AnyFails : {e : E} {ms : List (Async S (Result A E))} → Fails e ms → AnyFails e ms
  Fails-AnyFails this = first (returns _)
  Fails-AnyFails (other f) = later (Fails-AnyFails f)

  -- The error of a join is the error of one of the futures.
  pub Joined-err :
      {ms : List (Async S (Result A E))} {t : Trace S} {e : E} → Joined ms t (err e) → AnyFails e ms
  Joined-err (one_failed e f) = Fails-AnyFails f
  Joined-err {e} (one_step c r p j) =
      AnyFails-step e (λ t q. first (replied c r q)) p (Joined-err j)
