-- ===== src/Async/ForEach.antt =====
-- The runs of `try_for_each_concurrent` with no limit: the stream is polled and every item starts
-- a future, and all of these make progress side by side. The first error, of the stream or of a
-- future, ends the whole and drops what is left.
use mathlib.Core.List.{append-nil, append_assoc}
use tansa.Prelude.{◌≡◌, refl, ap, List, [], ◌∷◌, ◌++◌, map, Result, ok, err}
use tansa.Async.{Signature, Async, call}
use tansa.Async.Runs.{Trace, Run, returns, replied}
use tansa.Async.Stream.{
  Stream, finished, yields, awaits, Sight, called, item, items, calls, Flows, ends, gives, waited,
}
use tansa.Async.Shuffle.{Picks, here, there, Picks-append, Shuffle, over, take, Shuffle-empty, also}
use tansa.Async.Concurrent.{AllDone, Fails, this, other, Each, Succeeds, Partial, went_on}
use tansa.Async.Joining.{front, AllDone-Together, idle, Succeeds-call}

module _ {S : Signature} {A E : Type 0} (f : A → Async S (Result (Unit {0}) E)) where
  pub data ForEach
      : Stream S (Result A E)
        → List (Async S (Result (Unit {0}) E))
        → Trace S
        → Result (Unit {0}) E
        → Type 0 where
    all_served :
        {ms : List (Async S (Result (Unit {0}) E))} → AllDone ms → ForEach finished ms [] (ok tt)
    stream_failed :
        (e : E) {s : Stream S (Result A E)} {ms : List (Async S (Result (Unit {0}) E))}
        → ForEach (yields (err e) s) ms [] (err e)
    future_failed :
        (e : E) {s : Stream S (Result A E)} {ms : List (Async S (Result (Unit {0}) E))}
        → Fails e ms
        → ForEach s ms [] (err e)
    started :
        (a : A) {s : Stream S (Result A E)} {ms : List (Async S (Result (Unit {0}) E))}
        {t : Trace S} {r : Result (Unit {0}) E}
        → ForEach s (ms ++ f a ∷ []) t r
        → ForEach (yields (ok a) s) ms t r
    polled :
        (c : S.Call) {k : S.Reply c → Stream S (Result A E)} (reply : S.Reply c)
        {ms : List (Async S (Result (Unit {0}) E))} {t : Trace S} {r : Result (Unit {0}) E}
        → ForEach (k reply) ms t r
        → ForEach (awaits c k) ms ((c, reply) ∷ t) r
    worked :
        {s : Stream S (Result A E)} {ms ns : List (Async S (Result (Unit {0}) E))} (c : S.Call)
        {k : S.Reply c → Async S (Result (Unit {0}) E)} (reply : S.Reply c) {t : Trace S}
        {r : Result (Unit {0}) E}
        → Picks ms (call c k) (k reply) ns
        → ForEach s ns t r
        → ForEach s ms ((c, reply) ∷ t) r

-- The stream comes as far as the error `e`, and before it shows `l`.
pub data Breaks {S : Signature} {A E : Type 0} (e : E)
    : Stream S (Result A E) → List (Sight S (Result A E)) → Type 0 where
  breaks : {s : Stream S (Result A E)} → Breaks e (yields (err e) s) []
  gives_ok :
      (a : A) {s : Stream S (Result A E)} {l : List (Sight S (Result A E))}
      → Breaks e s l
      → Breaks e (yields (ok a) s) (item (ok a) ∷ l)
  waits :
      (c : S.Call) {k : S.Reply c → Stream S (Result A E)} (r : S.Reply c)
      {l : List (Sight S (Result A E))}
      → Breaks e (k r) l
      → Breaks e (awaits c k) (called (c, r) ∷ l)

-- The future returns no error, whatever the replies.
abbrev pub NeverFails : {S : Signature} {A E : Type 0} → Async S (Result A E) → Type 0
NeverFails {S} {E} m = (t : Trace S) (e : E) → ¬ Run m t (err e)

module _ {S : Signature} {A E : Type 0} (f : A → Async S (Result (Unit {0}) E)) where
  -- The loop served every item of the stream `s`, which showed `l`, to the end.
  pub record Served (s : Stream S (Result A E)) (ms : List (Async S (Result (Unit {0}) E)))
      (t : Trace S) : Type 0 where
    pub sights : List (Sight S (Result A E))
    pub flow : Flows s sights
    pub served : List A
    pub all_ok : items sights ≡ map ok served
    pub traces : List (Trace S)
    pub all : Each Succeeds (ms ++ map f served) traces
    pub shuffled : Shuffle (calls sights ∷ traces) t

  -- The stream failed with `e`; until then every item was being served.
  pub record Broken (e : E) (s : Stream S (Result A E)) (ms : List (Async S (Result (Unit {0}) E)))
      (t : Trace S) : Type 0 where
    pub sights : List (Sight S (Result A E))
    pub flow : Breaks e s sights
    pub served : List A
    pub all_ok : items sights ≡ map ok served
    pub traces : List (Trace S)
    pub all : Each Partial (ms ++ map f served) traces
    pub shuffled : Shuffle (calls sights ∷ traces) t

  pub ForEach-ok :
      {s : Stream S (Result A E)} {ms : List (Async S (Result (Unit {0}) E))} {t : Trace S}
      → ForEach f s ms t (ok tt)
      → Served s ms t
  ForEach-ok (all_served {ms = ms} d) =
      let w = AllDone-Together d in
      record {
        sights = [];
        flow = ends;
        served = [];
        all_ok = refl;
        traces = w.traces;
        all = rw append-nil w.all;
        shuffled = over (also (Shuffle-empty w.shuffled));
      }
  ForEach-ok (started a {ms = ms} q) =
      let w = ForEach-ok q in
      record {
        sights = item (ok a) ∷ w.sights;
        flow = gives (ok a) w.flow;
        served = a ∷ w.served;
        all_ok = ap (λ l. ok a ∷ l) w.all_ok;
        traces = w.traces;
        all = rw append_assoc at w.all;
        shuffled = w.shuffled;
      }
  ForEach-ok (polled c reply q) =
      let w = ForEach-ok q in
      record {
        sights = called (c, reply) ∷ w.sights;
        flow = waited c reply w.flow;
        served = w.served;
        all_ok = w.all_ok;
        traces = w.traces;
        all = w.all;
        shuffled = take here w.shuffled;
      }
  ForEach-ok (worked c {k} reply p q) =
      let w = ForEach-ok q in
      let x =
        front Succeeds (c, reply) (Succeeds-call c k reply) (Picks-append (map f w.served) p)
          w.all in
      record {
        sights = w.sights;
        flow = w.flow;
        served = w.served;
        all_ok = w.all_ok;
        traces = x.traces;
        all = x.all;
        shuffled = take (there x.picked) w.shuffled;
      }

data NoneFails {S : Signature} {A E : Type 0} : List (Async S (Result A E)) → Type 0 where
  none_fails : NoneFails []
  nor :
      {m : Async S (Result A E)} {ms : List (Async S (Result A E))}
      → NeverFails m
      → NoneFails ms
      → NoneFails (m ∷ ms)

module _ {S : Signature} {A E : Type 0} where
  NoneFails-Fails : {e : E} {ms : List (Async S (Result A E))} → NoneFails ms → Fails e ms → ⊥
  NoneFails-Fails none_fails g = elim g [ ]
  NoneFails-Fails {e} (nor n ns) this = n [] e (returns _)
  NoneFails-Fails (nor n ns) (other g) = NoneFails-Fails ns g

  NoneFails-Picks :
      {x y : Async S (Result A E)} (keep : NeverFails x → NeverFails y)
      {ms ns : List (Async S (Result A E))}
      → Picks ms x y ns
      → NoneFails ms
      → NoneFails ns
  NoneFails-Picks keep here (nor n rest) = nor (keep n) rest
  NoneFails-Picks keep (there p) (nor n rest) = nor n (NoneFails-Picks keep p rest)

  NoneFails-append :
      (ms : List (Async S (Result A E))) (m : Async S (Result A E))
      → NoneFails ms
      → NeverFails m
      → NoneFails (ms ++ m ∷ [])
  NoneFails-append [] m none_fails n = nor n none_fails
  NoneFails-append (x ∷ ms) m (nor k ks) n = nor k (NoneFails-append ms m ks n)

  NeverFails-call :
      (c : S.Call) (k : S.Reply c → Async S (Result A E)) (r : S.Reply c)
      → NeverFails (call c k)
      → NeverFails (k r)
  NeverFails-call c k r n t e q = n ((c, r) ∷ t) e (replied c r q)

module _ {S : Signature} {A E : Type 0} (f : A → Async S (Result (Unit {0}) E)) where
  ForEach-err_from :
      ((a : A) → NeverFails (f a))
      → {s : Stream S (Result A E)} {ms : List (Async S (Result (Unit {0}) E))} {t : Trace S}
        {e : E}
      → ForEach f s ms t (err e)
      → NoneFails ms
      → Broken f e s ms t
  ForEach-err_from safe (stream_failed e {ms = ms}) n =
      let w = idle ms in
      record {
        sights = [];
        flow = breaks;
        served = [];
        all_ok = refl;
        traces = w.traces;
        all = rw append-nil w.all;
        shuffled = over (also (Shuffle-empty w.shuffled));
      }
  ForEach-err_from safe (future_failed e g) n = absurd (NoneFails-Fails n g)
  ForEach-err_from safe (started a {ms = ms} q) n =
      let w = ForEach-err_from safe q (NoneFails-append ms (f a) n (safe a)) in
      record {
        sights = item (ok a) ∷ w.sights;
        flow = gives_ok a w.flow;
        served = a ∷ w.served;
        all_ok = ap (λ l. ok a ∷ l) w.all_ok;
        traces = w.traces;
        all = rw append_assoc at w.all;
        shuffled = w.shuffled;
      }
  ForEach-err_from safe (polled c reply q) n =
      let w = ForEach-err_from safe q n in
      record {
        sights = called (c, reply) ∷ w.sights;
        flow = waits c reply w.flow;
        served = w.served;
        all_ok = w.all_ok;
        traces = w.traces;
        all = w.all;
        shuffled = take here w.shuffled;
      }
  ForEach-err_from safe (worked c {k} reply p q) n =
      let w = ForEach-err_from safe q (NoneFails-Picks (NeverFails-call c k reply) p n) in
      let x =
        front Partial (c, reply) (λ u part. went_on c reply part) (Picks-append (map f w.served) p)
          w.all in
      record {
        sights = w.sights;
        flow = w.flow;
        served = w.served;
        all_ok = w.all_ok;
        traces = x.traces;
        all = x.all;
        shuffled = take (there x.picked) w.shuffled;
      }

  -- If no future fails, an error of the loop is one of the stream.
  pub ForEach-err :
      ((a : A) → NeverFails (f a))
      → {s : Stream S (Result A E)} {t : Trace S} {e : E} → ForEach f s [] t (err e)
      → Broken f e s [] t
  ForEach-err safe q = ForEach-err_from safe q none_fails
