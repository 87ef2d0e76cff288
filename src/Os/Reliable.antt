-- ===== src/Os/Reliable.antt =====
-- Streams that give no error on a system that works.
use mathlib.Core.List.{Mem, mem-cons, mem-cons_of_mem}
use mathlib.Core.Logic.Or
use tansa.Prelude.{refl, List, [], ◌∷◌, Result, ok, err}
use tansa.Async.Runs.{Trace}
use tansa.Async.Shuffle.{Merges, both_end, left, right}
use tansa.Async.Stream.{
  Stream, finished, yields, awaits, Sight, called, item, items, calls, Flows, ends, gives, waited,
}
use tansa.Async.ForEach.{Breaks, breaks, gives_ok, waits}
use tansa.Async.Execute.{AllGood, no_event, good_event}
use tansa.Os.{os, OsCall, OsReply}
use tansa.Os.Works.{Outputs, Works}

pub AllGood-Merges :
    {Good : (c : OsCall) → OsReply c → Type 0} {l m t : Trace os}
    → Merges l m t
    → AllGood Good t
    → AllGood Good l × AllGood Good m
AllGood-Merges both_end g = (no_event, no_event)
AllGood-Merges (left s) (good_event c r x g) =
    let w = AllGood-Merges s g in (good_event c r x w.0, w.1)
AllGood-Merges (right s) (good_event c r x g) =
    let w = AllGood-Merges s g in (w.0, good_event c r x w.1)

abbrev pub NoErrors : {A E : Type 0} → List (Result A E) → Type 0
NoErrors {A} {E} l = (e : E) → ¬ Mem (err e) l

module _ (W : Outputs) where
  -- With the replies of a system that works the stream shows no error.
  abbrev pub ShowsNoErrors : {A E : Type 0} → Stream os (Result A E) → Type 0
  ShowsNoErrors {A} {E} s =
      (l : List (Sight os (Result A E)))
      → Flows s l
      → AllGood (Works W) (calls l)
      → NoErrors (items l)

  -- With such replies it does not break.
  abbrev pub IsReliable : {A E : Type 0} → Stream os (Result A E) → Type 0
  IsReliable {A} {E} s =
      (e : E) (l : List (Sight os (Result A E))) → AllGood (Works W) (calls l) → ¬ Breaks e s l

  -- With one good reply to each call, a stream can be seen to its end.
  module _ (reply : (c : OsCall) → (r : OsReply c) × Works W c r) where
    completed :
        {A : Type 0} (s : Stream os A)
        → (l : List (Sight os A)) × Flows s l × AllGood (Works W) (calls l)
    completed finished = ([], ends, no_event)
    completed (yields a s) = let w = completed s in (item a ∷ w.0, gives a w.1, w.2)
    completed (awaits c k) =
        let r = reply c in
        let w = completed (k r.0) in
        (called (c, r.0) ∷ w.0, waited c r.0 w.1, good_event c r.0 r.1 w.2)

    broken_on :
        {A E : Type 0} {e : E} {s : Stream os (Result A E)} {l : List (Sight os (Result A E))}
        → Breaks e s l
        → AllGood (Works W) (calls l)
        → (m : List (Sight os (Result A E))) × Flows s m
          × AllGood (Works W) (calls m)
          × Mem (err e) (items m)
    broken_on {e = e} (breaks {s}) g =
        let w = completed s in (item (err e) ∷ w.0, gives _ w.1, w.2, mem-cons.1 (Or.inl refl))
    broken_on (gives_ok a b) g =
        let w = broken_on b g in (item (ok a) ∷ w.0, gives _ w.1, w.2, mem-cons_of_mem (ok a) w.3)
    broken_on (waits c r b) (good_event _ _ x g) =
        let w = broken_on b g in (called (c, r) ∷ w.0, waited c r w.1, good_event c r x w.2, w.3)

    pub ShowsNoErrors-IsReliable :
        {A E : Type 0} (s : Stream os (Result A E)) → ShowsNoErrors s → IsReliable s
    ShowsNoErrors-IsReliable s h e l g b = let w = broken_on b g in h w.0 w.1 w.2 e w.3
