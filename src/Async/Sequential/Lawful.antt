-- ===== src/Async/Sequential/Lawful.antt =====
-- Doing one thing after another is lawful.
use tansa.Prelude.{◌≡◌, refl, sym, subst, List, [], ◌∷◌, ◌++◌, Result, ok, err, map_result}
use tansa.Async.{Signature, Async, done, call, ◌>>=◌}
use tansa.Async.Try
use tansa.Async.Try.{tried, Tried, failed, passed}
use tansa.Async.Runs.{Trace, Run, returns, replied, mapped}
use tansa.Async.Stream.{
  Stream, finished, yields, awaits, Sight, called, item, Flows, ends, gives, waited,
}
use tansa.Async.Shuffle.{Picks, here, there, Merges, both_end, left, right}
use tansa.Async.Concurrent.{
  AllDone, none_left, one_done, Fails, this, other, Joined, all_done, one_failed, one_step, Partial,
  dropped, went_on,
}
use tansa.Async.ForEach.{ForEach, all_served, stream_failed, future_failed, started, polled, worked}
use tansa.Async.Futures.{IsLawful, BothRun, both_ok, left_err, right_err, Selected}
use tansa.Async.Sequential.{seq_join, seq_join_all, seq_select, seq_for_each, sequential}

module _ {A : Type 0} where
  all_left : (l : List A) → Merges l [] l
  all_left [] = both_end
  all_left (x ∷ l) = left (all_left l)

  all_right : (l : List A) → Merges [] l l
  all_right [] = both_end
  all_right (x ∷ l) = right (all_right l)

  left_then_right : (l m : List A) → Merges l m (l ++ m)
  left_then_right [] m = all_right m
  left_then_right (x ∷ l) m = left (left_then_right l m)

unit_result :
    {A E : Type 0} (a : A) (x : Result (List A) E)
    → map_result (λ _. tt) x ≡ map_result (λ _. tt) (map_result (λ l. a ∷ l) x)
unit_result a (ok l) = refl
unit_result a (err e) = refl

Picks-last : {B : Type 0} (l : List B) (x y : B) → Picks (l ++ x ∷ []) x y (l ++ y ∷ [])
Picks-last [] x y = here
Picks-last (z ∷ l) x y = there (Picks-last l x y)

module _ {S : Signature} where
  Run-Partial :
      {A E : Type 0} {m : Async S (Result A E)} {t : Trace S} {r : Result A E}
      → Run m t r
      → Partial m t
  Run-Partial (returns r) = dropped
  Run-Partial (replied c r q) = went_on c r (Run-Partial q)

  joined_second :
      {A B E : Type 0} (m : Async S (Result A E)) (n : Async S (Result B E)) (a : A)
      (t t₁ t₂ : Trace S) (x : Result B E) (r : Result (A × B) E)
      → t ≡ t₁ ++ t₂
      → Run m t₁ (ok a)
      → Run n t₂ x
      → r ≡ map_result (λ b. (a, b)) x
      → BothRun m n t r
  joined_second m n a t t₁ t₂ (ok b) r whole q s e =
      subst (BothRun m n t) (sym e)
        (both_ok q s (subst (Merges t₁ t₂) (sym whole) (left_then_right t₁ t₂)))
  joined_second m n a t t₁ t₂ (err x) r whole q s e =
      subst (BothRun m n t) (sym e)
        (right_err (Run-Partial q) s (subst (Merges t₁ t₂) (sym whole) (left_then_right t₁ t₂)))

  joined_first :
      {A B E : Type 0} (m : Async S (Result A E)) (n : Async S (Result B E)) {t : Trace S}
      {r : Result (A × B) E}
      → Tried m (λ a. n >>= λ x. done (map_result (λ b. (a, b)) x)) t r
      → BothRun m n t r
  joined_first m n {t} (failed e is q) =
      subst (BothRun m n t) (sym is) (left_err q dropped (all_left t))
  joined_first m n {t} {r} (passed a t₁ t₂ whole q s) =
      let w = mapped n (map_result (λ b. (a, b))) s in
      joined_second m n a t t₁ t₂ w.value r whole q w.inner w.mapped

  seq_join-BothRun :
      {A B E : Type 0} (m : Async S (Result A E)) (n : Async S (Result B E)) {t : Trace S}
      {r : Result (A × B) E}
      → Run (seq_join m n) t r
      → BothRun m n t r
  seq_join-BothRun m n q = joined_first m n (tried m _ q)

  Joined-done :
      {A E : Type 0} (a : A) {ms : List (Async S (Result A E))} {t : Trace S}
      {r : Result (Unit {0}) E}
      → Joined ms t r
      → Joined (done (ok a) ∷ ms) t r
  Joined-done a (all_done d) = all_done (one_done a d)
  Joined-done a (one_failed e f) = one_failed e (other f)
  Joined-done a (one_step c r p j) = one_step c r (there p) (Joined-done a j)

  -- The first future runs to its end, and then the others.
  first_then :
      {A E : Type 0} (m : Async S (Result A E)) (ms : List (Async S (Result A E))) {t : Trace S}
      {r : Result (List A) E}
      → ((u : Trace S) (x : Result (List A) E)
          → Run (seq_join_all ms) u x
          → Joined ms u (map_result (λ _. tt) x))
      → Run (Try.◌>>=◌ m (λ a. seq_join_all ms >>= λ x. done (map_result (λ l. a ∷ l) x))) t r
      → Joined (m ∷ ms) t (map_result (λ _. tt) r)
  first_then (done (ok a)) ms {t} {r} ih q =
      let w = mapped (seq_join_all ms) (map_result (λ l. a ∷ l)) q in
      subst (λ x. Joined (done (ok a) ∷ ms) t (map_result (λ _. tt) x)) (sym w.mapped)
        (subst (Joined (done (ok a) ∷ ms) t) (unit_result a w.value)
          (Joined-done a (ih t w.value w.inner)))
  first_then (done (err e)) ms ih (returns _) = one_failed e this
  first_then (call c k) ms ih (replied _ r q) = one_step c r here (first_then (k r) ms ih q)

  seq_join_all-Joined :
      {A E : Type 0} (ms : List (Async S (Result A E))) (t : Trace S) (r : Result (List A) E)
      → Run (seq_join_all ms) t r
      → Joined ms t (map_result (λ _. tt) r)
  seq_join_all-Joined [] t r (returns _) = all_done none_left
  seq_join_all-Joined (m ∷ ms) t r q = first_then m ms (λ u x p. seq_join_all-Joined ms u x p) q

  on_first :
      {A : Type 0} {s u : Stream S A} {l : List (Sight S A)} (a : A)
      → Selected s u l
      → Selected (yields a s) u (item a ∷ l)
  on_first a w = record {
    of_first = item a ∷ w.of_first;
    of_second = w.of_second;
    first = gives a w.first;
    second = w.second;
    merged = left w.merged;
  }

  on_call :
      {A : Type 0} (c : S.Call) (k : S.Reply c → Stream S A) (r : S.Reply c) {u : Stream S A}
      {l : List (Sight S A)}
      → Selected (k r) u l
      → Selected (awaits c k) u (called (c, r) ∷ l)
  on_call c k r w = record {
    of_first = called (c, r) ∷ w.of_first;
    of_second = w.of_second;
    first = waited c r w.first;
    second = w.second;
    merged = left w.merged;
  }

  seq_select-Selected :
      {A : Type 0} (s u : Stream S A) {l : List (Sight S A)}
      → Flows (seq_select s u) l
      → Selected s u l
  seq_select-Selected finished u {l} q = record {
    of_first = [];
    of_second = l;
    first = ends;
    second = q;
    merged = all_right l;
  }
  seq_select-Selected (yields a s) u (gives _ q) = on_first a (seq_select-Selected s u q)
  seq_select-Selected (awaits c k) u (waited _ r q) = on_call c k r (seq_select-Selected (k r) u q)

  AllDone-last :
      {A E : Type 0} {ms : List (Async S (Result A E))} (a : A)
      → AllDone ms
      → AllDone (ms ++ done (ok a) ∷ [])
  AllDone-last a none_left = one_done a none_left
  AllDone-last a (one_done b d) = one_done b (AllDone-last a d)

  Fails-last :
      {A E : Type 0} (ms : List (Async S (Result A E))) (e : E) → Fails e (ms ++ done (err e) ∷ [])
  Fails-last [] e = this
  Fails-last (m ∷ ms) e = other (Fails-last ms e)

  -- The last future runs to its end, and then the stream goes on.
  run_last :
      {A E : Type 0} (f : A → Async S (Result (Unit {0}) E)) (s : Stream S (Result A E))
      (m : Async S (Result (Unit {0}) E)) (ms : List (Async S (Result (Unit {0}) E))) {t : Trace S}
      {r : Result (Unit {0}) E}
      → AllDone ms
      → ((ns : List (Async S (Result (Unit {0}) E))) (u : Trace S)
          → AllDone ns
          → Run (seq_for_each f s) u r
          → ForEach f s ns u r)
      → Run (Try.◌>>=◌ m (λ _. seq_for_each f s)) t r
      → ForEach f s (ms ++ m ∷ []) t r
  run_last f s (done (ok a)) ms {t} d ih q = ih (ms ++ done (ok a) ∷ []) t (AllDone-last a d) q
  run_last f s (done (err e)) ms d ih (returns _) = future_failed e (Fails-last ms e)
  run_last f s (call c k) ms d ih (replied _ reply q) =
      worked c reply (Picks-last ms (call c k) (k reply)) (run_last f s (k reply) ms d ih q)

  seq_for_each-ForEach :
      {A E : Type 0} (f : A → Async S (Result (Unit {0}) E)) (s : Stream S (Result A E))
      (ms : List (Async S (Result (Unit {0}) E))) (t : Trace S) (r : Result (Unit {0}) E)
      → AllDone ms
      → Run (seq_for_each f s) t r
      → ForEach f s ms t r
  seq_for_each-ForEach f finished ms t r d (returns _) = all_served d
  seq_for_each-ForEach f (yields (ok a) s) ms t r d q =
      started a (run_last f s (f a) ms d (λ ns u e p. seq_for_each-ForEach f s ns u r e p) q)
  seq_for_each-ForEach f (yields (err e) s) ms t r d (returns _) = stream_failed e
  seq_for_each-ForEach f (awaits c k) ms t r d (replied _ reply q) =
      polled c reply (seq_for_each-ForEach f (k reply) ms _ r d q)

  pub sequential-IsLawful : IsLawful (sequential {S = S})
  sequential-IsLawful = record {
    map_future_lem = λ f m. refl;
    map_ok_future_lem = λ f m. refl;
    map_err_future_lem = λ f m. refl;
    or_else_lem = λ f m. refl;
    try_join_lem = λ m n q. seq_join-BothRun m n q;
    try_join_all_lem = λ ms q. seq_join_all-Joined ms _ _ q;
    into_stream_lem = λ m. refl;
    try_flatten_stream_lem = λ m. refl;
    once_lem = λ m. refl;
    iter_lem = λ l. refl;
    map_finished = λ f. refl;
    map_yields = λ f a s. refl;
    map_awaits = λ f c k. refl;
    map_ok_lem = λ f s. refl;
    map_err_lem = λ f s. refl;
    filter_finished = λ p. refl;
    filter_yields = λ p a s. refl;
    filter_awaits = λ p c k. refl;
    filter_map_finished = λ f. refl;
    filter_map_yields = λ f a s. refl;
    filter_map_awaits = λ f c k. refl;
    next_lem = λ s. refl;
    select_lem = λ s u q. seq_select-Selected s u q;
    try_for_each_finished = λ f. refl;
    try_for_each_ok = λ f a s. refl;
    try_for_each_err = λ f e s. refl;
    try_for_each_awaits = λ f c k. refl;
    try_for_each_concurrent_lem = λ f s q. seq_for_each-ForEach f s [] _ _ none_left q;
  }
