-- ===== src/Async/Execute.antt =====
-- Running a future against an environment that answers every call, and futures that do not fail as
-- long as the replies are good.
use tansa.Prelude.{◌≡◌, refl, subst, List, [], ◌∷◌, ◌++◌, Result, ok, err}
use tansa.Async.{Signature, Async, done, call}
use tansa.Async.Runs.{Trace, Run, returns, replied, split, done_inv}
use tansa.Async.Try.{◌>>=◌, propagate, with_error, with_error_err}
use tansa.Async.Shuffle.{Picks, here, there}
use tansa.Async.Concurrent.{Fails, this, other, Joined, one_failed, one_step}

-- An environment: the reply to a call, which may depend on all that happened before, the last call
-- first.
abbrev pub Answer : Signature → Type 0
Answer S = Trace S → (c : S.Call) → S.Reply c

module _ {S : Signature} {A : Type 0} (answer : Answer S) where
  -- The calls that a future makes, and its result.
  unfoldable pub execute : Trace S → Async S A → Trace S × A
  execute past (done a) = ([], a)
  execute past (call c k) =
      let reply = answer past c in
      let rest = execute ((c, reply) ∷ past) (k reply) in ((c, reply) ∷ rest.0, rest.1)

  -- It always ends, and what it gives is a run of the future.
  pub execute-Run : (past : Trace S) (m : Async S A) → Run m (execute past m).0 (execute past m).1
  unfolding execute
  execute-Run past (done a) = returns a
  execute-Run past (call c k) =
      let reply = answer past c in replied c reply (execute-Run ((c, reply) ∷ past) (k reply))

module _ {S : Signature} (Good : (c : S.Call) → S.Reply c → Type 0) where
  pub data AllGood : Trace S → Type 0 where
    no_event : AllGood []
    good_event :
        (c : S.Call) (r : S.Reply c) {t : Trace S} → Good c r → AllGood t → AllGood ((c, r) ∷ t)

  pub AllGood-append : (t u : Trace S) → AllGood (t ++ u) → AllGood t × AllGood u
  AllGood-append [] u g = (no_event, g)
  AllGood-append ((c, r) ∷ t) u (good_event _ _ x g) =
      let w = AllGood-append t u g in (good_event c r x w.0, w.1)

  pub execute-AllGood :
      {A : Type 0} (answer : Answer S)
      → ((past : Trace S) (c : S.Call) → Good c (answer past c))
      → (past : Trace S) (m : Async S A) → AllGood (execute answer past m).0
  unfolding execute
  execute-AllGood answer good past (done a) = no_event
  execute-AllGood answer good past (call c k) =
      let reply = answer past c in
      good_event c reply (good past c) (execute-AllGood answer good ((c, reply) ∷ past) (k reply))

  -- With good replies the future returns no error.
  abbrev pub IsRobust : {A E : Type 0} → Async S (Result A E) → Type 0
  IsRobust {E} m = (t : Trace S) (e : E) → AllGood t → ¬ Run m t (err e)

  module _ {A E : Type 0} where
    Tried-IsRobust :
        {B : Type 0} (m : Async S (Result A E)) (f : A → Async S (Result B E)) {t u : Trace S}
        {e : E} (r : Result A E)
        → IsRobust m
        → ((a : A) (t : Trace S) → Run m t (ok a) → AllGood t → IsRobust (f a))
        → AllGood t
        → AllGood u
        → Run m t r
        → ¬ Run (propagate f r) u (err e)
    Tried-IsRobust m f {t} {u} {e} (ok a) hm hf g h q s = hf a t q g u e h s
    Tried-IsRobust m f {t} (err e) hm hf g h q s = hm t e g q

    -- The rest may count on the first part to have run with good replies.
    pub then-IsRobust :
        {B : Type 0} (m : Async S (Result A E)) (f : A → Async S (Result B E))
        → IsRobust m
        → ((a : A) (t : Trace S) → Run m t (ok a) → AllGood t → IsRobust (f a))
        → IsRobust (m >>= f)
    then-IsRobust m f hm hf t e g q =
        let s = split m (propagate f) q in
        let gs = AllGood-append s.before s.after (subst AllGood s.whole g) in
        Tried-IsRobust m f s.value hm hf gs.0 gs.1 s.first s.rest

    pub bind-IsRobust :
        {B : Type 0} (m : Async S (Result A E)) (f : A → Async S (Result B E))
        → IsRobust m
        → ((a : A) → IsRobust (f a))
        → IsRobust (m >>= f)
    bind-IsRobust m f hm hf = then-IsRobust m f hm (λ a t q g. hf a)

    pub value-IsRobust : (a : A) → IsRobust {E = E} (done (ok a))
    value-IsRobust a t e g q = cc ((done_inv q).1)

    pub with_error-IsRobust :
        {F : Type 0} (into : E → F) (m : Async S (Result A E))
        → IsRobust m
        → IsRobust (with_error into m)
    with_error-IsRobust into m h t e g q = let w = with_error_err into m q in h t w.0 g w.2

    -- Futures that are joined.
    pub data AllRobust : List (Async S (Result A E)) → Type 0 where
      no_future : AllRobust []
      robust_future :
          {m : Async S (Result A E)} {ms : List (Async S (Result A E))}
          → IsRobust m
          → AllRobust ms
          → AllRobust (m ∷ ms)

    robust_now : {e : E} {ms : List (Async S (Result A E))} → AllRobust ms → ¬ Fails e ms
    robust_now no_future f = elim f [ ]
    robust_now {e} (robust_future h hs) this = h [] e no_event (returns (err e))
    robust_now (robust_future h hs) (other f) = robust_now hs f

    IsRobust-reply :
        (c : S.Call) (k : S.Reply c → Async S (Result A E)) (r : S.Reply c)
        → Good c r
        → IsRobust (call c k)
        → IsRobust (k r)
    IsRobust-reply c k r x h t e g q = h ((c, r) ∷ t) e (good_event c r x g) (replied c r q)

    AllRobust-step :
        {x y : Async S (Result A E)}
        → (IsRobust x → IsRobust y)
        → {ms ns : List (Async S (Result A E))} → Picks ms x y ns
        → AllRobust ms
        → AllRobust ns
    AllRobust-step step here (robust_future h hs) = robust_future (step h) hs
    AllRobust-step step (there p) (robust_future h hs) = robust_future h (AllRobust-step step p hs)

    pub Joined-robust :
        {ms : List (Async S (Result A E))} {t : Trace S} {e : E}
        → AllRobust ms
        → AllGood t
        → ¬ Joined ms t (err e)
    Joined-robust hs g (one_failed e f) = robust_now hs f
    Joined-robust hs (good_event _ _ x g) (one_step c {k} r p j) =
        Joined-robust (AllRobust-step (IsRobust-reply c k r x) p hs) g j

  pub no_error :
      {E : Type 0} {m : Async S (Result (Unit {0}) E)}
      → IsRobust m
      → {t : Trace S} (r : Result (Unit {0}) E) → AllGood t
      → Run m t r
      → r ≡ ok tt
  no_error robust (ok tt) g q = refl
  no_error robust {t} (err e) g q = absurd (robust t e g q)

  -- In an environment of good replies it ends, and with no error.
  pub execute-ok :
      {E : Type 0} (m : Async S (Result (Unit {0}) E))
      → IsRobust m
      → (answer : Answer S) → ((past : Trace S) (c : S.Call) → Good c (answer past c))
      → (past : Trace S)
      → ((execute answer past m).1 ≡ ok tt) × Run m (execute answer past m).0 (ok tt)
  execute-ok m robust answer good past =
      let q = execute-Run answer past m in
      let e = no_error robust (execute answer past m).1 (execute-AllGood answer good past m) q in
      (e, subst (Run m (execute answer past m).0) e q)
