-- ===== src/Async/Stream.antt =====
-- `Stream`: values that arrive one after another, with calls in between. A stream without end is
-- seen through its finite parts.
use tansa.Prelude.{◌≡◌, refl, ap, List, [], ◌∷◌, ◌++◌, map}
use tansa.Async.{Signature, Async, done, call}
use tansa.Async.Runs.{Event, Trace}

pub data Stream (S : Signature) (A : Type 0) : Type 0 where
  finished : Stream S A
  yields : A → Stream S A → Stream S A
  awaits : (c : S.Call) → (S.Reply c → Stream S A) → Stream S A

-- A stream that first waits for a future.
abbrev pub wait_for : {S : Signature} {A B : Type 0} → Async S A → (A → Stream S B) → Stream S B
wait_for (done a) f = f a
wait_for (call c k) f = awaits c (λ r. wait_for (k r) f)

-- What is seen of a stream: its calls and its items, in order.
pub data Sight (S : Signature) (A : Type 0) : Type 0 where
  called : Event S → Sight S A
  item : A → Sight S A

pub data Flows {S : Signature} {A : Type 0} : Stream S A → List (Sight S A) → Type 0 where
  ends : Flows finished []
  gives :
      (a : A) {s : Stream S A} {l : List (Sight S A)} → Flows s l → Flows (yields a s) (item a ∷ l)
  waited :
      (c : S.Call) {k : S.Reply c → Stream S A} (r : S.Reply c) {l : List (Sight S A)}
      → Flows (k r) l
      → Flows (awaits c k) (called (c, r) ∷ l)

module _ {S : Signature} {A : Type 0} where
  abbrev pub items : List (Sight S A) → List A
  items [] = []
  items (called e ∷ l) = items l
  items (item a ∷ l) = a ∷ items l

  abbrev pub calls : List (Sight S A) → Trace S
  calls [] = []
  calls (called e ∷ l) = e ∷ calls l
  calls (item a ∷ l) = calls l

-- What is seen behind some calls.
module _ {S : Signature} {A : Type 0} where
  pub items_behind : (t : Trace S) (l : List (Sight S A)) → items (map called t ++ l) ≡ items l
  items_behind [] l = refl
  items_behind (e ∷ t) l = items_behind t l

  pub calls_behind : (t : Trace S) (l : List (Sight S A)) → calls (map called t ++ l) ≡ t ++ calls l
  calls_behind [] l = refl
  calls_behind (e ∷ t) l = ap (λ u. e ∷ u) (calls_behind t l)
