-- ===== src/Async/Adaptors.antt =====
-- What the adaptors of `futures-util` do to what a stream shows.
use mathlib.Core.List.{
  filter_map, filter_map-cons-none, filter_map-cons-some, filter_map-filter_map,
}
use mathlib.Core.Option.{bind, Option-elim}
use tansa.Prelude.{
  ◌≡◌, refl, sym, ap, subst, Option, none, some, List, [], ◌∷◌, ◌∙◌, Result, map_result, map_error,
}
use tansa.Async.{Signature, Async, done, call}
use tansa.Async.Runs.{Run, returns, replied}
use tansa.Async.Shuffle.{Merges, both_end, left, right}
use mathlib.Core.Path.{fun_ext}
use tansa.Async.Stream.{
  Stream, finished, yields, awaits, wait_for, Sight, called, item, items, calls, Flows, ends, gives,
  waited,
}
use tansa.Async.Futures.{FuturesUtil, IsLawful, emit_some}

module _ {S : Signature} {A B : Type 0} where
  -- `l` is what `s` shows, with the items put through `f` and the calls left alone.
  pub record Sifted (f : A → Option B) (s : Stream S A) (l : List (Sight S B)) : Type 0 where
    pub sights : List (Sight S A)
    pub flow : Flows s sights
    pub same_items : items l ≡ filter_map f (items sights)
    pub same_calls : calls l ≡ calls sights

  sifted_end : (f : A → Option B) {l : List (Sight S B)} → Flows finished l → Sifted f finished l
  unfolding filter_map
  sifted_end f ends = record { sights = []; flow = ends; same_items = refl; same_calls = refl }

  dropped :
      (f : A → Option B) (a : A) {s : Stream S A} {l : List (Sight S B)}
      → f a ≡ none
      → Sifted f s l
      → Sifted f (yields a s) l
  dropped f a e w = record {
    sights = item a ∷ w.sights;
    flow = gives a w.flow;
    same_items = w.same_items ∙ sym (filter_map-cons-none f a (items w.sights) e);
    same_calls = w.same_calls;
  }

  passed_on :
      (f : A → Option B) (a : A) (b : B) {s : Stream S A} {l : List (Sight S B)}
      → f a ≡ some b
      → Sifted f s l
      → Sifted f (yields a s) (item b ∷ l)
  passed_on f a b e w = record {
    sights = item a ∷ w.sights;
    flow = gives a w.flow;
    same_items = ap (λ m. b ∷ m) w.same_items ∙ sym (filter_map-cons-some f a (items w.sights) e);
    same_calls = w.same_calls;
  }

  sifted_item :
      (f : A → Option B) (a : A) (s : Stream S A) (u : Stream S B) (o : Option B)
      {l : List (Sight S B)}
      → f a ≡ o
      → ((m : List (Sight S B)) → Flows u m → Sifted f s m)
      → Flows (emit_some u o) l
      → Sifted f (yields a s) l
  sifted_item f a s u none e ih q = dropped f a e (ih _ q)
  sifted_item f a s u (some b) e ih (gives _ q) = passed_on f a b e (ih _ q)

  sifted_call :
      (f : A → Option B) (c : S.Call) (k : S.Reply c → Stream S A) (u : S.Reply c → Stream S B)
      {l : List (Sight S B)}
      → ((r : S.Reply c) (m : List (Sight S B)) → Flows (u r) m → Sifted f (k r) m)
      → Flows (awaits c u) l
      → Sifted f (awaits c k) l
  sifted_call f c k u ih (waited _ r {l = m} q) =
      let w = ih r m q in
      record {
        sights = called (c, r) ∷ w.sights;
        flow = waited c r w.flow;
        same_items = w.same_items;
        same_calls = ap (λ m. (c, r) ∷ m) w.same_calls;
      }

module _ {S : Signature} (F : FuturesUtil S) (L : IsLawful F) where
  pub filter_map-Sifted :
      {A B : Type 0} (f : A → Option B) (s : Stream S A) (l : List (Sight S B))
      → Flows (F.filter_map (λ a. done (f a)) s) l
      → Sifted f s l
  filter_map-Sifted f finished l q =
      sifted_end f (subst (λ u. Flows u l) (L.filter_map_finished _) q)
  filter_map-Sifted f (yields a s) l q =
      sifted_item f a s _ (f a) refl (λ m. filter_map-Sifted f s m)
        (subst (λ u. Flows u l) (L.filter_map_yields _ a s) q)
  filter_map-Sifted f (awaits c k) l q =
      sifted_call f c k _ (λ r m. filter_map-Sifted f (k r) m)
        (subst (λ u. Flows u l) (L.filter_map_awaits _ c k) q)

  pub map-Sifted :
      {A B : Type 0} (f : A → B) (s : Stream S A) (l : List (Sight S B))
      → Flows (F.map f s) l
      → Sifted (λ a. some (f a)) s l
  map-Sifted f finished l q =
      sifted_end (λ a. some (f a)) (subst (λ u. Flows u l) (L.map_finished _) q)
  map-Sifted f (yields a s) l q =
      sifted_item (λ a. some (f a)) a s _ (some (f a)) refl (λ m. map-Sifted f s m)
        (subst (λ u. Flows u l) (L.map_yields _ a s) q)
  map-Sifted f (awaits c k) l q =
      sifted_call (λ a. some (f a)) c k _ (λ r m. map-Sifted f (k r) m)
        (subst (λ u. Flows u l) (L.map_awaits _ c k) q)

  pub map_ok-Sifted :
      {A B E : Type 0} (f : A → B) (s : Stream S (Result A E)) (l : List (Sight S (Result B E)))
      → Flows (F.map_ok f s) l
      → Sifted (λ r. some (map_result f r)) s l
  map_ok-Sifted f s l q =
      map-Sifted (map_result f) s l (subst (λ u. Flows u l) (L.map_ok_lem f s) q)

  pub map_err-Sifted :
      {A E G : Type 0} (f : E → G) (s : Stream S (Result A E)) (l : List (Sight S (Result A G)))
      → Flows (F.map_err f s) l
      → Sifted (λ r. some (map_error f r)) s l
  map_err-Sifted f s l q =
      map-Sifted (map_error f) s l (subst (λ u. Flows u l) (L.map_err_lem f s) q)

-- Two siftings, one after the other.
pub Sifted_trans :
    {S : Signature} {A B C : Type 0} (f : A → Option B) (g : B → Option C) {s : Stream S A}
    {u : Stream S B} {l : List (Sight S C)}
    → ((m : List (Sight S B)) → Flows u m → Sifted f s m)
    → Sifted g u l
    → Sifted (λ a. bind (f a) g) s l
Sifted_trans f g inner w =
    let v = inner w.sights w.flow in
    record {
      sights = v.sights;
      flow = v.flow;
      same_items =
          w.same_items
          ∙ ap (filter_map g) v.same_items
          ∙ filter_map-filter_map f g (items v.sights);
      same_calls = w.same_calls ∙ v.same_calls;
    }

pub Sifted_ext :
    {S : Signature} {A B : Type 0} (f g : A → Option B) {s : Stream S A} {l : List (Sight S B)}
    → ((a : A) → f a ≡ g a)
    → Sifted f s l
    → Sifted g s l
Sifted_ext f g {s} {l} e w = subst (λ h. Sifted h s l) (fun_ext e) w

-- A future as a stream shows its calls and then its value.
pub record Awaited {S : Signature} {A : Type 0} (m : Async S A) (l : List (Sight S A))
    : Type 0 where
  pub value : A
  pub run : Run m (calls l) value
  pub one_item : items l ≡ value ∷ []

module _ {S : Signature} where
  single :
      {A : Type 0} (a : A) {l : List (Sight S A)} → Flows (yields a finished) l → Awaited (done a) l
  single a (gives _ ends) = record { value = a; run = returns a; one_item = refl }

  awaited :
      {A : Type 0} (m : Async S A) {l : List (Sight S A)}
      → Flows (wait_for m (λ a. yields a finished)) l
      → Awaited m l
  awaited (done a) q = single a q
  awaited (call c k) (waited _ r q) =
      let w = awaited (k r) q in
      record { value = w.value; run = replied c r w.run; one_item = w.one_item }

  pub into_stream-Awaited :
      (F : FuturesUtil S) (L : IsLawful F) {A : Type 0} (m : Async S A) {l : List (Sight S A)}
      → Flows (F.into_stream m) l
      → Awaited m l
  into_stream-Awaited F L m {l} q = awaited m (subst (λ u. Flows u l) (L.into_stream_lem m) q)

  pub once-Awaited :
      (F : FuturesUtil S) (L : IsLawful F) {A : Type 0} (m : Async S A) {l : List (Sight S A)}
      → Flows (F.once m) l
      → Awaited m l
  once-Awaited F L m {l} q = awaited m (subst (λ u. Flows u l) (L.once_lem m) q)

-- Interleaved sights have interleaved items and interleaved calls.
pub Merges-items :
    {S : Signature} {A : Type 0} {l m t : List (Sight S A)}
    → Merges l m t
    → Merges (items l) (items m) (items t)
Merges-items both_end = both_end
Merges-items (left {x = called e} q) = Merges-items q
Merges-items (left {x = item a} q) = left (Merges-items q)
Merges-items (right {x = called e} q) = Merges-items q
Merges-items (right {x = item a} q) = right (Merges-items q)

pub Merges-calls :
    {S : Signature} {A : Type 0} {l m t : List (Sight S A)}
    → Merges l m t
    → Merges (calls l) (calls m) (calls t)
Merges-calls both_end = both_end
Merges-calls (left {x = called e} q) = left (Merges-calls q)
Merges-calls (left {x = item a} q) = Merges-calls q
Merges-calls (right {x = called e} q) = right (Merges-calls q)
Merges-calls (right {x = item a} q) = Merges-calls q

left_some :
    {B : Type 0} (o : Option B) {l m t : List B}
    → Merges l m t
    → Merges (Option-elim o l (λ b. b ∷ l)) m (Option-elim o t (λ b. b ∷ t))
unfolding Option-elim
left_some none q = q
left_some (some b) q = left q

right_some :
    {B : Type 0} (o : Option B) {l m t : List B}
    → Merges l m t
    → Merges l (Option-elim o m (λ b. b ∷ m)) (Option-elim o t (λ b. b ∷ t))
unfolding Option-elim
right_some none q = q
right_some (some b) q = right q

pub Merges-filter_map :
    {A B : Type 0} (f : A → Option B) {l m t : List A}
    → Merges l m t
    → Merges (filter_map f l) (filter_map f m) (filter_map f t)
unfolding filter_map
Merges-filter_map f both_end = both_end
Merges-filter_map f (left {x = x} q) = left_some (f x) (Merges-filter_map f q)
Merges-filter_map f (right {x = x} q) = right_some (f x) (Merges-filter_map f q)
