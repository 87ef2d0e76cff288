-- ===== src/StreamJoin/Items.antt =====
-- What `join` of main/src/stream.rs shows.
use mathlib.Core.Option.{bind}
use mathlib.Core.List.{filter_map}
use tansa.Prelude.{
  ◌≡◌, refl, sym, ap, subst, ◌∙◌, Option, none, some, List, [], ◌∷◌, map, Result, ok, err,
  transpose, map_result, map_error,
}
use tansa.Async.{Signature, Async}
use tansa.Async.Runs.{Trace, Run, Mapped, mapped}
use tansa.Async.Stream.{Stream, Sight, items, calls, Flows}
use tansa.Async.Shuffle.{Merges, Merges-along}
use tansa.Async.Futures.{FuturesUtil, IsLawful}
use tansa.Async.Adaptors.{
  Sifted, filter_map-Sifted, map_ok-Sifted, map_err-Sifted, Sifted_trans, Sifted_ext,
  into_stream-Awaited, Merges-items, Merges-calls, Merges-filter_map,
}
use tansa.StreamJoin.{join}

-- What is left of a future's result: its error.
abbrev pub error_item : {RE SI FE FI : Type 0} → (FE → RE) → Result FI FE → List (Result SI RE)
error_item from_future (ok v) = []
error_item from_future (err e) = err (from_future e) ∷ []

module _ {S : Signature} (F : FuturesUtil S) (L : IsLawful F) {RE SI FE SE FI : Type 0}
    (from_future : FE → RE) (from_stream : SE → RE) (future : Async S (Result FI FE))
    (stream : Stream S (Result SI SE)) where
  -- The future ran to its end beside the stream. The items are those of the stream, their errors
  -- converted, interleaved with the future's error if it failed; the calls are those of both.
  pub record Beside (l : List (Sight S (Result SI RE))) : Type 0 where
    pub sights : List (Sight S (Result SI SE))
    pub flow : Flows stream sights
    pub trace : Trace S
    pub result : Result FI FE
    pub run : Run future trace result
    pub items_merged :
        Merges
          (map (map_error from_stream) (items sights))
          (error_item from_future result)
          (items l)
    pub calls_merged : Merges (calls sights) trace (calls l)

  wrapped :
      (r : Result SI SE)
      → bind (some (map_result (λ i. some i) r)) (λ x. some (map_error from_stream x))
        ≡ some (map_error from_stream (map_result (λ i. some i) r))
  unfolding bind
  wrapped r = refl

  stream_sights :
      (l : List (Sight S (Result (Option SI) RE)))
      → Flows (F.map_err from_stream (F.map_ok (λ i. some i) stream)) l
      → Sifted (λ r. some (map_error from_stream (map_result (λ i. some i) r))) stream l
  stream_sights l q = Sifted_ext _ _ wrapped (
      Sifted_trans _ _ (λ m. map_ok-Sifted F L (λ i. some i) stream m)
        (map_err-Sifted F L from_stream (F.map_ok (λ i. some i) stream) l q))

  abbrev as_item : Result FI FE → Result (Option SI) RE
  as_item r = map_error from_future (map_result {B = Option SI} (λ _. none) r)

  future_result :
      {t : Trace S} {x : Result (Option SI) RE}
      → Run (F.map_err_future from_future (F.map_ok_future {B = Option SI} (λ _. none) future)) t x
      → Mapped future as_item t x
  future_result {t} {x} q =
      let a =
        mapped (F.map_ok_future {B = Option SI} (λ _. none) future) (map_error from_future)
          (subst (λ m. Run m t x) (L.map_err_future_lem from_future _) q) in
      let b =
        mapped future (map_result {B = Option SI} (λ _. none))
          (subst (λ m. Run m t a.value) (L.map_ok_future_lem (λ _. none) future) a.inner) in
      record {
        value = b.value;
        inner = b.inner;
        mapped = a.mapped ∙ ap (map_error from_future) b.mapped;
      }

  -- What `transpose` leaves of the items of the stream and of the future.
  transpose_stream :
      (r : Result SI SE)
      → transpose (map_error from_stream (map_result (λ i. some i) r))
        ≡ some (map_error from_stream r)
  transpose_stream (ok i) = refl
  transpose_stream (err e) = refl

  transpose_future :
      (r : Result FI FE) → filter_map transpose (as_item r ∷ []) ≡ error_item from_future r
  unfolding filter_map
  transpose_future (ok v) = refl
  transpose_future (err e) = refl

  stream_items :
      (l : List (Result SI SE))
      → filter_map transpose
          (filter_map (λ r. some (map_error from_stream (map_result (λ i. some i) r))) l)
        ≡ map (map_error from_stream) l
  unfolding filter_map
  stream_items [] = refl
  stream_items (ok i ∷ l) = ap (λ m. ok i ∷ m) (stream_items l)
  stream_items (err e ∷ l) = ap (λ m. err (from_stream e) ∷ m) (stream_items l)

  -- Whatever `join` shows: the future ran to its end; the items are those of the stream, their
  -- errors converted, interleaved with the future's error if it failed; and the calls are those of
  -- the stream interleaved with those of the future.
  pub join-Beside :
      {l : List (Sight S (Result SI RE))}
      → Flows (join F from_future from_stream future stream) l
      → Beside l
  unfolding join
  join-Beside {l} q =
      let w = filter_map-Sifted F L transpose _ l q in
      let s = L.select_lem _ _ w.flow in
      let u = stream_sights s.of_first s.first in
      let a = into_stream-Awaited F L _ s.second in
      let f = future_result a.run in
      record {
        sights = u.sights;
        flow = u.flow;
        trace = calls s.of_second;
        result = f.value;
        run = f.inner;
        items_merged =
            Merges-along (ap (filter_map transpose) u.same_items ∙ stream_items (items u.sights))
              (ap (filter_map transpose) (a.one_item ∙ ap (λ x. x ∷ []) f.mapped)
                ∙ transpose_future f.value)
              (sym w.same_items) (Merges-filter_map transpose (Merges-items s.merged));
        calls_merged = Merges-along u.same_calls refl (sym w.same_calls) (Merges-calls s.merged);
      }
