-- ===== src/StreamJoin/Working.antt =====
-- `join` of main/src/stream.rs on a system that works.
use mathlib.Core.List.{Mem, mem-map, not-mem-nil}
use mathlib.Core.Logic.{∥∥₁_elim}
use mathlib.Core.Logic.Or
use mathlib.Core.HLevel.{⊥_prop}
use tansa.Prelude.{◌≡◌, subst, List, map, Result, ok, err, map_error}
use tansa.Async.{Async}
use tansa.Async.Stream.{Stream, items}
use tansa.Async.Shuffle.{Merges, mem_merged}
use tansa.Async.Futures.{FuturesUtil, IsLawful}
use tansa.Async.Execute.{IsRobust, no_error}
use tansa.StreamJoin.{join}
use tansa.StreamJoin.Items.{error_item, join-Beside}
use tansa.Os.{os}
use tansa.Os.Reliable.{NoErrors, ShowsNoErrors, AllGood-Merges}
use tansa.Os.Works.{Outputs, Works}

module _ (W : Outputs) (F : FuturesUtil os) (L : IsLawful F) {A RE FE SE : Type 0}
    (from_future : FE → RE) (from_stream : SE → RE) where
  converted :
      (r : Result A SE) (l : List (Result A SE)) (e : RE)
      → NoErrors l
      → map_error from_stream r ≡ err e
      → ¬ Mem r l
  converted (ok a) l e clean p m = cc
  converted (err x) l e clean p m = clean x m

  converted-NoErrors :
      (l : List (Result A SE)) → NoErrors l → NoErrors (map (map_error from_stream) l)
  converted-NoErrors l clean e m =
      ∥∥₁_elim (mem-map.0 m) ⊥_prop (λ w. converted w.0 l e clean w.2 w.1)

  beside-NoErrors :
      {found shown : List (Result A RE)} {r : Result (Unit {0}) FE}
      → r ≡ ok tt
      → NoErrors found
      → Merges found (error_item from_future r) shown
      → NoErrors shown
  beside-NoErrors {found} {shown} is clean s e m =
      Or.elim ⊥_prop
        ((mem_merged (subst (λ r. Merges found (error_item from_future r) shown) is s)).0 m)
        (clean e) not-mem-nil

  -- If neither the future nor the stream makes an error, their join makes none.
  pub join-ShowsNoErrors :
      (future : Async os (Result (Unit {0}) FE)) (stream : Stream os (Result A SE))
      → IsRobust (Works W) future
      → ShowsNoErrors W stream
      → ShowsNoErrors W (join F from_future from_stream future stream)
  join-ShowsNoErrors future stream robust shows l q good =
      let b = join-Beside F L from_future from_stream future stream q in
      let g = AllGood-Merges b.calls_merged good in
      beside-NoErrors (no_error (Works W) robust b.result g.1 b.run)
        (converted-NoErrors (items b.sights) (shows b.sights b.flow g.0)) b.items_merged
