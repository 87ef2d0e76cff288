-- ===== src/Async/Shuffle.antt =====
-- Interleavings of lists, and picking one element of a list.
use mathlib.Core.List.{Perm, perm_middle, Mem, mem-append}
use mathlib.Core.List.Perm
use mathlib.Core.Logic.{◌∨₁◌}
use mathlib.Core.Path.{subst₃}
use tansa.Prelude.{◌↔◌, ◌≡◌, List, [], ◌∷◌, ◌++◌}

-- The second list is the first with one occurrence of `x` replaced by `y`.
pub data Picks {A : Type 0} : List A → A → A → List A → Type 0 where
  here : {x y : A} {l : List A} → Picks (x ∷ l) x y (y ∷ l)
  there : {x y z : A} {l m : List A} → Picks l x y m → Picks (z ∷ l) x y (z ∷ m)

pub Picks-append :
    {A : Type 0} {x y : A} {l m : List A} (r : List A) → Picks l x y m → Picks (l ++ r) x y (m ++ r)
Picks-append r here = here
Picks-append r (there p) = there (Picks-append r p)

-- Every list of `ls` is empty.
pub data AllEmpty {A : Type 0} : List (List A) → Type 0 where
  empty : AllEmpty []
  also : {ls : List (List A)} → AllEmpty ls → AllEmpty ([] ∷ ls)

-- `t` takes the elements of all the lists, each list's in its order.
pub data Shuffle {A : Type 0} : List (List A) → List A → Type 0 where
  over : {ls : List (List A)} → AllEmpty ls → Shuffle ls []
  take :
      {x : A} {l t : List A} {ls ms : List (List A)}
      → Picks ls (x ∷ l) l ms
      → Shuffle ms t
      → Shuffle ls (x ∷ t)

pub Shuffle-empty : {A : Type 0} {ls : List (List A)} → Shuffle ls [] → AllEmpty ls
Shuffle-empty (over e) = e

-- `t` takes the elements of two lists, each list's in its order.
pub data Merges {A : Type 0} : List A → List A → List A → Type 0 where
  both_end : Merges [] [] []
  left : {x : A} {l m t : List A} → Merges l m t → Merges (x ∷ l) m (x ∷ t)
  right : {x : A} {l m t : List A} → Merges l m t → Merges l (x ∷ m) (x ∷ t)

pub Merges-along :
    {A : Type 0} {l l' m m' t t' : List A}
    → l ≡ l'
    → m ≡ m'
    → t ≡ t'
    → Merges l m t
    → Merges l' m' t'
Merges-along p q r s = subst₃ (λ x y z. Merges x y z) p q r s

Merges-perm : {A : Type 0} {l m t : List A} → Merges l m t → Perm t (l ++ m)
Merges-perm both_end = Perm.refl []
Merges-perm (left s) = Perm.cons _ (Merges-perm s)
Merges-perm {l} (right {m = m} s) =
    Perm.trans (Perm.cons _ (Merges-perm s)) (Perm.symm (perm_middle l m))

-- The elements of an interleaving are those of the two lists.
pub mem_merged :
    {A : Type 0} {x : A} {l m t : List A} → Merges l m t → Mem x t ↔ (Mem x l ∨₁ Mem x m)
mem_merged s = (
  λ h. mem-append.0 ((Perm.mem_iff (Merges-perm s)).0 h),
  λ h. (Perm.mem_iff (Merges-perm s)).1 (mem-append.1 h),
)
