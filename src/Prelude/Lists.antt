-- ===== src/Prelude/Lists.antt =====
-- A property of every element of a list.
use mathlib.Core.Path.{subst, sym}
use mathlib.Core.List.{List, [], ◌∷◌, ◌++◌, map, Memᴰ}

module _ {ℓ κ} {A : Type ℓ} (P : A → Type κ) where
  abbrev pub All : List A → Type κ
  All [] = Unit
  All (a ∷ l) = P a × All l

  pub All-always : (l : List A) → ((a : A) → P a) → All l
  All-always [] h = tt
  All-always (a ∷ l) h = (h a, All-always l h)

  pub All-append : (l m : List A) → All l → All m → All (l ++ m)
  All-append [] m hl hm = hm
  All-append (a ∷ l) m hl hm = (hl.0, All-append l m hl.1 hm)

  -- The elements in front.
  pub All-front : (l m : List A) → All (l ++ m) → All l
  All-front [] m h = tt
  All-front (a ∷ l) m h = (h.0, All-front l m h.1)

  -- Those behind.
  pub All-back : (l m : List A) → All (l ++ m) → All m
  All-back [] m h = h
  All-back (a ∷ l) m h = All-back l m h.1

  pub All-lookup : {a : A} {l : List A} → Memᴰ a l → All l → P a
  All-lookup (Memᴰ.head e) h = subst P (sym e) h.0
  All-lookup (Memᴰ.tail m) h = All-lookup m h.1

module _ {ℓ κ μ} {A : Type ℓ} (P : A → Type κ) (Q : A → Type μ) where
  pub All-weaken : (l : List A) → ((a : A) → P a → Q a) → All P l → All Q l
  All-weaken [] f h = tt
  All-weaken (a ∷ l) f h = (f a h.0, All-weaken l f h.1)

  pub All-both : (l : List A) → All P l → All Q l → All (λ a. P a × Q a) l
  All-both [] h k = tt
  All-both (a ∷ l) h k = ((h.0, k.0), All-both l h.1 k.1)

module _ {ℓ κ μ} {A : Type ℓ} {B : Type μ} (P : B → Type κ) (f : A → B) where
  pub All-map : (l : List A) → All (λ a. P (f a)) l → All P (map f l)
  All-map [] h = tt
  All-map (a ∷ l) h = (h.0, All-map l h.1)
