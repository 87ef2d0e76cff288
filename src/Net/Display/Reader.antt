-- ===== src/Net/Display/Reader.antt =====
-- A reader of printed addresses, as a reference for the printer.
use tansa.Prelude.{
  ℕ, ◌<◌, ◌+◌, ◌-◌, ◌*◌, ◌≡◌, refl, sym, ap, subst, ◌∙◌, List, [], ◌∷◌, ◌++◌, map, All, inl, inr,
  arith,
}
use mathlib.Core.List.{append-nil, append_assoc}
use tansa.Net.Texts.{Lacks, split_at, split_at-append, split_at-Lacks}
use tansa.Net.Display.{Text, hex, read_digits, read-hex, print_tail, print_segments, chars}
use tansa.Net.Display.Digits.{hex-Lacks, hex-Cons, Cons}
use tansa.Net.Display.Zeros.{zeros, length}

-- Four numbers between dots are two segments, and any other group is one.
abbrev pub group_of : List Text → Text → List ℕ
group_of (a ∷ b ∷ c ∷ d ∷ []) g =
    (read_digits 10 0 a * 256 + read_digits 10 0 b)
    ∷ (read_digits 10 0 c * 256 + read_digits 10 0 d)
    ∷ []
group_of parts g = read_digits 16 0 g ∷ []

unfoldable pub read_group : Text → List ℕ
unfolding split_at read_digits
read_group g = group_of (split_at b'.' g) g

-- The groups, but for the empty ones.
unfoldable pub values : List Text → List ℕ
values [] = []
values ([] ∷ gs) = values gs
values ((c ∷ g) ∷ gs) = read_group (c ∷ g) ++ values gs

-- Those in front of the first empty one, and those behind it.
unfoldable pub front : List Text → List ℕ
front [] = []
front ([] ∷ gs) = []
front ((c ∷ g) ∷ gs) = read_group (c ∷ g) ++ front gs

unfoldable pub back : List Text → List ℕ
unfolding values
back [] = []
back ([] ∷ gs) = values gs
back ((c ∷ g) ∷ gs) = back gs

-- Eight segments, with zeros for those that are left out.
abbrev pub filled : List ℕ → List ℕ → List ℕ
filled f b = f ++ (zeros (8 - (length f + length b)) ++ b)

unfoldable pub read_ip : Text → List ℕ
unfolding split_at front back
read_ip t = let gs = split_at b':' t in filled (front gs) (back gs)

abbrev IsSegment : ℕ → Type 0
IsSegment s = s < 65536

read_group-hex : (s : ℕ) → IsSegment s → read_group (hex s) ≡ s ∷ []
unfolding read_group
read_group-hex s h =
    ap (λ p. group_of p (hex s))
      (split_at-Lacks b'.' (hex s)
        (hex-Lacks b'.' s (record { low = omega arith; outside = inl (omega arith) })))
    ∙ ap (λ n. n ∷ []) (read-hex s h)

abbrev pub texts : List ℕ → List Text
texts l = map hex l

-- A group that is not empty.
module _ (g : Text) (c : Cons g) (gs : List Text) where
  pub values-group : values (g ∷ gs) ≡ read_group g ++ values gs
  unfolding values
  values-group = subst (λ g. values (g ∷ gs) ≡ read_group g ++ values gs) (sym c.whole) refl

  front-group : front (g ∷ gs) ≡ read_group g ++ front gs
  unfolding front
  front-group = subst (λ g. front (g ∷ gs) ≡ read_group g ++ front gs) (sym c.whole) refl

  back-group : back (g ∷ gs) ≡ back gs
  unfolding back
  back-group = subst (λ g. back (g ∷ gs) ≡ back gs) (sym c.whole) refl

values-texts : (l : List ℕ) → All IsSegment l → values (texts l) ≡ l
unfolding values
values-texts [] h = refl
values-texts (s ∷ l) h =
    values-group (hex s) (hex-Cons s) (texts l)
    ∙ ap (λ m. m ++ values (texts l)) (read_group-hex s h.0)
    ∙ ap (λ m. s ∷ m) (values-texts l h.1)

front-texts :
    (l : List ℕ) (gs : List Text) → All IsSegment l → front (texts l ++ gs) ≡ l ++ front gs
front-texts [] gs h = refl
front-texts (s ∷ l) gs h =
    front-group (hex s) (hex-Cons s) (texts l ++ gs)
    ∙ ap (λ m. m ++ front (texts l ++ gs)) (read_group-hex s h.0)
    ∙ ap (λ m. s ∷ m) (front-texts l gs h.1)

back-texts : (l : List ℕ) (gs : List Text) → back (texts l ++ gs) ≡ back gs
back-texts [] gs = refl
back-texts (s ∷ l) gs = back-group (hex s) (hex-Cons s) (texts l ++ gs) ∙ back-texts l gs

-- Where the texts are split.
colon : (s : ℕ) → Lacks b':' (hex s)
colon s = hex-Lacks b':' s (record { low = omega arith; outside = inr (omega arith) })

split_at-tail : (s : ℕ) (l : List ℕ) → split_at b':' (hex s ++ print_tail l) ≡ texts (s ∷ l)
split_at-tail s [] = ap (split_at b':') (append-nil (hex s)) ∙ split_at-Lacks b':' (hex s) (colon s)
split_at-tail s (x ∷ l) =
    split_at-append b':' (hex s) (hex x ++ print_tail l) (colon s)
    ∙ ap (λ gs. hex s ∷ gs) (split_at-tail x l)

split_at-front :
    (s : ℕ) (l : List ℕ) (u : Text)
    → split_at b':' ((hex s ++ print_tail l) ++ b':' ∷ u) ≡ texts (s ∷ l) ++ split_at b':' u
split_at-front s [] u =
    ap (λ t. split_at b':' (t ++ b':' ∷ u)) (append-nil (hex s))
    ∙ split_at-append b':' (hex s) u (colon s)
split_at-front s (x ∷ l) u =
    ap (split_at b':') (append_assoc (hex s) (b':' ∷ hex x ++ print_tail l) (b':' ∷ u))
    ∙ split_at-append b':' (hex s) ((hex x ++ print_tail l) ++ b':' ∷ u) (colon s)
    ∙ ap (λ gs. hex s ∷ gs) (split_at-front x l u)

values-segments : (l : List ℕ) → All IsSegment l → values (split_at b':' (print_segments l)) ≡ l
unfolding values split_at
values-segments [] h = refl
values-segments (s ∷ l) h = ap values (split_at-tail s l) ∙ values-texts (s ∷ l) h

pub from_groups :
    (t : Text) (gs : List Text) (f b : List ℕ) (n : ℕ)
    → split_at b':' t ≡ gs
    → front gs ≡ f
    → back gs ≡ b
    → 8 - (length f + length b) ≡ n
    → read_ip t ≡ f ++ (zeros n ++ b)
unfolding read_ip
from_groups t gs f b n parts ahead behind left =
    ap (λ gs. filled (front gs) (back gs)) parts
    ∙ ap (λ f. filled f (back gs)) ahead
    ∙ ap (filled f) behind
    ∙ ap (λ n. f ++ (zeros n ++ b)) left

-- All segments are printed.
pub read_ip-plain :
    (s : ℕ) (l : List ℕ)
    → All IsSegment (s ∷ l)
    → length (s ∷ l) ≡ 8
    → read_ip (print_segments (s ∷ l)) ≡ s ∷ l
unfolding front back
read_ip-plain s l h e =
    from_groups (print_segments (s ∷ l)) (texts (s ∷ l) ++ []) (s ∷ l) [] 0
      (split_at-tail s l ∙ sym (append-nil (texts (s ∷ l))))
      (front-texts (s ∷ l) [] h ∙ append-nil (s ∷ l)) (back-texts (s ∷ l) []) (omega (arith, e))
    ∙ append-nil (s ∷ l)

-- Some are left out.
pub read_ip-compressed :
    (f b : List ℕ) (n : ℕ)
    → All IsSegment f
    → All IsSegment b
    → length f + (n + length b) ≡ 8
    → read_ip (print_segments f ++ (chars "::" ++ print_segments b)) ≡ f ++ (zeros n ++ b)
unfolding front back split_at
read_ip-compressed [] b n hf hb e =
    from_groups _ ([] ∷ [] ∷ split_at b':' (print_segments b)) [] b n refl refl
      (values-segments b hb) (omega (arith, e))
read_ip-compressed (s ∷ f) b n hf hb e =
    let gs = split_at b':' (print_segments b) in
    from_groups _ (texts (s ∷ f) ++ [] ∷ gs) (s ∷ f) b n
      (split_at-front s f (b':' ∷ print_segments b))
      (front-texts (s ∷ f) ([] ∷ gs) hf ∙ append-nil (s ∷ f))
      (back-texts (s ∷ f) ([] ∷ gs) ∙ values-segments b hb) (omega (arith, e))
