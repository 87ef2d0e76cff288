-- ===== src/Net/Display/Zeros.antt =====
-- The run of zeros that an address is printed without.
use tansa.Prelude.{
  ℕ, zero, suc, ◌+◌, ◌≡◌, ◌≢◌, refl, sym, ap, subst, ◌∙◌, Bool, true, false, List, [], ◌∷◌, ◌++◌,
  ◌==◌, ==_iff, ltb, Bool-cases, inl, inr, if◌then◌else◌, arith,
}
use mathlib.Core.List.{append_assoc, append-nil}
use tansa.Net.Display.{Span, longest_zeros, longest_run, take_first, drop_first}

abbrev pub zeros : ℕ → List ℕ
zeros zero = []
zeros (suc n) = 0 ∷ zeros n

abbrev pub length : List ℕ → ℕ
length [] = 0
length (x ∷ l) = suc (length l)

zeros_last : (n : ℕ) → zeros n ++ 0 ∷ [] ≡ zeros (suc n)
zeros_last zero = refl
zeros_last (suc n) = ap (λ l. 0 ∷ l) (zeros_last n)

-- The span is a run of zeros of the list, if it is not empty.
pub record IsRun (whole : List ℕ) (span : Span) : Type 0 where
  pub front : List ℕ
  pub back : List ℕ
  pub parts : whole ≡ front ++ (zeros span.len ++ back)
  pub starts : span.len ≢ 0 → span.start ≡ length front

-- A run at the end of the list.
record EndsIn (seen : List ℕ) (span : Span) : Type 0 where
  before : List ℕ
  parts : seen ≡ before ++ zeros span.len
  starts : span.len ≢ 0 → span.start ≡ length before

length_snoc : (l : List ℕ) (x : ℕ) → length (l ++ x ∷ []) ≡ suc (length l)
length_snoc [] x = refl
length_snoc (y ∷ l) x = ap suc (length_snoc l x)

plus_one : (n : ℕ) → n + 1 ≡ suc n
plus_one n = omega arith

-- One zero more.
abbrev grown : ℕ → Span → Span
grown i current = record {
  start = (if current.len == 0 then i else current.start);
  len = current.len + 1;
}

extended :
    (i : ℕ) (seen : List ℕ) (current : Span)
    → i ≡ length seen
    → EndsIn seen current
    → EndsIn (seen ++ 0 ∷ []) (grown i current)
extended i seen current at h = record {
  before = h.before;
  parts =
      ap (λ l. l ++ 0 ∷ []) h.parts
      ∙ append_assoc h.before (zeros current.len) (0 ∷ [])
      ∙ ap (λ l. h.before ++ l) (zeros_last current.len ∙ ap zeros (sym (plus_one current.len)));
  starts = λ n. elim (Bool-cases (current.len == 0)) [
    | inl z ↦
        let none = (==_iff current.len 0).0 z in
        rw z (at ∙ ap length (h.parts ∙ ap (λ n. h.before ++ zeros n) none ∙ append-nil h.before))
    | inr p ↦ rw p (h.starts (λ z. cc (p, (==_iff current.len 0).1 z)))
  ];
}

fresh : (seen : List ℕ) → EndsIn seen (record { start = 0; len = 0 })
fresh seen = record { before = seen; parts = sym (append-nil seen); starts = λ n. absurd (n refl) }

module _ (whole : List ℕ) where
  EndsIn-IsRun :
      (seen rest : List ℕ) (span : Span)
      → whole ≡ seen ++ rest
      → EndsIn seen span
      → IsRun whole span
  EndsIn-IsRun seen rest span e h = record {
    front = h.before;
    back = rest;
    parts = e ∙ ap (λ l. l ++ rest) h.parts ∙ append_assoc h.before (zeros span.len) rest;
    starts = h.starts;
  }

  either :
      (b : Bool) {x y : Span} → IsRun whole x → IsRun whole y → IsRun whole (if b then x else y)
  either true h k = h
  either false h k = k

  longest_zeros-IsRun :
      (i : ℕ) (seen rest : List ℕ) (current longest : Span)
      → i ≡ length seen
      → whole ≡ seen ++ rest
      → EndsIn seen current
      → IsRun whole longest
      → IsRun whole (longest_zeros i current longest rest)
  unfolding longest_zeros
  longest_zeros-IsRun i seen [] current longest at e h run = run
  longest_zeros-IsRun i seen (s ∷ rest) current longest at e h run =
      let split : whole ≡ (seen ++ s ∷ []) ++ rest = e ∙ sym (append_assoc seen (s ∷ []) rest) in
      let next : i + 1 ≡ length (seen ++ s ∷ []) =
        plus_one i ∙ ap suc at ∙ sym (length_snoc seen s) in
      elim (Bool-cases (s == 0)) [
        | inl z ↦
            let now =
              subst (λ x. EndsIn (seen ++ x ∷ []) (grown i current)) (sym ((==_iff s 0).0 z))
                (extended i seen current at h) in
            rw z (
              longest_zeros-IsRun (i + 1) (seen ++ s ∷ []) rest (grown i current) _ next split now (
                either (ltb longest.len (current.len + 1))
                  (EndsIn-IsRun (seen ++ s ∷ []) rest _ split now) run))
        | inr p ↦
            let now = fresh (seen ++ s ∷ []) in
            rw p (
              longest_zeros-IsRun (i + 1) (seen ++ s ∷ []) rest _ _ next split now
                (either (ltb longest.len 0) (EndsIn-IsRun (seen ++ s ∷ []) rest _ split now) run))
      ]

-- What is left out is a run of zeros of the segments.
pub longest_run-IsRun : (l : List ℕ) → IsRun l (longest_run l)
unfolding longest_run
longest_run-IsRun l =
    longest_zeros-IsRun l 0 [] l _ _ refl refl (fresh [])
      (EndsIn-IsRun l [] l (record { start = 0; len = 0 }) refl (fresh []))

drop_zeros : (n : ℕ) (b : List ℕ) → drop_first n (zeros n ++ b) ≡ b
unfolding drop_first
drop_zeros zero b = refl
drop_zeros (suc n) b = drop_zeros n b

pub drop_first-zeros :
    (k : ℕ) (f : List ℕ) (n : ℕ) (b : List ℕ)
    → k ≡ length f + n
    → drop_first k (f ++ (zeros n ++ b)) ≡ b
unfolding drop_first
drop_first-zeros k [] n b e =
    let same : k ≡ n = omega arith in ap (λ k. drop_first k (zeros n ++ b)) same ∙ drop_zeros n b
drop_first-zeros zero (x ∷ f) n b e = absurd (omega arith)
drop_first-zeros (suc k) (x ∷ f) n b e = drop_first-zeros k f n b (omega arith)

pub take_first-append : (f r : List ℕ) → take_first (length f) (f ++ r) ≡ f
unfolding take_first
take_first-append [] r = refl
take_first-append (x ∷ f) r = ap (λ l. x ∷ l) (take_first-append f r)

pub length-append : (l m : List ℕ) → length (l ++ m) ≡ length l + length m
length-append [] m = omega arith
length-append (x ∷ l) m = let h = length-append l m in omega arith

pub length-zeros : (n : ℕ) → length (zeros n) ≡ n
length-zeros zero = refl
length-zeros (suc n) = ap suc (length-zeros n)
