-- ===== src/Async/Runs.antt =====
-- Runs of a future: the calls that it made with the replies that they got, and its result.
use tansa.Prelude.{◌≡◌, refl, ap, List, [], ◌∷◌, ◌++◌}
use tansa.Async.{Signature, Async, done, call, ◌>>=◌}

abbrev pub Event : Signature → Type 0
Event S = (c : S.Call) × S.Reply c

abbrev pub Trace : Signature → Type 0
Trace S = List (Event S)

pub data Run {S : Signature} {A : Type 0} : Async S A → Trace S → A → Type 0 where
  returns : (a : A) → Run (done a) [] a
  replied :
      (c : S.Call) {k : S.Reply c → Async S A} (r : S.Reply c) {t : Trace S} {a : A}
      → Run (k r) t a
      → Run (call c k) ((c, r) ∷ t) a

module _ {S : Signature} {A B : Type 0} where
  pub Run-bind :
      {m : Async S A} (f : A → Async S B) {t u : Trace S} {a : A} {b : B}
      → Run m t a
      → Run (f a) u b
      → Run (m >>= f) (t ++ u) b
  Run-bind f (returns a) s = s
  Run-bind f (replied c r q) s = replied c r (Run-bind f q s)

  -- A run of a sequence, taken apart.
  pub record Split (m : Async S A) (f : A → Async S B) (t : Trace S) (b : B) : Type 0 where
    pub before : Trace S
    pub after : Trace S
    pub value : A
    pub whole : t ≡ before ++ after
    pub first : Run m before value
    pub rest : Run (f value) after b

  later :
      (c : S.Call) (r : S.Reply c) (k : S.Reply c → Async S A) (f : A → Async S B) {t : Trace S}
      {b : B}
      → Split (k r) f t b
      → Split (call c k) f ((c, r) ∷ t) b
  later c r k f s = record {
    before = (c, r) ∷ s.before;
    after = s.after;
    value = s.value;
    whole = ap (λ u. (c, r) ∷ u) s.whole;
    first = replied c r s.first;
    rest = s.rest;
  }

  -- A run of a sequence is a run of its first part and then one of the rest.
  pub split :
      (m : Async S A) (f : A → Async S B) {t : Trace S} {b : B} → Run (m >>= f) t b → Split m f t b
  split (done a) f {t} q = record {
    before = [];
    after = t;
    value = a;
    whole = refl;
    first = returns a;
    rest = q;
  }
  split (call c k) f (replied _ r q) = later c r k f (split (k r) f q)

  -- A run of `m`, its result put through `g`.
  pub record Mapped (m : Async S A) (g : A → B) (t : Trace S) (b : B) : Type 0 where
    pub value : A
    pub inner : Run m t value
    pub mapped : b ≡ g value

  pub mapped :
      (m : Async S A) (g : A → B) {t : Trace S} {b : B}
      → Run (m >>= λ a. done (g a)) t b
      → Mapped m g t b
  mapped (done a) g (returns _) = record { value = a; inner = returns a; mapped = refl }
  mapped (call c k) g (replied _ r q) =
      let w = mapped (k r) g q in
      record { value = w.value; inner = replied c r w.inner; mapped = w.mapped }

pub done_inv :
    {S : Signature} {A : Type 0} {x : A} {t : Trace S} {y : A}
    → Run (done x) t y
    → (t ≡ []) × (x ≡ y)
done_inv (returns _) = (refl, refl)
