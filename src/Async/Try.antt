-- ===== src/Async/Try.antt =====
-- The `?` operator on futures that return a `Result`: an error ends the function. It is a second
-- `>>=`, for the `do` blocks of code that uses `?`.
use mathlib.Core.List.{append-nil}
use tansa.Prelude.{◌≡◌, refl, subst, ◌++◌, Result, ok, err, map_error}
use tansa.Async
use tansa.Async.{Signature, Async, done, call}
use tansa.Async.Runs.{Trace, Run, returns, replied, split}

module _ {S : Signature} {A E : Type 0} where
  abbrev pub propagate :
      {B : Type 0} → (A → Async S (Result B E)) → Result A E → Async S (Result B E)
  propagate f (ok a) = f a
  propagate f (err e) = done (err e)

  infixl 5 ◌>>=◌ ◌>>◌
  abbrev pub ◌>>=◌ :
      {B : Type 0} → Async S (Result A E) → (A → Async S (Result B E)) → Async S (Result B E)
  m >>= f = Async.◌>>=◌ m (propagate f)

  abbrev pub ◌>>◌ :
      {B : Type 0} → Async S (Result A E) → Async S (Result B E) → Async S (Result B E)
  m >> n = m >>= λ _. n

  -- The conversion `From::from` that `?` applies to an error.
  abbrev pub with_error : {F : Type 0} → (E → F) → Async S (Result A E) → Async S (Result A F)
  with_error into m = Async.◌>>=◌ m (λ r. done (map_error into r))

  abbrev pub await_result : Result A E → Async S (Result A E)
  await_result r = done r

  -- A run of `m >>= f` ends in the error of `m`, or goes on with the value of `m`.
  pub data Tried {B : Type 0} (m : Async S (Result A E)) (f : A → Async S (Result B E))
      (t : Trace S) (r : Result B E) : Type 0 where
    failed : (e : E) → r ≡ err e → Run m t (err e) → Tried m f t r
    passed :
        (a : A) (t₁ t₂ : Trace S) → t ≡ t₁ ++ t₂ → Run m t₁ (ok a) → Run (f a) t₂ r → Tried m f t r

  tried_at :
      {B : Type 0} (m : Async S (Result A E)) (f : A → Async S (Result B E)) (t t₁ t₂ : Trace S)
      (x : Result A E) (r : Result B E)
      → t ≡ t₁ ++ t₂
      → Run m t₁ x
      → Run (propagate f x) t₂ r
      → Tried m f t r
  tried_at m f t t₁ t₂ (ok a) r whole q s = passed a t₁ t₂ whole q s
  tried_at m f t t₁ t₂ (err e) r whole q (returns _) = failed e refl (rw (whole, append-nil) q)

  pub tried :
      {B : Type 0} (m : Async S (Result A E)) (f : A → Async S (Result B E)) {t : Trace S}
      {r : Result B E}
      → Run (m >>= f) t r
      → Tried m f t r
  tried m f {t} {r} q =
      let s = split m (propagate f) q in
      tried_at m f t s.before s.after s.value r s.whole s.first s.rest

  -- A run of `with_error into m` is a run of `m`, its error converted.
  pub record Converted {F : Type 0} (into : E → F) (m : Async S (Result A E)) (t : Trace S)
      (r : Result A F) : Type 0 where
    pub result : Result A E
    pub inner : Run m t result
    pub converted : r ≡ map_error into result

  pub with_error_inv :
      {F : Type 0} (into : E → F) (m : Async S (Result A E)) {t : Trace S} {r : Result A F}
      → Run (with_error into m) t r
      → Converted into m t r
  with_error_inv into (done x) (returns _) = record {
    result = x;
    inner = returns x;
    converted = refl;
  }
  with_error_inv into (call c k) (replied _ reply q) =
      let w = with_error_inv into (k reply) q in
      record { result = w.result; inner = replied c reply w.inner; converted = w.converted }

  value_from :
      {F : Type 0} (into : E → F) (m : Async S (Result A E)) (t : Trace S) (a : A) (x : Result A E)
      → Run m t x
      → ok a ≡ map_error into x
      → Run m t (ok a)
  value_from into m t a (ok b) q e = let p : b ≡ a = cc in subst (λ y. Run m t (ok y)) p q
  value_from into m t a (err x) q e = cc

  error_from :
      {F : Type 0} (into : E → F) (m : Async S (Result A E)) (t : Trace S) (f : F) (x : Result A E)
      → Run m t x
      → err f ≡ map_error into x
      → (e : E) × (f ≡ into e) × Run m t (err e)
  error_from into m t f (ok b) q e = cc
  error_from into m t f (err x) q e = (x, cc, q)

  pub with_error_ok :
      {F : Type 0} (into : E → F) (m : Async S (Result A E)) {t : Trace S} {a : A}
      → Run (with_error into m) t (ok a)
      → Run m t (ok a)
  with_error_ok into m {t} {a} q =
      let w = with_error_inv into m q in value_from into m t a w.result w.inner w.converted

  pub with_error_err :
      {F : Type 0} (into : E → F) (m : Async S (Result A E)) {t : Trace S} {f : F}
      → Run (with_error into m) t (err f)
      → (e : E) × (f ≡ into e) × Run m t (err e)
  with_error_err into m {t} {f} q =
      let w = with_error_inv into m q in error_from into m t f w.result w.inner w.converted

  -- A sequence that returns a value ran through both parts.
  pub record Both {B : Type 0} (m : Async S (Result A E)) (f : A → Async S (Result B E))
      (t : Trace S) (b : B) : Type 0 where
    pub before : Trace S
    pub after : Trace S
    pub value : A
    pub whole : t ≡ before ++ after
    pub first : Run m before (ok value)
    pub rest : Run (f value) after (ok b)

  Both-from :
      {B : Type 0} (m : Async S (Result A E)) (f : A → Async S (Result B E)) (t : Trace S) (b : B)
      (r : Result B E)
      → r ≡ ok b
      → Tried m f t r
      → Both m f t b
  Both-from m f t b r e (failed x h q) = cc
  Both-from m f t b r e (passed a t₁ t₂ whole q s) = record {
    before = t₁;
    after = t₂;
    value = a;
    whole = whole;
    first = q;
    rest = subst (λ y. Run (f a) t₂ y) e s;
  }

  pub both :
      {B : Type 0} (m : Async S (Result A E)) (f : A → Async S (Result B E)) {t : Trace S} {b : B}
      → Run (m >>= f) t (ok b)
      → Both m f t b
  both m f {t} {b} q = Both-from m f t b (ok b) refl (tried m f q)
