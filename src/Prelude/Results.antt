-- ===== src/Prelude/Results.antt =====
-- `Result<T, E>` of the Rust standard library, with the methods that the code calls.
use mathlib.Core.Path.{◌≡◌, refl}
use mathlib.Core.Logic.{◌⊎◌, inl, inr}
use mathlib.Core.Option.{Option, none, some}

pub data Result (A E : Type 0) : Type 0 where
  ok : A → Result A E
  err : E → Result A E

module _ {A E : Type 0} where
  -- `?`, and `and_then`
  infixl 5 ◌and_then◌
  abbrev pub ◌and_then◌ : {B : Type 0} → Result A E → (A → Result B E) → Result B E
  ok a and_then f = f a
  err e and_then f = err e

  abbrev pub map_result : {B : Type 0} → (A → B) → Result A E → Result B E
  map_result f (ok a) = ok (f a)
  map_result f (err e) = err e

  abbrev pub map_error : {F : Type 0} → (E → F) → Result A E → Result A F
  map_error f (ok a) = ok a
  map_error f (err e) = err (f e)

  -- `Result::ok`
  abbrev pub ok_value : Result A E → Option A
  ok_value (ok a) = some a
  ok_value (err e) = none

  -- `Option::ok_or_else`
  abbrev pub ok_or : Option A → E → Result A E
  ok_or none e = err e
  ok_or (some a) e = ok a

  -- `Result<Option<T>, E>::transpose`
  abbrev pub transpose : Result (Option A) E → Option (Result A E)
  transpose (ok none) = none
  transpose (ok (some a)) = some (ok a)
  transpose (err e) = some (err e)

  pub Result-cases : (r : Result A E) → ((a : A) × (r ≡ ok a)) ⊎ ((e : E) × (r ≡ err e))
  Result-cases (ok a) = inl (a, refl)
  Result-cases (err e) = inr (e, refl)

  pub ok-ne-err : (a : A) (e : E) → ¬ (ok a ≡ err e)
  ok-ne-err a e h = cc
