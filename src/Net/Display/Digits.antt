-- ===== src/Net/Display/Digits.antt =====
-- The characters of a printed number.
use tansa.Prelude.{
  ap, ◌++◌, ℕ, zero, suc, ◌≤◌, ◌<◌, ◌/◌, ◌%◌, ◌≡◌, ◌≢◌, refl, ◌⊎◌, [], ◌∷◌, ltb, ltb→lt, Bool-cases,
  inl, inr, All, All-weaken, arith,
}
use native.Mathlib.Nat.{mod-lt}
use tansa.Net.Texts.{Lacks}
use tansa.Net.Display.{Text, digit, print_digits, decimal, hex}

abbrev IsDigit : ℕ → Type 0
IsDigit x = ((48 ≤ x) × (x < 58)) ⊎ ((97 ≤ x) × (x < 103))

digit-IsDigit : (d : ℕ) → d < 16 → IsDigit (digit d)
digit-IsDigit d h = ground arith

print_digits-IsDigit :
    (k base n : ℕ) (after : Text)
    → 0 < base
    → base ≤ 16
    → All IsDigit after
    → All IsDigit (print_digits k base n after)
unfolding print_digits
print_digits-IsDigit zero base n after lo hi h = h
print_digits-IsDigit (suc k) base n after lo hi h = elim (Bool-cases (ltb n base)) [
  | inl lt ↦ let few : n < base = ltb→lt n base lt in rw lt (digit-IsDigit n (omega arith), h)
  | inr ge ↦
      let last : n % base < base = mod-lt n lo in
      rw ge (
        print_digits-IsDigit k base (n / base) (digit (n % base) ∷ after) lo hi
          (digit-IsDigit (n % base) (omega arith), h))
]

-- A character that is no digit is none of a printed number.
pub record IsMark (c : ℕ) : Type 0 where
  pub low : c < 97
  pub outside : (c < 48) ⊎ (58 ≤ c)

lacks : (c : ℕ) → IsMark c → (x : ℕ) → IsDigit x → x ≢ c
lacks c m x d e = let o = m.outside in let l = m.low in ground arith

pub decimal-Lacks : (c n : ℕ) → IsMark c → Lacks c (decimal n)
decimal-Lacks c n m =
    All-weaken IsDigit (λ x. x ≢ c) (decimal n) (lacks c m)
      (print_digits-IsDigit 10 10 n [] (omega arith) (omega arith) tt)

pub hex-Lacks : (c n : ℕ) → IsMark c → Lacks c (hex n)
hex-Lacks c n m =
    All-weaken IsDigit (λ x. x ≢ c) (hex n) (lacks c m)
      (print_digits-IsDigit 4 16 n [] (omega arith) (omega arith) tt)

-- It is not empty.
pub record Cons (t : Text) : Type 0 where
  pub first : ℕ
  pub rest : Text
  pub whole : t ≡ first ∷ rest

print_digits-more : (k base n x : ℕ) (after : Text) → Cons (print_digits k base n (x ∷ after))
unfolding print_digits
print_digits-more zero base n x after = record { first = x; rest = after; whole = refl }
print_digits-more (suc k) base n x after = elim (Bool-cases (ltb n base)) [
  | inl lt ↦ rw lt (record { first = digit n; rest = x ∷ after; whole = refl })
  | inr ge ↦ rw ge (print_digits-more k base (n / base) (digit (n % base)) (x ∷ after))
]

print_digits-Cons : (k base n : ℕ) → Cons (print_digits (suc k) base n [])
unfolding print_digits
print_digits-Cons k base n = elim (Bool-cases (ltb n base)) [
  | inl lt ↦ rw lt (record { first = digit n; rest = []; whole = refl })
  | inr ge ↦ rw ge (print_digits-more k base (n / base) (digit (n % base)) [])
]

pub hex-Cons : (n : ℕ) → Cons (hex n)
hex-Cons n = print_digits-Cons 3 16 n

pub decimal-Cons : (n : ℕ) → Cons (decimal n)
decimal-Cons n = print_digits-Cons 9 10 n

pub append-Cons : (t u : Text) → Cons t → Cons (t ++ u)
append-Cons t u c = record { first = c.first; rest = c.rest ++ u; whole = ap (λ t. t ++ u) c.whole }
