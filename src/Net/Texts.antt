-- ===== src/Net/Texts.antt =====
-- Texts that are split at a character.
use tansa.Prelude.{
  ℕ, ◌≡◌, ◌≢◌, refl, true, false, All, List, [], ◌∷◌, ◌++◌, ◌==◌, ==_iff, Bool-cases, inl, inr,
  if◌then◌else◌,
}

abbrev pub Lacks : ℕ → List ℕ → Type 0
Lacks c t = All (λ x. x ≢ c) t

-- What is in front of the first `c`, and what is behind it.
unfoldable pub until : ℕ → List ℕ → List ℕ × List ℕ
until c [] = ([], [])
until c (x ∷ l) = let rest = until c l in if x == c then ([], l) else (x ∷ rest.0, rest.1)

abbrev with_first : ℕ → List (List ℕ) → List (List ℕ)
with_first x [] = (x ∷ []) ∷ []
with_first x (g ∷ gs) = (x ∷ g) ∷ gs

-- The parts between the `c`.
unfoldable pub split_at : ℕ → List ℕ → List (List ℕ)
split_at c [] = [] ∷ []
split_at c (x ∷ l) = let rest = split_at c l in if x == c then [] ∷ rest else with_first x rest

pub ==_refl : (c : ℕ) → (c == c) ≡ true
==_refl c = (==_iff c c).1 refl

pub ==_false : (x c : ℕ) → x ≢ c → (x == c) ≡ false
==_false x c h = elim (Bool-cases (x == c)) [ inl e ↦ absurd (h ((==_iff x c).0 e)) | inr e ↦ e ]

module _ (c : ℕ) where
  pub until-append : (t u : List ℕ) → Lacks c t → until c (t ++ c ∷ u) ≡ (t, u)
  unfolding until
  until-append [] u h = rw (==_refl c)
  until-append (x ∷ t) u h = rw (==_false x c h.0, until-append t u h.1)

  pub until-Lacks : (t : List ℕ) → Lacks c t → until c t ≡ (t, [])
  unfolding until
  until-Lacks [] h = refl
  until-Lacks (x ∷ t) h = rw (==_false x c h.0, until-Lacks t h.1)

  pub split_at-append : (t u : List ℕ) → Lacks c t → split_at c (t ++ c ∷ u) ≡ t ∷ split_at c u
  unfolding split_at
  split_at-append [] u h = rw (==_refl c)
  split_at-append (x ∷ t) u h = rw (==_false x c h.0, split_at-append t u h.1)

  pub split_at-Lacks : (t : List ℕ) → Lacks c t → split_at c t ≡ t ∷ []
  unfolding split_at
  split_at-Lacks [] h = refl
  split_at-Lacks (x ∷ t) h = rw (==_false x c h.0, split_at-Lacks t h.1)
