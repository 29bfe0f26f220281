-- ===== src/Collections/Filter.antt =====
-- `filter`, `retain`, `filter_map`, `sum` and `min` over a sequence.
use delink.Prelude.{◌≡◌, List, [], ◌∷◌, Bool, true, if◌then◌else◌, inl, inr, All, Any, Bool-cases}

module _ {ℓ} {A : Type ℓ} where
  unfoldable pub retain : (A → Bool) → List A → List A
  retain p [] = []
  retain p (x ∷ xs) = let rest = retain p xs in if p x then x ∷ rest else rest

  pub All-retain {κ} :
      (P : A → Type κ) (p : A → Bool) (xs : List A) → All P xs → All P (retain p xs)
  unfolding retain
  All-retain P p [] h = tt
  All-retain P p (x ∷ xs) h = elim (Bool-cases (p x)) [
    | inl t ↦ rw t (h.0, All-retain P p xs h.1)
    | inr f ↦ rw f (All-retain P p xs h.1)
  ]

  pub retain-All : (p : A → Bool) (xs : List A) → All (λ x. p x ≡ true) (retain p xs)
  unfolding retain
  retain-All p [] = tt
  retain-All p (x ∷ xs) = elim (Bool-cases (p x)) [
    | inl t ↦ rw t (t, retain-All p xs)
    | inr f ↦ rw f (retain-All p xs)
  ]

  pub Any-retain :
      (P : A → Type 0) (p : A → Bool) (xs : List A)
      → Any (λ x. P x × (p x ≡ true)) xs
      → Any P (retain p xs)
  unfolding retain
  Any-retain P p [] h = h
  Any-retain P p (x ∷ xs) (inl h) = rw h.1 (inl h.0)
  Any-retain P p (x ∷ xs) (inr h) = elim (Bool-cases (p x)) [
    | inl t ↦ rw t (inr (Any-retain P p xs h))
    | inr f ↦ rw f (Any-retain P p xs h)
  ]
