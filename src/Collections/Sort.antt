-- ===== src/Collections/Sort.antt =====
-- `sort_by`, `dedup_by_key` and what they keep.
use delink.Prelude.{
  ℕ, ◌≤◌, ◌<◌, ◌≡◌, ◌⊎◌, inl, inr, List, [], ◌∷◌, Bool, true, false, arith, ◌==◌, if◌then◌else◌,
  All, Any, All-imp, Bool-cases, ==_iff, subst,
}

module _ {ℓ} {A : Type ℓ} where
  -- The stable sort, by a test of "not after".
  unfoldable pub insert_by : (A → A → Bool) → A → List A → List A
  insert_by le x [] = x ∷ []
  insert_by le x (y ∷ ys) = if le x y then x ∷ y ∷ ys else y ∷ insert_by le x ys

  unfoldable pub sort_by : (A → A → Bool) → List A → List A
  unfolding insert_by
  sort_by le [] = []
  sort_by le (x ∷ xs) = insert_by le x (sort_by le xs)

  dedup_after : (A → ℕ) → ℕ → List A → List A
  dedup_after key last [] = []
  dedup_after key last (y ∷ ys) =
      let rest = dedup_after key (key y) ys in
      let skip = dedup_after key last ys in if key y == last then skip else y ∷ rest

  -- Of neighbours with one key the first stays.
  unfoldable pub dedup_by_key : (A → ℕ) → List A → List A
  unfolding dedup_after
  dedup_by_key key [] = []
  dedup_by_key key (x ∷ xs) = x ∷ dedup_after key (key x) xs

  abbrev pub IsSortedBy : (A → ℕ) → List A → Type 0
  IsSortedBy key [] = Unit
  IsSortedBy key (x ∷ xs) = All (λ y. key x ≤ key y) xs × IsSortedBy key xs

  abbrev pub IsStrictBy : (A → ℕ) → List A → Type 0
  IsStrictBy key [] = Unit
  IsStrictBy key (x ∷ xs) = All (λ y. key x < key y) xs × IsStrictBy key xs

  pub All-insert_by {κ} :
      (P : A → Type κ) (le : A → A → Bool) (x : A) (xs : List A)
      → P x
      → All P xs
      → All P (insert_by le x xs)
  unfolding insert_by
  All-insert_by P le x [] h hs = (h, tt)
  All-insert_by P le x (y ∷ ys) h hs = elim (Bool-cases (le x y)) [
    | inl t ↦ rw t (h, hs)
    | inr f ↦ rw f (hs.0, All-insert_by P le x ys h hs.1)
  ]

  pub All-sort_by {κ} :
      (P : A → Type κ) (le : A → A → Bool) (xs : List A) → All P xs → All P (sort_by le xs)
  unfolding sort_by
  All-sort_by P le [] h = tt
  All-sort_by P le (x ∷ xs) h = All-insert_by P le x _ h.0 (All-sort_by P le xs h.1)

  Any-insert_by :
      (P : A → Type 0) (le : A → A → Bool) (x : A) (xs : List A)
      → P x ⊎ Any P xs
      → Any P (insert_by le x xs)
  unfolding insert_by
  Any-insert_by P le x [] h = h
  Any-insert_by P le x (y ∷ ys) h = elim (Bool-cases (le x y)) [
    | inl t ↦ rw t h
    | inr f ↦ rw f (elim h [
      | inl p ↦ inr (Any-insert_by P le x ys (inl p))
      | inr (inl p) ↦ inl p
      | inr (inr p) ↦ inr (Any-insert_by P le x ys (inr p))
    ])
  ]

  pub Any-sort_by :
      (P : A → Type 0) (le : A → A → Bool) (xs : List A) → Any P xs → Any P (sort_by le xs)
  unfolding sort_by
  Any-sort_by P le [] h = h
  Any-sort_by P le (x ∷ xs) (inl h) = Any-insert_by P le x _ (inl h)
  Any-sort_by P le (x ∷ xs) (inr h) = Any-insert_by P le x _ (inr (Any-sort_by P le xs h))

  module _ (key : A → ℕ) (le : A → A → Bool) (before : (a b : A) → le a b ≡ true → key a ≤ key b)
      (after : (a b : A) → le a b ≡ false → key b ≤ key a) where
    insert_by-IsSortedBy :
        (x : A) (xs : List A) → IsSortedBy key xs → IsSortedBy key (insert_by le x xs)
    unfolding insert_by
    insert_by-IsSortedBy x [] s = (tt, tt)
    insert_by-IsSortedBy x (y ∷ ys) s = elim (Bool-cases (le x y)) [
      | inl t ↦ rw t ((before x y t, All-imp (λ z h. omega (arith, before x y t)) ys s.0), s)
      | inr f ↦ rw f (
        All-insert_by (λ z. key y ≤ key z) le x ys (after x y f) s.0,
        insert_by-IsSortedBy x ys s.1,
      )
    ]

    pub sort_by-IsSortedBy : (xs : List A) → IsSortedBy key (sort_by le xs)
    unfolding sort_by
    sort_by-IsSortedBy [] = tt
    sort_by-IsSortedBy (x ∷ xs) = insert_by-IsSortedBy x (sort_by le xs) (sort_by-IsSortedBy xs)

  All-dedup_after {κ} :
      (P : A → Type κ) (key : A → ℕ) (last : ℕ) (xs : List A)
      → All P xs
      → All P (dedup_after key last xs)
  unfolding dedup_after
  All-dedup_after P key last [] h = tt
  All-dedup_after P key last (y ∷ ys) h = elim (Bool-cases (key y == last)) [
    | inl t ↦ rw t (All-dedup_after P key last ys h.1)
    | inr f ↦ rw f (h.0, All-dedup_after P key (key y) ys h.1)
  ]

  pub All-dedup_by_key {κ} :
      (P : A → Type κ) (key : A → ℕ) (xs : List A) → All P xs → All P (dedup_by_key key xs)
  unfolding dedup_by_key
  All-dedup_by_key P key [] h = tt
  All-dedup_by_key P key (x ∷ xs) h = (h.0, All-dedup_after P key (key x) xs h.1)

  -- A property of the key that some entry has is kept by the entry that stays.
  Any-dedup_after :
      (P : ℕ → Type 0) (key : A → ℕ) (last : ℕ) (xs : List A)
      → Any (λ x. P (key x)) xs
      → P last ⊎ Any (λ x. P (key x)) (dedup_after key last xs)
  unfolding dedup_after
  Any-dedup_after P key last [] h = inr h
  Any-dedup_after P key last (y ∷ ys) h = elim (Bool-cases (key y == last)) [
    | inl t ↦ rw t (elim h [
      | inl p ↦ inl (subst P ((==_iff (key y) last).0 t) p)
      | inr p ↦ Any-dedup_after P key last ys p
    ])
    | inr f ↦
        rw f (elim h [ inl p ↦ inr (inl p) | inr p ↦ inr (Any-dedup_after P key (key y) ys p) ])
  ]

  pub Any-dedup_by_key :
      (P : ℕ → Type 0) (key : A → ℕ) (xs : List A)
      → Any (λ x. P (key x)) xs
      → Any (λ x. P (key x)) (dedup_by_key key xs)
  unfolding dedup_by_key
  Any-dedup_by_key P key [] h = h
  Any-dedup_by_key P key (x ∷ xs) (inl h) = inl h
  Any-dedup_by_key P key (x ∷ xs) (inr h) = Any-dedup_after P key (key x) xs h

  dedup_after-IsStrictBy :
      (key : A → ℕ) (last : ℕ) (xs : List A)
      → All (λ y. last ≤ key y) xs
      → IsSortedBy key xs
      → All (λ y. last < key y) (dedup_after key last xs) × IsStrictBy key (dedup_after key last xs)
  unfolding dedup_after
  dedup_after-IsStrictBy key last [] lo s = (tt, tt)
  dedup_after-IsStrictBy key last (y ∷ ys) lo s = elim (Bool-cases (key y == last)) [
    | inl t ↦ rw t (dedup_after-IsStrictBy key last ys lo.1 s.1)
    | inr f ↦
        let (above, strict) = dedup_after-IsStrictBy key (key y) ys s.0 s.1 in
        let step : last < key y = ground (arith, ==_iff (key y) last, lo.0) in
        rw f ((step, All-imp (λ z h. omega arith) _ above), (above, strict))
  ]

  -- Without equal neighbours a sorted list increases strictly.
  pub dedup_by_key-IsStrictBy :
      (key : A → ℕ) (xs : List A) → IsSortedBy key xs → IsStrictBy key (dedup_by_key key xs)
  unfolding dedup_by_key
  dedup_by_key-IsStrictBy key [] s = tt
  dedup_by_key-IsStrictBy key (x ∷ xs) s = dedup_after-IsStrictBy key (key x) xs s.0 s.1
