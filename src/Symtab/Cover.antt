-- ===== src/Symtab/Cover.antt =====
-- crates/delink-core/src/symtab.rs, `collect_text_functions`: every named address stays inside a function.
use delink.Prelude.{
  ℕ, ◌+◌, ◌^◌, ◌≤◌, ◌<◌, ◌≡◌, ◌⊎◌, inl, inr, Bool, true, false, Option, List, [], ◌∷◌, ltb, arith,
  All, Any, All-imp, Any-imp, All-Any, Bool-cases,
}
use delink.Prelude.Words.{add_u64}
use delink.Collections.Sort.{
  Any-sort_by, Any-dedup_by_key, IsStrictBy, sort_by-IsSortedBy, dedup_by_key-IsStrictBy,
}
use delink.Collections.Filter.{retain, All-retain, Any-retain}
use delink.Symtab.{
  StaticSymbol, collect_text_functions, unique_functions, keep_outer, infer_sizes, infer_size,
  is_text_function, not_after, has_size, value_of,
}
use delink.Symtab.Layout.{Fits, sized_functions-Fits}

-- The address lies in the extent of the function.
abbrev pub Holds : ℕ → StaticSymbol → Type 0
Holds a f = (f.value ≤ a) × (a < f.value + f.size)

not_after-before : (a b : StaticSymbol) → not_after a b ≡ true → a.value ≤ b.value
unfolding not_after
not_after-before a b h = ground arith

not_after-after : (a b : StaticSymbol) → not_after a b ≡ false → b.value ≤ a.value
unfolding not_after
not_after-after a b h = ground arith

-- Where addresses increase, an entry below the end of `.text` gets a size.
infer_sizes-sized :
    (text_end v : ℕ) (fns : List StaticSymbol)
    → IsStrictBy value_of fns
    → v < text_end
    → Any (λ f. f.value ≡ v) fns
    → Any (λ f. (f.value ≡ v) × (has_size f ≡ true)) (infer_sizes text_end fns)
unfolding infer_sizes
infer_sizes-sized text_end v [] s lt h = h
infer_sizes-sized text_end v (f ∷ []) s lt (inl h) = inl (ground arith)
infer_sizes-sized text_end v (f ∷ g ∷ fns) s lt (inl h) = inl (ground arith)
infer_sizes-sized text_end v (f ∷ fns) s lt (inr h) =
    inr (infer_sizes-sized text_end v fns s.1 lt h)

infer_sizes-above :
    (text_end k : ℕ) (fns : List StaticSymbol)
    → All (λ g. k < g.value) fns
    → All (λ g. k < g.value) (infer_sizes text_end fns)
unfolding infer_sizes
infer_sizes-above text_end k [] h = tt
infer_sizes-above text_end k (f ∷ fns) h =
    (ground (arith, h.0), infer_sizes-above text_end k fns h.1)

-- Inference of sizes and the passes after it leave the order alone.
infer_sizes-IsStrictBy :
    (text_end : ℕ) (fns : List StaticSymbol)
    → IsStrictBy value_of fns
    → IsStrictBy value_of (infer_sizes text_end fns)
unfolding infer_sizes
infer_sizes-IsStrictBy text_end [] s = tt
infer_sizes-IsStrictBy text_end (f ∷ fns) s = (
  infer_sizes-above text_end (infer_size text_end f fns).value fns
      (All-imp (λ g h. ground arith) fns s.0),
  infer_sizes-IsStrictBy text_end fns s.1,
)

-- What an entry that is folded in starts at lies in the one kept before it.
keep_outer-Holds :
    (end v : ℕ) (fns : List StaticSymbol)
    → IsStrictBy value_of fns
    → All Fits fns
    → Any (λ f. (f.value ≡ v) × (0 < f.size)) fns
    → v < end ⊎ Any (Holds v) (keep_outer end fns)
unfolding keep_outer
keep_outer-Holds end v [] s h here = elim here [ ]
keep_outer-Holds end v (f ∷ fns) s h here = elim (Bool-cases (ltb f.value end)) [
  | inl t ↦ rw t (elim here [
    | inl (same, sized) ↦ inl (ground arith)
    | inr later ↦ keep_outer-Holds end v fns s.1 h.1 later
  ])
  | inr n ↦ rw n (elim here [
    | inl (same, sized) ↦ inr (inl (omega arith, omega arith))
    | inr later ↦ elim (keep_outer-Holds (add_u64 f.value f.size) v fns s.1 h.1 later) [
      | inl inside ↦
          let (g, above, (same, sized)) = All-Any fns s.0 later in
          inr (inl (omega arith, omega (arith, h.0)))
      | inr kept ↦ inr (inr kept)
    ]
  ])
]

retain-IsStrictBy :
    (p : StaticSymbol → Bool) (fns : List StaticSymbol)
    → IsStrictBy value_of fns
    → IsStrictBy value_of (retain p fns)
unfolding retain
retain-IsStrictBy p [] s = tt
retain-IsStrictBy p (f ∷ fns) s = elim (Bool-cases (p f)) [
  | inl t ↦ rw t (All-retain _ p fns s.0, retain-IsStrictBy p fns s.1)
  | inr n ↦ rw n (retain-IsStrictBy p fns s.1)
]

retain-sized_there :
    (v : ℕ) (fns : List StaticSymbol)
    → Any (λ f. (f.value ≡ v) × (has_size f ≡ true)) fns
    → Any (λ f. (f.value ≡ v) × (0 < f.size)) (retain has_size fns)
retain-sized_there v fns h =
    Any-retain _ has_size fns (Any-imp (λ f g. ((g.0, ground (arith, g.1)), g.1)) fns h)

module _ (symbols : List StaticSymbol) (text_shndx : Option ℕ) (text_end : ℕ) where
  unique_functions-IsStrictBy : IsStrictBy value_of (unique_functions symbols text_shndx)
  unfolding unique_functions
  unique_functions-IsStrictBy = dedup_by_key-IsStrictBy value_of _ (
      sort_by-IsSortedBy value_of not_after not_after-before not_after-after
        (retain (is_text_function text_shndx) symbols))

  unique_functions-Any :
      (v : ℕ)
      → Any (λ s. (s.value ≡ v) × (is_text_function text_shndx s ≡ true)) symbols
      → Any (λ s. s.value ≡ v) (unique_functions symbols text_shndx)
  unfolding unique_functions
  unique_functions-Any v h =
      Any-dedup_by_key (λ k. k ≡ v) value_of _
        (Any-sort_by (λ s. s.value ≡ v) not_after _
          (Any-retain (λ s. s.value ≡ v) (is_text_function text_shndx) symbols h))

  -- The address of every function symbol below the end of `.text` lies in a function that is kept.
  pub collect_text_functions-Holds :
      text_end < 2 ^ 64
      → All Fits symbols
      → (v : ℕ) → v < text_end
      → Any (λ s. (s.value ≡ v) × (is_text_function text_shndx s ≡ true)) symbols
      → Any (Holds v) (collect_text_functions symbols text_shndx text_end)
  unfolding collect_text_functions
  collect_text_functions-Holds e fits v lt h =
      let unique = unique_functions symbols text_shndx in
      let strict = infer_sizes-IsStrictBy text_end unique unique_functions-IsStrictBy in
      let there =
        infer_sizes-sized text_end v unique unique_functions-IsStrictBy lt
          (unique_functions-Any v h) in
      elim (keep_outer-Holds 0 v (retain has_size (infer_sizes text_end unique))
        (retain-IsStrictBy has_size (infer_sizes text_end unique) strict)
        (sized_functions-Fits symbols text_shndx text_end e fits)
        (retain-sized_there v (infer_sizes text_end unique) there)) [
          | inl below ↦ absurd (omega arith)
          | inr kept ↦ kept
        ]
