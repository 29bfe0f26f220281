-- ===== src/Symtab/Layout.antt =====
-- crates/delink-core/src/symtab.rs, `collect_text_functions`: the order and the extents of what it keeps.
use delink.Prelude.{
  ℕ, ◌+◌, ◌^◌, ◌≤◌, ◌<◌, ◌≡◌, refl, ◌⊎◌, inl, inr, Bool, true, Option, List, [], ◌∷◌, ltb, ◌==◌,
  arith, All, Any, All-imp, Any-imp, Bool-cases,
}
use delink.Prelude.Words.{add_u64}
use delink.Collections.Sort.{All-sort_by, All-dedup_by_key}
use delink.Collections.Filter.{retain, All-retain, retain-All}
use delink.Symtab.{
  StaticSymbol, collect_text_functions, unique_functions, keep_outer, infer_sizes, infer_size,
  next_value, is_text_function, not_after, has_size, value_of,
}

-- Functions in the order of their addresses, none empty and none reaching into the next.
abbrev pub IsLaidOut : ℕ → List StaticSymbol → Type 0
IsLaidOut from [] = Unit
IsLaidOut from (f ∷ fns) = (from ≤ f.value) × (0 < f.size) × IsLaidOut (f.value + f.size) fns

-- The symbol ends inside the address space.
abbrev pub Fits : StaticSymbol → Type 0
Fits s = s.value + s.size < 2 ^ 64

-- The entry is a symbol of the table, its size given there or missing.
abbrev pub IsFrom : Option ℕ → StaticSymbol → StaticSymbol → Type 0
IsFrom text_shndx f s =
    (is_text_function text_shndx s ≡ true)
    × (f.name ≡ s.name)
    × (f.value ≡ s.value)
    × (s.size ≡ 0 ⊎ f.size ≡ s.size)

next_value-Fits :
    (text_end : ℕ) (fns : List StaticSymbol)
    → text_end < 2 ^ 64
    → All Fits fns
    → next_value text_end fns < 2 ^ 64
next_value-Fits text_end [] e h = e
next_value-Fits text_end (s ∷ fns) e h = omega (arith, h.0)

infer_size-IsFrom :
    (text_shndx : Option ℕ) (text_end : ℕ) (f : StaticSymbol) (fns : List StaticSymbol)
    (s : StaticSymbol)
    → f ≡ s
    → is_text_function text_shndx s ≡ true
    → IsFrom text_shndx (infer_size text_end f fns) s
infer_size-IsFrom text_shndx text_end f fns s same t = elim (Bool-cases (f.size == 0)) [
  | inl z ↦ rw (z, same) (t, refl, refl, inl (ground (arith, same)))
  | inr n ↦ rw (n, same) (t, refl, refl, inr refl)
]

infer_sizes-Fits :
    (text_end : ℕ) (fns : List StaticSymbol)
    → text_end < 2 ^ 64
    → All Fits fns
    → All Fits (infer_sizes text_end fns)
unfolding infer_sizes
infer_sizes-Fits text_end [] e h = tt
infer_sizes-Fits text_end (s ∷ fns) e h =
    (ground (arith, next_value-Fits text_end fns e h.1, h.0), infer_sizes-Fits text_end fns e h.1)

keep_outer-IsLaidOut :
    (end : ℕ) (fns : List StaticSymbol)
    → All (λ f. 0 < f.size) fns
    → All Fits fns
    → IsLaidOut end (keep_outer end fns)
unfolding keep_outer
keep_outer-IsLaidOut end [] p h = tt
keep_outer-IsLaidOut end (f ∷ fns) p h = elim (Bool-cases (ltb f.value end)) [
  | inl t ↦ rw t (keep_outer-IsLaidOut end fns p.1 h.1)
  | inr n ↦
      let same : add_u64 f.value f.size ≡ f.value + f.size = omega (arith, h.0) in
      rw n (ground arith, p.0, rw same (keep_outer-IsLaidOut (f.value + f.size) fns p.1 h.1))
]

has_size_lem : (f : StaticSymbol) → has_size f ≡ true → 0 < f.size
has_size_lem f h = ground arith

retain-sized : (fns : List StaticSymbol) → All (λ f. 0 < f.size) (retain has_size fns)
retain-sized fns = All-imp has_size_lem (retain has_size fns) (retain-All has_size fns)

-- The passes keep the entries, so what holds of each symbol holds of each function.
infer_sizes-IsFrom :
    (text_shndx : Option ℕ) (symbols : List StaticSymbol) (text_end : ℕ) (fns : List StaticSymbol)
    → All (λ f. Any (λ s. f ≡ s × (is_text_function text_shndx s ≡ true)) symbols) fns
    → All (λ f. Any (IsFrom text_shndx f) symbols) (infer_sizes text_end fns)
unfolding infer_sizes
infer_sizes-IsFrom text_shndx symbols text_end [] h = tt
infer_sizes-IsFrom text_shndx symbols text_end (f ∷ fns) h = (
  Any-imp (λ s same. infer_size-IsFrom text_shndx text_end f fns s same.0 same.1) symbols h.0,
  infer_sizes-IsFrom text_shndx symbols text_end fns h.1,
)

keep_outer-All :
    (P : StaticSymbol → Type 0) (end : ℕ) (fns : List StaticSymbol)
    → All P fns
    → All P (keep_outer end fns)
unfolding keep_outer
keep_outer-All P end [] h = tt
keep_outer-All P end (f ∷ fns) h = elim (Bool-cases (ltb f.value end)) [
  | inl t ↦ rw t (keep_outer-All P end fns h.1)
  | inr n ↦ rw n (h.0, keep_outer-All P (add_u64 f.value f.size) fns h.1)
]

retain-Any :
    (p : StaticSymbol → Bool) (fns : List StaticSymbol)
    → All (λ f. Any (λ s. f ≡ s × (p s ≡ true)) fns) (retain p fns)
unfolding retain
retain-Any p [] = tt
retain-Any p (f ∷ fns) = elim (Bool-cases (p f)) [
  | inl t ↦ rw t (inl (refl, refl), All-imp (λ g h. inr h) (retain p fns) (retain-Any p fns))
  | inr n ↦ rw n (All-imp (λ g h. inr h) (retain p fns) (retain-Any p fns))
]

module _ (symbols : List StaticSymbol) (text_shndx : Option ℕ) (text_end : ℕ) where
  unique_functions-All :
      (P : StaticSymbol → Type 0)
      → All P (retain (is_text_function text_shndx) symbols)
      → All P (unique_functions symbols text_shndx)
  unfolding unique_functions
  unique_functions-All P h = All-dedup_by_key P value_of _ (All-sort_by P not_after _ h)

  pub sized_functions-Fits :
      text_end < 2 ^ 64
      → All Fits symbols
      → All Fits (retain has_size (infer_sizes text_end (unique_functions symbols text_shndx)))
  sized_functions-Fits e h =
      All-retain Fits has_size (infer_sizes text_end (unique_functions symbols text_shndx)) (
        infer_sizes-Fits text_end (unique_functions symbols text_shndx) e
          (unique_functions-All Fits (All-retain Fits (is_text_function text_shndx) symbols h)))

  pub collect_text_functions-Fits :
      text_end < 2 ^ 64
      → All Fits symbols
      → All Fits (collect_text_functions symbols text_shndx text_end)
  unfolding collect_text_functions
  collect_text_functions-Fits e h = keep_outer-All Fits 0 _ (sized_functions-Fits e h)

  -- The functions increase in address, none is empty, and no two share an address.
  pub collect_text_functions-IsLaidOut :
      text_end < 2 ^ 64
      → All Fits symbols
      → IsLaidOut 0 (collect_text_functions symbols text_shndx text_end)
  unfolding collect_text_functions
  collect_text_functions-IsLaidOut e h =
      keep_outer-IsLaidOut 0
        (retain has_size (infer_sizes text_end (unique_functions symbols text_shndx)))
        (retain-sized (infer_sizes text_end (unique_functions symbols text_shndx)))
        (sized_functions-Fits e h)

  -- Every function that is kept is a symbol of the table, with its size where it has one.
  pub collect_text_functions-IsFrom :
      All
        (λ f. Any (IsFrom text_shndx f) symbols)
        (collect_text_functions symbols text_shndx text_end)
  unfolding collect_text_functions
  collect_text_functions-IsFrom =
      keep_outer-All (λ f. Any (IsFrom text_shndx f) symbols) 0 _
        (All-retain _ has_size _ (
          infer_sizes-IsFrom text_shndx symbols text_end _
            (unique_functions-All _ (retain-Any (is_text_function text_shndx) symbols))))
