-- ===== src/Symtab/Orphans/Layout.antt =====
-- crates/delink-core/src/symtab.rs, `text_functions`: the named functions and the orphans never overlap.
use delink.Prelude.{
  ℕ, ◌+◌, ◌-◌, ◌^◌, max, ◌≤◌, ◌<◌, ◌≡◌, ◌⊎◌, inl, inr, ◌||◌, List, [], ◌∷◌, ◌++◌, ltb, leb,
  if◌then◌else◌, arith, All, All-imp, All-both, All-append, Bool-cases, Option-cases,
}
use delink.Prelude.Words.{add_u64}
use delink.Prelude.Bytes.{slice}
use delink.Collections.Sort.{
  sort_by, insert_by, All-insert_by, All-sort_by, IsSortedBy, sort_by-IsSortedBy,
}
use delink.Symtab.{StaticSymbol, SymtabIndex, is_empty, value_of, collect_text_functions}
use delink.Symtab.Layout.{
  Fits, IsLaidOut, collect_text_functions-IsLaidOut, collect_text_functions-Fits,
}
use delink.Symtab.Orphans.{
  is_padding, push_run, runs_between, find_orphan_regions, first_shndx, by_value, text_functions,
}

-- The extents share no address.
abbrev pub IsApart : StaticSymbol → StaticSymbol → Type 0
IsApart f g = f.value + f.size ≤ g.value ⊎ g.value + g.size ≤ f.value

abbrev pub ArePairwise : (StaticSymbol → StaticSymbol → Type 0) → List StaticSymbol → Type 0
ArePairwise R [] = Unit
ArePairwise R (f ∷ fns) = All (R f) fns × ArePairwise R fns

IsLaidOut-above :
    (from : ℕ) (fns : List StaticSymbol) → IsLaidOut from fns → All (λ f. from ≤ f.value) fns
IsLaidOut-above from [] h = tt
IsLaidOut-above from (f ∷ fns) h =
    (h.0, All-imp (λ g b. omega (arith, h.0)) fns (IsLaidOut-above (f.value + f.size) fns h.2))

IsLaidOut-pairwise :
    (from : ℕ) (fns : List StaticSymbol) → IsLaidOut from fns → ArePairwise IsApart fns
IsLaidOut-pairwise from [] h = tt
IsLaidOut-pairwise from (f ∷ fns) h = (
  All-imp (λ g b. inl b) fns (IsLaidOut-above (f.value + f.size) fns h.2),
  IsLaidOut-pairwise (f.value + f.size) fns h.2,
)

IsLaidOut-sized :
    (from : ℕ) (fns : List StaticSymbol) → IsLaidOut from fns → All (λ f. 0 < f.size) fns
IsLaidOut-sized from [] h = tt
IsLaidOut-sized from (f ∷ fns) h = (h.1, IsLaidOut-sized (f.value + f.size) fns h.2)

IsLaidOut-lower :
    (from lower : ℕ) (fns : List StaticSymbol)
    → lower ≤ from
    → IsLaidOut from fns
    → IsLaidOut lower fns
IsLaidOut-lower from lower [] le h = tt
IsLaidOut-lower from lower (f ∷ fns) le h = (omega (arith, h.0), h.1, h.2)

-- In the order of addresses, functions that are apart are laid out.
laid_out :
    (from : ℕ) (fns : List StaticSymbol)
    → All (λ f. from ≤ f.value) fns
    → All (λ f. 0 < f.size) fns
    → IsSortedBy value_of fns
    → ArePairwise IsApart fns
    → IsLaidOut from fns
laid_out from [] lo p s a = tt
laid_out from (f ∷ fns) lo p s a =
    (lo.0, p.0, laid_out (f.value + f.size) fns (after f fns p.0 p.1 s.0 a.0) p.1 s.1 a.1)
  where
    after :
        (f : StaticSymbol) (fns : List StaticSymbol)
        → 0 < f.size
        → All (λ g. 0 < g.size) fns
        → All (λ g. f.value ≤ g.value) fns
        → All (IsApart f) fns
        → All (λ g. f.value + f.size ≤ g.value) fns
    after f [] h p s a = tt
    after f (g ∷ fns) h p s a = (ground (arith, p.0, s.0, a.0), after f fns h p.1 s.1 a.1)

insert_by-pairwise :
    (f : StaticSymbol) (fns : List StaticSymbol)
    → All (IsApart f) fns
    → ArePairwise IsApart fns
    → ArePairwise IsApart (insert_by by_value f fns)
unfolding insert_by
insert_by-pairwise f [] h p = (tt, tt)
insert_by-pairwise f (g ∷ fns) h p = elim (Bool-cases (by_value f g)) [
  | inl t ↦ rw t (h, p)
  | inr n ↦ rw n (
    All-insert_by (IsApart g) by_value f fns (elim h.0 [ inl a ↦ inr a | inr b ↦ inl b ]) p.0,
    insert_by-pairwise f fns h.1 p.1,
  )
]

sort_by-pairwise :
    (fns : List StaticSymbol) → ArePairwise IsApart fns → ArePairwise IsApart (sort_by by_value fns)
unfolding sort_by
sort_by-pairwise [] p = tt
sort_by-pairwise (f ∷ fns) p =
    insert_by-pairwise f (sort_by by_value fns) (All-sort_by (IsApart f) by_value fns p.0)
      (sort_by-pairwise fns p.1)

append-pairwise :
    (fns gs : List StaticSymbol)
    → ArePairwise IsApart fns
    → ArePairwise IsApart gs
    → All (λ f. All (IsApart f) gs) fns
    → ArePairwise IsApart (fns ++ gs)
append-pairwise [] gs p q h = q
append-pairwise (f ∷ fns) gs p q h =
    (All-append (IsApart f) fns gs p.0 h.0, append-pairwise fns gs p.1 q h.1)

append-IsLaidOut :
    (from next : ℕ) (fns gs : List StaticSymbol)
    → IsLaidOut from fns
    → All (λ f. f.value + f.size ≤ next) fns
    → from ≤ next
    → IsLaidOut next gs
    → IsLaidOut from (fns ++ gs)
append-IsLaidOut from next [] gs h e le k = IsLaidOut-lower next from gs le k
append-IsLaidOut from next (f ∷ fns) gs h e le k =
    (h.0, h.1, append-IsLaidOut (f.value + f.size) next fns gs h.2 e.1 e.0 k)

module _ (shndx text_base : ℕ) (text_data : List ℕ) (text_end : ℕ) where
  -- A run is one symbol at most, with the run's own bounds.
  push_run-inside :
      (start end : ℕ)
      → IsLaidOut start (push_run shndx text_base text_data start end)
        × All
            (λ f. (start ≤ f.value) × (f.value + f.size ≤ end))
            (push_run shndx text_base text_data start end)
  unfolding push_run
  push_run-inside start end =
      elim (Bool-cases (leb end start || (ltb start text_base || ltb end text_base))) [
        | inl out ↦ rw out (tt, tt)
        | inr inside ↦ elim (Option-cases (slice text_data (start - text_base) (end - text_base))) [
          | inl missing ↦ rw (inside, missing) (tt, tt)
          | inr (bytes, found) ↦ elim (Bool-cases (is_padding bytes)) [
            | inl pad ↦ rw (inside, found, pad) (tt, tt)
            | inr code ↦
                rw (inside, found, code)
                  ((omega arith, ground arith, tt), ((omega arith, ground arith), tt))
          ]
        ]
      ]

  -- The run before a function, where there is one.
  abbrev run_before : ℕ → StaticSymbol → List StaticSymbol
  run_before cursor f =
      if ltb cursor f.value then push_run shndx text_base text_data cursor f.value else []

  run_before-inside :
      (cursor : ℕ) (f : StaticSymbol)
      → IsLaidOut cursor (run_before cursor f)
        × All (λ o. o.value + o.size ≤ f.value) (run_before cursor f)
  run_before-inside cursor f = elim (Bool-cases (ltb cursor f.value)) [
    | inl t ↦
        let (laid, inside) = push_run-inside cursor f.value in
        rw t (laid, All-imp (λ o h. h.1) (push_run shndx text_base text_data cursor f.value) inside)
    | inr n ↦ rw n (tt, tt)
  ]

  runs_between-IsLaidOut :
      (cursor : ℕ) (named : List StaticSymbol)
      → All Fits named
      → IsLaidOut cursor (runs_between shndx text_base text_data text_end cursor named)
  unfolding runs_between
  runs_between-IsLaidOut cursor [] fits = (push_run-inside cursor text_end).0
  runs_between-IsLaidOut cursor (f ∷ named) fits =
      let (laid, inside) = run_before-inside cursor f in
      append-IsLaidOut cursor (max cursor (add_u64 f.value f.size)) (run_before cursor f) _ laid
        (All-imp (λ o h. omega (arith, fits.0)) (run_before cursor f) inside) (omega arith)
        (runs_between-IsLaidOut (max cursor (add_u64 f.value f.size)) named fits.1)

  runs_between-IsApart :
      (cursor from : ℕ) (named : List StaticSymbol)
      → All Fits named
      → IsLaidOut from named
      → All
          (λ f. All (IsApart f) (runs_between shndx text_base text_data text_end cursor named))
          named
  unfolding runs_between
  runs_between-IsApart cursor from [] fits laid = tt
  runs_between-IsApart cursor from (f ∷ named) fits laid =
      let inside = (run_before-inside cursor f).1 in
      let later =
        IsLaidOut-above (max cursor (add_u64 f.value f.size)) _
          (runs_between-IsLaidOut (max cursor (add_u64 f.value f.size)) named fits.1) in
      (
        All-append (IsApart f) (run_before cursor f) _
            (All-imp (λ o h. inr h) (run_before cursor f) inside)
            (All-imp (λ o h. inl (omega (arith, fits.0))) _ later),
        All-both
            (λ g above apart.
              All-append (IsApart g) (run_before cursor f) _
                (All-imp (λ o h. inr (omega arith)) (run_before cursor f) inside) apart)
            named (IsLaidOut-above (f.value + f.size) named laid.2)
            (runs_between-IsApart (max cursor (add_u64 f.value f.size)) (f.value + f.size) named
              fits.1 laid.2),
      )

-- The runs of the orphans lie between the named functions: the two lists share no address.
find_orphan_regions-IsApart :
    (from : ℕ) (named : List StaticSymbol) (text_base : ℕ) (text_data : List ℕ) (text_end : ℕ)
    → All Fits named
    → IsLaidOut from named
    → let orphans = find_orphan_regions named text_base text_data text_end in
      IsLaidOut 0 orphans × All (λ f. All (IsApart f) orphans) named
unfolding find_orphan_regions
find_orphan_regions-IsApart from named text_base text_data text_end fits laid =
    elim (Bool-cases (is_empty text_data || leb text_end text_base)) [
      | inl none' ↦ rw none' (tt, All-imp (λ f h. tt) named fits)
      | inr some' ↦ rw some' (
        IsLaidOut-lower text_base 0 _ (omega arith) (
            runs_between-IsLaidOut (first_shndx named) text_base text_data text_end text_base named
              fits),
        runs_between-IsApart (first_shndx named) text_base text_data text_end text_base from named
            fits laid,
      )
    ]

-- The list of all functions is in the order of addresses, and its extents share no address.
pub text_functions-IsLaidOut :
    (index : SymtabIndex) (text_base : ℕ) (text_data : List ℕ)
    → index.text_end < 2 ^ 64
    → All Fits index.symbols
    → index.orphans
      ≡ find_orphan_regions
          (collect_text_functions index.symbols index.text_shndx index.text_end)
          text_base
          text_data
          index.text_end
    → IsLaidOut 0 (text_functions index)
unfolding text_functions
text_functions-IsLaidOut index text_base text_data e h same =
    let named = collect_text_functions index.symbols index.text_shndx index.text_end in
    let laid : IsLaidOut 0 named =
      collect_text_functions-IsLaidOut index.symbols index.text_shndx index.text_end e h in
    let fits : All Fits named =
      collect_text_functions-Fits index.symbols index.text_shndx index.text_end e h in
    let (orphans, apart) =
      find_orphan_regions-IsApart 0 named text_base text_data index.text_end fits laid in
    let regions = find_orphan_regions named text_base text_data index.text_end in
    let all_apart =
      append-pairwise named regions (IsLaidOut-pairwise 0 named laid)
        (IsLaidOut-pairwise 0 regions orphans) apart in
    let all_sized =
      All-append (λ f. 0 < f.size) named regions (IsLaidOut-sized 0 named laid)
        (IsLaidOut-sized 0 regions orphans) in
    elim (Bool-cases (is_empty index.orphans)) [
      | inl none' ↦ rw none' laid
      | inr some' ↦
          rw (some', same)
            (laid_out 0 (sort_by by_value (named ++ regions))
              (All-imp (λ f h. omega arith) _ (All-sort_by _ by_value _ all_sized))
              (All-sort_by _ by_value _ all_sized)
              (sort_by-IsSortedBy value_of by_value (λ a b t. ground arith) (λ a b f. ground arith)
                (named ++ regions))
              (sort_by-pairwise (named ++ regions) all_apart))
    ]
