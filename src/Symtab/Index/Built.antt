-- ===== src/Symtab/Index/Built.antt =====
-- crates/delink-core/src/symtab.rs: `SymtabIndex::build` and the list of functions that it gives.
use delink.Prelude.{
  ℕ, ◌+◌, ◌-◌, ◌^◌, ◌≤◌, ◌<◌, ◌≡◌, refl, ◌⊎◌, inl, inr, true, Option, none, some, List, [], ◌∷◌,
  All-Any, length, arith, All, Any, All-imp, Any-append_left, Any-append_right, Bool-cases,
}
use delink.Prelude.Words.{add_u64}
use delink.Collections.Sort.{Any-sort_by}
use delink.Symtab.{StaticSymbol, SymtabIndex, is_empty, collect_text_functions}
use delink.Symtab.Layout.{
  Fits, IsLaidOut, IsFrom, collect_text_functions-Fits, collect_text_functions-IsFrom,
}
use delink.Symtab.Cover.{Holds}
use delink.Symtab.Orphans.{text_functions, by_value}
use delink.Symtab.Orphans.Cover.{IsPadded, find_orphan_regions-Holds}
use delink.Symtab.Orphans.Layout.{text_functions-IsLaidOut}
use delink.Symtab.Index.{
  TextSection, build, text_end_of, text_base_of, text_data_of, text_coverage, sum_sizes,
}

-- The functions of an index that was built are in the order of addresses, not empty, and apart.
pub build-IsLaidOut :
    (symbols : List StaticSymbol) (text : Option TextSection)
    → All Fits symbols
    → IsLaidOut 0 (text_functions (build symbols text))
unfolding build
build-IsLaidOut symbols text h =
    text_functions-IsLaidOut (build symbols text) (text_base_of text) (text_data_of text)
      (text_end_lt text) h refl
  where
    text_end_lt : (text : Option TextSection) → text_end_of text < 2 ^ 64
    text_end_lt none = omega arith
    text_end_lt (some t) = omega arith

text_functions-Any :
    (P : StaticSymbol → Type 0) (index : SymtabIndex)
    → Any P (collect_text_functions index.symbols index.text_shndx index.text_end)
      ⊎ Any P index.orphans
    → Any P (text_functions index)
unfolding text_functions
text_functions-Any P index h = elim (Bool-cases (is_empty index.orphans)) [
  | inl none' ↦ rw none' (elim h [ inl a ↦ a | inr b ↦ absurd (not_there P index.orphans none' b) ])
  | inr some' ↦ rw some' (
      Any-sort_by P by_value _ (elim h [
        | inl a ↦ Any-append_left P _ index.orphans a
        | inr b ↦ Any-append_right P _ index.orphans b
      ]))
]
  where
    not_there :
        (P : StaticSymbol → Type 0) (fns : List StaticSymbol) → is_empty fns ≡ true → Any P fns → ⊥
    not_there P [] e h = h
    not_there P (f ∷ fns) e h = cc

collect_text_functions-ends :
    (symbols : List StaticSymbol) (text_shndx : Option ℕ) (text_end : ℕ)
    → All (λ s. s.value ≤ text_end) symbols
    → All (λ f. f.value ≤ text_end) (collect_text_functions symbols text_shndx text_end)
collect_text_functions-ends symbols text_shndx text_end ends =
    All-imp
      (λ f from.
        let (s, end, same) =
          All-Any {P = λ s. s.value ≤ text_end} {Q = IsFrom text_shndx f} symbols ends from in
        omega (arith, same.2))
      _ (collect_text_functions-IsFrom symbols text_shndx text_end)

-- Every address of `.text` lies in a function of the index or in padding.
pub build-Holds :
    (symbols : List StaticSymbol) (t : TextSection) (bytes : List ℕ) (a : ℕ)
    → All Fits symbols
    → t.bytes ≡ some bytes
    → length bytes ≡ t.size
    → t.address + t.size < 2 ^ 64
    → All (λ f. f.value ≤ t.address + t.size) symbols
    → t.address ≤ a
    → a < t.address + t.size
    → Any (Holds a) (text_functions (build symbols (some t))) ⊎ IsPadded t.address bytes a
unfolding build
build-Holds symbols t bytes a fits present whole small ends lo hi =
    let end : add_u64 t.address t.size ≡ t.address + t.size = omega arith in
    let named = collect_text_functions symbols (some t.index) (t.address + t.size) in
    let covered =
      find_orphan_regions-Holds named t.address bytes (t.address + t.size) a (omega arith) lo hi
        (collect_text_functions-Fits symbols (some t.index) (t.address + t.size) small fits)
        (collect_text_functions-ends symbols (some t.index) (t.address + t.size) ends) in
    elim covered [
      | inl there ↦ inl (text_functions-Any (Holds a) (build symbols (some t)) (inl (rw end there)))
      | inr (inl there) ↦
          inl
            (text_functions-Any (Holds a) (build symbols (some t)) (inr (rw (end, present) there)))
      | inr (inr pad) ↦ inr pad
    ]

sum_sizes-IsLaidOut :
    (from top : ℕ) (fns : List StaticSymbol)
    → IsLaidOut from fns
    → All (λ f. f.value + f.size ≤ top) fns
    → from ≤ top
    → top < 2 ^ 64
    → from + sum_sizes fns ≤ top
unfolding sum_sizes
sum_sizes-IsLaidOut from top [] laid ends le small = omega arith
sum_sizes-IsLaidOut from top (f ∷ fns) laid ends le small = omega (
  arith,
  sum_sizes-IsLaidOut (f.value + f.size) top fns laid.2 ends.1 ends.0 small,
  laid.0,
  ends.0,
)

-- Where the functions lie between two addresses, the coverage is at most their distance.
pub text_coverage-le :
    (symbols : List StaticSymbol) (text : Option TextSection) (from top : ℕ)
    → All Fits symbols
    → All (λ f. (from ≤ f.value) × (f.value + f.size ≤ top)) (text_functions (build symbols text))
    → from ≤ top
    → top < 2 ^ 64
    → text_coverage (build symbols text) ≤ top - from
unfolding text_coverage
text_coverage-le symbols text from top fits inside le small =
    let fns = text_functions (build symbols text) in
    let laid =
      raise from fns (build-IsLaidOut symbols text fits) (All-imp (λ f h. h.0) fns inside) in
    omega (arith, sum_sizes-IsLaidOut from top fns laid (All-imp (λ f h. h.1) fns inside) le small)
  where
    raise :
        (from : ℕ) (fns : List StaticSymbol)
        → IsLaidOut 0 fns
        → All (λ f. from ≤ f.value) fns
        → IsLaidOut from fns
    raise from [] laid lo = tt
    raise from (f ∷ fns) laid lo = (lo.0, laid.1, laid.2)
