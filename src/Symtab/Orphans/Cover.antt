-- ===== src/Symtab/Orphans/Cover.antt =====
-- crates/delink-core/src/symtab.rs, `find_orphan_regions`: no code of `.text` is lost.
use delink.Prelude.{
  ℕ, ◌+◌, ◌-◌, max, ◌≤◌, ◌<◌, ◌≡◌, ◌⊎◌, inl, inr, true, false, ◌||◌, some, List, [], ◌∷◌, ltb, leb,
  length, arith, All, Any, Any-append_left, Any-append_right, Bool-cases, Option-cases,
}
use delink.Prelude.Words.{add_u64}
use delink.Prelude.Bytes.{slice}
use delink.Symtab.{StaticSymbol}
use delink.Symtab.Layout.{Fits}
use delink.Symtab.Cover.{Holds}
use delink.Symtab.Orphans.{is_padding, push_run, runs_between, find_orphan_regions, first_shndx}

-- The address lies in a run of `.text` that is nothing but padding.
abbrev pub IsPadded : ℕ → List ℕ → ℕ → Type 0
IsPadded text_base text_data a =
    (start end : ℕ) × (bytes : List ℕ) × (start ≤ a)
    × (a < end)
    × (text_base ≤ start)
    × (slice text_data (start - text_base) (end - text_base) ≡ some bytes)
    × (is_padding bytes ≡ true)

slice-inside :
    (bytes : List ℕ) (from to : ℕ)
    → from ≤ to
    → to ≤ length bytes
    → (out : List ℕ) × (slice bytes from to ≡ some out)
unfolding slice
slice-inside bytes from to a b = elim (Option-cases (slice bytes from to)) [
  | inl out_of ↦ absurd (ground arith)
  | inr found ↦ found
]

module _ (shndx text_base : ℕ) (text_data : List ℕ) (text_end a : ℕ)
    (whole : length text_data ≡ text_end - text_base) where
  push_run-Holds :
      (start end : ℕ)
      → text_base ≤ start
      → start ≤ a
      → a < end
      → end ≤ text_end
      → Any (Holds a) (push_run shndx text_base text_data start end)
        ⊎ IsPadded text_base text_data a
  unfolding push_run
  push_run-Holds start end base lo hi inside =
      let (bytes, found) =
        slice-inside text_data (start - text_base) (end - text_base) (omega arith) (omega arith) in
      let guard : (leb end start || (ltb start text_base || ltb end text_base)) ≡ false =
        ground arith in
      elim (Bool-cases (is_padding bytes)) [
        | inl pad ↦ inr (start, end, bytes, lo, hi, base, found, pad)
        | inr code ↦ rw (guard, found, code) (inl (inl (lo, omega arith)))
      ]

  runs_between-Holds :
      (cursor : ℕ) (named : List StaticSymbol)
      → text_base ≤ cursor
      → cursor ≤ a
      → a < text_end
      → All Fits named
      → All (λ f. f.value ≤ text_end) named
      → Any (Holds a) named
        ⊎ Any (Holds a) (runs_between shndx text_base text_data text_end cursor named)
        ⊎ IsPadded text_base text_data a
  unfolding runs_between
  runs_between-Holds cursor [] base lo hi fits ends =
      elim (push_run-Holds cursor text_end base lo hi (omega arith)) [
        | inl run ↦ inr (inl run)
        | inr pad ↦ inr (inr pad)
      ]
  runs_between-Holds cursor (f ∷ named) base lo hi fits ends = elim (Bool-cases (ltb a f.value)) [
    | inl before ↦
        let open_run : ltb cursor f.value ≡ true = ground arith in
        elim (push_run-Holds cursor f.value base lo (ground arith) ends.0) [
          | inl run ↦ rw open_run (inr (inl (Any-append_left (Holds a) _ _ run)))
          | inr pad ↦ inr (inr pad)
        ]
    | inr after ↦ elim (Bool-cases (ltb a (f.value + f.size))) [
      | inl inside ↦ inl (inl (ground arith, ground arith))
      | inr past ↦
          elim (runs_between-Holds (max cursor (add_u64 f.value f.size)) named (omega arith)
            (ground (arith, fits.0)) hi fits.1 ends.1) [
              | inl there ↦ inl (inr there)
              | inr (inl run) ↦ inr (inl (Any-append_right (Holds a) _ _ run))
              | inr (inr pad) ↦ inr (inr pad)
            ]
    ]
  ]

-- Each address of `.text` lies in a named function, in a run that gets a symbol, or in padding.
pub find_orphan_regions-Holds :
    (named : List StaticSymbol) (text_base : ℕ) (text_data : List ℕ) (text_end a : ℕ)
    → length text_data ≡ text_end - text_base
    → text_base ≤ a
    → a < text_end
    → All Fits named
    → All (λ f. f.value ≤ text_end) named
    → Any (Holds a) named
      ⊎ Any (Holds a) (find_orphan_regions named text_base text_data text_end)
      ⊎ IsPadded text_base text_data a
unfolding find_orphan_regions
find_orphan_regions-Holds named text_base [] text_end a whole lo hi fits ends = absurd (omega arith)
find_orphan_regions-Holds named text_base (b ∷ bytes) text_end a whole lo hi fits ends =
    let guard : leb text_end text_base ≡ false = ground arith in
    rw guard (
      runs_between-Holds (first_shndx named) text_base (b ∷ bytes) text_end a whole text_base named
        (omega arith) lo hi fits ends)
