-- ===== src/Symtab/Orphans.antt =====
-- crates/delink-core/src/symtab.rs: the runs of `.text` that no symbol names, and the list of all functions.
pub mod Cover
pub mod Layout
use delink.Prelude.{
  ℕ, ◌+◌, ◌-◌, ◌*◌, max, Bool, true, false, ◌&&◌, ◌||◌, Option, none, some, List, [], ◌∷◌, ◌++◌,
  ltb, leb, ◌==◌, if◌then◌else◌,
}
use delink.Prelude.Text.{Str, codes, hex}
use delink.Prelude.Words.{add_u64}
use delink.Prelude.Bytes.{slice, from_le_bytes}
use delink.Collections.Sort.{sort_by}
use delink.Symtab.{
  StaticSymbol, SymtabIndex, stt_func, stb_local, is_empty, value_of, collect_text_functions,
}

abbrev pub orphan_prefix : Str
orphan_prefix = codes "__delink_orphan_"

-- `NOPS.contains(word)`
abbrev pub is_nop : ℕ → Bool
is_nop w = w == 0x00000000 || w == 0xe1a00000 || w == 0xe320f000

-- In chunks of four bytes, the last of which may be shorter.
unfoldable pub is_padding : List ℕ → Bool
unfolding from_le_bytes
is_padding [] = true
is_padding (a ∷ []) = false
is_padding (a ∷ b ∷ []) = false
is_padding (a ∷ b ∷ c ∷ []) = false
is_padding (a ∷ b ∷ c ∷ d ∷ rest) = is_nop (from_le_bytes (a ∷ b ∷ c ∷ d ∷ [])) && is_padding rest

abbrev pub first_shndx : List StaticSymbol → ℕ
first_shndx [] = 0
first_shndx (f ∷ fns) = f.shndx

abbrev pub orphan : ℕ → ℕ → ℕ → StaticSymbol
orphan shndx start end = record {
  name = orphan_prefix ++ hex start;
  value = start;
  size = end - start;
  sym_type = stt_func;
  bind = stb_local;
  shndx = shndx;
}

-- What the closure `push` adds for a run: one symbol or none.
unfoldable pub push_run : ℕ → ℕ → List ℕ → ℕ → ℕ → List StaticSymbol
unfolding slice is_padding
push_run shndx text_base text_data start end =
    if leb end start || (ltb start text_base || ltb end text_base)
    then []
    else elim (slice text_data (start - text_base) (end - text_base)) [
      | none ↦ []
      | some bytes ↦ if is_padding bytes then [] else orphan shndx start end ∷ []
    ]

-- The walk over the named functions from a cursor, with the run after the last of them.
unfoldable pub runs_between : ℕ → ℕ → List ℕ → ℕ → ℕ → List StaticSymbol → List StaticSymbol
unfolding push_run
runs_between shndx text_base text_data text_end cursor [] =
    push_run shndx text_base text_data cursor text_end
runs_between shndx text_base text_data text_end cursor (f ∷ named) =
    (if ltb cursor f.value then push_run shndx text_base text_data cursor f.value else [])
    ++ runs_between shndx text_base text_data text_end (max cursor (add_u64 f.value f.size)) named

unfoldable pub find_orphan_regions : List StaticSymbol → ℕ → List ℕ → ℕ → List StaticSymbol
unfolding runs_between
find_orphan_regions named text_base text_data text_end =
    if is_empty text_data || leb text_end text_base
    then []
    else runs_between (first_shndx named) text_base text_data text_end text_base named

abbrev pub by_value : StaticSymbol → StaticSymbol → Bool
by_value a b = leb a.value b.value

unfoldable pub text_functions : SymtabIndex → List StaticSymbol
unfolding collect_text_functions sort_by
text_functions index =
    let fns = collect_text_functions index.symbols index.text_shndx index.text_end in
    if is_empty index.orphans then fns else sort_by by_value (fns ++ index.orphans)
