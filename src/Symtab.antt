-- ===== src/Symtab.antt =====
-- crates/delink-core/src/symtab.rs: the static symbols, and the functions of `.text` that they name.
pub mod Layout
pub mod Read
pub mod Cover
pub mod Orphans
pub mod Index
mod Tests
use delink.Prelude.{
  ℕ, ◌+◌, ◌-◌, ◌*◌, ◌/◌, max, Bool, true, false, ◌&&◌, ◌||◌, not, Option, none, some, List, [], ◌∷◌,
  ◌++◌, ltb, leb, ◌==◌, if◌then◌else◌, is_some,
}
use delink.Prelude.Text.{Str}
use delink.Prelude.Words.{add_u64}
use delink.Collections.Sort.{sort_by, dedup_by_key}
use delink.Collections.Filter.{retain}

pub record StaticSymbol : Type 0 where
  pub name : Str
  pub value : ℕ
  pub size : ℕ
  pub sym_type : ℕ
  pub bind : ℕ
  pub shndx : ℕ

pub record FileGroup : Type 0 where
  pub file : Str
  pub anchor : Option ℕ
  pub locals : List StaticSymbol

pub record SymtabIndex : Type 0 where
  pub symbols : List StaticSymbol
  pub groups : List FileGroup
  pub text_shndx : Option ℕ
  pub text_end : ℕ
  pub orphans : List StaticSymbol

abbrev pub stt_object : ℕ
stt_object = 1

abbrev pub stt_func : ℕ
stt_func = 2

abbrev pub stt_file : ℕ
stt_file = 4

abbrev pub stb_local : ℕ
stb_local = 0

abbrev pub is_local : StaticSymbol → Bool
is_local s = s.bind == stb_local

-- `Some(shndx) == text_shndx`
abbrev pub is_section : Option ℕ → ℕ → Bool
is_section none n = false
is_section (some i) n = n == i

abbrev pub is_empty {ℓ} : {A : Type ℓ} → List A → Bool
is_empty [] = true
is_empty (x ∷ xs) = false

-- `a.name.cmp(&b.name) != Greater`, byte by byte.
unfoldable pub str_leb : Str → Str → Bool
str_leb [] b = true
str_leb (x ∷ a) [] = false
str_leb (x ∷ a) (y ∷ b) = ltb x y || (x == y && str_leb a b)

abbrev pub is_text_function : Option ℕ → StaticSymbol → Bool
is_text_function text_shndx s =
    s.sym_type == stt_func && is_section text_shndx s.shndx && not (is_empty s.name)

-- The order of the sort: by address, then a size before none, then by name.
unfoldable pub not_after : StaticSymbol → StaticSymbol → Bool
unfolding str_leb
not_after a b =
    let by_size =
      if a.size == 0
      then (if b.size == 0 then str_leb a.name b.name else false)
      else (if b.size == 0 then true else str_leb a.name b.name) in
    if ltb a.value b.value then true else if ltb b.value a.value then false else by_size

-- The address where the next symbol starts, or the end of `.text`.
abbrev pub next_value : ℕ → List StaticSymbol → ℕ
next_value text_end [] = text_end
next_value text_end (s ∷ fns) = s.value

abbrev pub with_size : StaticSymbol → ℕ → StaticSymbol
with_size s n = record s { size = n }

-- A missing size reaches up to the next symbol.
abbrev pub infer_size : ℕ → StaticSymbol → List StaticSymbol → StaticSymbol
infer_size text_end s fns =
    if s.size == 0 then with_size s (max (next_value text_end fns) s.value - s.value) else s

unfoldable pub infer_sizes : ℕ → List StaticSymbol → List StaticSymbol
infer_sizes text_end [] = []
infer_sizes text_end (s ∷ fns) = infer_size text_end s fns ∷ infer_sizes text_end fns

-- Symbols that start below the end of the one kept last are folded into it.
unfoldable pub keep_outer : ℕ → List StaticSymbol → List StaticSymbol
keep_outer end [] = []
keep_outer end (f ∷ fns) =
    let skipped = keep_outer end fns in
    let kept = keep_outer (add_u64 f.value f.size) fns in
    if ltb f.value end then skipped else f ∷ kept

abbrev pub has_size : StaticSymbol → Bool
has_size s = ltb 0 s.size

abbrev pub value_of : StaticSymbol → ℕ
value_of s = s.value

-- The named functions, one for each address.
unfoldable pub unique_functions : List StaticSymbol → Option ℕ → List StaticSymbol
unfolding not_after sort_by dedup_by_key retain
unique_functions symbols text_shndx =
    dedup_by_key value_of (sort_by not_after (retain (is_text_function text_shndx) symbols))

unfoldable pub collect_text_functions : List StaticSymbol → Option ℕ → ℕ → List StaticSymbol
unfolding unique_functions infer_sizes keep_outer retain
collect_text_functions symbols text_shndx text_end =
    keep_outer 0 (retain has_size (infer_sizes text_end (unique_functions symbols text_shndx)))
