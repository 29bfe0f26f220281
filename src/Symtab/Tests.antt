-- ===== src/Symtab/Tests.antt =====
-- A small table of symbols over a `.text` of six words.
use delink.Prelude.{
  ℕ, ◌≤◌, ◌<◌, ◌+◌, ◌-◌, ◌^◌, ◌≡◌, refl, ◌⊎◌, inl, inr, some, List, [], ◌∷◌, ◌++◌, arith, All, Any,
  map,
}
use delink.Prelude.Text.{Str, codes}
use delink.Symtab.{StaticSymbol, FileGroup, collect_text_functions}
use delink.Arch.{Arch, ElfClass}
use delink.Symtab.Read.{Entry, symbol_of, read_symtab}
use delink.Symtab.Read.RoundTrip.{IsEntry, encode_entries, read_symtab-encode_entries}
use delink.Symtab.Layout.{IsLaidOut, IsFrom, collect_text_functions-IsFrom}
use delink.Symtab.Cover.{Holds, collect_text_functions-Holds}
use delink.Symtab.Orphans.{find_orphan_regions, text_functions}
use delink.Symtab.Orphans.Cover.{IsPadded}
use delink.Symtab.Index.{
  TextSection, build, sorted_anchors, attribute_to, attribute_functions, text_coverage,
}
use delink.Symtab.Index.Built.{build-IsLaidOut, build-Holds, text_coverage-le}
use delink.Symtab.Index.Anchors.{IsNearest, attribute_to-IsNearest}
use delink.Symtab.Index.Units.{unit_of, function_of, to_cu_index}
use delink.Symtab.Index.Units.Partition.{functions_in, AreDistinct, to_cu_index-partition}

abbrev pub symbol : Str → ℕ → ℕ → ℕ → StaticSymbol
symbol name value size sym_type = record {
  name = name;
  value = value;
  size = size;
  sym_type = sym_type;
  bind = 0;
  shndx = 1;
}

abbrev file_symbol : StaticSymbol
file_symbol = symbol (codes "main.c") 0 0 4

abbrev main_symbol : StaticSymbol
main_symbol = symbol (codes "main") 0x1000 8 2

abbrev helper_symbol : StaticSymbol
helper_symbol = symbol (codes "helper") 0x100c 0 2

abbrev pub symbols : List StaticSymbol
symbols = file_symbol ∷ helper_symbol ∷ main_symbol ∷ []

-- One word of padding before `helper`, which has no size of its own.
abbrev text_bytes : List ℕ
text_bytes =
    1 ∷ 0 ∷ 0 ∷ 0 ∷ 2 ∷ 0 ∷ 0 ∷ 0 ∷ 0 ∷ 0 ∷ 0 ∷ 0 ∷ 3 ∷ 0 ∷ 0 ∷ 0 ∷ 4 ∷ 0 ∷ 0 ∷ 0 ∷ 5 ∷ 0 ∷ 0 ∷ 0
    ∷ []

abbrev text : TextSection
text = record { index = 1; address = 0x1000; size = 24; bytes = some text_bytes }

abbrev fits : All (λ s. s.value + s.size < 2 ^ 64) symbols
fits = (omega arith, (omega arith, (omega arith, tt)))

build-IsLaidOut_example : IsLaidOut 0 (text_functions (build symbols (some text)))
build-IsLaidOut_example = build-IsLaidOut symbols (some text) fits

build-Holds_example :
    Any (Holds 0x1009) (text_functions (build symbols (some text)))
    ⊎ IsPadded 0x1000 text_bytes 0x1009
build-Holds_example =
    build-Holds symbols text text_bytes 0x1009 fits refl refl (omega arith)
      (omega arith, (omega arith, (omega arith, tt))) (omega arith) (omega arith)

collect_text_functions-Holds_example :
    Any (Holds 0x100c) (collect_text_functions symbols (some 1) 0x1018)
collect_text_functions-Holds_example =
    collect_text_functions-Holds symbols (some 1) 0x1018 (omega arith) fits 0x100c (omega arith)
      (inr (inl (refl, refl)))

collect_text_functions-IsFrom_example :
    All (λ f. Any (IsFrom (some 1) f) symbols) (collect_text_functions symbols (some 1) 0x1018)
collect_text_functions-IsFrom_example = collect_text_functions-IsFrom symbols (some 1) 0x1018

abbrev pub groups : List FileGroup
groups = (build symbols (some text)).groups

attribute_to-IsNearest_example :
    IsNearest groups 0x100c (attribute_to (sorted_anchors groups) helper_symbol)
attribute_to-IsNearest_example = attribute_to-IsNearest groups helper_symbol

to_cu_index-partition_example :
    let index = build symbols (some text) in
    let units = (to_cu_index index).units in
    All (λ u. u.functions ≡ map function_of (functions_in u.name (attribute_functions index))) units
    × AreDistinct (map (λ u. u.name) units)
    × All
        (λ e. Any (λ name. name ≡ unit_of e) (map (λ u. u.name) units))
        (attribute_functions index)
to_cu_index-partition_example = to_cu_index-partition (build symbols (some text))

-- The functions are `main`, then `helper` up to the end of `.text`.
abbrev pub functions : List StaticSymbol
functions = main_symbol ∷ record helper_symbol { size = 12 } ∷ []

lists_functions : text_functions (build symbols (some text)) ≡ functions
unfolding text_functions build find_orphan_regions
lists_functions = refl

sized_inside :
    All
      (λ f. (0x1000 ≤ f.value) × (f.value + f.size ≤ 0x1018))
      (text_functions (build symbols (some text)))
sized_inside = rw lists_functions ((omega arith, omega arith), ((omega arith, omega arith), tt))

text_coverage-le_example : text_coverage (build symbols (some text)) ≤ 0x1018 - 0x1000
text_coverage-le_example =
    text_coverage-le symbols (some text) 0x1000 0x1018 fits sized_inside (omega arith) (omega arith)

abbrev entries : List Entry
entries =
    record { st_name = 1; st_value = 0x1000; st_size = 8; st_info = 0x12; st_shndx = 1 }
    ∷ record { st_name = 6; st_value = 0x100d; st_size = 0; st_info = 0x02; st_shndx = 1 }
    ∷ []

abbrev strtab : List ℕ
strtab = 0 ∷ (codes "main" ++ (0 ∷ (codes "helper" ++ (0 ∷ []))))

abbrev widths :
    (e : Entry)
    → e.st_name < 256
    → e.st_value < 256 ^ 4
    → e.st_size < 256
    → e.st_info < 256
    → e.st_shndx < 256
    → IsEntry ElfClass.elf32 e
widths e a b c d f = record {
  name_bound = omega arith;
  value_bound = b;
  size_bound = omega arith;
  info_bound = omega arith;
  shndx_bound = omega arith;
}

entries-IsEntry : All (IsEntry ElfClass.elf32) entries
entries-IsEntry = (
  widths _ (omega arith) (omega arith) (omega arith) (omega arith) (omega arith),
  (widths _ (omega arith) (omega arith) (omega arith) (omega arith) (omega arith), tt),
)

-- The Thumb tag of `helper` is cleared.
reads_helper :
    symbol_of
      (λ bytes. bytes)
      Arch.arm
      strtab
      (record { st_name = 6; st_value = 0x100d; st_size = 0; st_info = 0x02; st_shndx = 1 })
    ≡ record { name = codes "helper"; value = 0x100c; size = 0; sym_type = 2; bind = 0; shndx = 1 }
unfolding symbol_of
reads_helper = refl

read_symtab-encode_entries_example :
    read_symtab
      (λ bytes. bytes)
      ElfClass.elf32
      Arch.arm
      (some (some (encode_entries ElfClass.elf32 entries)))
      (some (some strtab))
    ≡ some (map (symbol_of (λ bytes. bytes) Arch.arm strtab) entries)
read_symtab-encode_entries_example =
    read_symtab-encode_entries (λ bytes. bytes) ElfClass.elf32 Arch.arm strtab entries
      entries-IsEntry
