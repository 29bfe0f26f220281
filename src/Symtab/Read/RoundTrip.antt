-- ===== src/Symtab/Read/RoundTrip.antt =====
-- crates/delink-core/src/symtab.rs, `read_symtab`: a table that is laid out by the ELF format is read back.
use delink.Prelude.{
  ℕ, ◌^◌, ◌<◌, ◌≡◌, refl, ap, ◌∙◌, some, List, [], ◌∷◌, ◌++◌, map, length, arith, All,
}
use delink.Prelude.Text.{Str}
use delink.Prelude.Bytes.{to_le_bytes, from_le_bytes-to_le_bytes}
use delink.Arch.{Arch, ElfClass, sym_entsize}
use delink.Symtab.Read.Chunks.{encode_all, chunks_exact-encode_all}
use delink.Symtab.Read.{Entry, parse_entry, symbol_of, read_entries, read_symtab}

-- `Elf32_Sym` and `Elf64_Sym`, `st_other` being zero.
unfoldable pub encode_entry : ElfClass → Entry → List ℕ
unfolding to_le_bytes
encode_entry ElfClass.elf32 e =
    to_le_bytes 4 e.st_name
    ++ (to_le_bytes 4 e.st_value
        ++ (to_le_bytes 4 e.st_size
            ++ (to_le_bytes 1 e.st_info ++ (to_le_bytes 1 0 ++ to_le_bytes 2 e.st_shndx))))
encode_entry ElfClass.elf64 e =
    to_le_bytes 4 e.st_name
    ++ (to_le_bytes 1 e.st_info
        ++ (to_le_bytes 1 0
            ++ (to_le_bytes 2 e.st_shndx ++ (to_le_bytes 8 e.st_value ++ to_le_bytes 8 e.st_size))))

abbrev pub encode_entries : ElfClass → List Entry → List ℕ
encode_entries class es = encode_all (encode_entry class) es

-- The width of an address.
abbrev pub word_bytes : ElfClass → ℕ
word_bytes ElfClass.elf32 = 4
word_bytes ElfClass.elf64 = 8

-- The fields have the widths of the format.
pub record IsEntry (class : ElfClass) (e : Entry) : Type 0 where
  pub name_bound : e.st_name < 256 ^ 4
  pub value_bound : e.st_value < 256 ^ word_bytes class
  pub size_bound : e.st_size < 256 ^ word_bytes class
  pub info_bound : e.st_info < 256 ^ 1
  pub shndx_bound : e.st_shndx < 256 ^ 2

parse_entry-encode_entry :
    (class : ElfClass) (e : Entry) → IsEntry class e → parse_entry class (encode_entry class e) ≡ e
unfolding parse_entry encode_entry to_le_bytes
parse_entry-encode_entry ElfClass.elf32 e h = rw (
  from_le_bytes-to_le_bytes 4 e.st_name h.name_bound,
  from_le_bytes-to_le_bytes 4 e.st_value h.value_bound,
  from_le_bytes-to_le_bytes 4 e.st_size h.size_bound,
  from_le_bytes-to_le_bytes 1 e.st_info h.info_bound,
  from_le_bytes-to_le_bytes 2 e.st_shndx h.shndx_bound,
)
parse_entry-encode_entry ElfClass.elf64 e h = rw (
  from_le_bytes-to_le_bytes 4 e.st_name h.name_bound,
  from_le_bytes-to_le_bytes 8 e.st_value h.value_bound,
  from_le_bytes-to_le_bytes 8 e.st_size h.size_bound,
  from_le_bytes-to_le_bytes 1 e.st_info h.info_bound,
  from_le_bytes-to_le_bytes 2 e.st_shndx h.shndx_bound,
)

length-encode_entry :
    (class : ElfClass) (e : Entry) → length (encode_entry class e) ≡ sym_entsize class
unfolding encode_entry sym_entsize to_le_bytes
length-encode_entry ElfClass.elf32 e = refl
length-encode_entry ElfClass.elf64 e = refl

sym_entsize-pos : (class : ElfClass) → 0 < sym_entsize class
unfolding sym_entsize
sym_entsize-pos ElfClass.elf32 = omega arith
sym_entsize-pos ElfClass.elf64 = omega arith

read_entries-encode_entry :
    (lossy : List ℕ → Str) (class : ElfClass) (arch : Arch) (str_data : List ℕ) (es : List Entry)
    → All (IsEntry class) es
    → read_entries lossy class arch str_data (map (encode_entry class) es)
      ≡ map (symbol_of lossy arch str_data) es
unfolding read_entries
read_entries-encode_entry lossy class arch str_data [] h = refl
read_entries-encode_entry lossy class arch str_data (e ∷ es) h = rw (
  parse_entry-encode_entry class e h.0,
  read_entries-encode_entry lossy class arch str_data es h.1,
)

-- A symbol table that is laid out by the ELF format of either class, entry after entry, is read
-- back as the symbols of its entries, in order and none missing.
pub read_symtab-encode_entries :
    (lossy : List ℕ → Str) (class : ElfClass) (arch : Arch) (str_data : List ℕ) (es : List Entry)
    → All (IsEntry class) es
    → read_symtab lossy class arch (some (some (encode_entries class es))) (some (some str_data))
      ≡ some (map (symbol_of lossy arch str_data) es)
unfolding read_symtab
read_symtab-encode_entries lossy class arch str_data es h = ap some (
    ap (read_entries lossy class arch str_data) (
      chunks_exact-encode_all (encode_entry class) (sym_entsize class) (length-encode_entry class)
        (sym_entsize-pos class) es (length (encode_entries class es)) (omega arith))
    ∙ read_entries-encode_entry lossy class arch str_data es h)
