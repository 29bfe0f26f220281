-- ===== src/Symtab/Read.antt =====
-- crates/delink-core/src/symtab.rs, `read_symtab`: the entries of `.symtab`.
pub mod RoundTrip
pub mod Chunks
use delink.Prelude.{
  ℕ, zero, suc, ◌+◌, ◌-◌, ◌/◌, ◌%◌, Bool, true, false, ◌&&◌, Option, none, some, List, [], ◌∷◌, map,
  take, drop, length, leb, ◌==◌, if◌then◌else◌, unwrap_or,
}
use delink.Prelude.Text.{Str}
use delink.Prelude.Bytes.{from_le_bytes}
use delink.Arch.{Arch, ElfClass, sym_entsize}
use delink.Symtab.{StaticSymbol, stt_func}

-- `data.chunks_exact(n)`: whole chunks only. Each round takes a byte at least.
unfoldable pub chunks_exact : (rounds n : ℕ) → List ℕ → List (List ℕ)
chunks_exact zero n bytes = []
chunks_exact (suc rounds) n bytes =
    let rest = chunks_exact rounds n (drop n bytes) in
    if leb n (length bytes) then take n bytes ∷ rest else []

-- `iter().position(|&b| b == 0)`
unfoldable pub position_zero : List ℕ → Option ℕ
position_zero [] = none
position_zero (b ∷ bytes) =
    let rest = position_zero bytes in
    if b == 0 then some 0 else elim rest [ none ↦ none | some i ↦ some (suc i) ]

-- A little-endian field of `n` bytes of an entry.
abbrev pub field : (from n : ℕ) → List ℕ → ℕ
field from n chunk = from_le_bytes (take n (drop from chunk))

-- What both layouts of an entry hold.
pub record Entry : Type 0 where
  pub st_name : ℕ
  pub st_value : ℕ
  pub st_size : ℕ
  pub st_info : ℕ
  pub st_shndx : ℕ

unfoldable pub parse_entry : ElfClass → List ℕ → Entry
unfolding from_le_bytes
parse_entry ElfClass.elf32 chunk = record {
  st_name = field 0 4 chunk;
  st_value = field 4 4 chunk;
  st_size = field 8 4 chunk;
  st_info = field 12 1 chunk;
  st_shndx = field 14 2 chunk;
}
parse_entry ElfClass.elf64 chunk = record {
  st_name = field 0 4 chunk;
  st_value = field 8 8 chunk;
  st_size = field 16 8 chunk;
  st_info = field 4 1 chunk;
  st_shndx = field 6 2 chunk;
}

abbrev pub is_arm : Arch → Bool
is_arm Arch.arm = true
is_arm Arch.aarch64 = false

module _ (from_utf8_lossy : List ℕ → Str) where
  -- The name at an offset of `.strtab`, up to its zero byte.
  unfoldable pub read_name : List ℕ → ℕ → Str
  unfolding position_zero
  read_name str_data off =
      if leb (length str_data) off
      then []
      else from_utf8_lossy
          (take (unwrap_or (position_zero (drop off str_data)) 0) (drop off str_data))

  -- Bit 0 of an ARM function's value is the Thumb tag, which `& !1` clears.
  unfoldable pub symbol_of : Arch → List ℕ → Entry → StaticSymbol
  unfolding read_name
  symbol_of arch str_data e =
      let sym_type = e.st_info % 16 in
      record {
        name = read_name str_data e.st_name;
        value =
            if is_arm arch && sym_type == stt_func then e.st_value - e.st_value % 2 else e.st_value;
        size = e.st_size;
        sym_type = sym_type;
        bind = e.st_info / 16;
        shndx = e.st_shndx;
      }

  unfoldable pub read_entries : ElfClass → Arch → List ℕ → List (List ℕ) → List StaticSymbol
  unfolding parse_entry symbol_of
  read_entries class arch str_data [] = []
  read_entries class arch str_data (chunk ∷ chunks) =
      symbol_of arch str_data (parse_entry class chunk) ∷ read_entries class arch str_data chunks

  -- A section is absent, or its bytes cannot be read, or here they are.
  unfoldable pub read_symtab :
      ElfClass
      → Arch
      → Option (Option (List ℕ))
      → Option (Option (List ℕ))
      → Option (List StaticSymbol)
  unfolding read_entries chunks_exact sym_entsize
  read_symtab class arch none strtab = some []
  read_symtab class arch (some symtab) none = some []
  read_symtab class arch (some none) (some strtab) = none
  read_symtab class arch (some (some sym_data)) (some none) = none
  read_symtab class arch (some (some sym_data)) (some (some str_data)) = some (
      read_entries class arch str_data
        (chunks_exact (length sym_data) (sym_entsize class) sym_data))
