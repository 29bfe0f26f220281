-- ===== src/Symbols/Dynamic.antt =====
-- crates/delink-core/src/symbols.rs: the dynamic relocations, and the slots of the GOT.
pub mod RoundTrip
pub mod Slots
use delink.Prelude.{
  ℕ, ◌+◌, ◌*◌, ◌/◌, ◌%◌, ◌^◌, Bool, true, false, Option, none, some, List, [], ◌∷◌, ◌++◌, take,
  drop, length, leb, ◌==◌, if◌then◌else◌, unwrap_or,
}
use delink.Prelude.Text.{Str, codes}
use delink.Prelude.Eq.{nat_eq}
use delink.Prelude.Int.{ℤ, pos}
use delink.Prelude.Bytes.{slice, from_le_bytes}
use delink.Prelude.Words.{as_i64, as_u64, sign_extend_u32, add_u64}
use delink.Collections.HashMap
use delink.Collections.HashMap.{HashMap}
use delink.Arch.{Arch, ElfClass, rel_entsize, rela_entsize, sym_entsize}
use delink.Symtab.Read.{chunks_exact, position_zero, field}
use delink.Binary.{Binary, ElfSection, read_word_at}

pub record DynReloc : Type 0 where
  pub r_offset : ℕ
  pub r_type : ℕ
  pub r_sym : ℕ
  pub r_addend : ℤ
  pub sym_name : Str
  pub from_plt_section : Bool

-- The fields of an entry before they are interpreted.
pub record RawReloc : Type 0 where
  pub raw_offset : ℕ
  pub raw_info : ℕ
  pub explicit_addend : ℤ

-- An i32 in four bytes, as an i64.
abbrev pub i32_field : ℕ → List ℕ → ℤ
i32_field from chunk = as_i64 (sign_extend_u32 (field from 4 chunk))

abbrev pub i64_field : ℕ → List ℕ → ℤ
i64_field from chunk = as_i64 (field from 8 chunk)

unfoldable pub parse_raw : ElfClass → (is_rela : Bool) → List ℕ → RawReloc
unfolding from_le_bytes as_i64 sign_extend_u32
parse_raw ElfClass.elf32 is_rela chunk = record {
  raw_offset = field 0 4 chunk;
  raw_info = field 4 4 chunk;
  explicit_addend = if is_rela then i32_field 8 chunk else pos 0;
}
parse_raw ElfClass.elf64 is_rela chunk = record {
  raw_offset = field 0 8 chunk;
  raw_info = field 8 8 chunk;
  explicit_addend = if is_rela then i64_field 16 chunk else pos 0;
}

-- ELF32 packs (sym << 8 | type) and ELF64 (sym << 32 | type).
unfoldable pub sym_of : ElfClass → ℕ → ℕ
sym_of ElfClass.elf32 info = info / 2 ^ 8
sym_of ElfClass.elf64 info = info / 2 ^ 32

unfoldable pub type_of : ElfClass → ℕ → ℕ
type_of ElfClass.elf32 info = info % 2 ^ 8
type_of ElfClass.elf64 info = info % 2 ^ 32

-- `sign_extend(class)`, which keeps the value of a word of an ELF32 file.
unfoldable pub sign_extend : ElfClass → ℕ → ℤ
unfolding as_i64
sign_extend ElfClass.elf32 v = pos (v % 2 ^ 32)
sign_extend ElfClass.elf64 v = as_i64 v

-- The addend of an entry without one stands in the word that it relocates.
unfoldable pub implicit_addend : Binary → ℕ → ℤ
unfolding read_word_at sign_extend
implicit_addend binary r_offset = elim (read_word_at binary r_offset) [
  | none ↦ pos 0
  | some v ↦ sign_extend binary.class v
]

abbrev pub section_bytes : Option ElfSection → List ℕ
section_bytes none = []
section_bytes (some s) = unwrap_or s.section_data []

-- The size of an entry.
unfoldable pub entsize : ElfClass → Bool → ℕ
unfolding rela_entsize rel_entsize
entsize class is_rela = if is_rela then rela_entsize class else rel_entsize class

module _ (from_utf8 : List ℕ → Option Str) where
  unfoldable pub read_cstr : List ℕ → ℕ → Option Str
  unfolding position_zero
  read_cstr bytes offset =
      if leb (length bytes) offset
      then none
      else from_utf8 (take (unwrap_or (position_zero (drop offset bytes)) 0) (drop offset bytes))

  -- The name of a dynamic symbol, by its index.
  unfoldable pub symbol_name : ElfClass → (dynsym dynstr : List ℕ) → ℕ → Str
  unfolding read_cstr slice from_le_bytes sym_entsize
  symbol_name class dynsym dynstr r_sym =
      let sym_off = r_sym * sym_entsize class in
      let named : Str = elim (slice dynsym sym_off (sym_off + 4)) [
        | none ↦ []
        | some st_name ↦ unwrap_or (read_cstr dynstr (from_le_bytes st_name)) []
      ] in
      if r_sym == 0 then [] else named

  unfoldable pub dyn_reloc :
      Binary → (is_rela from_plt : Bool) → (dynsym dynstr : List ℕ) → RawReloc → DynReloc
  unfolding sym_of type_of implicit_addend symbol_name
  dyn_reloc binary is_rela from_plt dynsym dynstr raw =
      let r_sym = sym_of binary.class raw.raw_info in
      record {
        r_offset = raw.raw_offset;
        r_type = type_of binary.class raw.raw_info;
        r_sym = r_sym;
        r_addend = if is_rela then raw.explicit_addend else implicit_addend binary raw.raw_offset;
        sym_name = symbol_name binary.class dynsym dynstr r_sym;
        from_plt_section = from_plt;
      }

  unfoldable pub read_relocs :
      Binary → (is_rela from_plt : Bool) → (dynsym dynstr : List ℕ) → List (List ℕ) → List DynReloc
  unfolding parse_raw dyn_reloc
  read_relocs binary is_rela from_plt dynsym dynstr [] = []
  read_relocs binary is_rela from_plt dynsym dynstr (chunk ∷ chunks) =
      dyn_reloc binary is_rela from_plt dynsym dynstr (parse_raw binary.class is_rela chunk)
      ∷ read_relocs binary is_rela from_plt dynsym dynstr chunks

  -- An absent section holds nothing; one that cannot be read is an error.
  unfoldable pub read_dyn_reloc_section :
      Binary → Str → (is_rela from_plt : Bool) → Option (List DynReloc)
  unfolding read_relocs chunks_exact entsize
  read_dyn_reloc_section binary name is_rela from_plt = elim (binary.section_by_name name) [
    | none ↦ some []
    | some section ↦ elim (section.section_data) [
      | none ↦ none
      | some bytes ↦ some (
          read_relocs binary is_rela from_plt
            (section_bytes (binary.section_by_name (codes ".dynsym")))
            (section_bytes (binary.section_by_name (codes ".dynstr")))
            (chunks_exact (length bytes) (entsize binary.class is_rela) bytes))
    ]
  ]

  infixl 65 ◌then_relocs◌
  abbrev ◌then_relocs◌ : Option (List DynReloc) → Option (List DynReloc) → Option (List DynReloc)
  none then_relocs more = none
  some relocs then_relocs none = none
  some relocs then_relocs some more = some (relocs ++ more)

  -- The four sections; only the names of `.rel.plt` and `.rela.plt` end in `.plt`.
  unfoldable pub read_all_dyn_relocs : Binary → Option (List DynReloc)
  unfolding read_dyn_reloc_section
  read_all_dyn_relocs binary =
      read_dyn_reloc_section binary (codes ".rel.dyn") false false
      then_relocs read_dyn_reloc_section binary (codes ".rel.plt") false true
      then_relocs read_dyn_reloc_section binary (codes ".rela.dyn") true false
      then_relocs read_dyn_reloc_section binary (codes ".rela.plt") true true

-- `R_AARCH64_RELATIVE` and `R_ARM_RELATIVE` of the ELF ABIs.
unfoldable pub is_relative_reloc : Arch → ℕ → Bool
is_relative_reloc Arch.aarch64 r_type = r_type == 1027
is_relative_reloc Arch.arm r_type = r_type == 23

abbrev pub is_empty : Str → Bool
is_empty [] = true
is_empty (c ∷ cs) = false

-- One round of the loop of `build_got_maps`, for the names and for the module-local addresses.
unfoldable pub add_name : DynReloc → HashMap ℕ Str → HashMap ℕ Str
unfolding HashMap.insert
add_name rel named =
    if is_empty rel.sym_name then named else HashMap.insert rel.r_offset rel.sym_name named

unfoldable pub add_local : Arch → DynReloc → HashMap ℕ ℕ → HashMap ℕ ℕ
unfolding is_relative_reloc HashMap.insert as_u64
add_local arch rel local =
    let inserted = HashMap.insert rel.r_offset (as_u64 rel.r_addend) local in
    let unnamed = if is_relative_reloc arch rel.r_type then inserted else local in
    if is_empty rel.sym_name then unnamed else local

unfoldable pub build_got_maps_from :
    Arch → List DynReloc → HashMap ℕ Str → HashMap ℕ ℕ → HashMap ℕ Str × HashMap ℕ ℕ
unfolding add_name add_local
build_got_maps_from arch [] named local = (named, local)
build_got_maps_from arch (rel ∷ rels) named local =
    build_got_maps_from arch rels (add_name rel named) (add_local arch rel local)

unfoldable pub build_got_maps : Arch → List DynReloc → HashMap ℕ Str × HashMap ℕ ℕ
unfolding build_got_maps_from
build_got_maps arch rels = build_got_maps_from arch rels [] []
