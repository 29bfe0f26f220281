-- ===== src/Symbols/Dynamic/RoundTrip.antt =====
-- crates/delink-core/src/symbols.rs, `read_dyn_reloc_section`: entries that are laid out by the ELF format
-- are read back.
use delink.Prelude.{
  ℕ, ◌+◌, ◌*◌, ◌^◌, ◌<◌, ◌≡◌, refl, ap, Bool, true, false, Option, some, List, [], ◌∷◌, ◌++◌, map,
  length, All, arith, if◌then◌else◌,
}
use delink.Prelude.Text.{Str, codes}
use delink.Prelude.Int.{ℤ, pos, negsuc}
use delink.Prelude.Bytes.{to_le_bytes, from_le_bytes-to_le_bytes}
use delink.Prelude.Words.{as_i64, as_u64, as_u64-lt, as_u32, sign_extend_u32}
use delink.Arch.{ElfClass, rel_entsize, rela_entsize}
use delink.Symtab.Read.Chunks.{encode_all, chunks_exact-encode_all}
use delink.Binary.{Binary, ElfSection}
use delink.Symbols.Dynamic.{
  DynReloc, RawReloc, parse_raw, sym_of, type_of, implicit_addend, symbol_name, section_bytes,
  dyn_reloc, read_relocs, entsize, read_dyn_reloc_section,
}

-- An entry of a section of dynamic relocations, as the linker means it.
pub record Entry : Type 0 where
  pub offset : ℕ
  pub symbol : ℕ
  pub kind : ℕ
  pub addend : ℤ

-- The symbol and the type in one word.
abbrev info : ElfClass → Entry → ℕ
info ElfClass.elf32 e = e.symbol * 2 ^ 8 + e.kind
info ElfClass.elf64 e = e.symbol * 2 ^ 32 + e.kind

abbrev addend_bytes : ElfClass → Bool → ℤ → List ℕ
addend_bytes class false z = []
addend_bytes ElfClass.elf32 true z = to_le_bytes 4 (as_u32 z)
addend_bytes ElfClass.elf64 true z = to_le_bytes 8 (as_u64 z)

-- `Elf32_Rel`, `Elf32_Rela`, `Elf64_Rel` and `Elf64_Rela`.
unfoldable pub encode_reloc : ElfClass → Bool → Entry → List ℕ
unfolding to_le_bytes as_u32 as_u64
encode_reloc ElfClass.elf32 is_rela e =
    to_le_bytes 4 e.offset
    ++ (to_le_bytes 4 (info ElfClass.elf32 e) ++ addend_bytes ElfClass.elf32 is_rela e.addend)
encode_reloc ElfClass.elf64 is_rela e =
    to_le_bytes 8 e.offset
    ++ (to_le_bytes 8 (info ElfClass.elf64 e) ++ addend_bytes ElfClass.elf64 is_rela e.addend)

-- An i32 or an i64.
abbrev pub IsSigned : ℕ → ℤ → Type 0
IsSigned bound (pos n) = n < bound
IsSigned bound (negsuc n) = n < bound

-- The fields have the widths of the format.
abbrev pub IsReloc : ElfClass → Entry → Type 0
IsReloc ElfClass.elf32 e =
    (e.offset < 2 ^ 32) × (e.symbol < 2 ^ 24) × (e.kind < 2 ^ 8) × IsSigned (2 ^ 31) e.addend
IsReloc ElfClass.elf64 e =
    (e.offset < 2 ^ 64) × (e.symbol < 2 ^ 32) × (e.kind < 2 ^ 32) × IsSigned (2 ^ 63) e.addend

as_u32-lt : (z : ℤ) → as_u32 z < 2 ^ 32
unfolding as_u32
as_u32-lt z = omega arith

as_i64-as_u64 : (z : ℤ) → IsSigned (2 ^ 63) z → as_i64 (as_u64 z) ≡ z
unfolding as_i64 as_u64
as_i64-as_u64 (pos n) h = ground arith
as_i64-as_u64 (negsuc n) h = ground arith

as_i64-as_u32 : (z : ℤ) → IsSigned (2 ^ 31) z → as_i64 (sign_extend_u32 (as_u32 z)) ≡ z
unfolding as_i64 as_u32 as_u64 sign_extend_u32
as_i64-as_u32 (pos n) h = ground arith
as_i64-as_u32 (negsuc n) h = ground arith

-- What an entry says, with the addend that stands in the file where the entry has none.
abbrev meant :
    (from_utf8 : List ℕ → Option Str)
    → Binary
    → (is_rela from_plt : Bool) → (dynsym dynstr : List ℕ) → Entry
    → DynReloc
meant from_utf8 binary is_rela from_plt dynsym dynstr e = record {
  r_offset = e.offset;
  r_type = e.kind;
  r_sym = e.symbol;
  r_addend = if is_rela then e.addend else implicit_addend binary e.offset;
  sym_name = symbol_name from_utf8 binary.class dynsym dynstr e.symbol;
  from_plt_section = from_plt;
}

-- The fields before they are interpreted.
abbrev raw : ElfClass → Bool → Entry → RawReloc
raw class is_rela e = record {
  raw_offset = e.offset;
  raw_info = info class e;
  explicit_addend = if is_rela then e.addend else pos 0;
}

parse_raw-encode_reloc :
    (class : ElfClass) (is_rela : Bool) (e : Entry)
    → IsReloc class e
    → parse_raw class is_rela (encode_reloc class is_rela e) ≡ raw class is_rela e
unfolding parse_raw encode_reloc to_le_bytes
parse_raw-encode_reloc ElfClass.elf32 false e h = rw (
  from_le_bytes-to_le_bytes 4 e.offset (omega (arith, h.0)),
  from_le_bytes-to_le_bytes 4 (info ElfClass.elf32 e) (omega (arith, h.1, h.2)),
)
parse_raw-encode_reloc ElfClass.elf32 true e h = rw (
  from_le_bytes-to_le_bytes 4 e.offset (omega (arith, h.0)),
  from_le_bytes-to_le_bytes 4 (info ElfClass.elf32 e) (omega (arith, h.1, h.2)),
  from_le_bytes-to_le_bytes 4 (as_u32 e.addend) (as_u32-lt e.addend),
  as_i64-as_u32 e.addend h.3,
)
parse_raw-encode_reloc ElfClass.elf64 false e h = rw (
  from_le_bytes-to_le_bytes 8 e.offset (omega (arith, h.0)),
  from_le_bytes-to_le_bytes 8 (info ElfClass.elf64 e) (omega (arith, h.1, h.2)),
)
parse_raw-encode_reloc ElfClass.elf64 true e h = rw (
  from_le_bytes-to_le_bytes 8 e.offset (omega (arith, h.0)),
  from_le_bytes-to_le_bytes 8 (info ElfClass.elf64 e) (omega (arith, h.1, h.2)),
  from_le_bytes-to_le_bytes 8 (as_u64 e.addend) (as_u64-lt e.addend),
  as_i64-as_u64 e.addend h.3,
)

sym_of-info :
    (class : ElfClass) (e : Entry) → IsReloc class e → sym_of class (info class e) ≡ e.symbol
unfolding sym_of
sym_of-info ElfClass.elf32 e h = omega (arith, h.2)
sym_of-info ElfClass.elf64 e h = omega (arith, h.2)

type_of-info :
    (class : ElfClass) (e : Entry) → IsReloc class e → type_of class (info class e) ≡ e.kind
unfolding type_of
type_of-info ElfClass.elf32 e h = omega (arith, h.2)
type_of-info ElfClass.elf64 e h = omega (arith, h.2)

same_test : (b : Bool) (x y z : ℤ) → (if b then if b then x else y else z) ≡ (if b then x else z)
same_test true x y z = refl
same_test false x y z = refl

module _ (from_utf8 : List ℕ → Option Str) (binary : Binary) (is_rela from_plt : Bool)
    (dynsym dynstr : List ℕ) where
  dyn_reloc-raw :
      (e : Entry)
      → IsReloc binary.class e
      → dyn_reloc from_utf8 binary is_rela from_plt dynsym dynstr (raw binary.class is_rela e)
        ≡ meant from_utf8 binary is_rela from_plt dynsym dynstr e
  unfolding dyn_reloc
  dyn_reloc-raw e h = rw (
    sym_of-info binary.class e h,
    type_of-info binary.class e h,
    same_test is_rela e.addend (pos 0) (implicit_addend binary e.offset),
  )

  read_relocs-encode_reloc :
      (es : List Entry)
      → All (IsReloc binary.class) es
      → read_relocs from_utf8 binary is_rela from_plt dynsym dynstr
          (map (encode_reloc binary.class is_rela) es)
        ≡ map (meant from_utf8 binary is_rela from_plt dynsym dynstr) es
  unfolding read_relocs
  read_relocs-encode_reloc [] h = refl
  read_relocs-encode_reloc (e ∷ es) h = rw (
    parse_raw-encode_reloc binary.class is_rela e h.0,
    dyn_reloc-raw e h.0,
    read_relocs-encode_reloc es h.1,
  )

length-encode_reloc :
    (class : ElfClass) (is_rela : Bool) (e : Entry)
    → length (encode_reloc class is_rela e) ≡ entsize class is_rela
unfolding encode_reloc entsize rel_entsize rela_entsize to_le_bytes
length-encode_reloc ElfClass.elf32 false e = refl
length-encode_reloc ElfClass.elf32 true e = refl
length-encode_reloc ElfClass.elf64 false e = refl
length-encode_reloc ElfClass.elf64 true e = refl

entsize-pos : (class : ElfClass) (is_rela : Bool) → 0 < entsize class is_rela
unfolding entsize rel_entsize rela_entsize
entsize-pos ElfClass.elf32 false = omega arith
entsize-pos ElfClass.elf32 true = omega arith
entsize-pos ElfClass.elf64 false = omega arith
entsize-pos ElfClass.elf64 true = omega arith

-- The whole section, in terms of what the entries are taken for.
read_section :
    (from_utf8 : List ℕ → Option Str) (binary : Binary) (name : Str) (is_rela from_plt : Bool)
    (section : ElfSection) (es : List Entry)
    → All (IsReloc binary.class) es
    → binary.section_by_name name ≡ some section
    → section.section_data ≡ some (encode_all (encode_reloc binary.class is_rela) es)
    → read_dyn_reloc_section from_utf8 binary name is_rela from_plt
      ≡ some (
          map
            (meant from_utf8 binary is_rela from_plt
              (section_bytes (binary.section_by_name (codes ".dynsym")))
              (section_bytes (binary.section_by_name (codes ".dynstr"))))
            es)
unfolding read_dyn_reloc_section
read_section from_utf8 binary name is_rela from_plt section es h there bytes =
    rw (there, bytes, read_dyn_reloc_section)
      (ap some (
        rw
          (chunks_exact-encode_all (encode_reloc binary.class is_rela)
            (entsize binary.class is_rela) (length-encode_reloc binary.class is_rela)
            (entsize-pos binary.class is_rela) es
            (length (encode_all (encode_reloc binary.class is_rela) es)) (omega arith))
          (read_relocs-encode_reloc from_utf8 binary is_rela from_plt
            (section_bytes (binary.section_by_name (codes ".dynsym")))
            (section_bytes (binary.section_by_name (codes ".dynstr"))) es h)))

-- The addend of an entry that has one.
abbrev AddendIs : (is_rela : Bool) → Entry → DynReloc → Type 0
AddendIs true e r = r.r_addend ≡ e.addend
AddendIs false e r = Unit

-- What an entry says is what was read, but for what other sections say of it.
abbrev IsRead : (is_rela from_plt : Bool) → Entry → DynReloc → Type 0
IsRead is_rela from_plt e r =
    (r.r_offset ≡ e.offset)
    × (r.r_sym ≡ e.symbol)
    × (r.r_type ≡ e.kind)
    × (r.from_plt_section ≡ from_plt)
    × AddendIs is_rela e r

-- The relocations are those of the entries, one for each, in order.
abbrev pub AreRead : (is_rela from_plt : Bool) → List Entry → List DynReloc → Type 0
AreRead is_rela from_plt [] [] = Unit
AreRead is_rela from_plt [] (r ∷ rs) = ⊥
AreRead is_rela from_plt (e ∷ es) [] = ⊥
AreRead is_rela from_plt (e ∷ es) (r ∷ rs) =
    IsRead is_rela from_plt e r × AreRead is_rela from_plt es rs

meant-AreRead :
    (from_utf8 : List ℕ → Option Str) (binary : Binary) (is_rela from_plt : Bool)
    (dynsym dynstr : List ℕ) (es : List Entry)
    → AreRead is_rela from_plt es (map (meant from_utf8 binary is_rela from_plt dynsym dynstr) es)
meant-AreRead from_utf8 binary is_rela from_plt dynsym dynstr [] = tt
meant-AreRead from_utf8 binary true from_plt dynsym dynstr (e ∷ es) =
    ((refl, refl, refl, refl, refl), meant-AreRead from_utf8 binary true from_plt dynsym dynstr es)
meant-AreRead from_utf8 binary false from_plt dynsym dynstr (e ∷ es) =
    ((refl, refl, refl, refl, tt), meant-AreRead from_utf8 binary false from_plt dynsym dynstr es)

-- A section of dynamic relocations that is laid out by the ELF format of either class, with addends
-- or without, is read back entry by entry, in order and none missing: each with its offset, its
-- symbol's index, its type and its addend, where the format has one. The name of the symbol and the
-- addend of an entry without one are read elsewhere, and nothing is said of them.
pub read_dyn_reloc_section-encode_all :
    (from_utf8 : List ℕ → Option Str) (binary : Binary) (name : Str) (is_rela from_plt : Bool)
    (section : ElfSection) (es : List Entry)
    → All (IsReloc binary.class) es
    → binary.section_by_name name ≡ some section
    → section.section_data ≡ some (encode_all (encode_reloc binary.class is_rela) es)
    → (rs : List DynReloc) × (read_dyn_reloc_section from_utf8 binary name is_rela from_plt
        ≡ some rs)
      × AreRead is_rela from_plt es rs
read_dyn_reloc_section-encode_all from_utf8 binary name is_rela from_plt section es h there bytes =
    (
      _,
      read_section from_utf8 binary name is_rela from_plt section es h there bytes,
      meant-AreRead from_utf8 binary is_rela from_plt
          (section_bytes (binary.section_by_name (codes ".dynsym")))
          (section_bytes (binary.section_by_name (codes ".dynstr"))) es,
    )
