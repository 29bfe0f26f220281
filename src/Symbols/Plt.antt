-- ===== src/Symbols/Plt.antt =====
-- crates/delink-core/src/symbols.rs, `build_plt_map`: which import a stub of the PLT jumps to.
pub mod Decode
pub mod Layout
use delink.Prelude.{
  ℕ, zero, suc, ◌+◌, ◌-◌, ◌*◌, ◌/◌, ◌%◌, ◌^◌, Bool, true, false, ◌&&◌, Option, none, some, List, [],
  ◌∷◌, length, drop, take, leb, ◌==◌, if◌then◌else◌, Range,
}
use delink.Prelude.Text.{Str, codes}
use delink.Prelude.Eq.{nat_eq}
use delink.Prelude.Bytes.{slice, from_le_bytes}
use delink.Prelude.Words.{add_u64}
use delink.Collections.Filter.{retain}
use delink.Collections.HashMap
use delink.Collections.HashMap.{HashMap}
use delink.Arch.{Arch}
use delink.Symtab.Read.{field}
use delink.Binary.{Binary, ElfSection}
use delink.Symbols.Dynamic.{DynReloc, is_empty, add_name}

abbrev pub aarch64_plt_header_size : ℕ
aarch64_plt_header_size = 32

abbrev pub aarch64_plt_entry_size : ℕ
aarch64_plt_entry_size = 16

abbrev pub arm_plt_header_size : ℕ
arm_plt_header_size = 20

abbrev pub arm_plt_entry_size : ℕ
arm_plt_entry_size = 12

-- `val.rotate_right(n)` of a u32, for n below 32.
abbrev pub rotate_right : ℕ → ℕ → ℕ
rotate_right val n = val / 2 ^ n + val % 2 ^ n * 2 ^ (32 - n)

-- An eight-bit value, rotated right by twice the four bits above it.
unfoldable pub arm_expand_imm12 : ℕ → ℕ
arm_expand_imm12 imm12 = rotate_right (imm12 % 2 ^ 8) (imm12 / 2 ^ 8 % 2 ^ 4 * 2)

-- `i & 0x0fff_f000 == pattern`, where the twelve low bits of the pattern are zero.
abbrev pub matches_opcode : (i pattern : ℕ) → Bool
matches_opcode i pattern = i / 2 ^ 12 % 2 ^ 16 == pattern / 2 ^ 12

-- `add ip, pc, #a; add ip, ip, #b; ldr pc, [ip, #c]!`
unfoldable pub arm_plt_entry_got_slot : List ℕ → ℕ → Option ℕ
unfolding from_le_bytes arm_expand_imm12
arm_plt_entry_got_slot bytes stub_addr =
    let i0 = field 0 4 bytes in
    let i1 = field 4 4 bytes in
    let i2 = field 8 4 bytes in
    let a = arm_expand_imm12 (i0 % 2 ^ 12) in
    let b = arm_expand_imm12 (i1 % 2 ^ 12) in
    let c = i2 % 2 ^ 12 in
    if matches_opcode i0 0x028f_c000
      && matches_opcode i1 0x028c_c000
      && matches_opcode i2 0x05bc_f000
    then some (add_u64 (add_u64 (add_u64 (add_u64 stub_addr 8) a) b) c)
    else none

-- The names by slot; a later relocation replaces an earlier one.
unfoldable pub slot_names_from : List DynReloc → HashMap ℕ Str → HashMap ℕ Str
unfolding add_name
slot_names_from [] names = names
slot_names_from (r ∷ rels) names = slot_names_from rels (add_name r names)

-- The import that the stub at an offset of `.plt` jumps to.
unfoldable pub stub_name : HashMap ℕ Str → (plt_start : ℕ) → ℕ → List ℕ → Option Str
unfolding arm_plt_entry_got_slot HashMap.get
stub_name names plt_start cursor stub =
    elim (arm_plt_entry_got_slot stub (add_u64 plt_start cursor)) [
      | none ↦ none
      | some slot ↦ HashMap.get slot names
    ]

-- The stubs from `cursor` on, a round for each; `none` is the index of bytes that are not there.
unfoldable pub decode_stubs :
    (rounds : ℕ)
    → HashMap ℕ Str
    → (plt_start size : ℕ) → List ℕ
    → ℕ
    → HashMap ℕ Str
    → Option (HashMap ℕ Str)
unfolding stub_name HashMap.insert slice
decode_stubs zero names plt_start size bytes cursor m = some m
decode_stubs (suc rounds) names plt_start size bytes cursor m =
    let next = cursor + arm_plt_entry_size in
    let round : Option (HashMap ℕ Str) = elim (slice bytes cursor (cursor + 12)) [
      | none ↦ none
      | some stub ↦ elim (stub_name names plt_start cursor stub) [
        | none ↦ decode_stubs rounds names plt_start size bytes next m
        | some name ↦
            decode_stubs rounds names plt_start size bytes next
              (HashMap.insert (add_u64 plt_start cursor) name m)
      ]
    ] in
    if leb next size then round else some m

-- As many stubs as fit behind the header.
abbrev pub arm_stub_count : ℕ → ℕ
arm_stub_count size = (size - arm_plt_header_size) / arm_plt_entry_size

unfoldable pub decode_arm_plt :
    List DynReloc → (plt_start : ℕ) → ElfSection → List ℕ → Option (HashMap ℕ Str)
unfolding decode_stubs slot_names_from
decode_arm_plt rels plt_start section bytes =
    decode_stubs (arm_stub_count section.size) (slot_names_from rels []) plt_start section.size
      bytes arm_plt_header_size []

-- The stubs in the order of their relocations.
unfoldable pub index_stubs : (stub_addr entry : ℕ) → List DynReloc → HashMap ℕ Str → HashMap ℕ Str
unfolding HashMap.insert
index_stubs stub_addr entry [] m = m
index_stubs stub_addr entry (r ∷ rels) m =
    index_stubs (add_u64 stub_addr entry) entry rels (HashMap.insert stub_addr r.sym_name m)

abbrev pub is_plt_reloc : DynReloc → Bool
is_plt_reloc r = if is_empty r.sym_name then false else r.from_plt_section

abbrev pub plt_header : Arch → ℕ
plt_header Arch.aarch64 = aarch64_plt_header_size
plt_header Arch.arm = arm_plt_header_size

abbrev pub plt_entry : Arch → ℕ
plt_entry Arch.aarch64 = aarch64_plt_entry_size
plt_entry Arch.arm = arm_plt_entry_size

unfoldable pub by_index : Arch → List DynReloc → (plt_start : ℕ) → HashMap ℕ Str
unfolding index_stubs retain
by_index arch rels plt_start =
    index_stubs (add_u64 plt_start (plt_header arch)) (plt_entry arch) (retain is_plt_reloc rels) []

-- What was decoded, unless that is nothing.
abbrev pub or_by_index : HashMap ℕ Str → HashMap ℕ Str → HashMap ℕ Str
or_by_index [] index = index
or_by_index (e ∷ m) index = e ∷ m

-- The bytes of `.plt`, where the object crate has them.
abbrev pub readable : Option ElfSection → Option (ElfSection × List ℕ)
readable none = none
readable (some s) = elim (s.section_data) [ none ↦ none | some bytes ↦ some (s, bytes) ]

unfoldable pub build_arm_plt : Binary → List DynReloc → (plt_start : ℕ) → Option (HashMap ℕ Str)
unfolding decode_arm_plt by_index
build_arm_plt binary rels plt_start = elim (readable (binary.section_by_name (codes ".plt"))) [
  | none ↦ some (by_index Arch.arm rels plt_start)
  | some (section, bytes) ↦ elim (decode_arm_plt rels plt_start section bytes) [
    | none ↦ none
    | some m ↦ some (or_by_index m (by_index Arch.arm rels plt_start))
  ]
]

-- The parameter `arch` is that of the binary.
unfoldable pub build_plt_map : Arch → Binary → List DynReloc → Option Range → Option (HashMap ℕ Str)
unfolding build_arm_plt by_index
build_plt_map arch binary rels none = some []
build_plt_map Arch.arm binary rels (some r) = build_arm_plt binary rels r.start
build_plt_map Arch.aarch64 binary rels (some r) = some (by_index Arch.aarch64 rels r.start)
