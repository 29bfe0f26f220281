-- ===== src/Symbols/Build/Tests.antt =====
-- crates/delink-core/src/symbols.rs: the table of a small ARM file, from its sections and its units.
use delink.Prelude.{
  ℕ, Range, ◌+◌, ◌%◌, ◌^◌, ◌≡◌, refl, true, false, Option, none, some, List, [], ◌∷◌, ◌++◌, arith,
}
use delink.Prelude.Text.{Str, codes, hex}
use delink.Prelude.Int.{pos, negsuc}
use delink.Prelude.Eq.{str_eq, str_eq_inst, nat_eq}
use delink.Collections.BTreeMap
use delink.Collections.HashMap
use delink.Collections.HashMap.{HashMap}
use delink.Arch.{Arch, ElfClass}
use delink.Binary.{Binary, ElfSection}
use delink.Cu.{CompilationUnit, CuIndex}
use delink.Symtab.Read.Chunks.{encode_all}
use delink.Symbols.{GlobalSymbols, merge_ranges}
use delink.Symbols.Names.{rename_colliding, has_name}
use delink.Symbols.Dynamic.{DynReloc, read_dyn_reloc_section, build_got_maps}
use delink.Symbols.Dynamic.RoundTrip.{
  Entry, encode_reloc, AreRead, read_dyn_reloc_section-encode_all,
}
use delink.Symbols.Dynamic.Slots.{last_of, name_for, local_for, build_got_maps_lem}
use delink.Symbols.Plt.{arm_plt_entry_got_slot, decode_arm_plt}
use delink.Symbols.Plt.Decode.{encode_stub, arm_plt_entry_got_slot-encode_stub}
use delink.Symbols.Plt.Layout.{stubs_for, MapsStubs, decode_arm_plt-stubs_for}
use delink.Symbols.Build.{build, classify_section}
use delink.Symbols.Build.Built.{IsMapsOf, build-IsMapsOf}

-- The stub of the source's own test.
decoded_stub : arm_plt_entry_got_slot (encode_stub 0x1a864c) 0x1576fc ≡ some 0x2ffd50
unfolding arm_plt_entry_got_slot encode_stub
decoded_stub = refl

arm_plt_entry_got_slot-encode_stub_example :
    arm_plt_entry_got_slot (encode_stub 0x1a864c) 0x1576fc
    ≡ some ((0x1576fc + 8 + 0x1a864c) % 2 ^ 64)
arm_plt_entry_got_slot-encode_stub_example =
    arm_plt_entry_got_slot-encode_stub 0x1a864c 0x1576fc (omega arith)

abbrev relocs : List Entry
relocs =
    record { offset = 0x9000; symbol = 1; kind = 22; addend = pos 0 }
    ∷ record { offset = 0x9008; symbol = 0; kind = 23; addend = negsuc 15 }
    ∷ []

abbrev rel_bytes : List ℕ
rel_bytes = encode_all (encode_reloc ElfClass.elf32 true) relocs

abbrev zeros : List ℕ
zeros = 0 ∷ 0 ∷ 0 ∷ 0 ∷ []

abbrev header : List ℕ
header = zeros ++ (zeros ++ (zeros ++ (zeros ++ zeros)))

abbrev slots : List ℕ
slots = 0x9000 ∷ 0x9004 ∷ []

abbrev plt_section : ElfSection
plt_section = record {
  address = 0x8100;
  size = 44;
  section_data = some (header ++ stubs_for 0x8114 slots);
}

abbrev dynsym : List ℕ
dynsym = zeros ++ (zeros ++ (zeros ++ (zeros ++ (1 ∷ 0 ∷ 0 ∷ 0 ∷ zeros ++ (zeros ++ zeros)))))

abbrev rela_section : ElfSection
rela_section = record { address = 0x400; size = 24; section_data = some rel_bytes }

abbrev sections : HashMap Str ElfSection
sections =
    (codes ".text", record { address = 0x8000; size = 64; section_data = some [] })
    ∷ (codes ".plt", plt_section)
    ∷ (codes ".rela.plt", rela_section)
    ∷ (codes ".dynsym", record { address = 0x100; size = 32; section_data = some dynsym })
    ∷ (
      codes ".dynstr",
      record { address = 0x200; size = 6; section_data = some (0 ∷ codes "puts" ++ (0 ∷ [])) },
    )
    ∷ []

unfoldable by_name : Str → Option ElfSection
unfolding HashMap.get
by_name name = HashMap.get name sections

abbrev binary : Binary
binary = record {
  sections = [];
  section_by_name = by_name;
  arch = Arch.arm;
  class = ElfClass.elf32;
}

abbrev empty_range : Range
empty_range = record { start = 0; end = 0 }

abbrev unit : CompilationUnit
unit = record {
  id = 0;
  name = codes "a.c";
  comp_dir = none;
  producer = none;
  language = none;
  ranges = [];
  functions =
      record { name = codes "f"; linkage_name = none; addr = 0x8010; size = 16; external = true }
      ∷ record { name = codes "f"; linkage_name = none; addr = 0x8000; size = 16; external = false }
      ∷ [];
  variables = record { name = codes "v"; linkage_name = none; addr = 0x9100; external = true } ∷ [];
  debug_info_range = empty_range;
  debug_abbrev_range = empty_range;
  debug_line_range = none;
  file_name = none;
}

abbrev index : CuIndex
index = record { units = unit ∷ [] }

abbrev table : GlobalSymbols
table = record {
  functions =
      (
        0x8000,
        record {
          cu_id = 0;
          name = codes "f";
          linkage_name = some (codes "f.8000");
          size = 16;
          external = false;
        },
      )
      ∷ (
        0x8010,
        record {
          cu_id = 0;
          name = codes "f";
          linkage_name = some (codes "f.8010");
          size = 16;
          external = true;
        },
      )
      ∷ [];
  variables =
      (0x9100, record { cu_id = 0; name = codes "v"; linkage_name = none; external = true }) ∷ [];
  plt = (0x8114, codes "puts") ∷ [];
  got = (0x9000, codes "puts") ∷ [];
  got_local = (0x9008, 0xfffffffffffffff0) ∷ [];
  plt_range = some (record { start = 0x8100; end = 0x812c });
  got_range = none;
  text_range = record { start = 0x8000; end = 0x8040 };
  rodata_range = none;
  data_range = none;
  data_rel_ro_range = none;
  data_rel_ro_local_range = none;
  bss_range = none;
  arch = Arch.arm;
}

built : build some binary index ≡ some table
unfolding build by_name encode_reloc encode_stub str_eq hex BTreeMap.insert merge_ranges
    rename_colliding has_name
built = refl

build-IsMapsOf_example : IsMapsOf (unit ∷ []) table.functions table.variables
build-IsMapsOf_example = build-IsMapsOf some binary index table built

in_plt : classify_section table 0x8114 ≡ codes ".plt"
unfolding classify_section
in_plt = refl

rela_there : by_name (codes ".rela.plt") ≡ some rela_section
unfolding by_name str_eq
rela_there = refl

read_dyn_reloc_section-encode_all_example :
    (rs : List DynReloc) × (read_dyn_reloc_section some binary (codes ".rela.plt") true true
      ≡ some rs)
    × AreRead true true relocs rs
read_dyn_reloc_section-encode_all_example =
    read_dyn_reloc_section-encode_all some binary (codes ".rela.plt") true true rela_section relocs
      (omega arith) rela_there refl

abbrev named : DynReloc
named = record {
  r_offset = 0x9000;
  r_type = 22;
  r_sym = 1;
  r_addend = pos 0;
  sym_name = codes "puts";
  from_plt_section = true;
}

build_got_maps_lem_example :
    (HashMap.get 0x9000 (build_got_maps Arch.arm (named ∷ [])).0
      ≡ last_of (name_for 0x9000) (named ∷ []))
    × (HashMap.get 0x9000 (build_got_maps Arch.arm (named ∷ [])).1
        ≡ last_of (local_for Arch.arm 0x9000) (named ∷ []))
build_got_maps_lem_example = build_got_maps_lem Arch.arm (named ∷ []) 0x9000

decode_arm_plt-stubs_for_example :
    (m : HashMap ℕ Str) × (decode_arm_plt
        (named ∷ [])
        0x8100
        plt_section
        (header ++ stubs_for 0x8114 slots)
      ≡ some m)
    × MapsStubs m (λ slot. last_of (name_for slot) (named ∷ [])) 0x8114 slots
decode_arm_plt-stubs_for_example =
    decode_arm_plt-stubs_for (named ∷ []) 0x8100 plt_section header slots refl refl (omega arith)
