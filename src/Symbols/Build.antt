-- ===== src/Symbols/Build.antt =====
-- crates/delink-core/src/symbols.rs: the table of a binary, and the section of an address.
pub mod Entries
pub mod Units
pub mod Built
mod Tests
use delink.Prelude.{
  ℕ, List, Bool, Option, none, some, unwrap_or, Range, contains, in_range, if◌then◌else◌,
}
use delink.Prelude.Text.{Str, codes}
use delink.Prelude.Words.{add_u64}
use delink.Collections.BTreeMap.{BTreeMap}
use delink.Collections.HashMap.{HashMap}
use delink.Cu.{CuIndex}
use delink.Binary.{Binary}
use delink.Symbols.{FunctionRef, VariableRef, GlobalSymbols, maps_from_cus, merge_ranges}
use delink.Symbols.Names.{disambiguate_names}
use delink.Symbols.Dynamic.{DynReloc, read_all_dyn_relocs, build_got_maps}
use delink.Symbols.Plt.{build_plt_map}

-- The closure `section_range`.
unfoldable pub section_range : Binary → Str → Option Range
section_range binary name = elim (binary.section_by_name name) [
  | none ↦ none
  | some s ↦ some (record { start = s.address; end = add_u64 s.address s.size })
]

abbrev pub merged_got : Binary → Option Range
merged_got binary =
    merge_ranges (section_range binary (codes ".got")) (section_range binary (codes ".got.plt"))

-- The table, once the relocations are read and the stubs are decoded.
abbrev pub table_of :
    Binary
    → BTreeMap FunctionRef × BTreeMap VariableRef
    → List DynReloc
    → HashMap ℕ Str
    → GlobalSymbols
table_of binary maps relocs plt = record {
  functions = maps.0;
  variables = maps.1;
  plt = plt;
  got = (build_got_maps binary.arch relocs).0;
  got_local = (build_got_maps binary.arch relocs).1;
  plt_range = section_range binary (codes ".plt");
  got_range = merged_got binary;
  text_range = unwrap_or (section_range binary (codes ".text")) (record { start = 0; end = 0 });
  rodata_range = section_range binary (codes ".rodata");
  data_range = section_range binary (codes ".data");
  data_rel_ro_range = section_range binary (codes ".data.rel.ro");
  data_rel_ro_local_range = section_range binary (codes ".data.rel.ro.local");
  bss_range = section_range binary (codes ".bss");
  arch = binary.arch;
}

module _ (from_utf8 : List ℕ → Option Str) where
  -- `none` is a section that cannot be read, or a `.plt` that is shorter than it says.
  unfoldable pub build_from_maps :
      Binary → BTreeMap FunctionRef → BTreeMap VariableRef → Option GlobalSymbols
  unfolding disambiguate_names section_range read_all_dyn_relocs build_plt_map build_got_maps
  build_from_maps binary functions variables = elim (read_all_dyn_relocs from_utf8 binary) [
    | none ↦ none
    | some relocs ↦
        elim (build_plt_map binary.arch binary relocs (section_range binary (codes ".plt"))) [
          | none ↦ none
          | some plt ↦ some (table_of binary (disambiguate_names functions variables) relocs plt)
        ]
  ]

  unfoldable pub build : Binary → CuIndex → Option GlobalSymbols
  unfolding maps_from_cus build_from_maps
  build binary cus = build_from_maps binary (maps_from_cus cus).0 (maps_from_cus cus).1

unfoldable pub classify_section : GlobalSymbols → ℕ → Str
classify_section s addr =
    if contains s.text_range addr
    then codes ".text"
    else if in_range s.plt_range addr
    then codes ".plt"
    else if in_range s.got_range addr
    then codes ".got"
    else if in_range s.rodata_range addr
    then codes ".rodata"
    else if in_range s.data_rel_ro_local_range addr
    then codes ".data.rel.ro.local"
    else if in_range s.data_rel_ro_range addr
    then codes ".data.rel.ro"
    else if in_range s.data_range addr
    then codes ".data"
    else if in_range s.bss_range addr
    then codes ".bss"
    else codes "?"
