-- ===== src/Symbols.antt =====
-- crates/delink-core/src/symbols.rs: the global symbol table, and what an address resolves to.
mod Types
pub mod Sound
pub mod Complete
pub mod Names
pub mod Sample
pub mod Dynamic
pub mod Plt
pub mod Build
mod Tests
use delink.Prelude.{
  ℕ, zero, suc, ◌+◌, ◌-◌, ◌<◌, ◌≤◌, ◌≡◌, Bool, true, false, ◌&&◌, Option, none, some, List, [], ◌∷◌,
  ltb, leb, ◌==◌, if◌then◌else◌, Range, contains, in_range, or_else, unwrap_or, min, max,
}
pub use Types.{
  FunctionRef, VariableRef, export_name, variable_export_name, ResolvedTarget, DataResolution,
  DataSource, sym_rodata_start, sym_data_start, sym_data_rel_ro_start, sym_data_rel_ro_local_start,
  sym_bss_start, GlobalSymbols,
}
use delink.Prelude.Text.{Str}
use delink.Prelude.Eq.{nat_eq}
use delink.Prelude.Int.{ℤ, pos}
use delink.Prelude.Words.{add_u64, as_i64}
use delink.Collections.BTreeMap
use delink.Collections.BTreeMap.{BTreeMap}
use delink.Collections.HashMap
use delink.Collections.HashMap.{HashMap}
use delink.Arch.{Arch}
use delink.Cu.{Function, Variable, CompilationUnit, CuIndex}

-- The loops of `maps_from_cus` over one unit: empty functions and variables at 0 are passed over,
-- and a later definition at an address replaces an earlier one.
unfoldable pub add_functions : ℕ → List Function → BTreeMap FunctionRef → BTreeMap FunctionRef
add_functions id [] m = m
add_functions id (f ∷ fs) m =
    let entry : FunctionRef = record {
      cu_id = id;
      name = f.name;
      linkage_name = f.linkage_name;
      size = f.size;
      external = f.external;
    } in
    add_functions id fs (if f.size == 0 then m else BTreeMap.insert f.addr entry m)

unfoldable pub add_variables : ℕ → List Variable → BTreeMap VariableRef → BTreeMap VariableRef
add_variables id [] m = m
add_variables id (v ∷ vs) m =
    let entry : VariableRef = record {
      cu_id = id;
      name = v.name;
      linkage_name = v.linkage_name;
      external = v.external;
    } in
    add_variables id vs (if v.addr == 0 then m else BTreeMap.insert v.addr entry m)

unfoldable pub maps_of_units :
    List CompilationUnit
    → BTreeMap FunctionRef
    → BTreeMap VariableRef
    → BTreeMap FunctionRef × BTreeMap VariableRef
unfolding add_functions add_variables
maps_of_units [] fs vs = (fs, vs)
maps_of_units (u ∷ us) fs vs =
    maps_of_units us (add_functions u.id u.functions fs) (add_variables u.id u.variables vs)

unfoldable pub maps_from_cus : CuIndex → BTreeMap FunctionRef × BTreeMap VariableRef
unfolding maps_of_units
maps_from_cus cus = maps_of_units cus.units [] []

unfoldable pub resolve : GlobalSymbols → ℕ → ResolvedTarget
resolve s target = elim (BTreeMap.get target s.functions) [
  | some f ↦ ResolvedTarget.internal f
  | none ↦
      if in_range s.plt_range target
      then elim (HashMap.get target s.plt) [
        | some name ↦ ResolvedTarget.external_plt name
        | none ↦ ResolvedTarget.unknown
      ]
      else ResolvedTarget.unknown
]

-- `target` inside a function: the function and the offset in it.
unfoldable pub resolve_into : GlobalSymbols → ℕ → Option (FunctionRef × ℕ)
resolve_into s target = elim (BTreeMap.floor target s.functions) [
  | none ↦ none
  | some (start, f) ↦ if ltb target (add_u64 start f.size) then some (f, target - start) else none
]

section_hit : ℕ → Option Range → Str → Option DataResolution
section_hit addr none name = none
section_hit addr (some r) name =
    if contains r addr
    then some (record {
      symbol = name;
      addend = as_i64 (addr - r.start);
      source = DataSource.section_relative;
    })
    else none

unfoldable pub section_relative : GlobalSymbols → ℕ → Option DataResolution
unfolding section_hit
section_relative s addr = or_else (section_hit addr s.rodata_range sym_rodata_start) (
    or_else (section_hit addr s.data_range sym_data_start) (
      or_else (section_hit addr s.bss_range sym_bss_start) (
        or_else (section_hit addr s.data_rel_ro_range sym_data_rel_ro_start)
          (section_hit addr s.data_rel_ro_local_range sym_data_rel_ro_local_start))))

-- The two lookups that end `resolve_data`.
resolve_slot_or_section : GlobalSymbols → ℕ → Option DataResolution
unfolding section_relative
resolve_slot_or_section s addr = elim (HashMap.get addr s.got) [
  | some name ↦ some (record { symbol = name; addend = pos 0; source = DataSource.got_slot })
  | none ↦ section_relative s addr
]

-- The lookup inside a function body, and what follows it.
resolve_interior : GlobalSymbols → ℕ → Option DataResolution
unfolding resolve_slot_or_section
resolve_interior s addr = elim (BTreeMap.floor addr s.functions) [
  | none ↦ resolve_slot_or_section s addr
  | some (start, f) ↦
      if ltb addr (add_u64 start f.size)
      then some (record {
        symbol = export_name f;
        addend = as_i64 (addr - start);
        source = DataSource.function;
      })
      else resolve_slot_or_section s addr
]

unfoldable pub resolve_data : GlobalSymbols → ℕ → Option DataResolution
unfolding resolve_interior
resolve_data s addr = elim (BTreeMap.get addr s.variables) [
  | some v ↦
      some
        (record { symbol = variable_export_name v; addend = pos 0; source = DataSource.variable })
  | none ↦ elim (BTreeMap.get addr s.functions) [
    | some f ↦
        some (record { symbol = export_name f; addend = pos 0; source = DataSource.function })
    | none ↦ resolve_interior s addr
  ]
]

unfoldable pub resolve_got_slot : GlobalSymbols → ℕ → Option DataResolution
resolve_got_slot s slot_addr = elim (HashMap.get slot_addr s.got) [
  | some name ↦ some (record { symbol = name; addend = pos 0; source = DataSource.got_slot })
  | none ↦ elim (HashMap.get slot_addr s.got_local) [
    | none ↦ none
    | some target ↦ resolve_data s target
  ]
]

abbrev pub in_got : GlobalSymbols → ℕ → Bool
in_got s addr = in_range s.got_range addr

abbrev pub in_plt : GlobalSymbols → ℕ → Bool
in_plt s addr = in_range s.plt_range addr

unfoldable pub merge_ranges : Option Range → Option Range → Option Range
merge_ranges (some a) (some b) =
    some (record { start = min a.start b.start; end = max a.end b.end })
merge_ranges (some a) none = some a
merge_ranges none b = b
