-- ===== src/Symbols/Types.antt =====
-- crates/delink-core/src/symbols.rs: the data of the global symbol table.
use delink.Prelude.{ℕ, Bool, Option, Range, unwrap_or}
use delink.Prelude.Text.{Str, codes}
use delink.Prelude.Int.{ℤ}
use delink.Collections.BTreeMap.{BTreeMap}
use delink.Collections.HashMap.{HashMap}
use delink.Arch.{Arch}

pub record FunctionRef : Type 0 where
  pub cu_id : ℕ
  pub name : Str
  pub linkage_name : Option Str
  pub size : ℕ
  pub external : Bool

pub record VariableRef : Type 0 where
  pub cu_id : ℕ
  pub name : Str
  pub linkage_name : Option Str
  pub external : Bool

abbrev pub export_name : FunctionRef → Str
export_name f = unwrap_or f.linkage_name f.name

abbrev pub variable_export_name : VariableRef → Str
variable_export_name v = unwrap_or v.linkage_name v.name

pub data ResolvedTarget : Type 0 where
  internal : FunctionRef → ResolvedTarget
  external_plt : Str → ResolvedTarget
  unknown : ResolvedTarget

pub data DataSource : Type 0 where
  function variable got_slot section_relative : DataSource

pub record DataResolution : Type 0 where
  pub symbol : Str
  pub addend : ℤ
  pub source : DataSource

abbrev pub sym_rodata_start : Str
sym_rodata_start = codes "__delink_rodata_start"

abbrev pub sym_data_start : Str
sym_data_start = codes "__delink_data_start"

abbrev pub sym_data_rel_ro_start : Str
sym_data_rel_ro_start = codes "__delink_data_rel_ro_start"

abbrev pub sym_data_rel_ro_local_start : Str
sym_data_rel_ro_local_start = codes "__delink_data_rel_ro_local_start"

abbrev pub sym_bss_start : Str
sym_bss_start = codes "__delink_bss_start"

pub record GlobalSymbols : Type 0 where
  pub functions : BTreeMap FunctionRef
  pub variables : BTreeMap VariableRef
  pub plt : HashMap ℕ Str
  pub got : HashMap ℕ Str
  pub got_local : HashMap ℕ ℕ
  pub plt_range : Option Range
  pub got_range : Option Range
  pub text_range : Range
  pub rodata_range : Option Range
  pub data_range : Option Range
  pub data_rel_ro_range : Option Range
  pub data_rel_ro_local_range : Option Range
  pub bss_range : Option Range
  pub arch : Arch
