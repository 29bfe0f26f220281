-- ===== src/Cu.antt =====
-- crates/delink-core/src/cu.rs: the compilation units that every later pass works on.
pub mod Ranges
use delink.Prelude.{ℕ, Option, List, Bool, Range}
use delink.Prelude.Text.{Str}

pub record Function : Type 0 where
  pub name : Str
  pub linkage_name : Option Str
  pub addr : ℕ
  pub size : ℕ
  pub external : Bool

pub record Variable : Type 0 where
  pub name : Str
  pub linkage_name : Option Str
  pub addr : ℕ
  pub external : Bool

-- `language` is the DW_LANG code.
pub record CompilationUnit : Type 0 where
  pub id : ℕ
  pub name : Str
  pub comp_dir : Option Str
  pub producer : Option Str
  pub language : Option ℕ
  pub ranges : List Range
  pub functions : List Function
  pub variables : List Variable
  pub debug_info_range : Range
  pub debug_abbrev_range : Range
  pub debug_line_range : Option Range
  pub file_name : Option Str

pub record CuIndex : Type 0 where
  pub units : List CompilationUnit
