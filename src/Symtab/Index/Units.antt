-- ===== src/Symtab/Index/Units.antt =====
-- crates/delink-core/src/symtab.rs, `to_cu_index`: each file that functions are attributed to is one unit.
pub mod Partition
use delink.Prelude.{
  ℕ, zero, suc, ◌+◌, ◌≡◌, Bool, true, false, ◌&&◌, ◌||◌, not, Option, none, some, List, [], ◌∷◌,
  ◌++◌, map, ◌==◌, if◌then◌else◌, is_some, unwrap_or, Range,
}
use delink.Prelude.Text.{Str, codes}
use delink.Prelude.Eq.{str_eq, str_eq_inst}
use delink.Prelude.Words.{add_u64}
use delink.Collections.HashMap
use delink.Collections.HashMap.{HashMap}
use delink.Collections.Filter.{retain}
use delink.Cu.{CompilationUnit, CuIndex, Function, Variable}
use delink.Symtab.{StaticSymbol, FileGroup, SymtabIndex, stt_object, stb_local}
use delink.Symtab.Index.{attribute_functions}

abbrev pub unattributed : Str
unattributed = codes "__unattributed"

-- `file.unwrap_or("__unattributed")`
abbrev pub unit_of : StaticSymbol × Option Str → Str
unit_of e = unwrap_or e.1 unattributed

-- What the map holds at a key, or the empty vector.
abbrev pub entry_or_default {ℓ} : {A : Type ℓ} → Str → HashMap Str (List A) → List A
entry_or_default key m = unwrap_or (HashMap.get key m) []

abbrev pub push_entry {ℓ} : {A : Type ℓ} → Str → A → HashMap Str (List A) → HashMap Str (List A)
push_entry key a m = HashMap.insert key (entry_or_default key m ++ (a ∷ [])) m

-- The first loop: the functions of each file, and the files in the order of their first function.
unfoldable pub group_by_file :
    List (StaticSymbol × Option Str)
    → HashMap Str (List StaticSymbol)
    → List Str
    → HashMap Str (List StaticSymbol) × List Str
group_by_file [] by_file order = (by_file, order)
group_by_file (e ∷ attributed) by_file order =
    group_by_file attributed (push_entry (unit_of e) e.0 by_file)
      (if is_some (HashMap.get (unit_of e) by_file) then order else order ++ (unit_of e ∷ []))

abbrev pub is_group_variable : StaticSymbol → Bool
is_group_variable s = s.sym_type == stt_object && not (s.value == 0)

-- The second loop: the data symbols of each `STT_FILE` group.
unfoldable pub variables_by_file :
    List FileGroup → HashMap Str (List StaticSymbol) → HashMap Str (List StaticSymbol)
unfolding retain HashMap.insert
variables_by_file [] vars = vars
variables_by_file (g ∷ groups) vars =
    variables_by_file groups (
      HashMap.insert g.file (entry_or_default g.file vars ++ retain is_group_variable g.locals)
        vars)

abbrev pub range_of : StaticSymbol → Range
range_of f = record { start = f.value; end = add_u64 f.value f.size }

abbrev pub function_of : StaticSymbol → Function
function_of f = record {
  name = f.name;
  linkage_name = some f.name;
  addr = f.value;
  size = f.size;
  external = not (f.bind == stb_local);
}

abbrev pub variable_of : StaticSymbol → Variable
variable_of s = record {
  name = s.name;
  linkage_name = some s.name;
  addr = s.value;
  external = not (s.bind == stb_local);
}

abbrev pub empty_range : Range
empty_range = record { start = 0; end = 0 }

abbrev pub unit_for : ℕ → Str → List StaticSymbol → List StaticSymbol → CompilationUnit
unit_for id file funcs vars = record {
  id = id;
  name = file;
  comp_dir = none;
  producer = none;
  language = none;
  ranges = map range_of funcs;
  functions = map function_of funcs;
  variables = map variable_of vars;
  debug_info_range = empty_range;
  debug_abbrev_range = empty_range;
  debug_line_range = none;
  file_name = none;
}

-- The map over the enumerated files, each of which takes its functions out of `by_file`.
unfoldable pub units_of :
    ℕ
    → List Str
    → HashMap Str (List StaticSymbol)
    → HashMap Str (List StaticSymbol)
    → List CompilationUnit
units_of id [] by_file vars = []
units_of id (file ∷ order) by_file vars =
    unit_for id file (entry_or_default file by_file) (entry_or_default file vars)
    ∷ units_of (suc id) order (HashMap.remove file by_file) vars

unfoldable pub to_cu_index : SymtabIndex → CuIndex
unfolding group_by_file variables_by_file units_of attribute_functions
to_cu_index index =
    let (by_file, order) = group_by_file (attribute_functions index) [] [] in
    record { units = units_of 0 order by_file (variables_by_file index.groups []) }
