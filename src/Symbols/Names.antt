-- ===== src/Symbols/Names.antt =====
-- crates/delink-core/src/symbols.rs, `disambiguate_names`: names that two definitions share get
-- the address of the definition as a suffix.
pub mod Counts
pub mod Unique
mod Tests
use delink.Prelude.{
  ℕ, ◌+◌, Bool, true, false, ◌||◌, Option, none, some, List, [], ◌∷◌, ◌++◌, ltb, if◌then◌else◌,
  unwrap_or, map,
}
use delink.Prelude.Text.{Str, dot, hex}
use delink.Prelude.Eq.{str_eq, str_eq_inst}
use delink.Collections.BTreeMap.{BTreeMap}
use delink.Collections.HashMap
use delink.Collections.HashMap.{HashMap}
use delink.Symbols.{FunctionRef, VariableRef, export_name, variable_export_name}

-- `*counts.entry(name).or_default() += 1` over the values of a map.
unfoldable pub count_names {ℓ} :
    {V : Type ℓ} → (V → Str) → BTreeMap V → HashMap Str ℕ → HashMap Str ℕ
count_names name [] counts = counts
count_names name ((addr, v) ∷ m) counts =
    count_names name m
      (HashMap.insert (name v) (unwrap_or (HashMap.get (name v) counts) 0 + 1) counts)

-- The names that were counted more than once.
unfoldable pub colliding_names : HashMap Str ℕ → List Str
colliding_names [] = []
colliding_names ((name, n) ∷ counts) =
    let rest = colliding_names counts in if ltb 1 n then name ∷ rest else rest

unfoldable pub has_name : Str → List Str → Bool
has_name name [] = false
has_name name (n ∷ ns) = str_eq name n || has_name name ns

-- `format!("{name}.{addr:x}")`
abbrev pub suffixed : Str → ℕ → Str
suffixed name addr = name ++ (dot ∷ hex addr)

-- One of the two renaming loops, over the values of a map.
unfoldable pub rename_colliding {ℓ} :
    {V : Type ℓ} → (V → Str) → (V → Str → V) → List Str → BTreeMap V → BTreeMap V
rename_colliding name rename colliding [] = []
rename_colliding name rename colliding ((addr, v) ∷ m) =
    (addr, if has_name (name v) colliding then rename v (suffixed (name v) addr) else v)
    ∷ rename_colliding name rename colliding m

abbrev pub set_linkage_name : FunctionRef → Str → FunctionRef
set_linkage_name f name = record f { linkage_name = some name }

abbrev pub set_variable_linkage_name : VariableRef → Str → VariableRef
set_variable_linkage_name v name = record v { linkage_name = some name }

-- What the early return and the two loops do with the colliding names.
unfoldable pub rename_all :
    List Str
    → BTreeMap FunctionRef
    → BTreeMap VariableRef
    → BTreeMap FunctionRef × BTreeMap VariableRef
rename_all [] functions variables = (functions, variables)
rename_all (c ∷ cs) functions variables = (
  rename_colliding export_name set_linkage_name (c ∷ cs) functions,
  rename_colliding variable_export_name set_variable_linkage_name (c ∷ cs) variables,
)

unfoldable pub disambiguate_names :
    BTreeMap FunctionRef → BTreeMap VariableRef → BTreeMap FunctionRef × BTreeMap VariableRef
unfolding count_names colliding_names rename_all
disambiguate_names functions variables =
    let counts =
      count_names variable_export_name variables (count_names export_name functions []) in
    rename_all (colliding_names counts) functions variables
