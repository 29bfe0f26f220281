-- ===== src/Symbols/Build/Built.antt =====
-- crates/delink-core/src/symbols.rs: the table of a binary has what its compilation units have.
use delink.Prelude.{
  ℕ, ◌<◌, ◌≡◌, inl, inr, true, Option, some, List, [], ◌∷◌, ◌++◌, ◌==◌, is_some, arith, All,
  All-imp, Bool-cases, Option-cases,
}
use delink.Prelude.Text.{Str, codes}
use delink.Collections.BTreeMap
use delink.Collections.BTreeMap.{BTreeMap, IsOrdered}
use delink.Cu.{Function, Variable, CompilationUnit, CuIndex}
use delink.Binary.{Binary}
use delink.Symbols.{
  FunctionRef, VariableRef, GlobalSymbols, export_name, variable_export_name, maps_from_cus,
}
use delink.Symbols.Names.{
  rename_all, disambiguate_names, count_names, colliding_names, set_linkage_name,
  set_variable_linkage_name,
}
use delink.Symbols.Dynamic.{read_all_dyn_relocs}
use delink.Symbols.Plt.{build_plt_map}
use delink.Symbols.Build.Entries.{
  insert_all, HasKey, insert_all-IsOrdered, All-insert_all, All-HasKey, rename-IsOrdered,
  rename-HasKey, All-rename,
}
use delink.Symbols.Build.Units.{
  function_ref, variable_ref, function_entries, variable_entries, all_functions, all_variables,
  maps_of_units-insert_all, IsFunctionOf, IsVariableOf, all_functions-IsFunctionOf,
  all_variables-IsVariableOf,
}
use delink.Symbols.Build.{build, build_from_maps, section_range}

-- Every function that has a size, and every variable that has an address, is at its address.
abbrev HasFunctions : List CompilationUnit → BTreeMap FunctionRef → Type 0
HasFunctions us m =
    All (λ u. All (λ g. 0 < g.size → is_some (BTreeMap.get g.addr m) ≡ true) u.functions) us

abbrev HasVariables : List CompilationUnit → BTreeMap VariableRef → Type 0
HasVariables us m =
    All (λ u. All (λ g. 0 < g.addr → is_some (BTreeMap.get g.addr m) ≡ true) u.variables) us

function_entries-HasKey :
    (m : BTreeMap FunctionRef) (id : ℕ) (fs : List Function)
    → All (HasKey m) (function_entries id fs)
    → All (λ g. 0 < g.size → is_some (BTreeMap.get g.addr m) ≡ true) fs
function_entries-HasKey m id [] h = tt
function_entries-HasKey m id (f ∷ fs) h = elim (Bool-cases (f.size == 0)) [
  | inl hit ↦
      let h' = rw hit at h in
      (λ positive. absurd (ground arith), function_entries-HasKey m id fs h')
  | inr miss ↦ let h' = rw miss at h in (λ positive. h'.0, function_entries-HasKey m id fs h'.1)
]

variable_entries-HasKey :
    (m : BTreeMap VariableRef) (id : ℕ) (vs : List Variable)
    → All (HasKey m) (variable_entries id vs)
    → All (λ g. 0 < g.addr → is_some (BTreeMap.get g.addr m) ≡ true) vs
variable_entries-HasKey m id [] h = tt
variable_entries-HasKey m id (v ∷ vs) h = elim (Bool-cases (v.addr == 0)) [
  | inl hit ↦
      let h' = rw hit at h in
      (λ positive. absurd (ground arith), variable_entries-HasKey m id vs h')
  | inr miss ↦ let h' = rw miss at h in (λ positive. h'.0, variable_entries-HasKey m id vs h'.1)
]

All-split : {A : Type 0} (P : A → Type 0) (xs ys : List A) → All P (xs ++ ys) → All P xs × All P ys
All-split P [] ys h = (tt, h)
All-split P (x ∷ xs) ys h = let rest = All-split P xs ys h.1 in ((h.0, rest.0), rest.1)

all_functions-HasFunctions :
    (m : BTreeMap FunctionRef) (us : List CompilationUnit)
    → All (HasKey m) (all_functions us)
    → HasFunctions us m
all_functions-HasFunctions m [] h = tt
all_functions-HasFunctions m (u ∷ us) h =
    let both = All-split (HasKey m) (function_entries u.id u.functions) (all_functions us) h in
    (function_entries-HasKey m u.id u.functions both.0, all_functions-HasFunctions m us both.1)

all_variables-HasVariables :
    (m : BTreeMap VariableRef) (us : List CompilationUnit)
    → All (HasKey m) (all_variables us)
    → HasVariables us m
all_variables-HasVariables m [] h = tt
all_variables-HasVariables m (u ∷ us) h =
    let both = All-split (HasKey m) (variable_entries u.id u.variables) (all_variables us) h in
    (variable_entries-HasKey m u.id u.variables both.0, all_variables-HasVariables m us both.1)

-- The maps have the functions and the variables of the units, in the order of their addresses, and
-- nothing else.
pub record IsMapsOf (us : List CompilationUnit) (fs : BTreeMap FunctionRef)
    (vs : BTreeMap VariableRef) : Type 0 where
  pub functions_ordered : IsOrdered fs
  pub variables_ordered : IsOrdered vs
  pub functions_known : All (IsFunctionOf us) fs
  pub variables_known : All (IsVariableOf us) vs
  pub has_functions : HasFunctions us fs
  pub has_variables : HasVariables us vs

maps_from_cus-IsMapsOf :
    (cus : CuIndex) → IsMapsOf cus.units (maps_from_cus cus).0 (maps_from_cus cus).1
unfolding maps_from_cus
maps_from_cus-IsMapsOf cus =
    let us = cus.units in
    rw (maps_of_units-insert_all us [] []) (record {
      functions_ordered = insert_all-IsOrdered (all_functions us) [] tt;
      variables_ordered = insert_all-IsOrdered (all_variables us) [] tt;
      functions_known =
          All-insert_all (IsFunctionOf us) (all_functions us) [] (all_functions-IsFunctionOf us) tt;
      variables_known =
          All-insert_all (IsVariableOf us) (all_variables us) [] (all_variables-IsVariableOf us) tt;
      has_functions =
          all_functions-HasFunctions (insert_all (all_functions us) []) us
            (All-HasKey (all_functions us) []);
      has_variables =
          all_variables-HasVariables (insert_all (all_variables us) []) us
            (All-HasKey (all_variables us) []);
    })

-- Renaming keeps all of that.
rename_all-IsMapsOf :
    (colliding : List Str) (us : List CompilationUnit) (fs : BTreeMap FunctionRef)
    (vs : BTreeMap VariableRef)
    → IsMapsOf us fs vs
    → IsMapsOf us (rename_all colliding fs vs).0 (rename_all colliding fs vs).1
unfolding rename_all
rename_all-IsMapsOf [] us fs vs h = h
rename_all-IsMapsOf (c ∷ cs) us fs vs h = record {
  functions_ordered = rename-IsOrdered export_name set_linkage_name (c ∷ cs) fs h.functions_ordered;
  variables_ordered =
      rename-IsOrdered variable_export_name set_variable_linkage_name (c ∷ cs) vs
        h.variables_ordered;
  functions_known =
      All-rename export_name set_linkage_name (c ∷ cs) (IsFunctionOf us) (λ k v n t. t) fs
        h.functions_known;
  variables_known =
      All-rename variable_export_name set_variable_linkage_name (c ∷ cs) (IsVariableOf us)
        (λ k v n t. t) vs h.variables_known;
  has_functions =
      All-imp
        (λ u.
          All-imp
            (λ g kept positive.
              rename-HasKey export_name set_linkage_name (c ∷ cs) fs (g.addr, function_ref 0 g)
                (kept positive))
            u.functions)
        us h.has_functions;
  has_variables =
      All-imp
        (λ u.
          All-imp
            (λ g kept positive.
              rename-HasKey variable_export_name set_variable_linkage_name (c ∷ cs) vs
                (g.addr, variable_ref 0 g) (kept positive))
            u.variables)
        us h.has_variables;
}

-- The definitions of the table are the renamed ones.
build_from_maps_lem :
    (from_utf8 : List ℕ → Option Str) (binary : Binary) (fs : BTreeMap FunctionRef)
    (vs : BTreeMap VariableRef) (s : GlobalSymbols)
    → build_from_maps from_utf8 binary fs vs ≡ some s
    → (s.functions ≡ (disambiguate_names fs vs).0) × (s.variables ≡ (disambiguate_names fs vs).1)
unfolding build_from_maps
build_from_maps_lem from_utf8 binary fs vs s h =
    elim (Option-cases (read_all_dyn_relocs from_utf8 binary)) [
      | inl failed ↦ let h' = rw (failed, build_from_maps) at h in cc
      | inr (relocs, read) ↦
          let plt = build_plt_map binary.arch binary relocs (section_range binary (codes ".plt")) in
          elim (Option-cases plt) [
            | inl failed ↦ let h' = rw (read, failed, build_from_maps) at h in cc
            | inr (stubs, decoded) ↦ let h' = rw (read, decoded, build_from_maps) at h in (cc, cc)
          ]
    ]

-- The table that is built of a binary and its units has an entry for each function with a size and
-- each variable with an address, at that address; each of its entries is such a definition, with its
-- unit, its name and its size; and both of its maps are in the order of the addresses.
pub build-IsMapsOf :
    (from_utf8 : List ℕ → Option Str) (binary : Binary) (cus : CuIndex) (s : GlobalSymbols)
    → build from_utf8 binary cus ≡ some s
    → IsMapsOf cus.units s.functions s.variables
unfolding build disambiguate_names
build-IsMapsOf from_utf8 binary cus s h =
    let (fs, vs) = maps_from_cus cus in
    let colliding =
      colliding_names (count_names variable_export_name vs (count_names export_name fs [])) in
    let (same, same_variables) = build_from_maps_lem from_utf8 binary fs vs s h in
    let renamed = rename_all-IsMapsOf colliding cus.units fs vs (maps_from_cus-IsMapsOf cus) in
    rw (same, same_variables, disambiguate_names) renamed
