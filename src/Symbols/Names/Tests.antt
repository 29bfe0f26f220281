-- ===== src/Symbols/Names/Tests.antt =====
-- Two static functions of one name, renamed apart.
use delink.Prelude.{none, false, [], ◌∷◌, arith}
use delink.Prelude.Text.{codes}
use delink.Collections.BTreeMap
use delink.Collections.BTreeMap.{BTreeMap}
use delink.Symbols.{FunctionRef, VariableRef, export_name, variable_export_name}
use delink.Symbols.Names.{disambiguate_names}
use delink.Symbols.Names.Unique.{HasUniqueNames, IsPlain, disambiguate_names-HasUniqueNames}

abbrev static_f : FunctionRef
static_f = record { cu_id = 0; name = codes "f"; linkage_name = none; size = 4; external = false }

abbrev pub counter : VariableRef
counter = record { cu_id = 0; name = codes "g"; linkage_name = none; external = false }

abbrev pub functions : BTreeMap FunctionRef
functions = (0x10, static_f) ∷ (0x20, static_f) ∷ []

abbrev pub variables : BTreeMap VariableRef
variables = (0x30, counter) ∷ []

functions-IsPlain : IsPlain export_name functions
unfolding BTreeMap.get
functions-IsPlain = record { bounded = λ a v h. ground arith; undotted = λ a v h. ground arith }

variables-IsPlain : IsPlain variable_export_name variables
unfolding BTreeMap.get
variables-IsPlain = record { bounded = λ a v h. ground arith; undotted = λ a v h. ground arith }

disambiguate_names-HasUniqueNames_example :
    HasUniqueNames
      (disambiguate_names functions variables).0
      (disambiguate_names functions variables).1
disambiguate_names-HasUniqueNames_example =
    disambiguate_names-HasUniqueNames functions variables functions-IsPlain variables-IsPlain
