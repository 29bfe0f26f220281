-- ===== src/Symbols/Sample.antt =====
-- A small symbol table for the tests: a function, a variable, two slots and three sections.
use delink.Prelude.{none, some, true, false, arith, [], ◌∷◌}
use delink.Prelude.Text.{codes}
use delink.Arch.{Arch}
use delink.Symbols.{GlobalSymbols, FunctionRef, VariableRef}
use delink.Symbols.Sound.{IsOrderedTable}

abbrev pub main_fn : FunctionRef
main_fn = record { cu_id = 0; name = codes "main"; linkage_name = none; size = 32; external = true }

abbrev pub counter : VariableRef
counter = record { cu_id = 0; name = codes "counter"; linkage_name = none; external = false }

abbrev pub table : GlobalSymbols
table = record {
  functions = (0x1000, main_fn) ∷ [];
  variables = (0x3008, counter) ∷ [];
  plt = [];
  got = (0x4000, codes "puts") ∷ [];
  got_local = (0x4008, 0x1010) ∷ [];
  plt_range = none;
  got_range = some (record { start = 0x4000; end = 0x4010 });
  text_range = record { start = 0x1000; end = 0x2000 };
  rodata_range = some (record { start = 0x2000; end = 0x2100 });
  data_range = some (record { start = 0x3000; end = 0x3100 });
  data_rel_ro_range = none;
  data_rel_ro_local_range = none;
  bss_range = none;
  arch = Arch.arm;
}

pub table_ordered : IsOrderedTable table
table_ordered = record { functions_ordered = omega arith; variables_ordered = omega arith }
