-- ===== src/Symbols/Tests.antt =====
-- A small symbol table, and the theorems at it.
use delink.Prelude.{◌≡◌, refl, some, arith}
use delink.Prelude.Text.{codes}
use delink.Prelude.Eq.{nat_eq}
use delink.Prelude.Int.{pos}
use delink.Prelude.Words.{as_i64}
use delink.Collections.BTreeMap
use delink.Collections.HashMap
use delink.Symbols.{DataResolution, DataSource, resolve_into, resolve_data}
use delink.Symbols.Sample.{main_fn, table, table_ordered}
use delink.Symbols.Sound.{Denotes, resolve_data_sound}
use delink.Symbols.Complete.{IsKnown, resolve_into_complete, resolve_data_complete}

abbrev interior : DataResolution
interior = record { symbol = codes "main"; addend = pos 0x10; source = DataSource.function }

resolves_interior : resolve_data table 0x1010 ≡ some interior
unfolding resolve_data BTreeMap.get BTreeMap.floor as_i64
resolves_interior = refl

resolves_rodata :
    resolve_data table 0x2004
    ≡ some (record {
      symbol = codes "__delink_rodata_start";
      addend = pos 4;
      source = DataSource.section_relative;
    })
unfolding resolve_data BTreeMap.get BTreeMap.floor HashMap.get as_i64
resolves_rodata = refl

resolve_data_sound_example : Denotes table interior 0x1010
resolve_data_sound_example =
    resolve_data_sound table 0x1010 interior table_ordered (omega arith) resolves_interior

main_at : BTreeMap.get 0x1000 table.functions ≡ some main_fn
unfolding BTreeMap.get
main_at = refl

resolve_into_complete_example : resolve_into table 0x101f ≡ some (main_fn, 0x1f)
resolve_into_complete_example =
    resolve_into_complete table 0x1000 0x101f main_fn (omega arith) (omega arith) main_at
      (omega arith) (omega arith)

resolve_data_complete_example :
    (d : DataResolution) × (resolve_data table 0x2004 ≡ some d) × Denotes table d 0x2004
resolve_data_complete_example =
    resolve_data_complete table 0x2004 table_ordered (omega arith) (omega arith)
      (IsKnown.in_rodata refl)
