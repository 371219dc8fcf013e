-- ===== src/Tests/Session.antt =====
-- The laps of the cars in src/irplugin/irplugin.cpp on concrete data.
use ir_pit_crew.Prelude.{◌≡◌, refl, some, none, take, drop, arith, if◌then◌else◌}
use ir_pit_crew.Prelude.Int.{pos, le_ℤ}
use ir_pit_crew.Floats.Fixed.{fixed}
use ir_pit_crew.Plugin.VarData.{signed_of, items_from, get_var_data-items}
use ir_pit_crew.Plugin.Session.{read_word, lap_of}
use ir_pit_crew.Plugin.Session.Items.{lap_of-get_var_data}
use ir_pit_crew.Tests.Plugin.{laps_header, memory, no_number, memory-size}

lap_of-get_var_data_example :
    lap_of (read_word (items_from fixed no_number no_number 3 laps_header memory 2 0)) (pos 1) ≡ (
      if le_ℤ (pos 0) (signed_of (take 4 (drop 8 memory)))
      then some (signed_of (take 4 (drop 8 memory)))
      else none)
lap_of-get_var_data_example =
    lap_of-get_var_data fixed no_number no_number 3 laps_header memory refl 1
      (items_from fixed no_number no_number 3 laps_header memory 2 0) memory-size (omega arith)
      (get_var_data-items fixed no_number no_number 3 laps_header memory memory-size)
