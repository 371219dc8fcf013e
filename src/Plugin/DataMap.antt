-- ===== src/Plugin/DataMap.antt =====
-- The telemetry of one update as names and texts: `readDataVarFromMap`, `addDataVarToMap` and
-- `addStringDataVarToMap` of src/irplugin/irplugin.cpp.
use ir_pit_crew.Prelude.{ℕ, ◌^◌, ◌≡◌, Option, none, some, if◌then◌else◌}
use ir_pit_crew.Prelude.Int.{pos}
use ir_pit_crew.Prelude.Text.{Text, text_eq}
use ir_pit_crew.Dict.{Dict, find, insert, IsMap}
use ir_pit_crew.Dict.Laws.{or_else, insert-IsMap, find-insert}
use ir_pit_crew.Floats.{Floats, nought}

-- The text of a variable read by `>>` as a `T`; `none` for a name that is not there.
unfoldable pub read_data_var {ℓ} : {T : Type ℓ} → (Text → T) → Dict → Text → Option T
unfolding find
read_data_var parse m name = elim (find name m) [ none ↦ none | some s ↦ some (parse s) ]

unfoldable pub add_string_data_var : Dict → Text → Text → Dict
unfolding insert
add_string_data_var m name value = insert name value m

module _ (F : Floats) where
  open F use {double, print_double}

  -- `pow(10.0, precision)`
  abbrev pub round_multiplier : ℕ → double.Num
  round_multiplier precision = double.of_int (pos (10 ^ precision))

  unfoldable pub round_to_precision : ℕ → double.Num → double.Num
  round_to_precision precision x =
      let m = round_multiplier precision in
      if double.lt (nought double) m then double.div (double.round (double.mul x m)) m else x

  unfoldable pub add_data_var : Dict → Text → double.Num → ℕ → Dict
  unfolding insert round_to_precision
  add_data_var m name x precision = insert name (print_double (round_to_precision precision x)) m

  -- In a map in order, a value is found under its name after it has been added, unless the name was there before: then
  -- the old value stays. Other names are not touched, and the names stay in order.
  pub find-add_data_var :
      (m : Dict) (name other : Text) (x : double.Num) (precision : ℕ)
      → IsMap m
      → (find other (add_data_var m name x precision) ≡ (
          if text_eq other name
          then some (or_else (find name m) (print_double (round_to_precision precision x)))
          else find other m))
        × IsMap (add_data_var m name x precision)
  unfolding add_data_var
  find-add_data_var m name other x precision h =
      let value = print_double (round_to_precision precision x) in
      (find-insert other name value m h, insert-IsMap name value m h)
