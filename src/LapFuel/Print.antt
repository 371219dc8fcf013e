-- ===== src/LapFuel/Print.antt =====
-- `LapFuelData::printListValues` of src/irplugin/LapFuelData.cpp: what it writes to the console.
use ir_pit_crew.Prelude.{ℕ, suc, ◌≡◌, refl, false, List, [], ◌∷◌, ◌++◌}
use ir_pit_crew.Prelude.Number.{show_nat}
use ir_pit_crew.Prelude.Text.{Text, codes}
use ir_pit_crew.Floats.{Floats, nought, minus_one}
use ir_pit_crew.LapFuel.{LapFuelData}
use ir_pit_crew.LapFuel.Median.{calc_median_values}
use ir_pit_crew.LapFuel.Estimate.{new_count_max, calc_optimal_lap_time_fuel_values}

module _ (F : Floats) where
  open F use {single, double, print_single}

  -- A line with a lap time and an amount of fuel.
  unfoldable pub value_line : Text → single.Num → Text → single.Num → Text
  value_line before time between fuel =
      before ++ (print_single time ++ (between ++ (print_single fuel ++ codes " L\n")))

  -- The laps, as far as both lists go.
  unfoldable pub lap_lines : ℕ → List single.Num → List single.Num → Text
  unfolding show_nat value_line
  lap_lines index [] fuels = []
  lap_lines index (time ∷ times) [] = []
  lap_lines index (time ∷ times) (fuel ∷ fuels) =
      value_line (show_nat (suc index) ++ codes ". Time: ") time (codes " ; Fuel: ") fuel
      ++ lap_lines (suc index) times fuels

  -- What is written, and the data behind the call of calcOptimalLapTimeFuelValues.
  unfoldable pub print_list_values : LapFuelData F → Text × LapFuelData F
  unfolding lap_lines value_line calc_median_values calc_optimal_lap_time_fuel_values
  print_list_values d =
      let (e, d') = calc_optimal_lap_time_fuel_values F d (minus_one double) in
      let m = calc_median_values F d' in
      (
        lap_lines 0 d'.lap_times d'.lap_fuels
            ++ (codes "\n"
                ++ (value_line (codes "Median Lap Time: ") m.lap_time (codes " ; Fuel: ") m.fuel
                    ++ (value_line (codes "Median Absolute Deviation Lap Time: ") m.mad_lap_time
                          (codes " ; Fuel: ") m.mad_fuel
                        ++ value_line (codes "Median Calculated Lap Time; ") e.lap_time
                            (codes " ; Calculated Fuel: ") e.lap_fuel))),
        d',
      )

  -- Printing leaves the data as it is: the maximum of the lists is not calculated for a tank below
  -- zero.
  pub print_list_values-data :
      (d : LapFuelData F)
      → double.lt (nought double) (minus_one double) ≡ false
      → (print_list_values d).1 ≡ d
  unfolding print_list_values calc_optimal_lap_time_fuel_values new_count_max
  print_list_values-data d h = rw h refl
