-- ===== src/LapFuel/Laps.antt =====
-- `LapFuelData::AddLapData`.
pub mod Window
pub mod Valid
use ir_pit_crew.Prelude.{ℕ, Bool, true, false, List, [], ◌∷◌, ◌++◌, ltb, length, if◌then◌else◌}
use ir_pit_crew.Floats.{Floats, nought, minus_one}
use ir_pit_crew.LapFuel.{LapFuelData}

abbrev pub pop_front {ℓ} : {A : Type ℓ} → List A → List A
pop_front [] = []
pop_front (x ∷ xs) = xs

-- Drop the oldest value if there are more than `max`; no maximum has been calculated at 0.
unfoldable pub make_room {ℓ} : {A : Type ℓ} → ℕ → List A → List A
make_room max xs = if ltb 0 max then (if ltb max (length xs) then pop_front xs else xs) else xs

module _ (F : Floats) where
  open F use {single}

  -- The new state, and whether the lap was recorded.
  unfoldable pub add_lap_data : LapFuelData F → single.Num → single.Num → LapFuelData F × Bool
  add_lap_data d lap_time fuel =
      if single.lt fuel (nought single)
      then (record d { last_fuel = minus_one single }, false)
      else if single.le lap_time (nought single)
      then (record d { last_fuel = fuel }, false)
      else if single.le d.last_fuel fuel
      then (record d { last_fuel = fuel }, false)
      else (
        record d {
          last_fuel = fuel;
          lap_times = make_room d.data_count_max d.lap_times ++ lap_time ∷ [];
          lap_fuels = make_room d.data_count_max d.lap_fuels ++ single.sub d.last_fuel fuel ∷ [];
        },
        true,
      )

  -- Laps as the simulator reports them, one call after another.
  unfoldable pub add_laps : LapFuelData F → List (single.Num × single.Num) → LapFuelData F
  unfolding add_lap_data
  add_laps d [] = d
  add_laps d ((t, f) ∷ laps) = add_laps (add_lap_data d t f).0 laps
