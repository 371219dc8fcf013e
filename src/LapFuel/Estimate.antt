-- ===== src/LapFuel/Estimate.antt =====
-- `LapFuelData::calcOptimalLapTimeFuelValues`.
pub mod Safe
use ir_pit_crew.Prelude.{ℕ, Bool, ◌&&◌, if◌then◌else◌}
use ir_pit_crew.Prelude.Int.{pos, to_unsigned}
use ir_pit_crew.Floats.{Floats, nought}
use ir_pit_crew.LapFuel.{LapFuelData, data_count_min}
use ir_pit_crew.LapFuel.Median.{MedianValues, calc_median_values}

module _ (F : Floats) where
  open F use {single, double, widen}

  -- One MAD below the median lap time, or 0 if there is no median.
  unfoldable pub estimated_lap_time : MedianValues F → single.Num
  estimated_lap_time m =
      if single.lt (nought single) m.lap_time
      then single.sub m.lap_time
          (if single.lt m.mad_lap_time (nought single) then nought single else m.mad_lap_time)
      else nought single

  -- One MAD above the median fuel, or 0 if there is no median.
  unfoldable pub estimated_lap_fuel : MedianValues F → single.Num
  estimated_lap_fuel m =
      if single.lt (nought single) m.fuel
      then single.add m.fuel
          (if single.lt m.mad_fuel (nought single) then nought single else m.mad_fuel)
      else nought single

  -- How many laps to keep: those of a full tank, or ten if that is fewer.
  unfoldable pub new_count_max : ℕ → single.Num → double.Num → ℕ
  unfolding to_unsigned
  new_count_max old fuel max_fuel =
      if double.lt (nought double) max_fuel && single.lt (nought single) fuel
      then (let count = double.div max_fuel (widen fuel) in
          if double.lt (double.of_int (pos data_count_min)) count
          then to_unsigned (double.to_int count)
          else data_count_min)
      else old

  pub record Estimate : Type 0 where
    pub lap_time : single.Num
    pub lap_fuel : single.Num

  unfoldable pub calc_optimal_lap_time_fuel_values :
      LapFuelData F → double.Num → Estimate × LapFuelData F
  unfolding estimated_lap_time estimated_lap_fuel new_count_max calc_median_values
  calc_optimal_lap_time_fuel_values d max_fuel =
      let m = calc_median_values F d in
      let fuel = estimated_lap_fuel m in
      (
        record { lap_time = estimated_lap_time m; lap_fuel = fuel },
        record d { data_count_max = new_count_max d.data_count_max fuel max_fuel },
      )
