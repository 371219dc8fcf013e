-- ===== src/LapFuel.antt =====
-- src/irplugin/LapFuelData.cpp: the laps recorded for one car on one track. `Laps` records a lap,
-- `Files` saves and loads the lists, `Median` and `Estimate` compute the lap time and the fuel
-- that the race calculation uses. The laws are in the modules below each.
pub mod Laps
pub mod Files
pub mod Median
pub mod Estimate
pub mod Print
use ir_pit_crew.Prelude.{ℕ, List, []}
use ir_pit_crew.Prelude.Text.{Text, codes}
use ir_pit_crew.Floats.{Floats, minus_one}

-- `DATA_COUNT_MIN`
abbrev pub data_count_min : ℕ
data_count_min = 10

module _ (F : Floats) where
  open F use {single}

  pub record LapFuelData : Type 0 where
    pub lap_data_dir : Text
    -- 0 until it has been calculated
    pub data_count_max : ℕ
    pub lap_times : List single.Num
    pub lap_fuels : List single.Num
    pub current_track : Text
    pub current_car : Text
    pub last_fuel : single.Num
