-- ===== src/Plugin/NewSession.antt =====
-- The main loop of src/irplugin/irplugin.cpp when the simulator's header changes, which is a new
-- session.
use ir_pit_crew.Prelude.{Option, none, some, [], ◌∷◌, ◌>>=◌, if◌then◌else◌}
use ir_pit_crew.Prelude.Int.{pos, negsuc, le_ℤ}
use ir_pit_crew.Prelude.Number.{atoi}
use ir_pit_crew.Prelude.Text.{Text, codes}
use ir_pit_crew.Shared.{set_session_info, set_data}
use ir_pit_crew.Server.Loop.{asks_reset, asks_update}
use ir_pit_crew.Floats.{Floats, nought, minus_one}
use ir_pit_crew.LapFuel.Files.{reset_session_data}
use ir_pit_crew.LapFuel.Estimate.{calc_optimal_lap_time_fuel_values}
use ir_pit_crew.Config.Read.{config_file, read_config_data}
use ir_pit_crew.Plugin.Convert.{calculate_fuel_display_conversion_factor}
use ir_pit_crew.Plugin.Standings.{Yaml, yaml_text, driver_path}
use ir_pit_crew.Plugin.Buffers.{copy_all, driver_copies}
use ir_pit_crew.Plugin.State.{Plugin, Outcome}

module _ (F : Floats) where
  open F use {single, double, widen, atof, read_single, read_double}

  abbrev pub number_at : (Text → Option Yaml) → Text → double.Num → double.Num
  number_at yaml path default = elim (yaml path) [ none ↦ default | some v ↦ atof v.at ]

  -- `newCarNameStr`: empty without an index of the driver's car.
  unfoldable pub car_name : (Text → Option Yaml) → Text
  unfolding atoi driver_path
  car_name yaml = elim (yaml (codes "DriverInfo:DriverCarIdx:")) [
    | none ↦ []
    | some v ↦
        let idx = atoi v.at in
        if le_ℤ (pos 0) idx then yaml_text (yaml (driver_path idx (codes "CarPath:"))) else []
  ]

  -- The maximum of the car, and the part of it that its class allows.
  unfoldable pub max_fuel_of : (Text → Option Yaml) → double.Num
  max_fuel_of yaml =
      let pct = number_at yaml (codes "DriverInfo:DriverCarMaxFuelPct:") (minus_one double) in
      let max = number_at yaml (codes "DriverInfo:DriverCarFuelMaxLtr:") (minus_one double) in
      if double.le (nought double) pct then double.mul max pct else max

  -- A new header, behind the copies of the driver's values. The session info and the function that
  -- reads it, and the directory of the data; `none` is the failed assertion on the weight of a litre.
  unfoldable pub enter_session : (Text → Option Yaml) → Text → Text → Plugin F → Option (Outcome F)
  unfolding car_name max_fuel_of set_session_info set_data config_file read_config_data
      reset_session_data calc_optimal_lap_time_fuel_values calculate_fuel_display_conversion_factor
  enter_session yaml session_info data_dir p =
      let kg = number_at yaml (codes "DriverInfo:DriverCarFuelKgPerLtr:") (double.decimal 10 1) in
      let car = car_name yaml in
      let track = yaml_text (yaml (codes "WeekendInfo:TrackName:")) in
      let max = max_fuel_of yaml in
      let (s, st) = read_config_data F (config_file data_dir) car p.storage in
      let (laps, st') = reset_session_data F p.lap_data track car st in
      let (e, laps') = calc_optimal_lap_time_fuel_values F laps max in
      let accepted = double.lt (nought double) kg in
      let outcome : Outcome F = record {
        plugin = record {
          settings = record s { server_port = p.settings.server_port };
          start_extra_laps = p.start_extra_laps;
          kg_per_ltr = kg;
          conversion =
              calculate_fuel_display_conversion_factor F s.display_fuel_imperial kg
                s.display_fuel_imperial s.display_car_fuel_as_weight;
          max_fuel = max;
          session_num = negsuc 0;
          session_total_laps = [];
          session_total_time = [];
          estimate = e;
          old_lap_last_lap_time = minus_one single;
          lap_data = laps';
          storage = st';
          shared = set_data (set_session_info p.shared session_info) [];
        };
        requests = asks_reset ∷ asks_update ∷ [];
        broadcasts = [];
      } in
      elim (yaml (codes "DriverInfo:DriverCarFuelKgPerLtr:")) [
        | none ↦ some outcome
        | some v ↦ if accepted then some outcome else none
      ]

  -- A new header: the values of the driver have to fit into their buffers too.
  unfoldable pub new_session : (Text → Option Yaml) → Text → Text → Plugin F → Option (Outcome F)
  unfolding copy_all driver_copies enter_session
  new_session yaml session_info data_dir p = do
    _ ← copy_all (driver_copies yaml)
    enter_session yaml session_info data_dir p
