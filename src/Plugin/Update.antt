-- ===== src/Plugin/Update.antt =====
-- The main loop of src/irplugin/irplugin.cpp for one set of telemetry.
pub mod Published
pub mod Delivered
pub mod Defined
pub mod ExtraLaps
pub mod Once
pub mod Fit
use ir_pit_crew.Prelude.{
  ℕ, Bool, true, false, not, ◌&&◌, Option, none, some, List, [], ◌∷◌, ◌++◌, ◌>>=◌, if◌then◌else◌,
}
use ir_pit_crew.Prelude.Int.{ℤ, pos, negsuc, le_ℤ}
use ir_pit_crew.Prelude.Number.{stream_int, show_int}
use ir_pit_crew.Prelude.Text.{Text, codes}
use ir_pit_crew.Dict.{Dict, find}
use ir_pit_crew.Shared.{SharedData, set_session_info, set_data, get_fuel_message}
use ir_pit_crew.Server.Loop.{Action, asks_reset, asks_update}
use ir_pit_crew.Floats.{Floats, nought, minus_one}
use ir_pit_crew.LapFuel.{LapFuelData}
use ir_pit_crew.LapFuel.Laps.{add_lap_data}
use ir_pit_crew.LapFuel.Files.{Storage, reset_session_data, save_current_session_data}
use ir_pit_crew.LapFuel.Estimate.{Estimate, calc_optimal_lap_time_fuel_values}
use ir_pit_crew.Config.Read.{Settings, config_file, read_config_data}
use ir_pit_crew.Plugin.Convert.{
  Conversion, convert_fuel_litres_to_display, calculate_fuel_display_conversion_factor,
}
use ir_pit_crew.Plugin.PitCommand.{Broadcast, handle_pit_command_message}
use ir_pit_crew.Plugin.DataMap.{read_data_var, add_string_data_var, add_data_var}
use ir_pit_crew.Plugin.Race.{Limits, race_limits}
use ir_pit_crew.Plugin.Fuel.{fuel_required, fuel_for_one_lap, laps_of_fuel, optional_pit}
use ir_pit_crew.Plugin.Standings.{Yaml, yaml_text, driver_path, int_eq}
use ir_pit_crew.Plugin.Buffers.{copy_all}
use ir_pit_crew.Plugin.Session.{Car, Cars, get_data_from_session_info}
use ir_pit_crew.Plugin.State.{Plugin, Outcome}

-- `precision`
abbrev pub precision : ℕ
precision = 3

-- A field of the session the driver is in.
unfoldable pub session_path : ℤ → Text → Text
unfolding show_int
session_path session field =
    codes "SessionInfo:Sessions:SessionNum:{" ++ show_int session ++ codes "}" ++ field

-- The variables of the simulator, one after another.
unfoldable pub collect : Dict → List (Text × Text) → Dict
unfolding add_string_data_var
collect m [] = m
collect m ((name, value) ∷ vars) = collect (add_string_data_var m name value) vars

module _ (F : Floats) where
  open F use {single, double, widen, atof, read_single, read_double}

  abbrev text_at : (Text → Option Yaml) → Text → Text → Text
  text_at yaml path old = elim (yaml path) [ none ↦ old | some v ↦ yaml_text (some v) ]

  -- The session the driver is in is another one.
  abbrev pub is_other_session : ℤ → Plugin F → Bool
  is_other_session num p = not (int_eq num p.session_num) && le_ℤ (pos 0) num

  -- The values that are copied into `g_buffer` when the session changes.
  unfoldable pub session_copies : (Text → Option Yaml) → ℤ → Plugin F → List (Option Yaml)
  unfolding session_path
  session_copies yaml num p =
      if is_other_session num p
      then yaml (session_path num (codes "SessionLaps:"))
        ∷ yaml (session_path num (codes "SessionTime:"))
        ∷ []
      else []

  -- The limits of the session are read again when its number changes, by way of `g_buffer`, in which
  -- `update` has them copied first.
  unfoldable pub change_session : (Text → Option Yaml) → ℤ → Plugin F → Plugin F
  unfolding session_path
  change_session yaml num p =
      if is_other_session num p
      then record p {
        session_num = num;
        session_total_laps =
            text_at yaml (session_path num (codes "SessionLaps:")) p.session_total_laps;
        session_total_time =
            text_at yaml (session_path num (codes "SessionTime:")) p.session_total_time;
      }
      else p

  -- A new last lap time is a new lap: it is recorded, and the estimate and the file follow.
  unfoldable pub finish_lap : single.Num → single.Num → Plugin F → Plugin F
  unfolding add_lap_data calc_optimal_lap_time_fuel_values save_current_session_data
  finish_lap lap_time fuel p =
      let old = p.old_lap_last_lap_time in
      let (d, updated) = add_lap_data F p.lap_data lap_time fuel in
      let (e, d') = calc_optimal_lap_time_fuel_values F d p.max_fuel in
      if single.le old lap_time && single.le lap_time old
      then p
      else if updated
      then record p {
        old_lap_last_lap_time = lap_time;
        estimate = e;
        lap_data = d';
        storage = save_current_session_data F d' p.storage;
      }
      else record p { old_lap_last_lap_time = lap_time; lap_data = d }

  -- A value that the program adds to the telemetry.
  pub data Entry : Type 0 where
    number : Text → double.Num → Entry
    string : Text → Text → Entry

  unfoldable pub add_entry : Dict → Entry → Dict
  unfolding add_data_var add_string_data_var
  add_entry m (number name x) = add_data_var F m name x precision
  add_entry m (string name t) = add_string_data_var m name t

  unfoldable pub add_entries : Dict → List Entry → Dict
  unfolding add_entry
  add_entries m [] = m
  add_entries m (e ∷ es) = add_entries (add_entry m e) es

  unfoldable pub limit_entries : Plugin F → Limits F → List Entry
  unfolding convert_fuel_litres_to_display
  limit_entries p l =
      number (codes "estimatedLapTime") (widen p.estimate.lap_time)
      ∷ number (codes "estimatedLapFuel")
          (convert_fuel_litres_to_display F p.conversion.factor (widen p.estimate.lap_fuel))
      ∷ number (codes "sessionTotalLapsMin") l.total_laps_min
      ∷ number (codes "sessionTotalLapsMax") l.total_laps_max
      ∷ number (codes "remainingLapsMin") l.remaining_laps_min
      ∷ number (codes "remainingLapsMax") l.remaining_laps_max
      ∷ number (codes "sessionTotalTime") l.total_time
      ∷ number (codes "remainingTime") l.remaining_time
      ∷ number (codes "elapsedTime") l.elapsed_time
      ∷ number (codes "FuelDisplayConversionFactor") p.conversion.factor
      ∷ string (codes "FuelDisplayUnits") p.conversion.units
      ∷ []

  unfoldable pub fuel_entries : Plugin F → Limits F → single.Num → List Entry
  unfolding convert_fuel_litres_to_display fuel_required fuel_for_one_lap laps_of_fuel optional_pit
  fuel_entries p l fuel =
      let lap_fuel = p.estimate.lap_fuel in
      let laps = laps_of_fuel F lap_fuel fuel in
      let display = convert_fuel_litres_to_display F p.conversion.factor in
      number (codes "FuelRequired")
        (display (fuel_required F p.start_extra_laps l.remaining_laps_max lap_fuel))
      ∷ number (codes "FuelForOneLap") (display (fuel_for_one_lap F lap_fuel))
      ∷ number (codes "LapsOfFuel") laps
      ∷ number (codes "PitAvailable") (optional_pit F lap_fuel p.max_fuel l.remaining_laps_max laps)
      ∷ []

  abbrev pub no_car : Car F
  no_car = record { interval = minus_one single; number = []; initials = []; position = negsuc 0 }

  -- The cars are looked for only with an estimated lap time.
  unfoldable pub find_cars : (Text → Option Yaml) → ℕ → Dict → ℤ → single.Num → Option (Cars F)
  unfolding get_data_from_session_info
  find_cars yaml fuel m num lap_time =
      let nobody : Cars F = record { ahead = no_car; behind = no_car } in
      if single.lt (nought single) lap_time
      then get_data_from_session_info F yaml fuel m num lap_time nobody
      else some nobody

  unfoldable pub car_entries : Cars F → List Entry
  car_entries c =
      string (codes "CarAheadNumber") c.ahead.number
      ∷ string (codes "CarBehindNumber") c.behind.number
      ∷ string (codes "CarAheadInitials") c.ahead.initials
      ∷ string (codes "CarBehindInitials") c.behind.initials
      ∷ number (codes "CarAheadPos") (double.of_int c.ahead.position)
      ∷ number (codes "CarBehindPos") (double.of_int c.behind.position)
      ∷ number (codes "CarAheadInterval") (widen c.ahead.interval)
      ∷ number (codes "CarBehindInterval") (widen c.behind.interval)
      ∷ []

  -- The end of an update: the map is published and the client's message handled.
  unfoldable pub publish : Plugin F → Dict → Option (Outcome F)
  unfolding set_data get_fuel_message handle_pit_command_message
  publish p m = do
    let (msg, shared) = get_fuel_message (set_data p.shared m)
    sent ← handle_pit_command_message F p.settings.skip_clear_on_apply p.conversion.factor msg
    some record {
      plugin = record p { shared = shared };
      requests = asks_update ∷ [];
      broadcasts = sent;
    }

  -- One set of telemetry: the variables for which `irsdk_getVarData_local` returned true, with
  -- fuel for the positions that are looked at. `none` is a failed assertion, a value that has no room
  -- in `g_buffer`, or a read of `SessionFlags`, whose value is not used, outside of the row.
  unfoldable pub update :
      (Text → Option Yaml) → ℕ → List (Text × Text) → Plugin F → Option (Outcome F)
  unfolding collect find read_data_var stream_int session_copies copy_all change_session finish_lap
      race_limits add_data_var add_entries limit_entries fuel_entries find_cars car_entries publish
      convert_fuel_litres_to_display
  update yaml positions vars p = do
    let m = collect [] vars
    fuel ← read_data_var read_single m (codes "FuelLevel")
    _ ← read_data_var read_single m (codes "FuelLevelPct")
    last ← read_data_var read_single m (codes "LapLastLapTime")
    _ ← read_data_var read_double m (codes "SessionTime")
    _ ← find (codes "SessionFlags") m
    num ← read_data_var stream_int m (codes "SessionNum")
    _ ← copy_all (session_copies yaml num p)
    let max_display = convert_fuel_litres_to_display F p.conversion.factor p.max_fuel
    let m1 = add_data_var F m (codes "MaxFuel") max_display precision
    let p1 = finish_lap last fuel (change_session yaml num p)
    l ←
        race_limits F p1.settings.use_driver_laps_remaining p1.session_total_laps
          p1.session_total_time m1 p1.estimate.lap_time
    let m2 = add_entries m1 (limit_entries p1 l ++ fuel_entries p1 l fuel)
    cars ← find_cars yaml positions m2 num p1.estimate.lap_time
    publish p1 (add_entries m2 (car_entries cars))
