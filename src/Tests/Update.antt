-- ===== src/Tests/Update.antt =====
-- The main loop of src/irplugin/irplugin.cpp on a concrete input, in thousandths.
use ir_pit_crew.Prelude.{◌≡◌, refl, true, Option, none, some, List, [], ◌∷◌, ap, ◌∙◌}
use ir_pit_crew.Prelude.Int.{pos, negsuc, ◌*ℤ◌}
use ir_pit_crew.Prelude.Text.{Text, codes, text_eq, text_lt}
use ir_pit_crew.Dict.{find, insert, IsMap}
use ir_pit_crew.Floats.{nought}
use ir_pit_crew.Floats.Fixed.{milli, fixed}
use ir_pit_crew.Shared.{initial}
use ir_pit_crew.Server.Loop.{asks_update}
use ir_pit_crew.Config.Read.{defaults}
use ir_pit_crew.Plugin.DataMap.{add_string_data_var, read_data_var}
use ir_pit_crew.Plugin.Standings.{Yaml}
use ir_pit_crew.Plugin.Buffers.{fits_buffer}
use ir_pit_crew.Plugin.State.{Plugin, Outcome}
use ir_pit_crew.Plugin.Update.{collect, update}
use mathlib.Core.Option
use ir_pit_crew.Plugin.Update.ExtraLaps.{with_extra_laps, outcome_with, update-extra_laps}
use mathlib.Core.Path.{subst}
use ir_pit_crew.Plugin.Convert.{Conversion}
use ir_pit_crew.Plugin.Main.Running.{conversion-update}
use ir_pit_crew.Tests.Main.{fixed-IsScaling, no_float}
use ir_pit_crew.Plugin.Update.Once.{IsLapTime, update_once}
use ir_pit_crew.Plugin.Update.Published.{Holds, update_publishes}
use ir_pit_crew.Plugin.Update.Defined.{IsShortSession, update_is_defined}
use ir_pit_crew.Plugin.Update.Delivered.{IsDelivered}

-- A session info with nothing in it.
abbrev no_yaml : Text → Option Yaml
no_yaml path = none

abbrev variables : List (Text × Text)
variables =
    (codes "FuelLevel", codes "40")
    ∷ (codes "FuelLevelPct", codes "1")
    ∷ (codes "LapLastLapTime", codes "90000")
    ∷ (codes "SessionTime", codes "1000")
    ∷ (codes "SessionNum", codes "0")
    ∷ (codes "SessionTimeRemain", codes "60000")
    ∷ (codes "SessionLapsRemainEx", codes "5")
    ∷ (codes "Lap", codes "3")
    ∷ (codes "LapDistPct", codes "1")
    ∷ (codes "CarIdxLap", codes "3,3")
    ∷ (codes "CarIdxLapDistPct", codes "1,2")
    ∷ (codes "SessionFlags", codes "0")
    ∷ []

variables-IsDelivered : IsDelivered (collect [] variables)
unfolding collect add_string_data_var insert find text_lt text_eq
variables-IsDelivered = (
  (codes "40", refl),
  (
    (codes "1", refl),
    (
      (codes "90000", refl),
      (
        (codes "1000", refl),
        (
          (codes "0", refl),
          (
            (codes "60000", refl),
            (
              (codes "5", refl),
              (
                (codes "3", refl),
                (
                  (codes "1", refl),
                  ((codes "3,3", refl), ((codes "1,2", refl), ((codes "0", refl), tt))),
                ),
              ),
            ),
          ),
        ),
      ),
    ),
  ),
)

abbrev started : Plugin fixed
started = record {
  settings = defaults fixed;
  start_extra_laps = pos 0;
  kg_per_ltr = pos 750;
  conversion = record { factor = pos 1000; units = codes "ltr" };
  max_fuel = pos 60000;
  session_num = negsuc 0;
  session_total_laps = [];
  session_total_time = [];
  estimate = record { lap_time = pos 0; lap_fuel = pos 0 };
  old_lap_last_lap_time = negsuc 999;
  lap_data = record {
    lap_data_dir = codes "LapData";
    data_count_max = 0;
    lap_times = [];
    lap_fuels = [];
    current_track = [];
    current_car = [];
    last_fuel = negsuc 999;
  };
  storage = record { has_directory = λ d. true; can_write = λ p. true; files = λ p. none };
  shared = initial;
}

factor_above_zero : milli.lt (nought milli) (pos 1000) ≡ true
unfolding ◌*ℤ◌
factor_above_zero = refl

no_yaml-IsShortSession : IsShortSession no_yaml
unfolding fits_buffer
no_yaml-IsShortSession num = (refl, refl)

update_is_defined_example :
    (o : Outcome fixed) × (update fixed no_yaml 3 variables started ≡ some o)
update_is_defined_example =
    update_is_defined fixed no_yaml 3 variables started variables-IsDelivered factor_above_zero
      no_yaml-IsShortSession

Lap-variables : find (codes "Lap") (collect [] variables) ≡ some (codes "3")
unfolding collect add_string_data_var insert find text_lt text_eq
Lap-variables = refl

first_update : (o : Outcome fixed) × (update fixed no_yaml 3 variables started ≡ some o)
first_update =
    update_is_defined fixed no_yaml 3 variables started variables-IsDelivered factor_above_zero
      no_yaml-IsShortSession

update_publishes_example :
    IsMap first_update.0.plugin.shared.data_map
    × (find (codes "Lap") first_update.0.plugin.shared.data_map ≡ some (codes "3"))
    × (first_update.0.plugin.shared.fuel_message ≡ [])
    × (first_update.0.requests ≡ asks_update ∷ [])
update_publishes_example =
    update_publishes fixed no_yaml 3 variables started first_update.0 (codes "Lap") (codes "3")
      first_update.1 Lap-variables

update-extra_laps_example :
    update fixed no_yaml 3 variables (with_extra_laps fixed (pos 2000) started)
    ≡ Option.map (outcome_with fixed (pos 2000)) (update fixed no_yaml 3 variables started)
update-extra_laps_example = update-extra_laps fixed (pos 2000) no_yaml 3 variables started

abbrev lap_time : milli.Num
lap_time = fixed.read_single (codes "90000")

lap_time-variables : IsLapTime fixed lap_time variables
unfolding collect add_string_data_var insert find text_lt text_eq read_data_var
lap_time-variables = refl

factor_still_above_zero : milli.lt (nought milli) first_update.0.plugin.conversion.factor ≡ true
factor_still_above_zero =
    ap (λ (c : Conversion fixed). milli.lt (nought milli) c.factor)
      (subst (Holds (λ (o : Outcome fixed). o.plugin.conversion ≡ started.conversion))
        first_update.1
        (conversion-update fixed no_float no_float fixed-IsScaling no_yaml 3 variables started))
    ∙ factor_above_zero

second_update :
    (o : Outcome fixed) × (update fixed no_yaml 3 variables first_update.0.plugin ≡ some o)
second_update =
    update_is_defined fixed no_yaml 3 variables first_update.0.plugin variables-IsDelivered
      factor_still_above_zero no_yaml-IsShortSession

update_once_example :
    (second_update.0.plugin.lap_data ≡ first_update.0.plugin.lap_data)
    × (second_update.0.plugin.storage ≡ first_update.0.plugin.storage)
    × (second_update.0.plugin.estimate ≡ first_update.0.plugin.estimate)
update_once_example =
    update_once fixed no_yaml no_yaml 3 3 variables variables started first_update.0 second_update.0
      lap_time lap_time-variables lap_time-variables refl first_update.1 second_update.1
