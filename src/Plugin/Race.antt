-- ===== src/Plugin/Race.antt =====
-- The race calculation of the main loop in src/irplugin/irplugin.cpp: what is left of the session,
-- by time and by laps.
pub mod Bounds
use ir_pit_crew.Prelude.{Bool, true, false, Option, some, ◌>>=◌, if◌then◌else◌}
use ir_pit_crew.Prelude.Int.{ℤ, pos, ◌+ℤ◌, ◌-ℤ◌, lt_ℤ, le_ℤ}
use ir_pit_crew.Prelude.Number.{atoi, stream_int}
use ir_pit_crew.Prelude.Text.{Text, codes, text_eq}
use ir_pit_crew.Dict.{Dict}
use ir_pit_crew.Floats.{Floats, nought, minus_one}
use ir_pit_crew.Plugin.DataMap.{read_data_var}

-- `IRSDK_UNLIMITED_LAPS`
abbrev pub unlimited_laps : ℤ
unlimited_laps = pos 32767

module _ (F : Floats) where
  open F use {single, double, widen, atof, read_double}

  -- `IRSDK_UNLIMITED_TIME`
  abbrev pub unlimited_time : double.Num
  unlimited_time = double.decimal 6048000 1

  pub record Limits : Type 0 where
    pub total_time : double.Num
    pub remaining_time : double.Num
    pub elapsed_time : double.Num
    pub total_laps_min : double.Num
    pub total_laps_max : double.Num
    pub remaining_laps_min : double.Num
    pub remaining_laps_max : double.Num

  abbrev pub no_limits : Limits
  no_limits = record {
    total_time = minus_one double;
    remaining_time = minus_one double;
    elapsed_time = minus_one double;
    total_laps_min = minus_one double;
    total_laps_max = minus_one double;
    remaining_laps_min = minus_one double;
    remaining_laps_max = minus_one double;
  }

  -- Laps from times, if the lap time is estimated.
  unfoldable pub laps_of_times : single.Num → Limits → Limits
  laps_of_times lap_time l =
      if single.lt (nought single) lap_time
      then (let total = double.div l.total_time (widen lap_time) in
          let left = double.div l.remaining_time (widen lap_time) in
          record l {
            total_laps_min = total;
            remaining_laps_min = left;
            total_laps_max = double.add (double.ceil total) (double.of_int (pos 1));
            remaining_laps_max = double.add left (double.of_int (pos 2));
          })
      else l

  abbrev pub not_below_zero : double.Num → double.Num
  not_below_zero x = if double.lt x (nought double) then nought double else x

  unfoldable pub stop_at_zero : Limits → Limits
  stop_at_zero l = record l {
    remaining_time = not_below_zero l.remaining_time;
    remaining_laps_min = not_below_zero l.remaining_laps_min;
    remaining_laps_max = not_below_zero l.remaining_laps_max;
  }

  -- A session with a limit on its time: the text of the limit and `SessionTimeRemain`.
  unfoldable pub limits_by_time : Text → double.Num → single.Num → Limits
  unfolding laps_of_times stop_at_zero
  limits_by_time total_text time_remain lap_time =
      let total = atof total_text in
      let left = if double.lt time_remain unlimited_time then time_remain else minus_one double in
      stop_at_zero (
        laps_of_times lap_time (record no_limits {
          total_time = total;
          remaining_time = left;
          elapsed_time = double.sub total left;
        }))

  -- The laps that count: those of the session, or those of the driver.
  unfoldable pub race_laps_remain : Bool → ℤ → ℤ → ℤ → ℤ
  race_laps_remain use_driver session_laps remain_ex driver_lap =
      if use_driver
      then session_laps -ℤ (if lt_ℤ driver_lap (pos 1) then pos 1 else driver_lap) +ℤ pos 1
      else remain_ex

  -- A limit on the laps replaces the limits by time if it is closer, or if there are none.
  unfoldable pub limits_by_laps : ℤ → ℤ → Limits → Limits
  limits_by_laps session_laps laps_remain l =
      let laps = double.of_int laps_remain in
      if (if double.lt l.remaining_laps_max (nought double)
        then true
        else double.lt laps l.remaining_laps_max)
      then record {
        total_time = minus_one double;
        remaining_time = minus_one double;
        elapsed_time = minus_one double;
        total_laps_min = double.of_int session_laps;
        total_laps_max = double.of_int session_laps;
        remaining_laps_min = laps;
        remaining_laps_max = laps;
      }
      else l

  -- `g_SessionTotalTime` is tested and the variable read; `none` is a failed assertion.
  unfoldable pub time_step : Text → Dict → single.Num → Option Limits
  unfolding limits_by_time read_data_var
  time_step total_time m lap_time =
      if text_eq total_time (codes "unlimited") then some no_limits else do
        left ← read_data_var read_double m (codes "SessionTimeRemain")
        some (limits_by_time total_time left lap_time)

  -- The lap the driver is in is read only if it is used.
  unfoldable pub driver_lap_of : Bool → Dict → Option ℤ
  unfolding read_data_var
  driver_lap_of use_driver m =
      if use_driver then read_data_var stream_int m (codes "Lap") else some (pos 0)

  unfoldable pub lap_step_of : Bool → ℤ → ℤ → Dict → Limits → Option Limits
  unfolding limits_by_laps race_laps_remain driver_lap_of
  lap_step_of use_driver laps left m l =
      if (if le_ℤ left unlimited_laps then le_ℤ unlimited_laps left else false) then some l else do
        lap ← driver_lap_of use_driver m
        some (limits_by_laps laps (race_laps_remain use_driver laps left lap) l)

  unfoldable pub lap_step : Bool → Text → Dict → Limits → Option Limits
  unfolding lap_step_of read_data_var
  lap_step use_driver total_laps m l = if text_eq total_laps (codes "unlimited") then some l else do
    left ← read_data_var stream_int m (codes "SessionLapsRemainEx")
    lap_step_of use_driver (atoi total_laps) left m l

  -- The two steps, with the driver's setting and the texts of the session's two limits.
  unfoldable pub race_limits : Bool → Text → Text → Dict → single.Num → Option Limits
  unfolding time_step lap_step
  race_limits use_driver total_laps total_time m lap_time = do
    l ← time_step total_time m lap_time
    lap_step use_driver total_laps m l
