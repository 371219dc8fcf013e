-- ===== src/Plugin/State.antt =====
-- The variables of `_tmain` in src/irplugin/irplugin.cpp, globals included, and what the loop does
-- to the rest of the program: the calls of the server thread are the requests of an outcome, those
-- of `irsdk_broadcastMsg` its broadcasts.
use ir_pit_crew.Prelude.{List}
use ir_pit_crew.Prelude.Int.{ℤ}
use ir_pit_crew.Prelude.Text.{Text}
use ir_pit_crew.Shared.{SharedData}
use ir_pit_crew.Server.Loop.{Action}
use ir_pit_crew.Floats.{Floats}
use ir_pit_crew.LapFuel.{LapFuelData}
use ir_pit_crew.LapFuel.Files.{Storage}
use ir_pit_crew.LapFuel.Estimate.{Estimate}
use ir_pit_crew.Config.Read.{Settings}
use ir_pit_crew.Plugin.Convert.{Conversion}
use ir_pit_crew.Plugin.PitCommand.{Broadcast}

module _ (F : Floats) where
  open F use {single, double, widen, atof, read_single, read_double}

  -- The variables of the loop, and what it shares with the rest of the program.
  pub record Plugin : Type 0 where
    pub settings : Settings F
    -- `extraLapsOfFuel` of `_tmain`, which is read when the program starts
    pub start_extra_laps : double.Num
    pub kg_per_ltr : double.Num
    pub conversion : Conversion F
    pub max_fuel : double.Num
    pub session_num : ℤ
    pub session_total_laps : Text
    pub session_total_time : Text
    pub estimate : Estimate F
    pub old_lap_last_lap_time : single.Num
    pub lap_data : LapFuelData F
    pub storage : Storage
    pub shared : SharedData

  pub record Outcome : Type 0 where
    pub plugin : Plugin
    pub requests : List Action
    pub broadcasts : List Broadcast
