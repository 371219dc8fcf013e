-- ===== src/Plugin/Main.antt =====
-- `_tmain` of src/irplugin/irplugin.cpp around its two branches: the start of the program, a turn of
-- the main loop, and the handler that ends the program.
pub mod Rows
pub mod Running
pub mod Start
pub mod Restart
pub mod Work
pub mod Outcomes
pub mod Jobs
pub mod Fit
pub mod Shown
pub mod Variables
use ir_pit_crew.Prelude.{
  ℕ, Bool, true, false, not, ◌||◌, Option, none, some, List, [], ◌∷◌, ◌++◌, ◌==◌, ◌>>=◌,
  if◌then◌else◌,
}
use ir_pit_crew.Prelude.Int.{ℤ, pos, negsuc, lt_ℤ, le_ℤ}
use ir_pit_crew.Prelude.Text.{Text, codes}
use ir_pit_crew.Shared.{initial}
use ir_pit_crew.Server.Loop.{Action, asks_stop}
use ir_pit_crew.Floats.{Floats, nought, minus_one}
use ir_pit_crew.LapFuel.Files.{Storage, create, reset_session_data}
use ir_pit_crew.Config.Read.{config_file, read_config_data}
use ir_pit_crew.Plugin.Convert.{calculate_fuel_display_conversion_factor}
use ir_pit_crew.Plugin.PitCommand.{Broadcast}
use ir_pit_crew.Plugin.Standings.{Yaml}
use ir_pit_crew.Plugin.VarData.{VarHeader, VarData, not_read, outside, value, get_var_data}
use ir_pit_crew.Plugin.State.{Plugin, Outcome}
use ir_pit_crew.Plugin.NewSession.{new_session}
use ir_pit_crew.Plugin.Update.{precision, update}

-- What the loop uses of the SDK's header: the length of a row of data, the session info with the
-- function that reads it, and the variables.
pub record Header : Type 0 where
  pub buf_len : ℕ
  pub session_info : Text
  pub yaml : Text → Option Yaml
  pub variables : List VarHeader

-- What `irsdk_waitForDataReady` leads to.
pub data Poll : Type 0 where
  -- no new row; `irsdk_isConnected`
  no_data : Bool → Poll
  -- a row; the header is `none` for NULL
  ready : Option Header → Text → Poll

-- `if (irsdk_getVarData_local(...)) addStringDataVarToMap(...)`, before the variables behind it.
unfoldable pub add_variable : VarData → List (Text × Text) → Option (List (Text × Text))
add_variable not_read rest = some rest
add_variable outside rest = none
add_variable (value name t) rest = some ((name, t) ∷ rest)

-- `!data || nData != pHeader->bufLen`
unfoldable pub is_new_header : Option ℕ → ℕ → Bool
is_new_header none len = true
is_new_header (some n) len = not (n == len)

-- `g_serverPort <= 0 || g_serverPort > 65535`
unfoldable pub is_bad_port : ℤ → Bool
is_bad_port port = le_ℤ port (pos 0) || lt_ℤ (pos 65535) port

-- With no new row, the data is given up once the simulator is gone.
abbrev pub on_no_data : Bool → Option ℕ → Option ℕ
on_no_data connected buffer = if connected then buffer else none

-- `end_session`, as far as it is not about the SDK.
abbrev pub end_session : Option ℕ → Option ℕ
end_session buffer = none

module _ (F : Floats) where
  open F use {single, double}

  -- `nData`, as long as `data` is allocated.
  pub record MainLoop : Type 0 where
    pub plugin : Plugin F
    pub buffer : Option ℕ

  pub record Turn : Type 0 where
    pub main : MainLoop
    pub requests : List Action
    pub broadcasts : List Broadcast

  abbrev pub turn_of : Option ℕ → Outcome F → Turn
  turn_of buffer o = record {
    main = record { plugin = o.plugin; buffer = buffer };
    requests = o.requests;
    broadcasts = o.broadcasts;
  }

  abbrev idle : MainLoop → Option ℕ → Turn
  idle m buffer = record { main = record m { buffer = buffer }; requests = []; broadcasts = [] }

  unfoldable pub on_header : Text → MainLoop → Header → Option Turn
  unfolding new_session
  on_header data_dir m h = do
    o ← new_session F h.yaml h.session_info data_dir m.plugin
    some (turn_of (some h.buf_len) o)

  -- How the program starts: it returns at once, or enters the loop.
  pub data Startup : Type 0 where
    second_instance : Startup
    no_handler : Startup
    bad_port : ℤ → Storage → Startup
    running : MainLoop → Startup

  -- The variables of `_tmain` before the loop, behind the reading of the configuration.
  unfoldable pub first_state : Text → Storage → MainLoop
  unfolding config_file read_config_data create calculate_fuel_display_conversion_factor
  first_state data_dir storage =
      let (s, st) = read_config_data F (config_file data_dir) [] storage in
      record {
        plugin = record {
          settings = s;
          start_extra_laps = s.extra_laps_of_fuel;
          kg_per_ltr = double.decimal 10 1;
          conversion =
              calculate_fuel_display_conversion_factor F s.display_fuel_imperial
                (double.decimal 10 1) s.display_fuel_imperial s.display_car_fuel_as_weight;
          max_fuel = minus_one double;
          session_num = negsuc 0;
          session_total_laps = [];
          session_total_time = [];
          estimate = record { lap_time = minus_one single; lap_fuel = minus_one single };
          old_lap_last_lap_time = minus_one single;
          lap_data = create F data_dir;
          storage = st;
          shared = initial;
        };
        buffer = none;
      }

  -- Whether no other instance holds the mutex, whether the handler could be set, the directory and
  -- the files.
  unfoldable pub start : Bool → Bool → Text → Storage → Startup
  unfolding first_state is_bad_port
  start is_first has_handler data_dir storage =
      let m = first_state data_dir storage in
      if not is_first
      then second_instance
      else if not has_handler
      then no_handler
      else if is_bad_port m.plugin.settings.server_port
      then bad_port m.plugin.settings.server_port m.plugin.storage
      else running m

  -- `CloseConsoleHandler`, as if between two turns: the laps are saved, the server thread is
  -- stopped, and with `end_session` the data is gone.
  unfoldable pub close : MainLoop → Turn
  unfolding reset_session_data
  close m =
      let (laps, st) = reset_session_data F m.plugin.lap_data [] [] m.plugin.storage in
      record {
        main = record {
          plugin = record m.plugin { lap_data = laps; storage = st };
          buffer = end_session m.buffer;
        };
        requests = asks_stop ∷ [];
        broadcasts = [];
      }

-- The SDK's readings of the bytes of a `float` and of a `double`.
module _ (F : Floats) (single_of : Text → F.single.Num) (double_of : Text → F.double.Num) where
  -- The loop over the variables; `none` for a read outside of the row.
  unfoldable pub read_variables : List VarHeader → Text → Option (List (Text × Text))
  unfolding add_variable get_var_data
  read_variables [] bytes = some []
  read_variables (var ∷ vars) bytes = do
    rest ← read_variables vars bytes
    add_variable (get_var_data F single_of double_of precision (some var) (some bytes)) rest

  unfoldable pub on_telemetry : ℕ → MainLoop F → Header → Text → Option (Turn F)
  unfolding read_variables update
  on_telemetry positions m h bytes = do
    vars ← read_variables h.variables bytes
    o ← update F h.yaml positions vars m.plugin
    some (turn_of F m.buffer o)

  -- One turn of the loop, with the directory of the data, and fuel for the positions of a session;
  -- `none` is a failed assertion, or a read outside of the row.
  unfoldable pub turn : Text → ℕ → MainLoop F → Poll → Option (Turn F)
  unfolding is_new_header on_telemetry on_header
  turn data_dir positions m (no_data connected) = some (idle F m (on_no_data connected m.buffer))
  turn data_dir positions m (ready none bytes) = some (idle F m m.buffer)
  turn data_dir positions m (ready (some h) bytes) =
      if is_new_header m.buffer h.buf_len
      then on_header F data_dir m h
      else on_telemetry positions m h bytes

  -- Turn after turn, with all the requests and broadcasts in order.
  unfoldable pub run : Text → ℕ → MainLoop F → List Poll → Option (Turn F)
  unfolding turn
  run data_dir positions m [] = some (idle F m m.buffer)
  run data_dir positions m (poll ∷ polls) = do
    t ← turn data_dir positions m poll
    rest ← run data_dir positions t.main polls
    some record {
      main = rest.main;
      requests = t.requests ++ rest.requests;
      broadcasts = t.broadcasts ++ rest.broadcasts;
    }
