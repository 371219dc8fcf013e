-- ===== src/Tests/Main.antt =====
-- The start of src/irplugin/irplugin.cpp, its main loop and its end on concrete inputs.
use ir_pit_crew.Prelude.{
  ◌≡◌, ◌↔◌, refl, true, false, Option, none, some, List, [], ◌∷◌, ◌++◌, map, arith, if◌then◌else◌,
  not, ◌>>=◌,
}
use ir_pit_crew.Prelude.Int.{ℤ, pos, quot, ◌*ℤ◌}
use ir_pit_crew.Prelude.Text.{Text, codes, text_eq}
use ir_pit_crew.Floats.{nought}
use ir_pit_crew.Floats.Fixed.{milli, fixed}
use ir_pit_crew.LapFuel.Files.{
  Storage, session_file_name, save_session_data, write_file, reset_session_data,
}
use ir_pit_crew.Plugin.State.{Outcome}
use ir_pit_crew.Plugin.Addresses.{named, address_lines, display_ips}
use ir_pit_crew.Plugin.Main.{
  turn_of, on_header, close, Header, Poll, no_data, ready, MainLoop, Turn, run, running,
  first_state, start,
}
use ir_pit_crew.Plugin.Main.Running.{new_session-IsReady, IsScaling, IsSoundHeader}
use ir_pit_crew.Config.Read.{config_file, read_config_data, read_file, settings_of}
use ir_pit_crew.LapFuel.Files.RoundTrip.{CanSave, reread}
use ir_pit_crew.Plugin.Main.Restart.{IsSameSession, close-start}
use ir_pit_crew.Plugin.NewSession.{car_name, new_session, number_at}
use ir_pit_crew.Plugin.Standings.{driver_path, Yaml}
use ir_pit_crew.Plugin.Buffers.{fits_buffer, driver_copies, AllFit}
use ir_pit_crew.Prelude.Number.{show_int, show_nat, digits_of, atoi}
use ir_pit_crew.Tests.LapFuel.{one_lap, fixed-IsPrinted}
use ir_pit_crew.Plugin.VarData.{VarHeader, int, size_of}
use ir_pit_crew.Plugin.Main.Rows.{IsSoundRow}
use ir_pit_crew.Shared.{initial}
use ir_pit_crew.Plugin.Main.Work.{IsWork}
use ir_pit_crew.Plugin.Main.Jobs.{jobs_of, program_jobs}
use ir_pit_crew.Plugin.Main.Start.{IsPort, start-running}

pub fixed-IsScaling : IsScaling fixed
unfolding ◌*ℤ◌ quot
fixed-IsScaling = record { one_pos = refl; gallon_pos = refl; pounds_pos = λ x h. ground arith }

abbrev pub no_float : Text → ℤ
no_float bytes = pos 0

abbrev pub empty_disk : Storage
empty_disk = record { has_directory = λ d. true; can_write = λ p. true; files = λ p. none }

abbrev pub dir : Text
dir = codes "data"

abbrev pub first : MainLoop fixed
first = first_state fixed dir empty_disk

first-IsPort : IsPort first.plugin.settings.server_port
unfolding first_state read_config_data read_file settings_of
first-IsPort = (omega arith, omega arith)

start-running_example :
    (start fixed true true dir empty_disk ≡ running first)
    ↔ ((true ≡ true) × (true ≡ true) × IsPort first.plugin.settings.server_port)
start-running_example = start-running fixed true true dir empty_disk

pub first-running : start fixed true true dir empty_disk ≡ running first
first-running = (start-running fixed true true dir empty_disk).1 (refl, refl, first-IsPort)

abbrev pub variable : Text → VarHeader
variable name = record { name = name; type = int; offset = 0; count = 1 }

abbrev pub variables : List VarHeader
variables = map variable (
    codes "FuelLevel"
    ∷ codes "FuelLevelPct"
    ∷ codes "LapLastLapTime"
    ∷ codes "SessionTime"
    ∷ codes "SessionNum"
    ∷ codes "SessionTimeRemain"
    ∷ codes "SessionLapsRemainEx"
    ∷ codes "Lap"
    ∷ codes "LapDistPct"
    ∷ codes "CarIdxLap"
    ∷ codes "CarIdxLapDistPct"
    ∷ codes "SessionFlags"
    ∷ [])

abbrev pub row : Text
row = 7 ∷ 0 ∷ 0 ∷ 0 ∷ []

pub row-IsSoundRow : IsSoundRow variables row
unfolding size_of text_eq
row-IsSoundRow = record { inside = ground arith; named = ground arith }

-- A session info with nothing in it.
abbrev pub header : Header
header = record {
  buf_len = 4;
  session_info = codes "---";
  yaml = λ path. none;
  variables = variables;
}

pub header-IsSoundHeader : IsSoundHeader fixed no_float no_float fixed-IsScaling header row
unfolding ◌*ℤ◌ driver_copies fits_buffer
header-IsSoundHeader = record {
  weight = refl;
  driver = tt;
  session = λ num. (refl, refl);
  row = row-IsSoundRow;
}

abbrev polls : List Poll
polls = no_data true ∷ ready (some header) row ∷ ready (some header) row ∷ no_data false ∷ []

program_jobs_example :
    (t : Turn fixed) × (run fixed no_float no_float dir 3 first polls ≡ some t)
    × IsWork
        (jobs_of fixed no_float no_float dir 3 first polls)
        initial
        t.main.plugin.shared
        t.requests
program_jobs_example =
    program_jobs fixed no_float no_float fixed-IsScaling true true dir empty_disk first 3 polls
      first-running (tt, (header-IsSoundHeader, (header-IsSoundHeader, (tt, tt))))

-- A session info with a track and a car.
abbrev oval_yaml : Text → Option Yaml
oval_yaml path =
    if text_eq path (codes "WeekendInfo:TrackName:")
    then some record { at = codes "oval"; len = 4 }
    else if text_eq path (codes "DriverInfo:DriverCarIdx:")
    then some record { at = codes "0"; len = 1 }
    else if text_eq path (driver_path (pos 0) (codes "CarPath:"))
    then some record { at = codes "truck"; len = 5 }
    else none

abbrev oval_header : Header
oval_header = record { buf_len = 4; session_info = codes "---"; yaml = oval_yaml; variables = [] }

-- The configuration cannot be written.
abbrev half_disk : Storage
half_disk = record empty_disk { can_write = λ p. not (text_eq p (config_file dir)) }

-- A lap has been recorded.
abbrev driven : MainLoop fixed
driven = record first {
  plugin = record first.plugin {
    lap_data = record one_lap { lap_data_dir = dir ++ codes "\\LapData" };
    storage = half_disk;
  };
}

driven-CanSave : CanSave fixed fixed-IsPrinted driven.plugin.lap_data driven.plugin.storage
unfolding config_file text_eq session_file_name
driven-CanSave = record {
  directory = refl;
  writable = refl;
  track = refl;
  car = refl;
  times = refl;
  fuels = refl;
}

driven-IsSameSession : IsSameSession fixed fixed-IsPrinted oval_header driven.plugin.lap_data
unfolding car_name text_eq driver_path show_int atoi
driven-IsSameSession = record { track = refl; car = refl }

abbrev closed : Storage
closed = (close fixed driven).main.plugin.storage

abbrev again : MainLoop fixed
again = first_state fixed dir closed

again-IsPort : IsPort again.plugin.settings.server_port
unfolding first_state read_config_data read_file settings_of close reset_session_data
    save_session_data write_file session_file_name config_file text_eq
again-IsPort = (omega arith, omega arith)

oval-weight :
    milli.lt
      (nought milli)
      (number_at fixed oval_yaml (codes "DriverInfo:DriverCarFuelKgPerLtr:") (milli.decimal 10 1))
    ≡ true
unfolding text_eq driver_path show_int ◌*ℤ◌
oval-weight = refl

oval-AllFit : AllFit (driver_copies oval_yaml)
unfolding driver_copies fits_buffer text_eq driver_path show_int atoi
oval-AllFit = (refl, (refl, (refl, tt)))

abbrev accepted :
    (o : Outcome fixed) × (new_session fixed oval_yaml (codes "---") dir again.plugin ≡ some o)
    × (milli.lt (nought milli) o.plugin.conversion.factor ≡ true)
accepted =
    new_session-IsReady fixed no_float no_float fixed-IsScaling oval_yaml (codes "---") dir
      again.plugin oval-weight oval-AllFit

abbrev back : Turn fixed
back = turn_of fixed (some 4) accepted.0

back-turn : on_header fixed dir again oval_header ≡ some back
unfolding on_header ◌>>=◌
back-turn = rw accepted.1 refl

close-start_example :
    (back.main.plugin.lap_data.lap_times ≡ map (reread fixed fixed-IsPrinted) (pos 90000 ∷ []))
    × (back.main.plugin.lap_data.lap_fuels ≡ map (reread fixed fixed-IsPrinted) (pos 2500 ∷ []))
close-start_example =
    close-start fixed fixed-IsPrinted dir driven again oval_header back refl driven-CanSave
      driven-IsSameSession ((start-running fixed true true dir closed).1 (refl, refl, again-IsPort))
      back-turn

-- Two addresses, with a port that has to be typed.
two_addresses :
    (display_ips
      (named (codes "pit"))
      (λ name. some (codes "10.0.0.2" ∷ codes "10.0.0.3" ∷ []))
      (pos 8080)).code
    ≡ 0
unfolding display_ips
two_addresses = refl

second_line :
    address_lines (pos 8080) 1 (codes "10.0.0.3" ∷ []) ≡ codes "Address 1: 10.0.0.3:8080\n"
unfolding address_lines show_int show_nat digits_of
second_line = refl
