-- ===== src/Shared.antt =====
-- src/SharedData/SharedData.cpp: the three values that the plugin loop and the server thread
-- share. Every method holds the mutex for its whole body, so a run of both threads is a sequence
-- of calls; `run` takes one in the order in which the mutex was taken.
pub mod Mailbox
use ir_pit_crew.Prelude.{List, [], ◌∷◌}
use ir_pit_crew.Prelude.Text.{Text}
use ir_pit_crew.Dict.{Dict}

pub record SharedData : Type 0 where
  pub session_info : Text
  pub data_map : Dict
  pub fuel_message : Text

-- The constructor leaves every member empty.
abbrev pub initial : SharedData
initial = record { session_info = []; data_map = []; fuel_message = [] }

unfoldable pub set_session_info : SharedData → Text → SharedData
set_session_info s info = record s { session_info = info }

unfoldable pub get_session_info : SharedData → Text × SharedData
get_session_info s = (s.session_info, s)

unfoldable pub set_data : SharedData → Dict → SharedData
set_data s m = record s { data_map = m }

unfoldable pub get_data : SharedData → Dict × SharedData
get_data s = (s.data_map, s)

unfoldable pub set_fuel_message : SharedData → Text → SharedData
set_fuel_message s msg = record s { fuel_message = msg }

-- Reading the message takes it out.
unfoldable pub get_fuel_message : SharedData → Text × SharedData
get_fuel_message s = (s.fuel_message, record s { fuel_message = [] })

pub data Call : Type 0 where
  put_session_info : Text → Call
  take_session_info : Call
  put_data : Dict → Call
  take_data : Call
  put_fuel_message : Text → Call
  take_fuel_message : Call

pub data Reply : Type 0 where
  done : Reply
  info : Text → Reply
  table : Dict → Reply
  message : Text → Reply

unfoldable pub perform : SharedData → Call → Reply × SharedData
unfolding set_session_info get_session_info set_data get_data set_fuel_message get_fuel_message
perform s (put_session_info t) = (done, set_session_info s t)
perform s take_session_info = let (t, s') = get_session_info s in (info t, s')
perform s (put_data m) = (done, set_data s m)
perform s take_data = let (m, s') = get_data s in (table m, s')
perform s (put_fuel_message t) = (done, set_fuel_message s t)
perform s take_fuel_message = let (t, s') = get_fuel_message s in (message t, s')

unfoldable pub run : SharedData → List Call → List Reply × SharedData
unfolding perform
run s [] = ([], s)
run s (c ∷ cs) = let (r, s') = perform s c in let (rs, s'') = run s' cs in (r ∷ rs, s'')
