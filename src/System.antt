-- ===== src/System.antt =====
-- The two threads and a client together: what src/irplugin/irplugin.cpp does to the shared values and
-- to the server thread of src/WebServer/WebServerLWS.cpp, and the messages that the client reads. A
-- step is one call or one access of a flag, so a run is any interleaving of both threads. A run has
-- at most one socket of the data protocol open at a time, as the comment on the static
-- `s_connectionReset` assumes; a client may connect again when its socket is closed.
pub mod Delivery
pub mod Consistent
pub mod ToCallback
pub mod CatchUp
pub mod LastMap
use ir_pit_crew.Prelude.{
  ℕ, ◌≡◌, Bool, true, false, ◌||◌, Option, none, some, List, [], ◌∷◌, if◌then◌else◌,
}
use ir_pit_crew.Prelude.Text.{Text, codes, text_eq}
use ir_pit_crew.Dict.{Dict}
use ir_pit_crew.Shared.{
  SharedData, initial, set_session_info, set_data, set_fuel_message, get_fuel_message,
}
use ir_pit_crew.Server.Loop.{
  Flags, start, loop_step, in_service, on_established, update_client, reset_connection,
}
use ir_pit_crew.Server.Loop
use ir_pit_crew.Server.Update.{Sync, on_writable, c_string}
use ir_pit_crew.Server.Update.Delta.{View, apply_message}

-- The calls that the main loop makes of the shared values and of the server thread.
pub data Task : Type 0 where
  put_info : Text → Task
  put_map : Dict → Task
  take_message : Task
  ask_reset : Task
  ask_update : Task

-- A turn of the main loop: a new header, with its session info, or a set of telemetry, with the
-- map that is made from it.
pub data Job : Type 0 where
  new_header : Text → Job
  telemetry : Dict → Job

unfoldable pub tasks : Job → List Task
tasks (new_header info) = put_info info ∷ put_map [] ∷ ask_reset ∷ ask_update ∷ []
tasks (telemetry m) = put_map m ∷ ask_update ∷ take_message ∷ []

pub record System : Type 0 where
  pub flags : Flags
  pub shared : SharedData
  -- `s_lastSentDataStrMap`
  pub last_sent : Dict
  -- a socket of the data protocol is open
  pub is_open : Bool
  -- the last value that the client has read for each name out of its messages
  pub view : View
  -- what the main loop has still to do in its turn
  pub todo : List Task
  -- in the writable callback, the map that its first read gave
  pub reading : Option Dict

unfoldable pub begin : System
unfolding start
begin = record {
  flags = start;
  shared = initial;
  last_sent = [];
  is_open = false;
  view = λ tag. none;
  todo = [];
  reading = none;
}

unfoldable pub perform : Task → System → System
unfolding set_session_info set_data get_fuel_message reset_connection update_client
perform (put_info info) s = record s { shared = set_session_info s.shared info }
perform (put_map m) s = record s { shared = set_data s.shared m }
perform take_message s = record s { shared = (get_fuel_message s.shared).1 }
perform ask_reset s = record s { flags = reset_connection s.flags }
perform ask_update s = record s { flags = update_client s.flags }

-- A new socket: its page holds nothing, or what it has read before it connected again.
unfoldable pub connect : View → System → System
unfolding on_established
connect view s = record s { flags = on_established s.flags; is_open = true; view = view }

-- The socket is closed, and a writable callback it has been asked for is not made.
unfoldable pub disconnect : System → System
disconnect s = record s { flags = record s.flags { writable_asked = false }; is_open = false }

-- A step of the server's loop with no socket open:
-- `libwebsocket_callback_on_writable_all_protocol` has no socket to ask.
unfoldable pub loop_alone : System → System
unfolding loop_step
loop_alone s = record s {
  flags = record (loop_step s.flags.place s.flags) { writable_asked = false };
}

-- A message of the client, which is ignored if it is empty; the answer to a heartbeat has no data
-- portion.
unfoldable pub receive : Text → System → System
unfolding c_string set_fuel_message
receive [] s = s
receive (b ∷ bytes) s =
    let input = c_string (b ∷ bytes) in
    if text_eq input (codes "heartbeat")
    then s
    else record s { shared = set_fuel_message s.shared input }

abbrev pub sync_of : System → Sync
sync_of s = record { connection_reset = s.flags.connection_reset; last_sent = s.last_sent }

-- The rest of the writable callback, from the map that was read on.
unfoldable pub send : Dict → System → System
unfolding on_writable Loop.on_writable
send m s =
    let (msg, sync) = on_writable (sync_of s) (record s.shared { data_map = m }) s.shared in
    record s {
      flags = Loop.on_writable s.flags;
      last_sent = sync.last_sent;
      view = apply_message s.view msg;
      reading = none;
    }

-- One step of one thread.
pub data Step : System → System → Type 0 where
  loops :
      {s : System}
      → s.is_open ≡ true
      → s.reading ≡ none
      → Step s (record s { flags = loop_step s.flags.place s.flags })
  loops_alone : {s : System} → s.is_open ≡ false → s.reading ≡ none → Step s (loop_alone s)
  connects :
      {s : System} (view : View)
      → s.is_open ≡ false
      → in_service s.flags.place ≡ true
      → s.reading ≡ none
      → Step s (connect view s)
  disconnects :
      {s : System}
      → s.is_open ≡ true
      → in_service s.flags.place ≡ true
      → s.reading ≡ none
      → Step s (disconnect s)
  receives :
      {s : System} (bytes : Text)
      → s.is_open ≡ true
      → in_service s.flags.place ≡ true
      → s.reading ≡ none
      → Step s (receive bytes s)
  reads :
      {s : System}
      → s.is_open ≡ true
      → in_service s.flags.place ≡ true
      → s.flags.writable_asked ≡ true
      → s.reading ≡ none
      → Step s (record s { reading = some s.shared.data_map })
  sends : {s : System} (m : Dict) → s.reading ≡ some m → Step s (send m s)
  works :
      {s : System} (t : Task) (ts : List Task)
      → s.todo ≡ t ∷ ts
      → Step s (record (perform t s) { todo = ts })

-- What can be reached from the start with these turns of the main loop, the last one first.
pub data Run : List Job → System → Type 0 where
  begins : Run [] begin
  steps : {jobs : List Job} {s s' : System} → Run jobs s → Step s s' → Run jobs s'
  turns :
      {jobs : List Job} {s : System} (job : Job)
      → Run jobs s
      → s.todo ≡ []
      → Run (job ∷ jobs) (record s { todo = tasks job })
