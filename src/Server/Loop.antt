-- ===== src/Server/Loop.antt =====
-- The thread's loop (`WebServerLWS::runThread`) beside the requests that the plugin loop makes of
-- it (`updateClient`, `resetConnection`, `stop`). The flags are read and written by both threads
-- with no lock, so each access of a flag is a step of its own, and a run is any sequence of steps.
pub mod Requests
pub mod Stop
use ir_pit_crew.Prelude.{
  ltb, leb, ◌&&◌, ◌||◌, ◌≢◌, ℕ, zero, suc, ◌+◌, ◌<◌, ◌≡◌, refl, Bool, true, false, List, [], ◌∷◌,
  arith, if◌then◌else◌,
}

-- Where the server thread stands.
pub data Place : Type 0 where
  -- at `while (this->getIsThreadRunning())`
  test_running : Place
  -- in `libwebsocket_service`, which runs the callbacks
  service : Place
  -- at `if (m_updateClient)`, and at the assignment below it
  test_update clear_update : Place
  -- at `if (m_resetConnection)`, and at the two assignments below it
  test_reset set_static clear_reset : Place
  -- at `libwebsocket_callback_on_writable_all_protocol`
  ask_writable : Place
  -- behind the loop
  stopped : Place

pub record Flags : Type 0 where
  pub place : Place
  pub is_running : Bool
  pub update_client : Bool
  pub reset_connection : Bool
  -- the static `s_connectionReset`
  pub connection_reset : Bool
  -- libwebsockets has been asked for a writable callback and has not made it
  pub writable_asked : Bool
  -- how many messages with all the data have been written
  pub full_updates : ℕ

-- `start`: the flags are cleared before the thread begins; the static one begins as true.
unfoldable pub start : Flags
start = record {
  place = test_running;
  is_running = true;
  update_client = false;
  reset_connection = false;
  connection_reset = true;
  writable_asked = false;
  full_updates = 0;
}

-- How the thread begins: without a context of libwebsockets it returns at once.
unfoldable pub begin_thread : Bool → Flags
unfolding start
begin_thread has_context = if has_context then start else record start { place = stopped }

-- One step of the loop.
unfoldable pub loop_step : Place → Flags → Flags
loop_step test_running f = record f { place = if f.is_running then service else stopped }
loop_step service f = record f { place = test_update }
loop_step test_update f = record f {
  place = if f.update_client then clear_update else test_running;
}
loop_step clear_update f = record f { update_client = false; place = test_reset }
loop_step test_reset f = record f {
  place = if f.reset_connection then set_static else ask_writable;
}
loop_step set_static f = record f { connection_reset = true; place = clear_reset }
loop_step clear_reset f = record f { reset_connection = false; place = ask_writable }
loop_step ask_writable f = record f { writable_asked = true; place = test_running }
loop_step stopped f = f

-- The callbacks run only inside `libwebsocket_service`.
unfoldable pub in_service : Place → Bool
in_service service = true
in_service _ = false

-- `LWS_CALLBACK_ESTABLISHED`
unfoldable pub on_established : Flags → Flags
on_established f = record f { connection_reset = true }

-- `LWS_CALLBACK_SERVER_WRITEABLE`: all the data if the static flag is set.
unfoldable pub on_writable : Flags → Flags
on_writable f =
    let sent = record f { connection_reset = false; writable_asked = false } in
    if f.connection_reset then record sent { full_updates = f.full_updates + 1 } else sent

-- `setIsThreadRunning`, which holds a mutex; `getIsThreadRunning` is the field.
abbrev pub set_is_thread_running : Bool → Flags → Flags
set_is_thread_running is_running f = record f { is_running = is_running }

-- `updateClient`, `resetConnection` and the first half of `stop`.
unfoldable pub update_client : Flags → Flags
update_client f = record f { update_client = true }

unfoldable pub reset_connection : Flags → Flags
reset_connection f = record f { reset_connection = true }

unfoldable pub stop : Flags → Flags
stop f = set_is_thread_running false f

-- Who makes the next step.
pub data Action : Type 0 where
  server : Action
  established : Action
  writable : Action
  asks_update : Action
  asks_reset : Action
  asks_stop : Action

unfoldable pub act : Action → Flags → Flags
unfolding loop_step in_service on_established on_writable update_client reset_connection stop
act server f = loop_step f.place f
act established f = if in_service f.place then on_established f else f
act writable f = if in_service f.place then (if f.writable_asked then on_writable f else f) else f
act asks_update f = update_client f
act asks_reset f = reset_connection f
act asks_stop f = stop f

unfoldable pub run : List Action → Flags → Flags
run [] f = f
run (a ∷ actions) f = run actions (act a f)
