-- ===== src/Closing.antt =====
-- The end of the program while its threads go on: CloseConsoleHandler of src/irplugin/irplugin.cpp,
-- which Windows calls in a thread of its own, the calls that `_tmain` makes of the object of the
-- server thread, and the thread itself (src/WebServer/WebServerLWS.cpp). A step is one call or one
-- access of the pointer `webServerP`.
pub mod Safe
pub mod Calls
pub mod Ends
pub mod Hangs
use ir_pit_crew.Prelude.{
  ◌≡◌, ◌≢◌, Bool, true, false, Option, none, some, List, [], ◌∷◌, if◌then◌else◌,
}
use ir_pit_crew.Server.Loop.{
  Place, Flags, begin_thread, loop_step, update_client, reset_connection, stop,
}
use ir_pit_crew.Server.Loop

-- What `webServerP` points to.
pub data Object : Type 0 where
  null live freed : Object

-- The statements of `_tmain` that use the pointer.
pub data Call : Type 0 where
  -- `webServerP = new WebServerLWS(g_serverPort)`
  creates : Call
  -- `assert(webServerP != nullptr)`
  asserts : Call
  -- `webServerP->start(&sharedData)`, `resetConnection()`, `updateClient()`
  starts resets updates : Call

-- What has become of the main loop: an assertion ends the program, and a call through a null
-- pointer or of a deleted object has no meaning.
pub data Fate : Type 0 where
  going failed crashed misused : Fate

-- Where the handler stands.
pub data Handler : Type 0 where
  not_called : Handler
  -- at `ResetSessionData`, and at `if (webServerP != nullptr)`
  saving testing : Handler
  -- in `stop`: at `setIsThreadRunning(false)`, and at `join`
  stopping joining : Handler
  -- in `delete`: the same calls of `stop` by the destructor, and the release of the memory
  destroying destroying_join freeing : Handler
  -- at `webServerP = nullptr`, at `end_session(true)`, and behind `ExitProcess(0)`
  nulling ending exited : Handler

pub record Program : Type 0 where
  -- whether libwebsockets gives the thread a context
  pub has_context : Bool
  pub object : Object
  -- `m_webServerThread` with the members that it and its callers read and write; `none` before
  -- `start`
  pub thread : Option Flags
  pub todo : List Call
  pub fate : Fate
  pub handler : Handler

-- `_tmain` behind the checks of its start.
abbrev pub begin : Bool → Program
begin has_context = record {
  has_context = has_context;
  object = null;
  thread = none;
  todo = creates ∷ asserts ∷ starts ∷ [];
  fate = going;
  handler = not_called;
}

-- The calls of a turn of the main loop: for a new header, or for a set of telemetry.
unfoldable pub turn_calls : Bool → List Call
turn_calls true = asserts ∷ resets ∷ updates ∷ []
turn_calls false = asserts ∷ updates ∷ []

-- A call of a method, which needs an object.
unfoldable pub on_object : Object → Program → Program → Program
on_object live after s = after
on_object null after s = record s { fate = crashed }
on_object freed after s = record s { fate = misused }

abbrev pub on_thread : (Flags → Flags) → Option Flags → Option Flags
on_thread f none = none
on_thread f (some flags) = some (f flags)

unfoldable pub perform : Call → Program → Program
unfolding on_object begin_thread update_client reset_connection
perform creates s = record s { object = live }
perform asserts s = elim s.object [ null ↦ record s { fate = failed } | _ ↦ s ]
perform starts s = on_object s.object (record s { thread = some (begin_thread s.has_context) }) s
perform resets s = on_object s.object (record s { thread = on_thread reset_connection s.thread }) s
perform updates s = on_object s.object (record s { thread = on_thread update_client s.thread }) s

-- `joinable()` is false before the thread has begun.
unfoldable pub is_joined : Option Flags → Bool
is_joined none = true
is_joined (some f) = elim f.place [ Place.stopped ↦ true | _ ↦ false ]

-- One step of the handler.
unfoldable pub handle : Handler → Program → Program
unfolding is_joined stop
handle not_called s = s
handle saving s = record s { handler = testing }
handle testing s = record s { handler = elim s.object [ null ↦ ending | _ ↦ stopping ] }
handle stopping s = record s { thread = on_thread stop s.thread; handler = joining }
handle joining s = if is_joined s.thread then record s { handler = destroying } else s
handle destroying s = record s { thread = on_thread stop s.thread; handler = destroying_join }
handle destroying_join s = if is_joined s.thread then record s { handler = freeing } else s
handle freeing s = record s { object = freed; handler = nulling }
handle nulling s = record s { object = null; handler = ending }
handle ending s = record s { handler = exited }
handle exited s = s

-- One step of one thread, as long as the main loop has a meaning.
pub data Step : Program → Program → Type 0 where
  calls :
      {s : Program} (c : Call) (cs : List Call)
      → s.todo ≡ c ∷ cs
      → Step s (perform c (record s { todo = cs }))
  turns :
      {s : Program} (is_header : Bool)
      → s.todo ≡ []
      → Step s (record s { todo = turn_calls is_header })
  serves :
      {s : Program} (f : Flags)
      → s.thread ≡ some f
      → Step s (record s { thread = some (loop_step f.place f) })
  closes : {s : Program} → s.handler ≡ not_called → Step s (record s { handler = saving })
  handles : {s : Program} → Step s (handle s.handler s)

-- What can be reached before the program has ended.
pub data Run (s : Program) : Program → Type 0 where
  here : Run s s
  more : {a b : Program} → Run s a → a.fate ≡ going → a.handler ≢ exited → Step a b → Run s b
