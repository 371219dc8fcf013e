-- ===== src/Closing/Ends/Started.antt =====
-- The console handler once the main loop has been entered: the server thread has begun, so that
-- `stop` has a thread to wait for.
use ir_pit_crew.Prelude.{◌≡◌, Bool, true, false, some, []}
use ir_pit_crew.Server.Loop.{Flags}
use ir_pit_crew.Closing.{live, going, not_called, Program}
use ir_pit_crew.Closing.Calls.{has_starts}
use ir_pit_crew.Closing.Ends.{Ends, waits}

-- The main loop has been entered: the thread has begun, wherever it stands.
abbrev pub entered : Bool → Flags → Program
entered has_context f = record {
  has_context = has_context;
  object = live;
  thread = some f;
  todo = [];
  fate = going;
  handler = not_called;
}

-- The thread has begun and will not begin again, and it has been asked to stop where the handler
-- waits for it.
record IsStarted (s : Program) : Type 0 where
  flags : Flags
  thread : s.thread ≡ some flags
  no_starts : has_starts s.todo ≡ false
  asked : waits s.handler ≡ true → flags.is_running ≡ false
