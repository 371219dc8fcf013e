-- ===== src/Closing/Hangs.antt =====
-- A close event before the main loop is entered: CloseConsoleHandler of src/irplugin/irplugin.cpp is
-- set before the server thread is started.
use ir_pit_crew.Prelude.{
  ◌≡◌, ◌≢◌, refl, sym, ◌∙◌, ap, Bool, true, false, some, List, [], ◌∷◌, arith, inl, inr,
}
use mathlib.Core.Path.{subst}
use mathlib.Core.Option.{some-injective}
use ir_pit_crew.Server.Loop.{
  Place, test_running, service, test_update, clear_update, test_reset, set_static, clear_reset,
  ask_writable, stopped, Flags, start, begin_thread, loop_step, update_client, reset_connection,
}
use ir_pit_crew.Closing.{
  live, Call, starts, joining, Program, begin, on_object, perform, is_joined, handle, Step, calls,
  turns, serves, closes, handles, Run, here, more,
}
use ir_pit_crew.Closing.Safe.{handler-perform, is_released, until_released}
use ir_pit_crew.Closing.Calls.{
  has_starts, HasThread, perform-HasThread, perform-todo, starts_no_more, turn-has_starts,
}

-- In the loop, and not asked to stop.
abbrev IsLooping : Flags → Type 0
IsLooping f = (f.is_running ≡ true) × (f.place ≢ stopped)

-- The handler waits for a thread that nobody asks to stop.
record IsHung (s : Program) : Type 0 where
  handler : s.handler ≡ joining
  thread : HasThread IsLooping s
  no_starts : has_starts s.todo ≡ false

loop_step-IsLooping :
    (p : Place) (f : Flags) → f.place ≡ p → IsLooping f → IsLooping (loop_step p f)
unfolding loop_step
loop_step-IsLooping test_running f e (r, n) = (r, λ x. absurd (ground (arith, r, x)))
loop_step-IsLooping service f e (r, n) = (r, λ x. absurd (cc x))
loop_step-IsLooping test_update f e (r, n) = (r, λ x. absurd (ground (arith, x)))
loop_step-IsLooping clear_update f e (r, n) = (r, λ x. absurd (cc x))
loop_step-IsLooping test_reset f e (r, n) = (r, λ x. absurd (ground (arith, x)))
loop_step-IsLooping set_static f e (r, n) = (r, λ x. absurd (cc x))
loop_step-IsLooping clear_reset f e (r, n) = (r, λ x. absurd (cc x))
loop_step-IsLooping ask_writable f e (r, n) = (r, λ x. absurd (cc x))
loop_step-IsLooping stopped f e (r, n) = absurd (n e)

calls-IsHung :
    (s : Program) (c : Call) (cs : List Call)
    → s.todo ≡ c ∷ cs
    → IsHung s
    → IsHung (perform c (record s { todo = cs }))
unfolding update_client reset_connection
calls-IsHung s c cs e h =
    let b : Program = record s { todo = cs } in
    let (other, rest) = starts_no_more c cs (rw e at h.no_starts) in
    record {
      handler = handler-perform c b ∙ h.handler;
      thread = perform-HasThread c b IsLooping other (λ g k. k) (λ g k. k) h.thread;
      no_starts = ap has_starts (perform-todo c b) ∙ rest;
    }

not_joined : (p : Place) (f : Flags) → f.place ≡ p → p ≢ stopped → is_joined (some f) ≡ false
unfolding is_joined
not_joined stopped f e n = absurd (n refl)
not_joined p f e n = rw e refl

handles-IsHung : (s : Program) → IsHung s → IsHung (handle s.handler s)
unfolding handle
handles-IsHung s h =
    let (f, t, (r, n)) = h.thread in
    let busy : is_joined s.thread ≡ false = ap is_joined t ∙ not_joined f.place f refl n in
    subst (λ p. IsHung (handle p s)) (sym h.handler) (rw busy h)

serves-IsHung :
    (s : Program) (f : Flags)
    → s.thread ≡ some f
    → IsHung s
    → IsHung (record s { thread = some (loop_step f.place f) })
serves-IsHung s f t h =
    let (g, u, looping) = h.thread in
    let same : g ≡ f = some-injective g f (sym u ∙ t) in
    record {
      handler = h.handler;
      thread = (
        loop_step f.place f,
        refl,
        loop_step-IsLooping f.place f refl (subst IsLooping same looping),
      );
      no_starts = h.no_starts;
    }

Step-IsHung : {s s' : Program} → Step s s' → IsHung s → IsHung s'
Step-IsHung (calls {s} c cs e) h = calls-IsHung s c cs e h
Step-IsHung (turns {s} b e) h = record {
  handler = h.handler;
  thread = h.thread;
  no_starts = turn-has_starts b;
}
Step-IsHung (serves {s} f e) h = serves-IsHung s f e h
Step-IsHung (closes {s} e) h = absurd (cc (e, h.handler))
Step-IsHung (handles {s}) h = handles-IsHung s h

run-IsHung : {s s' : Program} → Run s s' → IsHung s → IsHung s'
run-IsHung here h = h
run-IsHung (more run g n step) h = Step-IsHung step (run-IsHung run h)

begin_thread-IsLooping : (b : Bool) → b ≡ true → IsLooping (begin_thread b)
unfolding begin_thread start
begin_thread-IsLooping true e = (refl, λ x. absurd (cc x))
begin_thread-IsLooping false e = absurd (cc e)

starts-IsHung :
    (s : Program)
    → s.object ≡ live
    → s.handler ≡ joining
    → s.has_context ≡ true
    → IsHung (perform starts (record s { todo = [] }))
unfolding perform on_object
starts-IsHung s o h c = rw o record {
  handler = h;
  thread = (begin_thread s.has_context, refl, begin_thread-IsLooping s.has_context c);
  no_starts = refl;
}

-- A close event that comes while the program starts can keep it from ending: when the handler has
-- asked for the end of a thread that has not begun yet, and the main loop then starts the thread
-- before the handler looks whether it has to wait, the handler waits ever after, whatever all
-- threads do. Libwebsockets gives the thread a context.
pub started_late_hangs :
    (has_context : Bool) (s s' : Program)
    → Run (begin has_context) s
    → s.handler ≡ joining
    → s.todo ≡ starts ∷ []
    → s.has_context ≡ true
    → Run (perform starts (record s { todo = [] })) s'
    → s'.handler ≡ joining
started_late_hangs has_context s s' run h t c later =
    let (g, place) = until_released has_context s run (ap is_released h) in
    let there : s.object ≡ live = elim place [ inl o ↦ o | inr u ↦ absurd (cc (t, u)) ] in
    (run-IsHung later (starts-IsHung s there h c)).handler
