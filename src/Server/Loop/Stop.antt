-- ===== src/Server/Loop/Stop.antt =====
-- The end of the thread, for which the program waits at its own, and a thread that libwebsockets
-- gives no context.
use ir_pit_crew.Prelude.{
  ℕ, suc, ◌+◌, ◌-◌, ◌≤◌, ◌≡◌, refl, ◌∙◌, Bool, true, false, List, [], ◌∷◌, arith,
}
use ir_pit_crew.Server.Loop.{
  Place, test_running, service, test_update, clear_update, test_reset, set_static, clear_reset,
  ask_writable, stopped, Flags, start, begin_thread, loop_step, in_service, on_established,
  on_writable, update_client, reset_connection, stop, Action, server, established, writable,
  asks_update, asks_reset, asks_stop, act, run,
}

-- How many steps a thread that has been asked to stop has still to make, at most.
abbrev pub steps_left : Place → ℕ
steps_left stopped = 0
steps_left test_running = 1
steps_left ask_writable = 2
steps_left clear_reset = 3
steps_left set_static = 4
steps_left test_reset = 5
steps_left clear_update = 6
steps_left test_update = 7
steps_left service = 8

-- The steps of the thread among the steps of all.
abbrev pub server_steps : List Action → ℕ
server_steps [] = 0
server_steps (server ∷ actions) = suc (server_steps actions)
server_steps (_ ∷ actions) = server_steps actions

pub loop_step-steps_left :
    (p : Place) (f : Flags)
    → f.place ≡ p
    → f.is_running ≡ false
    → steps_left (loop_step p f).place ≤ steps_left p - 1
unfolding loop_step
loop_step-steps_left stopped f e h = rw e (omega arith)
loop_step-steps_left test_running f e h = ground (arith, h)
loop_step-steps_left service f e h = omega arith
loop_step-steps_left test_update f e h = ground arith
loop_step-steps_left clear_update f e h = omega arith
loop_step-steps_left test_reset f e h = ground arith
loop_step-steps_left set_static f e h = omega arith
loop_step-steps_left clear_reset f e h = omega arith
loop_step-steps_left ask_writable f e h = omega arith

-- The steps that are not the thread's own leave its place.
act-place :
    (a : Action) (f : Flags)
    → f.is_running ≡ false
    → steps_left (act a f).place ≤ steps_left f.place - server_steps (a ∷ [])
unfolding act on_established on_writable update_client reset_connection stop
act-place server f h = loop_step-steps_left f.place f refl h
act-place established f h = ground arith
act-place writable f h = ground arith
act-place asks_update f h = omega arith
act-place asks_reset f h = omega arith
act-place asks_stop f h = omega arith

pub act-is_running : (a : Action) (f : Flags) → f.is_running ≡ false → (act a f).is_running ≡ false
unfolding act loop_step on_established on_writable update_client reset_connection stop
act-is_running server f h = ground (arith, h)
act-is_running established f h = ground (arith, h)
act-is_running writable f h = ground (arith, h)
act-is_running asks_update f h = h
act-is_running asks_reset f h = h
act-is_running asks_stop f h = refl

server_steps-cons :
    (a : Action) (actions : List Action)
    → server_steps (a ∷ actions) ≡ server_steps (a ∷ []) + server_steps actions
server_steps-cons server actions = omega arith
server_steps-cons established actions = omega arith
server_steps-cons writable actions = omega arith
server_steps-cons asks_update actions = omega arith
server_steps-cons asks_reset actions = omega arith
server_steps-cons asks_stop actions = omega arith

run-steps_left :
    (actions : List Action) (f : Flags)
    → f.is_running ≡ false
    → steps_left (run actions f).place ≤ steps_left f.place - server_steps actions
unfolding run
run-steps_left [] f h = omega arith
run-steps_left (a ∷ actions) f h = omega (
  arith,
  run-steps_left actions (act a f) (act-is_running a f h),
  act-place a f h,
  server_steps-cons a actions,
)

pub steps_left-le : (p : Place) → steps_left p ≤ 8
steps_left-le stopped = omega arith
steps_left-le test_running = omega arith
steps_left-le service = omega arith
steps_left-le p = omega arith

pub stopped-steps_left : (p : Place) → steps_left p ≡ 0 → p ≡ stopped
stopped-steps_left stopped h = refl
stopped-steps_left p h = absurd (omega (arith, h))

-- After any steps of all threads, from a thread that began with or without a context: once it is
-- asked to stop, any further steps of which eight are the thread's own bring it to its end,
-- whatever clients and the plugin loop do in between.
pub stop_ends :
    (has_context : Bool) (earlier later : List Action)
    → 8 ≤ server_steps later
    → (run later (act asks_stop (run earlier (begin_thread has_context)))).place ≡ stopped
unfolding act stop
stop_ends has_context earlier later h =
    let f = run earlier (begin_thread has_context) in
    let bound = run-steps_left later (act asks_stop f) refl in
    stopped-steps_left _ (omega (arith, bound, steps_left-le f.place))

act-stopped :
    (a : Action) (f : Flags)
    → f.place ≡ stopped
    → ((act a f).place ≡ stopped) × ((act a f).full_updates ≡ f.full_updates)
unfolding act loop_step in_service update_client reset_connection stop
act-stopped server f h = rw h (refl, refl)
act-stopped established f h = rw h (refl, refl)
act-stopped writable f h = rw h (refl, refl)
act-stopped asks_update f h = (h, refl)
act-stopped asks_reset f h = (h, refl)
act-stopped asks_stop f h = (h, refl)

run-stopped :
    (actions : List Action) (f : Flags)
    → f.place ≡ stopped
    → ((run actions f).place ≡ stopped) × ((run actions f).full_updates ≡ f.full_updates)
unfolding run
run-stopped [] f h = (h, refl)
run-stopped (a ∷ actions) f h =
    let (at, same) = act-stopped a f h in
    let (at', same') = run-stopped actions (act a f) at in (at', same' ∙ same)

-- A thread that libwebsockets gives no context is at its end from the first, and the rest of the
-- program is not told: whatever it asks for, no message with all the data is ever written.
pub no_context :
    (actions : List Action)
    → let f = run actions (begin_thread false) in
      (f.place ≡ stopped) × (f.full_updates ≡ 0) × ((begin_thread false).is_running ≡ true)
unfolding begin_thread start
no_context actions =
    let (at, same) = run-stopped actions (begin_thread false) refl in (at, same, refl)
