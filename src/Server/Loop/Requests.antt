-- ===== src/Server/Loop/Requests.antt =====
-- A request of the plugin loop for a reset, over the steps of both threads.
use ir_pit_crew.Prelude.{
  ltb, leb, ◌&&◌, ◌||◌, ◌≢◌, ℕ, zero, suc, ◌<◌, ◌≡◌, refl, Bool, true, false, List, [], ◌∷◌, arith,
}
use ir_pit_crew.Server.Loop.{
  Place, test_running, service, clear_reset, stopped, Flags, start, Action, server, established,
  writable, asks_update, asks_reset, asks_stop, act, run,
}

-- At the assignment that clears the request, the static flag is set.
pub record IsCoherent (f : Flags) : Type 0 where
  pub kept : f.place ≡ clear_reset → f.connection_reset ≡ true

act-IsCoherent : (a : Action) (f : Flags) → IsCoherent f → IsCoherent (act a f)
unfolding act
act-IsCoherent server f h = record { kept = ground arith }
act-IsCoherent established f h = record { kept = ground (arith, h.kept) }
act-IsCoherent writable f h = record { kept = ground (arith, h.kept) }
act-IsCoherent asks_update f h = record { kept = h.kept }
act-IsCoherent asks_reset f h = record { kept = h.kept }
act-IsCoherent asks_stop f h = record { kept = h.kept }

-- Since `before` full updates one more has been written, or the request still stands in a flag.
abbrev pub remembers : ℕ → Flags → Bool
remembers before f =
    ltb before f.full_updates
    || (leb before f.full_updates && (f.reset_connection || f.connection_reset))

act-remembers :
    (before : ℕ) (a : Action) (f : Flags)
    → IsCoherent f
    → remembers before f ≡ true
    → remembers before (act a f) ≡ true
unfolding act
act-remembers before server f h r = ground (arith, h.kept)
act-remembers before established f h r = ground arith
act-remembers before writable f h r = ground arith
act-remembers before asks_update f h r = r
act-remembers before asks_reset f h r = ground arith
act-remembers before asks_stop f h r = r

run-remembers :
    (before : ℕ) (actions : List Action) (f : Flags)
    → IsCoherent f
    → remembers before f ≡ true
    → remembers before (run actions f) ≡ true
unfolding run
run-remembers before [] f h r = r
run-remembers before (a ∷ actions) f h r =
    run-remembers before actions (act a f) (act-IsCoherent a f h) (act-remembers before a f h r)

start-IsCoherent : IsCoherent start
unfolding start
start-IsCoherent = record { kept = ground arith }

asked-remembers : (f : Flags) → remembers f.full_updates (act asks_reset f) ≡ true
unfolding act
asked-remembers f = ground arith

run-IsCoherent : (actions : List Action) (f : Flags) → IsCoherent f → IsCoherent (run actions f)
unfolding run
run-IsCoherent [] f h = h
run-IsCoherent (a ∷ actions) f h = run-IsCoherent actions (act a f) (act-IsCoherent a f h)

-- From the start of the thread, after any steps of both threads: when the plugin loop asks for a
-- reset, then after any further steps either a message with all the data has been written since,
-- or the request still stands in one of the two flags. No interleaving loses it.
pub reset_kept :
    (earlier later : List Action)
    → let f = run earlier start in remembers f.full_updates (run later (act asks_reset f)) ≡ true
reset_kept earlier later =
    let f = run earlier start in
    run-remembers f.full_updates later (act asks_reset f)
      (act-IsCoherent asks_reset f (run-IsCoherent earlier start start-IsCoherent))
      (asked-remembers f)

-- One turn of a server that no one disturbs, with a client that takes each message.
unfoldable pub turn : Flags → Flags
unfolding act
turn f = act server (act writable f)

unfoldable pub turns : ℕ → Flags → Flags
turns zero f = f
turns (suc n) f = turns n (turn f)

-- What the two requests leave of the flags, at a place of the server that still runs.
abbrev asked : Place → Bool → Bool → ℕ → Flags
asked p static_flag asked_before n = record {
  place = p;
  is_running = true;
  update_client = true;
  reset_connection = true;
  connection_reset = static_flag;
  writable_asked = asked_before;
  full_updates = n;
}

turns-asked :
    (p : Place) (c w : Bool) (n : ℕ)
    → p ≢ stopped
    → (p ≡ clear_reset → c ≡ true)
    → n < (turns 18 (asked p c w n)).full_updates
unfolding turns turn
turns-asked stopped c w n run h = absurd (run refl)
turns-asked clear_reset false w n run h = cc (h refl)
turns-asked clear_reset true true n run h = omega arith
turns-asked clear_reset true false n run h = omega arith
turns-asked test_running true true n run h = omega arith
turns-asked test_running true false n run h = omega arith
turns-asked test_running false true n run h = omega arith
turns-asked test_running false false n run h = omega arith
turns-asked service true true n run h = omega arith
turns-asked service true false n run h = omega arith
turns-asked service false true n run h = omega arith
turns-asked service false false n run h = omega arith
turns-asked p true true n run h = omega arith
turns-asked p true false n run h = omega arith
turns-asked p false true n run h = omega arith
turns-asked p false false n run h = omega arith

-- After any steps of both threads that leave the server running: a request for a reset that is
-- followed by one for an update is answered by a message with all the data within eighteen turns
-- of the server, wherever it stands, if the client takes its messages and no one interferes.
pub reset_answered :
    (earlier : List Action)
    → let f = run earlier start in
      f.is_running ≡ true
      → f.place ≢ stopped
      → f.full_updates < (turns 18 (act asks_update (act asks_reset f))).full_updates
unfolding act
reset_answered earlier running at =
    let f = run earlier start in
    let h = run-IsCoherent earlier start start-IsCoherent in
    rw running (turns-asked f.place f.connection_reset f.writable_asked f.full_updates at h.kept)
