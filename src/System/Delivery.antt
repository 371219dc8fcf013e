-- ===== src/System/Delivery.antt =====
-- How a change of the shared data goes to the client over the steps of `System`.
use ir_pit_crew.Prelude.{
  ◌≡◌, refl, inl, inr, Bool-cases, sym, ap, ◌∙◌, Bool, true, false, ◌||◌, ◌&&◌, none, some, List,
  [], ◌∷◌, arith,
}
use ir_pit_crew.Prelude.Text.{Text, text_eq, codes}
use ir_pit_crew.Dict.{Dict}
use ir_pit_crew.Shared.{set_session_info, set_data, set_fuel_message, get_fuel_message}
use ir_pit_crew.Server.Loop.{
  Flags, Place, test_running, service, test_update, clear_update, test_reset, set_static,
  clear_reset, ask_writable, stopped, start, loop_step, in_service, on_established, update_client,
  reset_connection,
}
use ir_pit_crew.Server.Loop
use ir_pit_crew.Server.Update.{on_writable, c_string}
use ir_pit_crew.Server.Update.Delta.{View}
use ir_pit_crew.System.{
  Task, put_info, put_map, take_message, ask_reset, ask_update, Job, new_header, telemetry, tasks,
  System, begin, perform, connect, disconnect, loop_alone, receive, send, Step, loops, loops_alone,
  connects, disconnects, receives, reads, sends, works, Run, begins, steps, turns,
}

-- The main loop will still ask for an update.
abbrev pub has_update : List Task → Bool
has_update [] = false
has_update (ask_update ∷ ts) = true
has_update (_ ∷ ts) = has_update ts

-- Behind each map that is put, an update is asked for.
abbrev is_asked : List Task → Bool
is_asked [] = true
is_asked (put_map m ∷ ts) = has_update ts && is_asked ts
is_asked (_ ∷ ts) = is_asked ts

-- The server has seen the request, and has not asked for the callback yet.
abbrev pub is_answering : Place → Bool
is_answering clear_update = true
is_answering test_reset = true
is_answering set_static = true
is_answering clear_reset = true
is_answering ask_writable = true
is_answering _ = false

-- An update is asked for or will be, and the server has not seen it.
abbrev pub is_announced : System → Bool
is_announced s = has_update s.todo || s.flags.update_client

-- An update is on its way.
abbrev pub is_pending : System → Bool
is_pending s = is_announced s || (is_answering s.flags.place || s.flags.writable_asked)

pub record IsLive (s : System) : Type 0 where
  pub asked : is_asked s.todo ≡ true
  pub kept :
      s.is_open ≡ true
      → is_pending s ≡ false
      → s.flags.connection_reset ≡ false
      → s.last_sent ≡ s.shared.data_map
  pub fresh : (m : Dict) → s.reading ≡ some m → is_announced s ≡ false → m ≡ s.shared.data_map

asked-tasks : (job : Job) → is_asked (tasks job) ≡ true
unfolding tasks
asked-tasks (new_header info) = refl
asked-tasks (telemetry m) = refl

announced-tasks : (job : Job) → has_update (tasks job) ≡ true
unfolding tasks
announced-tasks (new_header info) = refl
announced-tasks (telemetry m) = refl

-- A step of the server's loop leaves what is pending, and what is reset.
pending-loop_step :
    (u : Bool) (p : Place) (f : Flags)
    → ((u || (loop_step p f).update_client)
        || (is_answering (loop_step p f).place || (loop_step p f).writable_asked))
      ≡ false
    → ((u || f.update_client) || (is_answering p || f.writable_asked)) ≡ false
unfolding loop_step
pending-loop_step u test_running f h = ground arith
pending-loop_step u service f h = ground arith
pending-loop_step u test_update f h = ground arith
pending-loop_step u clear_update f h = ground arith
pending-loop_step u test_reset f h = ground arith
pending-loop_step u set_static f h = ground arith
pending-loop_step u clear_reset f h = ground arith
pending-loop_step u ask_writable f h = ground arith
pending-loop_step u stopped f h = ground arith

pub reset-loop_step :
    (p : Place) (f : Flags) → (loop_step p f).connection_reset ≡ false → f.connection_reset ≡ false
unfolding loop_step
reset-loop_step set_static f h = absurd (ground arith)
reset-loop_step p f h = h

loops-IsLive :
    (s : System)
    → s.reading ≡ none
    → IsLive s
    → IsLive (record s { flags = loop_step s.flags.place s.flags })
loops-IsLive s idle h = record {
  asked = h.asked;
  kept = λ opened quiet going.
      h.kept opened (pending-loop_step (has_update s.todo) s.flags.place s.flags quiet)
        (reset-loop_step s.flags.place s.flags going);
  fresh = λ m e quiet. absurd (ground (arith, idle, e));
}

alone-IsLive :
    (s : System) → s.is_open ≡ false → s.reading ≡ none → IsLive s → IsLive (loop_alone s)
unfolding loop_alone
alone-IsLive s shut idle h = record {
  asked = h.asked;
  kept = λ opened quiet going. absurd (cc (shut, opened));
  fresh = λ m e quiet. absurd (ground (arith, idle, e));
}

disconnects-IsLive : (s : System) → s.reading ≡ none → IsLive s → IsLive (disconnect s)
unfolding disconnect
disconnects-IsLive s idle h = record {
  asked = h.asked;
  kept = λ opened quiet going. absurd (cc opened);
  fresh = λ m e quiet. absurd (ground (arith, idle, e));
}

connects-IsLive : (s : System) (view : View) → s.reading ≡ none → IsLive s → IsLive (connect view s)
unfolding connect on_established
connects-IsLive s view idle h = record {
  asked = h.asked;
  kept = λ opened quiet going. absurd (ground (arith, going));
  fresh = λ m e quiet. absurd (ground (arith, idle, e));
}

receives-IsLive : (s : System) (bytes : Text) → IsLive s → IsLive (receive bytes s)
unfolding receive set_fuel_message
receives-IsLive s [] h = h
receives-IsLive s (b ∷ bytes) h =
    elim (Bool-cases (text_eq (c_string (b ∷ bytes)) (codes "heartbeat"))) [
      | inl beat ↦ rw beat h
      | inr other ↦ rw other record { asked = h.asked; kept = h.kept; fresh = h.fresh }
    ]

reads-IsLive : (s : System) → IsLive s → IsLive (record s { reading = some s.shared.data_map })
reads-IsLive s h = record { asked = h.asked; kept = h.kept; fresh = λ m e quiet. ground (arith, e) }

update_client-on_writable : (f : Flags) → (Loop.on_writable f).update_client ≡ f.update_client
unfolding Loop.on_writable
update_client-on_writable f = ground arith

announced-send : (m : Dict) (s : System) → is_announced (send m s) ≡ is_announced s
unfolding send
announced-send m s = ap (◌||◌ (has_update s.todo)) (update_client-on_writable s.flags)

announced-quiet : (s : System) → is_pending s ≡ false → is_announced s ≡ false
announced-quiet s h = ground (arith, h)

sends-IsLive : (s : System) (m : Dict) → s.reading ≡ some m → IsLive s → IsLive (send m s)
unfolding send on_writable
sends-IsLive s m e h = record {
  asked = h.asked;
  kept = λ opened quiet going.
      h.fresh m e (sym (announced-send m s) ∙ announced-quiet (send m s) quiet);
  fresh = λ n e quiet. absurd (cc e);
}

works-IsLive :
    (s : System) (t : Task) (ts : List Task)
    → s.todo ≡ t ∷ ts
    → IsLive s
    → IsLive (record (perform t s) { todo = ts })
unfolding perform set_session_info set_data get_fuel_message reset_connection update_client
works-IsLive s (put_info info) ts e h = record {
  asked = rw e at h.asked;
  kept = λ opened quiet going. h.kept opened (rw e quiet) going;
  fresh = λ m r quiet. h.fresh m r (rw e quiet);
}
works-IsLive s (put_map m) ts e h =
    let u : has_update ts && is_asked ts ≡ true = rw e at h.asked in
    record {
      asked = ground (arith, u);
      kept = λ opened quiet going. absurd (ground (arith, u, quiet));
      fresh = λ n r quiet. absurd (ground (arith, u, quiet));
    }
works-IsLive s take_message ts e h = record {
  asked = rw e at h.asked;
  kept = λ opened quiet going. h.kept opened (rw e quiet) going;
  fresh = λ m r quiet. h.fresh m r (rw e quiet);
}
works-IsLive s ask_reset ts e h = record {
  asked = rw e at h.asked;
  kept = λ opened quiet going. h.kept opened (rw e quiet) going;
  fresh = λ m r quiet. h.fresh m r (rw e quiet);
}
works-IsLive s ask_update ts e h = record {
  asked = rw e at h.asked;
  kept = λ opened quiet going. absurd (ground (arith, quiet));
  fresh = λ m r quiet. absurd (ground (arith, quiet));
}

Step-IsLive : {s s' : System} → Step s s' → IsLive s → IsLive s'
Step-IsLive (loops {s} opened idle) h = loops-IsLive s idle h
Step-IsLive (loops_alone {s} shut idle) h = alone-IsLive s shut idle h
Step-IsLive (connects {s} view shut at idle) h = connects-IsLive s view idle h
Step-IsLive (disconnects {s} opened at idle) h = disconnects-IsLive s idle h
Step-IsLive (receives {s} bytes opened at idle) h = receives-IsLive s bytes h
Step-IsLive (reads {s} opened at asked idle) h = reads-IsLive s h
Step-IsLive (sends {s} m e) h = sends-IsLive s m e h
Step-IsLive (works {s} t ts e) h = works-IsLive s t ts e h

turns-IsLive :
    (s : System) (job : Job) → s.todo ≡ [] → IsLive s → IsLive (record s { todo = tasks job })
turns-IsLive s job e h =
    let u = announced-tasks job in
    record {
      asked = asked-tasks job;
      kept = λ opened quiet going. absurd (ground (arith, u, quiet));
      fresh = λ m r quiet. absurd (ground (arith, u, quiet));
    }

run-IsLive : {jobs : List Job} {s : System} → Run jobs s → IsLive s
unfolding begin
run-IsLive begins = record {
  asked = refl;
  kept = λ opened quiet going. refl;
  fresh = λ m e quiet. absurd (cc e);
}
run-IsLive (steps run step) = Step-IsLive step (run-IsLive run)
run-IsLive (turns job run e) = turns-IsLive _ job e (run-IsLive run)

-- In every interleaving of both threads, from the start of the program: once the main loop has
-- asked for all its updates, the server has seen them and no callback is outstanding, the
-- data last sent is the shared data, if a socket is open, unless it is new, or a reset was asked
-- for, and all the data is still to be sent.
pub run-delivered :
    {jobs : List Job} {s : System}
    → Run jobs s
    → s.is_open ≡ true
    → is_pending s ≡ false
    → s.flags.connection_reset ≡ false
    → s.last_sent ≡ s.shared.data_map
run-delivered run opened quiet going = (run-IsLive run).kept opened quiet going
