-- ===== src/System/Consistent.antt =====
-- The client's copy of the data in `System`, beside the shared data.
use ir_pit_crew.Prelude.{
  ◌≡◌, refl, true, false, inl, inr, Bool-cases, some, List, [], ◌∷◌, ◌++◌, All, All-append, arith,
}
use mathlib.Core.Path.{subst}
use ir_pit_crew.Prelude.Text.{Text, Lacks, codes, text_eq}
use ir_pit_crew.Dict.{Dict, find, IsMap}
use ir_pit_crew.Shared.{set_session_info, set_data, set_fuel_message, get_fuel_message}
use ir_pit_crew.Server.Loop.{loop_step, start, on_established, update_client, reset_connection}
use ir_pit_crew.Server.Update.{on_writable, c_string, data_lines, is_unchanged}
use ir_pit_crew.Server.Update.Wire.{IsAscii, IsTag, IsWire, body, base}
use ir_pit_crew.Server.Update.Delta.{View, IsFit, InStep, on_writable-InStep}
use ir_pit_crew.System.{
  Task, put_info, put_map, take_message, ask_reset, ask_update, Job, new_header, telemetry, tasks,
  System, begin, perform, connect, disconnect, loop_alone, receive, sync_of, send, Step, loops,
  loops_alone, connects, disconnects, receives, reads, sends, works, Run, begins, steps, turns,
}
use ir_pit_crew.System.Delivery.{is_pending, reset-loop_step, run-delivered}

-- Data in order that the format can carry, all of it ASCII.
pub record IsGoodMap (m : Dict) : Type 0 where
  pub wire : IsWire m
  pub keys : IsMap m
  pub ascii : All (λ e. IsAscii e.0 × IsAscii e.1) m

-- Session info that is ASCII and has no `*`.
pub record IsGoodInfo (info : Text) : Type 0 where
  pub no_star : Lacks b'*' info
  pub ascii : IsAscii info

nil-IsGoodMap : IsGoodMap []
nil-IsGoodMap = record { wire = tt; keys = tt; ascii = tt }

abbrev IsGoodTask : Task → Type 0
IsGoodTask (put_info info) = IsGoodInfo info
IsGoodTask (put_map m) = IsGoodMap m
IsGoodTask _ = Unit

abbrev pub IsGoodJob : Job → Type 0
IsGoodJob (new_header info) = IsGoodInfo info
IsGoodJob (telemetry m) = IsGoodMap m

tasks-IsGoodTask : (job : Job) → IsGoodJob job → All IsGoodTask (tasks job)
unfolding tasks
tasks-IsGoodTask (new_header info) h = (h, (nil-IsGoodMap, (tt, (tt, tt))))
tasks-IsGoodTask (telemetry m) h = (h, (tt, (tt, tt)))

data_lines-IsAscii :
    (last now : Dict) → All (λ e. IsAscii e.0 × IsAscii e.1) now → IsAscii (data_lines last now)
unfolding data_lines
data_lines-IsAscii last [] h = tt
data_lines-IsAscii last ((name, value) ∷ now) ((n, v), h) =
    let ih = data_lines-IsAscii last now h in
    elim (Bool-cases (is_unchanged last name value)) [
      | inl old ↦ rw old ih
      | inr new ↦
          rw new (All-append _ name _ n (omega arith, All-append _ value _ v (omega arith, ih)))
    ]

body-IsAscii :
    (info : Text) (last now : Dict)
    → IsGoodInfo info
    → IsGoodMap now
    → IsAscii (info ++ b'\n' ∷ body last now)
body-IsAscii info last now i m =
    All-append _ info _ i.ascii (omega arith, marked (data_lines-IsAscii last now m.ascii))
  where
    marked : IsAscii (data_lines last now) → IsAscii (body last now)
    marked h = ground (arith, h)

-- What is shared is good, what is read and what will be put, and the client is in step.
pub record IsSafe (s : System) : Type 0 where
  pub map : IsGoodMap s.shared.data_map
  pub info : IsGoodInfo s.shared.session_info
  pub todo : All IsGoodTask s.todo
  pub reading : (m : Dict) → s.reading ≡ some m → IsGoodMap m
  pub step : InStep (sync_of s) s.view

loops-IsSafe :
    (s : System) → IsSafe s → IsSafe (record s { flags = loop_step s.flags.place s.flags })
loops-IsSafe s h = record {
  map = h.map;
  info = h.info;
  todo = h.todo;
  reading = h.reading;
  step = λ going. h.step (reset-loop_step s.flags.place s.flags going);
}

alone-IsSafe : (s : System) → IsSafe s → IsSafe (loop_alone s)
unfolding loop_alone
alone-IsSafe s h = record {
  map = h.map;
  info = h.info;
  todo = h.todo;
  reading = h.reading;
  step = λ going. h.step (reset-loop_step s.flags.place s.flags going);
}

disconnects-IsSafe : (s : System) → IsSafe s → IsSafe (disconnect s)
unfolding disconnect
disconnects-IsSafe s h = record {
  map = h.map;
  info = h.info;
  todo = h.todo;
  reading = h.reading;
  step = h.step;
}

connects-IsSafe : (s : System) (view : View) → IsSafe s → IsSafe (connect view s)
unfolding connect on_established
connects-IsSafe s view h = record {
  map = h.map;
  info = h.info;
  todo = h.todo;
  reading = h.reading;
  step = λ going. absurd (cc going);
}

receives-IsSafe : (s : System) (bytes : Text) → IsSafe s → IsSafe (receive bytes s)
unfolding receive set_fuel_message
receives-IsSafe s [] h = h
receives-IsSafe s (b ∷ bytes) h =
    elim (Bool-cases (text_eq (c_string (b ∷ bytes)) (codes "heartbeat"))) [
      | inl beat ↦ rw beat h
      | inr other ↦
          rw other
            record { map = h.map; info = h.info; todo = h.todo; reading = h.reading; step = h.step }
    ]

reads-IsSafe : (s : System) → IsSafe s → IsSafe (record s { reading = some s.shared.data_map })
reads-IsSafe s h = record {
  map = h.map;
  info = h.info;
  todo = h.todo;
  reading = λ m e. subst IsGoodMap (ground (arith, e)) h.map;
  step = h.step;
}

sends-IsSafe : (s : System) (m : Dict) → s.reading ≡ some m → IsSafe s → IsSafe (send m s)
unfolding send on_writable
sends-IsSafe s m e h =
    let good = h.reading m e in
    let fit : IsFit (sync_of s) (record s.shared { data_map = m }) s.shared = record {
      wire = good.wire;
      keys = good.keys;
      session = h.info.no_star;
      ascii = body-IsAscii s.shared.session_info (base (sync_of s)) m h.info good;
    } in
    let sent =
      on_writable-InStep (sync_of s) (record s.shared { data_map = m }) s.shared s.view h.step
        fit in
    record {
      map = h.map;
      info = h.info;
      todo = h.todo;
      reading = λ n e. absurd (cc e);
      step = λ going. sent refl;
    }

works-IsSafe :
    (s : System) (t : Task) (ts : List Task)
    → All IsGoodTask (t ∷ ts)
    → IsSafe s
    → IsSafe (record (perform t s) { todo = ts })
unfolding perform set_session_info set_data get_fuel_message reset_connection update_client
works-IsSafe s (put_info info) ts (g, gs) h = record {
  map = h.map;
  info = g;
  todo = gs;
  reading = h.reading;
  step = h.step;
}
works-IsSafe s (put_map m) ts (g, gs) h = record {
  map = g;
  info = h.info;
  todo = gs;
  reading = h.reading;
  step = h.step;
}
works-IsSafe s take_message ts (g, gs) h = record {
  map = h.map;
  info = h.info;
  todo = gs;
  reading = h.reading;
  step = h.step;
}
works-IsSafe s ask_reset ts (g, gs) h = record {
  map = h.map;
  info = h.info;
  todo = gs;
  reading = h.reading;
  step = h.step;
}
works-IsSafe s ask_update ts (g, gs) h = record {
  map = h.map;
  info = h.info;
  todo = gs;
  reading = h.reading;
  step = h.step;
}

Step-IsSafe : {s s' : System} → Step s s' → IsSafe s → IsSafe s'
Step-IsSafe (loops {s} opened idle) h = loops-IsSafe s h
Step-IsSafe (loops_alone {s} shut idle) h = alone-IsSafe s h
Step-IsSafe (connects {s} view shut at idle) h = connects-IsSafe s view h
Step-IsSafe (disconnects {s} opened at idle) h = disconnects-IsSafe s h
Step-IsSafe (receives {s} bytes opened at idle) h = receives-IsSafe s bytes h
Step-IsSafe (reads {s} opened at asked idle) h = reads-IsSafe s h
Step-IsSafe (sends {s} m e) h = sends-IsSafe s m e h
Step-IsSafe (works {s} t ts e) h = works-IsSafe s t ts (rw e at h.todo) h

turns-IsSafe :
    (s : System) (job : Job) → IsGoodJob job → IsSafe s → IsSafe (record s { todo = tasks job })
turns-IsSafe s job g h = record {
  map = h.map;
  info = h.info;
  todo = tasks-IsGoodTask job g;
  reading = h.reading;
  step = h.step;
}

run-IsSafe : {jobs : List Job} {s : System} → Run jobs s → All IsGoodJob jobs → IsSafe s
unfolding begin start
run-IsSafe begins good = record {
  map = nil-IsGoodMap;
  info = record { no_star = tt; ascii = tt };
  todo = tt;
  reading = λ m e. absurd (cc e);
  step = λ going. absurd (cc going);
}
run-IsSafe (steps run step) good = Step-IsSafe step (run-IsSafe run good)
run-IsSafe (turns job run e) (g, gs) = turns-IsSafe _ job g (run-IsSafe run gs)

-- In every interleaving of both threads and of a client's connections, one socket after another:
-- while a socket is open, when no update is on its way and none with all the data is still to be
-- sent, the last value that the client has read out of its messages for a name in the shared data
-- is the value there. The session info of every header and the data of every telemetry set has to be
-- such as the format can carry: data in order, names and values of which a line can be made,
-- session info with no `*`, all of it ASCII.
pub run-consistent :
    {jobs : List Job} {s : System}
    → Run jobs s
    → All IsGoodJob jobs
    → s.is_open ≡ true
    → is_pending s ≡ false
    → s.flags.connection_reset ≡ false
    → (tag v : Text) → IsTag tag
    → find tag s.shared.data_map ≡ some v
    → s.view tag ≡ some v
run-consistent {s = s} run good opened quiet going tag v t found =
    (run-IsSafe run good).step going tag v t (rw (run-delivered run opened quiet going) found)
