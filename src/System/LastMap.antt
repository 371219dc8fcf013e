-- ===== src/System/LastMap.antt =====
-- The shared data in `System`, as the main loop of src/irplugin/irplugin.cpp leaves it behind.
use ir_pit_crew.Prelude.{◌≡◌, refl, sym, ap, ◌∙◌, Bool-cases, inl, inr, List, [], ◌∷◌, ◌++◌}
use mathlib.Core.List.{reverse, reverse-cons}
use ir_pit_crew.Prelude.Text.{Text, codes, text_eq}
use ir_pit_crew.Dict.{Dict}
use ir_pit_crew.Shared.{set_session_info, set_data, set_fuel_message, get_fuel_message}
use ir_pit_crew.Server.Loop.{on_established, reset_connection, update_client}
use ir_pit_crew.Server.Update.{c_string}
use ir_pit_crew.System.{
  Task, put_info, put_map, take_message, ask_reset, ask_update, Job, tasks, System, begin, perform,
  connect, disconnect, loop_alone, receive, send, Step, loops, loops_alone, connects, disconnects,
  receives, reads, sends, works, Run, begins, steps, turns,
}

-- The data when the tasks are done.
abbrev pub map_after : Dict → List Task → Dict
map_after m [] = m
map_after m (put_info info ∷ ts) = map_after m ts
map_after m (put_map n ∷ ts) = map_after n ts
map_after m (take_message ∷ ts) = map_after m ts
map_after m (ask_reset ∷ ts) = map_after m ts
map_after m (ask_update ∷ ts) = map_after m ts

-- The data when the jobs are done.
abbrev pub map_of : Dict → List Job → Dict
map_of m [] = m
map_of m (job ∷ jobs) = map_of (map_after m (tasks job)) jobs

map_of-append : (m : Dict) (js ks : List Job) → map_of m (js ++ ks) ≡ map_of (map_of m js) ks
map_of-append m [] ks = refl
map_of-append m (j ∷ js) ks = map_of-append (map_after m (tasks j)) js ks

-- The data once the turn of the main loop is done.
abbrev final_map : System → Dict
final_map s = map_after s.shared.data_map s.todo

receives-final : (s : System) (bytes : Text) → final_map (receive bytes s) ≡ final_map s
unfolding receive set_fuel_message
receives-final s [] = refl
receives-final s (b ∷ bytes) =
    elim (Bool-cases (text_eq (c_string (b ∷ bytes)) (codes "heartbeat"))) [
      | inl beat ↦ rw beat refl
      | inr other ↦ rw other refl
    ]

perform-final :
    (s : System) (t : Task) (ts : List Task)
    → final_map (record (perform t s) { todo = ts }) ≡ map_after s.shared.data_map (t ∷ ts)
unfolding perform set_session_info set_data get_fuel_message reset_connection update_client
perform-final s (put_info info) ts = refl
perform-final s (put_map m) ts = refl
perform-final s take_message ts = refl
perform-final s ask_reset ts = refl
perform-final s ask_update ts = refl

Step-final : {s s' : System} → Step s s' → final_map s' ≡ final_map s
unfolding connect disconnect loop_alone on_established send
Step-final (loops {s} opened idle) = refl
Step-final (loops_alone {s} shut idle) = refl
Step-final (connects {s} view shut at idle) = refl
Step-final (disconnects {s} opened at idle) = refl
Step-final (receives {s} bytes opened at idle) = receives-final s bytes
Step-final (reads {s} opened at asked idle) = refl
Step-final (sends {s} m e) = refl
Step-final (works {s} t ts e) = perform-final s t ts ∙ ap (map_after s.shared.data_map) (sym e)

run-final : {jobs : List Job} {s : System} → Run jobs s → final_map s ≡ map_of [] (reverse jobs)
unfolding begin
run-final begins = refl
run-final (steps run step) = Step-final step ∙ run-final run
run-final (turns {jobs} {s} job run e) =
    let before : s.shared.data_map ≡ map_of [] (reverse jobs) =
      ap (map_after s.shared.data_map) (sym e) ∙ run-final run in
    ap (λ m. map_after m (tasks job)) before
    ∙ sym (map_of-append [] (reverse jobs) (job ∷ []))
    ∙ sym (ap (map_of []) (reverse-cons job jobs))

-- With the turn of the main loop done, the shared data is what all its jobs leave behind.
pub run-map_of :
    {jobs : List Job} {s : System}
    → Run jobs s
    → s.todo ≡ []
    → s.shared.data_map ≡ map_of [] (reverse jobs)
run-map_of {s = s} run e = ap (map_after s.shared.data_map) (sym e) ∙ run-final run
