-- ===== src/Tests/System.antt =====
-- Both threads and a client on a concrete run: one set of telemetry, from the main loop to the client.
use ir_pit_crew.Prelude.{true, ◌≡◌, refl, false, none, some, [], ◌∷◌}
use ir_pit_crew.Prelude.Text.{Text, codes, text_eq}
use ir_pit_crew.Dict.{find}
use ir_pit_crew.Shared.{set_data, get_fuel_message}
use ir_pit_crew.Server.Loop.{start, loop_step, in_service, on_established, update_client}
use ir_pit_crew.Server.Loop
use ir_pit_crew.Server.Update.{on_writable}
use ir_pit_crew.System.{
  Job, take_message, put_map, ask_update, tasks, System, begin, perform, connect, loop_alone, send,
  loops, loops_alone, connects, reads, sends, works, Run, begins, steps, turns,
}
use ir_pit_crew.Server.Update.Delta.{View}
use ir_pit_crew.System.Delivery.{is_pending}
use ir_pit_crew.System.Consistent.{IsGoodMap, run-consistent}
use ir_pit_crew.Tests.Server.{
  telemetry, telemetry-IsMap, telemetry-IsWire, Lap-IsTag, below_128-IsAscii,
}

abbrev pub looped : System → System
looped s = record s { flags = loop_step s.flags.place s.flags }

-- A page that holds nothing.
abbrev pub blank : View
blank tag = none

-- The main loop has put the map and asked for an update.
abbrev worked : System
worked = record (perform take_message (perform ask_update (perform (put_map telemetry) begin))) {
  todo = [];
}

worked-Run : Run (Job.telemetry telemetry ∷ []) worked
unfolding tasks begin perform start
worked-Run =
    steps
      (steps
        (steps (turns (Job.telemetry telemetry) begins refl)
          (works (put_map telemetry) (ask_update ∷ take_message ∷ []) refl))
        (works ask_update (take_message ∷ []) refl))
      (works take_message [] refl)

-- A page has connected, and the server has come round to its callbacks again.
abbrev asked : System
asked = looped (looped (looped (looped (looped (looped (connect blank (loop_alone worked)))))))

asked-Run : Run (Job.telemetry telemetry ∷ []) asked
unfolding tasks begin perform start connect loop_alone on_established loop_step in_service
    update_client
asked-Run =
    steps
      (steps
        (steps
          (steps
            (steps
              (steps
                (steps (steps worked-Run (loops_alone refl refl)) (connects blank refl refl refl))
                (loops refl refl))
              (loops refl refl))
            (loops refl refl))
          (loops refl refl))
        (loops refl refl))
      (loops refl refl)

abbrev served : System
served = send telemetry (record asked { reading = some telemetry })

served-Run : Run (Job.telemetry telemetry ∷ []) served
unfolding tasks begin perform start connect loop_alone on_established loop_step in_service
    update_client set_data get_fuel_message
served-Run = steps (steps asked-Run (reads refl refl refl refl)) (sends telemetry refl)

served-quiet : is_pending served ≡ false
unfolding tasks begin perform start connect loop_alone on_established loop_step in_service
    update_client set_data get_fuel_message send on_writable Loop.on_writable
served-quiet = refl

served-going : served.flags.connection_reset ≡ false
unfolding tasks begin perform start connect loop_alone on_established loop_step in_service
    update_client set_data get_fuel_message send on_writable Loop.on_writable
served-going = refl

served-open : served.is_open ≡ true
unfolding connect send
served-open = refl

found : find (codes "Lap") served.shared.data_map ≡ some (codes "3")
unfolding find text_eq begin perform connect loop_alone set_data get_fuel_message send on_writable
found = refl

telemetry-IsGoodMap : IsGoodMap telemetry
telemetry-IsGoodMap = record {
  wire = telemetry-IsWire;
  keys = telemetry-IsMap;
  ascii = (
    (below_128-IsAscii (codes "Lap") refl, below_128-IsAscii (codes "3") refl),
    ((below_128-IsAscii (codes "Speed") refl, below_128-IsAscii (codes "40") refl), tt),
  );
}

run-consistent_example : served.view (codes "Lap") ≡ some (codes "3")
run-consistent_example =
    run-consistent served-Run (telemetry-IsGoodMap, tt) served-open served-quiet served-going
      (codes "Lap") (codes "3") Lap-IsTag found

-- A page has connected, and the request has not been seen yet.
abbrev opened : System
opened = connect blank (loop_alone worked)
