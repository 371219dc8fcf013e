-- ===== src/Tests/Page.antt =====
-- Both threads and a client on a run of two jobs: a header and a set of telemetry, from the main loop
-- of src/irplugin/irplugin.cpp to the client.
use ir_pit_crew.Prelude.{◌≡◌, refl, true, false, some, [], ◌∷◌}
use ir_pit_crew.Prelude.Text.{Text}
use ir_pit_crew.Dict.{Dict}
use ir_pit_crew.Shared.{set_session_info, set_data, get_fuel_message}
use ir_pit_crew.Server.Loop.{
  start, loop_step, in_service, on_established, update_client, reset_connection,
}
use ir_pit_crew.Server.Loop
use ir_pit_crew.Server.Update.{on_writable}
use ir_pit_crew.System.{
  put_info, take_message, put_map, ask_update, ask_reset, tasks, System, begin, perform, connect,
  loop_alone, send, loops, loops_alone, connects, reads, sends, works, Run, begins, steps, turns,
  new_header, telemetry,
}
use ir_pit_crew.System.Delivery.{is_pending}
use ir_pit_crew.Tests.System.{looped, blank}

-- The main loop has handed over a header, and then a set of telemetry.
abbrev headed : Text → System
headed info =
    perform ask_update (perform ask_reset (perform (put_map []) (perform (put_info info) begin)))

abbrev worked : Text → Dict → System
worked info m =
    record (perform take_message (perform ask_update (perform (put_map m) (headed info)))) {
      todo = [];
    }

worked-Run : (info : Text) (m : Dict) → Run (telemetry m ∷ new_header info ∷ []) (worked info m)
unfolding tasks begin perform start
worked-Run info m =
    steps
      (steps
        (steps
          (turns (telemetry m)
            (steps
              (steps
                (steps
                  (steps (turns (new_header info) begins refl)
                    (works (put_info info) (put_map [] ∷ ask_reset ∷ ask_update ∷ []) refl))
                  (works (put_map []) (ask_reset ∷ ask_update ∷ []) refl))
                (works ask_reset (ask_update ∷ []) refl))
              (works ask_update [] refl))
            refl)
          (works (put_map m) (ask_update ∷ take_message ∷ []) refl))
        (works ask_update (take_message ∷ []) refl))
      (works take_message [] refl)

-- A page has connected, and the server has come round to its callbacks again.
abbrev asked : Text → Dict → System
asked info m = looped (
    looped (
      looped
        (looped (looped (looped (looped (looped (connect blank (loop_alone (worked info m))))))))))

asked-Run : (info : Text) (m : Dict) → Run (telemetry m ∷ new_header info ∷ []) (asked info m)
unfolding tasks begin perform start connect loop_alone on_established loop_step in_service
    update_client reset_connection
asked-Run info m =
    steps
      (steps
        (steps
          (steps
            (steps
              (steps
                (steps
                  (steps
                    (steps (steps (worked-Run info m) (loops_alone refl refl))
                      (connects blank refl refl refl))
                    (loops refl refl))
                  (loops refl refl))
                (loops refl refl))
              (loops refl refl))
            (loops refl refl))
          (loops refl refl))
        (loops refl refl))
      (loops refl refl)

abbrev pub shown : Text → Dict → System
shown info m = send m (record (asked info m) { reading = some m })

pub shown-Run : (info : Text) (m : Dict) → Run (telemetry m ∷ new_header info ∷ []) (shown info m)
unfolding tasks begin perform start connect loop_alone on_established loop_step in_service
    update_client reset_connection set_data set_session_info get_fuel_message
shown-Run info m = steps (steps (asked-Run info m) (reads refl refl refl refl)) (sends m refl)

pub shown-quiet :
    (info : Text) (m : Dict)
    → ((shown info m).todo ≡ [])
      × ((shown info m).is_open ≡ true)
      × (is_pending (shown info m) ≡ false)
      × ((shown info m).flags.connection_reset ≡ false)
unfolding tasks begin perform start connect loop_alone on_established loop_step in_service
    update_client reset_connection set_data set_session_info get_fuel_message send on_writable
    Loop.on_writable
shown-quiet info m = (refl, refl, refl, refl)
