-- ===== src/Tests/Closing.antt =====
-- A close event on concrete runs of src/irplugin/irplugin.cpp.
use ir_pit_crew.Prelude.{◌≡◌, refl, true, false, [], ◌∷◌, ◌⊎◌}
use ir_pit_crew.Server.Loop.{start}
use ir_pit_crew.Closing.{
  live, creates, asserts, starts, updates, going, testing, joining, Program, begin, on_object,
  turn_calls, perform, handle, Run, here, more, calls, turns, closes, handles,
}
use ir_pit_crew.Closing.Safe.{startup, until_released}
use ir_pit_crew.Closing.Ends.{Ends}
use ir_pit_crew.Closing.Ends.Started.{entered}
use ir_pit_crew.Closing.Hangs.{started_late_hangs}

-- The object has been made, and the handler has asked for the end of the thread.
made : Program
made = record (begin true) { object = live; todo = starts ∷ []; handler = joining }

made-Run : Run (begin true) made
unfolding made perform handle
made-Run =
    more
      (more
        (more
          (more
            (more (more here refl (λ x. absurd (cc x)) (calls creates (asserts ∷ starts ∷ []) refl))
              refl (λ x. absurd (cc x)) (calls asserts (starts ∷ []) refl))
            refl (λ x. absurd (cc x)) (closes refl))
          refl (λ x. absurd (cc x)) handles)
        refl (λ x. absurd (cc x)) handles)
      refl (λ x. absurd (cc x)) handles

until_released_example : (made.fate ≡ going) × ((made.object ≡ live) ⊎ (made.todo ≡ startup))
unfolding made
until_released_example = until_released true made made-Run refl

-- The thread begins, and the main loop goes on.
late : Program
unfolding made perform on_object turn_calls
late = record (perform starts (record made { todo = [] })) { todo = turn_calls false }

late-Run : Run (perform starts (record made { todo = [] })) late
unfolding made late perform on_object turn_calls
late-Run = more here refl (λ x. absurd (cc x)) (turns false refl)

started_late_hangs_example : late.handler ≡ joining
unfolding made
started_late_hangs_example = started_late_hangs true made late made-Run refl refl refl late-Run

-- A close event in the middle of a turn of the main loop.
closing : Program
closing = record (entered true start) { todo = updates ∷ []; handler = testing }
