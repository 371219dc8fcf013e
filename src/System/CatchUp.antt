-- ===== src/System/CatchUp.antt =====
-- The server of `System` when it is left to itself.
use ir_pit_crew.Prelude.{◌≡◌, true, false, List}
use ir_pit_crew.Prelude.Text.{Text}
use ir_pit_crew.Dict.{Dict}
use ir_pit_crew.Server.Loop.{Place, service}
use ir_pit_crew.Server.Loop
use ir_pit_crew.System.{Job, System, Run}
use ir_pit_crew.System.Delivery.{is_pending}

-- A state after the same turns of the main loop, with the same shared values, in which nothing is
-- on its way.
abbrev IsQuietAfter : List Job → System → System → Type 0
IsQuietAfter jobs s s' =
    Run jobs s'
    × (s'.shared ≡ s.shared)
    × (s'.is_open ≡ true)
    × (is_pending s' ≡ false)
    × (s'.flags.connection_reset ≡ false)
