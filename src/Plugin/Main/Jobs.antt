-- ===== src/Plugin/Main/Jobs.antt =====
-- The main loop of src/irplugin/irplugin.cpp as the rest of the program sees it, in the terms of
-- `System`.
use ir_pit_crew.Prelude.{
  ℕ, ◌≡◌, refl, ap, ◌∙◌, Bool, Bool-cases, inl, inr, ◌>>=◌, Option-cases, none, some, List, [], ◌∷◌,
  ◌++◌, if◌then◌else◌, All,
}
use mathlib.Core.Path.{subst}
use ir_pit_crew.Prelude.Text.{Text}
use ir_pit_crew.Shared.{initial}
use ir_pit_crew.Floats.{Floats}
use ir_pit_crew.System.{Job, new_header, telemetry}
use ir_pit_crew.LapFuel.Files.{Storage}
use ir_pit_crew.Plugin.Main.{
  start, running, Poll, no_data, ready, MainLoop, Turn, turn_of, read_variables, is_new_header,
  on_header, on_telemetry, turn, run,
}
use ir_pit_crew.Plugin.Main.Start.{program_is_defined, running-first_state}
use ir_pit_crew.Plugin.Main.Running.{IsScaling, IsSound}
use ir_pit_crew.Plugin.Update.Published.{Holds, bind-Holds, chain-Holds}
use ir_pit_crew.Plugin.Main.Restart.{Holds-bind}
use ir_pit_crew.Plugin.Main.Work.{IsWork, IsWork-append}
use ir_pit_crew.Plugin.Main.Outcomes.{update-IsTelemetry, new_session-IsHeader, shared-first_state}

module _ (F : Floats) (single_of : Text → F.single.Num) (double_of : Text → F.double.Num) where
  -- The jobs of a turn, with what it led to.
  abbrev pub jobs_of_turn : MainLoop F → Poll → Turn F → List Job
  jobs_of_turn m (no_data connected) t = []
  jobs_of_turn m (ready none bytes) t = []
  jobs_of_turn m (ready (some h) bytes) t =
      if is_new_header m.buffer h.buf_len
      then new_header h.session_info ∷ []
      else telemetry t.main.plugin.shared.data_map ∷ []

  -- The jobs of turn after turn.
  unfoldable pub jobs_of : Text → ℕ → MainLoop F → List Poll → List Job
  jobs_of data_dir positions m [] = []
  jobs_of data_dir positions m (poll ∷ polls) =
      elim (turn F single_of double_of data_dir positions m poll) [
        | none ↦ []
        | some t ↦ jobs_of_turn m poll t ++ jobs_of data_dir positions t.main polls
      ]

  pub jobs_of-turn :
      (data_dir : Text) (positions : ℕ) (m : MainLoop F) (poll : Poll) (polls : List Poll)
      → (t : Turn F) → turn F single_of double_of data_dir positions m poll ≡ some t
      → jobs_of data_dir positions m (poll ∷ polls)
        ≡ jobs_of_turn m poll t ++ jobs_of data_dir positions t.main polls
  unfolding jobs_of
  jobs_of-turn data_dir positions m poll polls t ran = rw (ran, jobs_of) refl

  turn-IsWork :
      (data_dir : Text) (positions : ℕ) (m : MainLoop F) (poll : Poll)
      → Holds
          (λ (t : Turn F).
            IsWork (jobs_of_turn m poll t) m.plugin.shared t.main.plugin.shared t.requests)
          (turn F single_of double_of data_dir positions m poll)
  unfolding turn on_header on_telemetry
  turn-IsWork data_dir positions m (no_data connected) = record {
    shared = refl;
    asked = refl;
    ordered = tt;
  }
  turn-IsWork data_dir positions m (ready none bytes) = record {
    shared = refl;
    asked = refl;
    ordered = tt;
  }
  turn-IsWork data_dir positions m (ready (some h) bytes) =
      elim (Bool-cases (is_new_header m.buffer h.buf_len)) [
        | inl new ↦ rw new (
            Holds-bind _ _ (turn_of F (some h.buf_len))
              (new_session-IsHeader F h.yaml h.session_info data_dir m.plugin))
        | inr old ↦ rw old (
            bind-Holds _ (read_variables F single_of double_of h.variables bytes) _ (λ vars.
              Holds-bind _ _ (turn_of F m.buffer)
                (update-IsTelemetry F h.yaml positions vars m.plugin)))
      ]

  run-Holds :
      (data_dir : Text) (positions : ℕ) (m : MainLoop F) (polls : List Poll)
      → Holds
          (λ (t : Turn F).
            IsWork
              (jobs_of data_dir positions m polls)
              m.plugin.shared
              t.main.plugin.shared
              t.requests)
          (run F single_of double_of data_dir positions m polls)
  unfolding run jobs_of ◌>>=◌
  run-Holds data_dir positions m [] = record { shared = refl; asked = refl; ordered = tt }
  run-Holds data_dir positions m (poll ∷ polls) =
      elim (Option-cases (turn F single_of double_of data_dir positions m poll)) [
        | inl failed ↦ rw failed tt
        | inr (t, ran) ↦
            let first =
              subst
                (Holds (λ (u : Turn F).
                  IsWork (jobs_of_turn m poll u) m.plugin.shared u.main.plugin.shared u.requests))
                ran (turn-IsWork data_dir positions m poll) in
            rw (jobs_of-turn data_dir positions m poll polls t ran, ran)
              (chain-Holds _ _ (run F single_of double_of data_dir positions t.main polls) _
                (run-Holds data_dir positions t.main polls)
                (λ rest k.
                  IsWork-append (jobs_of_turn m poll t) (jobs_of data_dir positions t.main polls)
                    m.plugin.shared t.main.plugin.shared rest.main.plugin.shared t.requests
                    rest.requests first k))
      ]

  -- What a run leaves behind, from the start of the program.
  pub run-IsWork :
      (is_first has_handler : Bool) (data_dir : Text) (st : Storage) (m : MainLoop F)
      → (positions : ℕ) (polls : List Poll) (t : Turn F)
      → start F is_first has_handler data_dir st ≡ running m
      → run F single_of double_of data_dir positions m polls ≡ some t
      → IsWork (jobs_of data_dir positions m polls) initial t.main.plugin.shared t.requests
  run-IsWork is_first has_handler data_dir st m positions polls t e ran =
      let jobs = jobs_of data_dir positions m polls in
      let empty : m.plugin.shared ≡ initial =
        ap (λ (n : MainLoop F). n.plugin.shared)
          (running-first_state F is_first has_handler data_dir st m e)
        ∙ shared-first_state F data_dir st in
      let work =
        subst (Holds (λ (u : Turn F). IsWork jobs m.plugin.shared u.main.plugin.shared u.requests))
          ran (run-Holds data_dir positions m polls) in
      subst (λ s. IsWork jobs s t.main.plugin.shared t.requests) empty work

  -- The program enters its loop and is polled with sound headers: their weight of a litre is
  -- above zero or missing, the driver's name, car and number and the limits of the sessions are
  -- shorter than 512 bytes, the variables lie in the row, and those that the loop reads are among
  -- them. Then every turn comes to its end, and all that the loop does to the rest of the program
  -- is a sequence of the jobs of `System`.
  -- The shared values are those that the tasks of the jobs leave behind, from empty ones on, as
  -- long as no one else writes them; the requests to the server thread are those of the tasks,
  -- in order; and the map of every set of telemetry is in order.
  pub program_jobs :
      (scaling : IsScaling F) (is_first has_handler : Bool) (data_dir : Text) (st : Storage)
      (m : MainLoop F) (positions : ℕ) (polls : List Poll)
      → start F is_first has_handler data_dir st ≡ running m
      → All (IsSound F single_of double_of scaling) polls
      → (t : Turn F) × (run F single_of double_of data_dir positions m polls ≡ some t)
        × IsWork (jobs_of data_dir positions m polls) initial t.main.plugin.shared t.requests
  program_jobs scaling is_first has_handler data_dir st m positions polls e sound =
      let (t, ran) =
        program_is_defined F single_of double_of scaling is_first has_handler data_dir st m
          positions polls e sound in
      (t, ran, run-IsWork is_first has_handler data_dir st m positions polls t e ran)
