-- ===== src/Plugin/Main/Shown.antt =====
-- The program as a whole, from a row of the simulator's data to what a client reads out of its
-- messages: src/irplugin/irplugin.cpp, src/SharedData, src/WebServer and
-- irPitCrew_install/Client.
use ir_pit_crew.Prelude.{
  ℕ, ◌≡◌, refl, sym, ap, ◌∙◌, Bool, true, false, some, List, [], ◌∷◌, All, All-append,
}
use mathlib.Core.Path.{subst}
use mathlib.Core.List.{reverse, reverse-cons, reverse-reverse}
use ir_pit_crew.Prelude.Text.{Text}
use ir_pit_crew.Dict.{find}
use ir_pit_crew.Shared.{SharedData, set_session_info, set_data, get_fuel_message, initial}
use ir_pit_crew.Server.Update.Wire.{IsTag}
use ir_pit_crew.System.{
  Task, put_info, put_map, take_message, ask_reset, ask_update, Job, System, Run, tasks,
}
use ir_pit_crew.System.Consistent.{IsGoodJob, run-consistent}
use ir_pit_crew.System.Delivery.{is_pending}
use ir_pit_crew.System.LastMap.{map_after, map_of, run-map_of}
use ir_pit_crew.Floats.{Floats}
use ir_pit_crew.LapFuel.Files.{Storage}
use ir_pit_crew.Plugin.Main.{start, running, Poll, MainLoop, Turn, run}
use ir_pit_crew.Plugin.Main.Start.{running-first_state}
use ir_pit_crew.Plugin.Main.Running.{IsScaling, IsSound}
use ir_pit_crew.Plugin.Main.Work.{shared_after, all_tasks, shared_after-append}
use ir_pit_crew.Plugin.Main.Jobs.{jobs_of, run-IsWork}
use ir_pit_crew.Plugin.Main.Fit.{
  IsFitPoll, HasUnits, first_state-HasUnits, run-IsFitJob, jobs-IsGoodJob,
}
use ir_pit_crew.Plugin.Update.Fit.{IsPlainPrint}

map-shared_after :
    (s : SharedData) (ts : List Task) → (shared_after s ts).data_map ≡ map_after s.data_map ts
unfolding set_session_info set_data get_fuel_message
map-shared_after s [] = refl
map-shared_after s (put_info info ∷ ts) = map-shared_after (set_session_info s info) ts
map-shared_after s (put_map m ∷ ts) = map-shared_after (set_data s m) ts
map-shared_after s (take_message ∷ ts) = map-shared_after (get_fuel_message s).1 ts
map-shared_after s (ask_reset ∷ ts) = map-shared_after s ts
map-shared_after s (ask_update ∷ ts) = map-shared_after s ts

map-all_tasks :
    (s : SharedData) (jobs : List Job)
    → (shared_after s (all_tasks jobs)).data_map ≡ map_of s.data_map jobs
map-all_tasks s [] = refl
map-all_tasks s (job ∷ jobs) =
    ap (λ (t : SharedData). t.data_map) (shared_after-append s (tasks job) (all_tasks jobs))
    ∙ map-all_tasks (shared_after s (tasks job)) jobs
    ∙ ap (λ m. map_of m jobs) (map-shared_after s (tasks job))

All-reverse {ℓ κ} : {A : Type ℓ} (P : A → Type κ) (xs : List A) → All P xs → All P (reverse xs)
All-reverse P [] h = tt
All-reverse P (x ∷ xs) (h, hs) =
    subst (All P) (sym (reverse-cons x xs))
      (All-append P (reverse xs) (x ∷ []) (All-reverse P xs hs) (h, tt))

module _ (F : Floats) (single_of : Text → F.single.Num) (double_of : Text → F.double.Num) where
  started-HasUnits :
      (is_first has_handler : Bool) (data_dir : Text) (st : Storage) (m : MainLoop F)
      → start F is_first has_handler data_dir st ≡ running m
      → HasUnits F m.plugin
  started-HasUnits is_first has_handler data_dir st m e =
      subst (λ (n : MainLoop F). HasUnits F n.plugin)
        (sym (running-first_state F is_first has_handler data_dir st m e))
        (first_state-HasUnits F data_dir st)

  -- The whole program: it has entered its loop and has been polled with sound headers, whose
  -- session info, names and values the format can carry. Then in every interleaving of the jobs of
  -- its turns with the server thread and a client's connections, one socket after another: while a
  -- socket is open, once the jobs are done, no update is on its way and none with all the data is
  -- still to be sent, the last value that the client has read out of its messages for a name in
  -- the data that the last turn has left is the value there.
  pub program_arrives :
      (scaling : IsScaling F) (plain : IsPlainPrint F) (is_first has_handler : Bool)
      → (data_dir : Text) (st : Storage) (m : MainLoop F) (positions : ℕ) (polls : List Poll)
      → (t : Turn F) (s : System) → start F is_first has_handler data_dir st ≡ running m
      → All (IsSound F single_of double_of scaling) polls
      → All IsFitPoll polls
      → run F single_of double_of data_dir positions m polls ≡ some t
      → Run (reverse (jobs_of F single_of double_of data_dir positions m polls)) s
      → s.todo ≡ []
      → s.is_open ≡ true
      → is_pending s ≡ false
      → s.flags.connection_reset ≡ false
      → (tag v : Text) → IsTag tag
      → find tag t.main.plugin.shared.data_map ≡ some v
      → s.view tag ≡ some v
  program_arrives scaling plain is_first has_handler data_dir st m positions polls t s e sound fit
        ran way idle opened quiet going tag v name found =
      let jobs = jobs_of F single_of double_of data_dir positions m polls in
      let work =
        run-IsWork F single_of double_of is_first has_handler data_dir st m positions polls t e
          ran in
      let good = jobs-IsGoodJob jobs work.ordered (
        run-IsFitJob F single_of double_of scaling plain data_dir positions m polls
          (started-HasUnits is_first has_handler data_dir st m e) sound fit) in
      let same : s.shared.data_map ≡ t.main.plugin.shared.data_map =
        run-map_of way idle
        ∙ ap (map_of []) (reverse-reverse jobs)
        ∙ sym (map-all_tasks initial jobs)
        ∙ sym (ap (λ (d : SharedData). d.data_map) work.shared) in
      run-consistent way (All-reverse IsGoodJob jobs good) opened quiet going tag v name
        (ap (find tag) same ∙ found)
