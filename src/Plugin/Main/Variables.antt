-- ===== src/Plugin/Main/Variables.antt =====
-- The variables of the simulator, from a row of its data (src/irplugin/irplugin.cpp) to what a client
-- reads out of its messages (irPitCrew_install/Client).
use ir_pit_crew.Prelude.{
  ℕ, ◌≡◌, refl, sym, ap, Bool, true, false, ◌>>=◌, Option, none, some, List, [], ◌∷◌, ◌++◌, map,
  All,
}
use mathlib.Core.Path.{subst}
use mathlib.Core.List.{reverse}
use mathlib.Core.Option.{some-injective}
use ir_pit_crew.Prelude.Text.{Text}
use ir_pit_crew.Dict.{find}
use ir_pit_crew.Server.Update.Wire.{IsTag}
use ir_pit_crew.System.{System, Run}
use ir_pit_crew.System.Delivery.{is_pending}
use ir_pit_crew.Floats.{Floats}
use ir_pit_crew.LapFuel.Files.{Storage}
use ir_pit_crew.Plugin.Update.{collect, update}
use ir_pit_crew.Plugin.Update.Published.{chain-Holds, Holds, Publishes, update-Publishes}
use ir_pit_crew.Plugin.Update.Fit.{IsPlainPrint}
use ir_pit_crew.Plugin.Main.{
  Header, Poll, ready, MainLoop, Turn, turn_of, start, running, is_new_header, on_telemetry, turn,
  run,
}
use ir_pit_crew.Plugin.Main.Restart.{Holds-bind}
use ir_pit_crew.Plugin.Main.Rows.{entry_of, IsInside, read_variables-inside}
use ir_pit_crew.Plugin.Main.Running.{IsScaling, IsSound}
use ir_pit_crew.Plugin.Main.Jobs.{jobs_of, program_jobs}
use ir_pit_crew.Plugin.Main.Fit.{IsFitPoll, Holds-map}
use ir_pit_crew.Plugin.Main.Shown.{program_arrives}

All-last {ℓ κ} : {A : Type ℓ} (P : A → Type κ) (xs : List A) (x : A) → All P (xs ++ x ∷ []) → P x
All-last P [] x (h, hs) = h
All-last P (y ∷ xs) x (h, hs) = All-last P xs x hs

bind-some {ℓ ℓ'} :
    {A : Type ℓ} {B : Type ℓ'} (m : Option A) (f : A → Option B) (b : B)
    → m >>= f ≡ some b
    → (a : A) × (m ≡ some a) × (f a ≡ some b)
unfolding ◌>>=◌
bind-some none f b e = absurd (cc e)
bind-some (some a) f b e = (a, refl, e)

module _ (F : Floats) (single_of : Text → F.single.Num) (double_of : Text → F.double.Num) where
  -- The state of the loop after the polls.
  abbrev EndsIn : (MainLoop F → Type 0) → Option (Turn F) → Type 0
  EndsIn P = Holds (λ (t : Turn F). P t.main)

  -- What holds behind every turn of the last poll holds behind all.
  run-last :
      (P : MainLoop F → Type 0) (data_dir : Text) (positions : ℕ) (m : MainLoop F)
      → (polls : List Poll) (poll : Poll) (t0 : Turn F)
      → run F single_of double_of data_dir positions m polls ≡ some t0
      → EndsIn P (turn F single_of double_of data_dir positions t0.main poll)
      → EndsIn P (run F single_of double_of data_dir positions m (polls ++ poll ∷ []))
  unfolding run ◌>>=◌
  run-last P data_dir positions m [] poll t0 e h =
      let same : m ≡ t0.main = ap (λ (t : Turn F). t.main) (some-injective _ t0 e) in
      chain-Holds (λ (t : Turn F). P t.main) (λ (t : Turn F). P t.main)
        (turn F single_of double_of data_dir positions m poll) _
        (subst (λ n. EndsIn P (turn F single_of double_of data_dir positions n poll)) (sym same) h)
        (λ t k. k)
  run-last P data_dir positions m (first ∷ polls) poll t0 e h =
      let (t, ran, e') = bind-some (turn F single_of double_of data_dir positions m first) _ t0 e in
      let (rest, ran', e'') =
        bind-some (run F single_of double_of data_dir positions t.main polls) _ t0 e' in
      let same : rest.main ≡ t0.main = ap (λ (u : Turn F). u.main) (some-injective _ t0 e'') in
      let ih = run-last P data_dir positions t.main polls poll rest ran' (
        subst (λ n. EndsIn P (turn F single_of double_of data_dir positions n poll)) (sym same)
          h) in
      rw ran (
        chain-Holds (λ (u : Turn F). P u.main) (λ (u : Turn F). P u.main)
          (run F single_of double_of data_dir positions t.main (polls ++ poll ∷ [])) _ ih
          (λ u k. k))

  row-published :
      (data_dir : Text) (positions : ℕ) (m : MainLoop F) (h : Header) (bytes name v : Text)
      → All (IsInside bytes) h.variables
      → is_new_header m.buffer h.buf_len ≡ false
      → find name (collect [] (map (entry_of F single_of double_of bytes) h.variables)) ≡ some v
      → EndsIn
          (λ n. find name n.plugin.shared.data_map ≡ some v)
          (turn F single_of double_of data_dir positions m (ready (some h) bytes))
  unfolding turn on_telemetry ◌>>=◌
  row-published data_dir positions m h bytes name v inside old found =
      let vars = map (entry_of F single_of double_of bytes) h.variables in
      let after = update F h.yaml positions vars m.plugin in
      rw (old, read_variables-inside F single_of double_of h.variables bytes inside)
        (Holds-bind (λ t. find name t.main.plugin.shared.data_map ≡ some v) after
          (turn_of F m.buffer)
          (Holds-map (Publishes F (collect [] vars))
            (λ o. find name o.plugin.shared.data_map ≡ some v) after (λ o p. p.0.1 name v found)
            (update-Publishes F h.yaml positions vars m.plugin)))

  -- From the simulator to the client: the program has entered its loop and has been polled with
  -- sound headers that the format can carry, the last time with a set of telemetry. Then in every
  -- interleaving of its jobs with the server thread and a client's connections, one socket after
  -- another: while a socket is open, once the jobs are done, no update is on its way and none with
  -- all the data is still to be sent, the last value that the client has read out of its messages
  -- for the name of a variable of the simulator is the text of its items in that set, of the first
  -- of the variables of this name.
  pub variable_arrives :
      (scaling : IsScaling F) (plain : IsPlainPrint F) (is_first has_handler : Bool)
      → (data_dir : Text) (st : Storage) (m : MainLoop F) (positions : ℕ) (earlier : List Poll)
      → (h : Header) (bytes : Text) (t0 : Turn F) (s : System)
      → let polls = earlier ++ ready (some h) bytes ∷ [] in
        start F is_first has_handler data_dir st ≡ running m
        → All (IsSound F single_of double_of scaling) polls
        → All IsFitPoll polls
        → run F single_of double_of data_dir positions m earlier ≡ some t0
        → is_new_header t0.main.buffer h.buf_len ≡ false
        → Run (reverse (jobs_of F single_of double_of data_dir positions m polls)) s
        → s.todo ≡ []
        → s.is_open ≡ true
        → is_pending s ≡ false
        → s.flags.connection_reset ≡ false
        → (name v : Text) → IsTag name
        → find name (collect [] (map (entry_of F single_of double_of bytes) h.variables)) ≡ some v
        → s.view name ≡ some v
  variable_arrives scaling plain is_first has_handler data_dir st m positions earlier h bytes t0 s e
        sound fit ran old way idle opened quiet going name v tag found =
      let polls = earlier ++ ready (some h) bytes ∷ [] in
      let last =
        All-last (IsSound F single_of double_of scaling) earlier (ready (some h) bytes) sound in
      let (t, whole, work) =
        program_jobs F single_of double_of scaling is_first has_handler data_dir st m positions
          polls e sound in
      let there : find name t.main.plugin.shared.data_map ≡ some v =
        subst (EndsIn (λ n. find name n.plugin.shared.data_map ≡ some v)) whole (
          run-last (λ n. find name n.plugin.shared.data_map ≡ some v) data_dir positions m earlier
            (ready (some h) bytes) t0 ran
            (row-published data_dir positions t0.main h bytes name v last.row.inside old found)) in
      program_arrives F single_of double_of scaling plain is_first has_handler data_dir st m
        positions polls t s e sound fit whole way idle opened quiet going name v tag there
