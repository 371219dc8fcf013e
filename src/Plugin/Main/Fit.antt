-- ===== src/Plugin/Main/Fit.antt =====
-- The jobs of the main loop of src/irplugin/irplugin.cpp, against the format of src/WebServer.
use ir_pit_crew.Prelude.{
  ℕ, ◌≡◌, refl, sym, Bool, true, false, Bool-cases, inl, inr, ◌>>=◌, Option, Option-cases, none,
  some, List, [], ◌∷◌, map, All, All-append,
}
use mathlib.Core.Path.{subst}
use ir_pit_crew.Prelude.Text.{Text, codes}
use ir_pit_crew.Floats.{Floats}
use ir_pit_crew.LapFuel.Files.{Storage}
use ir_pit_crew.System.{Job, new_header, telemetry}
use ir_pit_crew.System.Consistent.{IsGoodInfo, IsGoodJob}
use ir_pit_crew.Plugin.Convert.{Conversion, calculate_fuel_display_conversion_factor}
use ir_pit_crew.Plugin.Standings.{Yaml}
use ir_pit_crew.Plugin.Buffers.{copy_all, driver_copies}
use ir_pit_crew.Plugin.State.{Plugin, Outcome}
use ir_pit_crew.Config.Read.{read_config_data, config_file}
use ir_pit_crew.Plugin.NewSession.{enter_session, new_session, number_at, car_name}
use ir_pit_crew.Plugin.Update.{update}
use ir_pit_crew.Plugin.Update.Published.{Holds, bind-Holds}
use ir_pit_crew.Plugin.Update.Fit.{
  IsLine, IsFitMap, IsFitMap-IsGoodMap, IsPlainPrint, characters-IsLine,
}
use ir_pit_crew.Plugin.Update.Fit.Cars.{IsPlainYaml}
use ir_pit_crew.Plugin.Update.Fit.Map.{update-IsFitMap}
use ir_pit_crew.Plugin.Update.Fit.Row.{IsFitVariable, row-IsFitMap}
use ir_pit_crew.Plugin.Main.{
  Header, Poll, no_data, ready, MainLoop, Turn, turn_of, first_state, is_new_header, on_header,
  on_telemetry, turn,
}
use ir_pit_crew.Plugin.Main.Restart.{Holds-accepted, Holds-bind}
use ir_pit_crew.Plugin.Main.Rows.{entry_of, read_variables-inside}
use ir_pit_crew.Plugin.Main.Running.{IsScaling, IsSound, conversion-update}
use ir_pit_crew.Plugin.Main.Work.{IsOrderedJob}
use ir_pit_crew.Plugin.Main.Jobs.{jobs_of_turn, jobs_of, jobs_of-turn}

-- A header and a row that the format can carry: the session info, with the values in it, and the
-- names of the variables.
pub record IsFitHeader (h : Header) (bytes : Text) : Type 0 where
  pub info : IsGoodInfo h.session_info
  pub yaml : IsPlainYaml h.yaml
  pub variables : All (IsFitVariable bytes) h.variables

abbrev pub IsFitPoll : Poll → Type 0
IsFitPoll (no_data connected) = Unit
IsFitPoll (ready none bytes) = Unit
IsFitPoll (ready (some h) bytes) = IsFitHeader h bytes

abbrev pub IsFitJob : Job → Type 0
IsFitJob (new_header info) = IsGoodInfo info
IsFitJob (telemetry m) = IsFitMap m

pub jobs-IsGoodJob :
    (jobs : List Job) → All IsOrderedJob jobs → All IsFitJob jobs → All IsGoodJob jobs
jobs-IsGoodJob [] h k = tt
jobs-IsGoodJob (new_header info ∷ jobs) (h, hs) (k, ks) = (k, jobs-IsGoodJob jobs hs ks)
jobs-IsGoodJob (telemetry m ∷ jobs) (h, hs) (k, ks) =
    (IsFitMap-IsGoodMap m h k, jobs-IsGoodJob jobs hs ks)

Holds-both {ℓ} :
    {A : Type ℓ} (P Q : A → Type 0) (r : Option A)
    → Holds P r
    → Holds Q r
    → Holds (λ a. P a × Q a) r
Holds-both P Q none h k = tt
Holds-both P Q (some a) h k = (h, k)

pub Holds-map {ℓ} :
    {A : Type ℓ} (P Q : A → Type 0) (r : Option A) → ((a : A) → P a → Q a) → Holds P r → Holds Q r
Holds-map P Q none f h = tt
Holds-map P Q (some a) f h = f a h

module _ (F : Floats) where
  open F use {double}

  pub record IsNamed (c : Conversion F) : Type 0 where
    pub units : IsLine c.units

  -- A line can carry the name of the unit of fuel.
  abbrev pub HasUnits : Plugin F → Type 0
  HasUnits p = IsNamed p.conversion

  units-IsNamed :
      (imperial weight : Bool) (kg : double.Num)
      → IsNamed (calculate_fuel_display_conversion_factor F imperial kg imperial weight)
  unfolding calculate_fuel_display_conversion_factor
  units-IsNamed true true kg = record { units = (characters-IsLine (codes "lb") refl).0 }
  units-IsNamed false true kg = record { units = (characters-IsLine (codes "kg") refl).0 }
  units-IsNamed true false kg = record { units = (characters-IsLine (codes "gal") refl).0 }
  units-IsNamed false false kg = record { units = (characters-IsLine (codes "ltr") refl).0 }

  new_session-HasUnits :
      (yaml : Text → Option Yaml) (info data_dir : Text) (p : Plugin F)
      → Holds (λ o. HasUnits o.plugin) (new_session F yaml info data_dir p)
  unfolding new_session enter_session
  new_session-HasUnits yaml info data_dir p =
      let (s, st) = read_config_data F (config_file data_dir) (car_name F yaml) p.storage in
      bind-Holds (λ o. HasUnits o.plugin) (copy_all (driver_copies yaml)) _
        (λ copied.
          Holds-accepted (λ o. HasUnits o.plugin) (yaml (codes "DriverInfo:DriverCarFuelKgPerLtr:"))
            _ _
            (units-IsNamed s.display_fuel_imperial s.display_car_fuel_as_weight
              (number_at F yaml (codes "DriverInfo:DriverCarFuelKgPerLtr:") (double.decimal 10 1))))

  pub first_state-HasUnits :
      (data_dir : Text) (st : Storage) → HasUnits (first_state F data_dir st).plugin
  unfolding first_state
  first_state-HasUnits data_dir st =
      let (s, st') = read_config_data F (config_file data_dir) [] st in
      units-IsNamed s.display_fuel_imperial s.display_car_fuel_as_weight (double.decimal 10 1)

  module _ (single_of : Text → F.single.Num) (double_of : Text → F.double.Num)
      (scaling : IsScaling F) (plain : IsPlainPrint F) where
    abbrev IsFitTurn : MainLoop F → Poll → Turn F → Type 0
    IsFitTurn m poll t =
        All IsFitJob (jobs_of_turn F single_of double_of m poll t) × HasUnits t.main.plugin

    update-HasUnits :
        (yaml : Text → Option Yaml) (positions : ℕ) (vars : List (Text × Text)) (p : Plugin F)
        → HasUnits p
        → Holds (λ o. HasUnits o.plugin) (update F yaml positions vars p)
    update-HasUnits yaml positions vars p h =
        go (update F yaml positions vars p)
          (conversion-update F single_of double_of scaling yaml positions vars p)
      where
        go :
            (r : Option (Outcome F))
            → Holds (λ o. o.plugin.conversion ≡ p.conversion) r
            → Holds (λ o. HasUnits o.plugin) r
        go none e = tt
        go (some o) e = subst IsNamed (sym e) h

    turn-IsFitTurn :
        (data_dir : Text) (positions : ℕ) (m : MainLoop F) (poll : Poll)
        → HasUnits m.plugin
        → IsSound F single_of double_of scaling poll
        → IsFitPoll poll
        → Holds (IsFitTurn m poll) (turn F single_of double_of data_dir positions m poll)
    unfolding turn on_header on_telemetry ◌>>=◌
    turn-IsFitTurn data_dir positions m (no_data connected) u s f = (tt, u)
    turn-IsFitTurn data_dir positions m (ready none bytes) u s f = (tt, u)
    turn-IsFitTurn data_dir positions m (ready (some h) bytes) u s f =
        elim (Bool-cases (is_new_header m.buffer h.buf_len)) [
          | inl new ↦ rw new (
              Holds-bind _ (new_session F h.yaml h.session_info data_dir m.plugin)
                (turn_of F (some h.buf_len))
                (Holds-map (λ o. HasUnits o.plugin) _ _
                  (λ o units. (rw (new, jobs_of_turn) (f.info, tt), units))
                  (new_session-HasUnits h.yaml h.session_info data_dir m.plugin)))
          | inr old ↦
              let vars = map (entry_of F single_of double_of bytes) h.variables in
              let read =
                read_variables-inside F single_of double_of h.variables bytes s.row.inside in
              let after = update F h.yaml positions vars m.plugin in
              rw (old, read)
                (Holds-bind (IsFitTurn m (ready (some h) bytes)) after (turn_of F m.buffer) (
                  Holds-map (λ o. IsFitMap o.plugin.shared.data_map × HasUnits o.plugin)
                    (λ o. IsFitTurn m (ready (some h) bytes) (turn_of F m.buffer o)) after
                    (λ o g. (rw (old, jobs_of_turn) (g.0, tt), g.1))
                    (Holds-both (λ o. IsFitMap o.plugin.shared.data_map) (λ o. HasUnits o.plugin)
                      after
                      (update-IsFitMap F plain h.yaml positions vars m.plugin f.yaml
                        (row-IsFitMap F single_of double_of plain h.variables bytes f.variables)
                        u.units)
                      (update-HasUnits h.yaml positions vars m.plugin u))))
        ]

    pub run-IsFitJob :
        (data_dir : Text) (positions : ℕ) (m : MainLoop F) (polls : List Poll)
        → HasUnits m.plugin
        → All (IsSound F single_of double_of scaling) polls
        → All IsFitPoll polls
        → All IsFitJob (jobs_of F single_of double_of data_dir positions m polls)
    unfolding jobs_of
    run-IsFitJob data_dir positions m [] u s f = tt
    run-IsFitJob data_dir positions m (poll ∷ polls) u (s, ss) (f, fs) =
        elim (Option-cases (turn F single_of double_of data_dir positions m poll)) [
          | inl failed ↦ rw (failed, jobs_of) tt
          | inr (t, ran) ↦
              let (jobs, units) =
                subst (Holds (IsFitTurn m poll)) ran
                  (turn-IsFitTurn data_dir positions m poll u s f) in
              rw (jobs_of-turn F single_of double_of data_dir positions m poll polls t ran) (
                All-append IsFitJob (jobs_of_turn F single_of double_of m poll t) _ jobs
                  (run-IsFitJob data_dir positions t.main polls units ss fs))
        ]
