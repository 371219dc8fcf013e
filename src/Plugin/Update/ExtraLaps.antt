-- ===== src/Plugin/Update/ExtraLaps.antt =====
-- What the laps of fuel that a new session has read from the configuration do in an update.
use mathlib.Core.Option
use ir_pit_crew.Plugin.Standings.{int_eq, Yaml}
use ir_pit_crew.Prelude.Int.{pos, le_ℤ, ℤ}
use ir_pit_crew.Prelude.{
  not, [], ℕ, ◌≡◌, refl, ap, ◌∙◌, Bool-cases, inl, inr, Option, none, some, List, ◌++◌, ◌>>=◌, ◌&&◌,
}
use ir_pit_crew.Prelude.Text.{Text, codes}
use ir_pit_crew.Dict.{Dict}
use ir_pit_crew.Floats.{Floats}
use ir_pit_crew.LapFuel.Laps.{add_lap_data}
use ir_pit_crew.Plugin.Convert.{convert_fuel_litres_to_display}
use ir_pit_crew.Plugin.PitCommand.{handle_pit_command_message}
use ir_pit_crew.Plugin.DataMap.{add_data_var}
use ir_pit_crew.Plugin.Race.{race_limits}
use ir_pit_crew.Plugin.State.{Plugin, Outcome}
use ir_pit_crew.Plugin.Update.{
  precision, session_copies, collect, change_session, finish_lap, add_entries, limit_entries,
  fuel_entries, find_cars, car_entries, publish, update,
}

map-bind {ℓ ℓ' κ} :
    {A : Type ℓ} {B : Type ℓ'} {C : Type κ} (f : B → C) (m : Option A) (g : A → Option C)
    (h : A → Option B)
    → ((a : A) → g a ≡ Option.map f (h a))
    → (m >>= g) ≡ Option.map f (m >>= h)
unfolding ◌>>=◌
map-bind f none g h e = refl
map-bind f (some a) g h e = e a

module _ (F : Floats) where
  open F use {single, double, read_single, read_double}

  -- The same state with other laps of fuel in the settings.
  abbrev pub with_extra_laps : double.Num → Plugin F → Plugin F
  with_extra_laps e p = record p { settings = record p.settings { extra_laps_of_fuel = e } }

  abbrev pub outcome_with : double.Num → Outcome F → Outcome F
  outcome_with e o = record o { plugin = with_extra_laps e o.plugin }

  change_session-with :
      (e : double.Num) (yaml : Text → Option Yaml) (num : ℤ) (p : Plugin F)
      → change_session F yaml num (with_extra_laps e p)
        ≡ with_extra_laps e (change_session F yaml num p)
  unfolding change_session
  change_session-with e yaml num p =
      elim (Bool-cases (not (int_eq num p.session_num) && le_ℤ (pos 0) num)) [
        | inl new ↦ rw new refl
        | inr same ↦ rw same refl
      ]

  finish_lap-with :
      (e : double.Num) (t fuel : single.Num) (p : Plugin F)
      → finish_lap F t fuel (with_extra_laps e p) ≡ with_extra_laps e (finish_lap F t fuel p)
  unfolding finish_lap
  finish_lap-with e t fuel p =
      elim (Bool-cases
        (single.le p.old_lap_last_lap_time t && single.le t p.old_lap_last_lap_time)) [
          | inl same ↦ rw same refl
          | inr new ↦ rw new (elim (Bool-cases (add_lap_data F p.lap_data t fuel).1) [
            | inl updated ↦ rw updated refl
            | inr kept ↦ rw kept refl
          ])
        ]

  publish-with :
      (e : double.Num) (p : Plugin F) (m : Dict)
      → publish F (with_extra_laps e p) m ≡ Option.map (outcome_with e) (publish F p m)
  unfolding publish
  publish-with e p m =
      map-bind (outcome_with e)
        (handle_pit_command_message F p.settings.skip_clear_on_apply p.conversion.factor _) _ _
        (λ sent. refl)

  -- What follows the first variables.
  abbrev end : (Text → Option Yaml) → ℕ → Dict → single.Num → ℤ → Plugin F → Option (Outcome F)
  end yaml positions m1 fuel num p1 =
      race_limits F p1.settings.use_driver_laps_remaining p1.session_total_laps
        p1.session_total_time m1 p1.estimate.lap_time
      >>= λ l.
          let m2 = add_entries F m1 (limit_entries F p1 l ++ fuel_entries F p1 l fuel) in
          find_cars F yaml positions m2 num p1.estimate.lap_time >>= λ cars.
          publish F p1 (add_entries F m2 (car_entries F cars))

  end-with :
      (e : double.Num) (yaml : Text → Option Yaml) (positions : ℕ) (m1 : Dict) (fuel : single.Num)
      (num : ℤ) (p1 : Plugin F)
      → end yaml positions m1 fuel num (with_extra_laps e p1)
        ≡ Option.map (outcome_with e) (end yaml positions m1 fuel num p1)
  unfolding limit_entries fuel_entries
  end-with e yaml positions m1 fuel num p1 =
      map-bind (outcome_with e) _ _ _
        (λ l. map-bind (outcome_with e) _ _ _ (λ cars. publish-with e p1 _))

  -- The laps of fuel in the settings, which every new session reads from the configuration again,
  -- have no effect on an update: with any other number the same is computed, published, asked for
  -- and broadcast, and the number itself is left as it is.
  pub update-extra_laps :
      (e : double.Num) (yaml : Text → Option Yaml) (positions : ℕ) (vars : List (Text × Text))
      (p : Plugin F)
      → update F yaml positions vars (with_extra_laps e p)
        ≡ Option.map (outcome_with e) (update F yaml positions vars p)
  unfolding update session_copies
  update-extra_laps e yaml positions vars p =
      let m = collect [] vars in
      let x = convert_fuel_litres_to_display F p.conversion.factor p.max_fuel in
      let m1 = add_data_var F m (codes "MaxFuel") x precision in
      map-bind (outcome_with e) _ _ _ (λ fuel. map-bind (outcome_with e) _ _ _ (λ pct.
        map-bind (outcome_with e) _ _ _ (λ last. map-bind (outcome_with e) _ _ _ (λ time.
          map-bind (outcome_with e) _ _ _ (λ flags. map-bind (outcome_with e) _ _ _ (λ num.
            map-bind (outcome_with e) _ _ _ (λ copied.
              ap (end yaml positions m1 fuel num) (
                ap (finish_lap F last fuel) (change_session-with e yaml num p)
                ∙ finish_lap-with e last fuel (change_session F yaml num p))
              ∙ end-with e yaml positions m1 fuel num
                  (finish_lap F last fuel (change_session F yaml num p)))))))))
