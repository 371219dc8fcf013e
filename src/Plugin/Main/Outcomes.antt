-- ===== src/Plugin/Main/Outcomes.antt =====
-- The two branches of the main loop of src/irplugin/irplugin.cpp as the rest of the program sees them,
-- in the terms of `System`.
use ir_pit_crew.Prelude.{
  ℕ, ◌≡◌, refl, ap, ◌∙◌, Bool, true, false, Bool-cases, inl, inr, ◌&&◌, Option, List, [], ◌∷◌, ◌++◌,
  if◌then◌else◌,
}
use ir_pit_crew.Prelude.Int.{ℤ}
use ir_pit_crew.Prelude.Text.{Text, codes}
use ir_pit_crew.Dict.{Dict, IsMap}
use ir_pit_crew.Shared.{SharedData, set_session_info, set_data, get_fuel_message, initial}
use ir_pit_crew.Floats.{Floats}
use ir_pit_crew.LapFuel.Laps.{add_lap_data}
use ir_pit_crew.System.{new_header, telemetry, tasks}
use ir_pit_crew.Plugin.PitCommand.{handle_pit_command_message}
use ir_pit_crew.Plugin.Standings.{Yaml}
use ir_pit_crew.Plugin.Buffers.{copy_all, driver_copies}
use ir_pit_crew.Plugin.State.{Plugin, Outcome}
use ir_pit_crew.Plugin.NewSession.{enter_session, new_session}
use ir_pit_crew.Plugin.Update.{
  update, publish, finish_lap, change_session, collect, limit_entries, fuel_entries, car_entries,
}
use ir_pit_crew.LapFuel.Files.{Storage}
use ir_pit_crew.Plugin.Convert.{convert_fuel_litres_to_display}
use ir_pit_crew.Plugin.Main.{first_state}
use ir_pit_crew.Plugin.Update.Published.{grown-Extends, collect-IsMap, Holds, bind-Holds}
use ir_pit_crew.Plugin.Main.Restart.{Holds-accepted}
use ir_pit_crew.Plugin.Main.Work.{IsWork}

module _ (F : Floats) where
  open F use {single}

  if-shared :
      (b : Bool) (p q : Plugin F) (s : SharedData)
      → p.shared ≡ s
      → q.shared ≡ s
      → (if b then p else q).shared ≡ s
  if-shared true p q s h k = h
  if-shared false p q s h k = k

  shared-change :
      (yaml : Text → Option Yaml) (num : ℤ) (p : Plugin F)
      → (change_session F yaml num p).shared ≡ p.shared
  unfolding change_session
  shared-change yaml num p = if-shared _ _ p p.shared refl refl

  shared-finish : (t fuel : single.Num) (p : Plugin F) → (finish_lap F t fuel p).shared ≡ p.shared
  unfolding finish_lap
  shared-finish t fuel p =
      elim (Bool-cases
        (single.le p.old_lap_last_lap_time t && single.le t p.old_lap_last_lap_time)) [
          | inl same ↦ rw same refl
          | inr new ↦ rw new (elim (Bool-cases (add_lap_data F p.lap_data t fuel).1) [
            | inl updated ↦ rw updated refl
            | inr kept ↦ rw kept refl
          ])
        ]

  -- An outcome is one set of telemetry.
  abbrev pub IsTelemetry : SharedData → Outcome F → Type 0
  IsTelemetry s o = IsWork (telemetry o.plugin.shared.data_map ∷ []) s o.plugin.shared o.requests

  -- An outcome is one new header.
  abbrev pub IsHeader : SharedData → Text → Outcome F → Type 0
  IsHeader s info o = IsWork (new_header info ∷ []) s o.plugin.shared o.requests

  pub publish-IsTelemetry :
      (p : Plugin F) (m : Dict) (s : SharedData)
      → p.shared ≡ s
      → IsMap m
      → Holds (IsTelemetry s) (publish F p m)
  unfolding publish tasks set_data get_fuel_message
  publish-IsTelemetry p m s e o =
      bind-Holds _
        (handle_pit_command_message F p.settings.skip_clear_on_apply p.conversion.factor
          p.shared.fuel_message)
        _
        (λ sent. record {
          shared = ap (λ (t : SharedData). (get_fuel_message (set_data t m)).1) e;
          asked = refl;
          ordered = (o, tt);
        })

  pub update-IsTelemetry :
      (yaml : Text → Option Yaml) (positions : ℕ) (vars : List (Text × Text)) (p : Plugin F)
      → Holds (IsTelemetry p.shared) (update F yaml positions vars p)
  unfolding update
  update-IsTelemetry yaml positions vars p =
      let P : Outcome F → Type 0 = IsTelemetry p.shared in
      let max = convert_fuel_litres_to_display F p.conversion.factor p.max_fuel in
      bind-Holds P _ _ (λ fuel. bind-Holds P _ _ (λ pct. bind-Holds P _ _ (λ last.
        bind-Holds P _ _ (λ time. bind-Holds P _ _ (λ flags. bind-Holds P _ _ (λ num.
          bind-Holds P _ _ (λ copied. bind-Holds P _ _ (λ l. bind-Holds P _ _ (λ cars.
            let p0 = change_session F yaml num p in
            let p1 = finish_lap F last fuel p0 in
            publish-IsTelemetry p1 _ p.shared
              (shared-finish last fuel p0 ∙ shared-change yaml num p)
              (grown-Extends F (collect [] vars) (codes "MaxFuel") max
                (limit_entries F p1 l ++ fuel_entries F p1 l fuel) (car_entries F cars)
                (collect-IsMap [] vars tt)).0)))))))))

  pub new_session-IsHeader :
      (yaml : Text → Option Yaml) (info data_dir : Text) (p : Plugin F)
      → Holds (IsHeader p.shared info) (new_session F yaml info data_dir p)
  unfolding new_session enter_session tasks set_data set_session_info
  new_session-IsHeader yaml info data_dir p =
      bind-Holds (IsHeader p.shared info) (copy_all (driver_copies yaml)) _ (λ copied.
        Holds-accepted (IsHeader p.shared info) (yaml (codes "DriverInfo:DriverCarFuelKgPerLtr:")) _
          _ record { shared = refl; asked = refl; ordered = (tt, tt) })

  pub shared-first_state :
      (data_dir : Text) (st : Storage) → (first_state F data_dir st).plugin.shared ≡ initial
  unfolding first_state
  shared-first_state data_dir st = refl
