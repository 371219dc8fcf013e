-- ===== src/Plugin/Update/Fit/Map.antt =====
-- The map that one update of src/irplugin/irplugin.cpp publishes, against the format of
-- src/WebServer.
use ir_pit_crew.Prelude.{ℕ, refl, ◌∙◌, sym, Option, List, [], ◌++◌, All, All-append}
use mathlib.Core.Path.{subst}
use ir_pit_crew.Prelude.Text.{Text, codes}
use ir_pit_crew.Dict.{Dict}
use ir_pit_crew.Floats.{Floats}
use ir_pit_crew.Shared.{set_data, get_fuel_message}
use ir_pit_crew.Plugin.Convert.{convert_fuel_litres_to_display}
use ir_pit_crew.Plugin.DataMap.{add_data_var}
use ir_pit_crew.Plugin.PitCommand.{handle_pit_command_message}
use ir_pit_crew.Plugin.Race.{Limits}
use ir_pit_crew.Plugin.Session.{Cars}
use ir_pit_crew.Plugin.Standings.{Yaml}
use ir_pit_crew.Plugin.State.{Plugin, Outcome}
use ir_pit_crew.Plugin.Update.{
  limit_entries, fuel_entries, car_entries, add_entries, collect, precision, change_session,
  finish_lap, publish, update, find_cars,
}
use ir_pit_crew.Plugin.Update.Defined.{conversion-change, conversion-finish}
use ir_pit_crew.Plugin.Update.Published.{Holds, bind-Holds, chain-Holds}
use ir_pit_crew.Plugin.Update.Fit.{
  IsLine, IsFitMap, IsFitAdded, IsPlainPrint, collect-IsFitMap, add_data_var-IsFitMap,
  add_entries-IsFitMap,
}
use ir_pit_crew.Plugin.Update.Fit.Cars.{IsPlainYaml, IsPlainCars, cars-IsPlainCars}

module _ (F : Floats) (plain : IsPlainPrint F) where
  limit-IsFitAdded :
      (p : Plugin F) (l : Limits F)
      → IsLine p.conversion.units
      → All (IsFitAdded F plain) (limit_entries F p l)
  unfolding limit_entries
  limit-IsFitAdded p l h = (
    refl,
    (refl, (refl, (refl, (refl, (refl, (refl, (refl, (refl, (refl, ((refl, h), tt)))))))))),
  )

  fuel-IsFitAdded :
      (p : Plugin F) (l : Limits F) (fuel : F.single.Num)
      → All (IsFitAdded F plain) (fuel_entries F p l fuel)
  unfolding fuel_entries
  fuel-IsFitAdded p l fuel = (refl, (refl, (refl, (refl, tt))))

  car-IsFitAdded : (c : Cars F) → IsPlainCars F c → All (IsFitAdded F plain) (car_entries F c)
  unfolding car_entries
  car-IsFitAdded c (a, b) = (
    (refl, a.number),
    (
      (refl, b.number),
      ((refl, a.initials), ((refl, b.initials), (refl, (refl, (refl, (refl, tt)))))),
    ),
  )

  grown-IsFitMap :
      (m : Dict) (max : F.double.Num) (p : Plugin F) (l : Limits F) (fuel : F.single.Num)
      → IsFitMap m
      → IsLine p.conversion.units
      → IsFitMap (
          add_entries F
            (add_data_var F m (codes "MaxFuel") max precision)
            (limit_entries F p l ++ fuel_entries F p l fuel))
  grown-IsFitMap m max p l fuel h u =
      add_entries-IsFitMap F plain _ _
        (All-append (IsFitAdded F plain) (limit_entries F p l) (fuel_entries F p l fuel)
          (limit-IsFitAdded p l u) (fuel-IsFitAdded p l fuel))
        (add_data_var-IsFitMap F plain m (codes "MaxFuel") max refl h)

  abbrev Shares : Outcome F → Type 0
  Shares o = IsFitMap o.plugin.shared.data_map

  publish-Shares : (p : Plugin F) (m : Dict) → IsFitMap m → Holds Shares (publish F p m)
  unfolding publish set_data get_fuel_message
  publish-Shares p m h =
      bind-Holds Shares
        (handle_pit_command_message F p.settings.skip_clear_on_apply p.conversion.factor
          p.shared.fuel_message)
        _ (λ sent. h)

  -- Variables and session info of which lines can be made give a map of which they can be made.
  pub update-IsFitMap :
      (yaml : Text → Option Yaml) (positions : ℕ) (vars : List (Text × Text)) (p : Plugin F)
      → IsPlainYaml yaml
      → IsFitMap vars
      → IsLine p.conversion.units
      → Holds Shares (update F yaml positions vars p)
  unfolding update
  update-IsFitMap yaml positions vars p y v u =
      let m = collect [] vars in
      let h = collect-IsFitMap [] vars tt v in
      let max = convert_fuel_litres_to_display F p.conversion.factor p.max_fuel in
      bind-Holds Shares _ _ (λ fuel. bind-Holds Shares _ _ (λ pct. bind-Holds Shares _ _ (λ last.
        bind-Holds Shares _ _ (λ time. bind-Holds Shares _ _ (λ flags. bind-Holds Shares _ _ (λ num.
          bind-Holds Shares _ _ (λ copied.
            let p0 = change_session F yaml num p in
            let p1 = finish_lap F last fuel p0 in
            let units : IsLine p1.conversion.units =
              subst (λ c. IsLine c.units)
                (sym (conversion-finish F last fuel p0 ∙ conversion-change F yaml num p)) u in
            bind-Holds Shares _ _ (λ l.
              let m2 =
                add_entries F (add_data_var F m (codes "MaxFuel") max precision)
                  (limit_entries F p1 l ++ fuel_entries F p1 l fuel) in
              let fit = grown-IsFitMap m max p1 l fuel h units in
              chain-Holds (IsPlainCars F) Shares
                (find_cars F yaml positions m2 num p1.estimate.lap_time) _
                (cars-IsPlainCars F yaml positions m2 num p1.estimate.lap_time y)
                (λ cars k. publish-Shares p1 _ (
                  add_entries-IsFitMap F plain m2 (car_entries F cars) (car-IsFitAdded cars k)
                    fit))))))))))
