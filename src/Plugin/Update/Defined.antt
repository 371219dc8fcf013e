-- ===== src/Plugin/Update/Defined.antt =====
-- The assertions of an update as a whole.
use ir_pit_crew.Prelude.{
  ℕ, ◌≡◌, refl, ap, ◌∙◌, true, false, Bool, Bool-cases, inl, inr, Option, some, List, [], ◌++◌,
  ◌>>=◌, if◌then◌else◌, ◌&&◌,
}
use ir_pit_crew.Prelude.Text.{Text, codes}
use ir_pit_crew.Prelude.Int.{ℤ}
use ir_pit_crew.Prelude.Number.{stream_int}
use ir_pit_crew.LapFuel.Laps.{add_lap_data}
use ir_pit_crew.Dict.{Dict, IsMap}
use ir_pit_crew.Floats.{Floats, nought}
use ir_pit_crew.Plugin.Convert.{Conversion, convert_fuel_litres_to_display}
use ir_pit_crew.Plugin.DataMap.{add_data_var}
use ir_pit_crew.Plugin.Race.{race_limits}
use ir_pit_crew.Plugin.Standings.{Yaml}
use ir_pit_crew.Plugin.Buffers.{fits_buffer, AllFit, copy_all-AllFit}
use ir_pit_crew.Plugin.State.{Plugin, Outcome}
use ir_pit_crew.Plugin.Update.{
  precision, session_path, is_other_session, session_copies, finish_lap, change_session,
  add_entries, collect, car_entries, limit_entries, fuel_entries, find_cars, publish, update,
}
use ir_pit_crew.Plugin.Update.Published.{collect-IsMap, grown-Extends}
use ir_pit_crew.Plugin.Update.Delivered.{
  IsDefined, bind-IsDefined, needed, IsDelivered, read-IsDefined, delivered-Extends,
  race_limits-IsDefined, cars-IsDefined, publish-IsDefined,
}

-- The limits of every session have room in the buffer.
abbrev pub IsShortSession : (Text → Option Yaml) → Type 0
IsShortSession yaml =
    (num : ℤ)
    → (fits_buffer (yaml (session_path num (codes "SessionLaps:"))) ≡ true)
      × (fits_buffer (yaml (session_path num (codes "SessionTime:"))) ≡ true)

module _ (F : Floats) where
  open F use {single, double, atof, read_single, read_double}

  if-conversion :
      (b : Bool) (p q : Plugin F) (c : Conversion F)
      → p.conversion ≡ c
      → q.conversion ≡ c
      → (if b then p else q).conversion ≡ c
  if-conversion true p q c h k = h
  if-conversion false p q c h k = k

  pub conversion-change :
      (yaml : Text → Option Yaml) (num : ℤ) (p : Plugin F)
      → (change_session F yaml num p).conversion ≡ p.conversion
  unfolding change_session
  conversion-change yaml num p = if-conversion _ _ p p.conversion refl refl

  pub conversion-finish :
      (t fuel : single.Num) (p : Plugin F) → (finish_lap F t fuel p).conversion ≡ p.conversion
  unfolding finish_lap
  conversion-finish t fuel p =
      elim (Bool-cases
        (single.le p.old_lap_last_lap_time t && single.le t p.old_lap_last_lap_time)) [
          | inl same ↦ rw same refl
          | inr new ↦ rw new (elim (Bool-cases (add_lap_data F p.lap_data t fuel).1) [
            | inl updated ↦ rw updated refl
            | inr kept ↦ rw kept refl
          ])
        ]

  -- What follows the first variables.
  end-IsDefined :
      (yaml : Text → Option Yaml) (positions : ℕ) (m : Dict) (fuel last : single.Num) (num : ℤ)
      → (p : Plugin F) → IsMap m
      → IsDelivered m
      → double.lt (nought double) p.conversion.factor ≡ true
      → let m1 =
          add_data_var F m
            (codes "MaxFuel")
            (convert_fuel_litres_to_display F p.conversion.factor p.max_fuel)
            precision in
        let p1 = finish_lap F last fuel (change_session F yaml num p) in
        IsDefined (
          race_limits F p1.settings.use_driver_laps_remaining p1.session_total_laps
            p1.session_total_time m1 p1.estimate.lap_time
          >>= λ l.
              let m2 = add_entries F m1 (limit_entries F p1 l ++ fuel_entries F p1 l fuel) in
              find_cars F yaml positions m2 num p1.estimate.lap_time >>= λ cars.
              publish F p1 (add_entries F m2 (car_entries F cars)))
  unfolding add_entries
  end-IsDefined yaml positions m fuel last num p o h k =
      let x = convert_fuel_litres_to_display F p.conversion.factor p.max_fuel in
      let m1 = add_data_var F m (codes "MaxFuel") x precision in
      let p0 = change_session F yaml num p in
      let p1 = finish_lap F last fuel p0 in
      let same = conversion-finish last fuel p0 ∙ conversion-change yaml num p in
      let h1 = delivered-Extends m m1 needed (grown-Extends F m (codes "MaxFuel") x [] [] o) h in
      bind-IsDefined _ _ (race_limits-IsDefined F _ _ _ m1 p1.estimate.lap_time h1) (λ l.
        let es = limit_entries F p1 l ++ fuel_entries F p1 l fuel in
        let h2 =
          delivered-Extends m (add_entries F m1 es) needed
            (grown-Extends F m (codes "MaxFuel") x es [] o) h in
        bind-IsDefined _ _
          (cars-IsDefined F yaml positions (add_entries F m1 es) num p1.estimate.lap_time h2)
          (λ cars.
            publish-IsDefined F p1 _ (ap (λ c. double.lt (nought double) c.factor) same ∙ k)))

  copies-AllFit :
      (yaml : Text → Option Yaml) (num : ℤ) (p : Plugin F)
      → IsShortSession yaml
      → AllFit (session_copies F yaml num p)
  unfolding session_copies
  copies-AllFit yaml num p short = elim (Bool-cases (is_other_session F num p)) [
    | inl other ↦ rw other ((short num).0, ((short num).1, tt))
    | inr same ↦ rw same tt
  ]

  -- No assertion of an update fails: it comes to its end whatever the client has sent, if the
  -- simulator delivers the variables that the loop reads, the conversion factor is above zero, and
  -- the limits of a session, where the session info has them, are texts of less than 512 bytes.
  pub update_is_defined :
      (yaml : Text → Option Yaml) (positions : ℕ) (vars : List (Text × Text)) (p : Plugin F)
      → IsDelivered (collect [] vars)
      → double.lt (nought double) p.conversion.factor ≡ true
      → IsShortSession yaml
      → (o : Outcome F) × (update F yaml positions vars p ≡ some o)
  unfolding update
  update_is_defined yaml positions vars p h k short =
      let m = collect [] vars in
      bind-IsDefined _ _ (read-IsDefined read_single m (codes "FuelLevel") h.0) (λ fuel.
        bind-IsDefined _ _ (read-IsDefined read_single m (codes "FuelLevelPct") h.1.0) (λ pct.
          bind-IsDefined _ _ (read-IsDefined read_single m (codes "LapLastLapTime") h.1.1.0)
            (λ last.
              bind-IsDefined _ _ (read-IsDefined read_double m (codes "SessionTime") h.1.1.1.0)
                (λ time. bind-IsDefined _ _ h.1.1.1.1.1.1.1.1.1.1.1.0 (λ flags.
                  bind-IsDefined _ _ (read-IsDefined stream_int m (codes "SessionNum") h.1.1.1.1.0)
                    (λ num.
                      bind-IsDefined _ _ (_, copy_all-AllFit _ (copies-AllFit yaml num p short))
                        (λ copied.
                          end-IsDefined yaml positions m fuel last num p (collect-IsMap [] vars tt)
                            h k)))))))
