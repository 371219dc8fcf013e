-- ===== src/Plugin/Main/Running.antt =====
-- The assertions and the reads of the main loop of src/irplugin/irplugin.cpp, turn after turn.
use ir_pit_crew.Prelude.{
  ℕ, ◌≡◌, refl, ap, ◌∙◌, Bool, true, false, Bool-cases, inl, inr, Option, none, some, List, [], ◌∷◌,
  ◌++◌, ◌>>=◌, All, if◌then◌else◌,
}
use mathlib.Core.Path.{subst}
use ir_pit_crew.Prelude.Text.{Text, codes}
use ir_pit_crew.Dict.{Dict}
use ir_pit_crew.Floats.{Floats, nought}
use ir_pit_crew.LapFuel.Files.{Storage}
use ir_pit_crew.Plugin.Convert.{calculate_fuel_display_conversion_factor, Conversion}
use ir_pit_crew.Plugin.PitCommand.{handle_pit_command_message}
use ir_pit_crew.Plugin.Standings.{Yaml}
use ir_pit_crew.Plugin.Buffers.{AllFit, driver_copies, copy_all-AllFit}
use ir_pit_crew.Plugin.State.{Plugin, Outcome}
use ir_pit_crew.Plugin.NewSession.{number_at, enter_session, new_session}
use ir_pit_crew.Plugin.Update.{update, publish, finish_lap, change_session}
use ir_pit_crew.Plugin.Update.Published.{Holds, bind-Holds}
use ir_pit_crew.Plugin.Update.Defined.{
  IsShortSession, update_is_defined, conversion-change, conversion-finish,
}
use ir_pit_crew.Plugin.Main.{
  Header, Poll, no_data, ready, MainLoop, Turn, on_header, on_telemetry, is_new_header, turn_of,
  turn, run, first_state,
}
use ir_pit_crew.Plugin.Main.Rows.{IsSoundRow, read_variables-IsSoundRow}

-- What the conversion factors need of the arithmetic: the constants are above zero, and a number
-- above zero stays so when it is converted to pounds.
pub record IsScaling (F : Floats) : Type 0 where
  pub one_pos : F.double.lt (nought F.double) (F.double.decimal 10 1) ≡ true
  pub gallon_pos :
      F.double.lt
        (nought F.double)
        (F.double.mul (F.double.decimal 10 1) (F.double.decimal 264151 6))
      ≡ true
  pub pounds_pos :
      (x : F.double.Num)
      → F.double.lt (nought F.double) x ≡ true
      → F.double.lt (nought F.double) (F.double.mul x (F.double.decimal 220462 5)) ≡ true

accepted_lem {ℓ} :
    {A : Type ℓ} (r : Option Yaml) (accepted : Bool) (a : A)
    → accepted ≡ true
    → elim r [ none ↦ some a | some v ↦ if accepted then some a else none ] ≡ some a
accepted_lem none accepted a h = refl
accepted_lem (some v) accepted a h = rw h refl

module _ (F : Floats) (single_of : Text → F.single.Num) (double_of : Text → F.double.Num)
    (scaling : IsScaling F) where
  open F use {single, double}

  abbrev pub IsReady : Plugin F → Type 0
  IsReady p = double.lt (nought double) p.conversion.factor ≡ true

  factor_pos :
      (imperial weight : Bool) (kg : double.Num)
      → double.lt (nought double) kg ≡ true
      → double.lt
          (nought double)
          (calculate_fuel_display_conversion_factor F imperial kg imperial weight).factor
        ≡ true
  unfolding calculate_fuel_display_conversion_factor
  factor_pos true true kg h = scaling.pounds_pos kg h
  factor_pos false true kg h = h
  factor_pos true false kg h = scaling.gallon_pos
  factor_pos false false kg h = scaling.one_pos

  -- A header whose weight of a litre, where it is given, is above zero, whose values for the driver
  -- and the limits of the sessions have room in their buffers, with a row that is sound.
  pub record IsSoundHeader (h : Header) (bytes : Text) : Type 0 where
    pub weight :
        double.lt
          (nought double)
          (number_at F h.yaml (codes "DriverInfo:DriverCarFuelKgPerLtr:") (double.decimal 10 1))
        ≡ true
    pub driver : AllFit (driver_copies h.yaml)
    pub session : IsShortSession h.yaml
    pub row : IsSoundRow h.variables bytes

  abbrev pub IsSound : Poll → Type 0
  IsSound (no_data connected) = Unit
  IsSound (ready none bytes) = Unit
  IsSound (ready (some h) bytes) = IsSoundHeader h bytes

  same-Holds :
      {c d : Conversion F} (o : Option (Outcome F))
      → c ≡ d
      → Holds (λ o. o.plugin.conversion ≡ c) o
      → Holds (λ o. o.plugin.conversion ≡ d) o
  same-Holds none e h = tt
  same-Holds (some o) e h = h ∙ e

  conversion-publish :
      (p : Plugin F) (m : Dict) → Holds (λ o. o.plugin.conversion ≡ p.conversion) (publish F p m)
  unfolding publish
  conversion-publish p m =
      bind-Holds _
        (handle_pit_command_message F p.settings.skip_clear_on_apply p.conversion.factor _) _
        (λ sent. refl)

  pub conversion-update :
      (yaml : Text → Option Yaml) (positions : ℕ) (vars : List (Text × Text)) (p : Plugin F)
      → Holds (λ o. o.plugin.conversion ≡ p.conversion) (update F yaml positions vars p)
  unfolding update
  conversion-update yaml positions vars p =
      let P : Outcome F → Type 0 = λ o. o.plugin.conversion ≡ p.conversion in
      bind-Holds P _ _ (λ fuel. bind-Holds P _ _ (λ pct. bind-Holds P _ _ (λ last.
        bind-Holds P _ _ (λ time. bind-Holds P _ _ (λ flags. bind-Holds P _ _ (λ num.
          bind-Holds P _ _ (λ copied. bind-Holds P _ _ (λ l. bind-Holds P _ _ (λ cars.
            let p0 = change_session F yaml num p in
            let p1 = finish_lap F last fuel p0 in
            same-Holds _ (conversion-finish F last fuel p0 ∙ conversion-change F yaml num p)
              (conversion-publish p1 _))))))))))

  enter_session-IsReady :
      (yaml : Text → Option Yaml) (info data_dir : Text) (p : Plugin F)
      → double.lt
          (nought double)
          (number_at F yaml (codes "DriverInfo:DriverCarFuelKgPerLtr:") (double.decimal 10 1))
        ≡ true
      → (o : Outcome F) × (enter_session F yaml info data_dir p ≡ some o) × IsReady o.plugin
  unfolding enter_session
  enter_session-IsReady yaml info data_dir p k =
      (_, accepted_lem (yaml (codes "DriverInfo:DriverCarFuelKgPerLtr:")) _ _ k, factor_pos _ _ _ k)

  pub new_session-IsReady :
      (yaml : Text → Option Yaml) (info data_dir : Text) (p : Plugin F)
      → double.lt
          (nought double)
          (number_at F yaml (codes "DriverInfo:DriverCarFuelKgPerLtr:") (double.decimal 10 1))
        ≡ true
      → AllFit (driver_copies yaml)
      → (o : Outcome F) × (new_session F yaml info data_dir p ≡ some o) × IsReady o.plugin
  unfolding new_session ◌>>=◌
  new_session-IsReady yaml info data_dir p k fit =
      let (o, e, r) = enter_session-IsReady yaml info data_dir p k in
      (o, rw (copy_all-AllFit (driver_copies yaml) fit) e, r)

  -- A turn comes to its end, and the next one can follow.
  turn_is_defined :
      (data_dir : Text) (positions : ℕ) (m : MainLoop F) (poll : Poll)
      → IsReady m.plugin
      → IsSound poll
      → (t : Turn F) × (turn F single_of double_of data_dir positions m poll ≡ some t)
        × IsReady t.main.plugin
  unfolding turn on_header on_telemetry ◌>>=◌
  turn_is_defined data_dir positions m (no_data connected) h k = (_, refl, h)
  turn_is_defined data_dir positions m (ready none bytes) h k = (_, refl, h)
  turn_is_defined data_dir positions m (ready (some header) bytes) h k =
      elim (Bool-cases (is_new_header m.buffer header.buf_len)) [
        | inl new ↦
            let (o, e, r) =
              new_session-IsReady header.yaml header.session_info data_dir m.plugin k.weight
                k.driver in
            (turn_of F (some header.buf_len) o, rw (new, e) refl, r)
        | inr old ↦
            let (vars, read, delivered) =
              read_variables-IsSoundRow F single_of double_of header.variables bytes k.row in
            let (o, e) =
              update_is_defined F header.yaml positions vars m.plugin delivered h k.session in
            let same =
              subst (Holds (λ o. o.plugin.conversion ≡ m.plugin.conversion)) e
                (conversion-update header.yaml positions vars m.plugin) in
            (
              turn_of F m.buffer o,
              rw (old, read, e) refl,
              ap (λ c. double.lt (nought double) c.factor) same ∙ h,
            )
      ]

  -- However often the main loop turns, with new sessions and lost connections in between, no
  -- assertion fails and no read leaves the row, if the conversion factor is above zero at first
  -- and every header with a row is sound: its weight of a litre is above zero or missing, the
  -- values for the driver and the limits of the sessions are short of 512 bytes, its
  -- variables lie in the row and those that the loop reads are among them.
  pub run_is_defined :
      (data_dir : Text) (positions : ℕ) (m : MainLoop F) (polls : List Poll)
      → IsReady m.plugin
      → All IsSound polls
      → (t : Turn F) × (run F single_of double_of data_dir positions m polls ≡ some t)
  unfolding run ◌>>=◌
  run_is_defined data_dir positions m [] h k = (_, refl)
  run_is_defined data_dir positions m (poll ∷ polls) h (k, ks) =
      let (t, e, r) = turn_is_defined data_dir positions m poll h k in
      let (rest, e') = run_is_defined data_dir positions t.main polls r ks in
      let whole : Turn F = record {
        main = rest.main;
        requests = t.requests ++ rest.requests;
        broadcasts = t.broadcasts ++ rest.broadcasts;
      } in
      (whole, rw (e, e') refl)

  -- What `_tmain` enters the loop with is ready, whatever the files of the data directory hold.
  pub first_state-IsReady :
      (data_dir : Text) (storage : Storage) → IsReady (first_state F data_dir storage).plugin
  unfolding first_state
  first_state-IsReady data_dir storage = factor_pos _ _ _ scaling.one_pos
