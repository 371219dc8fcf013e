-- ===== src/Plugin/Main/Restart.antt =====
-- The laps of a car and a track from the end of the program in src/irplugin/irplugin.cpp to the
-- first header after its next start.
use ir_pit_crew.Prelude.{
  ◌≡◌, refl, sym, ◌>>=◌, ap, ◌∙◌, Bool, true, false, Option, none, some, List, [], ◌∷◌, ◌++◌, map,
  is_empty, arith, if◌then◌else◌,
}
use mathlib.Core.Path.{subst}
use mathlib.Core.List.{append_assoc}
use ir_pit_crew.Prelude.Text.{Text, codes, text_eq}
use ir_pit_crew.Floats.{Floats}
use ir_pit_crew.LapFuel.{LapFuelData}
use ir_pit_crew.LapFuel.Files.{
  Storage, write_file, session_file_name, create, file_content, save_session_data,
  reset_session_data,
}
use ir_pit_crew.LapFuel.Files.RoundTrip.{IsPrinted, CanSave, files-save, reread, reset-load}
use ir_pit_crew.LapFuel.Estimate.{calc_optimal_lap_time_fuel_values}
use ir_pit_crew.Config.Read.{config_file, read_config_data}
use ir_pit_crew.Plugin.Standings.{Yaml, yaml_text}
use ir_pit_crew.Plugin.Buffers.{copy_all, driver_copies}
use ir_pit_crew.Plugin.State.{Outcome}
use ir_pit_crew.Plugin.NewSession.{car_name, enter_session, new_session}
use ir_pit_crew.Plugin.Update.Published.{Holds, bind-Holds}
use ir_pit_crew.Plugin.Main.{
  MainLoop, Turn, Header, on_header, start, running, close, turn_of, first_state,
}
use ir_pit_crew.Plugin.Main.Start.{running-first_state}

text_eq-append : (p a b : Text) → text_eq (p ++ a) (p ++ b) ≡ text_eq a b
unfolding text_eq
text_eq-append [] a b = refl
text_eq-append (c ∷ p) a b = ground (arith, text_eq-append p a b)

-- A file of laps is never the configuration.
lap_file_ne :
    (data_dir track car : Text)
    → text_eq (session_file_name (data_dir ++ codes "\\LapData") track car) (config_file data_dir)
      ≡ false
unfolding session_file_name config_file text_eq
lap_file_ne data_dir track car = simp (append_assoc, text_eq-append)

pub Holds-accepted {ℓ κ} :
    {A : Type ℓ} (P : A → Type κ) (r : Option Yaml) (accepted : Bool) (a : A)
    → P a
    → Holds P (elim r [ none ↦ some a | some v ↦ if accepted then some a else none ])
Holds-accepted P none accepted a h = h
Holds-accepted P (some v) true a h = h
Holds-accepted P (some v) false a h = tt

pub Holds-bind {ℓ ℓ' κ} :
    {A : Type ℓ} {B : Type ℓ'} (P : B → Type κ) (m : Option A) (f : A → B)
    → Holds (λ a. P (f a)) m
    → Holds P (m >>= λ a. some (f a))
unfolding ◌>>=◌
Holds-bind P none f h = tt
Holds-bind P (some a) f h = h

module _ (F : Floats) (printed : (x : F.single.Num) → IsPrinted (F.print_single x)) where
  open F use {single}

  files-read_config_data :
      (path car : Text) (st : Storage) (other : Text)
      → text_eq other path ≡ false
      → (read_config_data F path car st).1.files other ≡ st.files other
  unfolding read_config_data write_file
  files-read_config_data path car st other ne = ground (arith, ne)

  save-create :
      (data_dir : Text) (st : Storage) → save_session_data F (create F data_dir) [] [] st ≡ st
  unfolding save_session_data
  save-create data_dir st = ground arith

  -- What a new session of a program that has just started loads.
  new_session-first :
      (yaml : Text → Option Yaml) (info data_dir : Text) (st : Storage)
      (times fuels : List single.Num)
      → is_empty (yaml_text (yaml (codes "WeekendInfo:TrackName:"))) ≡ false
      → is_empty (car_name F yaml) ≡ false
      → st.files (
          session_file_name
            (data_dir ++ codes "\\LapData")
            (yaml_text (yaml (codes "WeekendInfo:TrackName:")))
            (car_name F yaml))
        ≡ some (file_content F times fuels)
      → Holds
          (λ (o : Outcome F).
            (o.plugin.lap_data.lap_times ≡ map (reread F printed) times)
            × (o.plugin.lap_data.lap_fuels ≡ map (reread F printed) fuels))
          (new_session F yaml info data_dir (first_state F data_dir st).plugin)
  unfolding new_session enter_session first_state create calc_optimal_lap_time_fuel_values
  new_session-first yaml info data_dir st times fuels nt nc h =
      let track = yaml_text (yaml (codes "WeekendInfo:TrackName:")) in
      let car = car_name F yaml in
      let path = config_file data_dir in
      let st1 = (read_config_data F path [] st).1 in
      let st2 = (read_config_data F path car st1).1 in
      let name = session_file_name (data_dir ++ codes "\\LapData") track car in
      let ne = lap_file_ne data_dir track car in
      bind-Holds _ (copy_all (driver_copies yaml)) _ (λ copied.
        Holds-accepted _ (yaml (codes "DriverInfo:DriverCarFuelKgPerLtr:")) _ _ (
          reset-load F printed (create F data_dir) st2 track car times fuels nt nc (
            ap (λ (s : Storage). s.files name) (save-create data_dir st2)
            ∙ files-read_config_data path car st1 name ne
            ∙ files-read_config_data path [] st name ne
            ∙ h)))

  on_header-first :
      (data_dir : Text) (h : Header) (st : Storage) (times fuels : List single.Num)
      → is_empty (yaml_text (h.yaml (codes "WeekendInfo:TrackName:"))) ≡ false
      → is_empty (car_name F h.yaml) ≡ false
      → st.files (
          session_file_name
            (data_dir ++ codes "\\LapData")
            (yaml_text (h.yaml (codes "WeekendInfo:TrackName:")))
            (car_name F h.yaml))
        ≡ some (file_content F times fuels)
      → Holds
          (λ (t : Turn F).
            (t.main.plugin.lap_data.lap_times ≡ map (reread F printed) times)
            × (t.main.plugin.lap_data.lap_fuels ≡ map (reread F printed) fuels))
          (on_header F data_dir (first_state F data_dir st) h)
  unfolding on_header
  on_header-first data_dir h st times fuels nt nc e =
      Holds-bind _ _ (turn_of F (some h.buf_len))
        (new_session-first h.yaml h.session_info data_dir st times fuels nt nc e)

  -- The car and the track of a header are those that the laps are recorded for.
  pub record IsSameSession (h : Header) (d : LapFuelData F) : Type 0 where
    pub track : yaml_text (h.yaml (codes "WeekendInfo:TrackName:")) ≡ d.current_track
    pub car : car_name F h.yaml ≡ d.current_car

  files-close :
      (data_dir : Text) (m : MainLoop F) (h : Header)
      → m.plugin.lap_data.lap_data_dir ≡ data_dir ++ codes "\\LapData"
      → CanSave F printed m.plugin.lap_data m.plugin.storage
      → IsSameSession h m.plugin.lap_data
      → (close F m).main.plugin.storage.files (
          session_file_name
            (data_dir ++ codes "\\LapData")
            (yaml_text (h.yaml (codes "WeekendInfo:TrackName:")))
            (car_name F h.yaml))
        ≡ some (file_content F m.plugin.lap_data.lap_times m.plugin.lap_data.lap_fuels)
  unfolding close reset_session_data
  files-close data_dir m h dir can same =
      rw (same.track, same.car, sym dir)
        (files-save F printed m.plugin.lap_data m.plugin.storage can)

  -- When the program is closed and started again, the first header, if it has the car and the
  -- track of the laps that were recorded and is accepted, brings these laps back, each value as it
  -- is printed and read: if they could be saved, in the directory of the data that the program is
  -- started with.
  pub close-start :
      (data_dir : Text) (m m' : MainLoop F) (h : Header) (t : Turn F)
      → m.plugin.lap_data.lap_data_dir ≡ data_dir ++ codes "\\LapData"
      → CanSave F printed m.plugin.lap_data m.plugin.storage
      → IsSameSession h m.plugin.lap_data
      → start F true true data_dir (close F m).main.plugin.storage ≡ running m'
      → on_header F data_dir m' h ≡ some t
      → (t.main.plugin.lap_data.lap_times ≡ map (reread F printed) m.plugin.lap_data.lap_times)
        × (t.main.plugin.lap_data.lap_fuels ≡ map (reread F printed) m.plugin.lap_data.lap_fuels)
  close-start data_dir m m' h t dir can same started turned =
      let d = m.plugin.lap_data in
      let P : Turn F → Type 0 = λ u.
        (u.main.plugin.lap_data.lap_times ≡ map (reread F printed) d.lap_times)
        × (u.main.plugin.lap_data.lap_fuels ≡ map (reread F printed) d.lap_fuels) in
      let st = (close F m).main.plugin.storage in
      subst (Holds P)
        (ap (λ n. on_header F data_dir n h)
            (sym (running-first_state F true true data_dir st m' started))
          ∙ turned)
        (on_header-first data_dir h st d.lap_times d.lap_fuels (rw same.track can.track)
          (rw same.car can.car) (files-close data_dir m h dir can same))
