-- ===== src/LapFuel/Files.antt =====
-- `LapFuelData`: the constructor, the file names, and saving and loading the lists.
pub mod RoundTrip
use ir_pit_crew.Prelude.{
  ℕ, Bool, true, false, not, ◌&&◌, Option, none, some, List, [], ◌∷◌, ◌++◌, map, is_empty,
  if◌then◌else◌,
}
use ir_pit_crew.Prelude.Text.{Text, codes, text_eq, getlines, put_lines}
use ir_pit_crew.Floats.{Floats, minus_one}
use ir_pit_crew.LapFuel.{LapFuelData}

-- The file system, as far as the program calls it. `has_directory` is whether `CreateDirectory`
-- made the directory or found it there, `can_write` whether a file can be opened for writing.
pub record Storage : Type 0 where
  pub has_directory : Text → Bool
  pub can_write : Text → Bool
  pub files : Text → Option Text

-- A file opened with `ios::trunc` and closed holds what was written.
unfoldable pub write_file : Storage → Text → Text → Storage
write_file st path content =
    if st.can_write path
    then record st { files = λ p. if text_eq p path then some content else st.files p }
    else st

unfoldable pub session_file_name : Text → Text → Text → Text
session_file_name dir track car = dir ++ codes "\\" ++ car ++ codes "_" ++ track ++ codes ".txt"

abbrev pub separator : Text
separator = codes "---"

-- The lines up to the separator, and those behind it.
unfoldable pub split_lines : List Text → List Text × List Text
split_lines [] = ([], [])
split_lines (l ∷ ls) =
    let (before, behind) = split_lines ls in
    if text_eq l separator then ([], ls) else (l ∷ before, behind)

unfoldable pub drop_empty : List Text → List Text
drop_empty [] = []
drop_empty (l ∷ ls) = let rest = drop_empty ls in if is_empty l then rest else l ∷ rest

module _ (F : Floats) where
  open F use {single, narrow, print_single, atof}

  -- The constructor, whose attempt to make the directory has no effect on the object.
  unfoldable pub create : Text → LapFuelData F
  create data_dir = record {
    lap_data_dir = data_dir ++ codes "\\LapData";
    data_count_max = 0;
    lap_times = [];
    lap_fuels = [];
    current_track = [];
    current_car = [];
    last_fuel = minus_one single;
  }

  unfoldable pub file_content : List single.Num → List single.Num → Text
  file_content times fuels =
      put_lines (map print_single times ++ separator ∷ map print_single fuels)

  unfoldable pub save_session_data : LapFuelData F → Text → Text → Storage → Storage
  unfolding write_file session_file_name file_content
  save_session_data d track car st =
      if st.has_directory d.lap_data_dir
        && (not (is_empty track)
            && (not (is_empty car) && (not (is_empty d.lap_times) && not (is_empty d.lap_fuels))))
      then write_file st (session_file_name d.lap_data_dir track car)
          (file_content d.lap_times d.lap_fuels)
      else st

  -- `(float)atof(...)`
  unfoldable pub read_value : Text → single.Num
  read_value l = narrow (atof l)

  -- The values of a file go behind those that are there.
  unfoldable pub load_content : LapFuelData F → Text → LapFuelData F
  unfolding split_lines drop_empty read_value
  load_content d content =
      let (before, behind) = split_lines (getlines b'\n' content) in
      record d {
        lap_times = d.lap_times ++ map read_value (drop_empty before);
        lap_fuels = d.lap_fuels ++ map read_value (drop_empty behind);
      }

  unfoldable pub load_session_data : LapFuelData F → Text → Text → Storage → LapFuelData F
  unfolding load_content session_file_name
  load_session_data d track car st =
      if not (is_empty track) && not (is_empty car)
      then elim (st.files (session_file_name d.lap_data_dir track car)) [
        | none ↦ d
        | some content ↦ load_content d content
      ]
      else d

  unfoldable pub save_current_session_data : LapFuelData F → Storage → Storage
  unfolding save_session_data
  save_current_session_data d st =
      if not (is_empty d.current_track) && not (is_empty d.current_car)
      then save_session_data d d.current_track d.current_car st
      else st

  -- The assignments of `ResetSessionData`.
  abbrev pub cleared : LapFuelData F → Text → Text → LapFuelData F
  cleared d new_track new_car = record d {
    current_track = new_track;
    current_car = new_car;
    lap_times = [];
    lap_fuels = [];
    last_fuel = minus_one single;
    data_count_max = 0;
  }

  unfoldable pub reset_session_data :
      LapFuelData F → Text → Text → Storage → LapFuelData F × Storage
  unfolding save_session_data load_session_data
  reset_session_data d new_track new_car st =
      let st' = save_session_data d d.current_track d.current_car st in
      (load_session_data (cleared d new_track new_car) new_track new_car st', st')
