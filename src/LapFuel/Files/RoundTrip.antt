-- ===== src/LapFuel/Files/RoundTrip.antt =====
-- A change to another car and track, and back.
use ir_pit_crew.Prelude.{
  ◌∙◌, ◌≡◌, refl, ap, true, false, some, List, [], ◌∷◌, ◌++◌, map, is_empty, All, All-append, arith,
}
use ir_pit_crew.Prelude.Text.{Text, text_eq, text_eq_iff, Lacks, getlines-put_lines}
use ir_pit_crew.Floats.{Floats}
use ir_pit_crew.LapFuel.{LapFuelData}
use ir_pit_crew.LapFuel.Files.{
  cleared, Storage, session_file_name, separator, split_lines, drop_empty, file_content,
  save_session_data, read_value, load_content, load_session_data, reset_session_data,
}

-- A number is printed on one line, which is not empty and not the separator.
pub record IsPrinted (l : Text) : Type 0 where
  pub one_line : Lacks b'\n' l
  pub nonempty : is_empty l ≡ false
  pub no_separator : text_eq l separator ≡ false

split_lines-separator :
    (ls rest : List Text) → All IsPrinted ls → split_lines (ls ++ separator ∷ rest) ≡ (ls, rest)
unfolding split_lines
split_lines-separator [] rest h = ground (arith, text_eq_iff separator separator)
split_lines-separator (l ∷ ls) rest (h, hs) =
    rw (h.no_separator, split_lines-separator ls rest hs) refl

drop_empty-printed : (ls : List Text) → All IsPrinted ls → drop_empty ls ≡ ls
unfolding drop_empty
drop_empty-printed [] h = refl
drop_empty-printed (l ∷ ls) (h, hs) = rw (h.nonempty, drop_empty-printed ls hs) refl

All-printed_lines : (ls : List Text) → All IsPrinted ls → All (Lacks b'\n') ls
All-printed_lines [] h = tt
All-printed_lines (l ∷ ls) (h, hs) = (h.one_line, All-printed_lines ls hs)

module _ (F : Floats) (printed : (x : F.single.Num) → IsPrinted (F.print_single x)) where
  open F use {single, narrow, print_single, atof}

  -- A value as it comes back from a file.
  abbrev pub reread : single.Num → single.Num
  reread x = narrow (atof (print_single x))

  All-print : (xs : List single.Num) → All IsPrinted (map print_single xs)
  All-print [] = tt
  All-print (x ∷ xs) = (printed x, All-print xs)

  map-read_value : (xs : List single.Num) → map (read_value F) (map print_single xs) ≡ map reread xs
  unfolding read_value
  map-read_value [] = refl
  map-read_value (x ∷ xs) = ap (◌∷◌ (reread x)) (map-read_value xs)

  load_content-file_content :
      (d : LapFuelData F) (times fuels : List single.Num)
      → load_content F d (file_content F times fuels) ≡ record d {
        lap_times = d.lap_times ++ map reread times;
        lap_fuels = d.lap_fuels ++ map reread fuels;
      }
  unfolding load_content file_content
  load_content-file_content d times fuels =
      let before = map print_single times in
      let behind = map print_single fuels in
      rw
        (
          getlines-put_lines (before ++ separator ∷ behind) (
              All-append (Lacks b'\n') before (separator ∷ behind)
                (All-printed_lines before (All-print times))
                ((refl, (refl, (refl, tt))), All-printed_lines behind (All-print fuels))),
          split_lines-separator before behind (All-print times),
          drop_empty-printed before (All-print times),
          drop_empty-printed behind (All-print fuels),
          map-read_value times,
          map-read_value fuels,
        )
        refl

  -- Everything is in place for the lists to be saved.
  pub record CanSave (d : LapFuelData F) (st : Storage) : Type 0 where
    pub directory : st.has_directory d.lap_data_dir ≡ true
    pub writable :
        st.can_write (session_file_name d.lap_data_dir d.current_track d.current_car) ≡ true
    pub track : is_empty d.current_track ≡ false
    pub car : is_empty d.current_car ≡ false
    pub times : is_empty d.lap_times ≡ false
    pub fuels : is_empty d.lap_fuels ≡ false

  pub files-save :
      (d : LapFuelData F) (st : Storage)
      → CanSave d st
      → (save_session_data F d d.current_track d.current_car st).files
          (session_file_name d.lap_data_dir d.current_track d.current_car)
        ≡ some (file_content F d.lap_times d.lap_fuels)
  unfolding save_session_data
  files-save d st c =
      let name = session_file_name d.lap_data_dir d.current_track d.current_car in
      rw (c.directory, c.track, c.car, c.times, c.fuels, c.writable, (text_eq_iff name name).1 refl)
        refl

  files-save_ne :
      (d : LapFuelData F) (st : Storage) (path : Text)
      → text_eq path (session_file_name d.lap_data_dir d.current_track d.current_car) ≡ false
      → (save_session_data F d d.current_track d.current_car st).files path ≡ st.files path
  unfolding save_session_data
  files-save_ne d st path ne = ground (arith, ne)

  lap_data_dir-load :
      (d : LapFuelData F) (track car : Text) (st : Storage)
      → (load_session_data F d track car st).lap_data_dir ≡ d.lap_data_dir
  unfolding load_session_data
  lap_data_dir-load d track car st = ground arith

  current_track-load :
      (d : LapFuelData F) (track car : Text) (st : Storage)
      → (load_session_data F d track car st).current_track ≡ d.current_track
  unfolding load_session_data
  current_track-load d track car st = ground arith

  current_car-load :
      (d : LapFuelData F) (track car : Text) (st : Storage)
      → (load_session_data F d track car st).current_car ≡ d.current_car
  unfolding load_session_data
  current_car-load d track car st = ground arith

  load-files :
      (d : LapFuelData F) (track car : Text) (st : Storage) (times fuels : List single.Num)
      → is_empty track ≡ false
      → is_empty car ≡ false
      → st.files (session_file_name d.lap_data_dir track car) ≡ some (file_content F times fuels)
      → load_session_data F d track car st ≡ load_content F d (file_content F times fuels)
  unfolding load_session_data
  load-files d track car st times fuels t c e = rw (t, c, e) refl

  -- A change to a car and track whose file holds these values.
  pub reset-load :
      (e : LapFuelData F) (st : Storage) (t c : Text) (times fuels : List single.Num)
      → is_empty t ≡ false
      → is_empty c ≡ false
      → (save_session_data F e e.current_track e.current_car st).files
          (session_file_name e.lap_data_dir t c)
        ≡ some (file_content F times fuels)
      → ((reset_session_data F e t c st).0.lap_times ≡ map reread times)
        × ((reset_session_data F e t c st).0.lap_fuels ≡ map reread fuels)
  unfolding reset_session_data
  reset-load e st t c times fuels nt nc h =
      let st' = save_session_data F e e.current_track e.current_car st in
      let loaded =
        load-files (cleared F e t c) t c st' times fuels nt nc h
        ∙ load_content-file_content (cleared F e t c) times fuels in
      (
        ap (λ (x : LapFuelData F). x.lap_times) loaded,
        ap (λ (x : LapFuelData F). x.lap_fuels) loaded,
      )

  module _ (d : LapFuelData F) (st : Storage) (track car : Text) where
    -- The state after the change to another car or track, and after the change back.
    abbrev pub away : LapFuelData F × Storage
    away = reset_session_data F d track car st

    abbrev pub back : LapFuelData F × Storage
    back = reset_session_data F away.0 d.current_track d.current_car away.1

    away_names :
        (away.0.lap_data_dir ≡ d.lap_data_dir)
        × (away.0.current_track ≡ track)
        × (away.0.current_car ≡ car)
    unfolding reset_session_data
    away_names =
        let st' = save_session_data F d d.current_track d.current_car st in
        let c = cleared F d track car in
        (
          lap_data_dir-load c track car st',
          current_track-load c track car st',
          current_car-load c track car st',
        )

    away_storage :
        (path : Text)
        → away.1.files path ≡ (save_session_data F d d.current_track d.current_car st).files path
    unfolding reset_session_data
    away_storage path = refl

    -- The lists that were there before a change to a car and track with a file of another name are
    -- there again after the change back, each value as it is printed and read, if they could be saved.
    pub reset_session_data-back :
        CanSave d st
        → text_eq
            (session_file_name d.lap_data_dir d.current_track d.current_car)
            (session_file_name d.lap_data_dir track car)
          ≡ false
        → (back.0.lap_times ≡ map reread d.lap_times) × (back.0.lap_fuels ≡ map reread d.lap_fuels)
    reset_session_data-back c ne =
        let name = session_file_name d.lap_data_dir d.current_track d.current_car in
        let (dir, at_track, in_car) = away_names in
        let other = files-save_ne away.0 away.1 name (rw (dir, at_track, in_car) ne) in
        reset-load away.0 away.1 d.current_track d.current_car d.lap_times d.lap_fuels c.track c.car
          (rw dir (other ∙ away_storage name ∙ files-save d st c))
