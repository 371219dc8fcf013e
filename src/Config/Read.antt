-- ===== src/Config/Read.antt =====
-- `ConfigData::readConfigData`.
pub mod Kept
pub mod Lines
pub mod Written
pub mod Cars
pub mod LineBreaks
pub mod Again
use ir_pit_crew.Prelude.{
  Bool, true, false, not, ◌&&◌, ◌||◌, Option, none, some, List, [], ◌∷◌, ◌++◌, ◌==◌, is_empty,
  if◌then◌else◌,
}
use ir_pit_crew.Prelude.Int.{ℤ, pos}
use ir_pit_crew.Prelude.Number.{show_int}
use ir_pit_crew.Prelude.Text.{Text, codes, starts_with, getlines, put_lines}
use ir_pit_crew.Floats.{Floats, nought}
use ir_pit_crew.LapFuel.Files.{Storage, write_file}
use ir_pit_crew.Config.Attribute.{trim, Value, parse_attribute_value}
use ir_pit_crew.Config.Template.{
  preamble, imperial_notes, laps_notes, skip_notes, port_notes, extra_notes, car_notes,
}

abbrev pub imperial_name : Text
imperial_name = codes "DisplayFuelImperial"

abbrev pub driver_laps_name : Text
driver_laps_name = codes "UseDriverLapsRemaining"

abbrev pub skip_clear_name : Text
skip_clear_name = codes "SkipClearOnApply"

abbrev pub port_name : Text
port_name = codes "ServerPort"

abbrev pub extra_laps_name : Text
extra_laps_name = codes "ExtraLapsOfFuel"

abbrev pub weight_base : Text
weight_base = codes "DisplayCarFuelAsWeight"

abbrev pub weight_name : Text → Text
weight_name car = weight_base ++ codes "_" ++ car

-- `m_strConfigFile`
unfoldable pub config_file : Text → Text
config_file data_dir = data_dir ++ codes "\\config.txt"

module _ (F : Floats) where
  open F use {double, print_double}

  pub record Settings : Type 0 where
    pub display_fuel_imperial : Bool
    pub use_driver_laps_remaining : Bool
    pub skip_clear_on_apply : Bool
    pub server_port : ℤ
    pub extra_laps_of_fuel : double.Num
    pub display_car_fuel_as_weight : Bool

  abbrev pub defaults : Settings
  defaults = record {
    display_fuel_imperial = false;
    use_driver_laps_remaining = true;
    skip_clear_on_apply = false;
    server_port = pos 48900;
    extra_laps_of_fuel = nought double;
    display_car_fuel_as_weight = false;
  }

  -- The values that lines have given, `none` while a value is not found, and the lines about cars.
  pub record Reading : Type 0 where
    pub imperial : Option Bool
    pub driver_laps : Option Bool
    pub skip_clear : Option Bool
    pub port : Option ℤ
    pub extra_laps : Option double.Num
    pub weight : Option Bool
    pub car_settings : List Text

  abbrev pub nothing_read : Reading
  nothing_read = record {
    imperial = none;
    driver_laps = none;
    skip_clear = none;
    port = none;
    extra_laps = none;
    weight = none;
    car_settings = [];
  }

  -- A value is taken from the first line that gives one.
  unfoldable pub first_found : {A : Type 0} → Option A → (Value F → A) → Text → Text → Option A
  unfolding parse_attribute_value
  first_found (some a) part line name = some a
  first_found none part line name = elim (parse_attribute_value F line name) [
    | none ↦ none
    | some v ↦ some (part v)
  ]

  -- The body of the loop for a line that is neither empty nor a comment.
  unfoldable pub read_setting : Text → Reading → Text → Reading
  unfolding first_found
  read_setting car r line = record {
    imperial = first_found r.imperial (λ v. v.is_set) line imperial_name;
    driver_laps = first_found r.driver_laps (λ v. v.is_set) line driver_laps_name;
    skip_clear = first_found r.skip_clear (λ v. v.is_set) line skip_clear_name;
    port = first_found r.port (λ v. v.as_int) line port_name;
    extra_laps = first_found r.extra_laps (λ v. v.as_double) line extra_laps_name;
    weight =
        if is_empty car
        then r.weight
        else first_found r.weight (λ v. v.is_set) line (weight_name car);
    car_settings =
        if starts_with weight_base line then r.car_settings ++ line ∷ [] else r.car_settings;
  }

  unfoldable pub is_comment : Text → Bool
  is_comment [] = true
  is_comment (c ∷ s) = c == b'#'

  unfoldable pub read_line : Text → Reading → Text → Reading
  unfolding trim is_comment read_setting
  read_line car r line =
      let line' = trim line in if is_comment line' then r else read_setting car r line'

  unfoldable pub read_lines : Text → Reading → List Text → Reading
  unfolding read_line
  read_lines car r [] = r
  read_lines car r (l ∷ ls) = read_lines car (read_line car r l) ls

  abbrev or_default {ℓ} : {A : Type ℓ} → Option A → A → A
  or_default none a = a
  or_default (some b) a = b

  abbrev is_found {ℓ} : {A : Type ℓ} → Option A → Bool
  is_found none = false
  is_found (some b) = true

  unfoldable pub settings_of : Reading → Settings
  settings_of r = record {
    display_fuel_imperial = or_default r.imperial false;
    use_driver_laps_remaining = or_default r.driver_laps true;
    skip_clear_on_apply = or_default r.skip_clear false;
    server_port = or_default r.port (pos 48900);
    extra_laps_of_fuel = or_default r.extra_laps (nought double);
    display_car_fuel_as_weight = or_default r.weight false;
  }

  -- The current car is to be added to the file.
  unfoldable pub is_new_car : Text → Reading → Bool
  is_new_car car r = not (is_found r.weight) && not (is_empty car)

  -- `isUpdateRequired` of a file that was read.
  unfoldable pub is_update_required : Text → Reading → Bool
  unfolding is_new_car
  is_update_required car r =
      not (is_found r.imperial)
      || (not (is_found r.driver_laps)
          || (not (is_found r.skip_clear)
              || (not (is_found r.port) || (not (is_found r.extra_laps) || is_new_car car r))))

  abbrev pub flag_text : Bool → Text
  flag_text b = if b then codes "1" else codes "0"

  abbrev pub setting_line : Text → Text → Text
  setting_line name value = name ++ b' ' ∷ value

  -- The lines of a new file.
  unfoldable pub file_lines : Text → Reading → List Text
  unfolding settings_of is_new_car show_int
  file_lines car r =
      let s = settings_of r in
      preamble
      ++ (imperial_notes
          ++ setting_line imperial_name (flag_text s.display_fuel_imperial)
            ∷ (laps_notes
                ++ setting_line driver_laps_name (flag_text s.use_driver_laps_remaining)
                  ∷ (skip_notes
                      ++ setting_line skip_clear_name (flag_text s.skip_clear_on_apply)
                        ∷ (port_notes
                            ++ setting_line port_name (show_int s.server_port)
                              ∷ (extra_notes
                                  ++ setting_line extra_laps_name
                                      (print_double s.extra_laps_of_fuel)
                                    ∷ (car_notes
                                        ++ (r.car_settings
                                            ++ ((if is_new_car car r
                                                  then setting_line (weight_name car)
                                                      (flag_text s.display_car_fuel_as_weight)
                                                    ∷ []
                                                  else [])
                                                ++ [] ∷ []))))))))

  -- The file, if it is there, and whether it is to be written.
  unfoldable pub read_file : Text → Option Text → Reading × Bool
  unfolding read_lines is_update_required
  read_file car none = (nothing_read, true)
  read_file car (some content) =
      let r = read_lines car nothing_read (getlines b'\n' content) in (r, is_update_required car r)

  unfoldable pub read_config_data : Text → Text → Storage → Settings × Storage
  unfolding read_file file_lines write_file
  read_config_data path car st =
      let (r, update) = read_file car (st.files path) in
      (settings_of r, if update then write_file st path (put_lines (file_lines car r)) else st)
