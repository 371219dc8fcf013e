-- ===== src/Config/Read/Lines.antt =====
-- What the lines of a file that `readConfigData` writes do to a reading.
use ir_pit_crew.Prelude.{
  Bool, true, false, ◌&&◌, Bool-cases, inl, inr, ◌≡◌, refl, ap, ◌∙◌, Option, none, some, List, [],
  ◌∷◌, ◌++◌, is_empty, arith, if◌then◌else◌,
}
use ir_pit_crew.Prelude.Number.{is_space}
use ir_pit_crew.Prelude.Text.{Text, starts_with, text_eq}
use ir_pit_crew.Floats.{Floats}
use ir_pit_crew.Config.Attribute.{trim, Value, value_of}
use ir_pit_crew.Config.Attribute.Trim.{IsWord, trim-words, parse_attribute_value-line}
use ir_pit_crew.Config.Read.{
  imperial_name, driver_laps_name, skip_clear_name, port_name, extra_laps_name, weight_base,
  weight_name, Reading, first_found, is_comment, read_setting, read_line, read_lines, setting_line,
}
use ir_pit_crew.Config.Read.Kept.{IsSolid, weight_name-IsWord}

pub imperial_name-IsWord : IsWord imperial_name
unfolding is_space
imperial_name-IsWord = record { nonempty = refl; solid = ground arith }

pub driver_laps_name-IsWord : IsWord driver_laps_name
unfolding is_space
driver_laps_name-IsWord = record { nonempty = refl; solid = ground arith }

pub skip_clear_name-IsWord : IsWord skip_clear_name
unfolding is_space
skip_clear_name-IsWord = record { nonempty = refl; solid = ground arith }

pub port_name-IsWord : IsWord port_name
unfolding is_space
port_name-IsWord = record { nonempty = refl; solid = ground arith }

pub extra_laps_name-IsWord : IsWord extra_laps_name
unfolding is_space
extra_laps_name-IsWord = record { nonempty = refl; solid = ground arith }

module _ (F : Floats) (car : Text) (solid : IsSolid car) where
  open F use {double, atof}

  pub read_lines-append :
      (r : Reading F) (ls ks : List Text)
      → read_lines F car r (ls ++ ks) ≡ read_lines F car (read_lines F car r ls) ks
  unfolding read_lines
  read_lines-append r [] ks = refl
  read_lines-append r (l ∷ ls) ks = read_lines-append (read_line F car r l) ls ks

  -- Lines that are empty or comments.
  abbrev pub are_quiet : List Text → Bool
  are_quiet [] = true
  are_quiet (l ∷ ls) = is_comment F (trim l) && are_quiet ls

  read_line-quiet :
      (r : Reading F) (l : Text) → is_comment F (trim l) ≡ true → read_line F car r l ≡ r
  unfolding read_line
  read_line-quiet r l h = rw h refl

  pub read_lines-quiet :
      (r : Reading F) (ls : List Text) → are_quiet ls ≡ true → read_lines F car r ls ≡ r
  unfolding read_lines
  read_lines-quiet r [] h = refl
  read_lines-quiet r (l ∷ ls) h =
      ap (λ r'. read_lines F car r' ls) (read_line-quiet r l (ground (arith, h)))
      ∙ read_lines-quiet r ls (ground (arith, h))

  -- Notes are passed over.
  pub read_lines-notes :
      (r : Reading F) (notes ls : List Text)
      → are_quiet notes ≡ true
      → read_lines F car r (notes ++ ls) ≡ read_lines F car r ls
  read_lines-notes r notes ls h =
      read_lines-append r notes ls ∙ ap (λ r'. read_lines F car r' ls) (read_lines-quiet r notes h)

  -- What a line of a name and a value gives for an attribute that has been found or not.
  abbrev pub taken : {A : Type 0} → Option A → (Value F → A) → Text → Text → Text → Option A
  taken (some a) part name value attribute = some a
  taken none part name value attribute =
      if text_eq attribute name
      then elim (value_of F value) [ none ↦ none | some v ↦ some (part v) ]
      else none

  pub first_found-taken :
      {A : Type 0} (o : Option A) (part : Value F → A) (name value attribute : Text)
      → IsWord name
      → IsWord value
      → IsWord attribute
      → first_found F o part (setting_line F name value) attribute
        ≡ taken o part name value attribute
  unfolding first_found
  first_found-taken (some a) part name value attribute n v w = refl
  first_found-taken none part name value attribute n v w =
      ap (λ p. elim p [ none ↦ none | some v' ↦ some (part v') ])
        (parse_attribute_value-line F name attribute value n w v)
      ∙ elim (Bool-cases (text_eq attribute name)) [
        | inl same ↦ rw same refl
        | inr other ↦ rw other refl
      ]

  -- A line of a setting.
  pub read_line-setting_line :
      (r : Reading F) (name value : Text)
      → IsWord name
      → IsWord value
      → is_comment F (setting_line F name value) ≡ false
      → read_line F car r (setting_line F name value) ≡ record {
        imperial = taken r.imperial (λ v. v.is_set) name value imperial_name;
        driver_laps = taken r.driver_laps (λ v. v.is_set) name value driver_laps_name;
        skip_clear = taken r.skip_clear (λ v. v.is_set) name value skip_clear_name;
        port = taken r.port (λ v. v.as_int) name value port_name;
        extra_laps = taken r.extra_laps (λ v. v.as_double) name value extra_laps_name;
        weight =
            if is_empty car
            then r.weight
            else taken r.weight (λ v. v.is_set) name value (weight_name car);
        car_settings =
            if starts_with weight_base (setting_line F name value)
            then r.car_settings ++ setting_line F name value ∷ []
            else r.car_settings;
      }
  unfolding read_line read_setting
  read_line-setting_line r name value n v h =
      rw
        (
          trim-words name value n v,
          h,
          first_found-taken r.imperial (λ v. v.is_set) name value imperial_name n v
              imperial_name-IsWord,
          first_found-taken r.driver_laps (λ v. v.is_set) name value driver_laps_name n v
              driver_laps_name-IsWord,
          first_found-taken r.skip_clear (λ v. v.is_set) name value skip_clear_name n v
              skip_clear_name-IsWord,
          first_found-taken r.port (λ v. v.as_int) name value port_name n v port_name-IsWord,
          first_found-taken r.extra_laps (λ v. v.as_double) name value extra_laps_name n v
              extra_laps_name-IsWord,
          first_found-taken r.weight (λ v. v.is_set) name value (weight_name car) n v
              (weight_name-IsWord car solid),
        )
        refl
