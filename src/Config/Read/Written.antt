-- ===== src/Config/Read/Written.antt =====
-- The lines of the settings in a file that `readConfigData` writes, read one after another.
use ir_pit_crew.Prelude.{
  ℕ, suc, Bool, true, false, ◌≡◌, refl, ◌∙◌, Option, none, some, List, [], ◌∷◌, ◌++◌, is_empty,
  arith, if◌then◌else◌,
}
use ir_pit_crew.Prelude.Int.{ℤ, pos, negsuc}
use ir_pit_crew.Prelude.Number.{
  is_space, is_digit, show_int, show_nat, atoi, atoi-show_int, show_nat-AllDigits, AllDigits,
}
use ir_pit_crew.Prelude.Text.{Text, starts_with, text_eq}
use ir_pit_crew.Floats.{Floats}
use ir_pit_crew.Config.Attribute.{value_of}
use ir_pit_crew.Config.Attribute.Trim.{IsWord}
use ir_pit_crew.Config.Read.{
  imperial_name, driver_laps_name, skip_clear_name, port_name, extra_laps_name, Reading,
  nothing_read, is_comment, read_line, setting_line, flag_text,
}
use ir_pit_crew.Config.Read.Kept.{IsSolid}
use ir_pit_crew.Config.Read.Lines.{
  imperial_name-IsWord, driver_laps_name-IsWord, skip_clear_name-IsWord, port_name-IsWord,
  extra_laps_name-IsWord, read_line-setting_line,
}

IsSolid-digits : (s : Text) → AllDigits s → IsSolid s
unfolding is_digit is_space
IsSolid-digits [] h = tt
IsSolid-digits (c ∷ s) (h, hs) = (ground (arith, h), IsSolid-digits s hs)

nonempty-snoc : (s : Text) (c : ℕ) → is_empty (s ++ c ∷ []) ≡ false
nonempty-snoc [] c = refl
nonempty-snoc (d ∷ s) c = refl

show_nat-IsWord : (n : ℕ) → IsWord (show_nat n)
unfolding show_nat
show_nat-IsWord n = record {
  nonempty = nonempty-snoc _ _;
  solid = IsSolid-digits (show_nat n) (show_nat-AllDigits n);
}

pub show_int-IsWord : (n : ℤ) → IsWord (show_int n)
unfolding show_int is_space
show_int-IsWord (pos n) = show_nat-IsWord n
show_int-IsWord (negsuc n) = record {
  nonempty = refl;
  solid = (refl, (show_nat-IsWord (suc n)).solid);
}

module _ (F : Floats) (car : Text) (solid : IsSolid car)
    (printed : (x : F.double.Num) → IsWord (F.print_double x)) where
  open F use {double, atof, print_double}

  pub flag_text-IsWord : (b : Bool) → IsWord (flag_text F b)
  unfolding is_space
  flag_text-IsWord true = record { nonempty = refl; solid = (refl, tt) }
  flag_text-IsWord false = record { nonempty = refl; solid = (refl, tt) }

  -- A reading to which all settings but that of the car have been given.
  abbrev pub full : Bool → Bool → Bool → ℤ → double.Num → Option Bool → List Text → Reading F
  full imperial laps skip port extra w cs = record {
    imperial = some imperial;
    driver_laps = some laps;
    skip_clear = some skip;
    port = some port;
    extra_laps = some extra;
    weight = w;
    car_settings = cs;
  }

  abbrev pub after_imperial : Bool → Reading F
  after_imperial a = record (nothing_read F) { imperial = some a }

  abbrev pub after_laps : Bool → Bool → Reading F
  after_laps a b = record (after_imperial a) { driver_laps = some b }

  abbrev pub after_skip : Bool → Bool → Bool → Reading F
  after_skip a b c = record (after_laps a b) { skip_clear = some c }

  abbrev pub after_port : Bool → Bool → Bool → ℤ → Reading F
  after_port a b c d = record (after_skip a b c) { port = some d }

  none_if : (b : Bool) → if◌then◌else◌ {A = Option Bool} b none none ≡ none
  none_if true = refl
  none_if false = refl

  flag-value :
      (a : Bool)
      → elim (value_of F (flag_text F a)) [ none ↦ none | some v ↦ some v.is_set ] ≡ some a
  unfolding value_of
  flag-value true = refl
  flag-value false = refl

  int-value :
      (t : Text)
      → is_empty t ≡ false
      → elim (value_of F t) [ none ↦ none | some v ↦ some v.as_int ] ≡ some (atoi t)
  unfolding value_of
  int-value [] h = absurd (cc h)
  int-value (c ∷ t) h = refl

  double-value :
      (t : Text)
      → is_empty t ≡ false
      → elim (value_of F t) [ none ↦ none | some v ↦ some v.as_double ] ≡ some (atof t)
  unfolding value_of
  double-value [] h = absurd (cc h)
  double-value (c ∷ t) h = refl

  pub line_imperial :
      (a : Bool)
      → read_line F car (nothing_read F) (setting_line F imperial_name (flag_text F a))
        ≡ after_imperial a
  unfolding is_comment text_eq starts_with
  line_imperial a =
      read_line-setting_line F car solid (nothing_read F) imperial_name (flag_text F a)
        imperial_name-IsWord (flag_text-IsWord a) refl
      ∙ rw (none_if (is_empty car), flag-value a) refl

  pub line_laps :
      (a b : Bool)
      → read_line F car (after_imperial a) (setting_line F driver_laps_name (flag_text F b))
        ≡ after_laps a b
  unfolding is_comment text_eq starts_with
  line_laps a b =
      read_line-setting_line F car solid (after_imperial a) driver_laps_name (flag_text F b)
        driver_laps_name-IsWord (flag_text-IsWord b) refl
      ∙ rw (none_if (is_empty car), flag-value b) refl

  pub line_skip :
      (a b c : Bool)
      → read_line F car (after_laps a b) (setting_line F skip_clear_name (flag_text F c))
        ≡ after_skip a b c
  unfolding is_comment text_eq starts_with
  line_skip a b c =
      read_line-setting_line F car solid (after_laps a b) skip_clear_name (flag_text F c)
        skip_clear_name-IsWord (flag_text-IsWord c) refl
      ∙ rw (none_if (is_empty car), flag-value c) refl

  pub line_port :
      (a b c : Bool) (d : ℤ)
      → read_line F car (after_skip a b c) (setting_line F port_name (show_int d))
        ≡ after_port a b c d
  unfolding is_comment text_eq starts_with
  line_port a b c d =
      read_line-setting_line F car solid (after_skip a b c) port_name (show_int d) port_name-IsWord
        (show_int-IsWord d) refl
      ∙ rw
          (
            none_if (is_empty car),
            int-value (show_int d) (show_int-IsWord d).nonempty,
            atoi-show_int d,
          )
          refl

  pub line_extra :
      (a b c : Bool) (d : ℤ) (e : double.Num)
      → read_line F car (after_port a b c d) (setting_line F extra_laps_name (print_double e))
        ≡ full a b c d (atof (print_double e)) none []
  unfolding is_comment text_eq starts_with
  line_extra a b c d e =
      read_line-setting_line F car solid (after_port a b c d) extra_laps_name (print_double e)
        extra_laps_name-IsWord (printed e) refl
      ∙ rw (none_if (is_empty car), double-value (print_double e) (printed e).nonempty) refl
