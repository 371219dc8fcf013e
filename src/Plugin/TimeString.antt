-- ===== src/Plugin/TimeString.antt =====
-- `convertSecondsToTimeString` of src/irplugin/irplugin.cpp.
use ir_pit_crew.Prelude.{
  ℕ, suc, ◌+◌, ◌*◌, ◌/◌, ◌%◌, ◌<◌, ◌≡◌, ◌&&◌, ◌||◌, [], ◌++◌, arith, if◌then◌else◌,
}
use ir_pit_crew.Prelude.Int.{ℤ, pos, negsuc, sub_ℕ, lt_ℤ, le_ℤ}
use ir_pit_crew.Prelude.Number.{show_int}
use ir_pit_crew.Prelude.Text.{Text, codes}
use ir_pit_crew.Floats.{Floats}

pub record TimeParts : Type 0 where
  pub days : ℤ
  pub hours : ℤ
  pub minutes : ℤ
  pub seconds : ℤ

-- Division and remainder of a negative `int` are those of its amount, negated.
unfoldable pub time_parts : ℤ → TimeParts
time_parts (pos n) = record {
  days = pos (n / 60 / 60 / 24);
  hours = pos (n / 60 / 60 % 24);
  minutes = pos (n / 60 % 60);
  seconds = pos (n % 60);
}
time_parts (negsuc n) = record {
  days = sub_ℕ 0 (suc n / 60 / 60 / 24);
  hours = sub_ℕ 0 (suc n / 60 / 60 % 24);
  minutes = sub_ℕ 0 (suc n / 60 % 60);
  seconds = sub_ℕ 0 (suc n % 60);
}

unfoldable pub days_text : ℤ → Text
unfolding show_int
days_text d =
    if le_ℤ d (pos 1) && le_ℤ (pos 1) d
    then codes "1 day, "
    else if lt_ℤ (pos 1) d
    then show_int d ++ codes " days, "
    else []

-- From the parts, and the text of the seconds with their decimals.
unfoldable pub time_text : TimeParts → Text → Text
unfolding days_text show_int
time_text p seconds_text =
    let has_hours = le_ℤ (pos 1) p.hours in
    let has_minutes = le_ℤ (pos 1) p.minutes || has_hours in
    days_text p.days
    ++ ((if has_hours then show_int p.hours ++ codes ":" else [])
        ++ ((if has_minutes
              then (if lt_ℤ p.minutes (pos 10) && has_hours then codes "0" else [])
                ++ (show_int p.minutes ++ codes ":")
              else [])
            ++ ((if lt_ℤ p.seconds (pos 10) && has_minutes then codes "0" else [])
                ++ seconds_text)))

module _ (F : Floats) where
  open F use {double, print_double}

  unfoldable pub convert_seconds_to_time_string : double.Num → Text
  unfolding time_parts time_text
  convert_seconds_to_time_string input =
      let whole = double.to_int input in
      let p = time_parts whole in
      time_text p (
        print_double
          (double.add (double.sub input (double.of_int whole)) (double.of_int p.seconds)))

-- The parts of a number of seconds add up to it, each below the next larger unit.
pub time_parts-pos :
    (n : ℕ)
    → (d : ℕ) × (h : ℕ) × (m : ℕ) × (s : ℕ) × (time_parts (pos n)
        ≡ record { days = pos d; hours = pos h; minutes = pos m; seconds = pos s })
      × (n ≡ d * 86400 + h * 3600 + m * 60 + s)
      × (h < 24)
      × (m < 60)
      × (s < 60)
unfolding time_parts
time_parts-pos n = (
  n / 60 / 60 / 24,
  n / 60 / 60 % 24,
  n / 60 % 60,
  n % 60,
  ground arith,
  omega arith,
  omega arith,
  omega arith,
  omega arith,
)
