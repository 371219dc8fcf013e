-- ===== src/Tests/LapFuel.antt =====
-- src/irplugin/LapFuelData on concrete inputs, in thousandths.
use ir_pit_crew.Prelude.{
  ℕ, zero, suc, ◌+◌, ◌%◌, ◌/◌, ◌^◌, ◌<◌, ◌≤◌, ◌*◌, ◌≡◌, ◌↔◌, refl, true, false, List, [], ◌∷◌, ◌++◌,
  map, length, All, arith, if◌then◌else◌, some,
}
use ir_pit_crew.Prelude.Int.{◌-ℤ◌, ℤ, pos, negsuc, le_ℤ, ◌*ℤ◌, ◌+ℤ◌, quot}
use ir_pit_crew.Prelude.Text.{codes, text_eq, Lacks, Lacks-append}
use ir_pit_crew.Floats.{IsNumber, IsAveraging, nought}
use ir_pit_crew.Floats.Fixed.{digits_of, milli, fixed, milli-IsOrdered, milli-IsMonotone}
use ir_pit_crew.LapFuel.{LapFuelData, data_count_min}
use ir_pit_crew.LapFuel.Laps.{add_lap_data, add_laps}
use ir_pit_crew.LapFuel.Laps.Valid.{IsValid, IsPositive, add_lap_data_iff, add_lap_data-IsValid}
use ir_pit_crew.LapFuel.Laps.Window.{IsWindow, recorded, add_laps-IsWindow}
use ir_pit_crew.LapFuel.Files.{Storage, session_file_name}
use ir_pit_crew.LapFuel.Files.RoundTrip.{IsPrinted, CanSave, reread, back, reset_session_data-back}
use ir_pit_crew.LapFuel.Median.{median_and_mad, MedianValues}
use ir_pit_crew.LapFuel.Median.Rank.{IsModest, count_up_to, count_from, median_and_mad-Splits}
use ir_pit_crew.LapFuel.Estimate.{estimated_lap_time, estimated_lap_fuel}
use ir_pit_crew.LapFuel.Estimate.Safe.{IsCutOff, estimate_is_safe}

-- One lap of 90 s and 2.5 litres is recorded, with a maximum of ten; 40 litres are left.
abbrev pub one_lap : LapFuelData fixed
one_lap = record {
  lap_data_dir = codes "LapData";
  data_count_max = 10;
  lap_times = pos 90000 ∷ [];
  lap_fuels = pos 2500 ∷ [];
  current_track = codes "oval";
  current_car = codes "truck";
  last_fuel = pos 40000;
}

add_lap_data_iff_example : ((add_lap_data fixed one_lap (pos 91000) (pos 37000)).1 ≡ true) ↔ (
    (milli.le (nought milli) (pos 37000) ≡ true)
    × IsPositive fixed (pos 91000)
    × (milli.lt (pos 37000) (pos 40000) ≡ true))
add_lap_data_iff_example =
    add_lap_data_iff fixed milli-IsOrdered milli-IsMonotone one_lap (pos 91000) (pos 37000) refl
      refl refl

one_lap-IsValid : IsValid fixed one_lap
unfolding ◌*ℤ◌
one_lap-IsValid = record { paired = refl; times = (refl, tt); fuels = (refl, tt); last = refl }

add_lap_data-IsValid_example : IsValid fixed (add_lap_data fixed one_lap (pos 91000) (pos 37000)).0
add_lap_data-IsValid_example =
    add_lap_data-IsValid fixed milli-IsOrdered milli-IsMonotone one_lap (pos 91000) (pos 37000) refl
      refl one_lap-IsValid

one_lap-IsWindow : IsWindow fixed one_lap ((pos 90000, pos 2500) ∷ [])
one_lap-IsWindow = record { has_max = omega arith; times = refl; fuels = refl }

abbrev reported : List (ℤ × ℤ)
reported = (pos 91000, pos 37000) ∷ (pos 92000, pos 34000) ∷ []

add_laps-IsWindow_example :
    IsWindow fixed
      (add_laps fixed one_lap reported)
      ((pos 90000, pos 2500) ∷ [] ++ recorded fixed one_lap reported)
add_laps-IsWindow_example =
    add_laps-IsWindow fixed reported one_lap ((pos 90000, pos 2500) ∷ []) one_lap-IsWindow

abbrev disk : Storage
disk = record { has_directory = λ d. true; can_write = λ p. true; files = λ p. some [] }

digit-Lacks : (n : ℕ) → Lacks b'\n' ((b'0' + n % 10) ∷ [])
digit-Lacks n = (ground arith, tt)

digits_of-Lacks : (k n : ℕ) → Lacks b'\n' (digits_of k n)
digits_of-Lacks zero n = tt
digits_of-Lacks (suc k) n =
    Lacks-append b'\n' (digits_of k (n / 10)) ((b'0' + n % 10) ∷ []) (digits_of-Lacks k (n / 10))
      (digit-Lacks n)

pub fixed-IsPrinted : (x : ℤ) → IsPrinted (fixed.print_single x)
unfolding text_eq
fixed-IsPrinted (pos n) = record {
  one_line = (refl, digits_of-Lacks 12 n);
  nonempty = refl;
  no_separator = refl;
}
fixed-IsPrinted (negsuc n) = record {
  one_line = (refl, digits_of-Lacks 12 (suc n));
  nonempty = refl;
  no_separator = ground arith;
}

one_lap-CanSave : CanSave fixed fixed-IsPrinted one_lap disk
one_lap-CanSave = record {
  directory = refl;
  writable = refl;
  track = refl;
  car = refl;
  times = refl;
  fuels = refl;
}

other_name :
    text_eq
      (session_file_name (codes "LapData") (codes "oval") (codes "truck"))
      (session_file_name (codes "LapData") (codes "road") (codes "coupe"))
    ≡ false
unfolding text_eq session_file_name
other_name = refl

reset_session_data-back_example :
    let there = back fixed fixed-IsPrinted one_lap disk (codes "road") (codes "coupe") in
    (there.0.lap_times ≡ map (reread fixed fixed-IsPrinted) one_lap.lap_times)
    × (there.0.lap_fuels ≡ map (reread fixed fixed-IsPrinted) one_lap.lap_fuels)
reset_session_data-back_example =
    reset_session_data-back fixed fixed-IsPrinted one_lap disk (codes "road") (codes "coupe")
      one_lap-CanSave other_name

abbrev top : ℤ
top = pos 1000000

milli-IsAveraging : IsAveraging milli top
unfolding ◌*ℤ◌ ◌+ℤ◌ quot
milli-IsAveraging = record {
  halves = λ n h. ground arith;
  between = λ a b h k l. (ground arith, ground arith);
}

three-IsModest : All (IsModest milli milli-IsOrdered top) (pos 3000 ∷ pos 1000 ∷ pos 2000 ∷ [])
unfolding ◌*ℤ◌
three-IsModest = (
  (record { nonneg = refl; small = refl }),
  (record { nonneg = refl; small = refl }, (record { nonneg = refl; small = refl }, tt)),
)

median_and_mad-Splits_example :
    let values = pos 3000 ∷ pos 1000 ∷ pos 2000 ∷ [] in
    let m = (median_and_mad milli values).0 in
    (length values ≤ 2 * count_up_to milli milli-IsOrdered m values)
    × (length values ≤ 2 * count_from milli milli-IsOrdered m values)
median_and_mad-Splits_example =
    median_and_mad-Splits milli milli-IsOrdered top milli-IsAveraging (pos 3000)
      (pos 1000 ∷ pos 2000 ∷ []) (omega arith) three-IsModest

abbrev medians : MedianValues fixed
medians = record {
  lap_time = pos 90000;
  fuel = pos 2500;
  mad_lap_time = pos 400;
  mad_fuel = pos 100;
}

medians-IsNumber : IsNumber milli (estimated_lap_time fixed medians)
unfolding estimated_lap_time ◌*ℤ◌ ◌-ℤ◌
medians-IsNumber = refl

estimate_is_safe_example :
    (if milli.lt (nought milli) medians.lap_time
      then milli.le (estimated_lap_time fixed medians) medians.lap_time ≡ true
      else estimated_lap_time fixed medians ≡ nought milli)
    × (if milli.lt (nought milli) medians.fuel
        then milli.le medians.fuel (estimated_lap_fuel fixed medians) ≡ true
        else estimated_lap_fuel fixed medians ≡ nought milli)
estimate_is_safe_example =
    estimate_is_safe fixed milli-IsOrdered milli-IsMonotone medians refl refl medians-IsNumber

cut_off :
    (x : ℤ)
    → le_ℤ x (pos 2147483647000) ≡ true
    → milli.lt (milli.of_int (pos data_count_min)) x ≡ true
    → (n : ℕ) × (milli.to_int x ≡ pos n) × (data_count_min ≤ n) × (n < 2 ^ 31)
unfolding ◌*ℤ◌ quot
cut_off (pos m) h k = (m / 1000, refl, ground arith, ground arith)
cut_off (negsuc m) h k = absurd (ground arith)

abbrev milli-IsCutOff : IsCutOff milli
milli-IsCutOff = record { in_range = λ x. le_ℤ x (pos 2147483647000); to_int_above = cut_off }

tank-in_range : le_ℤ (milli.div (pos 60000) (pos 2500)) (pos 2147483647000) ≡ true
unfolding ◌*ℤ◌ quot
tank-in_range = refl
