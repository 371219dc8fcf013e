-- ===== src/Tests/Plugin.antt =====
-- src/irplugin/irplugin on concrete inputs, in thousandths.
use ir_pit_crew.Prelude.{
  ◌+◌, ◌*◌, ◌≡◌, ◌⊎◌, refl, true, false, Option, none, some, [], arith, if◌then◌else◌, ◌>>=◌, ◌≤◌,
  ◌∷◌, length,
}
use ir_pit_crew.Prelude.Int.{ℤ, pos, negsuc, ◌*ℤ◌, ◌-ℤ◌, ◌+ℤ◌, quot}
use ir_pit_crew.Prelude.Text.{Text, codes, text_eq}
use ir_pit_crew.Dict.{Dict, find}
use ir_pit_crew.Plugin.DataMap.{read_data_var}
use ir_pit_crew.Floats.{nought, minus_one, IsNumber}
use ir_pit_crew.Floats.Fixed.{milli, fixed, milli-IsOrdered}
use ir_pit_crew.Plugin.Convert.{convert_fuel_display_to_litres}
use ir_pit_crew.Client.{Boxes, pit_message}
use ir_pit_crew.Plugin.PitCommand.{handle_pit_command_message, commands, round_litres}
use ir_pit_crew.Plugin.PitCommand.RoundTrip.{checked, handle-pit_message}
use ir_pit_crew.Plugin.VarData.{VarHeader, int, size_of}
use ir_pit_crew.Plugin.Fuel.{optional_pit, laps_to_wait, optional_pit-first}
use ir_pit_crew.Plugin.Race.{
  Limits, no_limits, limits_by_laps, race_limits, time_step, lap_step, lap_step_of, driver_lap_of,
}
use ir_pit_crew.Plugin.Race.Bounds.{race_limits-shown, limits_by_laps_smallest}
use ir_pit_crew.Prelude.Number.{
  atoi, clamp_int, stream_int, skip_spaces, signed_value, digits_value, is_digit, is_space,
  show_int, show_nat, digits_of,
}
use ir_pit_crew.Plugin.Standings.{
  scan_step, driver_path, add_car, insert_car, Yaml, no_standings, scan, neighbour, find_car,
  class_of, position_path,
}
use ir_pit_crew.Plugin.Standings.Scan.{neighbour-class}

fuel_above_zero : milli.lt (nought milli) (pos 2000) ≡ true
unfolding ◌*ℤ◌
fuel_above_zero = refl

wait-IsNumber : IsNumber milli (laps_to_wait fixed (pos 2000) (pos 40400) (pos 25000))
unfolding ◌*ℤ◌ ◌-ℤ◌ quot
wait-IsNumber = refl

two-IsNumber : IsNumber milli (milli.of_int (pos 2))
unfolding ◌*ℤ◌
two-IsNumber = refl

three_above_zero : milli.lt (pos 3000) (nought milli) ≡ false
unfolding ◌*ℤ◌
three_above_zero = refl

-- 2 litres a lap, a tank of 40.4, 25 laps left and fuel for 10.
optional_pit-first_example :
    let wait = laps_to_wait fixed (pos 2000) (pos 40400) (pos 25000) in
    let p = optional_pit fixed (pos 2000) (pos 40400) (pos 25000) (pos 10000) in
    ((p ≡ minus_one milli)
      × ((milli.le (pos 25000) (pos 10000) ≡ true) ⊎ (milli.lt wait (pos 10000) ≡ false)))
    ⊎ ((milli.le (pos 25000) (pos 10000) ≡ false)
        × (milli.lt wait (pos 10000) ≡ true)
        × (milli.le (nought milli) p ≡ true)
        × (milli.le wait p ≡ true)
        × ((p ≡ nought milli) ⊎ (p ≡ wait)))
optional_pit-first_example =
    optional_pit-first fixed milli-IsOrdered (pos 2000) (pos 40400) (pos 25000) (pos 10000)
      fuel_above_zero wait-IsNumber

-- Half a minute left, or two laps.
abbrev last_laps : Dict
last_laps =
    (codes "SessionLapsRemainEx", codes "2") ∷ (codes "SessionTimeRemain", codes "30000") ∷ []

last_limits :
    (l : Limits fixed) × (race_limits fixed false
        (codes "20")
        (codes "600000")
        last_laps
        (pos 90000)
      ≡ some l)
unfolding race_limits time_step lap_step lap_step_of driver_lap_of read_data_var find text_eq ◌>>=◌
    stream_int clamp_int atoi skip_spaces signed_value digits_value is_digit is_space
last_limits = (_, refl)

timed : text_eq (codes "600000") (codes "unlimited") ≡ false
unfolding text_eq
timed = refl

race_limits-shown_example :
    let l = last_limits.0 in
    ((milli.lt l.remaining_time (nought milli) ≡ false)
      × (milli.lt l.remaining_laps_min (nought milli) ≡ false)
      × (milli.lt l.remaining_laps_max (nought milli) ≡ false))
    ⊎ ((text_eq (codes "20") (codes "unlimited") ≡ false)
        × ((l.total_time ≡ minus_one milli)
            × (l.remaining_time ≡ minus_one milli)
            × (l.elapsed_time ≡ minus_one milli))
        × (l.total_laps_max ≡ milli.of_int (atoi (codes "20")))
        × (l.remaining_laps_min ≡ l.remaining_laps_max))
race_limits-shown_example =
    race_limits-shown fixed milli-IsOrdered false (codes "20") (codes "600000") last_laps
      (pos 90000) last_limits.0 timed last_limits.1

-- Three laps left by time, two by laps.
abbrev three_laps : Limits fixed
three_laps = record (no_limits fixed) {
  remaining_laps_min = pos 1000;
  remaining_laps_max = pos 3000;
}

limits_by_laps_smallest_example :
    let m = (limits_by_laps fixed (pos 20) (pos 2) three_laps).remaining_laps_max in
    ((m ≡ three_laps.remaining_laps_max) ⊎ (m ≡ milli.of_int (pos 2)))
    × (milli.le m three_laps.remaining_laps_max ≡ true)
    × (milli.le m (milli.of_int (pos 2)) ≡ true)
limits_by_laps_smallest_example =
    limits_by_laps_smallest fixed milli-IsOrdered (pos 20) (pos 2) three_laps refl two-IsNumber
      three_above_zero

-- The driver has car 5, behind car 7.
abbrev two_cars : Text → Option Yaml
two_cars path =
    if text_eq path (position_path (pos 0) 1 (codes "CarIdx:"))
    then some (record { at = codes "7"; len = 1 })
    else if text_eq path (position_path (pos 0) 1 (codes "ClassPosition:"))
    then some (record { at = codes "0"; len = 1 })
    else if text_eq path (position_path (pos 0) 2 (codes "CarIdx:"))
    then some (record { at = codes "5"; len = 1 })
    else if text_eq path (position_path (pos 0) 2 (codes "ClassPosition:"))
    then some (record { at = codes "1"; len = 1 })
    else none

car_7_ahead :
    neighbour (scan two_cars (pos 0) (pos 5) 2 1 no_standings) (negsuc 0) ≡ some (pos 7, pos 1)
unfolding neighbour scan scan_step position_path class_of driver_path add_car insert_car find_car
    atoi skip_spaces signed_value digits_value is_digit is_space show_int show_nat digits_of text_eq
    ◌+ℤ◌
car_7_ahead = refl

neighbour-class_example :
    let s = scan two_cars (pos 0) (pos 5) 2 1 no_standings in
    (text_eq (class_of two_cars (pos 7)) (class_of two_cars (pos 5)) ≡ true)
    × (p : ℤ) × (s.my_position ≡ some p)
    × (find_car (p +ℤ negsuc 0) s.cars ≡ some (pos 7))
    × (pos 1 ≡ p +ℤ negsuc 0 +ℤ pos 1)
neighbour-class_example =
    neighbour-class two_cars (pos 0) (pos 5) 2 (negsuc 0) (pos 7) (pos 1) car_7_ahead

-- Ten litres, both front tyres and a fast repair.
abbrev fronts : Boxes
fronts = record {
  left_front = true;
  right_front = true;
  left_rear = false;
  right_rear = false;
  fast_repair = true;
  windshield = false;
}

handle-pit_message_example :
    handle_pit_command_message fixed false (pos 1000) (pit_message 10 fronts) ≡ (
      convert_fuel_display_to_litres fixed (pos 1000) (milli.of_int (pos 10)) >>= λ litres.
      some (commands false (checked fronts) (round_litres fixed litres)))
handle-pit_message_example = handle-pit_message fixed false (pos 1000) 10 fronts (omega arith)

-- Two numbers of 32 bits behind four bytes of another variable.
abbrev pub laps_header : VarHeader
laps_header = record { name = codes "CarIdxLap"; type = int; offset = 4; count = 2 }

abbrev pub memory : Text
memory = 9 ∷ 9 ∷ 9 ∷ 9 ∷ 3 ∷ 0 ∷ 0 ∷ 0 ∷ 255 ∷ 255 ∷ 255 ∷ 255 ∷ []

abbrev pub no_number : Text → ℤ
no_number bytes = pos 0

pub memory-size : 4 + 2 * size_of int ≤ length memory
unfolding size_of
memory-size = omega arith
