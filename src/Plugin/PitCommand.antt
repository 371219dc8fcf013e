-- ===== src/Plugin/PitCommand.antt =====
-- `handlePitCommandMessage` of src/irplugin/irplugin.cpp: the client's message as pit commands. The
-- call of `irsdk_broadcastMsg` is its two arguments.
pub mod Words
pub mod RoundTrip
use ir_pit_crew.Prelude.{
  Bool, true, false, Option, none, some, List, [], ◌∷◌, ◌++◌, is_empty, if◌then◌else◌,
}
use ir_pit_crew.Prelude.Int.{ℤ, pos, lt_ℤ}
use ir_pit_crew.Prelude.Number.{stream_int}
use ir_pit_crew.Prelude.Text.{Text, codes, find_text, contains}
use ir_pit_crew.Floats.{Floats}
use ir_pit_crew.Plugin.Convert.{convert_fuel_display_to_litres}

-- `irsdk_PitCommand_…`
pub data PitCommand : Type 0 where
  clear ws fuel lf rf lr rr fr : PitCommand

abbrev pub Broadcast : Type 0
Broadcast = PitCommand × ℤ

-- Behind the `;` that was found.
abbrev value_behind : Option Text → ℤ
value_behind none = pos 0
value_behind (some []) = pos 0
value_behind (some (c ∷ rest)) = if is_empty rest then pos 0 else stream_int rest

abbrev value_from : Option Text → ℤ
value_from none = pos 0
value_from (some at) = value_behind (find_text (codes ";") at)

unfoldable pub fuel_to_add_display : Text → ℤ
unfolding find_text stream_int
fuel_to_add_display msg = value_from (find_text (codes "Fuel") msg)

-- What is checked in the message.
pub record Checked : Type 0 where
  pub left_front : Bool
  pub right_front : Bool
  pub left_rear : Bool
  pub right_rear : Bool
  pub fast_repair : Bool
  pub windshield : Bool

unfoldable pub checked_of : Text → Checked
unfolding contains
checked_of msg = record {
  left_front = contains (codes "LeftFront") msg;
  right_front = contains (codes "RightFront") msg;
  left_rear = contains (codes "LeftRear") msg;
  right_rear = contains (codes "RightRear") msg;
  fast_repair = contains (codes "FastRepair") msg;
  windshield = contains (codes "Windshield") msg;
}

abbrev when : Bool → PitCommand → ℤ → List Broadcast
when b c n = if b then (c, n) ∷ [] else []

-- The commands, in the order in which they are sent.
unfoldable pub commands : Bool → Checked → ℤ → List Broadcast
commands skip_clear c litres =
    when (if skip_clear then false else true) clear (pos 0)
    ++ (when c.windshield ws (pos 0)
        ++ (when c.fast_repair fr (pos 0)
            ++ (when (lt_ℤ (pos 0) litres) fuel litres
                ++ (when c.left_front lf (pos 0)
                    ++ (when c.right_front rf (pos 0)
                        ++ (when c.left_rear lr (pos 0) ++ when c.right_rear rr (pos 0)))))))

module _ (F : Floats) where
  open F use {double}

  -- `dFuelToAdd += 0.5` and the cast.
  unfoldable pub round_litres : double.Num → ℤ
  round_litres litres = double.to_int (double.add litres (double.decimal 5 1))

  -- The broadcasts for a message, with `g_isSkipClearOnApply` and the conversion factor; `none` is
  -- the failed assertion of the conversion.
  unfoldable pub handle_pit_command_message : Bool → double.Num → Text → Option (List Broadcast)
  unfolding fuel_to_add_display checked_of commands round_litres convert_fuel_display_to_litres
  handle_pit_command_message skip_clear factor msg =
      if is_empty msg
      then some []
      else elim (convert_fuel_display_to_litres F factor
          (double.of_int (fuel_to_add_display msg))) [
            | none ↦ none
            | some litres ↦ some (commands skip_clear (checked_of msg) (round_litres litres))
          ]
