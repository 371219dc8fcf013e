-- ===== src/Client.antt =====
-- How the web application (irPitCrew_install/Client) reads an update, the value of one tag in the
-- data portion of a message and the portion itself, and the message that it sends for a pit stop.
pub mod PitRoad
pub mod Session
use mathlib.Core.Option
use ir_pit_crew.Prelude.Number.{show_nat}
use ir_pit_crew.Prelude.{
  Bool, ℕ, ◌||◌, Option, none, some, [], ◌∷◌, ◌++◌, ◌==◌, is_empty, if◌then◌else◌,
}
use ir_pit_crew.Prelude.Text.{Text, codes, find_text}

-- From the first `;` on, without it.
unfoldable pub behind_semicolon : Text → Text
behind_semicolon [] = []
behind_semicolon (c ∷ s) = let rest = behind_semicolon s in if c == b';' then s else rest

-- Up to the first line break; with no line break the client takes the empty text.
unfoldable pub up_to_newline : Text → Option Text
up_to_newline [] = none
up_to_newline (c ∷ s) =
    let rest = up_to_newline s in if c == b'\n' then some [] else Option.map (◌∷◌ c) rest

abbrev pub or_empty : Option Text → Text
or_empty none = []
or_empty (some t) = t

-- The value behind a tag that was found.
abbrev pub value_at : Option Text → Option Text
value_at none = none
value_at (some at) = some (or_empty (up_to_newline (behind_semicolon at)))

-- `none` is `parsingData.dataNotSetString`.
unfoldable pub parse_data_portion : Text → Text → Option Text
unfolding find_text behind_semicolon up_to_newline
parse_data_portion portion tag =
    if is_empty portion || is_empty tag
    then none
    else value_at (find_text (b'\n' ∷ (tag ++ b';' ∷ [])) portion)

-- The data portion starts at the first marker.
unfoldable pub data_portion : Text → Option Text
unfolding find_text
data_portion msg = find_text (codes "***D.A.T.A***") msg

-- irPitCrew_install/Client/irPitCrew.js: the message with which pit commands are applied. The
-- amount of fuel is `toFixed(0)` of a number that is not negative; the rest is what is checked.
pub record Boxes : Type 0 where
  pub left_front : Bool
  pub right_front : Bool
  pub left_rear : Bool
  pub right_rear : Bool
  pub fast_repair : Bool
  pub windshield : Bool

-- A line that is sent if its box is checked.
unfoldable pub optional_line : Bool → Text → Text → Text
optional_line b word rest = if b then word ++ b'\n' ∷ rest else rest

unfoldable pub box_lines : Boxes → Text
unfolding optional_line
box_lines c = optional_line c.left_front (codes "LeftFront") (
    optional_line c.right_front (codes "RightFront") (
      optional_line c.left_rear (codes "LeftRear") (
        optional_line c.right_rear (codes "RightRear") (
          optional_line c.fast_repair (codes "FastRepair")
            (optional_line c.windshield (codes "Windshield") [])))))

unfoldable pub pit_message : ℕ → Boxes → Text
unfolding box_lines show_nat
pit_message fuel c = codes "\nFuel;" ++ (show_nat fuel ++ b'\n' ∷ box_lines c)
