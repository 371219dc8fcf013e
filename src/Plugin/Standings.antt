-- ===== src/Plugin/Standings.antt =====
-- The first half of `getDataFromSessionInfo` of src/irplugin/irplugin.cpp: the positions of the
-- driver's class. `parseYaml` of the SDK is a parameter: what stands at a path of the session info,
-- to the end of the text, and how long the value is.
pub mod Scan
use ir_pit_crew.Prelude.{
  ℕ, zero, suc, Bool, true, false, Option, none, some, List, [], ◌∷◌, ◌++◌, ◌==◌, ◌||◌, is_empty,
  get_elem?, take, ◌>>=◌, if◌then◌else◌,
}
use ir_pit_crew.Prelude.Int.{ℤ, pos, negsuc, ◌+ℤ◌, ◌-ℤ◌, le_ℤ}
use ir_pit_crew.Prelude.Number.{atoi, show_int}
use ir_pit_crew.Prelude.Text.{Text, codes, text_eq, getlines}
use ir_pit_crew.Dict.{Dict}
use ir_pit_crew.Floats.{Floats, nought}
use ir_pit_crew.Plugin.DataMap.{read_data_var}

pub record Yaml : Type 0 where
  pub at : Text
  pub len : ℕ

-- `std::string(valstr, valstrlen)`; a text that is not there stays empty.
abbrev pub yaml_text : Option Yaml → Text
yaml_text none = []
yaml_text (some v) = take v.len v.at

unfoldable pub driver_path : ℤ → Text → Text
unfolding show_int
driver_path idx field = codes "DriverInfo:Drivers:CarIdx:{" ++ show_int idx ++ codes "}" ++ field

unfoldable pub position_path : ℤ → ℕ → Text → Text
unfolding show_int
position_path session position field =
    codes "SessionInfo:Sessions:SessionNum:{"
    ++ show_int session
    ++ codes "}ResultsPositions:Position:{"
    ++ show_int (pos position)
    ++ codes "}"
    ++ field

abbrev pub int_eq : ℤ → ℤ → Bool
int_eq a b = if le_ℤ a b then le_ℤ b a else false

-- `classPosToCarIdxMap`: only looked up, so the order of its entries does not matter.
unfoldable pub find_car : ℤ → List (ℤ × ℤ) → Option ℤ
find_car p [] = none
find_car p ((q, car) ∷ m) = let rest = find_car p m in if int_eq p q then some car else rest

-- `insert` keeps the car that is there.
unfoldable pub insert_car : ℤ → ℤ → List (ℤ × ℤ) → List (ℤ × ℤ)
insert_car p car [] = (p, car) ∷ []
insert_car p car ((q, c) ∷ m) =
    let rest = insert_car p car m in if int_eq p q then (q, c) ∷ m else (q, c) ∷ rest

pub record Standings : Type 0 where
  pub cars : List (ℤ × ℤ)
  -- the driver's own position in the class, once it is found
  pub my_position : Option ℤ

unfoldable pub add_car : ℤ → Standings → ℤ → ℤ → Standings
unfolding insert_car
add_car my_idx s class_position idx = record {
  cars = insert_car class_position idx s.cars;
  my_position = elim s.my_position [
    | some p ↦ some p
    | none ↦ if int_eq idx my_idx then some class_position else none
  ];
}

unfoldable pub class_of : (Text → Option Yaml) → ℤ → Text
unfolding driver_path
class_of yaml idx = yaml_text (yaml (driver_path idx (codes "CarClassShortName:")))

-- The car at one position; `none` stops the loop.
unfoldable pub scan_step : (Text → Option Yaml) → ℤ → ℤ → ℕ → Standings → Option Standings
unfolding position_path class_of add_car atoi
scan_step yaml session my_idx position s =
    elim (yaml (position_path session position (codes "CarIdx:"))) [
      | none ↦ none
      | some v ↦
          let idx = atoi v.at in
          if text_eq (class_of yaml idx) (class_of yaml my_idx)
          then elim (yaml (position_path session position (codes "ClassPosition:"))) [
            | none ↦ none
            | some c ↦ some (add_car my_idx s (atoi c.at) idx)
          ]
          else some s
    ]

-- The positions from one on, as far as the fuel goes.
unfoldable pub scan : (Text → Option Yaml) → ℤ → ℤ → ℕ → ℕ → Standings → Standings
unfolding scan_step
scan yaml session my_idx zero position s = s
scan yaml session my_idx (suc fuel) position s = elim (scan_step yaml session my_idx position s) [
  | none ↦ s
  | some s' ↦ scan yaml session my_idx fuel (suc position) s'
]

abbrev pub no_standings : Standings
no_standings = record { cars = []; my_position = none }

-- The car one place off the driver's own, and its position as shown.
unfoldable pub neighbour : Standings → ℤ → Option (ℤ × ℤ)
unfolding find_car ◌+ℤ◌
neighbour s off = elim s.my_position [
  | none ↦ none
  | some p ↦
      let q = p +ℤ off in
      if le_ℤ (pos 0) q
      then elim (find_car q s.cars) [ none ↦ none | some car ↦ some (car, q +ℤ pos 1) ]
      else none
]
