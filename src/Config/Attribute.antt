-- ===== src/Config/Attribute.antt =====
-- `ConfigData::trim` and `parseAttributeValue`.
pub mod Trim
pub mod Trimmed
use ir_pit_crew.Prelude.{
  ℕ, ◌+◌, Bool, true, false, not, ◌&&◌, Option, none, some, List, [], ◌∷◌, ◌++◌, leb, ◌==◌, length,
  drop, get_or, is_empty, if◌then◌else◌,
}
use ir_pit_crew.Prelude.Int.{ℤ}
use ir_pit_crew.Prelude.Number.{is_space, skip_spaces, atoi}
use ir_pit_crew.Prelude.Text.{Text, starts_with}
use ir_pit_crew.Floats.{Floats}

-- trim from start
unfoldable pub ltrim : Text → Text
unfolding skip_spaces
ltrim s = skip_spaces s

-- trim from end
unfoldable pub rtrim : Text → Text
unfolding is_space
rtrim [] = []
rtrim (c ∷ s) =
    let rest = rtrim s in if is_empty rest then (if is_space c then [] else c ∷ []) else c ∷ rest

unfoldable pub trim : Text → Text
unfolding ltrim rtrim
trim s = ltrim (rtrim s)

module _ (F : Floats) where
  open F use {double, atof}

  -- What a line gives for an attribute.
  pub record Value : Type 0 where
    pub is_set : Bool
    pub as_int : ℤ
    pub as_double : double.Num

  unfoldable pub value_of : Text → Option Value
  value_of [] = none
  value_of (c ∷ s) =
      some (record { is_set = not (c == b'0'); as_int = atoi (c ∷ s); as_double = atof (c ∷ s) })

  -- `none` for the result false.
  unfoldable pub parse_attribute_value : Text → Text → Option Value
  unfolding trim atoi value_of
  parse_attribute_value line attribute =
      let line' = trim line in
      let wanted = trim attribute ++ b' ' ∷ [] in
      if leb (length wanted + 1) (length line') && starts_with wanted line'
      then value_of (trim (drop (length wanted) line'))
      else none
