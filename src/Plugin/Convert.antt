-- ===== src/Plugin/Convert.antt =====
-- The fuel conversions of src/irplugin/irplugin.cpp.
use ir_pit_crew.Prelude.{◌≡◌, Bool, true, false, Option, none, some, arith, if◌then◌else◌}
use ir_pit_crew.Prelude.Text.{Text, codes}
use ir_pit_crew.Floats.{Floats, nought}

module _ (F : Floats) where
  open F use {double}

  pub record Conversion : Type 0 where
    pub factor : double.Num
    pub units : Text

  unfoldable pub convert_fuel_litres_to_display : double.Num → double.Num → double.Num
  convert_fuel_litres_to_display factor litres = double.mul litres factor

  -- `none` is the failed assertion that the factor is above zero.
  unfoldable pub convert_fuel_display_to_litres : double.Num → double.Num → Option double.Num
  convert_fuel_display_to_litres factor display =
      if double.lt (nought double) factor then some (double.div display factor) else none

  -- `g_isDisplayFuelImperial` and `g_DriverCarFuelKgPerLtr`, then the parameters.
  unfoldable pub calculate_fuel_display_conversion_factor :
      Bool → double.Num → Bool → Bool → Conversion
  calculate_fuel_display_conversion_factor global_imperial kg_per_ltr imperial weight =
      if weight
      then (if imperial
          then record {
            factor = double.mul kg_per_ltr (double.decimal 220462 5);
            units = codes "lb";
          }
          else record { factor = kg_per_ltr; units = codes "kg" })
      else (if global_imperial
          then record {
            factor = double.mul (double.decimal 10 1) (double.decimal 264151 6);
            units = codes "gal";
          }
          else record { factor = double.decimal 10 1; units = codes "ltr" })

  -- What the factor means: the unit for a car whose fuel is shown by weight or by volume, in
  -- imperial or in metric units.
  abbrev pub expected_units : Bool → Bool → Text
  expected_units imperial weight =
      if weight
      then (if imperial then codes "lb" else codes "kg")
      else (if imperial then codes "gal" else codes "ltr")

  -- The units are those of the two settings, where the setting for imperial units is the parameter
  -- for a weight and the global setting for a volume, whatever the parameter is.
  pub units-conversion_factor :
      (global_imperial imperial weight : Bool) (kg_per_ltr : double.Num)
      → (calculate_fuel_display_conversion_factor global_imperial kg_per_ltr imperial weight).units
        ≡ expected_units (if weight then imperial else global_imperial) weight
  unfolding calculate_fuel_display_conversion_factor
  units-conversion_factor global_imperial imperial true kg_per_ltr = ground arith
  units-conversion_factor global_imperial imperial false kg_per_ltr = ground arith

  -- With factors above zero for every unit, litres can be computed back whatever the settings are.
  pub convert_fuel_display_to_litres-defined :
      (global_imperial imperial weight : Bool) (kg_per_ltr display : double.Num)
      → double.lt (nought double) kg_per_ltr ≡ true
      → double.lt (nought double) (double.mul kg_per_ltr (double.decimal 220462 5)) ≡ true
      → double.lt (nought double) (double.mul (double.decimal 10 1) (double.decimal 264151 6))
        ≡ true
      → double.lt (nought double) (double.decimal 10 1) ≡ true
      → let c =
          calculate_fuel_display_conversion_factor global_imperial kg_per_ltr imperial weight in
        convert_fuel_display_to_litres c.factor display ≡ some (double.div display c.factor)
  unfolding calculate_fuel_display_conversion_factor convert_fuel_display_to_litres
  convert_fuel_display_to_litres-defined global_imperial imperial weight kg_per_ltr display a b c
        d =
      ground arith
