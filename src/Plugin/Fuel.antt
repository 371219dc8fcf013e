-- ===== src/Plugin/Fuel.antt =====
-- The fuel calculation of the main loop in src/irplugin/irplugin.cpp: the fuel to finish, the laps
-- in the tank, and when a last pit stop is possible.
use ir_pit_crew.Prelude.{
  ◌≡◌, refl, true, false, Bool-cases, not, ◌&&◌, ◌⊎◌, inl, inr, arith, if◌then◌else◌,
}
use ir_pit_crew.Floats.{Floats, nought, minus_one, IsNumber, IsOrdered}

module _ (F : Floats) where
  open F use {single, double, widen}

  -- `MIN_FUEL_LITRES`
  abbrev pub min_fuel_litres : double.Num
  min_fuel_litres = double.decimal 4 1

  -- `extraLapsOfFuel`, the laps that remain at most, the fuel of a lap.
  unfoldable pub fuel_required : double.Num → double.Num → single.Num → double.Num
  fuel_required extra_laps remaining_max lap_fuel =
      if double.lt (nought double) remaining_max
      then double.add (double.add (double.mul remaining_max (widen lap_fuel)) min_fuel_litres)
          (double.mul extra_laps (widen lap_fuel))
      else minus_one double

  unfoldable pub fuel_for_one_lap : single.Num → double.Num
  fuel_for_one_lap lap_fuel = double.add (widen lap_fuel) min_fuel_litres

  unfoldable pub laps_of_fuel : single.Num → single.Num → double.Num
  laps_of_fuel lap_fuel fuel_level =
      let usable = double.sub (widen fuel_level) min_fuel_litres in
      if double.lt (nought double) (widen lap_fuel) && double.lt (nought double) usable
      then double.div usable (widen lap_fuel)
      else nought double

  -- After how many laps a full tank is enough to finish; -1 for no such stop.
  unfoldable pub optional_pit : single.Num → double.Num → double.Num → double.Num → double.Num
  optional_pit lap_fuel max_fuel remaining_max laps =
      if single.lt (nought single) lap_fuel
      then (let wait =
            double.sub remaining_max
              (double.div (double.sub max_fuel min_fuel_litres) (widen lap_fuel)) in
          if double.lt wait laps && not (double.le remaining_max laps)
          then (if double.le wait (nought double) then nought double else wait)
          else minus_one double)
      else minus_one double

  -- The laps until a full tank reaches the end.
  abbrev pub laps_to_wait : single.Num → double.Num → double.Num → double.Num
  laps_to_wait lap_fuel max_fuel remaining_max =
      double.sub remaining_max (double.div (double.sub max_fuel min_fuel_litres) (widen lap_fuel))

  module _ (ordered : IsOrdered double) where
    open ordered use {le_total, nought_number}

    after_nought :
        (x : double.Num)
        → IsNumber double x
        → double.le x (nought double) ≡ false
        → double.le (nought double) x ≡ true
    after_nought x h e = elim (le_total x (nought double) h nought_number) [
      | inl k ↦ ground arith
      | inr k ↦ k
    ]

    -- With a fuel per lap above zero, a pit stop that is announced as possible is wanted and can be
    -- made: the tank does not reach the end, it lasts until the stop's earliest lap, and the lap
    -- announced is the first one that is neither before now nor before a full tank reaches the end.
    -- If the tank reaches the end, or does not last until then, -1 is shown. The wait has to be a
    -- number.
    pub optional_pit-first :
        (lap_fuel : single.Num) (max_fuel remaining laps : double.Num)
        → single.lt (nought single) lap_fuel ≡ true
        → IsNumber double (laps_to_wait lap_fuel max_fuel remaining)
        → let wait = laps_to_wait lap_fuel max_fuel remaining in
          let p = optional_pit lap_fuel max_fuel remaining laps in
          ((p ≡ minus_one double)
            × ((double.le remaining laps ≡ true) ⊎ (double.lt wait laps ≡ false)))
          ⊎ ((double.le remaining laps ≡ false)
              × (double.lt wait laps ≡ true)
              × (double.le (nought double) p ≡ true)
              × (double.le wait p ≡ true)
              × ((p ≡ nought double) ⊎ (p ≡ wait)))
    unfolding optional_pit
    optional_pit-first lap_fuel max_fuel remaining laps h n =
        let wait = laps_to_wait lap_fuel max_fuel remaining in
        rw h (elim (Bool-cases (double.le remaining laps)) [
          | inl enough ↦ elim (Bool-cases (double.lt wait laps)) [
            | inl soon ↦ rw (soon, enough) (inl (refl, inl refl))
            | inr late ↦ rw late (inl (refl, inr refl))
          ]
          | inr short ↦ elim (Bool-cases (double.lt wait laps)) [
            | inr late ↦ rw late (inl (refl, inr refl))
            | inl soon ↦ elim (Bool-cases (double.le wait (nought double))) [
              | inl now ↦ rw (soon, short, now) (inr (refl, refl, nought_number, now, inl refl))
              | inr later ↦
                  rw (soon, short, later) (inr (refl, refl, after_nought wait n later, n, inr refl))
            ]
          ]
        ])
