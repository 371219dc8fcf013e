-- ===== src/LapFuel/Estimate/Safe.antt =====
-- The estimates against the medians that they are made from.
use ir_pit_crew.Prelude.{
  ℕ, ◌≤◌, ◌<◌, ◌^◌, ◌≡◌, refl, Bool, true, ◌&&◌, ◌⊎◌, inl, inr, arith, if◌then◌else◌, Bool-cases,
}
use ir_pit_crew.Prelude.Int.{pos}
use ir_pit_crew.Floats.{Arith, Floats, nought, IsNumber, IsOrdered, IsMonotone}
use ir_pit_crew.LapFuel.{data_count_min}
use ir_pit_crew.LapFuel.Median.{MedianValues}
use ir_pit_crew.LapFuel.Estimate.{estimated_lap_time, estimated_lap_fuel, new_count_max}

-- `(int)` of a number above ten that an `int` can hold is ten or more.
pub record IsCutOff (A : Arith) : Type 0 where
  pub in_range : A.Num → Bool
  pub to_int_above :
      (x : A.Num)
      → in_range x ≡ true
      → A.lt (A.of_int (pos data_count_min)) x ≡ true
      → (n : ℕ) × (A.to_int x ≡ pos n) × (data_count_min ≤ n) × (n < 2 ^ 31)

module _ (F : Floats) (ordered : IsOrdered F.single) (monotone : IsMonotone F.single) where
  open F use {single, double, widen}

  abbrev clamped : (x : single.Num) → single.Num
  clamped x = if single.lt x (nought single) then nought single else x

  clamped-nonneg :
      (x : single.Num) → IsNumber single x → single.le (nought single) (clamped x) ≡ true
  clamped-nonneg x n =
      ground (
        arith,
        ordered.nought_number,
        ordered.lt-eq-not-le x (nought single) n ordered.nought_number,
      )

  -- The estimated lap time is no longer than the median, and the estimated fuel no less than the
  -- median; without a median above zero either estimate is zero. (No MAD is NaN, and nor is their
  -- difference.)
  pub estimate_is_safe :
      (m : MedianValues F)
      → IsNumber single m.mad_lap_time
      → IsNumber single m.mad_fuel
      → IsNumber single (estimated_lap_time F m)
      → (if single.lt (nought single) m.lap_time
          then single.le (estimated_lap_time F m) m.lap_time ≡ true
          else estimated_lap_time F m ≡ nought single)
        × (if single.lt (nought single) m.fuel
            then single.le m.fuel (estimated_lap_fuel F m) ≡ true
            else estimated_lap_fuel F m ≡ nought single)
  unfolding estimated_lap_time estimated_lap_fuel
  estimate_is_safe m nt nf ne = (
    elim (Bool-cases (single.lt (nought single) m.lap_time)) [
      | inl t ↦ rw t (
          monotone.sub-le m.lap_time (clamped m.mad_lap_time) t (clamped-nonneg m.mad_lap_time nt)
            (rw t at ne))
      | inr t ↦ rw t refl
    ],
    elim (Bool-cases (single.lt (nought single) m.fuel)) [
      | inl f ↦ rw f (monotone.le-add m.fuel (clamped m.mad_fuel) f (clamped-nonneg m.mad_fuel nf))
      | inr f ↦ rw f refl
    ],
  )

  -- The maximum of the lists, once it is calculated, is never below ten; before it is as it was.
  pub new_count_max_bounds :
      (cut : IsCutOff double) (old : ℕ) (fuel : single.Num) (max_fuel : double.Num)
      → cut.in_range (double.div max_fuel (widen fuel)) ≡ true
      → (new_count_max F old fuel max_fuel ≡ old)
        ⊎ ((data_count_min ≤ new_count_max F old fuel max_fuel)
            × (new_count_max F old fuel max_fuel < 2 ^ 31))
  unfolding new_count_max
  new_count_max_bounds cut old fuel max_fuel r =
      let count = double.div max_fuel (widen fuel) in
      elim (Bool-cases (double.lt (nought double) max_fuel && single.lt (nought single) fuel)) [
        | inl known ↦
            rw known (elim (Bool-cases (double.lt (double.of_int (pos data_count_min)) count)) [
              | inl more ↦
                  let (n, e, low, high) = cut.to_int_above count r more in
                  rw (more, e) (inr (omega arith, omega arith))
              | inr less ↦ rw less (inr (omega arith, omega arith))
            ])
        | inr unknown ↦ rw unknown (inl refl)
      ]
