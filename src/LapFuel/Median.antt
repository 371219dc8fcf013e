-- ===== src/LapFuel/Median.antt =====
-- `LapFuelData::calcMedian` and `calcMedianValues`: the median of a list of values and their median
-- absolute deviation (MAD), with outliers left out in a second pass. `std::sort` is a sort by
-- `operator<`.
pub mod Sort
pub mod Rank
use ir_pit_crew.Prelude.{
  ℕ, ◌-◌, ◌%◌, Bool, true, false, ◌&&◌, List, [], ◌∷◌, map, ltb, ◌==◌, length, get_or, select,
  if◌then◌else◌,
}
use ir_pit_crew.Prelude.Int.{pos, to_unsigned}
use ir_pit_crew.Floats.{Arith, Floats, nought}
use ir_pit_crew.LapFuel.{LapFuelData}

module _ (A : Arith) where
  open A use {Num}

  insert_sorted : Num → List Num → List Num
  insert_sorted x [] = x ∷ []
  insert_sorted x (y ∷ ys) =
      let rest = insert_sorted x ys in if A.lt y x then y ∷ rest else x ∷ y ∷ ys

  unfoldable pub sort : List Num → List Num
  unfolding insert_sorted
  sort [] = []
  sort (x ∷ xs) = insert_sorted x (sort xs)

  -- `(int)(numValues / 2.0f)`
  unfoldable pub middle_index : ℕ → ℕ
  unfolding to_unsigned
  middle_index n = to_unsigned (A.to_int (A.div (A.of_int (pos n)) (A.decimal 2 0)))

  -- The middle value of sorted values, or the average of the two in the middle.
  unfoldable pub middle_value : List Num → Num
  unfolding middle_index
  middle_value sorted =
      let n = length sorted in
      let m = middle_index n in
      let upper = get_or sorted m (nought A) in
      if n % 2 == 0
      then A.div (A.add upper (get_or sorted (m - 1) (nought A))) (A.decimal 2 0)
      else upper

  -- The values of the second pass: those within three MAD of the median.
  unfoldable pub within_limits : Num → Num → List Num → List Num
  within_limits median mad values =
      let spread = A.mul mad (A.decimal 3 0) in
      let high = A.add median spread in
      let low = A.sub median spread in select (λ v. A.le low v && A.le v high) values

  -- The values that are left for the median, from the results that were passed in.
  unfoldable pub used_values : List Num → Bool → Num → Num → List Num
  unfolding within_limits
  used_values values exclude median mad =
      if exclude && (A.lt (nought A) median && A.lt (nought A) mad)
      then within_limits median mad values
      else values

  -- The median and the MAD of the values that are left.
  unfoldable pub median_and_mad : List Num → Num × Num
  unfolding sort middle_value
  median_and_mad [] = (nought A, nought A)
  median_and_mad (v ∷ vs) =
      let median = middle_value (sort (v ∷ vs)) in
      let deviations = map (λ x. A.abs (A.sub median x)) (sort (v ∷ vs)) in
      (median, middle_value (sort deviations))

  unfoldable pub calc_median : List Num → Bool → Num → Num → Num × Num
  unfolding used_values median_and_mad
  calc_median [] exclude median mad = (nought A, nought A)
  calc_median (v ∷ vs) exclude median mad = median_and_mad (used_values (v ∷ vs) exclude median mad)

  -- Two passes: the second leaves out the outliers of the first.
  unfoldable pub calc_twice : List Num → Num → Num → Num × Num
  unfolding calc_median
  calc_twice values median mad =
      let (median', mad') = calc_median values false median mad in
      calc_median values true median' mad'

module _ (F : Floats) where
  open F use {single}

  pub record MedianValues : Type 0 where
    pub lap_time : single.Num
    pub fuel : single.Num
    pub mad_lap_time : single.Num
    pub mad_fuel : single.Num

  -- `calcMedianValues`, whose callers pass in variables that they have set to zero.
  unfoldable pub calc_median_values : LapFuelData F → MedianValues
  unfolding calc_twice
  calc_median_values d =
      let (t, mad_t) = calc_twice single d.lap_times (nought single) (nought single) in
      let (f, mad_f) = calc_twice single d.lap_fuels (nought single) (nought single) in
      record { lap_time = t; fuel = f; mad_lap_time = mad_t; mad_fuel = mad_f }
