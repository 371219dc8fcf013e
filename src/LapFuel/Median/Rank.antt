-- ===== src/LapFuel/Median/Rank.antt =====
-- Where the median stands among the values.
use ir_pit_crew.Prelude.{
  ◌-◌, ◌*◌, ◌/◌, ◌%◌, ◌^◌, ◌<◌, inl, inr, Bool-cases, All-map, ◌==◌, ℕ, zero, suc, ◌+◌, ◌≤◌, ◌<◌,
  ◌≡◌, true, List, [], ◌∷◌, length, get_or, All, arith,
}
use ir_pit_crew.Floats.{nought, IsAveraging, Arith, IsNumber, IsOrdered}
use ir_pit_crew.LapFuel.Median.{middle_index, middle_value, median_and_mad, sort}
use ir_pit_crew.LapFuel.Median.Sort.{
  count-le, count-sort, length-sort, All-sort, sort-IsSorted, count, count-All, All-get_or,
  IsSorted,
}

module _ (A : Arith) (ordered : IsOrdered A) where
  open A use {Num}

  abbrev pub count_up_to : Num → List Num → ℕ
  count_up_to m = count (λ v. A.le v m)

  abbrev pub count_from : Num → List Num → ℕ
  count_from m = count (λ v. A.le m v)

  -- At least the first `i + 1` values of a sorted list are up to the value at `i`.
  count_up_to-get_or :
      (s : List Num) (i : ℕ) (d : Num)
      → i < length s
      → All (IsNumber A) s
      → IsSorted A s
      → suc i ≤ count_up_to (get_or s i d) s
  count_up_to-get_or [] i d h n o = absurd (omega arith)
  count_up_to-get_or (x ∷ xs) zero d h (n, ns) (above, o) = rw n (omega arith)
  count_up_to-get_or (x ∷ xs) (suc i) d h (n, ns) (above, o) =
      rw (All-get_or (λ y. A.le x y ≡ true) xs i d (omega arith) above)
        (omega (arith, count_up_to-get_or xs i d (omega arith) ns o))

  -- And all from `i` on are from it up.
  count_from-get_or :
      (s : List Num) (i : ℕ) (d : Num)
      → i < length s
      → All (IsNumber A) s
      → IsSorted A s
      → length s ≤ i + count_from (get_or s i d) s
  count_from-get_or [] i d h n o = absurd (omega arith)
  count_from-get_or (x ∷ xs) zero d h (n, ns) (above, o) =
      omega (arith, count-All (λ v. A.le x v) (x ∷ xs) (n, above))
  count_from-get_or (x ∷ xs) (suc i) d h (n, ns) (above, o) =
      omega (arith, count_from-get_or xs i d (omega arith) ns o)

  le-get_or :
      (s : List Num) (i j : ℕ) (d : Num)
      → i < j
      → j < length s
      → IsSorted A s
      → A.le (get_or s i d) (get_or s j d) ≡ true
  le-get_or [] i j d h k o = absurd (omega arith)
  le-get_or (x ∷ xs) i zero d h k o = absurd (omega arith)
  le-get_or (x ∷ xs) zero (suc j) d h k (above, o) =
      All-get_or (λ y. A.le x y ≡ true) xs j d (omega arith) above
  le-get_or (x ∷ xs) (suc i) (suc j) d h k (above, o) =
      le-get_or xs i j d (omega arith) (omega arith) o

  -- Fit to be averaged: not negative, and not too large.
  pub record IsModest (top v : Num) : Type 0 where
    pub nonneg : A.le (nought A) v ≡ true
    pub small : A.le v top ≡ true

  IsModest-IsNumber : (top : Num) (vs : List Num) → All (IsModest top) vs → All (IsNumber A) vs
  IsModest-IsNumber top vs =
      All-map (IsModest top) (IsNumber A) vs λ v h. (ordered.number_of_le v top h.small).0

  module _ (top : Num) (averaging : IsAveraging A top) where
    middle_index_lem : (n : ℕ) → n < 2 ^ 24 → middle_index A n ≡ n / 2
    unfolding middle_index
    middle_index_lem n h = rw (averaging.halves n h) (omega arith)

    abbrev Splits : Num → List Num → Type 0
    Splits m s = (length s ≤ 2 * count_up_to m s) × (length s ≤ 2 * count_from m s)

    middle_value-odd :
        (s : List Num)
        → 0 < length s
        → All (IsModest top) s
        → IsSorted A s
        → Splits (get_or s (length s / 2) (nought A)) s
    middle_value-odd s h m o =
        let n = length s in
        let numbers = IsModest-IsNumber top s m in
        omega (
          arith,
          count_up_to-get_or s (n / 2) (nought A) (omega arith) numbers o,
          count_from-get_or s (n / 2) (nought A) (omega arith) numbers o,
        )

    middle_value-even :
        (s : List Num)
        → 0 < length s
        → length s % 2 ≡ 0
        → All (IsModest top) s
        → IsSorted A s
        → let n = length s in
          let hi = get_or s (n / 2) (nought A) in
          let lo = get_or s (n / 2 - 1) (nought A) in Splits (A.div (A.add hi lo) (A.decimal 2 0)) s
    middle_value-even s h e m o =
        let n = length s in
        let hi = get_or s (n / 2) (nought A) in
        let lo = get_or s (n / 2 - 1) (nought A) in
        let mean = A.div (A.add hi lo) (A.decimal 2 0) in
        let numbers = IsModest-IsNumber top s m in
        let modest_lo = All-get_or (IsModest top) s (n / 2 - 1) (nought A) (omega arith) m in
        let modest_hi = All-get_or (IsModest top) s (n / 2) (nought A) (omega arith) m in
        let lo_hi = le-get_or s (n / 2 - 1) (n / 2) (nought A) (omega arith) (omega arith) o in
        let (lo_mean, mean_hi) = averaging.between lo hi modest_lo.nonneg lo_hi modest_hi.small in
        omega (
          arith,
          count_up_to-get_or s (n / 2 - 1) (nought A) (omega arith) numbers o,
          count_from-get_or s (n / 2) (nought A) (omega arith) numbers o,
          count-le (λ v. A.le v lo) (λ v. A.le v mean) s
              (λ v p. ordered.le_trans v lo mean p lo_mean),
          count-le (λ v. A.le hi v) (λ v. A.le mean v) s
              (λ v p. ordered.le_trans mean hi v mean_hi p),
        )

    middle_value-Splits :
        (s : List Num)
        → 0 < length s
        → length s < 2 ^ 24
        → All (IsModest top) s
        → IsSorted A s
        → Splits (middle_value A s) s
    unfolding middle_value
    middle_value-Splits s h k m o =
        rw (middle_index_lem (length s) k) (elim (Bool-cases (length s % 2 == 0)) [
          | inl even ↦ rw even (middle_value-even s h (ground arith) m o)
          | inr odd ↦ rw odd (middle_value-odd s h m o)
        ])

    -- For values that are not negative, not NaN and not too large, fewer than 2^24 of them: at least half
    -- of the values are up to the median, and at least half are from it up.
    pub median_and_mad-Splits :
        (v : Num) (vs : List Num)
        → length (v ∷ vs) < 2 ^ 24
        → All (IsModest top) (v ∷ vs)
        → let values = v ∷ vs in
          let m = (median_and_mad A values).0 in
          (length values ≤ 2 * count_up_to m values) × (length values ≤ 2 * count_from m values)
    unfolding median_and_mad
    median_and_mad-Splits v vs k m =
        let values = v ∷ vs in
        let median = middle_value A (sort A values) in
        let same = length-sort A values in
        let splits =
          middle_value-Splits (sort A values) (omega arith) (omega arith)
            (All-sort A (IsModest top) values m)
            (sort-IsSorted A ordered values (IsModest-IsNumber top values m)) in
        omega (
          arith,
          splits,
          same,
          count-sort A (λ x. A.le x median) values,
          count-sort A (λ x. A.le median x) values,
        )
