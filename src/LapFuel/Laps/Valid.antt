-- ===== src/LapFuel/Laps/Valid.antt =====
-- What a recorded lap is, and what every recorded lap satisfies.
use ir_pit_crew.Prelude.{
  ℕ, ◌≡◌, true, false, List, [], ◌∷◌, ◌++◌, arith, length, length-append, All, All-append,
  Bool-cases, inl, inr, ◌↔◌,
}
use ir_pit_crew.Floats.{Floats, nought, IsNumber, IsOrdered, IsMonotone}
use ir_pit_crew.LapFuel.{LapFuelData}
use ir_pit_crew.LapFuel.Laps.{make_room, add_lap_data}

module _ (F : Floats) where
  open F use {single}

  abbrev pub IsPositive : single.Num → Type 0
  IsPositive x = single.lt (nought single) x ≡ true

  -- One time and one amount of fuel for each lap, all above zero.
  pub record IsValid (d : LapFuelData F) : Type 0 where
    pub paired : length d.lap_times ≡ length d.lap_fuels
    pub times : All IsPositive d.lap_times
    pub fuels : All IsPositive d.lap_fuels
    pub last : IsNumber single d.last_fuel

length-make_room {ℓ κ} :
    {A : Type ℓ} {B : Type κ} (max : ℕ) (xs : List A) (ys : List B)
    → length xs ≡ length ys
    → length (make_room max xs) ≡ length (make_room max ys)
unfolding make_room
length-make_room max [] [] e = ground arith
length-make_room max [] (y ∷ ys) e = absurd (omega arith)
length-make_room max (x ∷ xs) [] e = absurd (omega arith)
length-make_room max (x ∷ xs) (y ∷ ys) e = ground arith

All-make_room {ℓ κ} :
    {A : Type ℓ} (P : A → Type κ) (max : ℕ) (xs : List A) → All P xs → All P (make_room max xs)
unfolding make_room
All-make_room P max [] h = ground arith
All-make_room P max (x ∷ xs) (h, hs) = ground arith

length-push {ℓ κ} :
    {A : Type ℓ} {B : Type κ} (xs : List A) (ys : List B) (x : A) (y : B)
    → length xs ≡ length ys
    → length (xs ++ x ∷ []) ≡ length (ys ++ y ∷ [])
length-push xs ys x y e = omega (arith, length-append xs (x ∷ []), length-append ys (y ∷ []))

module _ (F : Floats) (ordered : IsOrdered F.single) (monotone : IsMonotone F.single) where
  open F use {single}

  -- A lap is recorded exactly when the fuel is not negative and below the fuel at the end of the lap
  -- before, and the lap time is above zero. (None of these numbers is NaN.)
  pub add_lap_data_iff :
      (d : LapFuelData F) (t f : single.Num)
      → IsNumber single d.last_fuel
      → IsNumber single t
      → IsNumber single f
      → ((add_lap_data F d t f).1 ≡ true)
        ↔ ((single.le (nought single) f ≡ true) × IsPositive F t × (single.lt f d.last_fuel ≡ true))
  unfolding add_lap_data
  add_lap_data_iff d t f nd nt nf = ground (
    arith,
    ordered.lt-eq-not-le f (nought single) nf ordered.nought_number,
    ordered.lt-eq-not-le (nought single) t ordered.nought_number nt,
    ordered.lt-eq-not-le f d.last_fuel nf nd,
  )

  above :
      (a b : single.Num)
      → IsNumber single b
      → IsNumber single a
      → single.le a b ≡ false
      → single.lt b a ≡ true
  above a b nb na h = ground (arith, ordered.lt-eq-not-le b a nb na)

  -- Each call keeps one lap time and one amount of fuel for each lap, all above zero, if the
  -- simulator's numbers are not NaN.
  pub add_lap_data-IsValid :
      (d : LapFuelData F) (t f : single.Num)
      → IsNumber single t
      → IsNumber single f
      → IsValid F d
      → IsValid F (add_lap_data F d t f).0
  unfolding add_lap_data
  add_lap_data-IsValid d t f nt nf v = elim (Bool-cases (single.lt f (nought single))) [
    | inl negative ↦ rw negative (record {
      paired = v.paired;
      times = v.times;
      fuels = v.fuels;
      last = ordered.minus_one_number;
    })
    | inr ok ↦ rw ok (elim (Bool-cases (single.le t (nought single))) [
      | inl no_time ↦
          rw no_time (record { paired = v.paired; times = v.times; fuels = v.fuels; last = nf })
      | inr timed ↦ rw timed (elim (Bool-cases (single.le d.last_fuel f)) [
        | inl refuelled ↦
            rw refuelled (record { paired = v.paired; times = v.times; fuels = v.fuels; last = nf })
        | inr used ↦ rw used (record {
          paired =
              length-push (make_room d.data_count_max d.lap_times)
                (make_room d.data_count_max d.lap_fuels) t (single.sub d.last_fuel f)
                (length-make_room d.data_count_max d.lap_times d.lap_fuels v.paired);
          times =
              All-append (IsPositive F) (make_room d.data_count_max d.lap_times) (t ∷ [])
                (All-make_room (IsPositive F) d.data_count_max d.lap_times v.times)
                (above t (nought single) ordered.nought_number nt timed, tt);
          fuels =
              All-append (IsPositive F) (make_room d.data_count_max d.lap_fuels)
                (single.sub d.last_fuel f ∷ [])
                (All-make_room (IsPositive F) d.data_count_max d.lap_fuels v.fuels)
                (monotone.sub_pos f d.last_fuel (above d.last_fuel f nf v.last used), tt);
          last = nf;
        })
      ])
    ])
  ]
