-- ===== src/LapFuel/Laps/Window.antt =====
-- Which laps are kept: the window that the lists are.
use ir_pit_crew.Prelude.{
  ℕ, zero, suc, ◌+◌, ◌-◌, ◌<◌, ◌≤◌, ◌≡◌, refl, sym, ap, ◌∙◌, List, [], ◌∷◌, ◌++◌, arith, ltb,
  length, length-append, drop, map, append_assoc, append-nil, if◌then◌else◌, Bool-cases, inl, inr,
}
use mathlib.Core.List.{map-append}
use ir_pit_crew.Floats.{Floats, nought, minus_one}
use ir_pit_crew.LapFuel.{LapFuelData}
use ir_pit_crew.LapFuel.Laps.{pop_front, make_room, add_lap_data, add_laps}

module _ {ℓ} {A : Type ℓ} where
  -- The last `n` elements, or all if there are fewer.
  abbrev pub last_n : ℕ → List A → List A
  last_n n xs = drop (length xs - n) xs

  length-drop : (n : ℕ) (xs : List A) → length (drop n xs) ≡ length xs - n
  length-drop zero xs = omega arith
  length-drop (suc n) [] = omega arith
  length-drop (suc n) (x ∷ xs) = omega (arith, length-drop n xs)

  pop_front-drop : (n : ℕ) (xs : List A) → pop_front (drop n xs) ≡ drop (suc n) xs
  pop_front-drop zero [] = refl
  pop_front-drop zero (x ∷ xs) = refl
  pop_front-drop (suc n) [] = refl
  pop_front-drop (suc n) (x ∷ xs) = pop_front-drop n xs

  drop-append : (n : ℕ) (xs ys : List A) → n ≤ length xs → drop n (xs ++ ys) ≡ drop n xs ++ ys
  drop-append zero xs ys h = refl
  drop-append (suc n) [] ys h = absurd (omega arith)
  drop-append (suc n) (x ∷ xs) ys h = drop-append n xs ys (omega arith)

  make_room-full :
      (max : ℕ) (xs : List A) → 0 < max → max < length xs → make_room max xs ≡ pop_front xs
  unfolding make_room
  make_room-full max xs h k = ground arith

  make_room-room : (max : ℕ) (xs : List A) → length xs ≤ max → make_room max xs ≡ xs
  unfolding make_room
  make_room-room max xs h = ground arith

  -- With a maximum, a window of one more than it moves on by one.
  push-last_n :
      (max : ℕ) (xs : List A) (x : A)
      → 0 < max
      → make_room max (last_n (suc max) xs) ++ x ∷ [] ≡ last_n (suc max) (xs ++ x ∷ [])
  push-last_n max xs x h =
      let n = length xs - suc max in
      let more : length (xs ++ x ∷ []) ≡ length xs + 1 = length-append xs (x ∷ []) in
      let kept : length (drop n xs) ≡ length xs - n = length-drop n xs in
      elim (Bool-cases (ltb max (length xs))) [
        | inl full ↦
            let e : length (xs ++ x ∷ []) - suc max ≡ suc n = ground arith in
            rw
              (
                make_room-full max (drop n xs) h (ground arith),
                pop_front-drop n xs,
                e,
                drop-append (suc n) xs (x ∷ []) (ground arith),
              )
              refl
        | inr room ↦
            let e : length (xs ++ x ∷ []) - suc max ≡ 0 = ground arith in
            let e' : n ≡ 0 = ground arith in rw (e, e', make_room-room max xs (ground arith)) refl
      ]

module _ (F : Floats) where
  open F use {single}

  -- The laps that the calls record, with the fuel that each took.
  abbrev pub recorded :
      LapFuelData F → List (single.Num × single.Num) → List (single.Num × single.Num)
  recorded d [] = []
  recorded d ((t, f) ∷ laps) =
      let rest = recorded (add_lap_data F d t f).0 laps in
      if (add_lap_data F d t f).1 then (t, single.sub d.last_fuel f) ∷ rest else rest

  abbrev pub times_of : List (single.Num × single.Num) → List single.Num
  times_of = map (λ l. l.0)

  abbrev pub fuels_of : List (single.Num × single.Num) → List single.Num
  fuels_of = map (λ l. l.1)

  -- Both lists are the last laps of a history, at most one more than the maximum.
  pub record IsWindow (d : LapFuelData F) (history : List (single.Num × single.Num)) : Type 0 where
    pub has_max : 0 < d.data_count_max
    pub times : d.lap_times ≡ last_n (suc d.data_count_max) (times_of history)
    pub fuels : d.lap_fuels ≡ last_n (suc d.data_count_max) (fuels_of history)

  record-IsWindow :
      (d : LapFuelData F) (history : List (single.Num × single.Num)) (t u f : single.Num)
      → IsWindow d history
      → IsWindow
          (record d {
            last_fuel = f;
            lap_times = make_room d.data_count_max d.lap_times ++ t ∷ [];
            lap_fuels = make_room d.data_count_max d.lap_fuels ++ u ∷ [];
          })
          (history ++ (t, u) ∷ [])
  record-IsWindow d history t u f w = record {
    has_max = w.has_max;
    times =
        ap (λ l. make_room d.data_count_max l ++ t ∷ []) w.times
        ∙ push-last_n d.data_count_max (times_of history) t w.has_max
        ∙ ap (last_n (suc d.data_count_max)) (sym (map-append (λ l. l.0) history ((t, u) ∷ [])));
    fuels =
        ap (λ l. make_room d.data_count_max l ++ u ∷ []) w.fuels
        ∙ push-last_n d.data_count_max (fuels_of history) u w.has_max
        ∙ ap (last_n (suc d.data_count_max)) (sym (map-append (λ l. l.1) history ((t, u) ∷ [])));
  }

  skip-IsWindow :
      (d : LapFuelData F) (history : List (single.Num × single.Num)) (f : single.Num)
      → IsWindow d history
      → IsWindow (record d { last_fuel = f }) (history ++ [])
  skip-IsWindow d history f w =
      rw (append-nil history) (record { has_max = w.has_max; times = w.times; fuels = w.fuels })

  -- A call moves the window on by the lap that it records, if any.
  add_lap_data-IsWindow :
      (d : LapFuelData F) (history : List (single.Num × single.Num)) (t f : single.Num)
      → IsWindow d history
      → IsWindow (add_lap_data F d t f).0 (history ++ recorded d ((t, f) ∷ []))
  unfolding add_lap_data
  add_lap_data-IsWindow d history t f w = elim (Bool-cases (single.lt f (nought single))) [
    | inl negative ↦ rw negative (skip-IsWindow d history (minus_one single) w)
    | inr ok ↦ rw ok (elim (Bool-cases (single.le t (nought single))) [
      | inl no_time ↦ rw no_time (skip-IsWindow d history f w)
      | inr timed ↦ rw timed (elim (Bool-cases (single.le d.last_fuel f)) [
        | inl refuelled ↦ rw refuelled (skip-IsWindow d history f w)
        | inr used ↦ rw used (record-IsWindow d history t (single.sub d.last_fuel f) f w)
      ])
    ])
  ]

  recorded-cons :
      (d : LapFuelData F) (t f : single.Num) (laps : List (single.Num × single.Num))
      → recorded d ((t, f) ∷ laps)
        ≡ recorded d ((t, f) ∷ []) ++ recorded (add_lap_data F d t f).0 laps
  recorded-cons d t f laps = elim (Bool-cases (add_lap_data F d t f).1) [
    | inl yes' ↦ rw yes' refl
    | inr no' ↦ rw no' refl
  ]

  -- While the maximum is set and stays as it is, and the lists are the last laps of a history, they
  -- stay so as more laps are reported: the last ones of all that were recorded, in their order,
  -- with one more lap than the maximum once there are so many.
  pub add_laps-IsWindow :
      (laps : List (single.Num × single.Num)) (d : LapFuelData F)
      (history : List (single.Num × single.Num))
      → IsWindow d history
      → IsWindow (add_laps F d laps) (history ++ recorded d laps)
  unfolding add_laps
  add_laps-IsWindow [] d history w = rw (append-nil history) w
  add_laps-IsWindow ((t, f) ∷ laps) d history w =
      rw (recorded-cons d t f laps, ← append_assoc)
        (add_laps-IsWindow laps (add_lap_data F d t f).0 (history ++ recorded d ((t, f) ∷ []))
          (add_lap_data-IsWindow d history t f w))
