-- ===== src/Plugin/Race/Bounds.antt =====
-- What the limits of a session promise.
use ir_pit_crew.Prelude.{
  ◌≡◌, Bool, true, false, Bool-cases, ◌⊎◌, inl, inr, refl, ◌∙◌, arith, some, if◌then◌else◌,
}
use mathlib.Core.Path.{subst}
use ir_pit_crew.Prelude.Int.{ℤ, le_ℤ}
use ir_pit_crew.Prelude.Text.{Text, codes, text_eq}
use ir_pit_crew.Prelude.Number.{atoi}
use ir_pit_crew.Dict.{Dict}
use ir_pit_crew.Floats.{minus_one, Floats, IsNumber, IsOrdered, nought}
use ir_pit_crew.Plugin.Race.{
  Limits, limits_by_time, limits_by_laps, not_below_zero, driver_lap_of, unlimited_laps,
  race_laps_remain, lap_step_of, lap_step, time_step, race_limits,
}
use ir_pit_crew.Plugin.Update.Published.{Holds, bind-Holds, chain-Holds}

module _ (F : Floats) (ordered : IsOrdered F.double) where
  open F use {single, double}
  open ordered use {le_total, lt-eq-not-le, nought_number, number_of_le}

  nought_not_below : double.lt (nought double) (nought double) ≡ false
  nought_not_below =
      lt-eq-not-le (nought double) (nought double) nought_number nought_number ∙ rw (nought_number)

  not_below_zero_lem : (x : double.Num) → double.lt (not_below_zero F x) (nought double) ≡ false
  not_below_zero_lem x = elim (Bool-cases (double.lt x (nought double))) [
    | inl e ↦ rw e nought_not_below
    | inr e ↦ rw e e
  ]

  le_of_not :
      (a b : double.Num)
      → IsNumber double a
      → IsNumber double b
      → double.le a b ≡ false
      → double.le b a ≡ true
  le_of_not a b ha hb e = elim (le_total a b ha hb) [ inl h ↦ ground arith | inr h ↦ h ]

  abbrev IsNotBelowZero : Limits F → Type 0
  IsNotBelowZero l =
      (double.lt l.remaining_time (nought double) ≡ false)
      × (double.lt l.remaining_laps_min (nought double) ≡ false)
      × (double.lt l.remaining_laps_max (nought double) ≡ false)

  -- No times are set.
  abbrev IsTimeless : Limits F → Type 0
  IsTimeless l =
      (l.total_time ≡ minus_one double)
      × (l.remaining_time ≡ minus_one double)
      × (l.elapsed_time ≡ minus_one double)

  limits_by_time_stop :
      (total : Text) (remain : double.Num) (lap_time : single.Num)
      → IsNotBelowZero (limits_by_time F total remain lap_time)
  unfolding limits_by_time
  limits_by_time_stop total remain lap_time =
      (not_below_zero_lem _, not_below_zero_lem _, not_below_zero_lem _)

  -- The limits are by time and not below zero, or those of a race by laps, with no times.
  abbrev IsShown : Text → Limits F → Type 0
  IsShown laps l =
      IsNotBelowZero l
      ⊎ ((text_eq laps (codes "unlimited") ≡ false)
          × IsTimeless l
          × (l.total_laps_max ≡ double.of_int (atoi laps))
          × (l.remaining_laps_min ≡ l.remaining_laps_max))

  limits_by_laps-IsShown :
      (laps : Text) (remain : ℤ) (l : Limits F)
      → text_eq laps (codes "unlimited") ≡ false
      → IsNotBelowZero l
      → IsShown laps (limits_by_laps F (atoi laps) remain l)
  unfolding limits_by_laps
  limits_by_laps-IsShown laps remain l set h =
      elim (Bool-cases (double.lt (double.of_int remain) l.remaining_laps_max)) [
        | inl closer ↦ rw (h.2, closer) (inr (set, (refl, refl, refl), refl, refl))
        | inr farther ↦ rw (h.2, farther) (inl h)
      ]

  lap_step_of-IsShown :
      (use_driver : Bool) (laps : Text) (left : ℤ) (m : Dict) (l : Limits F)
      → text_eq laps (codes "unlimited") ≡ false
      → IsNotBelowZero l
      → Holds (IsShown laps) (lap_step_of F use_driver (atoi laps) left m l)
  unfolding lap_step_of
  lap_step_of-IsShown use_driver laps left m l set h =
      elim (Bool-cases (if le_ℤ left unlimited_laps then le_ℤ unlimited_laps left else false)) [
        | inl unlimited ↦ rw unlimited (inl h)
        | inr given ↦ rw given (
            bind-Holds (IsShown laps) (driver_lap_of F use_driver m) _ (λ lap.
              limits_by_laps-IsShown laps (race_laps_remain F use_driver (atoi laps) left lap) l set
                h))
      ]

  lap_step-IsShown :
      (use_driver : Bool) (laps : Text) (m : Dict) (l : Limits F)
      → IsNotBelowZero l
      → Holds (IsShown laps) (lap_step F use_driver laps m l)
  unfolding lap_step
  lap_step-IsShown use_driver laps m l h = elim (Bool-cases (text_eq laps (codes "unlimited"))) [
    | inl none_set ↦ rw none_set (inl h)
    | inr set ↦
        rw set (
          bind-Holds (IsShown laps) _ _
            (λ left. lap_step_of-IsShown use_driver laps left m l set h))
  ]

  time_step-stop :
      (time : Text) (m : Dict) (lap_time : single.Num)
      → text_eq time (codes "unlimited") ≡ false
      → Holds IsNotBelowZero (time_step F time m lap_time)
  unfolding time_step
  time_step-stop time m lap_time limited =
      rw limited (bind-Holds IsNotBelowZero _ _ (λ left. limits_by_time_stop time left lap_time))

  -- In a session with a limit on its time, the limits that an update shows are of one of two kinds:
  -- neither the time nor the laps that remain are below zero; or, with a limit on the laps too, all
  -- times are -1, the laps of the session are the limit, and there is one number of laps that remain.
  pub race_limits-shown :
      (use_driver : Bool) (laps time : Text) (m : Dict) (lap_time : single.Num) (l : Limits F)
      → text_eq time (codes "unlimited") ≡ false
      → race_limits F use_driver laps time m lap_time ≡ some l
      → IsNotBelowZero l
        ⊎ ((text_eq laps (codes "unlimited") ≡ false)
            × IsTimeless l
            × (l.total_laps_max ≡ double.of_int (atoi laps))
            × (l.remaining_laps_min ≡ l.remaining_laps_max))
  unfolding race_limits
  race_limits-shown use_driver laps time m lap_time l limited e = subst (Holds (IsShown laps)) e (
      chain-Holds IsNotBelowZero (IsShown laps) (time_step F time m lap_time) _
        (time_step-stop time m lap_time limited) (λ l k. lap_step-IsShown use_driver laps m l k))

  -- With limits on the time and on the laps, the smaller number of laps counts: the remaining laps
  -- are one of the two numbers, and neither number is below it, as long as the laps by time are
  -- not below zero and neither number is NaN.
  pub limits_by_laps_smallest :
      (session laps : ℤ) (l : Limits F)
      → IsNumber double l.remaining_laps_max
      → IsNumber double (double.of_int laps)
      → double.lt l.remaining_laps_max (nought double) ≡ false
      → let m = (limits_by_laps F session laps l).remaining_laps_max in
        ((m ≡ l.remaining_laps_max) ⊎ (m ≡ double.of_int laps))
        × (double.le m l.remaining_laps_max ≡ true)
        × (double.le m (double.of_int laps) ≡ true)
  unfolding limits_by_laps
  limits_by_laps_smallest session laps l n k h =
      let here = double.of_int laps in
      let split = lt-eq-not-le here l.remaining_laps_max k n in
      rw h (elim (Bool-cases (double.le l.remaining_laps_max here)) [
        | inl e ↦ rw (split, e) (inl refl, n, e)
        | inr e ↦ rw (split, e) (inr refl, le_of_not l.remaining_laps_max here n k e, k)
      ])
