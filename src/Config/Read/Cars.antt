-- ===== src/Config/Read/Cars.antt =====
-- The lines about cars in a file that `readConfigData` writes.
use ir_pit_crew.Prelude.{
  Bool, true, false, not, ◌&&◌, Bool-cases, Option-cases, inl, inr, ◌≡◌, refl, sym, ap, ◌∙◌, Option,
  none, some, List, [], ◌∷◌, ◌++◌, is_empty, arith, All, All-append, append_assoc, append-nil,
  if◌then◌else◌,
}
use ir_pit_crew.Prelude.Int.{ℤ}
use ir_pit_crew.Prelude.Number.{is_space}
use ir_pit_crew.Prelude.Text.{Text, Lacks, Lacks-append, text_eq_iff, starts_with-append}
use ir_pit_crew.Floats.{Floats}
use ir_pit_crew.Config.Attribute.{value_of}
use ir_pit_crew.Config.Attribute.Trim.{IsWord, trim-words}
use ir_pit_crew.Config.Read.{
  weight_base, weight_name, Reading, first_found, read_setting, read_line, read_lines, setting_line,
  flag_text, or_default, is_found, settings_of, is_new_car,
}
use ir_pit_crew.Config.Read.Kept.{
  weigh-snoc, IsSolid, weight_name-IsWord, IsCarLine, is_comment-car, weigh_line, weigh, IsKept,
}
use ir_pit_crew.Config.Read.Lines.{first_found-taken}
use ir_pit_crew.Config.Read.Written.{flag_text-IsWord, full}

module _ (F : Floats) (car : Text) (solid : IsSolid car)
    (printed : (x : F.double.Num) → IsWord (F.print_double x)) where
  open F use {double, atof, print_double}

  read_line-car :
      (a b c : Bool) (d : ℤ) (e : double.Num) (w : Option Bool) (cs : List Text) (l : Text)
      → IsCarLine l
      → read_line F car (full F car solid printed a b c d e w cs) l
        ≡ full F car solid printed a b c d e (weigh_line F car solid w l) (cs ++ l ∷ [])
  unfolding read_line read_setting first_found
  read_line-car a b c d e w cs l h =
      rw (h.trimmed, is_comment-car F l h.about_car, h.about_car) refl

  -- Kept lines about cars are read as they are.
  pub read_lines-cars :
      (a b c : Bool) (d : ℤ) (e : double.Num) (w : Option Bool) (cs ls : List Text)
      → All IsCarLine ls
      → read_lines F car (full F car solid printed a b c d e w cs) ls
        ≡ full F car solid printed a b c d e (weigh F car solid w ls) (cs ++ ls)
  unfolding read_lines
  read_lines-cars a b c d e w cs [] h =
      ap (full F car solid printed a b c d e w) (sym (append-nil cs))
  read_lines-cars a b c d e w cs (l ∷ ls) (h, hs) =
      let w' = weigh_line F car solid w l in
      ap (λ r. read_lines F car r ls) (read_line-car a b c d e w cs l h)
      ∙ read_lines-cars a b c d e w' (cs ++ l ∷ []) ls hs
      ∙ ap (full F car solid printed a b c d e (weigh F car solid w' ls))
          (append_assoc cs (l ∷ []) ls)

  -- The line of a car that is new.
  abbrev pub new_line : Reading F → List Text
  new_line r =
      if is_new_car F car r
      then setting_line F (weight_name car)
          (flag_text F (settings_of F r).display_car_fuel_as_weight)
        ∷ []
      else []

  -- With it, the lines about cars still decide the setting, and the car is no longer new.
  pub record IsComplete (r : Reading F) (ls : List Text) : Type 0 where
    pub cars : All IsCarLine ls
    pub value :
        or_default F (weigh F car solid none ls) false
        ≡ (settings_of F r).display_car_fuel_as_weight
    pub known : (not (is_found F (weigh F car solid none ls)) && not (is_empty car)) ≡ false

  weigh-nobody :
      (w : Option Bool) (ls : List Text) → is_empty car ≡ true → weigh F car solid w ls ≡ w
  weigh-nobody w [] h = refl
  weigh-nobody w (l ∷ ls) h = ap (λ w'. weigh F car solid w' ls) (rw h refl) ∙ weigh-nobody w ls h

  pub Lacks-solid : (s : Text) → IsSolid s → Lacks b'\n' s
  unfolding is_space
  Lacks-solid [] h = tt
  Lacks-solid (c ∷ s) (h, hs) = (ground (arith, h), Lacks-solid s hs)

  abbrev pub default_line : Text
  default_line = setting_line F (weight_name car) (flag_text F false)

  default_line-IsCarLine : IsCarLine default_line
  default_line-IsCarLine =
      let name = weight_name-IsWord car solid in
      let flag = flag_text-IsWord F car solid printed false in
      record {
        trimmed = trim-words (weight_name car) (flag_text F false) name flag;
        about_car = starts_with-append weight_base (b'_' ∷ (car ++ b' ' ∷ flag_text F false));
        one_line =
            Lacks-append b'\n' (weight_name car) (b' ' ∷ flag_text F false)
              (Lacks-solid (weight_name car) name.solid) (refl, (refl, tt));
      }

  weigh-default_line : is_empty car ≡ false → weigh_line F car solid none default_line ≡ some false
  unfolding value_of
  weigh-default_line h =
      let name = weight_name-IsWord car solid in
      let flag = flag_text-IsWord F car solid printed false in
      rw
        (
          h,
          first_found-taken F car solid none (λ v. v.is_set) (weight_name car) (flag_text F false)
              (weight_name car) name flag name,
          (text_eq_iff (weight_name car) (weight_name car)).1 refl,
        )
        refl

  pub new_line-IsComplete :
      (r : Reading F) → IsKept F car solid r → IsComplete r (r.car_settings ++ new_line r)
  unfolding settings_of is_new_car
  new_line-IsComplete r h = elim (Bool-cases (is_empty car)) [
    | inl nobody ↦
        let unset = h.decided ∙ weigh-nobody none r.car_settings nobody in
        let same = weigh-nobody none (r.car_settings ++ new_line r) nobody in
        record {
          cars = rw (unset, nobody, append-nil) h.cars;
          value = rw (same, unset) refl;
          known = rw (same, nobody) refl;
        }
    | inr driver ↦ elim (Option-cases r.weight) [
      | inl new ↦
          let set =
            weigh-snoc F car solid none r.car_settings default_line
            ∙ ap (λ w. weigh_line F car solid w default_line) (sym h.decided ∙ new)
            ∙ weigh-default_line driver in
          record {
            cars =
                rw (new, driver)
                  (All-append IsCarLine r.car_settings (default_line ∷ []) h.cars
                    (default_line-IsCarLine, tt));
            value = rw (new, driver, set) refl;
            known = rw (new, driver, set) refl;
          }
      | inr (b, old) ↦
          let set = sym h.decided ∙ old in
          record {
            cars = rw (old, append-nil) h.cars;
            value = rw (old, append-nil, set) refl;
            known = rw (old, append-nil, set) refl;
          }
    ]
  ]
