-- ===== src/Config/Read/LineBreaks.antt =====
-- Line breaks and the lines that `readConfigData` writes.
use ir_pit_crew.Prelude.{
  All-map, Bool, true, not, ◌&&◌, ◌≡◌, refl, List, [], ◌∷◌, ◌++◌, ◌==◌, arith, All, All-append,
  append_assoc,
}
use ir_pit_crew.Prelude.Number.{show_int}
use ir_pit_crew.Prelude.Text.{Text, Lacks, Lacks-append}
use mathlib.Core.Path.{subst}
use ir_pit_crew.Floats.{Floats}
use ir_pit_crew.Config.Attribute.Trim.{IsWord}
use ir_pit_crew.Config.Template.{
  preamble, imperial_notes, laps_notes, skip_notes, port_notes, extra_notes, car_notes,
}
use ir_pit_crew.Config.Read.{
  imperial_name, driver_laps_name, skip_clear_name, port_name, extra_laps_name, Reading,
  setting_line, flag_text, settings_of, file_lines,
}
use ir_pit_crew.Config.Read.Kept.{IsSolid, IsCarLine}
use ir_pit_crew.Config.Read.Written.{show_int-IsWord, flag_text-IsWord}
use ir_pit_crew.Config.Read.Cars.{Lacks-solid, IsComplete, new_line}

abbrev has_no_break : Text → Bool
has_no_break [] = true
has_no_break (c ∷ s) = not (c == b'\n') && has_no_break s

-- No line break in any line.
abbrev are_lines : List Text → Bool
are_lines [] = true
are_lines (l ∷ ls) = has_no_break l && are_lines ls

Lacks-break : (l : Text) → has_no_break l ≡ true → Lacks b'\n' l
Lacks-break [] h = tt
Lacks-break (c ∷ s) h = (ground (arith, h), Lacks-break s (ground (arith, h)))

Lacks-lines : (ls : List Text) → are_lines ls ≡ true → All (Lacks b'\n') ls
Lacks-lines [] h = tt
Lacks-lines (l ∷ ls) h = (Lacks-break l (ground (arith, h)), Lacks-lines ls (ground (arith, h)))

-- Notes and the line of a setting.
Lacks-setting :
    (notes : List Text) (name value : Text) (rest : List Text)
    → are_lines notes ≡ true
    → has_no_break name ≡ true
    → Lacks b'\n' value
    → All (Lacks b'\n') rest
    → All (Lacks b'\n') (notes ++ (name ++ b' ' ∷ value) ∷ rest)
Lacks-setting notes name value rest q n v h =
    All-append (Lacks b'\n') notes ((name ++ b' ' ∷ value) ∷ rest) (Lacks-lines notes q)
      (Lacks-append b'\n' name (b' ' ∷ value) (Lacks-break name n) (refl, v), h)

All-mono : (ls : List Text) → All IsCarLine ls → All (Lacks b'\n') ls
All-mono ls h = All-map IsCarLine (Lacks b'\n') ls (λ l k. k.one_line) h

module _ (F : Floats) (car : Text) (solid : IsSolid car)
    (printed : (x : F.double.Num) → IsWord (F.print_double x)) where
  open F use {double, atof, print_double}

  pub Lacks-file_lines :
      (r : Reading F)
      → IsComplete F car solid printed r (r.car_settings ++ new_line F car solid printed r)
      → All (Lacks b'\n') (file_lines F car r)
  unfolding file_lines
  Lacks-file_lines r h =
      let s = settings_of F r in
      let word = Lacks-solid F car solid printed in
      let flag : (b : Bool) → Lacks b'\n' (flag_text F b) =
        λ b. word (flag_text F b) (flag_text-IsWord F car solid printed b).solid in
      let cars : All (Lacks b'\n') (r.car_settings ++ (new_line F car solid printed r ++ [] ∷ [])) =
        subst (All (Lacks b'\n'))
          (append_assoc r.car_settings (new_line F car solid printed r) ([] ∷ []))
          (All-append (Lacks b'\n') (r.car_settings ++ new_line F car solid printed r) ([] ∷ [])
            (All-mono _ h.cars) (tt, tt)) in
      let t6 = car_notes ++ (r.car_settings ++ (new_line F car solid printed r ++ [] ∷ [])) in
      let l5 = setting_line F extra_laps_name (print_double s.extra_laps_of_fuel) in
      let t5 = extra_notes ++ l5 ∷ t6 in
      let t4 = port_notes ++ setting_line F port_name (show_int s.server_port) ∷ t5 in
      let t3 =
        skip_notes ++ setting_line F skip_clear_name (flag_text F s.skip_clear_on_apply) ∷ t4 in
      let l2 = setting_line F driver_laps_name (flag_text F s.use_driver_laps_remaining) in
      let t2 = laps_notes ++ l2 ∷ t3 in
      let l1 = setting_line F imperial_name (flag_text F s.display_fuel_imperial) in
      let t1 = imperial_notes ++ l1 ∷ t2 in
      All-append (Lacks b'\n') preamble t1 (Lacks-lines preamble refl) (
        Lacks-setting imperial_notes imperial_name _ t2 refl refl (flag s.display_fuel_imperial) (
          Lacks-setting laps_notes driver_laps_name _ t3 refl refl
            (flag s.use_driver_laps_remaining)
            (Lacks-setting skip_notes skip_clear_name _ t4 refl refl (flag s.skip_clear_on_apply) (
              Lacks-setting port_notes port_name _ t5 refl refl
                (word (show_int s.server_port) (show_int-IsWord s.server_port).solid)
                (Lacks-setting extra_notes extra_laps_name _ t6 refl refl
                  (word (print_double s.extra_laps_of_fuel) (printed s.extra_laps_of_fuel).solid)
                  (All-append (Lacks b'\n') car_notes _ (Lacks-lines car_notes refl) cars))))))
