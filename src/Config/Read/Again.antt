-- ===== src/Config/Read/Again.antt =====
-- `readConfigData` on a file that it has written.
use ir_pit_crew.Prelude.{
  Bool, true, false, ◌≡◌, refl, sym, ap, ◌∙◌, Option, none, some, List, [], ◌∷◌, ◌++◌, All,
  append_assoc, if◌then◌else◌,
}
use ir_pit_crew.Prelude.Int.{ℤ}
use ir_pit_crew.Prelude.Number.{is_space, skip_spaces}
use ir_pit_crew.Prelude.Text.{Text, text_eq_iff, getlines, put_lines, getlines-put_lines}
use ir_pit_crew.Floats.{Floats}
use ir_pit_crew.LapFuel.Files.{Storage, write_file}
use ir_pit_crew.Config.Attribute.{trim, ltrim, rtrim}
use ir_pit_crew.Config.Attribute.Trim.{IsWord}
use ir_pit_crew.Config.Attribute.Trimmed.{Lacks-getlines}
use ir_pit_crew.Config.Template.{
  preamble, imperial_notes, laps_notes, skip_notes, port_notes, extra_notes, car_notes,
}
use ir_pit_crew.Config.Read.{
  Reading, nothing_read, is_comment, read_line, read_lines, settings_of, is_new_car,
  is_update_required, file_lines, read_file, read_config_data,
}
use ir_pit_crew.Config.Read.Kept.{IsSolid, IsCarLine, weigh, IsKept, read_lines-IsKept}
use ir_pit_crew.Config.Read.Lines.{are_quiet, read_lines-quiet, read_lines-notes, read_lines-append}
use ir_pit_crew.Config.Read.Written.{
  full, after_imperial, after_laps, after_skip, after_port, line_imperial, line_laps, line_skip,
  line_port, line_extra,
}
use ir_pit_crew.Config.Read.Cars.{IsComplete, new_line, read_lines-cars, new_line-IsComplete}
use ir_pit_crew.Config.Read.LineBreaks.{Lacks-file_lines}

module _ (F : Floats) (car : Text) (solid : IsSolid car)
    (printed : (x : F.double.Num) → IsWord (F.print_double x)) where
  open F use {double, atof, print_double}

  notes-quiet :
      (are_quiet F car solid preamble ≡ true)
      × (are_quiet F car solid imperial_notes ≡ true)
      × (are_quiet F car solid laps_notes ≡ true)
      × (are_quiet F car solid skip_notes ≡ true)
      × (are_quiet F car solid port_notes ≡ true)
      × (are_quiet F car solid extra_notes ≡ true)
      × (are_quiet F car solid car_notes ≡ true)
  unfolding is_comment trim ltrim rtrim skip_spaces is_space
  notes-quiet = (refl, refl, refl, refl, refl, refl, refl)

  -- Notes and the line of a setting.
  read_lines-setting :
      (r r' : Reading F) (notes : List Text) (l : Text) (rest : List Text)
      → are_quiet F car solid notes ≡ true
      → read_line F car r l ≡ r'
      → read_lines F car r (notes ++ l ∷ rest) ≡ read_lines F car r' rest
  unfolding read_lines
  read_lines-setting r r' notes l rest q e =
      read_lines-notes F car solid r notes (l ∷ rest) q ∙ ap (λ x. read_lines F car x rest) e

  -- The lines about cars, and the empty one behind them.
  read_lines-end :
      (a b c : Bool) (d : ℤ) (e : double.Num) (cs new : List Text)
      → All IsCarLine (cs ++ new)
      → read_lines F car (full F car solid printed a b c d e none []) (cs ++ (new ++ [] ∷ []))
        ≡ full F car solid printed a b c d e (weigh F car solid none (cs ++ new)) (cs ++ new)
  unfolding is_comment trim ltrim rtrim skip_spaces
  read_lines-end a b c d e cs new h =
      ap (read_lines F car (full F car solid printed a b c d e none []))
        (sym (append_assoc cs new ([] ∷ [])))
      ∙ read_lines-append F car solid (full F car solid printed a b c d e none []) (cs ++ new)
          ([] ∷ [])
      ∙ read_lines-quiet F car solid _ ([] ∷ []) refl
      ∙ read_lines-cars F car solid printed a b c d e none [] (cs ++ new) h

  -- All settings as they were written; the laps of fuel as they are printed and read.
  abbrev reread_of : Reading F → Reading F
  reread_of r =
      let s = settings_of F r in
      let ls = r.car_settings ++ new_line F car solid printed r in
      full F car solid printed s.display_fuel_imperial s.use_driver_laps_remaining
        s.skip_clear_on_apply s.server_port (atof (print_double s.extra_laps_of_fuel))
        (weigh F car solid none ls) ls

  read_lines-file_lines :
      (r : Reading F)
      → IsComplete F car solid printed r (r.car_settings ++ new_line F car solid printed r)
      → read_lines F car (nothing_read F) (file_lines F car r) ≡ reread_of r
  unfolding file_lines
  read_lines-file_lines r h =
      let s = settings_of F r in
      let (q0, q1, q2, q3, q4, q5, q6) = notes-quiet in
      let a = s.display_fuel_imperial in
      let b = s.use_driver_laps_remaining in
      let c = s.skip_clear_on_apply in
      let d = s.server_port in
      let e = s.extra_laps_of_fuel in
      read_lines-notes F car solid (nothing_read F) preamble _ q0
      ∙ read_lines-setting (nothing_read F) (after_imperial F car solid printed a) imperial_notes _
          _ q1 (line_imperial F car solid printed a)
      ∙ read_lines-setting _ (after_laps F car solid printed a b) laps_notes _ _ q2
          (line_laps F car solid printed a b)
      ∙ read_lines-setting _ (after_skip F car solid printed a b c) skip_notes _ _ q3
          (line_skip F car solid printed a b c)
      ∙ read_lines-setting _ (after_port F car solid printed a b c d) port_notes _ _ q4
          (line_port F car solid printed a b c d)
      ∙ read_lines-setting _ (full F car solid printed a b c d (atof (print_double e)) none [])
          extra_notes _ _ q5 (line_extra F car solid printed a b c d e)
      ∙ read_lines-notes F car solid _ car_notes _ q6
      ∙ read_lines-end a b c d (atof (print_double e)) r.car_settings
          (new_line F car solid printed r) h.cars

  -- Whatever was read, the lines about cars are kept.
  read_file-IsKept : (file : Option Text) → IsKept F car solid (read_file F car file).0
  unfolding read_file
  read_file-IsKept none = record { cars = tt; decided = refl }
  read_file-IsKept (some content) =
      read_lines-IsKept F car solid (nothing_read F) (getlines b'\n' content)
        (Lacks-getlines b'\n' content) (record { cars = tt; decided = refl })

  is_update_required-reread :
      (r : Reading F)
      → IsComplete F car solid printed r (r.car_settings ++ new_line F car solid printed r)
      → is_update_required F car (reread_of r) ≡ false
  unfolding is_update_required is_new_car
  is_update_required-reread r h = h.known

  -- The file that was written, read again.
  read_file-file_lines :
      (r : Reading F)
      → IsComplete F car solid printed r (r.car_settings ++ new_line F car solid printed r)
      → read_file F car (some (put_lines (file_lines F car r))) ≡ (reread_of r, false)
  unfolding read_file
  read_file-file_lines r h =
      rw
        (
          getlines-put_lines (file_lines F car r) (Lacks-file_lines F car solid printed r h),
          read_lines-file_lines r h,
          is_update_required-reread r h,
        )
        refl

  -- The settings of what is read again.
  settings_of-reread :
      (r : Reading F)
      → IsComplete F car solid printed r (r.car_settings ++ new_line F car solid printed r)
      → settings_of F (reread_of r) ≡ record (settings_of F r) {
        extra_laps_of_fuel = atof (print_double (settings_of F r).extra_laps_of_fuel);
      }
  unfolding settings_of
  settings_of-reread r h =
      ap
        (λ w. record (settings_of F r) {
          extra_laps_of_fuel = atof (print_double (settings_of F r).extra_laps_of_fuel);
          display_car_fuel_as_weight = w;
        })
        h.value

  read_written :
      (path : Text) (st : Storage) (r : Reading F)
      → IsComplete F car solid printed r (r.car_settings ++ new_line F car solid printed r)
      → st.files path ≡ some (put_lines (file_lines F car r))
      → read_config_data F path car st ≡ (settings_of F (reread_of r), st)
  unfolding read_config_data
  read_written path st r h e =
      ap
        (λ (x : Reading F × Bool). (
          settings_of F x.0,
          if x.1 then write_file st path (put_lines (file_lines F car x.0)) else st,
        ))
        (ap (read_file F car) e ∙ read_file-file_lines r h)

  written :
      (path : Text) (st : Storage) (content : Text)
      → st.can_write path ≡ true
      → (write_file st path content).files path ≡ some content
  unfolding write_file
  written path st content w = rw (w, (text_eq_iff path path).1 refl) refl

  -- When the file of the configuration has been written anew, because it was not there, or a
  -- setting or the current car was missing from it, then reading it again for the same car
  -- gives the same settings, the laps of fuel as they are printed and read, and does not write the
  -- file again. The file can be written, and the name of the car has no white space.
  pub config-again :
      (path : Text) (st : Storage)
      → st.can_write path ≡ true
      → (read_file F car (st.files path)).1 ≡ true
      → let (s, st') = read_config_data F path car st in
        read_config_data F path car st'
        ≡ (record s { extra_laps_of_fuel = atof (print_double s.extra_laps_of_fuel) }, st')
  unfolding read_config_data
  config-again path st w u =
      let r = (read_file F car (st.files path)).0 in
      let complete = new_line-IsComplete F car solid printed r (read_file-IsKept (st.files path)) in
      let content = put_lines (file_lines F car r) in
      rw u (
        read_written path (write_file st path content) r complete (written path st content w)
        ∙ ap (λ s. (s, write_file st path content)) (settings_of-reread r complete))
