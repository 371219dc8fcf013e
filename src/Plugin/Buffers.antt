-- ===== src/Plugin/Buffers.antt =====
-- The buffers of 512 bytes in the main loop of src/irplugin/irplugin.cpp, into which `strncpy_s` copies
-- values of the session info.
use ir_pit_crew.Prelude.{
  ◌≡◌, refl, Bool, true, Option, none, some, List, [], ◌∷◌, map, ◌>>=◌, ltb, All, if◌then◌else◌,
}
use ir_pit_crew.Prelude.Int.{pos, le_ℤ}
use ir_pit_crew.Prelude.Number.{atoi}
use ir_pit_crew.Prelude.Text.{Text, codes}
use ir_pit_crew.Plugin.Standings.{Yaml, yaml_text, driver_path}

-- A value that is found has room in a buffer, the zero behind it included.
unfoldable pub fits_buffer : Option Yaml → Bool
fits_buffer none = true
fits_buffer (some v) = ltb v.len 512

-- What the buffers hold when `strncpy_s` has been called for the values that are found: a value that
-- has no room ends the program, which is `none`.
unfoldable pub copy_all : List (Option Yaml) → Option (List Text)
unfolding fits_buffer
copy_all [] = some []
copy_all (r ∷ rs) =
    let rest = copy_all rs >>= λ ts. some (yaml_text r ∷ ts) in if fits_buffer r then rest else none

-- The driver's name, car and number, if the session info has an index of the driver's car.
unfoldable pub driver_copies : (Text → Option Yaml) → List (Option Yaml)
unfolding atoi driver_path
driver_copies yaml = elim (yaml (codes "DriverInfo:DriverCarIdx:")) [
  | none ↦ []
  | some v ↦
      let idx = atoi v.at in
      if le_ℤ (pos 0) idx
      then yaml (driver_path idx (codes "UserName:"))
        ∷ yaml (driver_path idx (codes "CarPath:"))
        ∷ yaml (driver_path idx (codes "CarNumber:"))
        ∷ []
      else []
]

abbrev pub AllFit : List (Option Yaml) → Type 0
AllFit = All λ r. fits_buffer r ≡ true

pub copy_all-AllFit : (rs : List (Option Yaml)) → AllFit rs → copy_all rs ≡ some (map yaml_text rs)
unfolding copy_all ◌>>=◌
copy_all-AllFit [] h = refl
copy_all-AllFit (r ∷ rs) (h, hs) = rw (h, copy_all-AllFit rs hs) refl
