-- ===== src/Plugin/Update/Fit/Cars.antt =====
-- The texts of the cars around, in src/irplugin/irplugin.cpp: what a line can carry of the session
-- info can be carried of them.
use ir_pit_crew.Prelude.{
  ℕ, Bool, true, false, Option, none, some, [], ◌∷◌, Bool-cases, inl, inr, if◌then◌else◌,
}
use ir_pit_crew.Prelude.Int.{ℤ, pos, le_ℤ}
use ir_pit_crew.Prelude.Number.{atoi}
use ir_pit_crew.Prelude.Text.{Text, codes}
use ir_pit_crew.Dict.{Dict}
use ir_pit_crew.Floats.{Floats, nought}
use ir_pit_crew.Plugin.Standings.{Yaml, yaml_text, driver_path}
use ir_pit_crew.Plugin.Session.{
  Car, Cars, strip_quotes, strip_front, strip_back, unless_empty, is_quote, name_car,
  interval_ahead, interval_behind, cars_around, get_data_from_session_info,
}
use ir_pit_crew.Plugin.Update.{find_cars, no_car}
use ir_pit_crew.Plugin.Update.Published.{Holds, bind-Holds}
use ir_pit_crew.Plugin.Update.Fit.{IsLine}

front-IsLine : (s : Text) → IsLine s → IsLine (strip_front s)
front-IsLine [] h = tt
front-IsLine (c ∷ s) (h, hs) = elim (Bool-cases (is_quote c)) [
  | inl cut ↦ rw cut (front-IsLine s hs)
  | inr kept ↦ rw kept (h, hs)
]

if-IsLine : (b : Bool) (s t : Text) → IsLine s → IsLine t → IsLine (if b then s else t)
if-IsLine true s t h k = h
if-IsLine false s t h k = k

back-IsLine : (s : Text) → IsLine s → IsLine (strip_back s)
back-IsLine [] h = tt
back-IsLine (c ∷ s) (h, hs) = if-IsLine _ [] (c ∷ strip_back s) tt (h, back-IsLine s hs)

unless-IsLine : (s whole : Text) → IsLine s → IsLine whole → IsLine (unless_empty s whole)
unless-IsLine [] whole h k = k
unless-IsLine (c ∷ s) whole h k = h

strip_quotes-IsLine : (s : Text) → IsLine s → IsLine (strip_quotes s)
unfolding strip_quotes
strip_quotes-IsLine s h =
    let front = unless-IsLine (strip_front s) s (front-IsLine s h) h in
    unless-IsLine (strip_back (unless_empty (strip_front s) s)) (unless_empty (strip_front s) s)
      (back-IsLine (unless_empty (strip_front s) s) front) front

-- Every value of the session info can be carried by a line.
abbrev pub IsPlainYaml : (Text → Option Yaml) → Type 0
IsPlainYaml yaml = (path : Text) → IsLine (yaml_text (yaml path))

module _ (F : Floats) where
  open F use {single, read_single}

  pub record IsPlainCar (c : Car F) : Type 0 where
    pub number : IsLine c.number
    pub initials : IsLine c.initials

  abbrev pub IsPlainCars : Cars F → Type 0
  IsPlainCars c = IsPlainCar c.ahead × IsPlainCar c.behind

  name_car-IsPlainCar :
      (yaml : Text → Option Yaml) (found : Option (ℤ × ℤ)) (c : Car F)
      → IsPlainYaml yaml
      → IsPlainCar c
      → IsPlainCar (name_car F yaml found c)
  unfolding name_car
  name_car-IsPlainCar yaml none c h k = k
  name_car-IsPlainCar yaml (some (idx, shown)) c h k = record {
    number =
        num (yaml (driver_path idx (codes "CarNumber:")))
          (h (driver_path idx (codes "CarNumber:")));
    initials =
        ini (yaml (driver_path idx (codes "Initials:"))) (h (driver_path idx (codes "Initials:")));
  }
    where
      num :
          (r : Option Yaml)
          → IsLine (yaml_text r)
          → IsLine (elim r [ none ↦ c.number | some v ↦ strip_quotes (yaml_text (some v)) ])
      num none l = k.number
      num (some v) l = strip_quotes-IsLine _ l

      ini :
          (r : Option Yaml)
          → IsLine (yaml_text r)
          → IsLine (elim r [ none ↦ c.initials | some v ↦ yaml_text (some v) ])
      ini none l = k.initials
      ini (some v) l = l

  if-IsPlainCar :
      (b : Bool) (c d : Car F) → IsPlainCar c → IsPlainCar d → IsPlainCar (if b then c else d)
  if-IsPlainCar true c d h k = h
  if-IsPlainCar false c d h k = k

  ahead-IsPlainCar :
      (t mine : single.Num) (other : Option single.Num) (c : Car F)
      → IsPlainCar c
      → IsPlainCar (interval_ahead F t mine other c)
  unfolding interval_ahead
  ahead-IsPlainCar t mine none c h = h
  ahead-IsPlainCar t mine (some other) c h =
      if-IsPlainCar (single.le mine other)
        (record c { interval = single.mul (single.sub other mine) t }) c
        record { number = h.number; initials = h.initials } h

  behind-IsPlainCar :
      (t mine : single.Num) (other : Option single.Num) (c : Car F)
      → IsPlainCar c
      → IsPlainCar (interval_behind F t mine other c)
  unfolding interval_behind
  behind-IsPlainCar t mine none c h = h
  behind-IsPlainCar t mine (some other) c h =
      if-IsPlainCar (single.le other mine)
        (record c { interval = single.mul (single.sub mine other) t }) c
        record { number = h.number; initials = h.initials } h

  around-IsPlainCars :
      (yaml : Text → Option Yaml) (fuel : ℕ) (m : Dict) (session : ℤ) (t : single.Num) (idx : ℤ)
      → (old : Cars F) → IsPlainYaml yaml
      → IsPlainCars old
      → Holds IsPlainCars (cars_around F yaml fuel m session t idx old)
  unfolding cars_around
  around-IsPlainCars yaml fuel m session t idx old h k = bind-Holds IsPlainCars _ _ (λ lap.
      bind-Holds IsPlainCars _ _ (λ pct. bind-Holds IsPlainCars _ _ (λ laps.
        bind-Holds IsPlainCars _ _ (λ pcts. (
          ahead-IsPlainCar t _ _ _ (name_car-IsPlainCar yaml _ old.ahead h k.0),
          behind-IsPlainCar t _ _ _ (name_car-IsPlainCar yaml _ old.behind h k.1),
        )))))

  if-Holds {ℓ} :
      {A : Type ℓ} (P : A → Type 0) (b : Bool) (x y : Option A)
      → Holds P x
      → Holds P y
      → Holds P (if b then x else y)
  if-Holds P true x y h k = h
  if-Holds P false x y h k = k

  no_car-IsPlainCar : IsPlainCar (no_car F)
  no_car-IsPlainCar = record { number = tt; initials = tt }

  pub cars-IsPlainCars :
      (yaml : Text → Option Yaml) (fuel : ℕ) (m : Dict) (session : ℤ) (t : single.Num)
      → IsPlainYaml yaml
      → Holds IsPlainCars (find_cars F yaml fuel m session t)
  unfolding find_cars get_data_from_session_info
  cars-IsPlainCars yaml fuel m session t h =
      if-Holds IsPlainCars (single.lt (nought single) t) _ (some nobody)
        (go (yaml (codes "DriverInfo:DriverCarIdx:"))) (no_car-IsPlainCar, no_car-IsPlainCar)
    where
      nobody : Cars F
      nobody = record { ahead = no_car F; behind = no_car F }

      go :
          (r : Option Yaml)
          → Holds IsPlainCars (elim r [
            | none ↦ some nobody
            | some v ↦
                let my_idx = atoi v.at in
                if le_ℤ (pos 0) my_idx
                then cars_around F yaml fuel m session t my_idx nobody
                else some nobody
          ])
      go none = (no_car-IsPlainCar, no_car-IsPlainCar)
      go (some v) =
          if-Holds IsPlainCars (le_ℤ (pos 0) (atoi v.at)) _ (some nobody)
            (around-IsPlainCars yaml fuel m session t (atoi v.at) nobody h
              (no_car-IsPlainCar, no_car-IsPlainCar))
            (no_car-IsPlainCar, no_car-IsPlainCar)
