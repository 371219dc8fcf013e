-- ===== src/Plugin/Update/Delivered.antt =====
-- The assertions in the parts of an update, and what they read from the telemetry.
use ir_pit_crew.Prelude.{
  ℕ, ◌≡◌, refl, true, false, Bool, Option, none, some, List, [], ◌∷◌, ◌>>=◌, All, is_empty,
  if◌then◌else◌,
}
use ir_pit_crew.Prelude.Text.{Text, codes, text_eq}
use ir_pit_crew.Prelude.Int.{ℤ, pos, le_ℤ}
use ir_pit_crew.Prelude.Number.{atoi, stream_int}
use ir_pit_crew.Dict.{Dict, find}
use ir_pit_crew.Floats.{Floats, nought}
use ir_pit_crew.Plugin.Convert.{convert_fuel_display_to_litres}
use ir_pit_crew.Plugin.PitCommand.{handle_pit_command_message}
use ir_pit_crew.Plugin.DataMap.{read_data_var}
use ir_pit_crew.Shared.{set_data, get_fuel_message}
use native.Mathlib.Omega.{arith}
use ir_pit_crew.Plugin.Race.{time_step, driver_lap_of, lap_step_of, lap_step, race_limits}
use ir_pit_crew.Plugin.Standings.{Yaml}
use ir_pit_crew.Plugin.Session.{read_word, Cars, cars_around, get_data_from_session_info}
use ir_pit_crew.Plugin.State.{Plugin}
use ir_pit_crew.Plugin.Update.{no_car, find_cars, publish}
use ir_pit_crew.Plugin.Update.Published.{Extends}

abbrev pub IsDefined {ℓ} : {A : Type ℓ} → Option A → Type ℓ
IsDefined {A} o = (a : A) × (o ≡ some a)

pub bind-IsDefined {ℓ κ} :
    {A : Type ℓ} {B : Type κ} (m : Option A) (f : A → Option B)
    → IsDefined m
    → ((a : A) → IsDefined (f a))
    → IsDefined (m >>= f)
unfolding ◌>>=◌
bind-IsDefined none f (a, e) h = absurd (ground arith)
bind-IsDefined (some b) f d h = h b

-- The variables that the loop reads.
abbrev pub needed : List Text
needed =
    codes "FuelLevel"
    ∷ codes "FuelLevelPct"
    ∷ codes "LapLastLapTime"
    ∷ codes "SessionTime"
    ∷ codes "SessionNum"
    ∷ codes "SessionTimeRemain"
    ∷ codes "SessionLapsRemainEx"
    ∷ codes "Lap"
    ∷ codes "LapDistPct"
    ∷ codes "CarIdxLap"
    ∷ codes "CarIdxLapDistPct"
    ∷ codes "SessionFlags"
    ∷ []

abbrev pub IsDelivered : Dict → Type 0
IsDelivered m = All (λ name. IsDefined (find name m)) needed

pub read-IsDefined {ℓ} :
    {T : Type ℓ} (parse : Text → T) (m : Dict) (name : Text)
    → IsDefined (find name m)
    → IsDefined (read_data_var parse m name)
unfolding read_data_var
read-IsDefined parse m name (v, e) = (parse v, rw (read_data_var, e) refl)

if-IsDefined {ℓ} :
    {A : Type ℓ} (b : Bool) (x y : Option A)
    → IsDefined x
    → IsDefined y
    → IsDefined (if b then x else y)
if-IsDefined true x y h k = h
if-IsDefined false x y h k = k

pub delivered-Extends :
    (m m' : Dict) (names : List Text)
    → Extends m m'
    → All (λ name. IsDefined (find name m)) names
    → All (λ name. IsDefined (find name m')) names
delivered-Extends m m' [] h k = tt
delivered-Extends m m' (name ∷ names) h (k, ks) =
    ((k.0, h.1 name k.0 k.1), delivered-Extends m m' names h ks)

module _ (F : Floats) where
  open F use {single, double, atof, read_single, read_double}

  pub race_limits-IsDefined :
      (use_driver : Bool) (laps time : Text) (m : Dict) (t : single.Num)
      → IsDelivered m
      → IsDefined (race_limits F use_driver laps time m t)
  unfolding race_limits time_step lap_step lap_step_of driver_lap_of
  race_limits-IsDefined use_driver laps time m t h =
      bind-IsDefined _ _
        (if-IsDefined (text_eq time (codes "unlimited")) _ _ (_, refl)
          (bind-IsDefined _ _
            (read-IsDefined read_double m (codes "SessionTimeRemain") h.1.1.1.1.1.0)
            (λ left. (_, refl))))
        (λ l.
          if-IsDefined (text_eq laps (codes "unlimited")) _ _ (_, refl)
            (bind-IsDefined _ _
              (read-IsDefined stream_int m (codes "SessionLapsRemainEx") h.1.1.1.1.1.1.0)
              (λ left.
                if-IsDefined _ _ _ (_, refl)
                  (bind-IsDefined _ _
                    (if-IsDefined use_driver _ _
                      (read-IsDefined stream_int m (codes "Lap") h.1.1.1.1.1.1.1.0) (_, refl))
                    (λ lap. (_, refl))))))

  around-IsDefined :
      (yaml : Text → Option Yaml) (fuel : ℕ) (m : Dict) (session : ℤ) (t : single.Num) (idx : ℤ)
      → (old : Cars F) → IsDelivered m
      → IsDefined (cars_around F yaml fuel m session t idx old)
  unfolding cars_around
  around-IsDefined yaml fuel m session t idx old h =
      bind-IsDefined _ _ (read-IsDefined stream_int m (codes "Lap") h.1.1.1.1.1.1.1.0) (λ a.
        bind-IsDefined _ _ (read-IsDefined read_single m (codes "LapDistPct") h.1.1.1.1.1.1.1.1.0)
          (λ b.
            bind-IsDefined _ _
              (read-IsDefined read_word m (codes "CarIdxLap") h.1.1.1.1.1.1.1.1.1.0)
              (λ c.
                bind-IsDefined _ _
                  (read-IsDefined read_word m (codes "CarIdxLapDistPct") h.1.1.1.1.1.1.1.1.1.1.0)
                  (λ d. (_, refl)))))

  message-IsDefined :
      (skip : Bool) (factor : double.Num) (msg : Text)
      → double.lt (nought double) factor ≡ true
      → IsDefined (handle_pit_command_message F skip factor msg)
  unfolding handle_pit_command_message convert_fuel_display_to_litres
  message-IsDefined skip factor msg h = if-IsDefined (is_empty msg) _ _ ([], refl) (rw h (_, refl))

  pub cars-IsDefined :
      (yaml : Text → Option Yaml) (fuel : ℕ) (m : Dict) (session : ℤ) (t : single.Num)
      → IsDelivered m
      → IsDefined (find_cars F yaml fuel m session t)
  unfolding find_cars get_data_from_session_info
  cars-IsDefined yaml fuel m session t h =
      if-IsDefined (single.lt (nought single) t) _ _ (go (yaml (codes "DriverInfo:DriverCarIdx:")))
        (_, refl)
    where
      nobody : Cars F
      nobody = record { ahead = no_car F; behind = no_car F }

      go :
          (r : Option Yaml)
          → IsDefined (elim r [
            | none ↦ some nobody
            | some v ↦
                if le_ℤ (pos 0) (atoi v.at)
                then cars_around F yaml fuel m session t (atoi v.at) nobody
                else some nobody
          ])
      go none = (nobody, refl)
      go (some v) =
          if-IsDefined (le_ℤ (pos 0) (atoi v.at)) _ _
            (around-IsDefined yaml fuel m session t (atoi v.at) nobody h) (_, refl)

  pub publish-IsDefined :
      (p : Plugin F) (m : Dict)
      → double.lt (nought double) p.conversion.factor ≡ true
      → IsDefined (publish F p m)
  unfolding publish set_data get_fuel_message
  publish-IsDefined p m h =
      bind-IsDefined _ _
        (message-IsDefined p.settings.skip_clear_on_apply p.conversion.factor p.shared.fuel_message
          h)
        (λ sent. (_, refl))
