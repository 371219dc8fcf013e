-- ===== src/Plugin/Standings/Scan/Finds.antt =====
-- The loop over the positions of a session in src/irplugin/irplugin.cpp: which cars it finds.
use ir_pit_crew.Prelude.{ℕ, ◌≡◌, Option, some, List}
use ir_pit_crew.Prelude.Int.{ℤ}
use ir_pit_crew.Prelude.Text.{Text, codes}
use ir_pit_crew.Plugin.Standings.{Yaml, Standings, position_path, find_car}

module _ (yaml : Text → Option Yaml) (session my_idx : ℤ) where
  -- There is a car at the class position.
  abbrev HasCar : ℤ → List (ℤ × ℤ) → Type 0
  HasCar p m = (car : ℤ) × (find_car p m ≡ some car)

  -- A position has a car, and the car has a position in its class.
  pub record IsTaken (q : ℕ) : Type 0 where
    pub car : Yaml
    pub car_at : yaml (position_path session q (codes "CarIdx:")) ≡ some car
    pub place : Yaml
    pub place_at : yaml (position_path session q (codes "ClassPosition:")) ≡ some place

  -- What stands at a position: the car, and its position in its class.
  abbrev IsAt : ℕ → Yaml → Yaml → Type 0
  IsAt p v c =
      (yaml (position_path session p (codes "CarIdx:")) ≡ some v)
      × (yaml (position_path session p (codes "ClassPosition:")) ≡ some c)
