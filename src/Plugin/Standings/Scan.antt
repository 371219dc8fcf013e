-- ===== src/Plugin/Standings/Scan.antt =====
-- The loop over the positions of a session: how far it has to go, and what it collects.
pub mod Finds
use ir_pit_crew.Prelude.{
  ℕ, zero, suc, ◌+◌, ◌-◌, ◌≤◌, ◌<◌, ◌≡◌, refl, ap, ◌∙◌, true, Bool-cases, inl, inr, Option, none,
  some, List, [], ◌∷◌, All, arith, if◌then◌else◌,
}
use mathlib.Core.Path.{subst}
use ir_pit_crew.Prelude.Int.{ℤ, pos, ◌+ℤ◌, le_ℤ}
use ir_pit_crew.Prelude.Text.{Text, codes, text_eq}
use ir_pit_crew.Prelude.Number.{atoi}
use ir_pit_crew.Plugin.Standings.{
  Yaml, Standings, position_path, class_of, find_car, insert_car, int_eq, add_car, scan_step, scan,
  neighbour, no_standings,
}

module _ (yaml : Text → Option Yaml) (session my_idx : ℤ) where
  -- No position behind `last` has a car.
  abbrev pub IsLast : ℕ → Type 0
  IsLast last = (p : ℕ) → last < p → yaml (position_path session p (codes "CarIdx:")) ≡ none

  -- From a position behind the last one nothing is read.
  scan-behind :
      (last fuel q : ℕ) (s : Standings)
      → IsLast last
      → last < q
      → scan yaml session my_idx fuel q s ≡ s
  unfolding scan scan_step
  scan-behind last zero q s h k = refl
  scan-behind last (suc fuel) q s h k = rw (scan, h q k) refl

  -- The loop ends by itself: if no position behind `last` has a car, then fuel for the positions
  -- up to it is enough, and more fuel changes nothing.
  pub scan-enough :
      (last fuel more q : ℕ) (s : Standings)
      → IsLast last
      → last < q + fuel
      → scan yaml session my_idx (fuel + more) q s ≡ scan yaml session my_idx fuel q s
  unfolding scan
  scan-enough last zero more q s h k =
      ap (λ n. scan yaml session my_idx n q s) (omega arith)
      ∙ scan-behind last more q s h (omega arith)
  scan-enough last (suc fuel) more q s h k =
      let e : suc fuel + more ≡ suc (fuel + more) = omega arith in
      rw e (
        go (λ s'. scan-enough last fuel more (suc q) s' h (omega arith))
          (scan_step yaml session my_idx q s))
    where
      go :
          ((s' : Standings)
            → scan yaml session my_idx (fuel + more) (suc q) s'
              ≡ scan yaml session my_idx fuel (suc q) s')
          → (r : Option Standings)
          → elim r [ none ↦ s | some s' ↦ scan yaml session my_idx (fuel + more) (suc q) s' ]
            ≡ elim r [ none ↦ s | some s' ↦ scan yaml session my_idx fuel (suc q) s' ]
      go ih none = refl
      go ih (some s') = ih s'

  abbrev pub IsOwnClass : ℤ → Type 0
  IsOwnClass car = text_eq (class_of yaml car) (class_of yaml my_idx) ≡ true

  -- What holds of a map holds of it when a car of the driver's class is put in.
  abbrev pub IsKept : (List (ℤ × ℤ) → Type 0) → Type 0
  IsKept P = (p car : ℤ) (m : List (ℤ × ℤ)) → IsOwnClass car → P m → P (insert_car p car m)

  module _ (P : List (ℤ × ℤ) → Type 0) (kept : IsKept P) where
    abbrev After : Option Standings → Type 0
    After none = Unit
    After (some s) = P s.cars

    classed-kept :
        (s : Standings) (idx : ℤ) (r : Option Yaml)
        → IsOwnClass idx
        → P s.cars
        → After (elim r [ none ↦ none | some c ↦ some (add_car my_idx s (atoi c.at) idx) ])
    unfolding add_car
    classed-kept s idx none same h = tt
    classed-kept s idx (some c) same h = kept (atoi c.at) idx s.cars same h

    step-kept : (q : ℕ) (s : Standings) → P s.cars → After (scan_step yaml session my_idx q s)
    unfolding scan_step
    step-kept q s h = go (yaml (position_path session q (codes "CarIdx:")))
      where
        go :
            (r : Option Yaml)
            → After (elim r [
              | none ↦ none
              | some v ↦
                  if text_eq (class_of yaml (atoi v.at)) (class_of yaml my_idx)
                  then elim (yaml (position_path session q (codes "ClassPosition:"))) [
                    | none ↦ none
                    | some c ↦ some (add_car my_idx s (atoi c.at) (atoi v.at))
                  ]
                  else some s
            ])
        go none = tt
        go (some v) =
            elim (Bool-cases (text_eq (class_of yaml (atoi v.at)) (class_of yaml my_idx))) [
              | inl e ↦ rw e (
                  classed-kept s (atoi v.at)
                    (yaml (position_path session q (codes "ClassPosition:"))) e h)
              | inr e ↦ rw e h
            ]

    scan-kept : (fuel q : ℕ) (s : Standings) → P s.cars → P (scan yaml session my_idx fuel q s).cars
    unfolding scan
    scan-kept zero q s h = h
    scan-kept (suc fuel) q s h =
        go (scan_step yaml session my_idx q s) (λ s' k. scan-kept fuel (suc q) s' k)
          (step-kept q s h)
      where
        go :
            (r : Option Standings)
            → ((s' : Standings) → P s'.cars → P (scan yaml session my_idx fuel (suc q) s').cars)
            → After r
            → let t : Standings = elim r [
              | none ↦ s
              | some s' ↦ scan yaml session my_idx fuel (suc q) s'
            ] in
              P t.cars
        go none ih k = h
        go (some s') ih k = ih s' k

  abbrev IsSameClass : ℤ × ℤ → Type 0
  IsSameClass e = IsOwnClass e.1

  insert_car-All : IsKept (All IsSameClass)
  unfolding insert_car
  insert_car-All p car [] h hs = (h, tt)
  insert_car-All p car ((q, c) ∷ m) h (k, ks) = elim (Bool-cases (int_eq p q)) [
    | inl e ↦ rw e (k, ks)
    | inr e ↦ rw e (k, insert_car-All p car m h ks)
  ]

  scan-All :
      (fuel q : ℕ) (s : Standings)
      → All IsSameClass s.cars
      → All IsSameClass (scan yaml session my_idx fuel q s).cars
  scan-All = scan-kept (All IsSameClass) insert_car-All

  abbrev Found : Option ℤ → Type 0
  Found none = Unit
  Found (some car) = text_eq (class_of yaml car) (class_of yaml my_idx) ≡ true

  find_car-All : (p : ℤ) (m : List (ℤ × ℤ)) → All IsSameClass m → Found (find_car p m)
  unfolding find_car
  find_car-All p [] h = tt
  find_car-All p ((q, c) ∷ m) (k, ks) = elim (Bool-cases (int_eq p q)) [
    | inl f ↦ rw f k
    | inr f ↦ rw f (find_car-All p m ks)
  ]

  abbrev IsNeighbour : Standings → ℤ → ℤ → ℤ → Type 0
  IsNeighbour s off car shown =
      (text_eq (class_of yaml car) (class_of yaml my_idx) ≡ true)
      × (p : ℤ) × (s.my_position ≡ some p)
      × (find_car (p +ℤ off) s.cars ≡ some car)
      × (shown ≡ p +ℤ off +ℤ pos 1)

  abbrev Shown : Standings → ℤ → Option (ℤ × ℤ) → Type 0
  Shown s off none = Unit
  Shown s off (some (car, shown)) = IsNeighbour s off car shown

  placed-Shown :
      (s : Standings) (off p : ℤ) (r : Option ℤ)
      → s.my_position ≡ some p
      → find_car (p +ℤ off) s.cars ≡ r
      → Found r
      → Shown s off (elim r [ none ↦ none | some car ↦ some (car, p +ℤ off +ℤ pos 1) ])
  placed-Shown s off p none e f h = tt
  placed-Shown s off p (some car) e f h = (h, p, e, f, refl)

  neighbour-Shown :
      (s : Standings) (off : ℤ) → All IsSameClass s.cars → Shown s off (neighbour s off)
  unfolding neighbour
  neighbour-Shown s off h = go s.my_position refl
    where
      go :
          (r : Option ℤ)
          → s.my_position ≡ r
          → Shown s off (elim r [
            | none ↦ none
            | some p ↦
                if le_ℤ (pos 0) (p +ℤ off)
                then elim (find_car (p +ℤ off) s.cars) [
                  | none ↦ none
                  | some car ↦ some (car, p +ℤ off +ℤ pos 1)
                ]
                else none
          ])
      go none e = tt
      go (some p) e = elim (Bool-cases (le_ℤ (pos 0) (p +ℤ off))) [
        | inl k ↦ rw k (
            placed-Shown s off p (find_car (p +ℤ off) s.cars) e refl
              (find_car-All (p +ℤ off) s.cars h))
        | inr k ↦ rw k tt
      ]

  -- A car that is shown as ahead or behind is of the driver's own class, and the position shown with
  -- it is one more than the class position, `off` places from the driver's own, at which it was found.
  pub neighbour-class :
      (fuel : ℕ) (off car shown : ℤ)
      → let s = scan yaml session my_idx fuel 1 no_standings in
        neighbour s off ≡ some (car, shown)
        → (text_eq (class_of yaml car) (class_of yaml my_idx) ≡ true)
          × (p : ℤ) × (s.my_position ≡ some p)
          × (find_car (p +ℤ off) s.cars ≡ some car)
          × (shown ≡ p +ℤ off +ℤ pos 1)
  neighbour-class fuel off car shown h =
      let s = scan yaml session my_idx fuel 1 no_standings in
      subst (Shown s off) h (neighbour-Shown s off (scan-All fuel 1 no_standings tt))
