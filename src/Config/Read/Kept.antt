-- ===== src/Config/Read/Kept.antt =====
-- What a reading of `readConfigData` keeps of the lines about cars.
use ir_pit_crew.Prelude.{
  Bool, true, false, Bool-cases, inl, inr, ◌≡◌, refl, ◌∙◌, Option, none, some, List, [], ◌∷◌, ◌++◌,
  is_empty, arith, All, All-append, if◌then◌else◌,
}
use ir_pit_crew.Prelude.Number.{is_space}
use ir_pit_crew.Prelude.Text.{Text, codes, Lacks, starts_with}
use ir_pit_crew.Floats.{Floats}
use ir_pit_crew.Config.Attribute.{trim, parse_attribute_value}
use ir_pit_crew.Config.Attribute.Trim.{IsWord, trim-solid}
use ir_pit_crew.Config.Attribute.Trimmed.{trim-trim, Lacks-trim, starts_with-front}
use ir_pit_crew.Config.Read.{
  weight_base, weight_name, Reading, first_found, is_comment, read_setting, read_line, read_lines,
}

-- No white space.
abbrev pub IsSolid : Text → Type 0
IsSolid = All λ c. is_space c ≡ false

pub weight_name-IsWord : (car : Text) → IsSolid car → IsWord (weight_name car)
unfolding is_space
weight_name-IsWord car h = record {
  nonempty = refl;
  solid = All-append (λ c. is_space c ≡ false) (weight_base ++ codes "_") car (ground arith) h;
}

-- A line about a car as a reading keeps it.
pub record IsCarLine (l : Text) : Type 0 where
  pub trimmed : trim l ≡ l
  pub about_car : starts_with weight_base l ≡ true
  pub one_line : Lacks b'\n' l

module _ (F : Floats) (car : Text) (solid : IsSolid car) where
  -- What a line does to the setting of the current car, and what lines do.
  abbrev pub weigh_line : Option Bool → Text → Option Bool
  weigh_line w l = if is_empty car then w else first_found F w (λ v. v.is_set) l (weight_name car)

  abbrev pub weigh : Option Bool → List Text → Option Bool
  weigh w [] = w
  weigh w (l ∷ ls) = weigh (weigh_line w l) ls

  pub weigh-snoc :
      (w : Option Bool) (ls : List Text) (l : Text)
      → weigh w (ls ++ l ∷ []) ≡ weigh_line (weigh w ls) l
  weigh-snoc w [] l = refl
  weigh-snoc w (k ∷ ls) l = weigh-snoc (weigh_line w k) ls l

  parse-other :
      (l : Text)
      → trim l ≡ l
      → starts_with weight_base l ≡ false
      → parse_attribute_value F l (weight_name car) ≡ none
  unfolding parse_attribute_value
  parse-other l t h =
      let same = trim-solid (weight_name car) (weight_name-IsWord car solid).solid in
      elim (Bool-cases (starts_with (weight_name car ++ b' ' ∷ []) l)) [
        | inl found ↦
            absurd (cc (h, starts_with-front weight_base (b'_' ∷ (car ++ b' ' ∷ [])) l found))
        | inr missing ↦ rw (t, same, missing) (ground arith)
      ]

  first_found-none :
      (w : Option Bool) (l : Text)
      → parse_attribute_value F l (weight_name car) ≡ none
      → first_found F w (λ v. v.is_set) l (weight_name car) ≡ w
  unfolding first_found
  first_found-none none l h = rw (first_found, h) refl
  first_found-none (some b) l h = refl

  weigh_line-other :
      (w : Option Bool) (l : Text)
      → trim l ≡ l
      → starts_with weight_base l ≡ false
      → weigh_line w l ≡ w
  weigh_line-other w l t h = elim (Bool-cases (is_empty car)) [
    | inl nobody ↦ rw nobody refl
    | inr driver ↦ rw driver (first_found-none w l (parse-other l t h))
  ]

  -- Lines about cars are kept, and they decide the setting.
  pub record IsKept (r : Reading F) : Type 0 where
    pub cars : All IsCarLine r.car_settings
    pub decided : r.weight ≡ weigh none r.car_settings

  read_setting-IsKept :
      (r : Reading F) (l : Text)
      → trim l ≡ l
      → Lacks b'\n' l
      → IsKept r
      → IsKept (read_setting F car r l)
  unfolding read_setting
  read_setting-IsKept r l t k h = elim (Bool-cases (starts_with weight_base l)) [
    | inl about ↦ record {
      cars = rw about (
          All-append IsCarLine r.car_settings (l ∷ []) h.cars
            (record { trimmed = t; about_car = about; one_line = k }, tt));
      decided = rw (about, weigh-snoc none r.car_settings l, h.decided) refl;
    }
    | inr other ↦ record {
      cars = rw other h.cars;
      decided = rw other (weigh_line-other r.weight l t other ∙ h.decided);
    }
  ]

  read_line-IsKept :
      (r : Reading F) (l : Text) → Lacks b'\n' l → IsKept r → IsKept (read_line F car r l)
  unfolding read_line
  read_line-IsKept r l k h = elim (Bool-cases (is_comment F (trim l))) [
    | inl comment ↦ rw comment h
    | inr setting ↦
        rw setting (read_setting-IsKept r (trim l) (trim-trim l) (Lacks-trim b'\n' l k) h)
  ]

  pub read_lines-IsKept :
      (r : Reading F) (ls : List Text)
      → All (Lacks b'\n') ls
      → IsKept r
      → IsKept (read_lines F car r ls)
  unfolding read_lines
  read_lines-IsKept r [] k h = h
  read_lines-IsKept r (l ∷ ls) (k, ks) h =
      read_lines-IsKept (read_line F car r l) ls ks (read_line-IsKept r l k h)

pub is_comment-car :
    (F : Floats) (l : Text) → starts_with weight_base l ≡ true → is_comment F l ≡ false
unfolding is_comment starts_with
is_comment-car F [] h = absurd (cc h)
is_comment-car F (c ∷ l) h = ground (arith, h)
