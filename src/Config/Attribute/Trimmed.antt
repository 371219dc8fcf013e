-- ===== src/Config/Attribute/Trimmed.antt =====
-- `ConfigData::trim` on the lines of a file.
use ir_pit_crew.Prelude.{
  ℕ, ◌==◌, ◌≡◌, refl, ap, ◌∙◌, true, Bool-cases, inl, inr, [], ◌∷◌, ◌++◌, arith, All,
}
use ir_pit_crew.Prelude.Number.{is_space, skip_spaces}
use ir_pit_crew.Prelude.Text.{Text, Lacks, starts_with, getlines, pieces, Lacks-append}
use ir_pit_crew.Config.Attribute.{ltrim, rtrim, trim}

rtrim-rtrim : (s : Text) → rtrim (rtrim s) ≡ rtrim s
unfolding rtrim
rtrim-rtrim [] = refl
rtrim-rtrim (c ∷ s) = ground (arith, rtrim-rtrim s)

rtrim-tail : (c : ℕ) (s : Text) → rtrim (c ∷ s) ≡ c ∷ s → rtrim s ≡ s
unfolding rtrim
rtrim-tail c [] h = refl
rtrim-tail c (d ∷ s) h = ground (arith, h)

rtrim-skip_spaces : (s : Text) → rtrim s ≡ s → rtrim (skip_spaces s) ≡ skip_spaces s
unfolding skip_spaces
rtrim-skip_spaces [] h = h
rtrim-skip_spaces (c ∷ s) h = elim (Bool-cases (is_space c)) [
  | inl space ↦ rw space (rtrim-skip_spaces s (rtrim-tail c s h))
  | inr solid ↦ rw solid h
]

skip_spaces-skip_spaces : (s : Text) → skip_spaces (skip_spaces s) ≡ skip_spaces s
unfolding skip_spaces
skip_spaces-skip_spaces [] = refl
skip_spaces-skip_spaces (c ∷ s) = ground (arith, skip_spaces-skip_spaces s)

pub trim-trim : (s : Text) → trim (trim s) ≡ trim s
unfolding trim ltrim
trim-trim s =
    ap skip_spaces (rtrim-skip_spaces (rtrim s) (rtrim-rtrim s)) ∙ skip_spaces-skip_spaces (rtrim s)

Lacks-rtrim : (d : ℕ) (s : Text) → Lacks d s → Lacks d (rtrim s)
unfolding rtrim
Lacks-rtrim d [] h = tt
Lacks-rtrim d (c ∷ s) (h, hs) = ground (arith, h, Lacks-rtrim d s hs)

Lacks-skip_spaces : (d : ℕ) (s : Text) → Lacks d s → Lacks d (skip_spaces s)
unfolding skip_spaces
Lacks-skip_spaces d [] h = tt
Lacks-skip_spaces d (c ∷ s) (h, hs) = elim (Bool-cases (is_space c)) [
  | inl space ↦ rw space (Lacks-skip_spaces d s hs)
  | inr solid ↦ rw solid (h, hs)
]

pub Lacks-trim : (d : ℕ) (s : Text) → Lacks d s → Lacks d (trim s)
unfolding trim ltrim
Lacks-trim d s h = Lacks-skip_spaces d (rtrim s) (Lacks-rtrim d s h)

Lacks-pieces : (d : ℕ) (s cur : Text) → Lacks d cur → All (Lacks d) (pieces d s cur)
unfolding pieces
Lacks-pieces d [] [] h = tt
Lacks-pieces d [] (c ∷ cur) h = (h, tt)
Lacks-pieces d (c ∷ s) cur h = elim (Bool-cases (c == d)) [
  | inl cut ↦ rw cut (h, Lacks-pieces d s [] tt)
  | inr grow ↦ rw grow (Lacks-pieces d s (cur ++ c ∷ []) (Lacks-append d cur (c ∷ []) h (grow, tt)))
]

-- The lines of a file have no line break.
pub Lacks-getlines : (d : ℕ) (s : Text) → All (Lacks d) (getlines d s)
unfolding getlines
Lacks-getlines d s = Lacks-pieces d s [] tt

-- What starts with a text starts with its front.
pub starts_with-front : (p q s : Text) → starts_with (p ++ q) s ≡ true → starts_with p s ≡ true
unfolding starts_with
starts_with-front [] q s h = refl
starts_with-front (c ∷ p) q [] h = absurd (cc h)
starts_with-front (c ∷ p) q (d ∷ s) h = ground (arith, h, starts_with-front p q s)
