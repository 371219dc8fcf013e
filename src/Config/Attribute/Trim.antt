-- ===== src/Config/Attribute/Trim.antt =====
-- `parseAttributeValue` on a line of an attribute, a space and a value.
use ir_pit_crew.Prelude.{
  Bool-cases, inl, inr, ◌+◌, ◌≤◌, ◌≡◌, refl, true, false, none, [], ◌∷◌, ◌++◌, leb, length,
  length-append, drop, is_empty, All, arith, if◌then◌else◌, append_assoc,
}
use ir_pit_crew.Prelude.Number.{is_space, skip_spaces}
use ir_pit_crew.Prelude.Text.{Text, text_eq, text_eq_iff, Lacks, starts_with-delim}
use ir_pit_crew.Floats.{Floats}
use ir_pit_crew.Config.Attribute.{ltrim, rtrim, trim, value_of, parse_attribute_value}

-- No white space, and something.
pub record IsWord (s : Text) : Type 0 where
  pub nonempty : is_empty s ≡ false
  pub solid : All (λ c. is_space c ≡ false) s

skip_spaces-solid : (s : Text) → All (λ c. is_space c ≡ false) s → skip_spaces s ≡ s
unfolding skip_spaces
skip_spaces-solid [] h = refl
skip_spaces-solid (c ∷ s) (h, hs) = rw h refl

rtrim-solid : (s : Text) → All (λ c. is_space c ≡ false) s → rtrim s ≡ s
unfolding rtrim
rtrim-solid [] h = refl
rtrim-solid (c ∷ s) (h, hs) = rw (rtrim-solid s hs) (ground (arith, h))

pub trim-solid : (s : Text) → All (λ c. is_space c ≡ false) s → trim s ≡ s
unfolding trim ltrim
trim-solid s h = rw (rtrim-solid s h) (skip_spaces-solid s h)

-- What ends in a word is not cut at the end.
is_empty-append : (a s : Text) → is_empty s ≡ false → is_empty (a ++ s) ≡ false
is_empty-append [] s h = h
is_empty-append (c ∷ a) s h = refl

rtrim-append : (a s : Text) → IsWord s → rtrim (a ++ s) ≡ a ++ s
unfolding rtrim
rtrim-append [] s w = rtrim-solid s w.solid
rtrim-append (c ∷ a) s w = rw (rtrim-append a s w) (ground (arith, is_empty-append a s w.nonempty))

skip_spaces-word : (a s : Text) → IsWord a → skip_spaces (a ++ s) ≡ a ++ s
unfolding skip_spaces
skip_spaces-word [] s u = cc u.nonempty
skip_spaces-word (c ∷ a) s u = rw u.solid.0 refl

pub trim-words : (a s : Text) → IsWord a → IsWord s → trim (a ++ b' ' ∷ s) ≡ a ++ b' ' ∷ s
unfolding trim ltrim
trim-words a s u w =
    let cut : rtrim (a ++ b' ' ∷ s) ≡ a ++ b' ' ∷ s =
      rw (← append_assoc a (b' ' ∷ []) s) (rtrim-append (a ++ b' ' ∷ []) s w) in
    rw cut (skip_spaces-word a (b' ' ∷ s) u)

Lacks-solid : (s : Text) → All (λ c. is_space c ≡ false) s → Lacks b' ' s
unfolding is_space
Lacks-solid [] h = tt
Lacks-solid (c ∷ s) (h, hs) = (ground arith, Lacks-solid s hs)

drop-length : (a s : Text) → drop (length a) (a ++ s) ≡ s
drop-length [] s = refl
drop-length (c ∷ a) s = drop-length a s

length-pos : (s : Text) → is_empty s ≡ false → 1 ≤ length s
length-pos [] h = cc
length-pos (c ∷ s) h = omega arith

enough : (a s : Text) → 1 ≤ length s → leb (length a + 1) (length (a ++ s)) ≡ true
enough a s h = ground (arith, length-append a s)

module _ (F : Floats) where
  -- A line of a word, a space and a value, parsed for an attribute: the value, its first character
  -- deciding the flag, if the attribute is that word; no other attribute takes the line.
  pub parse_attribute_value-line :
      (name attribute value : Text)
      → IsWord name
      → IsWord attribute
      → IsWord value
      → parse_attribute_value F (name ++ b' ' ∷ value) attribute
        ≡ (if text_eq attribute name then value_of F value else none)
  unfolding parse_attribute_value
  parse_attribute_value-line name attribute value n a v =
      let same =
        starts_with-delim b' ' attribute name value (Lacks-solid attribute a.solid)
          (Lacks-solid name n.solid) in
      rw (trim-words name value n v, trim-solid attribute a.solid, same)
        (elim (Bool-cases (text_eq attribute name)) [
          | inl e ↦
              let wanted = attribute ++ b' ' ∷ [] in
              let line : name ++ b' ' ∷ value ≡ wanted ++ value =
                rw ((text_eq_iff attribute name).0 e, append_assoc) refl in
              rw
                (
                  line,
                  e,
                  enough wanted value (length-pos value v.nonempty),
                  drop-length wanted value,
                  trim-solid value v.solid,
                )
                refl
          | inr e ↦ rw e (ground arith)
        ])
