-- ===== src/Prelude/Number.antt =====
-- Numbers as text: `stream << n`, `atoi` and `stream >> n` for an `int`.
use Prim.Native.Nat.{ℕ, zero, suc, ◌+◌, ◌-◌, ◌*◌, ◌/◌, ◌%◌, ◌<◌}
use mathlib.Core.Path.{◌≡◌, refl, ap, ◌∙◌}
use mathlib.Core.Bool.{Bool, true, ◌&&◌, ◌||◌}
use mathlib.Core.List.{[], ◌∷◌, ◌++◌}
use native.Mathlib.Omega.{arith}
use mathlib.Core.Logic.{inl, inr}
use ir_pit_crew.Prelude.Tests.{Bool-cases, ltb, leb, ◌==◌, if◌then◌else◌}
use ir_pit_crew.Prelude.Lists.{All, All-append}
use ir_pit_crew.Prelude.Int.{ℤ, pos, negsuc, sub_ℕ, lt_ℤ}
use ir_pit_crew.Prelude.Text.{Text}

-- `isspace` in the C locale.
unfoldable pub is_space : ℕ → Bool
is_space c = c == b' ' || (leb 9 c && leb c 13)

unfoldable pub is_digit : ℕ → Bool
is_digit c = leb b'0' c && leb c b'9'

unfoldable pub skip_spaces : Text → Text
unfolding is_space
skip_spaces [] = []
skip_spaces (c ∷ s) = let rest = skip_spaces s in if is_space c then rest else c ∷ s

-- The value of the digits at the front, after `acc`.
unfoldable pub digits_value : ℕ → Text → ℕ
unfolding is_digit
digits_value acc [] = acc
digits_value acc (c ∷ s) =
    let more = digits_value (acc * 10 + (c - b'0')) s in if is_digit c then more else acc

unfoldable pub signed_value : Text → ℤ
unfolding digits_value
signed_value [] = pos 0
signed_value (c ∷ s) =
    if c == b'-'
    then sub_ℕ 0 (digits_value 0 s)
    else if c == b'+'
    then pos (digits_value 0 s)
    else pos (digits_value 0 (c ∷ s))

-- `atoi`: spaces, a sign, digits; 0 if there are none. A value that no `int` holds is not cut off
-- here: what C does with it is undefined.
unfoldable pub atoi : Text → ℤ
unfolding skip_spaces signed_value
atoi s = signed_value (skip_spaces s)

-- What is above or below the range of an `int` is the end of the range.
unfoldable pub clamp_int : ℤ → ℤ
clamp_int n =
    if lt_ℤ (pos 2147483647) n
    then pos 2147483647
    else if lt_ℤ n (negsuc 2147483647)
    then negsuc 2147483647
    else n

-- `stream >> n` for an `int`.
unfoldable pub stream_int : Text → ℤ
unfolding atoi clamp_int
stream_int s = clamp_int (atoi s)

-- The decimal digits, with fuel for one more than the number.
unfoldable pub digits_of : ℕ → ℕ → Text
digits_of zero n = []
digits_of (suc f) n =
    let front = digits_of f (n / 10) in (if ltb n 10 then [] else front) ++ (b'0' + n % 10) ∷ []

unfoldable pub show_nat : ℕ → Text
unfolding digits_of
show_nat n = digits_of (suc n) n

unfoldable pub show_int : ℤ → Text
unfolding show_nat
show_int (pos n) = show_nat n
show_int (negsuc n) = b'-' ∷ show_nat (suc n)

abbrev pub AllDigits : Text → Type 0
AllDigits = All λ c. is_digit c ≡ true

pub digits_of-AllDigits : (f n : ℕ) → AllDigits (digits_of f n)
unfolding digits_of is_digit
digits_of-AllDigits zero n = tt
digits_of-AllDigits (suc f) n =
    let last : Text = (b'0' + n % 10) ∷ [] in
    let ih = digits_of-AllDigits f (n / 10) in
    elim (Bool-cases (ltb n 10)) [
      | inl one ↦ rw one (ground arith, tt)
      | inr more ↦
          rw more
            (All-append (λ c. is_digit c ≡ true) (digits_of f (n / 10)) last ih (ground arith, tt))
    ]

digits_value-append :
    (acc : ℕ) (s : Text) (c : ℕ)
    → AllDigits s
    → is_digit c ≡ true
    → digits_value acc (s ++ c ∷ []) ≡ digits_value acc s * 10 + (c - b'0')
unfolding digits_value
digits_value-append acc [] c h k = rw k refl
digits_value-append acc (d ∷ s) c (h, hs) k =
    rw h (digits_value-append (acc * 10 + (d - b'0')) s c hs k)

digit-is_digit : (d : ℕ) → d < 10 → is_digit (b'0' + d) ≡ true
unfolding is_digit
digit-is_digit d h = ground arith

first_digit : (n : ℕ) → n < 10 → digits_value 0 [] * 10 + (b'0' + n % 10 - b'0') ≡ n
unfolding digits_value
first_digit n h = omega arith

-- Enough fuel gives all the digits.
digits_value-digits_of : (f n : ℕ) → n < f → digits_value 0 (digits_of f n) ≡ n
unfolding digits_of
digits_value-digits_of zero n h = absurd (omega arith)
digits_value-digits_of (suc f) n h =
    let last = digit-is_digit (n % 10) (omega arith) in
    elim (Bool-cases (ltb n 10)) [
      | inl one ↦
          rw one (digits_value-append 0 [] (b'0' + n % 10) tt last ∙ first_digit n (ground arith))
      | inr more ↦ rw more (
          digits_value-append 0 (digits_of f (n / 10)) (b'0' + n % 10)
            (digits_of-AllDigits f (n / 10)) last
          ∙ ground (arith, digits_value-digits_of f (n / 10)))
    ]

pub digits_value-show_nat : (n : ℕ) → digits_value 0 (show_nat n) ≡ n
unfolding show_nat
digits_value-show_nat n = digits_value-digits_of (suc n) n (omega arith)

first-AllDigits :
    (c : ℕ) (s : Text) → AllDigits (c ∷ s) → signed_value (c ∷ s) ≡ pos (digits_value 0 (c ∷ s))
unfolding signed_value is_digit
first-AllDigits c s h = ground (arith, h.0)

skip_spaces-AllDigits : (s : Text) → AllDigits s → skip_spaces s ≡ s
unfolding skip_spaces is_space is_digit
skip_spaces-AllDigits [] h = refl
skip_spaces-AllDigits (c ∷ s) h = ground (arith, h.0)

signed_value-AllDigits : (s : Text) → AllDigits s → signed_value s ≡ pos (digits_value 0 s)
unfolding signed_value digits_value
signed_value-AllDigits [] h = refl
signed_value-AllDigits (c ∷ s) h = first-AllDigits c s h

pub show_nat-AllDigits : (n : ℕ) → AllDigits (show_nat n)
unfolding show_nat
show_nat-AllDigits n = digits_of-AllDigits (suc n) n

below_zero : (n : ℕ) → sub_ℕ 0 (suc n) ≡ negsuc n
below_zero n = ground arith

-- A number is read as it was printed.
pub atoi-show_int : (n : ℤ) → atoi (show_int n) ≡ n
unfolding atoi show_int
atoi-show_int (pos n) =
    let all = show_nat-AllDigits n in
    rw
      (
        skip_spaces-AllDigits (show_nat n) all,
        signed_value-AllDigits (show_nat n) all,
        digits_value-show_nat n,
      )
      refl
atoi-show_int (negsuc n) = ap (sub_ℕ 0) (digits_value-show_nat (suc n)) ∙ below_zero n
