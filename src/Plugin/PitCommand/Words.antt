-- ===== src/Plugin/PitCommand/Words.antt =====
-- Numbers and words in the lines of a client's message.
use ir_pit_crew.Prelude.{ℕ, ◌+◌, ◌-◌, ◌*◌, ◌≡◌, refl, Bool, true, false, [], ◌∷◌, ◌++◌, arith}
use ir_pit_crew.Prelude.Int.{pos}
use ir_pit_crew.Prelude.Number.{
  is_digit, is_space, skip_spaces, digits_value, signed_value, atoi, AllDigits,
}
use ir_pit_crew.Prelude.Text.{Text, starts_with, find_text, contains}
use ir_pit_crew.Client.{optional_line}

digits_value-newline :
    (acc : ℕ) (s rest : Text)
    → AllDigits s
    → digits_value acc (s ++ b'\n' ∷ rest) ≡ digits_value acc s
unfolding digits_value is_digit
digits_value-newline acc [] rest h = refl
digits_value-newline acc (c ∷ s) rest (h, hs) =
    rw h (digits_value-newline (acc * 10 + (c - b'0')) s rest hs)

-- A number with a line break behind it is read to its end.
pub atoi-newline :
    (c : ℕ) (s rest : Text)
    → AllDigits (c ∷ s)
    → atoi ((c ∷ s) ++ b'\n' ∷ rest) ≡ pos (digits_value 0 (c ∷ s))
unfolding atoi skip_spaces is_space signed_value is_digit
atoi-newline c s rest h = ground (arith, digits_value-newline 0 (c ∷ s) rest h)

-- A text that starts with no digit is not found among digits.
pub contains-digits :
    (c : ℕ) (p s rest : Text)
    → is_digit c ≡ false
    → AllDigits s
    → contains (c ∷ p) (s ++ rest) ≡ contains (c ∷ p) rest
unfolding contains find_text starts_with is_digit
contains-digits c p [] rest n h = refl
contains-digits c p (d ∷ s) rest n (h, hs) = ground (arith, contains-digits c p s rest n hs)

-- A line of another word is passed over.
pub passes :
    (p w : Text)
    → ((rest : Text) → contains p (w ++ b'\n' ∷ rest) ≡ contains p rest)
    → (b : Bool) (rest : Text) → contains p (optional_line b w rest) ≡ contains p rest
unfolding optional_line
passes p w h true rest = h rest
passes p w h false rest = refl

-- The line of the word itself is found if it is there.
pub hits :
    (w : Text)
    → ((rest : Text) → contains w (w ++ b'\n' ∷ rest) ≡ true)
    → (b : Bool) (rest : Text) → contains w rest ≡ false
    → contains w (optional_line b w rest) ≡ b
unfolding optional_line
hits w h true rest k = h rest
hits w h false rest k = k
