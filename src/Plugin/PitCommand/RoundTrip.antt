-- ===== src/Plugin/PitCommand/RoundTrip.antt =====
-- The client's message from the page to the commands that the plugin loop sends.
use mathlib.Core.Path.{subst}
use ir_pit_crew.Prelude.{
  ℕ, ◌+◌, ◌<◌, ◌^◌, ◌%◌, arith, ◌/◌, ◌≡◌, refl, ap, sym, ◌∙◌, Bool, false, Option, none, some, List,
  [], ◌∷◌, ◌++◌, ◌>>=◌, ltb, is_empty, if◌then◌else◌,
}
use ir_pit_crew.Prelude.Int.{pos}
use ir_pit_crew.Prelude.Number.{
  is_digit, digits_value, atoi, clamp_int, stream_int, digits_of, show_nat, AllDigits,
  digits_value-show_nat, show_nat-AllDigits,
}
use ir_pit_crew.Prelude.Text.{Text, codes, starts_with, find_text, contains}
use ir_pit_crew.Client.{Boxes, box_lines, pit_message}
use ir_pit_crew.Floats.{Floats}
use ir_pit_crew.Plugin.Convert.{convert_fuel_display_to_litres}
use ir_pit_crew.Plugin.PitCommand.{
  Broadcast, fuel_to_add_display, Checked, checked_of, commands, round_litres,
  handle_pit_command_message,
}
use ir_pit_crew.Plugin.PitCommand.Words.{atoi-newline, contains-digits, passes, hits}

left_front-box_lines : (c : Boxes) → contains (codes "LeftFront") (box_lines c) ≡ c.left_front
unfolding box_lines contains find_text starts_with
left_front-box_lines c =
    let p = codes "LeftFront" in
    hits p (λ r. refl) c.left_front _
      (passes p (codes "RightFront") (λ r. refl) c.right_front _
        ∙ passes p (codes "LeftRear") (λ r. refl) c.left_rear _
        ∙ passes p (codes "RightRear") (λ r. refl) c.right_rear _
        ∙ passes p (codes "FastRepair") (λ r. refl) c.fast_repair _
        ∙ passes p (codes "Windshield") (λ r. refl) c.windshield _)

right_front-box_lines : (c : Boxes) → contains (codes "RightFront") (box_lines c) ≡ c.right_front
unfolding box_lines contains find_text starts_with
right_front-box_lines c =
    let p = codes "RightFront" in
    passes p (codes "LeftFront") (λ r. refl) c.left_front _
    ∙ hits p (λ r. refl) c.right_front _
        (passes p (codes "LeftRear") (λ r. refl) c.left_rear _
          ∙ passes p (codes "RightRear") (λ r. refl) c.right_rear _
          ∙ passes p (codes "FastRepair") (λ r. refl) c.fast_repair _
          ∙ passes p (codes "Windshield") (λ r. refl) c.windshield _)

left_rear-box_lines : (c : Boxes) → contains (codes "LeftRear") (box_lines c) ≡ c.left_rear
unfolding box_lines contains find_text starts_with
left_rear-box_lines c =
    let p = codes "LeftRear" in
    passes p (codes "LeftFront") (λ r. refl) c.left_front _
    ∙ passes p (codes "RightFront") (λ r. refl) c.right_front _
    ∙ hits p (λ r. refl) c.left_rear _
        (passes p (codes "RightRear") (λ r. refl) c.right_rear _
          ∙ passes p (codes "FastRepair") (λ r. refl) c.fast_repair _
          ∙ passes p (codes "Windshield") (λ r. refl) c.windshield _)

right_rear-box_lines : (c : Boxes) → contains (codes "RightRear") (box_lines c) ≡ c.right_rear
unfolding box_lines contains find_text starts_with
right_rear-box_lines c =
    let p = codes "RightRear" in
    passes p (codes "LeftFront") (λ r. refl) c.left_front _
    ∙ passes p (codes "RightFront") (λ r. refl) c.right_front _
    ∙ passes p (codes "LeftRear") (λ r. refl) c.left_rear _
    ∙ hits p (λ r. refl) c.right_rear _
        (passes p (codes "FastRepair") (λ r. refl) c.fast_repair _
          ∙ passes p (codes "Windshield") (λ r. refl) c.windshield _)

fast_repair-box_lines : (c : Boxes) → contains (codes "FastRepair") (box_lines c) ≡ c.fast_repair
unfolding box_lines contains find_text starts_with
fast_repair-box_lines c =
    let p = codes "FastRepair" in
    passes p (codes "LeftFront") (λ r. refl) c.left_front _
    ∙ passes p (codes "RightFront") (λ r. refl) c.right_front _
    ∙ passes p (codes "LeftRear") (λ r. refl) c.left_rear _
    ∙ passes p (codes "RightRear") (λ r. refl) c.right_rear _
    ∙ hits p (λ r. refl) c.fast_repair _ (passes p (codes "Windshield") (λ r. refl) c.windshield _)

windshield-box_lines : (c : Boxes) → contains (codes "Windshield") (box_lines c) ≡ c.windshield
unfolding box_lines contains find_text starts_with
windshield-box_lines c =
    let p = codes "Windshield" in
    passes p (codes "LeftFront") (λ r. refl) c.left_front _
    ∙ passes p (codes "RightFront") (λ r. refl) c.right_front _
    ∙ passes p (codes "LeftRear") (λ r. refl) c.left_rear _
    ∙ passes p (codes "RightRear") (λ r. refl) c.right_rear _
    ∙ passes p (codes "FastRepair") (λ r. refl) c.fast_repair _
    ∙ hits p (λ r. refl) c.windshield _ (refl)

-- Behind the amount of fuel the boxes are found as in their lines.
contains-pit_message :
    (c : ℕ) (p : Text) (fuel : ℕ) (boxes : Boxes) (b : Bool)
    → is_digit c ≡ false
    → ((rest : Text) → contains (c ∷ p) (codes "\nFuel;" ++ rest) ≡ contains (c ∷ p) rest)
    → ((rest : Text) → contains (c ∷ p) (b'\n' ∷ rest) ≡ contains (c ∷ p) rest)
    → contains (c ∷ p) (box_lines boxes) ≡ b
    → contains (c ∷ p) (pit_message fuel boxes) ≡ b
unfolding pit_message
contains-pit_message c p fuel boxes b n head line h =
    head (show_nat fuel ++ b'\n' ∷ box_lines boxes)
    ∙ contains-digits c p (show_nat fuel) (b'\n' ∷ box_lines boxes) n (show_nat-AllDigits fuel)
    ∙ line (box_lines boxes)
    ∙ h

abbrev pub checked : Boxes → Checked
checked c = record {
  left_front = c.left_front;
  right_front = c.right_front;
  left_rear = c.left_rear;
  right_rear = c.right_rear;
  fast_repair = c.fast_repair;
  windshield = c.windshield;
}

checked_of-pit_message : (fuel : ℕ) (c : Boxes) → checked_of (pit_message fuel c) ≡ checked c
unfolding checked_of contains find_text starts_with is_digit
checked_of-pit_message fuel c =
    rw
      (
        contains-pit_message b'L' (codes "eftFront") fuel c c.left_front refl (λ r. refl)
            (λ r. refl) (left_front-box_lines c),
        contains-pit_message b'R' (codes "ightFront") fuel c c.right_front refl (λ r. refl)
            (λ r. refl) (right_front-box_lines c),
        contains-pit_message b'L' (codes "eftRear") fuel c c.left_rear refl (λ r. refl) (λ r. refl)
            (left_rear-box_lines c),
        contains-pit_message b'R' (codes "ightRear") fuel c c.right_rear refl (λ r. refl)
            (λ r. refl) (right_rear-box_lines c),
        contains-pit_message b'F' (codes "astRepair") fuel c c.fast_repair refl (λ r. refl)
            (λ r. refl) (fast_repair-box_lines c),
        contains-pit_message b'W' (codes "indshield") fuel c c.windshield refl (λ r. refl)
            (λ r. refl) (windshield-box_lines c),
      )
      refl

snoc-cons : (s : Text) (d : ℕ) → (c : ℕ) × (t : Text) × (s ++ d ∷ [] ≡ c ∷ t)
snoc-cons [] d = (d, [], refl)
snoc-cons (c ∷ s) d = (c, s ++ d ∷ [], refl)

-- A number has a digit.
show_nat-cons : (n : ℕ) → (c : ℕ) × (t : Text) × (show_nat n ≡ c ∷ t)
unfolding show_nat digits_of
show_nat-cons n = snoc-cons (if ltb n 10 then [] else digits_of n (n / 10)) (b'0' + n % 10)

stream_int-small : (s : Text) (n : ℕ) → atoi s ≡ pos n → n < 2 ^ 31 → stream_int s ≡ pos n
unfolding stream_int clamp_int
stream_int-small s n e h = rw e (ground (arith, h))

value-line :
    (s rest : Text) (c : ℕ) (t : Text)
    → s ≡ c ∷ t
    → AllDigits s
    → digits_value 0 s < 2 ^ 31
    → (if is_empty (s ++ b'\n' ∷ rest) then pos 0 else stream_int (s ++ b'\n' ∷ rest))
      ≡ pos (digits_value 0 s)
value-line s rest c t e =
    subst
      (λ s.
        AllDigits s
        → digits_value 0 s < 2 ^ 31
        → (if is_empty (s ++ b'\n' ∷ rest) then pos 0 else stream_int (s ++ b'\n' ∷ rest))
          ≡ pos (digits_value 0 s))
      (sym e) (λ h k. stream_int-small ((c ∷ t) ++ b'\n' ∷ rest) _ (atoi-newline c t rest h) k)

fuel-pit_message :
    (fuel : ℕ) (c : Boxes) → fuel < 2 ^ 31 → fuel_to_add_display (pit_message fuel c) ≡ pos fuel
unfolding fuel_to_add_display pit_message find_text starts_with
fuel-pit_message fuel c small =
    let (d, t, e) = show_nat-cons fuel in
    value-line (show_nat fuel) (box_lines c) d t e (show_nat-AllDigits fuel)
      (rw (digits_value-show_nat fuel) small)
    ∙ ap pos (digits_value-show_nat fuel)

commands-checked :
    (F : Floats) (skip : Bool) (r : Option F.double.Num) (a b : Checked)
    → a ≡ b
    → (elim r as (λ x. Option (List Broadcast)) [
      | none ↦ none
      | some litres ↦ some (commands skip a (round_litres F litres))
    ])
      ≡ (r >>= λ litres. some (commands skip b (round_litres F litres)))
unfolding ◌>>=◌
commands-checked F skip none a b e = refl
commands-checked F skip (some litres) a b e =
    ap (λ x. some (commands skip x (round_litres F litres))) e

nonempty-pit_message : (fuel : ℕ) (c : Boxes) → is_empty (pit_message fuel c) ≡ false
unfolding pit_message
nonempty-pit_message fuel c = refl

-- The message that the client builds from an amount of fuel that an `int` holds and its boxes, handled by the plugin
-- loop, gives the commands for just these boxes and for this amount, converted to litres and
-- rounded; only a conversion factor that is not above zero stops it.
pub handle-pit_message :
    (F : Floats) (skip : Bool) (factor : F.double.Num) (fuel : ℕ) (c : Boxes)
    → fuel < 2 ^ 31
    → handle_pit_command_message F skip factor (pit_message fuel c) ≡ (
        convert_fuel_display_to_litres F factor (F.double.of_int (pos fuel)) >>= λ litres.
        some (commands skip (checked c) (round_litres F litres)))
unfolding handle_pit_command_message ◌>>=◌
handle-pit_message F skip factor fuel c small =
    rw (nonempty-pit_message fuel c, fuel-pit_message fuel c small)
      (commands-checked F skip
        (convert_fuel_display_to_litres F factor (F.double.of_int (pos fuel)))
        (checked_of (pit_message fuel c)) (checked c) (checked_of-pit_message fuel c))
