-- ===== src/Floats/Fixed.antt =====
-- Numbers of thousandths: an instance of the operations and of their laws.
use ir_pit_crew.Prelude.{
  ℕ, zero, suc, ◌+◌, ◌*◌, ◌/◌, ◌%◌, ◌^◌, ◌-◌, refl, arith, [], ◌∷◌, ◌++◌, ◌==◌, if◌then◌else◌,
}
use ir_pit_crew.Prelude.Int.{
  ℤ, pos, negsuc, pos_part, neg_part, sub_ℕ, ◌+ℤ◌, ◌-ℤ◌, ◌*ℤ◌, quot, lt_ℤ, le_ℤ,
}
use ir_pit_crew.Prelude.Text.{Text}
use ir_pit_crew.Floats.{Arith, Floats, IsOrdered, IsMonotone}

-- a / b, rounded towards zero; 0 for a division by 0.
abbrev divide : ℤ → ℤ → ℤ
divide a (pos b) = quot (a *ℤ pos 1000) b
divide a (negsuc b) = pos 0 -ℤ quot (a *ℤ pos 1000) (suc b)

abbrev absolute : ℤ → ℤ
absolute a = pos (pos_part a + neg_part a)

abbrev round_up : ℤ → ℤ
round_up (pos n) = pos ((n + 999) / 1000 * 1000)
round_up (negsuc n) = sub_ℕ 0 (suc n / 1000 * 1000)

abbrev round_half : ℤ → ℤ
round_half (pos n) = pos ((n + 500) / 1000 * 1000)
round_half (negsuc n) = sub_ℕ 0 ((suc n + 500) / 1000 * 1000)

abbrev pub milli : Arith
milli = record {
  Num = ℤ;
  of_int = λ n. n *ℤ pos 1000;
  decimal = λ m k. pos (m * 1000 / 10 ^ k);
  add = λ a b. a +ℤ b;
  sub = λ a b. a -ℤ b;
  mul = λ a b. quot (a *ℤ b) 1000;
  div = divide;
  abs = absolute;
  ceil = round_up;
  round = round_half;
  lt = lt_ℤ;
  le = le_ℤ;
  to_int = λ a. quot a 1000;
}

-- Three digits behind the last point: enough to print and to read without loss.
abbrev pub digits_of : ℕ → ℕ → Text
digits_of zero n = []
digits_of (suc k) n = digits_of k (n / 10) ++ (b'0' + n % 10) ∷ []

abbrev print : ℤ → Text
print (pos n) = b'+' ∷ digits_of 12 n
print (negsuc n) = b'-' ∷ digits_of 12 (suc n)

abbrev value_of : ℕ → Text → ℕ
value_of acc [] = acc
value_of acc (c ∷ s) = value_of (acc * 10 + (c - b'0')) s

abbrev read_signed : Text → ℤ
read_signed [] = pos 0
read_signed (c ∷ s) = if c == b'-' then sub_ℕ 0 (value_of 0 s) else pos (value_of 0 s)

abbrev pub fixed : Floats
fixed = record {
  single = milli;
  double = milli;
  widen = λ a. a;
  narrow = λ a. a;
  print_single = print;
  print_double = print;
  atof = read_signed;
  read_single = read_signed;
  read_double = read_signed;
}

pub milli-IsOrdered : IsOrdered milli
unfolding ◌*ℤ◌
milli-IsOrdered = record {
  number_of_le = λ a b h. ground arith;
  le_trans = λ a b c h k. ground arith;
  le_total = λ a b h k. ground arith;
  lt-eq-not-le = λ a b h k. ground arith;
  nought_number = refl;
  minus_one_number = refl;
}

pub milli-IsMonotone : IsMonotone milli
unfolding ◌*ℤ◌ ◌-ℤ◌ ◌+ℤ◌
milli-IsMonotone = record {
  sub_pos = λ a b h. ground arith;
  sub-le = λ a b h k n. ground arith;
  le-add = λ a b h k. ground arith;
}
