-- ===== src/Floats.antt =====
-- `float` and `double`, of which the model knows the operations that the program calls. Each kind
-- is an `Arith`; `Floats` joins the two by the conversions of C++, and has the functions of the
-- standard library between numbers and text. The laws that theorems assume are records of their
-- own, stated so that they hold of IEEE numbers with NaN and infinities; `Fixed` shows that
-- they can be met.
pub mod Fixed
use ir_pit_crew.Prelude.{ℕ, ◌<◌, ◌^◌, ◌/◌, ◌≤◌, ◌≡◌, Bool, true, not, ◌⊎◌}
use ir_pit_crew.Prelude.Int.{ℤ, pos, negsuc}
use ir_pit_crew.Prelude.Text.{Text}

pub record Arith : Type 1 where
  pub Num : Type 0
  -- an `int` as a number
  pub of_int : ℤ → Num
  -- the number written with these digits, the last `k` of them behind the point
  pub decimal : ℕ → ℕ → Num
  pub add : Num → Num → Num
  pub sub : Num → Num → Num
  pub mul : Num → Num → Num
  pub div : Num → Num → Num
  pub abs : Num → Num
  pub ceil : Num → Num
  pub round : Num → Num
  -- `a < b` and `a <= b`
  pub lt : Num → Num → Bool
  pub le : Num → Num → Bool
  -- `(int) a`
  pub to_int : Num → ℤ

pub record Floats : Type 1 where
  pub single : Arith
  pub double : Arith
  pub widen : single.Num → double.Num
  pub narrow : double.Num → single.Num
  -- `stream << x`
  pub print_single : single.Num → Text
  pub print_double : double.Num → Text
  -- `atof`
  pub atof : Text → double.Num
  -- what `stream >> x` leaves in `x`
  pub read_single : Text → single.Num
  pub read_double : Text → double.Num

abbrev pub nought : (A : Arith) → A.Num
nought A = A.of_int (pos 0)

abbrev pub minus_one : (A : Arith) → A.Num
minus_one A = A.of_int (negsuc 0)

-- Not NaN.
abbrev pub IsNumber : (A : Arith) → A.Num → Type 0
IsNumber A x = A.le x x ≡ true

-- Comparison: total away from NaN, and false with it.
pub record IsOrdered (A : Arith) : Type 0 where
  pub number_of_le : (a b : A.Num) → A.le a b ≡ true → IsNumber A a × IsNumber A b
  pub le_trans : (a b c : A.Num) → A.le a b ≡ true → A.le b c ≡ true → A.le a c ≡ true
  pub le_total : (a b : A.Num) → IsNumber A a → IsNumber A b → (A.le a b ≡ true) ⊎ (A.le b a ≡ true)
  pub lt-eq-not-le : (a b : A.Num) → IsNumber A a → IsNumber A b → A.lt a b ≡ not (A.le b a)
  pub nought_number : IsNumber A (nought A)
  pub minus_one_number : IsNumber A (minus_one A)

-- Rounding never crosses a number that can be represented: a difference of unequal numbers has the
-- sign of the exact one, a difference or a sum with a number that is not negative lies on its side.
pub record IsMonotone (A : Arith) : Type 0 where
  pub sub_pos : (a b : A.Num) → A.lt a b ≡ true → A.lt (nought A) (A.sub b a) ≡ true
  pub sub-le :
      (a b : A.Num)
      → A.lt (nought A) a ≡ true
      → A.le (nought A) b ≡ true
      → IsNumber A (A.sub a b)
      → A.le (A.sub a b) a ≡ true
  pub le-add :
      (a b : A.Num)
      → A.lt (nought A) a ≡ true
      → A.le (nought A) b ≡ true
      → A.le a (A.add a b) ≡ true

-- Halves of small counts are exact before they are cut off, and the average of two values that are
-- not negative and small enough not to overflow lies between them.
pub record IsAveraging (A : Arith) (top : A.Num) : Type 0 where
  pub halves :
      (n : ℕ) → n < 2 ^ 24 → A.to_int (A.div (A.of_int (pos n)) (A.decimal 2 0)) ≡ pos (n / 2)
  pub between :
      (a b : A.Num)
      → A.le (nought A) a ≡ true
      → A.le a b ≡ true
      → A.le b top ≡ true
      → let mean = A.div (A.add b a) (A.decimal 2 0) in (A.le a mean ≡ true) × (A.le mean b ≡ true)
