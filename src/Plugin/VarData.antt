-- ===== src/Plugin/VarData.antt =====
-- `irsdk_getVarData_local` of src/irplugin/irplugin.cpp: one variable of the simulator as text. The
-- data is a list of bytes; how bytes make a `float` or a `double` is a parameter.
use ir_pit_crew.Prelude.{
  ℕ, zero, suc, ◌+◌, ◌-◌, ◌*◌, ◌^◌, ◌≤◌, ◌≡◌, refl, true, Option, none, some, [], ◌∷◌, ◌++◌, ◌==◌,
  ltb, leb, length, take, drop, arith, if◌then◌else◌,
}
use ir_pit_crew.Prelude.Int.{ℤ, pos, negsuc}
use ir_pit_crew.Prelude.Number.{show_nat, show_int}
use ir_pit_crew.Prelude.Text.{Text, codes}
use ir_pit_crew.Floats.{Floats, nought}
use ir_pit_crew.Plugin.DataMap.{round_multiplier, round_to_precision}

-- `irsdk_VarType`
pub data VarType : Type 0 where
  char bool int bit_field float double : VarType

-- `sizeof`
unfoldable pub size_of : VarType → ℕ
size_of char = 1
size_of bool = 1
size_of int = 4
size_of bit_field = 4
size_of float = 4
size_of double = 8

-- What the code uses of `irsdk_varHeader`.
pub record VarHeader : Type 0 where
  pub name : Text
  pub type : VarType
  pub offset : ℕ
  pub count : ℕ

-- Bytes from the lowest to the highest.
unfoldable pub unsigned_of : Text → ℕ
unsigned_of [] = 0
unsigned_of (c ∷ s) = c + 256 * unsigned_of s

-- An `int` of 32 bits.
unfoldable pub signed_of : Text → ℤ
unfolding unsigned_of
signed_of s = let n = unsigned_of s in if ltb n (2 ^ 31) then pos n else negsuc (2 ^ 32 - 1 - n)

pub data VarData : Type 0 where
  -- the result false
  not_read : VarData
  -- a read behind the end of the data, which C leaves undefined
  outside : VarData
  value : Text → Text → VarData

module _ (F : Floats) (single_of : Text → F.single.Num) (double_of : Text → F.double.Num) where
  -- Rounding in `float`, with the multiplier cut to one.
  unfoldable pub round_single : ℕ → F.single.Num → F.single.Num
  round_single precision x =
      let m = round_multiplier F precision in
      if F.double.lt (nought F.double) m
      then F.single.div (F.single.round (F.single.mul x (F.narrow m))) (F.narrow m)
      else x

  -- One item, from the bytes of its size.
  unfoldable pub item_text : ℕ → VarType → Text → Text
  unfolding signed_of unsigned_of show_int show_nat round_single round_to_precision
  item_text precision char s = s
  item_text precision bool s = show_nat (if unsigned_of s == 0 then 0 else 1)
  item_text precision int s = show_int (signed_of s)
  item_text precision bit_field s = show_int (signed_of s)
  item_text precision float s = F.print_single (round_single precision (single_of s))
  item_text precision double s = F.print_double (round_to_precision F precision (double_of s))

  -- The loop: how many items are left, the number of the next, and where it stands.
  unfoldable pub read_items : ℕ → VarType → Text → ℕ → ℕ → ℕ → Option Text
  unfolding size_of item_text
  read_items precision type bytes zero item_num var_offset = some []
  read_items precision type bytes (suc k) item_num var_offset =
      let rest = read_items precision type bytes k (suc item_num) (var_offset + size_of type) in
      let item = item_text precision type (take (size_of type) (drop var_offset bytes)) in
      let front = if item_num == 0 then [] else codes "," in
      if leb (var_offset + size_of type) (length bytes)
      then elim rest [ none ↦ none | some t ↦ some (front ++ (item ++ t)) ]
      else none

  -- The variables of the header, the header entry of the index (`none` for one that is out of range) and the data; `none` is a null pointer.
  unfoldable pub get_var_data : ℕ → Option VarHeader → Option Text → VarData
  unfolding read_items
  get_var_data precision none bytes = not_read
  get_var_data precision (some var) none = not_read
  get_var_data precision (some var) (some bytes) =
      elim (read_items precision var.type bytes var.count 0 var.offset) [
        | none ↦ outside
        | some t ↦ value var.name t
      ]

  -- Item `i` of an array, which stands `i` sizes behind its start.
  abbrev pub item_at : ℕ → VarHeader → Text → ℕ → Text
  item_at precision var bytes i =
      item_text precision var.type
        (take (size_of var.type) (drop (var.offset + i * size_of var.type) bytes))

  -- `k` items from item `i` on, with commas between them.
  abbrev pub items_from : ℕ → VarHeader → Text → ℕ → ℕ → Text
  items_from precision var bytes zero i = []
  items_from precision var bytes (suc k) i =
      (if i == 0 then [] else codes ",")
      ++ (item_at precision var bytes i ++ items_from precision var bytes k (suc i))

  read_items-items_from :
      (precision : ℕ) (var : VarHeader) (bytes : Text) (k i at : ℕ)
      → at ≡ var.offset + i * size_of var.type
      → var.offset + (i + k) * size_of var.type ≤ length bytes
      → read_items precision var.type bytes k i at ≡ some (items_from precision var bytes k i)
  unfolding read_items
  read_items-items_from precision var bytes zero i at e h = refl
  read_items-items_from precision var bytes (suc k) i at e h =
      let next : at + size_of var.type ≡ var.offset + suc i * size_of var.type = omega arith in
      let inside : leb (at + size_of var.type) (length bytes) ≡ true = ground arith in
      let ih =
        read_items-items_from precision var bytes k (suc i) (at + size_of var.type) next
          (omega arith) in
      rw (inside, ih, e) refl

  -- A variable whose items all lie in the data is read: its text is that of its items in order, with
  -- commas between them, where item `i` is taken from `i` sizes of its type behind its offset.
  pub get_var_data-items :
      (precision : ℕ) (var : VarHeader) (bytes : Text)
      → var.offset + var.count * size_of var.type ≤ length bytes
      → get_var_data precision (some var) (some bytes)
        ≡ value var.name (items_from precision var bytes var.count 0)
  unfolding get_var_data
  get_var_data-items precision var bytes h =
      rw
        (
          get_var_data,
          read_items-items_from precision var bytes var.count 0 var.offset (omega arith)
              (omega arith),
        )
        refl
