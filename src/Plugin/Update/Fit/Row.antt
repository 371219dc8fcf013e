-- ===== src/Plugin/Update/Fit/Row.antt =====
-- The texts that src/irplugin/irplugin.cpp makes of a row of the simulator's data, against the
-- format of src/WebServer.
use ir_pit_crew.Prelude.{
  ℕ, zero, suc, ◌+◌, ◌*◌, ◌≡◌, refl, Bool, true, false, List, [], ◌∷◌, ◌==◌, take, drop, map, arith,
  All, All-append, All-map, if◌then◌else◌,
}
use ir_pit_crew.Prelude.Int.{ℤ, pos, negsuc}
use ir_pit_crew.Prelude.Number.{show_nat, show_int, is_digit, show_nat-AllDigits}
use ir_pit_crew.Prelude.Text.{Text, codes}
use ir_pit_crew.Floats.{Floats}
use ir_pit_crew.Plugin.VarData.{
  VarType, char, bool, int, bit_field, float, double, VarHeader, item_text, items_from, signed_of,
  unsigned_of, size_of,
}
use ir_pit_crew.Plugin.Update.{precision}
use ir_pit_crew.Plugin.Main.Rows.{entry_of}
use ir_pit_crew.Plugin.Update.Fit.{IsPlain, IsLine, IsFitMap, IsPlainPrint, is_name}

digit-IsPlain : (c : ℕ) → is_digit c ≡ true → IsPlain c
unfolding is_digit
digit-IsPlain c h = record { no_newline = ground (arith, h); ascii = ground (arith, h) }

show_nat-IsLine : (n : ℕ) → IsLine (show_nat n)
show_nat-IsLine n =
    All-map (λ c. is_digit c ≡ true) IsPlain (show_nat n) digit-IsPlain (show_nat-AllDigits n)

show_int-IsLine : (n : ℤ) → IsLine (show_int n)
unfolding show_int
show_int-IsLine (pos n) = show_nat-IsLine n
show_int-IsLine (negsuc n) =
    (record { no_newline = refl; ascii = omega arith }, show_nat-IsLine (suc n))

-- A character that the data holds is one of a line.
abbrev pub IsPlainItem : VarType → Text → Type 0
IsPlainItem char s = IsLine s
IsPlainItem _ s = Unit

-- The bytes of an item.
abbrev pub item_bytes : VarHeader → Text → ℕ → Text
item_bytes var bytes i = take (size_of var.type) (drop (var.offset + i * size_of var.type) bytes)

-- A name that the format can carry, and characters of a line.
pub record IsFitVariable (bytes : Text) (var : VarHeader) : Type 0 where
  pub name : is_name var.name ≡ true
  pub items : (i : ℕ) → IsPlainItem var.type (item_bytes var bytes i)

module _ (F : Floats) (single_of : Text → F.single.Num) (double_of : Text → F.double.Num)
    (plain : IsPlainPrint F) where
  item-IsLine :
      (type : VarType) (s : Text)
      → IsPlainItem type s
      → IsLine (item_text F single_of double_of precision type s)
  unfolding item_text
  item-IsLine char s h = h
  item-IsLine bool s h = show_nat-IsLine (if unsigned_of s == 0 then 0 else 1)
  item-IsLine int s h = show_int-IsLine (signed_of s)
  item-IsLine bit_field s h = show_int-IsLine (signed_of s)
  item-IsLine float s h = plain.single _
  item-IsLine double s h = plain.double _

  comma-IsLine : (b : Bool) → IsLine (if b then [] else codes ",")
  comma-IsLine true = tt
  comma-IsLine false = (record { no_newline = refl; ascii = omega arith }, tt)

  items-IsLine :
      (var : VarHeader) (bytes : Text) (k i : ℕ)
      → ((j : ℕ) → IsPlainItem var.type (item_bytes var bytes j))
      → IsLine (items_from F single_of double_of precision var bytes k i)
  items-IsLine var bytes zero i h = tt
  items-IsLine var bytes (suc k) i h = All-append IsPlain _ _ (comma-IsLine (i == 0)) (
      All-append IsPlain _ _ (item-IsLine var.type (item_bytes var bytes i) (h i))
        (items-IsLine var bytes k (suc i) h))

  pub row-IsFitMap :
      (vars : List VarHeader) (bytes : Text)
      → All (IsFitVariable bytes) vars
      → IsFitMap (map (entry_of F single_of double_of bytes) vars)
  row-IsFitMap [] bytes h = tt
  row-IsFitMap (var ∷ vars) bytes (h, hs) =
      ((h.name, items-IsLine var bytes var.count 0 h.items), row-IsFitMap vars bytes hs)
