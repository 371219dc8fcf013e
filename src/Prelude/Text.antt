-- ===== src/Prelude/Text.antt =====
-- Text as the list of its bytes, as `std::string` holds it, with the operations of the standard
-- library that the program calls.
use Prim.Native.Char.{code}
use Prim.Native.String.{String}
use Prim.Native.Nat.{ℕ}
use mathlib.Core.Path.{◌≡◌, refl, ap, ◌∙◌}
use mathlib.Core.Logic.{◌↔◌}
use mathlib.Core.Bool.{Bool, true, false}
use mathlib.Core.List.{List, [], ◌∷◌, ◌++◌, append_assoc, append-nil}
use mathlib.Core.Option.{Option, none, some}
use native.Mathlib.Omega.{arith}
use ir_pit_crew.Prelude.Lists.{All}
use ir_pit_crew.Prelude.Tests.{ltb, ◌==◌, if◌then◌else◌}

abbrev pub Text : Type 0
Text = List ℕ

abbrev pub codes : String → Text
codes String.[] = []
codes (String.◌∷◌ c s) = code c ∷ codes s

unfoldable pub text_eq : Text → Text → Bool
text_eq [] [] = true
text_eq [] (y ∷ ys) = false
text_eq (x ∷ xs) [] = false
text_eq (x ∷ xs) (y ∷ ys) = let rest = text_eq xs ys in if x == y then rest else false

pub text_eq_iff : (a b : Text) → (text_eq a b ≡ true) ↔ (a ≡ b)
unfolding text_eq
text_eq_iff [] [] = ground arith
text_eq_iff [] (y ∷ ys) = ground arith
text_eq_iff (x ∷ xs) [] = ground arith
text_eq_iff (x ∷ xs) (y ∷ ys) = ground (arith, text_eq_iff xs ys)

-- `operator<` of `std::string`: byte by byte, a proper prefix first.
unfoldable pub text_lt : Text → Text → Bool
text_lt [] [] = false
text_lt [] (y ∷ ys) = true
text_lt (x ∷ xs) [] = false
text_lt (x ∷ xs) (y ∷ ys) =
    let rest = text_lt xs ys in if ltb x y then true else if x == y then rest else false

-- `s.compare(0, p.length(), p) == 0`, where `s` is at least as long.
unfoldable pub starts_with : Text → Text → Bool
starts_with [] s = true
starts_with (c ∷ p) [] = false
starts_with (c ∷ p) (d ∷ s) = let rest = starts_with p s in if c == d then rest else false

pub starts_with-append : (p s : Text) → starts_with p (p ++ s) ≡ true
unfolding starts_with
starts_with-append [] s = refl
starts_with-append (c ∷ p) s = ground (arith, starts_with-append p s)

-- `s.find(p)`: what stands at the first occurrence of `p` and after it, or `none` for `npos`.
unfoldable pub find_text : Text → Text → Option Text
find_text p [] = if starts_with p [] then some [] else none
find_text p (c ∷ s) =
    let rest = find_text p s in if starts_with p (c ∷ s) then some (c ∷ s) else rest

unfoldable pub contains : Text → Text → Bool
unfolding find_text
contains p s = elim (find_text p s) [ none ↦ false | some _ ↦ true ]

-- `getline(stream, line, delim)`, repeated: the pieces between the delimiters. A last piece
-- is delivered only if it is not empty, since the stream is then at its end.
abbrev flush : Text → List Text
flush [] = []
flush (c ∷ cur) = (c ∷ cur) ∷ []

unfoldable pub pieces : ℕ → Text → Text → List Text
pieces delim [] cur = flush cur
pieces delim (d ∷ s) cur =
    let cut = pieces delim s [] in
    let grow = pieces delim s (cur ++ d ∷ []) in if d == delim then cur ∷ cut else grow

unfoldable pub getlines : ℕ → Text → List Text
unfolding pieces
getlines delim s = pieces delim s []

-- The byte does not occur.
abbrev pub Lacks : ℕ → Text → Type 0
Lacks d [] = Unit
Lacks d (c ∷ s) = ((c == d) ≡ false) × Lacks d s

pub ==_refl : (c : ℕ) → (c == c) ≡ true
==_refl c = ground arith

pieces-Lacks :
    (d : ℕ) (line s cur : Text)
    → Lacks d line
    → pieces d (line ++ d ∷ s) cur ≡ (cur ++ line) ∷ pieces d s []
unfolding pieces
pieces-Lacks d [] s cur h = rw (==_refl d, append-nil)
pieces-Lacks d (c ∷ line) s cur (h, hs) =
    rw h (pieces-Lacks d line s (cur ++ c ∷ []) hs ∙ rw append_assoc)

-- A line written with its delimiter is read back, and the reading goes on behind it.
pub getlines-Lacks :
    (d : ℕ) (line s : Text) → Lacks d line → getlines d (line ++ d ∷ s) ≡ line ∷ getlines d s
unfolding getlines
getlines-Lacks d line s h = pieces-Lacks d line s [] h

pub Lacks-append : (d : ℕ) (a b : Text) → Lacks d a → Lacks d b → Lacks d (a ++ b)
Lacks-append d [] b h k = k
Lacks-append d (c ∷ a) b (h, hs) k = (h, Lacks-append d a b hs k)

-- `out << line << "\n"` for each line.
unfoldable pub put_lines : List Text → Text
put_lines [] = []
put_lines (l ∷ ls) = l ++ b'\n' ∷ put_lines ls

-- Lines with no line break in them are read back as they were written.
pub getlines-put_lines :
    (ls : List Text) → All (Lacks b'\n') ls → getlines b'\n' (put_lines ls) ≡ ls
unfolding put_lines getlines
getlines-put_lines [] h = refl
getlines-put_lines (l ∷ ls) (h, hs) =
    pieces-Lacks b'\n' l (put_lines ls) [] h ∙ ap (◌∷◌ l) (getlines-put_lines ls hs)

-- Up to a byte that neither has, two texts are compared as a whole.
pub starts_with-delim :
    (d : ℕ) (a b s : Text)
    → Lacks d a
    → Lacks d b
    → starts_with (a ++ d ∷ []) (b ++ d ∷ s) ≡ text_eq a b
unfolding starts_with text_eq
starts_with-delim d [] [] s h k = ground arith
starts_with-delim d [] (y ∷ b) s h k = ground arith
starts_with-delim d (x ∷ a) [] s h k = ground arith
starts_with-delim d (x ∷ a) (y ∷ b) s h k = ground (arith, starts_with-delim d a b s h.1 k.1)
