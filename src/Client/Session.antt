-- ===== src/Client/Session.antt =====
-- How the web application reads the session info: parseYaml of
-- irPitCrew_install/Client/parseYaml.js.
use ir_pit_crew.Prelude.{
  ℕ, ◌≡◌, refl, sym, ap, ◌∙◌, false, Option, none, some, List, [], ◌∷◌, ◌++◌, ◌==◌, ◌||◌,
  append_assoc, is_empty, if◌then◌else◌, Bool-cases, inl, inr,
}
use ir_pit_crew.Prelude.Text.{Text, Lacks, find_text, starts_with, starts_with-append}
use ir_pit_crew.Client.{up_to_newline}
use ir_pit_crew.Server.Update.Wire.{find_text-Lacks, up_to_newline-Lacks}

-- `split(":")`: the piece behind the last colon is one too.
unfoldable pub split_at_colons : Text → List Text
split_at_colons [] = [] ∷ []
split_at_colons (c ∷ s) = elim (split_at_colons s) [
  | [] ↦ [] ∷ []
  | piece ∷ more ↦ if c == b':' then [] ∷ piece ∷ more else (c ∷ piece) ∷ more
]

-- Each token is looked for from the place of the one before it; `none` if one is not there.
unfoldable pub seek : List Text → Text → Option Text
unfolding find_text
seek [] s = some s
seek (token ∷ tokens) s = elim (find_text token s) [ none ↦ none | some at ↦ seek tokens at ]

-- `slice(pos)` for the first `:`, with the whole text if there is none.
unfoldable pub from_colon : Text → Option Text
from_colon [] = none
from_colon (c ∷ s) = let rest = from_colon s in if c == b':' then some (c ∷ s) else rest

abbrev or_whole : Option Text → Text → Text
or_whole none whole = whole
or_whole (some t) whole = t

abbrev behind_first : Text → Text
behind_first [] = []
behind_first (c ∷ s) = s

abbrev or_nothing : Option Text → Text
or_nothing none = []
or_nothing (some t) = t

-- `slice(1, pos)` for the first line break, which is not the first character.
abbrev line_behind_first : Text → Text
line_behind_first [] = []
line_behind_first (c ∷ s) = if c == b'\n' then [] else or_nothing (up_to_newline s)

unfoldable pub parse_yaml : Text → Text → Text
unfolding split_at_colons seek from_colon up_to_newline
parse_yaml info path =
    if is_empty info || is_empty path then [] else elim (seek (split_at_colons path) info) [
      | none ↦ []
      | some at ↦ line_behind_first (or_whole (from_colon at) at)
    ]

some_pieces : (s : Text) → (p : Text) × (ps : List Text) × (split_at_colons s ≡ p ∷ ps)
unfolding split_at_colons
some_pieces [] = ([], [], refl)
some_pieces (c ∷ s) =
    let (p, ps, e) = some_pieces s in
    elim (Bool-cases (c == b':')) [
      | inl colon ↦ ([], p ∷ ps, rw (e, colon) refl)
      | inr other ↦ (c ∷ p, ps, rw (e, other) refl)
    ]

split_nothing : split_at_colons [] ≡ [] ∷ []
unfolding split_at_colons
split_nothing = refl

split-Lacks :
    (token s : Text)
    → Lacks b':' token
    → split_at_colons (token ++ b':' ∷ s) ≡ token ∷ split_at_colons s
unfolding split_at_colons
split-Lacks [] s h = let (p, ps, e) = some_pieces s in rw e refl
split-Lacks (c ∷ token) s (h, hs) = rw (split-Lacks token s hs, h) refl

-- A token is found behind a text without its first character.
find-Lacks :
    (d : ℕ) (token gap s : Text)
    → Lacks d gap
    → find_text (d ∷ token) (gap ++ (d ∷ token ++ s)) ≡ some (d ∷ token ++ s)
unfolding find_text
find-Lacks d token gap s h =
    find_text-Lacks d token gap (d ∷ token ++ s) h ∙ rw (starts_with-append (d ∷ token) s) refl

from_colon-Lacks :
    (token s : Text) → Lacks b':' token → from_colon (token ++ b':' ∷ s) ≡ some (b':' ∷ s)
unfolding from_colon
from_colon-Lacks [] s h = refl
from_colon-Lacks (c ∷ token) s (h, hs) = rw (h, from_colon-Lacks token s hs) refl

find-nothing : (s : Text) → find_text [] s ≡ some s
unfolding find_text starts_with
find-nothing [] = refl
find-nothing (c ∷ s) = refl

-- A section, then a key in it with its value, and what comes before, between and behind them.
abbrev pub info_of : Text → Text → Text → Text → Text → Text → Text
info_of before section between key value behind =
    before ++ (section ++ (between ++ (key ++ b':' ∷ (value ++ b'\n' ∷ behind))))

abbrev pub path_of : Text → Text → Text
path_of section key = section ++ b':' ∷ (key ++ b':' ∷ [])

line-Lacks :
    (value s : Text) → Lacks b'\n' value → line_behind_first (b':' ∷ (value ++ b'\n' ∷ s)) ≡ value
line-Lacks value s h = ap or_nothing (up_to_newline-Lacks value s h)

seek-step :
    (token : Text) (tokens : List Text) (s at : Text)
    → find_text token s ≡ some at
    → seek (token ∷ tokens) s ≡ seek tokens at
unfolding seek
seek-step token tokens s at e = rw (e, seek) refl

seek-path :
    (x : ℕ) (xs : Text) (y : ℕ) (ys before between s : Text)
    → Lacks x before
    → Lacks y (x ∷ xs ++ between)
    → seek ((x ∷ xs) ∷ (y ∷ ys) ∷ [] ∷ []) (before ++ (x ∷ xs ++ (between ++ (y ∷ ys ++ s))))
      ≡ some (y ∷ ys ++ s)
unfolding seek
seek-path x xs y ys before between s h k =
    let first = find-Lacks x xs before (between ++ (y ∷ ys ++ s)) h in
    let second : find_text (y ∷ ys) (x ∷ xs ++ (between ++ (y ∷ ys ++ s))) ≡ some (y ∷ ys ++ s) =
      ap (find_text (y ∷ ys)) (sym (append_assoc (x ∷ xs) between (y ∷ ys ++ s)))
      ∙ find-Lacks y ys (x ∷ xs ++ between) s k in
    let found : Text = y ∷ ys ++ s in
    let at : Text = x ∷ xs ++ (between ++ found) in
    seek-step (x ∷ xs) ((y ∷ ys) ∷ [] ∷ []) (before ++ at) at first
    ∙ seek-step (y ∷ ys) ([] ∷ []) at found second
    ∙ seek-step [] [] found found (find-nothing found)

-- The client reads the value of a key in a section, from the colon behind the key to the end of the
-- line, the blank that the session info has in front of a value included. Neither name has a colon,
-- the first character of the section's name is not found before it, and that of the key not in the
-- section's name and up to the key.
pub parse_yaml-value :
    (before : Text) (x : ℕ) (xs between : Text) (y : ℕ) (ys value behind : Text)
    → Lacks b':' (x ∷ xs)
    → Lacks b':' (y ∷ ys)
    → Lacks x before
    → Lacks y (x ∷ xs ++ between)
    → Lacks b'\n' value
    → parse_yaml (info_of before (x ∷ xs) between (y ∷ ys) value behind) (path_of (x ∷ xs) (y ∷ ys))
      ≡ value
unfolding parse_yaml
parse_yaml-value before x xs between y ys value behind cx cy h k v =
    let s : Text = b':' ∷ (value ++ b'\n' ∷ behind) in
    let tokens : split_at_colons (path_of (x ∷ xs) (y ∷ ys)) ≡ (x ∷ xs) ∷ (y ∷ ys) ∷ [] ∷ [] =
      split-Lacks (x ∷ xs) (y ∷ ys ++ b':' ∷ []) cx
      ∙ ap (◌∷◌ (x ∷ xs)) (split-Lacks (y ∷ ys) [] cy ∙ ap (◌∷◌ (y ∷ ys)) split_nothing) in
    rw
      (
        not_empty before (x ∷ xs ++ (between ++ (y ∷ ys ++ s))) refl,
        tokens,
        seek-path x xs y ys before between s h k,
        from_colon-Lacks (y ∷ ys) (value ++ b'\n' ∷ behind) cy,
      )
      (line-Lacks value behind v)
  where
    not_empty : (a b : Text) → is_empty b ≡ false → is_empty (a ++ b) ≡ false
    not_empty [] b e = e
    not_empty (c ∷ a) b e = refl
