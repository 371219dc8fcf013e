-- ===== src/Plugin/Update/Fit.antt =====
-- The names and texts of the map that src/irplugin/irplugin.cpp makes, against the format of
-- src/WebServer: a line for each name, with no line break in it, in ASCII.
pub mod Cars
pub mod Map
pub mod Row
use ir_pit_crew.Prelude.{
  ℕ, ◌<◌, ◌≡◌, refl, Bool, true, false, not, ◌&&◌, Option, none, some, List, [], ◌∷◌, ◌++◌, ◌==◌,
  ltb, is_empty, arith, All, All-append, All-map, Bool-cases, inl, inr, if◌then◌else◌,
}
use ir_pit_crew.Prelude.Text.{Text, Lacks, codes, text_eq, text_lt}
use ir_pit_crew.Dict.{Dict, insert, IsMap}
use ir_pit_crew.Floats.{Floats}
use ir_pit_crew.Server.Update.Wire.{IsAscii, IsTag}
use ir_pit_crew.System.Consistent.{IsGoodMap}
use ir_pit_crew.Plugin.DataMap.{add_data_var, add_string_data_var}
use ir_pit_crew.Plugin.Update.{Entry, number, string, add_entry, add_entries, collect, precision}

-- A character of a line.
pub record IsPlain (c : ℕ) : Type 0 where
  pub no_newline : (c == b'\n') ≡ false
  pub ascii : c < 128

-- A text that a line can carry.
abbrev pub IsLine : Text → Type 0
IsLine = All IsPlain

Lacks-IsLine : (t : Text) → IsLine t → Lacks b'\n' t
Lacks-IsLine [] h = tt
Lacks-IsLine (c ∷ t) (h, hs) = (h.no_newline, Lacks-IsLine t hs)

IsAscii-IsLine : (t : Text) → IsLine t → IsAscii t
IsAscii-IsLine t h = All-map IsPlain (λ c. c < 128) t (λ c p. p.ascii) h

-- A test for the names that the format can carry.
abbrev are_name_characters : Text → Bool
are_name_characters [] = true
are_name_characters (c ∷ t) =
    not (c == b'\n') && (not (c == b';') && (ltb c 128 && are_name_characters t))

abbrev pub is_name : Text → Bool
is_name t = not (is_empty t) && are_name_characters t

pub characters-IsLine : (t : Text) → are_name_characters t ≡ true → IsLine t × Lacks b';' t
characters-IsLine [] h = (tt, tt)
characters-IsLine (c ∷ t) h =
    let rest : are_name_characters t ≡ true = ground (arith, h) in
    let (line, lacks) = characters-IsLine t rest in
    (
      (record { no_newline = ground (arith, h); ascii = ground (arith, h) }, line),
      (ground (arith, h), lacks),
    )

is_name-IsTag : (t : Text) → is_name t ≡ true → IsTag t × IsAscii t
is_name-IsTag t h =
    let (line, lacks) = characters-IsLine t (ground (arith, h)) in
    (
      record {
        nonempty = ground (arith, h);
        no_newline = Lacks-IsLine t line;
        no_semicolon = lacks;
      },
      IsAscii-IsLine t line,
    )

-- A name and a text of which a line can be made.
abbrev pub IsFitEntry : Text × Text → Type 0
IsFitEntry e = (is_name e.0 ≡ true) × IsLine e.1

abbrev pub IsFitMap : Dict → Type 0
IsFitMap = All IsFitEntry

pub IsFitMap-IsGoodMap : (m : Dict) → IsMap m → IsFitMap m → IsGoodMap m
IsFitMap-IsGoodMap m keys h = record {
  wire =
      All-map IsFitEntry (λ e. IsTag e.0 × Lacks b'\n' e.1) m
        (λ e f. ((is_name-IsTag e.0 f.0).0, Lacks-IsLine e.1 f.1)) h;
  keys = keys;
  ascii =
      All-map IsFitEntry (λ e. IsAscii e.0 × IsAscii e.1) m
        (λ e f. ((is_name-IsTag e.0 f.0).1, IsAscii-IsLine e.1 f.1)) h;
}

insert-IsFitMap :
    (name v : Text) (m : Dict) → IsFitEntry (name, v) → IsFitMap m → IsFitMap (insert name v m)
unfolding insert
insert-IsFitMap name v [] f h = (f, tt)
insert-IsFitMap name v ((j, w) ∷ m) f (g, h) = elim (Bool-cases (text_lt name j)) [
  | inl before ↦ rw before (f, (g, h))
  | inr behind ↦ rw behind (elim (Bool-cases (text_eq name j)) [
    | inl same ↦ rw same (g, h)
    | inr other ↦ rw other (g, insert-IsFitMap name v m f h)
  ])
]

pub collect-IsFitMap :
    (m : Dict) (vars : List (Text × Text)) → IsFitMap m → IsFitMap vars → IsFitMap (collect m vars)
unfolding collect add_string_data_var
collect-IsFitMap m [] h k = h
collect-IsFitMap m ((name, v) ∷ vars) h (k, ks) =
    collect-IsFitMap (insert name v m) vars (insert-IsFitMap name v m k h) ks

-- What C++ prints of a number, a NaN and an infinity included, has no line break and is ASCII.
pub record IsPlainPrint (F : Floats) : Type 0 where
  pub single : (x : F.single.Num) → IsLine (F.print_single x)
  pub double : (x : F.double.Num) → IsLine (F.print_double x)

module _ (F : Floats) (plain : IsPlainPrint F) where
  -- The name of a value that the program adds, and its text if it is one.
  abbrev pub IsFitAdded : Entry F → Type 0
  IsFitAdded (number name x) = is_name name ≡ true
  IsFitAdded (string name t) = (is_name name ≡ true) × IsLine t

  pub add_data_var-IsFitMap :
      (m : Dict) (name : Text) (x : F.double.Num)
      → is_name name ≡ true
      → IsFitMap m
      → IsFitMap (add_data_var F m name x precision)
  unfolding add_data_var
  add_data_var-IsFitMap m name x f h = insert-IsFitMap name _ m (f, plain.double _) h

  add_entry-IsFitMap :
      (m : Dict) (e : Entry F) → IsFitAdded e → IsFitMap m → IsFitMap (add_entry F m e)
  unfolding add_entry add_string_data_var
  add_entry-IsFitMap m (number name x) f h = add_data_var-IsFitMap m name x f h
  add_entry-IsFitMap m (string name t) f h = insert-IsFitMap name t m f h

  pub add_entries-IsFitMap :
      (m : Dict) (es : List (Entry F))
      → All IsFitAdded es
      → IsFitMap m
      → IsFitMap (add_entries F m es)
  unfolding add_entries
  add_entries-IsFitMap m [] f h = h
  add_entries-IsFitMap m (e ∷ es) (f, fs) h =
      add_entries-IsFitMap (add_entry F m e) es fs (add_entry-IsFitMap m e f h)
