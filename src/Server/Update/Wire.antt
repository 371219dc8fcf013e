-- ===== src/Server/Update/Wire.antt =====
-- The text of an update, read by the web application: `update_text` of the server against
-- `parse_data_portion` of the client.
use ir_pit_crew.Prelude.{
  Bool, ℕ, true, ◌<◌, ◌≡◌, refl, sym, ap, ◌∙◌, false, Option, none, some, [], ◌∷◌, ◌++◌,
  append_assoc, arith, is_empty, All, if◌then◌else◌, Bool-cases, inl, inr,
}
use ir_pit_crew.Prelude.Text.{
  starts_with-delim, codes, Text, text_eq, text_eq_iff, Lacks, Lacks-append, starts_with, find_text,
}
use ir_pit_crew.Dict.{Dict, find, IsMap}
use ir_pit_crew.Dict.Laws.{find-Above}
use ir_pit_crew.Client.{value_at, parse_data_portion, data_portion, behind_semicolon, up_to_newline}
use ir_pit_crew.Server.Update.{Sync, update_text, strip_unicode, is_unchanged, data_lines, marker}

-- Every byte is an ASCII character.
abbrev pub IsAscii : Text → Type 0
IsAscii = All λ c. c < 128

pub strip_unicode-IsAscii : (s : Text) → IsAscii s → strip_unicode s ≡ s
unfolding strip_unicode
strip_unicode-IsAscii [] h = refl
strip_unicode-IsAscii (c ∷ s) (h, hs) = ground (arith, strip_unicode-IsAscii s hs)

-- A name that the format can carry.
pub record IsTag (t : Text) : Type 0 where
  pub nonempty : is_empty t ≡ false
  pub no_newline : Lacks b'\n' t
  pub no_semicolon : Lacks b';' t

-- Names and values that the format can carry.
abbrev pub IsWire : Dict → Type 0
IsWire = All λ e. IsTag e.0 × Lacks b'\n' e.1

abbrev read : Text → Text → Option Text
read tag s = value_at (find_text (b'\n' ∷ (tag ++ b';' ∷ [])) s)

-- A text that is searched from a byte that it lacks is passed over.
pub find_text-Lacks :
    (d : ℕ) (p a s : Text) → Lacks d a → find_text (d ∷ p) (a ++ s) ≡ find_text (d ∷ p) s
unfolding find_text starts_with
find_text-Lacks d p [] s h = refl
find_text-Lacks d p (c ∷ a) s (h, hs) = ground (arith, find_text-Lacks d p a s hs)

behind_semicolon-tag : (tag s : Text) → Lacks b';' tag → behind_semicolon (tag ++ b';' ∷ s) ≡ s
unfolding behind_semicolon
behind_semicolon-tag [] s h = refl
behind_semicolon-tag (c ∷ tag) s (h, hs) = rw h (behind_semicolon-tag tag s hs)

pub up_to_newline-Lacks :
    (value s : Text) → Lacks b'\n' value → up_to_newline (value ++ b'\n' ∷ s) ≡ some value
unfolding up_to_newline
up_to_newline-Lacks [] s h = refl
up_to_newline-Lacks (c ∷ value) s (h, hs) = rw (h, up_to_newline-Lacks value s hs) refl

-- One line, behind a line break: it answers for its own name, and for no other.
read-line :
    (tag name value rest : Text)
    → IsTag tag
    → IsTag name
    → Lacks b'\n' value
    → read tag (b'\n' ∷ (name ++ b';' ∷ (value ++ b'\n' ∷ rest)))
      ≡ (if text_eq tag name then some value else read tag (b'\n' ∷ rest))
unfolding find_text starts_with
read-line tag name value rest t n v =
    let after : Text = value ++ b'\n' ∷ rest in
    let same = starts_with-delim b';' tag name after t.no_semicolon n.no_semicolon in
    elim (Bool-cases (text_eq tag name)) [
      | inl e ↦
          rw
            (
              same,
              e,
              behind_semicolon-tag (b'\n' ∷ name) after (refl, n.no_semicolon),
              up_to_newline-Lacks value rest v,
            )
            refl
      | inr e ↦
          rw (same, e)
            (ap value_at (
              ap (find_text (b'\n' ∷ (tag ++ b';' ∷ [])))
                (sym (append_assoc name (b';' ∷ value) (b'\n' ∷ rest)))
              ∙ find_text-Lacks b'\n' (tag ++ b';' ∷ []) (name ++ b';' ∷ value) (b'\n' ∷ rest)
                  (Lacks-append b'\n' name (b';' ∷ value) n.no_newline (refl, v))))
    ]

read-end : (tag : Text) → IsTag tag → read tag (b'\n' ∷ []) ≡ none
unfolding find_text starts_with
read-end [] t = cc t.nonempty
read-end (c ∷ tag) t = ground arith

-- The value that an update carries under a name: none if the client has it.
abbrev pub carried : Dict → Text → Option Text → Option Text
carried last tag none = none
carried last tag (some v) = if is_unchanged last tag v then none else some v

read-data_lines :
    (tag : Text) (last now : Dict)
    → IsTag tag
    → IsWire now
    → IsMap now
    → read tag (b'\n' ∷ data_lines last now) ≡ carried last tag (find tag now)
unfolding data_lines find
read-data_lines tag last [] t w m = read-end tag t
read-data_lines tag last ((name, value) ∷ now) t (w, ws) (a, m) =
    let ih = read-data_lines tag last now t ws m in
    elim (Bool-cases (is_unchanged last name value)) [
      | inl old ↦ rw old (ground (arith, ih, text_eq_iff tag name, find-Above name now a))
      | inr new ↦
          rw (new, read-line tag name value (data_lines last now) t w.0 w.1)
            (ground (arith, ih, text_eq_iff tag name, find-Above name now a))
    ]

read-marker : (tag s : Text) → IsTag tag → read tag (marker ++ b'\n' ∷ s) ≡ read tag (b'\n' ∷ s)
unfolding find_text starts_with
read-marker [] s t = cc t.nonempty
read-marker (c ∷ tag) s t = ground (arith, t.no_newline)

-- What the client finds under a name in a whole message.
abbrev pub client_value : Text → Text → Option Text
client_value msg tag = elim (data_portion msg) [
  | none ↦ none
  | some portion ↦ parse_data_portion portion tag
]

abbrev pub body : Dict → Dict → Text
body last now = marker ++ b'\n' ∷ data_lines last now

data_portion-body : (last now : Dict) → data_portion (body last now) ≡ some (body last now)
unfolding data_portion find_text starts_with
data_portion-body last now = refl

data_portion-session :
    (session : Text) (last now : Dict)
    → Lacks b'*' session
    → data_portion (session ++ b'\n' ∷ body last now) ≡ some (body last now)
unfolding data_portion
data_portion-session session last now h =
    find_text-Lacks b'*' (codes "**D.A.T.A***") session (b'\n' ∷ body last now) h
    ∙ find_text-Lacks b'*' (codes "**D.A.T.A***") (b'\n' ∷ []) (body last now) (refl, tt)
    ∙ data_portion-body last now

parse_data_portion-body :
    (tag : Text) (last now : Dict)
    → IsTag tag
    → IsWire now
    → IsMap now
    → parse_data_portion (body last now) tag ≡ carried last tag (find tag now)
unfolding parse_data_portion
parse_data_portion-body tag last now t w m =
    rw t.nonempty (read-marker tag (data_lines last now) t ∙ read-data_lines tag last now t w m)

-- The values that a message leaves out: those of `last_sent`, unless all are sent anew.
abbrev pub base : Sync → Dict
base s = if s.connection_reset then [] else s.last_sent

IsAscii-suffix : (a b : Text) → IsAscii (a ++ b) → IsAscii b
IsAscii-suffix [] b h = h
IsAscii-suffix (c ∷ a) b (h, hs) = IsAscii-suffix a b hs

client_value-portion :
    (msg portion tag : Text)
    → data_portion msg ≡ some portion
    → client_value msg tag ≡ parse_data_portion portion tag
client_value-portion msg portion tag e = ground (arith, e)

client_value-sync :
    (reset : Bool) (last now : Dict) (session tag : Text)
    → let s : Sync = record { connection_reset = reset; last_sent = last } in
      IsTag tag
      → IsWire now
      → IsMap now
      → Lacks b'*' session
      → IsAscii (session ++ b'\n' ∷ body (base s) now)
      → client_value (update_text s now session) tag ≡ carried (base s) tag (find tag now)
unfolding update_text
client_value-sync true last now session tag t w m l a =
    rw (strip_unicode-IsAscii (session ++ b'\n' ∷ body [] now) a) (
      client_value-portion (session ++ b'\n' ∷ body [] now) (body [] now) tag
        (data_portion-session session [] now l)
      ∙ parse_data_portion-body tag [] now t w m)
client_value-sync false last now session tag t w m l a =
    rw (strip_unicode-IsAscii (body last now) (IsAscii-suffix session (b'\n' ∷ body last now) a).1)
      (client_value-portion (body last now) (body last now) tag (data_portion-body last now)
        ∙ parse_data_portion-body tag last now t w m)

-- Let the names and values of the data be ones that the format can carry, the session info without
-- `*`, and all of the message ASCII. Then the client finds in an update, under each name, the
-- value of the data, except where the server left it out because it is what was last sent; it
-- finds nothing under a name that is not in the data.
pub client_value-update_text :
    (s : Sync) (now : Dict) (session tag : Text)
    → IsTag tag
    → IsWire now
    → IsMap now
    → Lacks b'*' session
    → IsAscii (session ++ b'\n' ∷ body (base s) now)
    → client_value (update_text s now session) tag ≡ carried (base s) tag (find tag now)
client_value-update_text s now session tag =
    client_value-sync s.connection_reset s.last_sent now session tag
