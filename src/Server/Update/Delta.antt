-- ===== src/Server/Update/Delta.antt =====
-- The messages of one connection and the client's copy of the data.
use ir_pit_crew.Prelude.{
  ◌≡◌, refl, true, false, Option, none, some, List, [], ◌∷◌, ◌++◌, arith, Option-cases, Bool-cases,
  inl, inr,
}
use ir_pit_crew.Prelude.Text.{Text, Lacks, text_eq_iff}
use ir_pit_crew.Dict.{Dict, find, IsMap}
use ir_pit_crew.Shared.{SharedData, get_data}
use ir_pit_crew.Server.Update.{Sync, is_unchanged, on_writable}
use ir_pit_crew.Server.Update.Wire.{
  IsAscii, IsTag, IsWire, body, base, carried, client_value, client_value-update_text,
}

-- The last value that the client has read for each name out of its messages: it stays until a
-- message brings another. What a page does with the values is not in it.
abbrev pub View : Type 0
View = Text → Option Text

abbrev pub or_old : Option Text → Option Text → Option Text
or_old none old = old
or_old (some v) old = some v

pub apply_message : View → Text → View
apply_message view msg tag = or_old (client_value msg tag) (view tag)

-- What one callback finds in the shared values, fit for the wire.
pub record IsFit (s : Sync) (at_data at_info : SharedData) : Type 0 where
  pub wire : IsWire at_data.data_map
  pub keys : IsMap at_data.data_map
  pub session : Lacks b'*' at_info.session_info
  pub ascii : IsAscii (at_info.session_info ++ b'\n' ∷ body (base s) at_data.data_map)

-- The client holds everything that the server remembers to have sent.
abbrev pub InStep : Sync → View → Type 0
InStep s view =
    s.connection_reset ≡ false
    → (tag v : Text) → IsTag tag
    → find tag s.last_sent ≡ some v
    → view tag ≡ some v

is_unchanged-find :
    (last : Dict) (tag v : Text) → is_unchanged last tag v ≡ true → find tag last ≡ some v
unfolding is_unchanged
is_unchanged-find last tag v h = elim (Option-cases (find tag last)) [
  | inl e ↦ ground (arith, e)
  | inr (w, e) ↦ ground (arith, e, text_eq_iff w v)
]

not-is_unchanged-nil : (tag v : Text) → is_unchanged [] tag v ≡ false
unfolding is_unchanged
not-is_unchanged-nil tag v = refl

-- A value that is left out is one that the client holds.
or_old-carried :
    (s : Sync) (view : View) (tag v : Text)
    → InStep s view
    → IsTag tag
    → or_old (carried (base s) tag (some v)) (view tag) ≡ some v
or_old-carried s view tag v step t = elim (Bool-cases s.connection_reset) [
  | inl reset ↦ rw (reset, not-is_unchanged-nil tag v) refl
  | inr going ↦ rw going (elim (Bool-cases (is_unchanged s.last_sent tag v)) [
    | inl old ↦ rw old (step going tag v t (is_unchanged-find s.last_sent tag v old))
    | inr new ↦ rw new refl
  ])
]

-- One message brings a client that is in step up to date.
up_to_date :
    (s : Sync) (at_data at_info : SharedData) (view : View)
    → InStep s view
    → IsFit s at_data at_info
    → (tag v : Text) → IsTag tag
    → find tag at_data.data_map ≡ some v
    → apply_message view (on_writable s at_data at_info).0 tag ≡ some v
unfolding on_writable apply_message
up_to_date s at_data at_info view step fit tag v t found =
    rw
      (
        client_value-update_text s at_data.data_map at_info.session_info tag t fit.wire fit.keys
            fit.session fit.ascii,
        found,
      )
      (or_old-carried s view tag v step t)

-- The two reads of each callback, in order.
abbrev pub Rounds : Type 0
Rounds = List (SharedData × SharedData)

abbrev pub serve : Sync → View → Rounds → Sync × View
serve s view [] = (s, view)
serve s view ((d, i) ∷ rounds) =
    let sent = on_writable s d i in serve sent.1 (apply_message view sent.0) rounds

abbrev pub AllFit : Sync → Rounds → Type 0
AllFit s [] = Unit
AllFit s ((d, i) ∷ rounds) = IsFit s d i × AllFit (on_writable s d i).1 rounds

last_sent-on_writable : (s : Sync) (d i : SharedData) → (on_writable s d i).1.last_sent ≡ d.data_map
unfolding on_writable get_data
last_sent-on_writable s d i = refl

pub on_writable-InStep :
    (s : Sync) (d i : SharedData) (view : View)
    → InStep s view
    → IsFit s d i
    → InStep (on_writable s d i).1 (apply_message view (on_writable s d i).0)
on_writable-InStep s d i view step fit going tag v t found =
    up_to_date s d i view step fit tag v t (rw (last_sent-on_writable s d i) at found)

serve-InStep :
    (s : Sync) (view : View) (rounds : Rounds)
    → InStep s view
    → AllFit s rounds
    → InStep (serve s view rounds).0 (serve s view rounds).1
serve-InStep s view [] step fit = step
serve-InStep s view ((d, i) ∷ rounds) step (f, fs) =
    serve-InStep (on_writable s d i).1 (apply_message view (on_writable s d i).0) rounds
      (on_writable-InStep s d i view step f) fs

-- After a client has connected, or the plugin loop has asked for a reset, and whatever the client
-- held before: once any number of updates and one more are through, the client holds the value
-- of every name in the data that the last of these updates was made from. Each update has to be
-- made from data in order, with names and values that the format can carry and session info with no
-- `*`, all of it ASCII.
pub serve-up_to_date :
    (s : Sync) (view : View) (rounds : Rounds) (d i : SharedData)
    → s.connection_reset ≡ true
    → AllFit s rounds
    → IsFit (serve s view rounds).0 d i
    → (tag v : Text) → IsTag tag
    → find tag d.data_map ≡ some v
    → let (s', view') = serve s view rounds in
      apply_message view' (on_writable s' d i).0 tag ≡ some v
serve-up_to_date s view rounds d i reset fits fit =
    let (s', view') = serve s view rounds in
    up_to_date s' d i view' (serve-InStep s view rounds (λ going. cc (reset, going)) fits) fit
