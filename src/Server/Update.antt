-- ===== src/Server/Update.antt =====
-- `callback_iracing_data`: the websocket protocol of src/WebServer/WebServerLWS.cpp.
pub mod Delta
pub mod Wire
use ir_pit_crew.Prelude.{
  ℕ, zero, suc, ◌+◌, Bool, true, false, not, Option, none, some, List, [], ◌∷◌, ◌++◌, ltb, ◌==◌,
  is_empty, length, take, drop, select, if◌then◌else◌,
}
use ir_pit_crew.Prelude.Text.{Text, codes, text_eq}
use ir_pit_crew.Dict.{Dict, find}
use ir_pit_crew.Shared.{SharedData, get_data, get_session_info, set_fuel_message}

-- `c >= 0 && c < 128` of a signed `char`: a byte from 128 on is negative.
unfoldable pub invalid_char : ℕ → Bool
invalid_char c = not (ltb c 128)

-- `str.erase(remove_if(...), str.end())`
unfoldable pub strip_unicode : Text → Text
unfolding invalid_char
strip_unicode s = select (λ c. not (invalid_char c)) s

-- `s_connectionReset` and `s_lastSentDataStrMap`.
pub record Sync : Type 0 where
  pub connection_reset : Bool
  pub last_sent : Dict

-- A value is left out if the last message's data had it under this name.
unfoldable pub is_unchanged : Dict → Text → Text → Bool
unfolding find
is_unchanged last name value =
    if is_empty last
    then false
    else elim (find name last) [ none ↦ false | some sent ↦ text_eq sent value ]

-- The loop over the map.
unfoldable pub data_lines : Dict → Dict → Text
unfolding is_unchanged
data_lines last [] = []
data_lines last ((name, value) ∷ m) =
    let rest = data_lines last m in
    if is_unchanged last name value then rest else name ++ b';' ∷ (value ++ b'\n' ∷ rest)

abbrev pub marker : Text
marker = codes "***D.A.T.A***\n"

-- The message for a client, from the data and the session info that were read.
unfoldable pub update_text : Sync → Dict → Text → Text
unfolding data_lines strip_unicode
update_text s now session =
    let body = λ (last : Dict). marker ++ b'\n' ∷ data_lines last now in
    strip_unicode (if s.connection_reset then session ++ b'\n' ∷ body [] else body s.last_sent)

-- `LWS_CALLBACK_SERVER_WRITEABLE`. The two reads of the shared values are two calls, between which
-- the other thread may write: `at_data` is what the first finds and `at_info` the second.
unfoldable pub on_writable : Sync → SharedData → SharedData → Text × Sync
unfolding update_text get_data get_session_info
on_writable s at_data at_info =
    let now = (get_data at_data).0 in
    let session = (get_session_info at_info).0 in
    (update_text s now session, record { connection_reset = false; last_sent = now })

abbrev zeros : ℕ → Text
zeros zero = []
zeros (suc n) = 0 ∷ zeros n

-- `memcpy` of `t` over the bytes of `buffer` from `at` on.
abbrev copy_at : ℕ → Text → Text → Text
copy_at at t buffer = take at buffer ++ (t ++ drop (at + length t) buffer)

-- `writeToSocket`, with the two paddings of libwebsockets; the result is what
-- `libwebsocket_write` is given: the bytes from `dataP` on, as many as it is told.
unfoldable pub write_to_socket : ℕ → ℕ → Text → List Text
write_to_socket pre post [] = []
write_to_socket pre post (c ∷ t) =
    let out = c ∷ t in
    let buffer = copy_at pre out (zeros (pre + length out + post)) in
    take (length out) (drop pre buffer) ∷ []

-- A C string ends at its first zero byte.
unfoldable pub c_string : Text → Text
c_string [] = []
c_string (c ∷ s) = let rest = c_string s in if c == 0 then [] else c ∷ rest

pub data Reason : Type 0 where
  established : Reason
  -- `in` with `len` bytes before its final zero; `none` is NULL
  receive : Option Text → Reason
  -- what other calls find between the two reads
  server_writable : SharedData → Reason
  other : Reason

-- What the callback works on: its static variables, the shared values behind the context's
-- user pointer (`none` is NULL), and the messages written to the socket.
pub record Conn : Type 0 where
  pub sync : Sync
  pub shared : Option SharedData
  pub written : List Text

unfoldable pub on_receive : ℕ → ℕ → Text → Conn → Conn
unfolding c_string write_to_socket set_fuel_message
on_receive pre post [] c = c
on_receive pre post (b ∷ bytes) c =
    let input = c_string (b ∷ bytes) in
    elim c.shared [
      | none ↦ c
      | some s ↦
          if text_eq input (codes "heartbeat")
          then record c { written = c.written ++ write_to_socket pre post input }
          else record c { shared = some (set_fuel_message s input) }
    ]

unfoldable pub callback_iracing_data : ℕ → ℕ → Reason → Conn → Conn
unfolding on_receive on_writable write_to_socket
callback_iracing_data pre post established c = record c {
  sync = record c.sync { connection_reset = true };
}
callback_iracing_data pre post (receive none) c = c
callback_iracing_data pre post (receive (some bytes)) c = on_receive pre post bytes c
callback_iracing_data pre post (server_writable at_info) c = elim c.shared [
  | none ↦ c
  | some at_data ↦
      let (msg, sync) = on_writable c.sync at_data at_info in
      record {
        sync = sync;
        shared = some at_info;
        written = c.written ++ write_to_socket pre post msg;
      }
]
callback_iracing_data pre post other c = c
