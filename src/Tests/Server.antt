-- ===== src/Tests/Server.antt =====
-- src/WebServer on concrete inputs.
use ir_pit_crew.Prelude.{
  ◌⊎◌, ℕ, Bool, ltb, ◌==◌, ◌≡◌, ◌≢◌, ◌<◌, refl, true, false, none, some, List, [], ◌∷◌, ◌++◌, arith,
  if◌then◌else◌,
}
use ir_pit_crew.Prelude.Text.{Text, codes, text_eq, text_lt, Lacks, contains, starts_with}
use ir_pit_crew.Dict.{Dict, find, IsMap}
use ir_pit_crew.Shared.{SharedData, get_data}
use ir_pit_crew.Server.Update.{Sync, update_text, on_writable, data_lines, is_unchanged}
use ir_pit_crew.Server.Update.Wire.{
  IsTag, IsWire, IsAscii, body, base, carried, client_value, client_value-update_text,
}
use ir_pit_crew.Server.Update.Delta.{IsFit, Rounds, View, apply_message, serve, serve-up_to_date}
use ir_pit_crew.Server.Loop.Stop.{stop_ends, no_context}
use ir_pit_crew.Server.Loop.{
  begin_thread, asks_stop, writable, Action, server, established, asks_update, asks_reset,
  loop_step, in_service, on_established, update_client, start, run, act, stopped,
}
use ir_pit_crew.Server.Loop.Requests.{remembers, turns, reset_kept, reset_answered}
use ir_pit_crew.Server.Http.{Served, http, callback_http, requested, callback_http_confined}

abbrev some_steps : List Action
some_steps = server ∷ established ∷ server ∷ asks_update ∷ server ∷ server ∷ server ∷ []

some_steps-running : (run some_steps start).is_running ≡ true
unfolding run act start loop_step in_service on_established update_client
some_steps-running = refl

some_steps-place : (run some_steps start).place ≢ stopped
unfolding run act start loop_step in_service on_established update_client
some_steps-place e = ground arith

reset_kept_example :
    let f = run some_steps start in
    remembers f.full_updates (run (server ∷ server ∷ []) (act asks_reset f)) ≡ true
reset_kept_example = reset_kept some_steps (server ∷ server ∷ [])

reset_answered_example :
    let f = run some_steps start in
    f.full_updates < (turns 18 (act asks_update (act asks_reset f))).full_updates
reset_answered_example = reset_answered some_steps some_steps-running some_steps-place

abbrev page : Served
page = requested (codes "/")

page-served : (callback_http (λ f. true) (http (codes "/"))).0 ≡ page ∷ []
unfolding callback_http requested
page-served = refl

root-slash : starts_with (codes "/") (codes "/") ≡ true
unfolding starts_with
root-slash = refl

callback_http_confined_example :
    ((starts_with (codes "./Client/") page.path ≡ true) ⊎ (page.path ≡ codes "./Client"))
    × (contains (codes "..") page.path ≡ false)
callback_http_confined_example =
    callback_http_confined (λ f. true) (codes "/") page root-slash page-served

abbrev pub telemetry : Dict
telemetry = (codes "Lap", codes "3") ∷ (codes "Speed", codes "40") ∷ []

abbrev fresh : Sync
fresh = record { connection_reset = true; last_sent = [] }

abbrev pub below_128 : Text → Bool
below_128 [] = true
below_128 (c ∷ s) = if ltb c 128 then below_128 s else false

pub below_128-IsAscii : (s : Text) → below_128 s ≡ true → IsAscii s
below_128-IsAscii [] h = tt
below_128-IsAscii (c ∷ s) h = ground (arith, below_128-IsAscii s)

abbrev pub lacks : ℕ → Text → Bool
lacks d [] = true
lacks d (c ∷ s) = if c == d then false else lacks d s

pub lacks-Lacks : (d : ℕ) (s : Text) → lacks d s ≡ true → Lacks d s
lacks-Lacks d [] h = tt
lacks-Lacks d (c ∷ s) h = ground (arith, lacks-Lacks d s)

pub Lap-IsTag : IsTag (codes "Lap")
Lap-IsTag = record {
  nonempty = refl;
  no_newline = lacks-Lacks b'\n' (codes "Lap") refl;
  no_semicolon = lacks-Lacks b';' (codes "Lap") refl;
}

Speed-IsTag : IsTag (codes "Speed")
Speed-IsTag = record {
  nonempty = refl;
  no_newline = lacks-Lacks b'\n' (codes "Speed") refl;
  no_semicolon = lacks-Lacks b';' (codes "Speed") refl;
}

pub telemetry-IsWire : IsWire telemetry
telemetry-IsWire = (
  (Lap-IsTag, lacks-Lacks b'\n' (codes "3") refl),
  ((Speed-IsTag, lacks-Lacks b'\n' (codes "40") refl), tt),
)

pub telemetry-IsMap : IsMap telemetry
unfolding text_lt
telemetry-IsMap = ((refl, tt), (tt, tt))

fresh-IsAscii : IsAscii (codes "Info" ++ b'\n' ∷ body [] telemetry)
unfolding data_lines is_unchanged
fresh-IsAscii = below_128-IsAscii (codes "Info" ++ b'\n' ∷ body [] telemetry) refl

client_value-update_text_example :
    client_value (update_text fresh telemetry (codes "Info")) (codes "Lap")
    ≡ carried (base fresh) (codes "Lap") (find (codes "Lap") telemetry)
client_value-update_text_example =
    client_value-update_text fresh telemetry (codes "Info") (codes "Lap") Lap-IsTag telemetry-IsWire
      telemetry-IsMap (lacks-Lacks b'*' (codes "Info") refl) fresh-IsAscii

abbrev at_lap_3 : SharedData
at_lap_3 = record { session_info = codes "Info"; data_map = telemetry; fuel_message = [] }

at_lap_3-IsFit : IsFit fresh at_lap_3 at_lap_3
at_lap_3-IsFit = record {
  wire = telemetry-IsWire;
  keys = telemetry-IsMap;
  session = lacks-Lacks b'*' (codes "Info") refl;
  ascii = fresh-IsAscii;
}

abbrev faster : Dict
faster = (codes "Lap", codes "3") ∷ (codes "Speed", codes "41") ∷ []

abbrev at_lap_3_later : SharedData
at_lap_3_later = record { session_info = codes "Info"; data_map = faster; fuel_message = [] }

abbrev first_round : Rounds
first_round = (at_lap_3, at_lap_3) ∷ []

abbrev nothing : View
nothing tag = none

faster-IsWire : IsWire faster
faster-IsWire = (
  (Lap-IsTag, lacks-Lacks b'\n' (codes "3") refl),
  ((Speed-IsTag, lacks-Lacks b'\n' (codes "41") refl), tt),
)

faster-IsMap : IsMap faster
unfolding text_lt
faster-IsMap = ((refl, tt), (tt, tt))

later-IsAscii :
    IsAscii (codes "Info" ++ b'\n' ∷ body (base (serve fresh nothing first_round).0) faster)
unfolding data_lines is_unchanged on_writable get_data find text_eq
later-IsAscii =
    below_128-IsAscii
      (codes "Info" ++ b'\n' ∷ body (base (serve fresh nothing first_round).0) faster) refl

later-IsFit : IsFit (serve fresh nothing first_round).0 at_lap_3_later at_lap_3_later
later-IsFit = record {
  wire = faster-IsWire;
  keys = faster-IsMap;
  session = lacks-Lacks b'*' (codes "Info") refl;
  ascii = later-IsAscii;
}

Speed-faster : find (codes "Speed") faster ≡ some (codes "41")
unfolding find text_eq
Speed-faster = refl

serve-up_to_date_example :
    let (s', view') = serve fresh nothing first_round in
    apply_message view' (on_writable s' at_lap_3_later at_lap_3_later).0 (codes "Speed")
    ≡ some (codes "41")
serve-up_to_date_example =
    serve-up_to_date fresh nothing first_round at_lap_3_later at_lap_3_later refl
      (at_lap_3-IsFit, tt) later-IsFit (codes "Speed") (codes "41") Speed-IsTag Speed-faster

stop_ends_example :
    (run
      (server ∷ asks_update ∷ server ∷ server ∷ server ∷ server ∷ server ∷ server ∷ server ∷ [])
      (act asks_stop (run some_steps (begin_thread true)))).place
    ≡ stopped
stop_ends_example =
    stop_ends true some_steps
      (server ∷ asks_update ∷ server ∷ server ∷ server ∷ server ∷ server ∷ server ∷ server ∷ [])
      (omega arith)

no_context_example :
    let f = run (asks_reset ∷ asks_update ∷ server ∷ writable ∷ []) (begin_thread false) in
    (f.place ≡ stopped) × (f.full_updates ≡ 0) × ((begin_thread false).is_running ≡ true)
no_context_example = no_context (asks_reset ∷ asks_update ∷ server ∷ writable ∷ [])
