-- ===== src/Server/Protocols.antt =====
-- The protocols of src/WebServer/WebServerLWS.cpp: libwebsockets gives what happens on a connection to
-- the callback of the protocol that the client names, and a plain request to the first one.
use ir_pit_crew.Prelude.{◌≡◌, refl, Option, none, some, List, [], ◌∷◌, if◌then◌else◌}
use ir_pit_crew.Prelude.Text.{Text, codes, text_eq}

-- `callback_http` and `callback_iracing_data`
pub data Callback : Type 0 where
  http iracing_data : Callback

-- The last entry of the source, with null pointers, ends the list.
unfoldable pub protocols : List (Text × Callback)
protocols = (codes "http-only", http) ∷ (codes "iracing-data-protocol", iracing_data) ∷ []

unfoldable pub callback_of : Text → List (Text × Callback) → Option Callback
callback_of name [] = none
callback_of name ((n, callback) ∷ ps) =
    let rest = callback_of name ps in if text_eq name n then some callback else rest

-- The page of irPitCrew_install/Client asks for the protocol of the data.
client_protocol : callback_of (codes "iracing-data-protocol") protocols ≡ some iracing_data
unfolding callback_of protocols text_eq
client_protocol = refl
