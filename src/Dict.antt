-- ===== src/Dict.antt =====
-- `std::map<std::string, std::string>`: the entries in the order of their keys. It carries the
-- telemetry from the plugin loop (src/irplugin/irplugin.cpp) through src/SharedData to the
-- server (src/WebServer).
pub mod Order
pub mod Laws
use ir_pit_crew.Prelude.{◌≡◌, true, Option, none, some, List, [], ◌∷◌, All, if◌then◌else◌}
use ir_pit_crew.Prelude.Text.{Text, text_eq, text_lt}

abbrev pub Dict : Type 0
Dict = List (Text × Text)

-- `m.find(k)`: the value, or `none` for `m.end()`.
unfoldable pub find : Text → Dict → Option Text
find k [] = none
find k ((j, v) ∷ m) = let rest = find k m in if text_eq k j then some v else rest

-- `m.insert(std::pair(k, v))`: a key that is there keeps its value.
unfoldable pub insert : Text → Text → Dict → Dict
insert k v [] = (k, v) ∷ []
insert k v ((j, w) ∷ m) =
    let rest = insert k v m in
    if text_lt k j then (k, v) ∷ (j, w) ∷ m else if text_eq k j then (j, w) ∷ m else (j, w) ∷ rest

-- Every key of the map is behind `k`.
abbrev pub Above : Text → Dict → Type 0
Above k = All λ e. text_lt k e.0 ≡ true

-- The keys stand in strictly rising order.
abbrev pub IsMap : Dict → Type 0
IsMap [] = Unit
IsMap ((k, v) ∷ m) = Above k m × IsMap m
