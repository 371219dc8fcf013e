-- ===== src/Tests/Shared.antt =====
-- src/SharedData and the order of a map on concrete inputs.
use ir_pit_crew.Prelude.{◌≡◌, refl, List, [], ◌∷◌, some, if◌then◌else◌}
use ir_pit_crew.Prelude.Text.{codes, text_eq, text_lt}
use ir_pit_crew.Dict.{Dict, find, insert, IsMap}
use ir_pit_crew.Dict.Laws.{or_else, find-insert}
use ir_pit_crew.Shared.{initial, Call, put_fuel_message, take_fuel_message, put_data, run}
use ir_pit_crew.Shared.Mailbox.{
  IsSubsequence, received, sent, run-delivery, last_session_info, last_data, unread, run-history,
}

abbrev two_messages : List Call
two_messages =
    put_fuel_message (codes "Fuel;10")
    ∷ put_fuel_message (codes "Fuel;20")
    ∷ take_fuel_message
    ∷ put_data ((codes "Lap", codes "3") ∷ [])
    ∷ take_fuel_message
    ∷ []

run-delivery_example : IsSubsequence (received (run initial two_messages).0) (sent two_messages)
run-delivery_example = run-delivery two_messages

run-history_example : (run initial two_messages).1 ≡ record {
  session_info = last_session_info [] two_messages;
  data_map = last_data [] two_messages;
  fuel_message = unread [] two_messages;
}
run-history_example = run-history two_messages initial

abbrev laps : Dict
laps = (codes "Lap", codes "3") ∷ (codes "Speed", codes "40") ∷ []

laps-IsMap : IsMap laps
unfolding text_lt
laps-IsMap = ((refl, tt), (tt, tt))

find-insert_example : find (codes "Lap") (insert (codes "Lap") (codes "4") laps) ≡ (
    if text_eq (codes "Lap") (codes "Lap")
    then some (or_else (find (codes "Lap") laps) (codes "4"))
    else find (codes "Lap") laps)
find-insert_example = find-insert (codes "Lap") (codes "Lap") (codes "4") laps laps-IsMap
