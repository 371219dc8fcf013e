-- ===== src/Plugin.antt =====
-- src/irplugin/irplugin.cpp: the plugin loop between the simulator and the server thread.
-- `Main` is its start, its turns and its end, `NewSession` and `Update` are the two branches of a
-- turn and `State` its variables. `Convert` and
-- `TimeString` hold the conversions, `PitCommand` the messages from the client, `DataMap` and
-- `VarData` the telemetry as text, `Standings` and `Session` the cars ahead and behind, `Race` and
-- `Fuel` what is left of the session and in the tank, `Buffers` the copies of session info.
pub mod Convert
pub mod TimeString
pub mod PitCommand
pub mod DataMap
pub mod VarData
pub mod Race
pub mod Fuel
pub mod Standings
pub mod Buffers
pub mod Session
pub mod State
pub mod NewSession
pub mod Update
pub mod Main
pub mod Addresses
