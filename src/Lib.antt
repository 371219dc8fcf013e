-- ===== src/Lib.antt =====
-- irPitCrew shows the fuel and lap data of an iRacing session in a browser and sends pit commands back.
-- The program has two threads. The plugin loop (src/irplugin/irplugin.cpp) reads the simulator's
-- telemetry through the SDK, adds what it computes, and leaves the result in the shared values; the
-- server thread (src/WebServer) sends the changes to the client and takes its messages. The shared
-- values (src/SharedData) are the only data that both touch, besides the flags of the server.
--
-- Which file models which part:
--
--   Shared            src/SharedData/SharedData.cpp: every method as a function; `run`
--                     is a sequence of calls of both threads
--   Server.Update     src/WebServer/WebServerLWS.cpp, callback_iracing_data: the static variables are
--                     the record `Sync`, the message is `update_text`
--   Server.Loop       WebServerLWS::runThread with updateClient, resetConnection and stop: the flags
--                     are read and written with no lock, so `act` is one access by either thread
--   Server.Http       callback_http; `Server.Protocols` the table of the two callbacks
--   Client            irPitCrew_install/Client/parseYaml.js, parseDataPortion, and the
--                     message that irPitCrew.js builds; `PitRoad` onWebSocketMessage and
--                     checkIsEnteringPitRoad, with the three values of UpdateData.js they look at;
--                     `Session` parseYaml
--   LapFuel           src/irplugin/LapFuelData.cpp: `Laps` AddLapData, `Files` loading and saving,
--                     `Median` calcMedian, `Estimate` calcOptimalLapTimeFuelValues, `Print`
--                     printListValues
--   Config            src/irplugin/ConfigData.cpp: `Attribute` parseAttributeValue, `Read`
--                     readConfigData, `Template` the text of a new file
--   Plugin            src/irplugin/irplugin.cpp: `NewSession` and `Update` are the two branches of the
--                     main loop, `State` its variables; `Race`, `Fuel`, `Standings`, `Session`,
--                     `Convert`, `TimeString`, `DataMap`, `VarData`, `PitCommand` and `Buffers` are
--                     what they call
--   Plugin.Main       _tmain: `start` what comes before the loop, `turn` one turn of it from what the
--                     SDK gives, and CloseConsoleHandler as `close`; `Addresses` displayIPs
--   System            both threads and a client: the calls of the main loop, the steps of runThread
--                     and of the writable callback, and the last value that the client has read for each
--                     name out of its messages. At most one socket is open at a time, as the
--                     comment on s_connectionReset assumes; sockets close and new ones open
--   Closing           CloseConsoleHandler beside the main loop and the server thread: who uses and who
--                     deletes the object of the server thread, in every interleaving
--   Dict              std::map<std::string, std::string>
--   Prelude, Floats   text, integers, lists and floating-point numbers
--   Tests             concrete inputs
--
-- A failed assertion of the source, and a copy for which a buffer has no room, is the result `none`.
-- Text is a list of bytes. A `float` or `double` is known only by its operations; the laws that a
-- theorem needs are records in `Floats`, `Plugin.Main.Running` and `Plugin.Update.Fit`, stated so
-- that they hold of IEEE numbers, and `Floats.Fixed` has numbers that meet them.
--
-- Fuel: the loop over the positions in `Plugin.Standings.scan` takes a number of positions, and a
-- number up to the last position that has a car is enough: behind it the loop has ended. `show_nat`
-- takes one more digit than the number needs. All other loops are by recursion on a list.
--
-- Not modelled: the SDK (src/irsdk) and libwebsockets, copies of other projects' libraries whose
-- calls are parameters or recorded results, the shared memory of the simulator included; messages on
-- the console while the program runs, and the calls of Windows; what a console handler and a turn of the
-- main loop do to the recorded laps at the same time; two sockets that are open at the same time; the
-- pages of the client, which keep some names, round their values and ignore the value `<not set>`.
pub mod Prelude
pub mod Dict
pub mod Shared
pub mod Client
pub mod Server
pub mod Floats
pub mod LapFuel
pub mod Config
pub mod Plugin
pub mod System
pub mod Closing
mod Tests
