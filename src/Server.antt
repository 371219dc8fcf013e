-- ===== src/Server.antt =====
-- src/WebServer/WebServerLWS.cpp: the server thread. `Update` is the websocket callback, `Http`
-- the file callback, `Loop` the thread's loop and the requests of the plugin loop.
pub mod Update
pub mod Http
pub mod Protocols
pub mod Loop
