-- ===== src/Tests.antt =====
-- The laws on concrete inputs.
mod Shared
mod Server
mod LapFuel
mod Config
mod Plugin
mod Update
mod System
mod Main
mod Session
mod Page
mod Shown
mod Closing
mod Client
