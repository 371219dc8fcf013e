-- ===== src/Config.antt =====
-- src/irplugin/ConfigData.cpp: the configuration file. `Attribute` parses one line, `Read` the file,
-- and writes it anew when something is missing in it.
pub mod Attribute
pub mod Template
pub mod Read
