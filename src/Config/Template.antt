-- ===== src/Config/Template.antt =====
-- The fixed lines of a configuration file that `readConfigData` writes.
use ir_pit_crew.Prelude.{List, [], ◌∷◌}
use ir_pit_crew.Prelude.Text.{Text, codes}

abbrev pub preamble : List Text
preamble =
    codes "# Configuration File for irPitCrew."
    ∷ codes "# "
    ∷ codes "# This file is automatically created on startup if it does not exist."
    ∷ codes "# "
    ∷ codes "# New attributes will be added dynamically; for example, when a new car"
    ∷ codes "# is first encountered, a new DisplayCarFuelAsWeight_ value will be "
    ∷ codes "# added to the file, which can then be configured manually."
    ∷ codes "# "
    ∷ []
    ∷ []

abbrev pub imperial_notes : List Text
imperial_notes =
    []
    ∷ codes "# Specify the fuel units to use on the remote display."
    ∷ codes "# 0 for Metric, 1 for Imperial."
    ∷ codes "# "
    ∷ []

abbrev pub laps_notes : List Text
laps_notes =
    []
    ∷ codes "# This applies to races based on number of laps (not relevant in timed races)."
    ∷ codes "# If this is set to 0, will use the session (race leader) remaining laps"
    ∷ codes "# to calculate fuel."
    ∷ codes "# Set to 1 to use the your (driver) remaining laps instead."
    ∷ codes "# Setting this to 1 gives you more fuel (unless you are the leader)."
    ∷ codes "# "
    ∷ []

abbrev pub skip_notes : List Text
skip_notes =
    []
    ∷ codes "# Skip the \"clear\" command on Apply."
    ∷ codes "# If set to 1, irPitCrew will not unset the current iRacing black box settings for"
    ∷ codes "# tires, fuel, fast repair, etc. before applying the new settings."
    ∷ codes "# This means values currently selected in iRacing will not be unset by irPitCrew."
    ∷ codes "# "
    ∷ codes "# This setting is useful if you are only using the App for fuel and don't "
    ∷ codes "# want it to clear your tires / fast repair settings on Apply."
    ∷ codes "# "
    ∷ codes "# Another option if using this setting is to set \"autoResetPitBox = 0\" in"
    ∷ codes "# iRacing's app.ini file, which should give you one \"clear\" when you leave"
    ∷ codes "# the pit stall, then Auto Apply will do one Apply when driving back in."
    ∷ codes "# "
    ∷ []

abbrev pub port_notes : List Text
port_notes =
    []
    ∷ codes "# Port to use for server."
    ∷ codes
        "# Change this value if the current port is blocked for some reason and the remote display"
    ∷ codes "# is unable to connect to the server. In general, select from the range 1024 - 49151."
    ∷ codes "# When connecting from the remote display, specify the port by adding it to the"
    ∷ codes "# target address, for example:"
    ∷ codes
        "# For address 192.168.1.45 and port 5000, specify 192.168.1.45:5000 in the browser address bar."
    ∷ codes "# "
    ∷ []

abbrev pub extra_notes : List Text
extra_notes =
    []
    ∷ codes "# Laps of Fuel to add to the calculated fuel value for an extra margin of safety."
    ∷ codes "# For example: Set to 2 for two extra laps of fuel, or 0.5 for an extra half lap."
    ∷ codes "# Default: 0"
    ∷ codes "# "
    ∷ []

abbrev pub car_notes : List Text
car_notes =
    []
    ∷ codes "# DisplayCarFuelAsWeight: 0 for volume (litres), 1 for weight (kg)."
    ∷ codes "# Manually adjust these per car based on how the car displays fuel."
    ∷ codes "# "
    ∷ []
