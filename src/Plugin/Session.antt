-- ===== src/Plugin/Session.antt =====
-- `getDataFromSessionInfo` of src/irplugin/irplugin.cpp: the cars ahead and behind.
pub mod Items
use ir_pit_crew.Prelude.{
  ℕ, Bool, false, Option, none, some, [], ◌∷◌, ◌==◌, ◌||◌, is_empty, get_elem?, ◌>>=◌,
  if◌then◌else◌,
}
use ir_pit_crew.Prelude.Int.{ℤ, pos, negsuc, le_ℤ}
use ir_pit_crew.Prelude.Number.{atoi, stream_int, is_space, skip_spaces}
use ir_pit_crew.Prelude.Text.{Text, codes, getlines}
use ir_pit_crew.Dict.{Dict}
use ir_pit_crew.Floats.{Floats, nought}
use ir_pit_crew.Plugin.DataMap.{read_data_var}
use ir_pit_crew.Plugin.Standings.{Yaml, yaml_text, driver_path, scan, no_standings, neighbour}

abbrev up_to_space : Text → Text
up_to_space [] = []
up_to_space (c ∷ s) = let rest = up_to_space s in if is_space c then [] else c ∷ rest

-- `stream >> t` for a text: the first word.
unfoldable pub read_word : Text → Text
unfolding is_space skip_spaces
read_word s = up_to_space (skip_spaces s)

abbrev pub is_quote : ℕ → Bool
is_quote c = c == b' ' || c == b'"'

abbrev pub strip_front : Text → Text
strip_front [] = []
strip_front (c ∷ s) = let rest = strip_front s in if is_quote c then rest else c ∷ s

abbrev pub strip_back : Text → Text
strip_back [] = []
strip_back (c ∷ s) =
    let rest = strip_back s in
    if (if is_empty rest then is_quote c else false) then [] else c ∷ rest

abbrev pub unless_empty : Text → Text → Text
unless_empty [] whole = whole
unless_empty (c ∷ s) whole = c ∷ s

-- Blanks and quotes are cut off at both ends; a text of nothing else stays as it is.
unfoldable pub strip_quotes : Text → Text
strip_quotes s = let front = unless_empty (strip_front s) s in unless_empty (strip_back front) front

-- The item of a list with commas, counted from 0.
unfoldable pub item_of : Text → ℤ → Option Text
unfolding getlines
item_of list (pos n) = get_elem? (getlines b',' list) n
item_of list (negsuc n) = none

-- The lap of a car, unless it is below zero.
unfoldable pub lap_of : Text → ℤ → Option ℤ
unfolding item_of stream_int
lap_of laps car = elim (item_of laps car) [
  | none ↦ none
  | some item ↦ let lap = stream_int item in if le_ℤ (pos 0) lap then some lap else none
]

module _ (F : Floats) where
  open F use {single, read_single}

  -- What is shown of a car.
  pub record Car : Type 0 where
    pub interval : single.Num
    pub number : Text
    pub initials : Text
    pub position : ℤ

  pub record Cars : Type 0 where
    pub ahead : Car
    pub behind : Car

  unfoldable pub pct_of : Text → ℤ → Option single.Num
  unfolding item_of
  pct_of pcts car = elim (item_of pcts car) [
    | none ↦ none
    | some item ↦
        let pct = read_single item in if single.le (nought single) pct then some pct else none
  ]

  -- Number, initials and position of a car that was found.
  unfoldable pub name_car : (Text → Option Yaml) → Option (ℤ × ℤ) → Car → Car
  unfolding driver_path strip_quotes
  name_car yaml none c = c
  name_car yaml (some (idx, shown)) c = record {
    interval = c.interval;
    position = shown;
    number = elim (yaml (driver_path idx (codes "CarNumber:"))) [
      | none ↦ c.number
      | some v ↦ strip_quotes (yaml_text (some v))
    ];
    initials = elim (yaml (driver_path idx (codes "Initials:"))) [
      | none ↦ c.initials
      | some v ↦ yaml_text (some v)
    ];
  }

  -- The distance of a car in laps, if its lap and its part of the lap are known.
  unfoldable pub distance_of : Text → Text → Option (ℤ × ℤ) → Option single.Num
  unfolding lap_of pct_of
  distance_of laps pcts none = none
  distance_of laps pcts (some (idx, shown)) = elim (lap_of laps idx) [
    | none ↦ none
    | some lap ↦ elim (pct_of pcts idx) [
      | none ↦ none
      | some pct ↦ some (single.add (single.of_int lap) pct)
    ]
  ]

  unfoldable pub interval_ahead : single.Num → single.Num → Option single.Num → Car → Car
  interval_ahead lap_time mine none c = c
  interval_ahead lap_time mine (some other) c =
      if single.le mine other
      then record c { interval = single.mul (single.sub other mine) lap_time }
      else c

  unfoldable pub interval_behind : single.Num → single.Num → Option single.Num → Car → Car
  interval_behind lap_time mine none c = c
  interval_behind lap_time mine (some other) c =
      if single.le other mine
      then record c { interval = single.mul (single.sub mine other) lap_time }
      else c

  -- Both cars, once the driver's own index is known; `none` is a failed assertion.
  unfoldable pub cars_around :
      (Text → Option Yaml) → ℕ → Dict → ℤ → single.Num → ℤ → Cars → Option Cars
  unfolding scan neighbour name_car distance_of interval_ahead interval_behind read_data_var
      read_word
  cars_around yaml fuel m session lap_time my_idx old = do
    let s = scan yaml session my_idx fuel 1 no_standings
    let next = neighbour s (negsuc 0)
    let prev = neighbour s (pos 1)
    my_lap ← read_data_var stream_int m (codes "Lap")
    my_pct ← read_data_var read_single m (codes "LapDistPct")
    laps ← read_data_var read_word m (codes "CarIdxLap")
    pcts ← read_data_var read_word m (codes "CarIdxLapDistPct")
    let mine = single.add (single.of_int my_lap) my_pct
    some record {
      ahead =
          interval_ahead lap_time mine (distance_of laps pcts next) (name_car yaml next old.ahead);
      behind =
          interval_behind lap_time mine (distance_of laps pcts prev)
            (name_car yaml prev old.behind);
    }

  -- `fuel` bounds the number of positions that are looked at.
  unfoldable pub get_data_from_session_info :
      (Text → Option Yaml) → ℕ → Dict → ℤ → single.Num → Cars → Option Cars
  unfolding cars_around
  get_data_from_session_info yaml fuel m session lap_time old =
      elim (yaml (codes "DriverInfo:DriverCarIdx:")) [
        | none ↦ some old
        | some v ↦
            let my_idx = atoi v.at in
            if le_ℤ (pos 0) my_idx
            then cars_around yaml fuel m session lap_time my_idx old
            else some old
      ]
