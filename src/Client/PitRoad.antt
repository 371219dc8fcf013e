-- ===== src/Client/PitRoad.antt =====
-- When the web application sends the pit settings by itself (irPitCrew_install/Client): the values
-- of UpdateData.js that onWebSocketMessage and checkIsEnteringPitRoad of irPitCrew.js look at.
use ir_pit_crew.Prelude.{
  ℕ, ◌≡◌, refl, Bool, true, false, not, ◌&&◌, ◌||◌, Option, none, some, List, [], ◌∷◌, All, arith,
  is_empty, if◌then◌else◌, Bool-cases, Option-cases, inl, inr, ◌∙◌,
}
use ir_pit_crew.Prelude.Text.{Text, codes, text_eq}
use ir_pit_crew.Client.{parse_data_portion, data_portion}

-- What the language does with numbers.
pub record Numbers : Type 1 where
  pub Num : Type 0
  -- `parseFloat(parseFloat(s).toFixed(k))`
  pub to_fixed : ℕ → Text → Num
  -- `x == 0` and `x > 5.0`
  pub is_zero : Num → Bool
  pub is_above_five : Num → Bool

-- `parsingData.dataNotSetString`
abbrev not_set : Text
not_set = codes "<not set>"

module _ (N : Numbers) where
  open N use {Num, to_fixed, is_zero, is_above_five}

  pub record Page : Type 0 where
    pub is_on_track : Bool
    pub on_pit_road : Bool
    pub speed : Num
    pub on_track_racing : Bool
    pub on_track_on_pit_road : Bool
    pub auto_button : Bool

  -- A flag that cannot be cleared.
  unfoldable pub flag_of : Option Text → Bool → Bool
  flag_of none old = old
  flag_of (some v) old =
      if is_empty v || text_eq v not_set then old else not (is_zero (to_fixed 0 v))

  unfoldable pub speed_of : Option Text → Num → Num
  speed_of none old = old
  speed_of (some v) old = if text_eq v not_set then old else to_fixed 1 v

  unfoldable pub update_server_data : Text → Page → Page
  unfolding data_portion parse_data_portion flag_of speed_of
  update_server_data msg p = elim (data_portion msg) [
    | none ↦ p
    | some portion ↦ record p {
      is_on_track = flag_of (parse_data_portion portion (codes "IsOnTrack")) p.is_on_track;
      on_pit_road = flag_of (parse_data_portion portion (codes "OnPitRoad")) p.on_pit_road;
      speed = speed_of (parse_data_portion portion (codes "Speed")) p.speed;
    }
  ]

  unfoldable pub check_is_entering_pit_road : Page → Bool × Page
  check_is_entering_pit_road p =
      let racing = p.is_on_track && not p.on_pit_road in
      let on_pit_road = p.is_on_track && p.on_pit_road in
      let is_entering =
        if p.on_track_racing && not racing
        then (if on_pit_road then is_above_five p.speed else false)
        else false in
      (is_entering, record p { on_track_racing = racing; on_track_on_pit_road = on_pit_road })

  -- Whether the pit settings are sent, and the page behind the message.
  unfoldable pub on_message : Text → Page → Bool × Page
  unfolding update_server_data check_is_entering_pit_road
  on_message msg p =
      let (is_entering, q) = check_is_entering_pit_road (update_server_data msg p) in
      if text_eq msg (codes "heartbeat")
      then (false, p)
      else (if is_entering then (if q.auto_button then q.is_on_track else false) else false, q)

  -- Message after message: for each whether the settings are sent, and the page at the end.
  unfoldable pub on_messages : List Text → Page → List Bool × Page
  unfolding on_message
  on_messages [] p = ([], p)
  on_messages (msg ∷ msgs) p =
      let (sent, q) = on_message msg p in let (more, r) = on_messages msgs q in (sent ∷ more, r)

  -- On the track and not on the pit road, as far as the page knows.
  abbrev pub is_racing : Page → Bool
  is_racing p = p.is_on_track && not p.on_pit_road

  abbrev IsInStep : Page → Type 0
  IsInStep p = p.on_track_racing ≡ is_racing p

  on_message-IsInStep : (msg : Text) (p : Page) → IsInStep p → IsInStep (on_message msg p).1
  unfolding on_message check_is_entering_pit_road
  on_message-IsInStep msg p h = elim (Bool-cases (text_eq msg (codes "heartbeat"))) [
    | inl beat ↦ rw beat h
    | inr other ↦ rw other refl
  ]

  on_messages-IsInStep :
      (msgs : List Text) (p : Page) → IsInStep p → IsInStep (on_messages msgs p).1
  unfolding on_messages
  on_messages-IsInStep [] p h = h
  on_messages-IsInStep (msg ∷ msgs) p h =
      on_messages-IsInStep msgs (on_message msg p).1 (on_message-IsInStep msg p h)

  kept :
      (msg : Text) (p : Page)
      → ((update_server_data msg p).on_track_racing ≡ p.on_track_racing)
        × ((update_server_data msg p).auto_button ≡ p.auto_button)
  unfolding update_server_data
  kept msg p = elim (Option-cases (data_portion msg)) [
    | inl missing ↦ rw (missing, update_server_data) (refl, refl)
    | inr (portion, found) ↦ rw (found, update_server_data) (refl, refl)
  ]

  -- The conditions of the code, one by one, and of `enters`.
  entering_cases :
      (racing auto before track pit fast : Bool)
      → racing ≡ before
      → (if (if racing && not (track && not pit)
            then (if track && pit then fast else false)
            else false)
          then (if auto then track else false)
          else false)
        ≡ (auto && before) && ((track && pit) && fast)
  entering_cases racing auto before track pit fast h = ground (arith, h)

  -- The page as it is loaded.
  abbrev pub loaded : Num → Bool → Page
  loaded zero_speed auto_button = record {
    is_on_track = false;
    on_pit_road = false;
    speed = zero_speed;
    on_track_racing = false;
    on_track_on_pit_road = false;
    auto_button = auto_button;
  }

  -- What the settings are sent for: the car was on the track and not on the pit road, now it is on
  -- both, and it moves.
  abbrev pub enters : Page → Page → Bool
  enters before after =
      (before.auto_button && is_racing before)
      && ((after.is_on_track && after.on_pit_road) && is_above_five after.speed)

  -- The settings are sent at a message exactly if the car has driven from the track into the pit
  -- road with it, as far as the page knows: it was on the track and not on the pit road before, and
  -- is on both and moving now, and the button for it is on. So it is after any messages from the
  -- loading of the page on, heartbeats in between included.
  pub sent-enters :
      (speed : Num) (auto_button : Bool) (earlier : List Text) (msg : Text)
      → let p = (on_messages earlier (loaded speed auto_button)).1 in
        text_eq msg (codes "heartbeat") ≡ false
        → (on_message msg p).0 ≡ enters p (update_server_data msg p)
  unfolding on_message check_is_entering_pit_road
  sent-enters speed auto_button earlier msg other =
      let p = (on_messages earlier (loaded speed auto_button)).1 in
      let h = on_messages-IsInStep earlier (loaded speed auto_button) refl in
      let q = update_server_data msg p in
      let (racing, auto) = kept msg p in
      rw other (
        rw auto (
          entering_cases q.on_track_racing p.auto_button (is_racing p) q.is_on_track q.on_pit_road
            (is_above_five q.speed) (racing ∙ h)))

  -- The pages behind each message.
  abbrev pub pages : List Text → Page → List Page
  pages [] p = []
  pages (msg ∷ msgs) p = let q = (on_message msg p).1 in q ∷ pages msgs q

  not_sent :
      (msg : Text) (p : Page) → IsInStep p → is_racing p ≡ false → (on_message msg p).0 ≡ false
  unfolding on_message check_is_entering_pit_road
  not_sent msg p h r = elim (Bool-cases (text_eq msg (codes "heartbeat"))) [
    | inl beat ↦ rw beat refl
    | inr other ↦
        let q = update_server_data msg p in
        let (racing, auto) = kept msg p in
        rw other (
          entering_cases q.on_track_racing q.auto_button (is_racing p) q.is_on_track q.on_pit_road
            (is_above_five q.speed) (racing ∙ h)
          ∙ ground (arith, r))
  ]

  none_sent :
      (msgs : List Text) (p : Page)
      → IsInStep p
      → is_racing p ≡ false
      → All (λ q. is_racing q ≡ false) (pages msgs p)
      → All (λ sent. sent ≡ false) (on_messages msgs p).0
  unfolding on_messages
  none_sent [] p h r rs = tt
  none_sent (msg ∷ msgs) p h r (s, ss) =
      (not_sent msg p h r, none_sent msgs (on_message msg p).1 (on_message-IsInStep msg p h) s ss)

  entered-is_racing :
      (msg : Text) (p : Page) → (on_message msg p).0 ≡ true → is_racing (on_message msg p).1 ≡ false
  unfolding on_message check_is_entering_pit_road
  entered-is_racing msg p h = elim (Bool-cases (text_eq msg (codes "heartbeat"))) [
    | inl beat ↦ absurd (ground (arith, beat, h))
    | inr other ↦ ground (arith, other, h)
  ]

  -- The settings are sent once for a drive through the pit road: when they have been sent at a
  -- message, they are not sent again as long as no page after that has the car on the track and not
  -- on the pit road, whatever messages come. The car may leave the track and come back in between.
  pub sent_once :
      (speed : Num) (auto_button : Bool) (earlier : List Text) (msg : Text) (later : List Text)
      → let p = (on_messages earlier (loaded speed auto_button)).1 in
        (on_message msg p).0 ≡ true
        → All (λ q. is_racing q ≡ false) (pages later (on_message msg p).1)
        → All (λ sent. sent ≡ false) (on_messages later (on_message msg p).1).0
  sent_once speed auto_button earlier msg later sent rs =
      let p = (on_messages earlier (loaded speed auto_button)).1 in
      let h = on_messages-IsInStep earlier (loaded speed auto_button) refl in
      none_sent later (on_message msg p).1 (on_message-IsInStep msg p h)
        (entered-is_racing msg p sent) rs
