-- ===== src/Tests/Client.antt =====
-- The web application (irPitCrew_install/Client) on concrete messages.
use ir_pit_crew.Prelude.{arith, ◌≡◌, refl, true, false, [], ◌∷◌, All, ◌==◌, ltb, ℕ}
use ir_pit_crew.Prelude.Number.{digits_value, is_digit}
use ir_pit_crew.Prelude.Text.{Text, codes, text_eq, find_text, starts_with}
use ir_pit_crew.Client.{data_portion, parse_data_portion, behind_semicolon, up_to_newline}
use ir_pit_crew.Client.Session.{parse_yaml, info_of, path_of, parse_yaml-value}
use ir_pit_crew.Client.PitRoad.{
  Numbers, Page, flag_of, speed_of, update_server_data, check_is_entering_pit_road, on_message,
  on_messages, loaded, enters, sent-enters, sent_once,
}

-- Numbers without a point.
abbrev whole : Numbers
whole = record {
  Num = ℕ;
  to_fixed = λ k s. digits_value 0 s;
  is_zero = λ n. n == 0;
  is_above_five = λ n. ltb 5 n;
}

-- On the track, into the pit road, and a heartbeat's answer.
abbrev racing : Text
racing = codes "***D.A.T.A***\nIsOnTrack;1\nOnPitRoad;0\nSpeed;40\n"

abbrev entering : Text
entering = codes "***D.A.T.A***\nOnPitRoad;1\nSpeed;20\n"

abbrev beat : Text
beat = codes "heartbeat"

abbrev raced : Page whole
raced = (on_messages whole (racing ∷ []) (loaded whole 0 true)).1

sent-enters_example :
    (on_message whole entering raced).0
    ≡ enters whole raced (update_server_data whole entering raced)
unfolding text_eq
sent-enters_example = sent-enters whole 0 true (racing ∷ []) entering refl

-- The settings are sent here.
entering-sent : (on_message whole entering raced).0 ≡ true
unfolding on_messages on_message update_server_data check_is_entering_pit_road flag_of speed_of
    data_portion parse_data_portion behind_semicolon up_to_newline find_text starts_with text_eq
    digits_value is_digit
entering-sent = refl

sent_once_example :
    All
      (λ sent. sent ≡ false)
      (on_messages whole (beat ∷ entering ∷ []) (on_message whole entering raced).1).0
unfolding on_messages on_message update_server_data check_is_entering_pit_road flag_of speed_of
    data_portion parse_data_portion behind_semicolon up_to_newline find_text starts_with text_eq
    digits_value is_digit
sent_once_example =
    sent_once whole 0 true (racing ∷ []) entering (beat ∷ entering ∷ []) entering-sent
      (refl, (refl, tt))

parse_yaml-value_example :
    parse_yaml
      (info_of
        (codes "---\n")
        (codes "WeekendInfo")
        (codes ":\n ")
        (codes "TrackName")
        (codes " okayama")
        (codes " TrackID: 166\n"))
      (path_of (codes "WeekendInfo") (codes "TrackName"))
    ≡ codes " okayama"
parse_yaml-value_example =
    parse_yaml-value (codes "---\n") b'W' (codes "eekendInfo") (codes ":\n ") b'T'
      (codes "rackName") (codes " okayama") (codes " TrackID: 166\n") (ground arith) (ground arith)
      (ground arith) (ground arith) (ground arith)
