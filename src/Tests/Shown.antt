-- ===== src/Tests/Shown.antt =====
-- The whole program on a concrete run: a header and a set of telemetry, from the simulator's data to
-- what a client reads out of its messages.
use ir_pit_crew.Prelude.{
  ◌≡◌, refl, sym, ap, ◌∙◌, true, false, some, List, [], ◌∷◌, ◌++◌, map, ◌>>=◌, All-append, ℕ, zero,
  suc, ◌/◌, arith,
}
use mathlib.Core.Path.{subst}
use mathlib.Core.List.{reverse}
use mathlib.Core.Option.{some-injective}
use ir_pit_crew.Prelude.Int.{ℤ, pos, negsuc}
use ir_pit_crew.Prelude.Number.{show_int, show_nat, digits_of}
use ir_pit_crew.Prelude.Text.{Text, codes, text_eq, text_lt}
use ir_pit_crew.Dict.{Dict, find, insert}
use ir_pit_crew.Floats.Fixed.{fixed}
use ir_pit_crew.Floats.Fixed
use ir_pit_crew.System.{System, Run, new_header, telemetry}
use ir_pit_crew.System.Delivery.{is_pending}
use ir_pit_crew.Plugin.DataMap.{add_string_data_var}
use ir_pit_crew.Plugin.VarData.{item_text, signed_of, unsigned_of, size_of}
use ir_pit_crew.Plugin.State.{Outcome}
use ir_pit_crew.Plugin.NewSession.{new_session}
use ir_pit_crew.Plugin.Update.{collect, update}
use ir_pit_crew.Plugin.Update.Delivered.{IsDelivered}
use ir_pit_crew.Plugin.Update.Defined.{update_is_defined}
use ir_pit_crew.Plugin.Update.Published.{update_publishes}
use ir_pit_crew.Plugin.Update.Fit.{IsPlainPrint, IsPlain, IsLine, is_name}
use ir_pit_crew.Plugin.Update.Fit.Row.{IsFitVariable}
use ir_pit_crew.Plugin.Main.{
  first_state, Poll, ready, MainLoop, Turn, turn_of, turn, run, on_header, on_telemetry,
  is_new_header, read_variables, Header,
}
use ir_pit_crew.Plugin.Main.Running.{IsReady, new_session-IsReady}
use ir_pit_crew.Plugin.Main.Rows.{entry_of, read_variables-IsSoundRow, read_variables-inside}
use ir_pit_crew.Plugin.Main.Jobs.{jobs_of, jobs_of_turn, jobs_of-turn}
use ir_pit_crew.Plugin.Main.Fit.{IsFitHeader}
use ir_pit_crew.Plugin.Main.Shown.{program_arrives}
use ir_pit_crew.Plugin.Main.Variables.{variable_arrives}
use ir_pit_crew.Tests.Main.{
  fixed-IsScaling, no_float, dir, empty_disk, first, first-running, header, row,
  header-IsSoundHeader, row-IsSoundRow, variables, variable,
}
use ir_pit_crew.Tests.Server.{Lap-IsTag, below_128-IsAscii}
use ir_pit_crew.Tests.Page.{shown, shown-Run, shown-quiet}

header_turn :
    (m : MainLoop fixed) (h : Header) (bytes : Text) (o : Outcome fixed)
    → is_new_header m.buffer h.buf_len ≡ true
    → new_session fixed h.yaml h.session_info dir m.plugin ≡ some o
    → turn fixed no_float no_float dir 3 m (ready (some h) bytes)
      ≡ some (turn_of fixed (some h.buf_len) o)
unfolding turn on_header ◌>>=◌
header_turn m h bytes o new e = rw (new, e) refl

telemetry_turn :
    (m : MainLoop fixed) (h : Header) (bytes : Text) (vars : List (Text × Text)) (o : Outcome fixed)
    → is_new_header m.buffer h.buf_len ≡ false
    → read_variables fixed no_float no_float h.variables bytes ≡ some vars
    → update fixed h.yaml 3 vars m.plugin ≡ some o
    → turn fixed no_float no_float dir 3 m (ready (some h) bytes) ≡ some (turn_of fixed m.buffer o)
unfolding turn on_telemetry ◌>>=◌
telemetry_turn m h bytes vars o old read e = rw (old, read, e) refl

first_outcome :
    (o : Outcome fixed) × (new_session fixed header.yaml header.session_info dir first.plugin
      ≡ some o)
    × IsReady fixed no_float no_float fixed-IsScaling o.plugin
first_outcome =
    new_session-IsReady fixed no_float no_float fixed-IsScaling header.yaml header.session_info dir
      first.plugin header-IsSoundHeader.weight header-IsSoundHeader.driver

abbrev first_turn : Turn fixed
first_turn = turn_of fixed (some 4) first_outcome.0

first_buffer : is_new_header first.buffer 4 ≡ true
unfolding first_state is_new_header
first_buffer = refl

first_turn-is : turn fixed no_float no_float dir 3 first (ready (some header) row) ≡ some first_turn
first_turn-is = header_turn first header row first_outcome.0 first_buffer first_outcome.1

abbrev texts : List (Text × Text)
texts = map (entry_of fixed no_float no_float row) variables

texts-read : read_variables fixed no_float no_float variables row ≡ some texts
texts-read = read_variables-inside fixed no_float no_float variables row row-IsSoundRow.inside

texts-IsDelivered : IsDelivered (collect [] texts)
texts-IsDelivered =
    subst (λ vs. IsDelivered (collect [] vs)) (some-injective _ _ (sym sound.1 ∙ texts-read))
      sound.2
  where
    sound :
        (vs : List (Text × Text)) × (read_variables fixed no_float no_float variables row ≡ some vs)
        × IsDelivered (collect [] vs)
    sound = read_variables-IsSoundRow fixed no_float no_float variables row row-IsSoundRow

second_outcome :
    (o : Outcome fixed) × (update fixed header.yaml 3 texts first_turn.main.plugin ≡ some o)
second_outcome =
    update_is_defined fixed header.yaml 3 texts first_turn.main.plugin texts-IsDelivered
      first_outcome.2 header-IsSoundHeader.session

abbrev second_turn : Turn fixed
second_turn = turn_of fixed (some 4) second_outcome.0

old_buffer : is_new_header first_turn.main.buffer 4 ≡ false
unfolding is_new_header
old_buffer = refl

second_turn-is :
    turn fixed no_float no_float dir 3 first_turn.main (ready (some header) row) ≡ some second_turn
second_turn-is =
    telemetry_turn first_turn.main header row texts second_outcome.0 old_buffer texts-read
      second_outcome.1

abbrev shown_map : Dict
shown_map = second_outcome.0.plugin.shared.data_map

Lap-texts : find (codes "Lap") (collect [] texts) ≡ some (codes "7")
unfolding collect add_string_data_var insert find text_lt text_eq item_text signed_of unsigned_of
    size_of show_int show_nat digits_of
Lap-texts = refl

Lap-found : find (codes "Lap") shown_map ≡ some (codes "7")
Lap-found =
    (update_publishes fixed header.yaml 3 texts first_turn.main.plugin second_outcome.0
      (codes "Lap") (codes "7") second_outcome.1 Lap-texts).1

abbrev two_polls : List Poll
two_polls = ready (some header) row ∷ ready (some header) row ∷ []

abbrev last_turn : Turn fixed
last_turn = record {
  main = second_turn.main;
  requests = first_turn.requests ++ (second_turn.requests ++ []);
  broadcasts = first_turn.broadcasts ++ (second_turn.broadcasts ++ []);
}

two-run : run fixed no_float no_float dir 3 first two_polls ≡ some last_turn
unfolding run ◌>>=◌
two-run = rw (first_turn-is, second_turn-is) refl

two-jobs :
    jobs_of fixed no_float no_float dir 3 first two_polls
    ≡ new_header header.session_info ∷ telemetry shown_map ∷ []
unfolding jobs_of
two-jobs =
    jobs_of-turn fixed no_float no_float dir 3 first (ready (some header) row)
      (ready (some header) row ∷ []) first_turn first_turn-is
    ∙ ap
        (λ js.
          jobs_of_turn fixed no_float no_float first (ready (some header) row) first_turn ++ js)
        (jobs_of-turn fixed no_float no_float dir 3 first_turn.main (ready (some header) row) []
          second_turn second_turn-is)
    ∙ last
  where
    last :
        jobs_of_turn fixed no_float no_float first (ready (some header) row) first_turn
          ++ (jobs_of_turn fixed no_float no_float first_turn.main
                (ready (some header) row)
                second_turn
              ++ jobs_of fixed no_float no_float dir 3 second_turn.main [])
        ≡ new_header header.session_info ∷ telemetry shown_map ∷ []
    last = rw (first_buffer, old_buffer, jobs_of_turn, jobs_of) refl

page : System
page = shown header.session_info shown_map

page-quiet :
    (page.todo ≡ [])
    × (page.is_open ≡ true)
    × (is_pending page ≡ false)
    × (page.flags.connection_reset ≡ false)
unfolding page
page-quiet = shown-quiet header.session_info shown_map

page-Run : Run (reverse (jobs_of fixed no_float no_float dir 3 first two_polls)) page
unfolding page
page-Run =
    subst (λ js. Run (reverse js) page) (sym two-jobs) (shown-Run header.session_info shown_map)

digits-IsLine : (k n : ℕ) → IsLine (Fixed.digits_of k n)
digits-IsLine zero n = tt
digits-IsLine (suc k) n =
    All-append IsPlain (Fixed.digits_of k (n / 10)) _ (digits-IsLine k (n / 10))
      (record { no_newline = ground arith; ascii = omega arith }, tt)

print-IsLine : (x : ℤ) → IsLine (fixed.print_single x)
print-IsLine (pos n) = (record { no_newline = refl; ascii = omega arith }, digits-IsLine 12 n)
print-IsLine (negsuc n) =
    (record { no_newline = refl; ascii = omega arith }, digits-IsLine 12 (suc n))

fixed-IsPlainPrint : IsPlainPrint fixed
fixed-IsPlainPrint = record { single = print-IsLine; double = print-IsLine }

-- A variable of one `int`.
number-IsFitVariable : (name : Text) → is_name name ≡ true → IsFitVariable row (variable name)
number-IsFitVariable name h = record { name = h; items = λ i. tt }

header-IsFitHeader : IsFitHeader header row
header-IsFitHeader = record {
  info = record {
    no_star = (refl, (refl, (refl, tt)));
    ascii = below_128-IsAscii (codes "---") refl;
  };
  yaml = λ path. tt;
  variables = (
    number-IsFitVariable (codes "FuelLevel") refl,
    (
      number-IsFitVariable (codes "FuelLevelPct") refl,
      (
        number-IsFitVariable (codes "LapLastLapTime") refl,
        (
          number-IsFitVariable (codes "SessionTime") refl,
          (
            number-IsFitVariable (codes "SessionNum") refl,
            (
              number-IsFitVariable (codes "SessionTimeRemain") refl,
              (
                number-IsFitVariable (codes "SessionLapsRemainEx") refl,
                (
                  number-IsFitVariable (codes "Lap") refl,
                  (
                    number-IsFitVariable (codes "LapDistPct") refl,
                    (
                      number-IsFitVariable (codes "CarIdxLap") refl,
                      (
                        number-IsFitVariable (codes "CarIdxLapDistPct") refl,
                        (number-IsFitVariable (codes "SessionFlags") refl, tt),
                      ),
                    ),
                  ),
                ),
              ),
            ),
          ),
        ),
      ),
    ),
  );
}

program_arrives_example : page.view (codes "Lap") ≡ some (codes "7")
program_arrives_example =
    program_arrives fixed no_float no_float fixed-IsScaling fixed-IsPlainPrint true true dir
      empty_disk first 3 two_polls last_turn page first-running
      (header-IsSoundHeader, (header-IsSoundHeader, tt))
      (header-IsFitHeader, (header-IsFitHeader, tt)) two-run page-Run page-quiet.0 page-quiet.1
      page-quiet.2 page-quiet.3 (codes "Lap") (codes "7") Lap-IsTag Lap-found

-- The header alone.
abbrev one_turn : Turn fixed
one_turn = record {
  main = first_turn.main;
  requests = first_turn.requests ++ [];
  broadcasts = first_turn.broadcasts ++ [];
}

one-run : run fixed no_float no_float dir 3 first (ready (some header) row ∷ []) ≡ some one_turn
unfolding run ◌>>=◌
one-run = rw first_turn-is refl

variable_arrives_example : page.view (codes "Lap") ≡ some (codes "7")
variable_arrives_example =
    variable_arrives fixed no_float no_float fixed-IsScaling fixed-IsPlainPrint true true dir
      empty_disk first 3 (ready (some header) row ∷ []) header row one_turn page first-running
      (header-IsSoundHeader, (header-IsSoundHeader, tt))
      (header-IsFitHeader, (header-IsFitHeader, tt)) one-run old_buffer page-Run page-quiet.0
      page-quiet.1 page-quiet.2 page-quiet.3 (codes "Lap") (codes "7") Lap-IsTag Lap-texts
