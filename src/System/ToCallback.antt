-- ===== src/System/ToCallback.antt =====
-- The way of the server's loop to the callback of an update.
use ir_pit_crew.Prelude.{ℕ, zero, suc, ◌≡◌, ◌≢◌, refl, Bool, true, false, ◌||◌, none, List}
use ir_pit_crew.Server.Loop.{
  Place, test_running, service, test_update, clear_update, test_reset, set_static, clear_reset,
  ask_writable, stopped, Flags, loop_step,
}
use ir_pit_crew.System.{Job, System, Run, steps, loops}
use ir_pit_crew.System.Delivery.{is_answering}

-- So many steps of the server's loop.
abbrev pub loop_n : ℕ → Flags → Flags
loop_n zero f = f
loop_n (suc k) f = loop_n k (loop_step f.place f)

-- At the callbacks, with one to make and no new request.
pub record IsAtCallback (f : Flags) : Type 0 where
  pub at : f.place ≡ service
  pub seen : f.update_client ≡ false
  pub asked : f.writable_asked ≡ true

abbrev pub GetsThere : Flags → Type 0
GetsThere f = (k : ℕ) × IsAtCallback (loop_n k f)

back : (f : Flags) → GetsThere (loop_step f.place f) → GetsThere f
back f (k, h) = (suc k, h)

-- A server that runs.
abbrev pub flags : Place → Bool → Bool → Bool → Bool → ℕ → Flags
flags p update reset static_flag asked n = record {
  place = p;
  is_running = true;
  update_client = update;
  reset_connection = reset;
  connection_reset = static_flag;
  writable_asked = asked;
  full_updates = n;
}

from_service : (r c : Bool) (n : ℕ) → GetsThere (flags service false r c true n)
from_service r c n = (0, record { at = refl; seen = refl; asked = refl })

from_test_running : (r c : Bool) (n : ℕ) → GetsThere (flags test_running false r c true n)
unfolding loop_step
from_test_running r c n = back _ (from_service r c n)

from_ask_writable : (r c w : Bool) (n : ℕ) → GetsThere (flags ask_writable false r c w n)
unfolding loop_step
from_ask_writable r c w n = back _ (from_test_running r c n)

from_clear_reset : (r c w : Bool) (n : ℕ) → GetsThere (flags clear_reset false r c w n)
unfolding loop_step
from_clear_reset r c w n = back _ (from_ask_writable false c w n)

from_set_static : (r c w : Bool) (n : ℕ) → GetsThere (flags set_static false r c w n)
unfolding loop_step
from_set_static r c w n = back _ (from_clear_reset r true w n)

from_test_reset : (r c w : Bool) (n : ℕ) → GetsThere (flags test_reset false r c w n)
unfolding loop_step
from_test_reset true c w n = back _ (from_set_static true c w n)
from_test_reset false c w n = back _ (from_ask_writable false c w n)

from_clear_update : (u r c w : Bool) (n : ℕ) → GetsThere (flags clear_update u r c w n)
unfolding loop_step
from_clear_update u r c w n = back _ (from_test_reset r c w n)

-- With a request that has not been seen.
asked_test_update : (r c w : Bool) (n : ℕ) → GetsThere (flags test_update true r c w n)
unfolding loop_step
asked_test_update r c w n = back _ (from_clear_update true r c w n)

asked_service : (r c w : Bool) (n : ℕ) → GetsThere (flags service true r c w n)
unfolding loop_step
asked_service r c w n = back _ (asked_test_update r c w n)

asked_test_running : (r c w : Bool) (n : ℕ) → GetsThere (flags test_running true r c w n)
unfolding loop_step
asked_test_running r c w n = back _ (asked_service r c w n)

asked_ask_writable : (r c w : Bool) (n : ℕ) → GetsThere (flags ask_writable true r c w n)
unfolding loop_step
asked_ask_writable r c w n = back _ (asked_test_running r c true n)

asked_clear_reset : (r c w : Bool) (n : ℕ) → GetsThere (flags clear_reset true r c w n)
unfolding loop_step
asked_clear_reset r c w n = back _ (asked_ask_writable false c w n)

asked_set_static : (r c w : Bool) (n : ℕ) → GetsThere (flags set_static true r c w n)
unfolding loop_step
asked_set_static r c w n = back _ (asked_clear_reset r true w n)

asked_test_reset : (r c w : Bool) (n : ℕ) → GetsThere (flags test_reset true r c w n)
unfolding loop_step
asked_test_reset true c w n = back _ (asked_set_static true c w n)
asked_test_reset false c w n = back _ (asked_ask_writable false c w n)

pub gets_there :
    (p : Place) (u r c w : Bool) (n : ℕ)
    → p ≢ stopped
    → (u || (is_answering p || w)) ≡ true
    → GetsThere (flags p u r c w n)
unfolding loop_step
gets_there stopped u r c w n run h = absurd (run refl)
gets_there test_running true r c w n run h = asked_test_running r c w n
gets_there test_running false r c true n run h = from_test_running r c n
gets_there test_running false r c false n run h = absurd (cc h)
gets_there service true r c w n run h = asked_service r c w n
gets_there service false r c true n run h = from_service r c n
gets_there service false r c false n run h = absurd (cc h)
gets_there test_update true r c w n run h = asked_test_update r c w n
gets_there test_update false r c true n run h = back _ (from_test_running r c n)
gets_there test_update false r c false n run h = absurd (cc h)
gets_there clear_update u r c w n run h = from_clear_update u r c w n
gets_there test_reset true r c w n run h = asked_test_reset r c w n
gets_there test_reset false r c w n run h = from_test_reset r c w n
gets_there set_static true r c w n run h = asked_set_static r c w n
gets_there set_static false r c w n run h = from_set_static r c w n
gets_there clear_reset true r c w n run h = asked_clear_reset r c w n
gets_there clear_reset false r c w n run h = from_clear_reset r c w n
gets_there ask_writable true r c w n run h = asked_ask_writable r c w n
gets_there ask_writable false r c w n run h = from_ask_writable r c w n

pub run-loops :
    (k : ℕ) {jobs : List Job} (s : System)
    → Run jobs s
    → s.is_open ≡ true
    → s.reading ≡ none
    → Run jobs (record s { flags = loop_n k s.flags })
run-loops zero s run opened idle = run
run-loops (suc k) s run opened idle =
    run-loops k (record s { flags = loop_step s.flags.place s.flags })
      (steps run (loops opened idle)) opened idle
