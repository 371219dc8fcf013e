-- ===== src/Plugin/Main/Work.antt =====
-- What the tasks of `System` leave behind, in the terms of the main loop: the shared values and the
-- requests to the server thread.
use ir_pit_crew.Prelude.{
  ◌≡◌, refl, sym, ap, ◌∙◌, List, [], ◌∷◌, ◌++◌, append_assoc, All, All-append,
}
use ir_pit_crew.Dict.{IsMap}
use ir_pit_crew.Shared.{SharedData, set_session_info, set_data, get_fuel_message}
use ir_pit_crew.Server.Loop.{Action, asks_reset, asks_update}
use ir_pit_crew.System.{
  Task, put_info, put_map, take_message, ask_reset, ask_update, Job, new_header, telemetry, tasks,
}

-- What a task does to the shared values, and what it asks of the server thread.
abbrev pub shared_after : SharedData → List Task → SharedData
shared_after s [] = s
shared_after s (put_info info ∷ ts) = shared_after (set_session_info s info) ts
shared_after s (put_map m ∷ ts) = shared_after (set_data s m) ts
shared_after s (take_message ∷ ts) = shared_after (get_fuel_message s).1 ts
shared_after s (ask_reset ∷ ts) = shared_after s ts
shared_after s (ask_update ∷ ts) = shared_after s ts

abbrev pub requests_of : List Task → List Action
requests_of [] = []
requests_of (ask_reset ∷ ts) = asks_reset ∷ requests_of ts
requests_of (ask_update ∷ ts) = asks_update ∷ requests_of ts
requests_of (_ ∷ ts) = requests_of ts

-- The tasks of jobs, one job after another.
abbrev pub all_tasks : List Job → List Task
all_tasks [] = []
all_tasks (job ∷ jobs) = tasks job ++ all_tasks jobs

pub shared_after-append :
    (s : SharedData) (ts us : List Task)
    → shared_after s (ts ++ us) ≡ shared_after (shared_after s ts) us
shared_after-append s [] us = refl
shared_after-append s (put_info info ∷ ts) us = shared_after-append (set_session_info s info) ts us
shared_after-append s (put_map m ∷ ts) us = shared_after-append (set_data s m) ts us
shared_after-append s (take_message ∷ ts) us = shared_after-append (get_fuel_message s).1 ts us
shared_after-append s (ask_reset ∷ ts) us = shared_after-append s ts us
shared_after-append s (ask_update ∷ ts) us = shared_after-append s ts us

requests_of-append : (ts us : List Task) → requests_of (ts ++ us) ≡ requests_of ts ++ requests_of us
requests_of-append [] us = refl
requests_of-append (put_info info ∷ ts) us = requests_of-append ts us
requests_of-append (put_map m ∷ ts) us = requests_of-append ts us
requests_of-append (take_message ∷ ts) us = requests_of-append ts us
requests_of-append (ask_reset ∷ ts) us = ap (◌∷◌ asks_reset) (requests_of-append ts us)
requests_of-append (ask_update ∷ ts) us = ap (◌∷◌ asks_update) (requests_of-append ts us)

-- The map of a set of telemetry is in order.
abbrev pub IsOrderedJob : Job → Type 0
IsOrderedJob (new_header info) = Unit
IsOrderedJob (telemetry m) = IsMap m

-- These shared values and requests are what the jobs leave behind.
pub record IsWork (jobs : List Job) (before after : SharedData) (requests : List Action)
    : Type 0 where
  pub shared : after ≡ shared_after before (all_tasks jobs)
  pub asked : requests ≡ requests_of (all_tasks jobs)
  pub ordered : All IsOrderedJob jobs

all_tasks-append : (js ks : List Job) → all_tasks (js ++ ks) ≡ all_tasks js ++ all_tasks ks
all_tasks-append [] ks = refl
all_tasks-append (j ∷ js) ks =
    ap (◌++◌ (tasks j)) (all_tasks-append js ks) ∙ sym (append_assoc (tasks j) _ _)

pub IsWork-append :
    (js ks : List Job) (s s' s'' : SharedData) (rs qs : List Action)
    → IsWork js s s' rs
    → IsWork ks s' s'' qs
    → IsWork (js ++ ks) s s'' (rs ++ qs)
IsWork-append js ks s s' s'' rs qs h k = record {
  shared =
      rw
        (
          all_tasks-append js ks,
          shared_after-append s (all_tasks js) (all_tasks ks),
          k.shared,
          h.shared,
        )
        refl;
  asked =
      rw
        (all_tasks-append js ks, requests_of-append (all_tasks js) (all_tasks ks), k.asked, h.asked)
        refl;
  ordered = All-append IsOrderedJob js ks h.ordered k.ordered;
}
