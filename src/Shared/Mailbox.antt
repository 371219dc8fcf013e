-- ===== src/Shared/Mailbox.antt =====
-- What the shared values promise to the two threads, whatever the interleaving of their calls.
use ir_pit_crew.Prelude.{◌≡◌, refl, List, [], ◌∷◌, ◌++◌}
use ir_pit_crew.Prelude.Text.{Text}
use ir_pit_crew.Dict.{Dict}
use ir_pit_crew.Shared.{
  SharedData, initial, Call, put_session_info, take_session_info, put_data, take_data,
  put_fuel_message, take_fuel_message, Reply, message, perform, run,
}

-- The messages sent in a run, in order.
abbrev pub sent : List Call → List Text
sent [] = []
sent (put_fuel_message t ∷ cs) = t ∷ sent cs
sent (_ ∷ cs) = sent cs

-- The messages received: an empty text is the answer that there is none.
abbrev pub received : List Reply → List Text
received [] = []
received (message [] ∷ rs) = received rs
received (message (c ∷ t) ∷ rs) = (c ∷ t) ∷ received rs
received (_ ∷ rs) = received rs

-- The first list is the second with some elements left out.
pub data IsSubsequence : List Text → List Text → Type 0 where
  stop : IsSubsequence [] []
  skip : {xs ys : List Text} (y : Text) → IsSubsequence xs ys → IsSubsequence xs (y ∷ ys)
  keep : {xs ys : List Text} (y : Text) → IsSubsequence xs ys → IsSubsequence (y ∷ xs) (y ∷ ys)

abbrev pending : Text → List Text
pending [] = []
pending (c ∷ t) = (c ∷ t) ∷ []

skip_pending :
    (t : Text) {xs ys : List Text} → IsSubsequence xs ys → IsSubsequence xs (pending t ++ ys)
skip_pending [] h = h
skip_pending (c ∷ t) h = skip (c ∷ t) h

pending_first :
    (u : Text) {xs ys : List Text} → IsSubsequence xs (pending u ++ ys) → IsSubsequence xs (u ∷ ys)
pending_first [] h = skip [] h
pending_first (c ∷ u) h = h

keep_pending :
    (t : Text) (rs : List Reply) {ys : List Text}
    → IsSubsequence (received rs) ys
    → IsSubsequence (received (message t ∷ rs)) (pending t ++ ys)
keep_pending [] rs h = h
keep_pending (c ∷ t) rs h = keep (c ∷ t) h

received-IsSubsequence :
    (cs : List Call) (s : SharedData)
    → IsSubsequence (received (run s cs).0) (pending s.fuel_message ++ sent cs)
unfolding run
received-IsSubsequence [] s = skip_pending s.fuel_message stop
received-IsSubsequence (put_session_info t ∷ cs) s =
    received-IsSubsequence cs (record s { session_info = t })
received-IsSubsequence (take_session_info ∷ cs) s = received-IsSubsequence cs s
received-IsSubsequence (put_data m ∷ cs) s = received-IsSubsequence cs (record s { data_map = m })
received-IsSubsequence (take_data ∷ cs) s = received-IsSubsequence cs s
received-IsSubsequence (put_fuel_message u ∷ cs) s =
    skip_pending s.fuel_message
      (pending_first u (received-IsSubsequence cs (record s { fuel_message = u })))
received-IsSubsequence (take_fuel_message ∷ cs) s =
    keep_pending s.fuel_message (run (record s { fuel_message = [] }) cs).0
      (received-IsSubsequence cs (record s { fuel_message = [] }))

-- In any sequence of calls that starts from empty values, the messages received are messages sent,
-- in the order of sending and each at most once.
pub run-delivery : (cs : List Call) → IsSubsequence (received (run initial cs).0) (sent cs)
run-delivery cs = received-IsSubsequence cs initial

-- What a run leaves behind: the last value put, or the one before the run.
abbrev pub last_data : Dict → List Call → Dict
last_data m [] = m
last_data m (put_data n ∷ cs) = last_data n cs
last_data m (_ ∷ cs) = last_data m cs

abbrev pub last_session_info : Text → List Call → Text
last_session_info t [] = t
last_session_info t (put_session_info u ∷ cs) = last_session_info u cs
last_session_info t (_ ∷ cs) = last_session_info t cs

-- The message that no one has taken yet.
abbrev pub unread : Text → List Call → Text
unread t [] = t
unread t (put_fuel_message u ∷ cs) = unread u cs
unread t (take_fuel_message ∷ cs) = unread [] cs
unread t (_ ∷ cs) = unread t cs

-- After any sequence of calls the shared values are those that the history of the calls alone
-- determines: the session info and the data last put, and the fuel message put since the last
-- time that one was taken.
pub run-history :
    (cs : List Call) (s : SharedData)
    → (run s cs).1 ≡ record {
      session_info = last_session_info s.session_info cs;
      data_map = last_data s.data_map cs;
      fuel_message = unread s.fuel_message cs;
    }
unfolding run perform
run-history [] s = refl
run-history (put_session_info t ∷ cs) s = run-history cs (record s { session_info = t })
run-history (take_session_info ∷ cs) s = run-history cs s
run-history (put_data m ∷ cs) s = run-history cs (record s { data_map = m })
run-history (take_data ∷ cs) s = run-history cs s
run-history (put_fuel_message t ∷ cs) s = run-history cs (record s { fuel_message = t })
run-history (take_fuel_message ∷ cs) s = run-history cs (record s { fuel_message = [] })
