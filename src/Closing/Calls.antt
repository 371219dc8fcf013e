-- ===== src/Closing/Calls.antt =====
-- What the calls of the main loop leave as it is.
use ir_pit_crew.Prelude.{◌≡◌, ◌≢◌, refl, ap, Bool, true, false, some, List, [], ◌∷◌, arith}
use ir_pit_crew.Server.Loop.{Flags, update_client, reset_connection}
use ir_pit_crew.Closing.{
  Object, null, live, freed, Call, creates, asserts, starts, resets, updates, failed, Program,
  on_object, perform, on_thread, turn_calls,
}

abbrev pub has_starts : List Call → Bool
has_starts [] = false
has_starts (starts ∷ cs) = true
has_starts (_ ∷ cs) = has_starts cs

-- The thread has begun, and its members are so.
abbrev pub HasThread : (Flags → Type 0) → Program → Type 0
HasThread P s = (f : Flags) × (s.thread ≡ some f) × P f

on_object-HasThread :
    (o : Object) (a s : Program) (P : Flags → Type 0)
    → HasThread P a
    → HasThread P s
    → HasThread P (on_object o a s)
unfolding on_object
on_object-HasThread null a s P h k = k
on_object-HasThread live a s P h k = h
on_object-HasThread freed a s P h k = k

asserts-HasThread :
    (s : Program) (P : Flags → Type 0) → HasThread P s → HasThread P (perform asserts s)
unfolding perform
asserts-HasThread s P h = by_object s.object
  where
    by_object : (o : Object) → HasThread P (elim o [ null ↦ record s { fate = failed } | _ ↦ s ])
    by_object null = h
    by_object live = h
    by_object freed = h

pub perform-HasThread :
    (c : Call) (s : Program) (P : Flags → Type 0)
    → c ≢ starts
    → ((f : Flags) → P f → P (reset_connection f))
    → ((f : Flags) → P f → P (update_client f))
    → HasThread P s
    → HasThread P (perform c s)
unfolding perform update_client reset_connection
perform-HasThread creates s P n k l h = h
perform-HasThread asserts s P n k l h = asserts-HasThread s P h
perform-HasThread starts s P n k l h = absurd (n refl)
perform-HasThread resets s P n k l (f, t, r) =
    on_object-HasThread s.object _ s P
      (reset_connection f, ap (on_thread reset_connection) t, k f r) (f, t, r)
perform-HasThread updates s P n k l (f, t, r) =
    on_object-HasThread s.object _ s P (update_client f, ap (on_thread update_client) t, l f r)
      (f, t, r)

on_object-todo : (o : Object) (a s : Program) → a.todo ≡ s.todo → (on_object o a s).todo ≡ s.todo
unfolding on_object
on_object-todo null a s h = refl
on_object-todo live a s h = h
on_object-todo freed a s h = refl

pub perform-todo : (c : Call) (s : Program) → (perform c s).todo ≡ s.todo
unfolding perform
perform-todo creates s = refl
perform-todo asserts s = ground arith
perform-todo starts s = on_object-todo s.object _ s refl
perform-todo resets s = on_object-todo s.object _ s refl
perform-todo updates s = on_object-todo s.object _ s refl

pub starts_no_more :
    (c : Call) (cs : List Call)
    → has_starts (c ∷ cs) ≡ false
    → (c ≢ starts) × (has_starts cs ≡ false)
starts_no_more creates cs h = (λ x. absurd (cc x), h)
starts_no_more asserts cs h = (λ x. absurd (cc x), h)
starts_no_more starts cs h = absurd (cc h)
starts_no_more resets cs h = (λ x. absurd (cc x), h)
starts_no_more updates cs h = (λ x. absurd (cc x), h)

pub turn-has_starts : (b : Bool) → has_starts (turn_calls b) ≡ false
unfolding turn_calls
turn-has_starts true = refl
turn-has_starts false = refl
