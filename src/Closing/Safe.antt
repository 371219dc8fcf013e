-- ===== src/Closing/Safe.antt =====
-- The object of the server thread, up to its deletion by the console handler.
use ir_pit_crew.Prelude.{
  ◌≡◌, refl, sym, ◌∙◌, ap, Bool, true, false, List, [], ◌∷◌, ◌⊎◌, inl, inr, arith,
}
use ir_pit_crew.Closing.{
  Object, null, live, freed, Call, creates, asserts, starts, resets, updates, going, Handler,
  not_called, saving, testing, stopping, joining, destroying, destroying_join, freeing, nulling,
  ending, exited, Program, begin, turn_calls, on_object, perform, handle, Step, calls, turns,
  serves, closes, handles, Run, here, more,
}

-- The handler has released the object, or has found none.
abbrev pub is_released : Handler → Bool
is_released nulling = true
is_released ending = true
is_released exited = true
is_released _ = false

abbrev pub startup : List Call
startup = creates ∷ asserts ∷ starts ∷ []

abbrev has_creates : List Call → Bool
has_creates [] = false
has_creates (creates ∷ cs) = true
has_creates (_ ∷ cs) = has_creates cs

-- The object is there, or is still to be made.
abbrev IsAlive : Program → Type 0
IsAlive s =
    ((s.object ≡ live) × (has_creates s.todo ≡ false)) ⊎ ((s.object ≡ null) × (s.todo ≡ startup))

abbrev IsSafe : Program → Type 0
IsSafe s = is_released s.handler ≡ false → (s.fate ≡ going) × IsAlive s

handler-on_object :
    (o : Object) (a b : Program) → a.handler ≡ b.handler → (on_object o a b).handler ≡ b.handler
unfolding on_object
handler-on_object null a b h = refl
handler-on_object live a b h = h
handler-on_object freed a b h = refl

pub handler-perform : (c : Call) (s : Program) → (perform c s).handler ≡ s.handler
unfolding perform
handler-perform creates s = refl
handler-perform asserts s = ground arith
handler-perform starts s = handler-on_object s.object _ s refl
handler-perform resets s = handler-on_object s.object _ s refl
handler-perform updates s = handler-on_object s.object _ s refl

-- A call of an object that is there.
performs-IsAlive :
    (c : Call) (s : Program)
    → s.object ≡ live
    → has_creates s.todo ≡ false
    → s.fate ≡ going
    → ((perform c s).fate ≡ going) × IsAlive (perform c s)
unfolding perform on_object
performs-IsAlive creates s o n g = (g, inl (refl, n))
performs-IsAlive asserts s o n g = rw o (g, inl (refl, n))
performs-IsAlive starts s o n g = rw o (g, inl (refl, n))
performs-IsAlive resets s o n g = rw o (g, inl (refl, n))
performs-IsAlive updates s o n g = rw o (g, inl (refl, n))

calls-IsSafe :
    (s : Program) (c : Call) (cs : List Call)
    → s.todo ≡ c ∷ cs
    → IsSafe s
    → IsSafe (perform c (record s { todo = cs }))
unfolding perform
calls-IsSafe s c cs e h q =
    let before : is_released s.handler ≡ false =
      ap is_released (sym (handler-perform c (record s { todo = cs }))) ∙ q in
    elim (h before).1 [
      | inl (o, n) ↦
          performs-IsAlive c (record s { todo = cs }) o (has_creates-tail c cs (rw e at n))
            (h before).0
      | inr (o, t) ↦ first c (sym e ∙ t) (h before).0
    ]
  where
    has_creates-tail :
        (c : Call) (cs : List Call) → has_creates (c ∷ cs) ≡ false → has_creates cs ≡ false
    has_creates-tail creates cs n = absurd (cc n)
    has_creates-tail asserts cs n = n
    has_creates-tail starts cs n = n
    has_creates-tail resets cs n = n
    has_creates-tail updates cs n = n

    first :
        (d : Call)
        → d ∷ cs ≡ startup
        → s.fate ≡ going
        → ((perform d (record s { todo = cs })).fate ≡ going)
          × IsAlive (perform d (record s { todo = cs }))
    first creates t g = (g, inl (refl, ground (arith, t)))
    first asserts t g = absurd (cc t)
    first starts t g = absurd (cc t)
    first resets t g = absurd (cc t)
    first updates t g = absurd (cc t)

turn-has_creates : (b : Bool) → has_creates (turn_calls b) ≡ false
unfolding turn_calls
turn-has_creates true = refl
turn-has_creates false = refl

turns-IsSafe :
    (s : Program) (b : Bool) → s.todo ≡ [] → IsSafe s → IsSafe (record s { todo = turn_calls b })
turns-IsSafe s b e h q = elim (h q).1 [
  | inl (o, n) ↦ ((h q).0, inl (o, turn-has_creates b))
  | inr (o, t) ↦ absurd (cc (e, t))
]

-- The handler touches neither the calls of the main loop nor what has become of it.
handle-IsSafe : (p : Handler) (s : Program) → s.handler ≡ p → IsSafe s → IsSafe (handle p s)
unfolding handle
handle-IsSafe not_called s e h q = h q
handle-IsSafe saving s e h q = h (rw e refl)
handle-IsSafe testing s e h q = h (rw e refl)
handle-IsSafe stopping s e h q = h (rw e refl)
handle-IsSafe joining s e h q = ground (arith, h (rw e refl))
handle-IsSafe destroying s e h q = h (rw e refl)
handle-IsSafe destroying_join s e h q = ground (arith, h (rw e refl))
handle-IsSafe freeing s e h q = absurd (cc q)
handle-IsSafe nulling s e h q = absurd (cc q)
handle-IsSafe ending s e h q = absurd (cc q)
handle-IsSafe exited s e h q = absurd (cc (e, q))

Step-IsSafe : {s s' : Program} → Step s s' → IsSafe s → IsSafe s'
Step-IsSafe (calls {s} c cs e) h = calls-IsSafe s c cs e h
Step-IsSafe (turns {s} b e) h = turns-IsSafe s b e h
Step-IsSafe (serves {s} f e) h = h
Step-IsSafe (closes {s} e) h = λ q. h (rw e refl)
Step-IsSafe (handles {s}) h = handle-IsSafe s.handler s refl h

run-IsSafe : (b : Bool) {s : Program} → Run (begin b) s → IsSafe s
run-IsSafe b here q = (refl, inr (refl, refl))
run-IsSafe b (more run going_on not_over step) q = Step-IsSafe step (run-IsSafe b run) q

-- In every interleaving of the main loop, the server thread and the handler, from the start of the
-- server thread on: until the handler has released the object of the thread, or has found none, no
-- assertion on the pointer fails and no call is made through it without an object, and the object
-- is there as soon as it has been made.
pub until_released :
    (has_context : Bool) (s : Program)
    → Run (begin has_context) s
    → is_released s.handler ≡ false
    → (s.fate ≡ going) × ((s.object ≡ live) ⊎ (s.todo ≡ startup))
until_released has_context s run q =
    let (g, alive) = run-IsSafe has_context run q in
    (g, elim alive [ inl (o, n) ↦ inl o | inr (o, t) ↦ inr t ])
