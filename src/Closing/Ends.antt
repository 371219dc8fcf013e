-- ===== src/Closing/Ends.antt =====
-- The way of the console handler to its end, when the main loop has been entered.
pub mod Started
use ir_pit_crew.Prelude.{
  ℕ, zero, suc, ◌≤◌, ◌≡◌, ◌≢◌, refl, sym, ◌∙◌, ap, Bool, true, false, Option, none, some, List, [],
  ◌∷◌, arith, if◌then◌else◌,
}
use mathlib.Core.Path.{subst}
use ir_pit_crew.Server.Loop.{Flags, stopped, loop_step, stop, act, server}
use ir_pit_crew.Server.Loop.Stop.{
  steps_left, loop_step-steps_left, act-is_running, stopped-steps_left, steps_left-le,
}
use ir_pit_crew.Closing.{
  Object, null, live, freed, going, Handler, not_called, saving, testing, stopping, joining,
  destroying, destroying_join, freeing, nulling, ending, exited, Program, on_thread, is_joined,
  handle, Step, serves, handles, Run, here, more,
}

-- The handler reaches its end with no step of the main loop.
pub record Ends (s : Program) : Type 0 where
  pub last : Program
  pub run : Run s last
  pub handler : last.handler ≡ exited
  pub todo : last.todo ≡ s.todo

pub Run-append : {a b c : Program} → Run a b → Run b c → Run a c
Run-append r here = r
Run-append r (more q g h step) = more (Run-append r q) g h step

run-Ends : (s b : Program) → Run s b → b.todo ≡ s.todo → Ends b → Ends s
run-Ends s b r e h = record {
  last = h.last;
  run = Run-append r h.run;
  handler = h.handler;
  todo = h.todo ∙ e;
}

handled-Ends :
    (p : Handler) (s : Program)
    → s.handler ≡ p
    → p ≢ exited
    → s.fate ≡ going
    → (handle p s).todo ≡ s.todo
    → Ends (handle p s)
    → Ends s
handled-Ends p s e n g t h =
    run-Ends s (handle p s)
      (more here g (λ x. n (sym e ∙ x)) (subst (λ q. Step s (handle q s)) e handles)) t h

ending-Ends : (s : Program) → s.handler ≡ ending → s.fate ≡ going → Ends s
unfolding handle
ending-Ends s e g =
    handled-Ends ending s e (λ x. absurd (cc x)) g refl
      record { last = record s { handler = exited }; run = here; handler = refl; todo = refl }

nulling-Ends : (s : Program) → s.handler ≡ nulling → s.fate ≡ going → Ends s
unfolding handle
nulling-Ends s e g =
    handled-Ends nulling s e (λ x. absurd (cc x)) g refl (ending-Ends (handle nulling s) refl g)

freeing-Ends : (s : Program) → s.handler ≡ freeing → s.fate ≡ going → Ends s
unfolding handle
freeing-Ends s e g =
    handled-Ends freeing s e (λ x. absurd (cc x)) g refl (nulling-Ends (handle freeing s) refl g)

-- A thread that is asked to stop comes to its end.
serve_out :
    (n : ℕ) (s : Program) (f : Flags)
    → s.fate ≡ going
    → s.handler ≢ exited
    → s.thread ≡ some f
    → f.is_running ≡ false
    → steps_left f.place ≤ n
    → (f' : Flags) × Run s (record s { thread = some f' }) × (f'.place ≡ stopped)
unfolding act
serve_out zero s f g h t r k = (
  f,
  subst (λ u. Run s (record s { thread = u })) t here,
  stopped-steps_left f.place (omega (arith, k)),
)
serve_out (suc n) s f g h t r k =
    let next = loop_step f.place f in
    let (f', run, at) =
      serve_out n (record s { thread = some next }) next g h refl (act-is_running server f r)
        (omega (arith, k, loop_step-steps_left f.place f refl r)) in
    (f', Run-append (more here g h (serves f t)) run, at)

joined : (f : Flags) → f.place ≡ stopped → is_joined (some f) ≡ true
unfolding is_joined
joined f e = rw e refl

destroying_join-Ends :
    (s : Program) (f : Flags)
    → s.handler ≡ destroying_join
    → s.fate ≡ going
    → s.thread ≡ some f
    → f.is_running ≡ false
    → Ends s
unfolding handle
destroying_join-Ends s f e g t r =
    let (f', run, at) = serve_out 8 s f g (λ x. absurd (cc (e, x))) t r (steps_left-le f.place) in
    let b : Program = record s { thread = some f' } in
    run-Ends s b run refl (
      handled-Ends destroying_join b e (λ x. absurd (cc x)) g (rw (joined f' at) refl)
        (rw (joined f' at) (freeing-Ends (record b { handler = freeing }) refl g)))

destroying-Ends :
    (s : Program) (f : Flags) → s.handler ≡ destroying → s.fate ≡ going → s.thread ≡ some f → Ends s
unfolding handle stop
destroying-Ends s f e g t =
    handled-Ends destroying s e (λ x. absurd (cc x)) g refl
      (destroying_join-Ends (handle destroying s) (stop f) refl g (ap (on_thread stop) t) refl)

joining-Ends :
    (s : Program) (f : Flags)
    → s.handler ≡ joining
    → s.fate ≡ going
    → s.thread ≡ some f
    → f.is_running ≡ false
    → Ends s
unfolding handle
joining-Ends s f e g t r =
    let (f', run, at) = serve_out 8 s f g (λ x. absurd (cc (e, x))) t r (steps_left-le f.place) in
    let b : Program = record s { thread = some f' } in
    run-Ends s b run refl (
      handled-Ends joining b e (λ x. absurd (cc x)) g (rw (joined f' at) refl)
        (rw (joined f' at) (destroying-Ends (record b { handler = destroying }) f' refl g refl)))

stopping-Ends :
    (s : Program) (f : Flags) → s.handler ≡ stopping → s.fate ≡ going → s.thread ≡ some f → Ends s
unfolding handle stop
stopping-Ends s f e g t =
    handled-Ends stopping s e (λ x. absurd (cc x)) g refl
      (joining-Ends (handle stopping s) (stop f) refl g (ap (on_thread stop) t) refl)

testing-Ends :
    (s : Program) (f : Flags) → s.handler ≡ testing → s.fate ≡ going → s.thread ≡ some f → Ends s
unfolding handle
testing-Ends s f e g t =
    handled-Ends testing s e (λ x. absurd (cc x)) g refl (by_object s.object refl)
  where
    by_object : (o : Object) → s.object ≡ o → Ends (handle testing s)
    by_object null o = ending-Ends (handle testing s) (rw o refl) g
    by_object live o = stopping-Ends (handle testing s) f (rw o refl) g t
    by_object freed o = stopping-Ends (handle testing s) f (rw o refl) g t

pub saving-Ends :
    (s : Program) (f : Flags) → s.handler ≡ saving → s.fate ≡ going → s.thread ≡ some f → Ends s
unfolding handle
saving-Ends s f e g t =
    handled-Ends saving s e (λ x. absurd (cc x)) g refl (testing-Ends (handle saving s) f refl g t)

-- Where it waits for the thread.
abbrev pub waits : Handler → Bool
waits joining = true
waits destroying_join = true
waits _ = false

-- From wherever the handler stands.
pub handler-Ends :
    (p : Handler) (s : Program) (f : Flags)
    → s.handler ≡ p
    → p ≢ not_called
    → s.fate ≡ going
    → s.thread ≡ some f
    → (waits p ≡ true → f.is_running ≡ false)
    → Ends s
handler-Ends not_called s f e n g t r = absurd (n refl)
handler-Ends saving s f e n g t r = saving-Ends s f e g t
handler-Ends testing s f e n g t r = testing-Ends s f e g t
handler-Ends stopping s f e n g t r = stopping-Ends s f e g t
handler-Ends joining s f e n g t r = joining-Ends s f e g t (r refl)
handler-Ends destroying s f e n g t r = destroying-Ends s f e g t
handler-Ends destroying_join s f e n g t r = destroying_join-Ends s f e g t (r refl)
handler-Ends freeing s f e n g t r = freeing-Ends s e g
handler-Ends nulling s f e n g t r = nulling-Ends s e g
handler-Ends ending s f e n g t r = ending-Ends s e g
handler-Ends exited s f e n g t r = record { last = s; run = here; handler = e; todo = refl }
