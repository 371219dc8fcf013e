-- ===== src/Plugin/Main/Start.antt =====
-- When `_tmain` of src/irplugin/irplugin.cpp enters its loop.
use ir_pit_crew.Prelude.{
  some, List, ℕ, All, ◌∙◌, ◌≤◌, ◌≡◌, ◌↔◌, refl, sym, ap, Bool, true, false, Bool-cases, inl, inr,
  arith,
}
use ir_pit_crew.Prelude.Int.{ℤ, pos, negsuc}
use ir_pit_crew.Prelude.Text.{Text}
use ir_pit_crew.Floats.{Floats, nought}
use ir_pit_crew.LapFuel.Files.{Storage}
use mathlib.Core.Path.{subst}
use ir_pit_crew.Plugin.Main.Running.{IsScaling, IsSound, run_is_defined, first_state-IsReady}
use ir_pit_crew.Plugin.Main.{
  Poll, Turn, run, MainLoop, Startup, running, is_bad_port, first_state, start,
}

-- A number that a TCP port can have.
abbrev pub IsPort : ℤ → Type 0
IsPort (pos n) = (1 ≤ n) × (n ≤ 65535)
IsPort (negsuc n) = ⊥

is_bad_port-IsPort : (port : ℤ) → is_bad_port port ≡ false ↔ IsPort port
unfolding is_bad_port
is_bad_port-IsPort (pos n) = (λ h. (ground arith, ground arith), λ h. ground (arith, h.0, h.1))
is_bad_port-IsPort (negsuc n) = (λ h. absurd (ground arith), λ h. absurd h)

module _ (F : Floats) where
  abbrev port_of : Text → Storage → ℤ
  port_of data_dir st = (first_state F data_dir st).plugin.settings.server_port

  abbrev is_running : Startup F → Bool
  is_running (running m) = true
  is_running _ = false

  -- The program enters its loop, in the state that the configuration gives, exactly if it is the
  -- first instance, the handler for its end could be set, and the port that was read is one that
  -- TCP has.
  pub start-running :
      (is_first has_handler : Bool) (data_dir : Text) (st : Storage)
      → (start F is_first has_handler data_dir st ≡ running (first_state F data_dir st))
        ↔ ((is_first ≡ true) × (has_handler ≡ true) × IsPort (port_of data_dir st))
  unfolding start
  start-running false has_handler data_dir st =
      (λ e. absurd (cc (ap is_running e)), λ h. absurd (cc h.0))
  start-running true false data_dir st = (λ e. absurd (cc (ap is_running e)), λ h. absurd (cc h.1))
  start-running true true data_dir st = elim (Bool-cases (is_bad_port (port_of data_dir st))) [
    | inl bad ↦ (
      λ e. absurd (cc (rw bad at (ap is_running e))),
      λ h. absurd (cc (bad, (is_bad_port-IsPort (port_of data_dir st)).1 h.2)),
    )
    | inr good ↦
        (λ e. (refl, refl, (is_bad_port-IsPort (port_of data_dir st)).0 good), λ h. rw good refl)
  ]

  running-injective : {m m' : MainLoop F} → running m ≡ running m' → m ≡ m'
  running-injective {m} e = ap loop_of e
    where
      loop_of : Startup F → MainLoop F
      loop_of (running n) = n
      loop_of _ = m

  -- Whatever it was called with, a program in its loop has the state of the configuration.
  pub running-first_state :
      (is_first has_handler : Bool) (data_dir : Text) (st : Storage) (m : MainLoop F)
      → start F is_first has_handler data_dir st ≡ running m
      → m ≡ first_state F data_dir st
  unfolding start
  running-first_state false has_handler data_dir st m e = absurd (cc (ap is_running e))
  running-first_state true false data_dir st m e = absurd (cc (ap is_running e))
  running-first_state true true data_dir st m e =
      elim (Bool-cases (is_bad_port (port_of data_dir st))) [
        | inl bad ↦ absurd (cc (rw bad at (ap is_running e)))
        | inr good ↦ running-injective (sym e ∙ rw good refl)
      ]

  -- A program that entered its loop, with files of whatever content, turns as often as the
  -- simulator is polled: no assertion fails and no read leaves the row, if every header with a row
  -- is sound.
  pub program_is_defined :
      (single_of : Text → F.single.Num) (double_of : Text → F.double.Num) (scaling : IsScaling F)
      (is_first has_handler : Bool) (data_dir : Text) (st : Storage) (m : MainLoop F)
      (positions : ℕ) (polls : List Poll)
      → start F is_first has_handler data_dir st ≡ running m
      → All (IsSound F single_of double_of scaling) polls
      → (t : Turn F) × (run F single_of double_of data_dir positions m polls ≡ some t)
  program_is_defined single_of double_of scaling is_first has_handler data_dir st m positions polls
        e sound =
      let ready =
        subst (λ (n : MainLoop F). F.double.lt (nought F.double) n.plugin.conversion.factor ≡ true)
          (sym (running-first_state is_first has_handler data_dir st m e))
          (first_state-IsReady F single_of double_of scaling data_dir st) in
      run_is_defined F single_of double_of scaling data_dir positions m polls ready sound
