-- ===== src/Plugin/Update/Once.antt =====
-- A lap that the simulator reports in one update after another.
use mathlib.Core.Path.{subst}
use ir_pit_crew.Floats.{IsNumber, Floats}
use ir_pit_crew.Plugin.Update.{collect, update, change_session, finish_lap, publish}
use ir_pit_crew.Plugin.DataMap.{read_data_var}
use ir_pit_crew.Prelude.Text.{codes, Text}
use ir_pit_crew.Prelude.{
  ap, List, [], ℕ, some, none, ◌∙◌, ◌≡◌, refl, true, not, ◌&&◌, Bool-cases, inl, inr, Option, some,
  ◌>>=◌,
}
use ir_pit_crew.Prelude.Int.{ℤ, pos, le_ℤ}
use ir_pit_crew.Dict.{Dict}
use ir_pit_crew.LapFuel.Laps.{add_lap_data}
use ir_pit_crew.Plugin.PitCommand.{handle_pit_command_message}
use ir_pit_crew.Plugin.Standings.{Yaml, int_eq}
use ir_pit_crew.Plugin.State.{Plugin, Outcome}
use ir_pit_crew.Plugin.Update.Published.{Holds, bind-Holds}

-- The first result is known.
known-Holds {ℓ ℓ' κ} :
    {A : Type ℓ} {B : Type ℓ'} (P : B → Type κ) (m : Option A) (f : A → Option B) (a : A)
    → m ≡ some a
    → Holds P (f a)
    → Holds P (m >>= f)
unfolding ◌>>=◌
known-Holds P m f a e h = rw e h

module _ (F : Floats) where
  open F use {single, read_single}

  -- The last lap of the state has this time.
  abbrev IsSameLap : single.Num → Plugin F → Type 0
  IsSameLap t p =
      (single.le p.old_lap_last_lap_time t && single.le t p.old_lap_last_lap_time) ≡ true

  -- What a lap changes.
  record IsSameLaps (p q : Plugin F) : Type 0 where
    pub laps : q.lap_data ≡ p.lap_data
    pub files : q.storage ≡ p.storage
    pub estimate : q.estimate ≡ p.estimate
    pub last : q.old_lap_last_lap_time ≡ p.old_lap_last_lap_time

  change_session-IsSameLaps :
      (yaml : Text → Option Yaml) (num : ℤ) (p : Plugin F)
      → IsSameLaps p (change_session F yaml num p)
  unfolding change_session
  change_session-IsSameLaps yaml num p =
      elim (Bool-cases (not (int_eq num p.session_num) && le_ℤ (pos 0) num)) [
        | inl new ↦ rw new (record { laps = refl; files = refl; estimate = refl; last = refl })
        | inr same ↦ rw same (record { laps = refl; files = refl; estimate = refl; last = refl })
      ]

  finish_lap-IsSameLap :
      (t fuel : single.Num) (p : Plugin F)
      → single.le t t ≡ true
      → IsSameLap t (finish_lap F t fuel p)
  unfolding finish_lap
  finish_lap-IsSameLap t fuel p number =
      elim (Bool-cases
        (single.le p.old_lap_last_lap_time t && single.le t p.old_lap_last_lap_time)) [
          | inl same ↦ rw same same
          | inr new ↦ rw new (elim (Bool-cases (add_lap_data F p.lap_data t fuel).1) [
            | inl updated ↦ rw (updated, number) refl
            | inr kept ↦ rw (kept, number) refl
          ])
        ]

  finish_lap-again :
      (t fuel : single.Num) (p : Plugin F) → IsSameLap t p → finish_lap F t fuel p ≡ p
  unfolding finish_lap
  finish_lap-again t fuel p h = rw h refl

  publish-IsSameLaps :
      (p : Plugin F) (m : Dict) → Holds (λ o. IsSameLaps p o.plugin) (publish F p m)
  unfolding publish
  publish-IsSameLaps p m =
      bind-Holds _
        (handle_pit_command_message F p.settings.skip_clear_on_apply p.conversion.factor _) _
        (λ sent. record { laps = refl; files = refl; estimate = refl; last = refl })

  mono-Holds {ℓ κ} :
      {A : Type ℓ} (P Q : A → Type κ) (m : Option A) → ((a : A) → P a → Q a) → Holds P m → Holds Q m
  mono-Holds P Q none f h = tt
  mono-Holds P Q (some a) f h = f a h

  -- The time of the last lap among the variables.
  abbrev pub IsLapTime : single.Num → List (Text × Text) → Type 0
  IsLapTime t vars = read_data_var read_single (collect [] vars) (codes "LapLastLapTime") ≡ some t

  -- What is published is what the end of the lap has left.
  update-finish :
      (P : Outcome F → Type 0) (yaml : Text → Option Yaml) (positions : ℕ)
      (vars : List (Text × Text)) (p : Plugin F) (t : single.Num)
      → IsLapTime t vars
      → ((fuel : single.Num) (num : ℤ) (o : Outcome F)
          → IsSameLaps (finish_lap F t fuel (change_session F yaml num p)) o.plugin
          → P o)
      → Holds P (update F yaml positions vars p)
  unfolding update
  update-finish P yaml positions vars p t e f = bind-Holds P _ _ (λ fuel. bind-Holds P _ _ (λ pct.
      known-Holds P _ _ t e (
        bind-Holds P _ _ (λ time. bind-Holds P _ _ (λ flags. bind-Holds P _ _ (λ num.
          bind-Holds P _ _ (λ copied. bind-Holds P _ _ (λ l. bind-Holds P _ _ (λ cars.
            mono-Holds _ P _ (f fuel num)
              (publish-IsSameLaps (finish_lap F t fuel (change_session F yaml num p)) _))))))))))

  update-IsSameLap :
      (yaml : Text → Option Yaml) (positions : ℕ) (vars : List (Text × Text)) (p : Plugin F)
      (t : single.Num)
      → IsLapTime t vars
      → IsNumber single t
      → Holds (λ o. IsSameLap t o.plugin) (update F yaml positions vars p)
  update-IsSameLap yaml positions vars p t e number =
      update-finish _ yaml positions vars p t e (λ fuel num o same.
        ap (λ x. single.le x t && single.le t x) same.last
        ∙ finish_lap-IsSameLap t fuel (change_session F yaml num p) number)

  update-again :
      (yaml : Text → Option Yaml) (positions : ℕ) (vars : List (Text × Text)) (p : Plugin F)
      (t : single.Num)
      → IsLapTime t vars
      → IsSameLap t p
      → Holds (λ o. IsSameLaps p o.plugin) (update F yaml positions vars p)
  update-again yaml positions vars p t e h =
      update-finish _ yaml positions vars p t e (λ fuel num o same.
        let moved = change_session-IsSameLaps yaml num p in
        let kept =
          finish_lap-again t fuel (change_session F yaml num p)
            (ap (λ x. single.le x t && single.le t x) moved.last ∙ h) in
        record {
          laps = same.laps ∙ ap (λ q. q.lap_data) kept ∙ moved.laps;
          files = same.files ∙ ap (λ q. q.storage) kept ∙ moved.files;
          estimate = same.estimate ∙ ap (λ q. q.estimate) kept ∙ moved.estimate;
          last = same.last ∙ ap (λ q. q.old_lap_last_lap_time) kept ∙ moved.last;
        })

  -- A lap is recorded once: when two sets of telemetry, one after the other, report the same time of
  -- the last lap, the second leaves the recorded laps, the files and the estimate as the first left
  -- them, whatever else has changed. The time is a number.
  pub update_once :
      (yaml yaml' : Text → Option Yaml) (positions positions' : ℕ) (vars vars' : List (Text × Text))
      (p : Plugin F) (o o' : Outcome F) (t : single.Num)
      → IsLapTime t vars
      → IsLapTime t vars'
      → IsNumber single t
      → update F yaml positions vars p ≡ some o
      → update F yaml' positions' vars' o.plugin ≡ some o'
      → (o'.plugin.lap_data ≡ o.plugin.lap_data)
        × (o'.plugin.storage ≡ o.plugin.storage)
        × (o'.plugin.estimate ≡ o.plugin.estimate)
  update_once yaml yaml' positions positions' vars vars' p o o' t e e' number first second =
      let same =
        subst (Holds (λ r. IsSameLap t r.plugin)) first
          (update-IsSameLap yaml positions vars p t e number) in
      let kept =
        subst (Holds (λ r. IsSameLaps o.plugin r.plugin)) second
          (update-again yaml' positions' vars' o.plugin t e' same) in
      (kept.laps, kept.files, kept.estimate)
