-- ===== src/Plugin/Update/Published.antt =====
-- What an update publishes.
use mathlib.Core.Path.{subst}
use ir_pit_crew.Prelude.{ℕ, ◌≡◌, refl, Option, none, some, List, [], ◌∷◌, ◌++◌, ◌>>=◌, arith}
use ir_pit_crew.Prelude.Text.{Text, text_eq_iff, codes}
use ir_pit_crew.Dict.{Dict, find, insert, IsMap}
use ir_pit_crew.Dict.Laws.{insert-IsMap, find-insert}
use ir_pit_crew.Floats.{Floats}
use ir_pit_crew.Server.Loop.{asks_update}
use ir_pit_crew.Plugin.DataMap.{add_data_var, add_string_data_var}
use ir_pit_crew.Plugin.Standings.{Yaml}
use ir_pit_crew.Plugin.PitCommand.{handle_pit_command_message}
use ir_pit_crew.Shared.{set_data, get_fuel_message}
use ir_pit_crew.Plugin.State.{Plugin, Outcome}
use ir_pit_crew.Plugin.Update.{
  limit_entries, fuel_entries, car_entries, Entry, number, string, add_entry, add_entries, collect,
  publish, update, precision, finish_lap, change_session,
}
use ir_pit_crew.Plugin.Convert.{convert_fuel_litres_to_display}

-- `m'` is in order and has everything that `m` has.
abbrev pub Extends : Dict → Dict → Type 0
Extends m m' = IsMap m' × ((name v : Text) → find name m ≡ some v → find name m' ≡ some v)

pub insert-Extends : (m : Dict) (name value : Text) → IsMap m → Extends m (insert name value m)
insert-Extends m name value h = (
  insert-IsMap name value m h,
  λ other v e. ground (arith, find-insert other name value m h, text_eq_iff other name),
)

pub Extends-trans : (a b c : Dict) → Extends a b → Extends b c → Extends a c
Extends-trans a b c h k = (k.0, λ name v e. k.1 name v (h.1 name v e))

pub collect-IsMap : (m : Dict) (vars : List (Text × Text)) → IsMap m → IsMap (collect m vars)
unfolding collect add_string_data_var
collect-IsMap m [] h = h
collect-IsMap m ((name, value) ∷ vars) h =
    collect-IsMap (insert name value m) vars (insert-IsMap name value m h)

-- A property of the result, if there is one.
abbrev pub Holds {ℓ κ} : {A : Type ℓ} → (A → Type κ) → Option A → Type κ
Holds P none = Unit
Holds P (some a) = P a

pub bind-Holds {ℓ ℓ' κ} :
    {A : Type ℓ} {B : Type ℓ'} (P : B → Type κ) (m : Option A) (f : A → Option B)
    → ((a : A) → Holds P (f a))
    → Holds P (m >>= f)
unfolding ◌>>=◌
bind-Holds P none f h = tt
bind-Holds P (some a) f h = h a

-- What holds of the first result is known of it in the second.
pub chain-Holds {ℓ ℓ' κ κ'} :
    {A : Type ℓ} {B : Type ℓ'} (Q : A → Type κ) (P : B → Type κ') (m : Option A) (f : A → Option B)
    → Holds Q m
    → ((a : A) → Q a → Holds P (f a))
    → Holds P (m >>= f)
unfolding ◌>>=◌
chain-Holds Q P none f h k = tt
chain-Holds Q P (some a) f h k = k a h

module _ (F : Floats) where
  add_entry-Extends : (m : Dict) (e : Entry F) → IsMap m → Extends m (add_entry F m e)
  unfolding add_entry add_data_var add_string_data_var
  add_entry-Extends m (number name x) h = insert-Extends m name _ h
  add_entry-Extends m (string name t) h = insert-Extends m name t h

  pub add_entries-Extends :
      (m : Dict) (es : List (Entry F)) → IsMap m → Extends m (add_entries F m es)
  unfolding add_entries
  add_entries-Extends m [] h = (h, λ name v e. e)
  add_entries-Extends m (e ∷ es) h =
      let step = add_entry-Extends m e h in
      Extends-trans m (add_entry F m e) (add_entries F (add_entry F m e) es) step
        (add_entries-Extends (add_entry F m e) es step.0)

  -- The map, no message left, and a request to the server thread.
  abbrev IsPublished : Dict → Outcome F → Type 0
  IsPublished m o =
      (o.plugin.shared.data_map ≡ m)
      × (o.plugin.shared.fuel_message ≡ [])
      × (o.requests ≡ asks_update ∷ [])

  pub grown-Extends :
      (m : Dict) (name : Text) (x : F.double.Num) (es es' : List (Entry F))
      → IsMap m
      → Extends m (add_entries F (add_entries F (add_data_var F m name x precision) es) es')
  unfolding add_data_var
  grown-Extends m name x es es' h =
      let m1 = add_data_var F m name x precision in
      let m2 = add_entries F m1 es in
      let a = insert-Extends m name _ h in
      let b = add_entries-Extends m1 es a.0 in
      let c = add_entries-Extends m2 es' b.0 in
      Extends-trans m m1 (add_entries F m2 es') a (Extends-trans m1 m2 (add_entries F m2 es') b c)

  -- The map that is published has everything that `m` has.
  abbrev pub Publishes : Dict → Outcome F → Type 0
  Publishes m o =
      Extends m o.plugin.shared.data_map
      × (o.plugin.shared.fuel_message ≡ [])
      × (o.requests ≡ asks_update ∷ [])

  publish-Publishes :
      (p : Plugin F) (m m' : Dict) → Extends m m' → Holds (Publishes m) (publish F p m')
  unfolding publish set_data get_fuel_message
  publish-Publishes p m m' h =
      bind-Holds (Publishes m)
        (handle_pit_command_message F p.settings.skip_clear_on_apply p.conversion.factor
          p.shared.fuel_message)
        _ (λ sent. (h, refl, refl))

  pub update-Publishes :
      (yaml : Text → Option Yaml) (positions : ℕ) (vars : List (Text × Text)) (p : Plugin F)
      → Holds (Publishes (collect [] vars)) (update F yaml positions vars p)
  unfolding update
  update-Publishes yaml positions vars p =
      let m = collect [] vars in
      let h = collect-IsMap [] vars tt in
      let P = Publishes m in
      bind-Holds P _ _ (λ fuel. bind-Holds P _ _ (λ pct. bind-Holds P _ _ (λ last.
        bind-Holds P _ _ (λ time. bind-Holds P _ _ (λ flags. bind-Holds P _ _ (λ num.
          bind-Holds P _ _ (λ copied. bind-Holds P _ _ (λ l. bind-Holds P _ _ (λ cars.
            let p1 = finish_lap F last fuel (change_session F yaml num p) in
            publish-Publishes p1 m _ (
              grown-Extends m (codes "MaxFuel")
                (convert_fuel_litres_to_display F p.conversion.factor p.max_fuel)
                (limit_entries F p1 l ++ fuel_entries F p1 l fuel) (car_entries F cars) h))))))))))

  -- An update that comes to its end publishes a map in order, in which every variable of the
  -- simulator has the value that the simulator gave: a value of the program's own never replaces
  -- it. The client's message is taken out, and the server thread is asked to send the changes.
  pub update_publishes :
      (yaml : Text → Option Yaml) (positions : ℕ) (vars : List (Text × Text)) (p : Plugin F)
      → (o : Outcome F) (name v : Text) → update F yaml positions vars p ≡ some o
      → find name (collect [] vars) ≡ some v
      → IsMap o.plugin.shared.data_map
        × (find name o.plugin.shared.data_map ≡ some v)
        × (o.plugin.shared.fuel_message ≡ [])
        × (o.requests ≡ asks_update ∷ [])
  update_publishes yaml positions vars p o name v h k =
      let (e, msg, asked) =
        subst (Holds (Publishes (collect [] vars))) h (update-Publishes yaml positions vars p) in
      (e.0, e.1 name v k, msg, asked)
