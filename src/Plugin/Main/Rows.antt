-- ===== src/Plugin/Main/Rows.antt =====
-- The variables of a row of data in the main loop of src/irplugin/irplugin.cpp.
use ir_pit_crew.Prelude.{
  ◌+◌, ◌*◌, ◌≤◌, ◌≡◌, refl, Bool, true, false, Bool-cases, inl, inr, some, List, [], ◌∷◌, ◌>>=◌,
  All, map, length, arith, if◌then◌else◌,
}
use ir_pit_crew.Prelude.Text.{Text, text_eq, text_eq_iff}
use ir_pit_crew.Dict.{Dict, find, insert, IsMap}
use ir_pit_crew.Dict.Laws.{or_else, find-insert, insert-IsMap}
use ir_pit_crew.Floats.{Floats}
use ir_pit_crew.Plugin.DataMap.{add_string_data_var}
use ir_pit_crew.Plugin.VarData.{VarHeader, size_of, items_from, get_var_data-items}
use ir_pit_crew.Plugin.Update.{collect, precision}
use ir_pit_crew.Plugin.Update.Published.{Extends, insert-Extends, Extends-trans}
use ir_pit_crew.Plugin.Update.Delivered.{IsDefined, needed, IsDelivered}
use ir_pit_crew.Plugin.Main.{read_variables, add_variable}

-- The variable lies in the row.
abbrev pub IsInside : Text → VarHeader → Type 0
IsInside bytes var = var.offset + var.count * size_of var.type ≤ length bytes

-- There is a variable of the name.
abbrev pub has_name : List VarHeader → Text → Bool
has_name [] name = false
has_name (var ∷ vars) name = if text_eq name var.name then true else has_name vars name

-- All variables lie in the row, and those that the loop reads are among them.
pub record IsSoundRow (vars : List VarHeader) (bytes : Text) : Type 0 where
  pub inside : All (IsInside bytes) vars
  pub named : All (λ name. has_name vars name ≡ true) needed

collect-Extends : (m : Dict) (vars : List (Text × Text)) → IsMap m → Extends m (collect m vars)
unfolding collect add_string_data_var
collect-Extends m [] h = (h, λ name v e. e)
collect-Extends m ((name, v) ∷ vars) h =
    let step = insert-Extends m name v h in
    Extends-trans m (insert name v m) (collect (insert name v m) vars) step
      (collect-Extends (insert name v m) vars step.0)

module _ (F : Floats) (single_of : Text → F.single.Num) (double_of : Text → F.double.Num) where
  -- The name of a variable and the text of its items.
  abbrev pub entry_of : Text → VarHeader → Text × Text
  entry_of bytes var = (var.name, items_from F single_of double_of precision var bytes var.count 0)

  pub read_variables-inside :
      (vars : List VarHeader) (bytes : Text)
      → All (IsInside bytes) vars
      → read_variables F single_of double_of vars bytes ≡ some (map (entry_of bytes) vars)
  unfolding read_variables add_variable ◌>>=◌
  read_variables-inside [] bytes h = refl
  read_variables-inside (var ∷ vars) bytes (h, hs) =
      rw
        (
          read_variables-inside vars bytes hs,
          get_var_data-items F single_of double_of precision var bytes h,
        )
        refl

  found-insert : (m : Dict) (name v : Text) → IsMap m → IsDefined (find name (insert name v m))
  found-insert m name v h = (
    or_else (find name m) v,
    rw (find-insert name name v m h, (text_eq_iff name name).1 refl) refl,
  )

  found-collect :
      (m : Dict) (vars : List VarHeader) (bytes name : Text)
      → IsMap m
      → has_name vars name ≡ true
      → IsDefined (find name (collect m (map (entry_of bytes) vars)))
  unfolding collect add_string_data_var
  found-collect m [] bytes name h k = absurd (ground arith)
  found-collect m (var ∷ vars) bytes name h k =
      let value = items_from F single_of double_of precision var bytes var.count 0 in
      let m' = insert var.name value m in
      let h' = insert-IsMap var.name value m h in
      elim (Bool-cases (text_eq name var.name)) [
        | inl same ↦
            let name_is = (text_eq_iff name var.name).0 same in
            let (v, found) = found-insert m var.name value h in
            (v, (collect-Extends m' (map (entry_of bytes) vars) h').1 name v (rw name_is found))
        | inr other ↦ found-collect m' vars bytes name h' (rw other at k)
      ]

  All-found :
      (vars : List VarHeader) (bytes : Text) (names : List Text)
      → All (λ name. has_name vars name ≡ true) names
      → All (λ name. IsDefined (find name (collect [] (map (entry_of bytes) vars)))) names
  All-found vars bytes [] h = tt
  All-found vars bytes (name ∷ names) (h, hs) =
      (found-collect [] vars bytes name tt h, All-found vars bytes names hs)

  -- A sound row is read, and the map has all that the loop reads from it.
  pub read_variables-IsSoundRow :
      (vars : List VarHeader) (bytes : Text)
      → IsSoundRow vars bytes
      → (vs : List (Text × Text)) × (read_variables F single_of double_of vars bytes ≡ some vs)
        × IsDelivered (collect [] vs)
  read_variables-IsSoundRow vars bytes h = (
    map (entry_of bytes) vars,
    read_variables-inside vars bytes h.inside,
    All-found vars bytes needed h.named,
  )
