-- ===== src/Dict/Laws.antt =====
-- Insertion, the order of the keys, and looking a key up.
use ir_pit_crew.Prelude.{
  ◌≡◌, refl, true, Option, none, some, [], ◌∷◌, inl, inr, arith, Bool-cases, if◌then◌else◌,
}
use ir_pit_crew.Prelude.Text.{Text, text_eq, text_eq_iff, text_lt}
use ir_pit_crew.Dict.Order.{text_lt_trans, text_lt_total, text_eq_refl, text_eq-false_of_lt}
use ir_pit_crew.Dict.{Dict, find, insert, Above, IsMap}

pub Above-trans : (k j : Text) (m : Dict) → text_lt k j ≡ true → Above j m → Above k m
Above-trans k j [] h a = tt
Above-trans k j ((i, v) ∷ m) h (a, as') = (text_lt_trans k j i h a, Above-trans k j m h as')

Above-insert : (j k v : Text) (m : Dict) → text_lt j k ≡ true → Above j m → Above j (insert k v m)
unfolding insert
Above-insert j k v [] h a = (h, tt)
Above-insert j k v ((i, w) ∷ m) h (a, as') = ground (arith, Above-insert j k v m h as')

-- Insertion keeps the keys in strictly rising order.
pub insert-IsMap : (k v : Text) (m : Dict) → IsMap m → IsMap (insert k v m)
unfolding insert
insert-IsMap k v [] h = (tt, tt)
insert-IsMap k v ((j, w) ∷ m) (a, s) =
    ground (arith, Above-trans k j m, Above-insert j k v m, text_lt_total k j, insert-IsMap k v m s)

pub find-Above : (k : Text) (m : Dict) → Above k m → find k m ≡ none
unfolding find
find-Above k [] a = refl
find-Above k ((j, v) ∷ m) (a, as') = rw (text_eq-false_of_lt k j a) (find-Above k m as')

-- What is found after an insertion: the old value where there was one, also for the key inserted.
abbrev pub or_else : Option Text → Text → Text
or_else none v = v
or_else (some w) v = w

pub find-insert :
    (j k v : Text) (m : Dict)
    → IsMap m
    → find j (insert k v m) ≡ (if text_eq j k then some (or_else (find k m) v) else find j m)
unfolding insert find
find-insert j k v [] h = ground arith
find-insert j k v ((i, w) ∷ m) (a, s) = elim (Bool-cases (text_lt k i)) [
  | inl lt ↦
      rw (lt, text_eq-false_of_lt k i lt, find-Above k m (Above-trans k i m lt a)) (ground arith)
  | inr ge ↦ ground (
    arith,
    find-insert j k v m s,
    text_eq_iff j i,
    text_eq_iff j k,
    text_eq_iff k i,
    find-Above i m a,
    text_eq_refl i,
  )
]
