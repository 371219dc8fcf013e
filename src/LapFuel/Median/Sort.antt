-- ===== src/LapFuel/Median/Sort.antt =====
-- Sorting of values none of which is NaN.
use ir_pit_crew.Prelude.{
  ℕ, zero, suc, ◌+◌, ◌≤◌, ◌<◌, ◌≡◌, refl, Bool, true, List, [], ◌∷◌, length, get_or, All, All-map,
  arith, if◌then◌else◌, Bool-cases, inl, inr,
}
use ir_pit_crew.Floats.{Arith, IsNumber, IsOrdered}
use ir_pit_crew.LapFuel.Median.{insert_sorted, sort}

-- How many elements pass a test.
abbrev pub count {ℓ} : {A : Type ℓ} → (A → Bool) → List A → ℕ
count p [] = 0
count p (x ∷ xs) = (if p x then 1 else 0) + count p xs

pub count-le {ℓ} :
    {A : Type ℓ} (p q : A → Bool) (xs : List A)
    → ((x : A) → p x ≡ true → q x ≡ true)
    → count p xs ≤ count q xs
count-le p q [] h = omega arith
count-le p q (x ∷ xs) h = ground (arith, h x, count-le p q xs h)

pub count-All {ℓ} :
    {A : Type ℓ} (p : A → Bool) (xs : List A) → All (λ x. p x ≡ true) xs → count p xs ≡ length xs
count-All p [] h = refl
count-All p (x ∷ xs) (h, hs) = ground (arith, count-All p xs hs)

pub All-get_or {ℓ κ} :
    {A : Type ℓ} (P : A → Type κ) (xs : List A) (i : ℕ) (d : A)
    → i < length xs
    → All P xs
    → P (get_or xs i d)
All-get_or P [] i d h a = absurd (omega arith)
All-get_or P (x ∷ xs) zero d h (a, as') = a
All-get_or P (x ∷ xs) (suc i) d h (a, as') = All-get_or P xs i d (omega arith) as'

module _ (A : Arith) where
  open A use {Num}

  abbrev pub IsSorted : List Num → Type 0
  IsSorted [] = Unit
  IsSorted (x ∷ xs) = All (λ y. A.le x y ≡ true) xs × IsSorted xs

  count-insert_sorted :
      (p : Num → Bool) (x : Num) (ys : List Num)
      → count p (insert_sorted A x ys) ≡ (if p x then 1 else 0) + count p ys
  unfolding insert_sorted
  count-insert_sorted p x [] = refl
  count-insert_sorted p x (y ∷ ys) = ground (arith, count-insert_sorted p x ys)

  pub count-sort : (p : Num → Bool) (xs : List Num) → count p (sort A xs) ≡ count p xs
  unfolding sort
  count-sort p [] = refl
  count-sort p (x ∷ xs) = omega (arith, count-insert_sorted p x (sort A xs), count-sort p xs)

  length-insert_sorted : (x : Num) (ys : List Num) → length (insert_sorted A x ys) ≡ suc (length ys)
  unfolding insert_sorted
  length-insert_sorted x [] = refl
  length-insert_sorted x (y ∷ ys) = ground (arith, length-insert_sorted x ys)

  pub length-sort : (xs : List Num) → length (sort A xs) ≡ length xs
  unfolding sort
  length-sort [] = refl
  length-sort (x ∷ xs) = omega (arith, length-insert_sorted x (sort A xs), length-sort xs)

  All-insert_sorted {κ} :
      (P : Num → Type κ) (x : Num) (ys : List Num) → P x → All P ys → All P (insert_sorted A x ys)
  unfolding insert_sorted
  All-insert_sorted P x [] h hs = (h, tt)
  All-insert_sorted P x (y ∷ ys) h (k, hs) = elim (Bool-cases (A.lt y x)) [
    | inl e ↦ rw e (k, All-insert_sorted P x ys h hs)
    | inr e ↦ rw e (h, (k, hs))
  ]

  pub All-sort {κ} : (P : Num → Type κ) (xs : List Num) → All P xs → All P (sort A xs)
  unfolding sort
  All-sort P [] h = tt
  All-sort P (x ∷ xs) (h, hs) = All-insert_sorted P x (sort A xs) h (All-sort P xs hs)

  module _ (ordered : IsOrdered A) where
    insert_sorted-IsSorted :
        (x : Num) (ys : List Num)
        → IsNumber A x
        → All (IsNumber A) ys
        → IsSorted ys
        → IsSorted (insert_sorted A x ys)
    unfolding insert_sorted
    insert_sorted-IsSorted x [] n ns s = (tt, tt)
    insert_sorted-IsSorted x (y ∷ ys) n (ny, ns) (above, s) =
        let flip = ordered.lt-eq-not-le y x ny n in
        elim (Bool-cases (A.lt y x)) [
          | inl e ↦
              let le : A.le y x ≡ true = elim (ordered.le_total y x ny n) [
                | inl h ↦ h
                | inr h ↦ ground arith
              ] in
              rw e (
                All-insert_sorted (λ z. A.le y z ≡ true) x ys le above,
                insert_sorted-IsSorted x ys n ns s,
              )
          | inr e ↦
              let le : A.le x y ≡ true = ground arith in
              rw e (
                (
                  le,
                  All-map (λ z. A.le y z ≡ true) (λ z. A.le x z ≡ true) ys
                      (λ z h. ordered.le_trans x y z le h) above,
                ),
                (above, s),
              )
        ]

    -- The result of the sort is in order.
    pub sort-IsSorted : (xs : List Num) → All (IsNumber A) xs → IsSorted (sort A xs)
    unfolding sort
    sort-IsSorted [] n = tt
    sort-IsSorted (x ∷ xs) (n, ns) =
        insert_sorted-IsSorted x (sort A xs) n (All-sort (IsNumber A) xs ns) (sort-IsSorted xs ns)
