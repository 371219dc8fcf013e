-- ===== src/Plugin/Session/Items.antt =====
-- The items of an array of the simulator, from the data of `irsdk_getVarData_local` to the laps that
-- `getDataFromSessionInfo` reads.
use ir_pit_crew.Prelude.{
  Bool-cases, inl, inr, ltb, ◌^◌, ℕ, zero, suc, ◌+◌, ◌*◌, ◌<◌, ◌≤◌, ◌≡◌, refl, sym, ap, ◌∙◌, false,
  Option, none, some, List, [], ◌∷◌, ◌++◌, ◌==◌, is_empty, get_elem?, length, take, drop, arith,
  All, All-append, append_assoc, append-nil, if◌then◌else◌,
}
use ir_pit_crew.Prelude.Int.{ℤ, pos, negsuc, le_ℤ}
use ir_pit_crew.Prelude.Number.{
  is_space, skip_spaces, show_int, show_nat, stream_int, clamp_int, atoi-show_int,
  show_nat-AllDigits, AllDigits, is_digit,
}
use ir_pit_crew.Prelude.Text.{Text, codes, Lacks, getlines, pieces, getlines-Lacks}
use mathlib.Core.Path.{subst}
use ir_pit_crew.Floats.{Floats}
use ir_pit_crew.Config.Attribute.Trim.{IsWord}
use ir_pit_crew.Config.Read.Kept.{IsSolid}
use ir_pit_crew.Config.Read.Written.{show_int-IsWord}
use ir_pit_crew.Plugin.VarData.{
  VarData, VarHeader, int, size_of, unsigned_of, signed_of, value, item_text, item_at, items_from,
  get_var_data, get_var_data-items,
}
use ir_pit_crew.Plugin.Session.{up_to_space, read_word, item_of, lap_of}

up_to_space-solid : (s : Text) → IsSolid s → up_to_space s ≡ s
up_to_space-solid [] h = refl
up_to_space-solid (c ∷ s) (h, hs) = rw (h, up_to_space-solid s hs) refl

skip_spaces-front : (s : Text) → IsSolid s → skip_spaces s ≡ s
unfolding skip_spaces
skip_spaces-front [] h = refl
skip_spaces-front (c ∷ s) (h, hs) = rw h refl

read_word-solid : (s : Text) → IsSolid s → read_word s ≡ s
unfolding read_word
read_word-solid s h = rw (skip_spaces-front s h) (up_to_space-solid s h)

Lacks-digits : (s : Text) → AllDigits s → Lacks b',' s
unfolding is_digit
Lacks-digits [] h = tt
Lacks-digits (c ∷ s) (h, hs) = (ground (arith, h), Lacks-digits s hs)

Lacks-show_int : (n : ℤ) → Lacks b',' (show_int n)
unfolding show_int
Lacks-show_int (pos n) = Lacks-digits (show_nat n) (show_nat-AllDigits n)
Lacks-show_int (negsuc n) = (refl, Lacks-digits (show_nat (suc n)) (show_nat-AllDigits (suc n)))

-- A last piece that is not empty.
pieces-last :
    (d : ℕ) (s cur : Text)
    → Lacks d s
    → is_empty (cur ++ s) ≡ false
    → pieces d s cur ≡ (cur ++ s) ∷ []
unfolding pieces
pieces-last d [] [] h e = absurd (cc e)
pieces-last d [] (c ∷ cur) h e = ap (λ x. (c ∷ x) ∷ []) (sym (append-nil cur))
pieces-last d (c ∷ s) cur (h, hs) e = rw h (
    pieces-last d s (cur ++ c ∷ []) hs (rw (append_assoc cur (c ∷ []) s) e)
    ∙ ap (λ x. x ∷ []) (append_assoc cur (c ∷ []) s))

getlines-last : (d : ℕ) (s : Text) → Lacks d s → is_empty s ≡ false → getlines d s ≡ s ∷ []
unfolding getlines
getlines-last d s h e = pieces-last d s [] h e

-- Texts with commas between them.
abbrev joined : List Text → Text
joined [] = []
joined (t ∷ ts) = b',' ∷ (t ++ joined ts)

-- A text that a comma can end.
record IsItem (t : Text) : Type 0 where
  lacks : Lacks b',' t
  word : IsWord t

getlines-joined :
    (t : Text) (ts : List Text) → IsItem t → All IsItem ts → getlines b',' (t ++ joined ts) ≡ t ∷ ts
getlines-joined t [] h hs =
    ap (getlines b',') (append-nil t) ∙ getlines-last b',' t h.lacks h.word.nonempty
getlines-joined t (u ∷ ts) h (k, ks) =
    getlines-Lacks b',' t (u ++ joined ts) h.lacks ∙ ap (◌∷◌ t) (getlines-joined u ts k ks)

comma : (i : ℕ) → (if suc i == 0 then [] else codes ",") ≡ b',' ∷ []
comma i = ground arith

abbrev text_of : VarData → Text
text_of (value name t) = t
text_of _ = []

-- A number of four bytes is in the range of an `int`.
clamp_int-signed_of : (s : Text) → clamp_int (signed_of s) ≡ signed_of s
unfolding clamp_int signed_of
clamp_int-signed_of s = elim (Bool-cases (ltb (unsigned_of s) (2 ^ 31))) [
  | inl low ↦ rw low (ground arith)
  | inr high ↦ rw high (ground arith)
]

stream_int-signed_of : (s : Text) → stream_int (show_int (signed_of s)) ≡ signed_of s
unfolding stream_int
stream_int-signed_of s = ap clamp_int (atoi-show_int (signed_of s)) ∙ clamp_int-signed_of s

module _ (F : Floats) (single_of : Text → F.single.Num) (double_of : Text → F.double.Num)
    (precision : ℕ) (var : VarHeader) (bytes : Text) where
  abbrev item : ℕ → Text
  item i = item_at F single_of double_of precision var bytes i

  abbrev items : ℕ → ℕ → List Text
  items zero i = []
  items (suc k) i = item i ∷ items k (suc i)

  items_from-joined :
      (k i : ℕ)
      → items_from F single_of double_of precision var bytes k (suc i) ≡ joined (items k (suc i))
  items_from-joined zero i = refl
  items_from-joined (suc k) i =
      rw (comma i) (ap (λ t. b',' ∷ (item (suc i) ++ t)) (items_from-joined k (suc i)))

  get_elem-items : (k i j : ℕ) → j < k → get_elem? (items k i) j ≡ some (item (i + j))
  get_elem-items zero i j h = absurd (omega arith)
  get_elem-items (suc k) i zero h = ap (λ n. some (item n)) (omega arith)
  get_elem-items (suc k) i (suc j) h =
      get_elem-items k (suc i) j (omega arith) ∙ ap (λ n. some (item n)) (omega arith)

  module _ (is_int : var.type ≡ int) where
    -- The number that stands at an item.
    abbrev number : ℕ → ℤ
    number i = signed_of (take 4 (drop (var.offset + i * 4) bytes))

    item-number : (i : ℕ) → item i ≡ show_int (number i)
    unfolding item_text size_of
    item-number i = rw is_int refl

    items-IsItem : (k i : ℕ) → All IsItem (items k i)
    items-IsItem zero i = tt
    items-IsItem (suc k) i = (
      subst IsItem (sym (item-number i))
          (record { lacks = Lacks-show_int (number i); word = show_int-IsWord (number i) }),
      items-IsItem k (suc i),
    )

    joined-IsSolid : (ts : List Text) → All IsItem ts → IsSolid (joined ts)
    unfolding is_space
    joined-IsSolid [] h = tt
    joined-IsSolid (t ∷ ts) (h, hs) = (
      refl,
      All-append (λ c. is_space c ≡ false) t (joined ts) h.word.solid (joined-IsSolid ts hs),
    )

    item_of-items :
        (k car : ℕ)
        → car < k
        → item_of (read_word (items_from F single_of double_of precision var bytes k 0)) (pos car)
          ≡ some (item car)
    unfolding item_of
    item_of-items zero car h = absurd (omega arith)
    item_of-items (suc k) car h =
        let all = items-IsItem (suc k) 0 in
        let whole : items_from F single_of double_of precision var bytes (suc k) 0
            ≡ item 0 ++ joined (items k 1) =
          ap (λ t. item 0 ++ t) (items_from-joined k 0) in
        let solid =
          All-append (λ c. is_space c ≡ false) (item 0) (joined (items k 1)) all.0.word.solid
            (joined-IsSolid (items k 1) all.1) in
        rw
          (
            whole,
            read_word-solid (item 0 ++ joined (items k 1)) solid,
            getlines-joined (item 0) (items k 1) all.0 all.1,
          )
          (get_elem-items (suc k) 0 car h ∙ ap (λ n. some (item n)) (omega arith))

    -- The lap that the search for the cars reads for a car is the number of four bytes that the
    -- simulator's data holds for it, unless that is below zero: what one function prints with
    -- commas the other reads back. The variable is an array of `int` that lies in the data, and
    -- the car is in it.
    pub lap_of-get_var_data :
        (car : ℕ) (text : Text)
        → var.offset + var.count * size_of var.type ≤ length bytes
        → car < var.count
        → get_var_data F single_of double_of precision (some var) (some bytes) ≡ value var.name text
        → lap_of (read_word text) (pos car)
          ≡ (if le_ℤ (pos 0) (number car) then some (number car) else none)
    unfolding lap_of
    lap_of-get_var_data car text inside h e =
        let same : text ≡ items_from F single_of double_of precision var bytes var.count 0 =
          ap text_of
            (sym e ∙ get_var_data-items F single_of double_of precision var bytes inside) in
        ap (λ t. lap_of (read_word t) (pos car)) same
        ∙ ap
            (λ (o : Option Text). elim o [
              | none ↦ none
              | some t ↦ if le_ℤ (pos 0) (stream_int t) then some (stream_int t) else none
            ])
            (item_of-items var.count car h ∙ ap some (item-number car))
        ∙ ap (λ lap. if le_ℤ (pos 0) lap then some lap else none)
            (stream_int-signed_of (take 4 (drop (var.offset + car * 4) bytes)))
