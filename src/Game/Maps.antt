-- ===== src/Game/Maps.antt =====
-- A `std::map` with strings as keys, as the game server uses it (example/gameserver/game_world.cc,
-- server.cc): the pairs in the order of the keys.
use sails.Prelude.{
  ℕ, ◌≡◌, refl, ap, ◌∙◌, Bool, true, false, Option, none, some, List, [], ◌∷◌, arith, ltb, ◌==◌,
  if◌then◌else◌,
}
use sails.Game.Room.{same_bytes}

abbrev pub Map {ℓ} : Type ℓ → Type ℓ
Map A = List (List ℕ × A)

-- `<` of two strings
abbrev pub is_before : List ℕ → List ℕ → Bool
is_before _ [] = false
is_before [] (y ∷ ys) = true
is_before (x ∷ xs) (y ∷ ys) = if ltb x y then true else if x == y then is_before xs ys else false

unfoldable pub find {ℓ} : {A : Type ℓ} → List ℕ → Map A → Option A
find code [] = none
find code ((key, a) ∷ l) = let rest = find code l in if same_bytes key code then some a else rest

-- `insert`: what is there under the key stays.
unfoldable pub insert {ℓ} : {A : Type ℓ} → List ℕ → A → Map A → Map A
insert code new [] = (code, new) ∷ []
insert code new ((key, a) ∷ l) =
    let rest = insert code new l in
    if same_bytes key code
    then (key, a) ∷ l
    else if is_before code key
    then (code, new) ∷ (key, a) ∷ l
    else (key, a) ∷ rest

-- What is found under the key is `changed` now.
unfoldable pub set {ℓ} : {A : Type ℓ} → List ℕ → A → Map A → Map A
set code changed [] = []
set code changed ((key, a) ∷ l) =
    let rest = set code changed l in
    if same_bytes key code then (key, changed) ∷ l else (key, a) ∷ rest

pub same_bytes_refl : (xs : List ℕ) → same_bytes xs xs ≡ true
same_bytes_refl [] = refl
same_bytes_refl (x ∷ xs) = ground (arith, same_bytes_refl xs)

pub same_bytes_eq : (xs ys : List ℕ) → same_bytes xs ys ≡ true → xs ≡ ys
same_bytes_eq [] [] e = refl
same_bytes_eq [] (y ∷ ys) e = absurd (ground arith)
same_bytes_eq (x ∷ xs) [] e = absurd (ground arith)
same_bytes_eq (x ∷ xs) (y ∷ ys) e = ground (arith, same_bytes_eq xs ys)

-- A code that another is not the same as is not that code.
other-code :
    (key code other : List ℕ)
    → same_bytes code other ≡ false
    → same_bytes key code ≡ true
    → same_bytes key other ≡ false
other-code key code other d e = ap (λ k. same_bytes k other) (same_bytes_eq key code e) ∙ d

pub find-insert {ℓ} :
    {A : Type ℓ} (code : List ℕ) (r : A) (l : Map A)
    → find code l ≡ none
    → find code (insert code r l) ≡ some r
unfolding find insert
find-insert code r [] e = ground (arith, same_bytes_refl code)
find-insert code r ((key, x) ∷ l) e = ground (arith, same_bytes_refl code, find-insert code r l)

pub find-insert_other {ℓ} :
    {A : Type ℓ} (code other : List ℕ) (r : A) (l : Map A)
    → same_bytes code other ≡ false
    → find other (insert code r l) ≡ find other l
unfolding find insert
find-insert_other code other r [] d = ground (arith, d)
find-insert_other code other r ((key, x) ∷ l) d =
    ground (arith, d, find-insert_other code other r l d)

pub find-set {ℓ} :
    {A : Type ℓ} (code : List ℕ) (old r : A) (l : Map A)
    → find code l ≡ some old
    → find code (set code r l) ≡ some r
unfolding find set
find-set code old r [] e = absurd (ground arith)
find-set code old r ((key, x) ∷ l) e = ground (arith, find-set code old r l)

pub find-set_other {ℓ} :
    {A : Type ℓ} (code other : List ℕ) (r : A) (l : Map A)
    → same_bytes code other ≡ false
    → find other (set code r l) ≡ find other l
unfolding find set
find-set_other code other r [] d = refl
find-set_other code other r ((key, x) ∷ l) d =
    ground (arith, d, other-code key code other d, find-set_other code other r l d)
