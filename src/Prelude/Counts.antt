-- ===== src/Prelude/Counts.antt =====
-- How often a number stands in a list, and runs of consecutive numbers.
use Prim.Native.Nat.{ℕ, zero, suc, ◌+◌, ◌<◌}
use mathlib.Core.Path.{◌≡◌, refl}
use mathlib.Core.List.{List, [], ◌∷◌, ◌++◌}
use native.Mathlib.Omega.{arith}
use sails.Prelude.Tests.{ltb, leb, ◌==◌, if◌then◌else◌}
use sails.Prelude.Lists.{length}

unfoldable pub count : ℕ → List ℕ → ℕ
count a [] = 0
count a (x ∷ xs) = (if x == a then 1 else 0) + count a xs

-- n, n + 1, … : k numbers.
unfoldable pub range_from : ℕ → ℕ → List ℕ
range_from n zero = []
range_from n (suc k) = n ∷ range_from (n + 1) k

pub count-append : (a : ℕ) (xs ys : List ℕ) → count a (xs ++ ys) ≡ count a xs + count a ys
unfolding count
count-append a [] ys = omega arith
count-append a (x ∷ xs) ys = omega (arith, count-append a xs ys)

pub count-cons_self : (a : ℕ) (xs : List ℕ) → count a (a ∷ xs) ≡ 1 + count a xs
unfolding count
count-cons_self a xs = ground arith

pub count-snoc :
    (a b : ℕ) (xs : List ℕ) → count a (xs ++ b ∷ []) ≡ count a xs + (if b == a then 1 else 0)
unfolding count
count-snoc a b [] = ground arith
count-snoc a b (x ∷ xs) = omega (arith, count-snoc a b xs)

pub length-range_from : (n k : ℕ) → length (range_from n k) ≡ k
unfolding range_from
length-range_from n zero = refl
length-range_from n (suc k) = omega (arith, length-range_from (n + 1) k)

-- A run holds each number of its range once.
pub count-range_from :
    (a n k : ℕ)
    → count a (range_from n k) ≡ (if leb n a then (if ltb a (n + k) then 1 else 0) else 0)
unfolding count range_from
count-range_from a n zero = ground arith
count-range_from a n (suc k) = ground (arith, count-range_from a (n + 1) k)

-- The list less the first `a`.
unfoldable pub erase : ℕ → List ℕ → List ℕ
erase a [] = []
erase a (x ∷ xs) = if x == a then xs else x ∷ erase a xs

pub count-erase :
    (a b : ℕ) (xs : List ℕ)
    → 0 < count a xs
    → count b (erase a xs) + (if a == b then 1 else 0) ≡ count b xs
unfolding count erase
count-erase a b [] h = absurd (omega arith)
count-erase a b (x ∷ xs) h = ground (arith, count-erase a b xs)

pub length-erase : (a : ℕ) (xs : List ℕ) → 0 < count a xs → length (erase a xs) + 1 ≡ length xs
unfolding count erase
length-erase a [] h = absurd (omega arith)
length-erase a (x ∷ xs) h = ground (arith, length-erase a xs)
