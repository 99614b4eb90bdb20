-- ===== src/Prelude/Ints.antt =====
-- A `size_t` that is converted to a signed 32-bit `int`.
use Prim.Native.Nat.{ℕ, ◌%◌, ◌^◌, ◌<◌, ◌≤◌}
use mathlib.Core.Path.{◌≡◌, refl}
use mathlib.Core.Bool.{Bool, true, ◌&&◌}
use mathlib.Core.List.{List, [], ◌∷◌}
use native.Mathlib.Omega.{arith}
use sails.Prelude.Tests.{ltb, if◌then◌else◌}
use sails.Prelude.Lists.{length, take, take_all, length-take}

abbrev pub is_positive_int : ℕ → Bool
is_positive_int n = ltb 0 (n % 2 ^ 32) && ltb (n % 2 ^ 32) (2 ^ 31)

-- The elements of a list whose length is so converted, none where it comes out negative.
abbrev pub int_prefix {ℓ} : {A : Type ℓ} → List A → List A
int_prefix xs = if is_positive_int (length xs) then take (length xs % 2 ^ 32) xs else []

pub int_prefix-length {ℓ} : {A : Type ℓ} (xs : List A) → length (int_prefix xs) ≤ length xs
int_prefix-length xs = ground (arith, length-take (length xs % 2 ^ 32) xs)

-- A list of fewer than 2 ^ 31 keeps them all.
pub int_prefix-all {ℓ} : {A : Type ℓ} (xs : List A) → length xs < 2 ^ 31 → int_prefix xs ≡ xs
int_prefix-all [] h = refl
int_prefix-all (x ∷ xs) h =
    let p : is_positive_int (length (x ∷ xs)) ≡ true = ground arith in
    rw (p) (take_all (length (x ∷ xs) % 2 ^ 32) (x ∷ xs) (omega arith))
