-- ===== src/Prelude/Bits.antt =====
-- Masks and tagged words: `bit_and` and `bit_or` where one side is a run of ones or of zeros.
use Prim.Native.Nat.{
  ℕ, zero, suc, ◌+◌, ◌-◌, ◌*◌, ◌/◌, ◌%◌, ◌≤◌, ◌<◌, ◌^◌, min, max, bit_and, bit_or, digits,
  bit_and-bitwise, bit_or-bitwise, bitwise,
}
use mathlib.Core.Path.{◌≡◌, refl, sym, ◌∙◌, ap₂, ap}
use native.Mathlib.Omega.{arith}

-- 2 ^ k and 2 ^ k - 1, by recursion on k.
abbrev pub pow2 : ℕ → ℕ
pow2 zero = 1
pow2 (suc k) = 2 * pow2 k

abbrev pub ones : ℕ → ℕ
ones zero = 0
ones (suc k) = 2 * ones k + 1

pub pow2_pos : (k : ℕ) → 0 < pow2 k
pow2_pos zero = omega arith
pow2_pos (suc k) = omega (arith, pow2_pos k)

-- The recursion on digits needs no more rounds than its first number has units.
module _ (z : ℕ → ℕ) (f : ℕ → ℕ → ℕ) where
  drained : (rounds b : ℕ) → digits z f rounds 0 b ≡ z b
  drained zero b = refl
  drained (suc rounds) b = refl

  digits_enough :
      (rounds more a b : ℕ) → a ≤ rounds → digits z f (rounds + more) a b ≡ digits z f rounds a b
  digits_enough zero more zero b h = drained (zero + more) b
  digits_enough zero more (suc a) b h = absurd (omega arith)
  digits_enough (suc rounds) more zero b h =
      let e : suc rounds + more ≡ suc (rounds + more) = omega arith in ap (λ k. digits z f k 0 b) e
  digits_enough (suc rounds) more (suc a) b h =
      let e : suc rounds + more ≡ suc (rounds + more) = omega arith in
      let rest = digits_enough rounds more (suc a / 2) (b / 2) (omega arith) in
      ap (λ k. digits z f k (suc a) b) e ∙ ap (λ t. t * 2 + f (suc a % 2) (b % 2)) rest

  -- One digit of a bitwise operation on a positive number.
  bitwise_digit :
      (a b : ℕ)
      → bitwise z f (suc a) b ≡ bitwise z f (suc a / 2) (b / 2) * 2 + f (suc a % 2) (b % 2)
  bitwise_digit a b =
      let k : ℕ = suc a / 2 in
      let e : k + (a - k) ≡ a = omega arith in
      ap (λ t. t * 2 + f (suc a % 2) (b % 2))
        (ap (λ r. digits z f r k (b / 2)) (sym e) ∙ digits_enough k (a - k) k (b / 2) (omega arith))

bit_and_step : (a b : ℕ) → bit_and a b ≡ bit_and (a / 2) (b / 2) * 2 + min (a % 2) (b % 2)
bit_and_step zero b = ground (arith, bit_and-bitwise 0 b, bit_and-bitwise 0 (b / 2))
bit_and_step (suc a) b =
    bit_and-bitwise (suc a) b
    ∙ bitwise_digit (λ _. 0) min a b
    ∙ ap (λ t. t * 2 + min (suc a % 2) (b % 2)) (sym (bit_and-bitwise (suc a / 2) (b / 2)))

bit_or_step : (a b : ℕ) → bit_or a b ≡ bit_or (a / 2) (b / 2) * 2 + max (a % 2) (b % 2)
bit_or_step zero b = ground (arith, bit_or-bitwise 0 b, bit_or-bitwise 0 (b / 2))
bit_or_step (suc a) b =
    bit_or-bitwise (suc a) b
    ∙ bitwise_digit (λ t. t) max a b
    ∙ ap (λ t. t * 2 + max (suc a % 2) (b % 2)) (sym (bit_or-bitwise (suc a / 2) (b / 2)))

-- With 0 on the right, by halving the left number as often as `k` allows.
zero_right : (k a : ℕ) → a ≤ k → (bit_and a 0 ≡ 0) × (bit_or a 0 ≡ a)
zero_right k zero h = (bit_and-bitwise 0 0, bit_or-bitwise 0 0)
zero_right zero (suc a) h = absurd (omega arith)
zero_right (suc k) (suc a) h =
    let (e, f) = zero_right k (suc a / 2) (omega arith) in
    (omega (arith, bit_and_step (suc a) 0), omega (arith, bit_or_step (suc a) 0))

bit_and-zero : (a : ℕ) → bit_and a 0 ≡ 0
bit_and-zero a = (zero_right a a (omega arith)).0

bit_or-zero : (a : ℕ) → bit_or a 0 ≡ a
bit_or-zero a = (zero_right a a (omega arith)).1

bit_and_halves :
    (a b x y : ℕ) → a / 2 ≡ x → b / 2 ≡ y → bit_and a b ≡ bit_and x y * 2 + min (a % 2) (b % 2)
bit_and_halves a b x y e f =
    bit_and_step a b ∙ ap₂ (λ s t. bit_and s t * 2 + min (a % 2) (b % 2)) e f

bit_or_halves :
    (a b x y : ℕ) → a / 2 ≡ x → b / 2 ≡ y → bit_or a b ≡ bit_or x y * 2 + max (a % 2) (b % 2)
bit_or_halves a b x y e f = bit_or_step a b ∙ ap₂ (λ s t. bit_or s t * 2 + max (a % 2) (b % 2)) e f

-- A mask of k ones keeps the remainder by 2 ^ k, and a mask that ends in k zeros drops it.
pub bit_and-ones : (k q r : ℕ) → r < pow2 k → bit_and (q * pow2 k + r) (ones k) ≡ r
bit_and-ones zero q r h = omega (arith, bit_and-zero (q * 1 + r))
bit_and-ones (suc k) q r h = omega (
  arith,
  bit_and_halves (q * pow2 (suc k) + r) (ones (suc k)) (q * pow2 k + r / 2) (ones k) (omega arith)
      (omega arith),
  bit_and-ones k q (r / 2) (omega arith),
)

pub bit_and-high :
    (k q r m : ℕ) → r < pow2 k → bit_and (q * pow2 k + r) (m * pow2 k) ≡ bit_and q m * pow2 k
bit_and-high zero q r m h =
    let e : q * 1 + r ≡ q = omega arith in
    let f : m * 1 ≡ m = omega arith in
    let g : bit_and q m ≡ bit_and q m * 1 = omega arith in ap₂ bit_and e f ∙ g
bit_and-high (suc k) q r m h = omega (
  arith,
  bit_and_halves (q * pow2 (suc k) + r) (m * pow2 (suc k)) (q * pow2 k + r / 2) (m * pow2 k)
      (omega arith) (omega arith),
  bit_and-high k q (r / 2) m (omega arith),
)

-- Below the zeros of a tag, `or` is a sum.
pub bit_or-tag : (k q r : ℕ) → r < pow2 k → bit_or (q * pow2 k) r ≡ q * pow2 k + r
bit_or-tag zero q r h =
    let e : q * 1 ≡ q = omega arith in
    let f : r ≡ 0 = omega arith in ap₂ bit_or e f ∙ omega (arith, bit_or-zero q)
bit_or-tag (suc k) q r h = omega (
  arith,
  bit_or_halves (q * pow2 (suc k)) r (q * pow2 k) (r / 2) (omega arith) refl,
  bit_or-tag k q (r / 2) (omega arith),
)

pub bit_and-ones_lt : (k r : ℕ) → r < pow2 k → bit_and r (ones k) ≡ r
bit_and-ones_lt k r h =
    let e : r ≡ 0 * pow2 k + r = omega arith in
    ap (λ v. bit_and v (ones k)) e ∙ bit_and-ones k 0 r h

-- The words that tag a 24 bit number and a 20 bit number.
pub low24 : (u : ℕ) → bit_and u 0xFFFFFF ≡ u % 2 ^ 24
low24 u =
    let e : u ≡ u / 2 ^ 24 * pow2 24 + u % 2 ^ 24 = omega arith in
    ap (λ v. bit_and v 0xFFFFFF) e ∙ bit_and-ones 24 (u / 2 ^ 24) (u % 2 ^ 24) (omega arith)

pub low20 : (u : ℕ) → bit_and u 0xFFFFF ≡ u % 2 ^ 20
low20 u =
    let e : u ≡ u / 2 ^ 20 * pow2 20 + u % 2 ^ 20 = omega arith in
    ap (λ v. bit_and v 0xFFFFF) e ∙ bit_and-ones 20 (u / 2 ^ 20) (u % 2 ^ 20) (omega arith)

pub tag24 : (t i : ℕ) → i < 2 ^ 24 → bit_or (t * 2 ^ 24) i ≡ t * 2 ^ 24 + i
tag24 t i h = bit_or-tag 24 t i h

pub tag20 : (t i : ℕ) → i < 2 ^ 20 → bit_or (t * 2 ^ 20) i ≡ t * 2 ^ 20 + i
tag20 t i h = bit_or-tag 20 t i h

pub high24 : (u : ℕ) → u < 2 ^ 32 → bit_and u 0xFF000000 ≡ u / 2 ^ 24 * 2 ^ 24
high24 u h =
    let e : u ≡ u / 2 ^ 24 * pow2 24 + u % 2 ^ 24 = omega arith in
    let m : bit_and (u / 2 ^ 24) (ones 8) ≡ u / 2 ^ 24 =
      bit_and-ones_lt 8 (u / 2 ^ 24) (omega arith) in
    ap (λ v. bit_and v 0xFF000000) e
    ∙ bit_and-high 24 (u / 2 ^ 24) (u % 2 ^ 24) 255 (omega arith)
    ∙ ap (λ v. v * 2 ^ 24) m

pub high20 : (u : ℕ) → u < 2 ^ 32 → bit_and u 0xFFF00000 ≡ u / 2 ^ 20 * 2 ^ 20
high20 u h =
    let e : u ≡ u / 2 ^ 20 * pow2 20 + u % 2 ^ 20 = omega arith in
    let m : bit_and (u / 2 ^ 20) (ones 12) ≡ u / 2 ^ 20 =
      bit_and-ones_lt 12 (u / 2 ^ 20) (omega arith) in
    ap (λ v. bit_and v 0xFFF00000) e
    ∙ bit_and-high 20 (u / 2 ^ 20) (u % 2 ^ 20) 4095 (omega arith)
    ∙ ap (λ v. v * 2 ^ 20) m

-- A flag that is set already is set once more.
or_absorb_upto : (n x e : ℕ) → x ≤ n → e ≤ n → bit_or (bit_or x e) e ≡ bit_or x e
or_absorb_upto zero zero zero h k = refl
or_absorb_upto zero (suc x) e h k = absurd (omega arith)
or_absorb_upto zero zero (suc e) h k = absurd (omega arith)
or_absorb_upto (suc n) x e h k =
    let s = bit_or_step x e in
    let half : bit_or x e / 2 ≡ bit_or (x / 2) (e / 2) = omega (arith, s) in
    let last : bit_or x e % 2 ≡ max (x % 2) (e % 2) = omega (arith, s) in
    let ih = or_absorb_upto n (x / 2) (e / 2) (omega arith) (omega arith) in
    bit_or_step (bit_or x e) e ∙ (rw (half, last, ih) (omega (arith, s)))

pub bit_or-absorb : (x e : ℕ) → bit_or (bit_or x e) e ≡ bit_or x e
bit_or-absorb x e = or_absorb_upto (x + e) x e (omega arith) (omega arith)

pub zero-bit_or : (x : ℕ) → bit_or 0 x ≡ x
zero-bit_or x = bit_or-bitwise 0 x
