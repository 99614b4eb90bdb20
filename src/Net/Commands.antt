-- ===== src/Net/Commands.antt =====
-- net/net_thread.h: the commands that other threads queue for a net thread, and the texts in them.
use sails.Prelude.{
  ℕ, zero, suc, ◌+◌, ◌-◌, ◌*◌, ◌/◌, ◌%◌, ◌^◌, Bool, true, false, ◌&&◌, Option, none, some, List, [],
  ◌∷◌, ◌++◌, ltb, leb, ◌==◌, if◌then◌else◌, take,
}
pub mod Texts

-- `TagSendData`; the command is a character.
pub record TagSendData : Type 0 where
  pub cmd : ℕ
  pub uid : ℕ
  pub buffer : List ℕ
  pub ip : List ℕ
  pub port : ℕ

-- the characters s, c and m
abbrev pub cmd_send : ℕ
cmd_send = 115

abbrev pub cmd_close : ℕ
cmd_close = 99

abbrev pub cmd_set : ℕ
cmd_set = 109

-- `==` of two strings
abbrev pub same_text : List ℕ → List ℕ → Bool
same_text [] [] = true
same_text (x ∷ xs) (y ∷ ys) = (x == y) && same_text xs ys
same_text _ _ = false

-- What "%d" prints of a number with at most `k` digits.
unfoldable pub digits : ℕ → ℕ → List ℕ
digits zero n = []
digits (suc k) n =
    let rest = digits k (n / 10) in if ltb n 10 then (48 + n) ∷ [] else rest ++ (48 + n % 10) ∷ []

-- `snprintf` of an `int` that is not negative into 10 characters.
pub print_reason : ℕ → List ℕ
unfolding digits
print_reason reason = take 9 (digits 10 reason)

abbrev pub is_digit : ℕ → Bool
is_digit c = leb 48 c && leb c 57

-- The number behind `acc` in at most `k` characters.
pub scan : ℕ → ℕ → List ℕ → ℕ
scan zero acc cs = acc
scan (suc k) acc [] = acc
scan (suc k) acc (c ∷ cs) =
    let rest = scan k (acc * 10 + (c - 48)) cs in if is_digit c then rest else acc

-- `sscanf` with "%10d" of a text that starts with no sign and no space; 0 without a digit.
pub scan_reason : List ℕ → ℕ
unfolding scan
scan_reason cs = scan 10 0 cs

-- The 8 bytes of `ExtData`.
pub ext_bytes : ℕ → List ℕ
ext_bytes x =
    (x % 2 ^ 8)
    ∷ (x / 2 ^ 8 % 2 ^ 8)
    ∷ (x / 2 ^ 16 % 2 ^ 8)
    ∷ (x / 2 ^ 24 % 2 ^ 8)
    ∷ (x / 2 ^ 32 % 2 ^ 8)
    ∷ (x / 2 ^ 40 % 2 ^ 8)
    ∷ (x / 2 ^ 48 % 2 ^ 8)
    ∷ (x / 2 ^ 56 % 2 ^ 8)
    ∷ []

-- The `memcpy` of 8 bytes back, a fault where there are fewer.
pub ext_of : List ℕ → Option ℕ
ext_of (a ∷ b ∷ c ∷ d ∷ e ∷ f ∷ g ∷ h ∷ _) =
    some
      (a + b * 2 ^ 8 + c * 2 ^ 16 + d * 2 ^ 24 + e * 2 ^ 32 + f * 2 ^ 40 + g * 2 ^ 48 + h * 2 ^ 56)
ext_of _ = none
