-- ===== src/Game/Addresses/Roundtrip.antt =====
-- example/gameserver/server.cc: the text of an ip address is read back.
use mathlib.Core.List.{append-nil}
use sails.Prelude.{
  ℕ, suc, ◌+◌, ◌*◌, ◌/◌, ◌%◌, ◌^◌, ◌<◌, ◌≡◌, ◌⊎◌, inl, inr, refl, sym, ap, ◌∙◌, Bool, true, not,
  some, List, [], ◌∷◌, ◌++◌, arith,
}
use sails.Net.Commands.{digits, is_digit}
use sails.Game.Addresses.{decimal, get_ip_str, get_ip, scan_digits, scan_number, scan_ip}

-- A text that starts with no digit.
abbrev stops : List ℕ → Bool
stops [] = true
stops (c ∷ cs) = not (is_digit c)

one_digit :
    (a : ℕ) (rest : List ℕ)
    → a < 10
    → stops rest ≡ true
    → scan_number ((48 + a) ∷ rest) ≡ some (a, rest)
unfolding scan_number scan_digits
one_digit a [] h e = ground arith
one_digit a (c ∷ cs) h e = ground arith

two_digits :
    (a b : ℕ) (rest : List ℕ)
    → a < 10
    → b < 10
    → stops rest ≡ true
    → scan_number ((48 + a) ∷ (48 + b) ∷ rest) ≡ some (a * 10 + b, rest)
unfolding scan_number scan_digits
two_digits a b [] h k e = ground arith
two_digits a b (c ∷ cs) h k e = ground arith

three_digits :
    (a b c : ℕ) (rest : List ℕ)
    → a < 10
    → b < 10
    → c < 10
    → scan_number ((48 + a) ∷ (48 + b) ∷ (48 + c) ∷ rest) ≡ some ((a * 10 + b) * 10 + c, rest)
unfolding scan_number scan_digits
three_digits a b c rest h k l = ground arith

decimal-cases :
    (n : ℕ)
    → n < 256
    → (decimal n ≡ (48 + n) ∷ []) × (n < 10)
      ⊎ (decimal n ≡ (48 + n / 10) ∷ (48 + n % 10) ∷ []) × (n < 100)
      ⊎ (decimal n ≡ (48 + n / 10 / 10) ∷ (48 + n / 10 % 10) ∷ (48 + n % 10) ∷ [])
unfolding digits
decimal-cases n h = ground arith

scan_number-decimal :
    (n : ℕ) (rest : List ℕ)
    → n < 256
    → stops rest ≡ true
    → scan_number (decimal n ++ rest) ≡ some (n, rest)
scan_number-decimal n rest h e = elim (decimal-cases n h) [
  | inl (q, k) ↦ ap (λ cs. scan_number (cs ++ rest)) q ∙ one_digit n rest k e
  | inr (inl (q, k)) ↦
      ap (λ cs. scan_number (cs ++ rest)) q
      ∙ two_digits (n / 10) (n % 10) rest (omega arith) (omega arith) e
      ∙ ap (λ m. some (m, rest)) (omega arith)
  | inr (inr q) ↦
      ap (λ cs. scan_number (cs ++ rest)) q
      ∙ three_digits (n / 10 / 10) (n / 10 % 10) (n % 10) rest (omega arith) (omega arith)
          (omega arith)
      ∙ ap (λ m. some (m, rest)) (omega arith)
]

-- One number of an address, with a dot and the others behind it.
scan_ip-decimal :
    (k n : ℕ) (rest : List ℕ) (bs : List ℕ)
    → n < 256
    → scan_ip (suc k) rest ≡ some bs
    → scan_ip (suc (suc k)) (decimal n ++ 46 ∷ rest) ≡ some (n ∷ bs)
unfolding scan_ip
scan_ip-decimal k n rest bs h e =
    let m : n % 2 ^ 8 ≡ n = omega arith in
    rw (scan_number-decimal n (46 ∷ rest) h refl, e, scan_ip, m) refl

scan_ip-last : (n : ℕ) → n < 256 → scan_ip 1 (decimal n) ≡ some (n ∷ [])
unfolding scan_ip
scan_ip-last n h =
    let m : n % 2 ^ 8 ≡ n = omega arith in
    let q : scan_number (decimal n) ≡ some (n, []) =
      ap scan_number (sym (append-nil (decimal n))) ∙ scan_number-decimal n [] h refl in
    rw (q, scan_ip, m) refl

-- The text of an address of four bytes below 256 is read back as these bytes.
pub get_ip-get_ip_str :
    (a b c d : ℕ)
    → a < 256
    → b < 256
    → c < 256
    → d < 256
    → get_ip (get_ip_str (a ∷ b ∷ c ∷ d ∷ [])) ≡ some (a ∷ b ∷ c ∷ d ∷ [])
unfolding get_ip get_ip_str
get_ip-get_ip_str a b c d ha hb hc hd =
    scan_ip-decimal 2 a (get_ip_str (b ∷ c ∷ d ∷ [])) (b ∷ c ∷ d ∷ []) ha (
      scan_ip-decimal 1 b (get_ip_str (c ∷ d ∷ [])) (c ∷ d ∷ []) hb
        (scan_ip-decimal 0 c (get_ip_str (d ∷ [])) (d ∷ []) hc (scan_ip-last d hd)))
