-- ===== src/Game/Addresses.antt =====
-- example/gameserver/server.cc: mac and ip addresses as text.
pub mod Roundtrip
mod Tests
use sails.Prelude.{
  ℕ, zero, suc, ◌+◌, ◌-◌, ◌*◌, ◌/◌, ◌%◌, ◌^◌, Bool, true, false, Option, none, some, List, [], ◌∷◌,
  ◌++◌, ltb, ◌==◌, if◌then◌else◌,
}
use sails.Net.Commands.{digits, is_digit}

-- A digit of "%02X".
abbrev pub hex_digit : ℕ → ℕ
hex_digit n = if ltb n 10 then 48 + n else 55 + n

abbrev pub hex : ℕ → List ℕ
hex n = hex_digit (n / 16) ∷ hex_digit (n % 16) ∷ []

-- Bytes with colons between them.
unfoldable pub get_mac_str : List ℕ → List ℕ
get_mac_str [] = []
get_mac_str (b ∷ []) = hex b
get_mac_str (b ∷ c ∷ bs) = let rest = get_mac_str (c ∷ bs) in hex b ++ 58 ∷ rest

-- "%u" of a byte.
abbrev pub decimal : ℕ → List ℕ
decimal n = digits 3 n

unfoldable pub get_ip_str : List ℕ → List ℕ
get_ip_str [] = []
get_ip_str (b ∷ []) = decimal b
get_ip_str (b ∷ c ∷ bs) = let rest = get_ip_str (c ∷ bs) in decimal b ++ 46 ∷ rest

-- The digits that "%3u" takes, `k` at most, and what is behind them.
unfoldable pub scan_digits : ℕ → ℕ → List ℕ → ℕ × List ℕ
scan_digits zero acc cs = (acc, cs)
scan_digits (suc k) acc [] = (acc, [])
scan_digits (suc k) acc (c ∷ cs) =
    let rest = scan_digits k (acc * 10 + (c - 48)) cs in if is_digit c then rest else (acc, c ∷ cs)

-- "%3u" of a text that starts with no sign and no space; `none` without a digit.
unfoldable pub scan_number : List ℕ → Option (ℕ × List ℕ)
unfolding scan_digits
scan_number [] = none
scan_number (c ∷ cs) = if is_digit c then some (scan_digits 3 0 (c ∷ cs)) else none

-- `k` numbers with dots between them, as bytes; `none` where `sscanf` sets fewer, as the source then
-- reads variables that are not set.
unfoldable pub scan_ip : ℕ → List ℕ → Option (List ℕ)
unfolding scan_number
scan_ip zero cs = some []
scan_ip (suc zero) cs = elim (scan_number cs) [
  | none ↦ none
  | some (n, rest) ↦ some (n % 2 ^ 8 ∷ [])
]
scan_ip (suc (suc k)) cs = elim (scan_number cs) [
  | none ↦ none
  | some (n, []) ↦ none
  | some (n, d ∷ rest) ↦
      let more = scan_ip (suc k) rest in
      if d == 46 then elim more [ none ↦ none | some bs ↦ some (n % 2 ^ 8 ∷ bs) ] else none
]

unfoldable pub get_ip : List ℕ → Option (List ℕ)
unfolding scan_ip
get_ip cs = scan_ip 4 cs
