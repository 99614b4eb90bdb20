-- ===== src/Game/Addresses/Tests.antt =====
-- example/gameserver/server.cc: addresses as text, and the theorem at one.
use sails.Prelude.{◌≡◌, refl, none, some, [], ◌∷◌, arith}
use sails.Net.Commands.{digits}
use sails.Game.Addresses.{get_mac_str, get_ip_str, get_ip, scan_ip, scan_number, scan_digits}
use sails.Game.Addresses.Roundtrip.{get_ip-get_ip_str}

-- "0A:FF"
mac_text : get_mac_str (10 ∷ 255 ∷ []) ≡ 48 ∷ 65 ∷ 58 ∷ 70 ∷ 70 ∷ []
unfolding get_mac_str
mac_text = refl

-- "10.0"
ip_text : get_ip_str (10 ∷ 0 ∷ []) ≡ 49 ∷ 48 ∷ 46 ∷ 48 ∷ []
unfolding get_ip_str digits
ip_text = refl

-- An address with one number too few.
ip_short : get_ip (49 ∷ 46 ∷ 50 ∷ 46 ∷ 51 ∷ []) ≡ none
unfolding get_ip scan_ip scan_number scan_digits
ip_short = refl

get_ip-get_ip_str_example : get_ip (get_ip_str (127 ∷ 0 ∷ 0 ∷ 1 ∷ [])) ≡ some (127 ∷ 0 ∷ 0 ∷ 1 ∷ [])
get_ip-get_ip_str_example =
    get_ip-get_ip_str 127 0 0 1 (omega arith) (omega arith) (omega arith) (omega arith)
