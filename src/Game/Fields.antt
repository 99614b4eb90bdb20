-- ===== src/Game/Fields.antt =====
-- example/gameserver/server.cc and game_packets.h: the fields of a packet, and whether they are valid.
use sails.Prelude.{
  ℕ, zero, suc, Bool, true, ◌&&◌, ◌||◌, not, List, [], ◌∷◌, ◌++◌, leb, ◌==◌, if◌then◌else◌, length,
  take, drop,
}
use sails.Game.Room.{same_bytes}

-- The fields of a packet.
abbrev pub field : ℕ → ℕ → List ℕ → List ℕ
field start len packet = take len (drop start packet)

abbrev pub is_code_char : ℕ → Bool
is_code_char c = (leb 65 c && leb c 90) || (leb 48 c && leb c 57)

abbrev pub is_product_code : List ℕ → Bool
is_product_code [] = true
is_product_code (c ∷ cs) = is_code_char c && is_product_code cs

-- A string up to its end.
abbrev pub c_str : List ℕ → List ℕ
c_str [] = []
c_str (c ∷ cs) = if c == 0 then [] else c ∷ c_str cs

abbrev pub byte_at : ℕ → List ℕ → ℕ
byte_at k [] = 0
byte_at zero (c ∷ cs) = c
byte_at (suc k) (c ∷ cs) = byte_at k cs

abbrev pub is_mac : List ℕ → Bool
is_mac mac =
    not (same_bytes mac (255 ∷ 255 ∷ 255 ∷ 255 ∷ 255 ∷ 255 ∷ []))
    && not (same_bytes mac (0 ∷ 0 ∷ 0 ∷ 0 ∷ 0 ∷ 0 ∷ []))

-- The session is 32 bytes and an end.
abbrev pub is_session : List ℕ → Bool
is_session session =
    not (byte_at 0 session == 0) && (byte_at 32 session == 0) && (length (c_str session) == 32)

-- The tests of `login_user_data`.
unfoldable pub is_login : List ℕ → Bool
is_login packet =
    is_product_code (field 135 9 packet)
    && is_mac (field 1 6 packet)
    && not (byte_at 7 packet == 0)
    && is_session (field 144 100 packet)

abbrev pub is_name_char : ℕ → Bool
is_name_char c = (leb 65 c && leb c 90) || (leb 97 c && leb c 122) || (leb 48 c && leb c 57)

-- Up to a zero.
abbrev pub is_group_name : List ℕ → Bool
is_group_name [] = true
is_group_name (c ∷ cs) = if c == 0 then true else is_name_char c && is_group_name cs

-- The name of a room in 8 bytes.
abbrev pub padded : ℕ → List ℕ → List ℕ
padded zero name = []
padded (suc k) [] = 0 ∷ padded k []
padded (suc k) (c ∷ cs) = c ∷ padded k cs

abbrev pub get_room_name : List ℕ → List ℕ
get_room_name name = padded 8 name

-- The packet as it is sent on, with the ip of its sender.
abbrev pub from_ip : List ℕ → List ℕ → List ℕ
from_ip ip packet = take 14 packet ++ ip ++ drop 18 packet
