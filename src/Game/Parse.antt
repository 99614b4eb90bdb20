-- ===== src/Game/Parse.antt =====
-- example/gameserver/server.cc and game_packets.h: the packets in the bytes of a connection.
--
-- The structs are packed, so a packet is its bytes. `peek` reads the unread bytes; where it is
-- called there is one at least.
pub mod Frames
mod Tests
use sails.Prelude.{
  ℕ, zero, suc, ◌+◌, ◌*◌, ◌^◌, ◌%◌, Bool, true, false, ◌&&◌, Option, none, some, List, [], ◌∷◌, ltb,
  leb, ◌==◌, if◌then◌else◌, length, take, drop,
}
use sails.Prelude.Words.{u32}
use sails.Prelude.Ints.{is_positive_int}
use sails.Base.Buffer.{readable, unread}
use sails.Net.Connector.{Connector, retrieve}

abbrev pub opcode_ping : ℕ
opcode_ping = 0

abbrev pub opcode_login : ℕ
opcode_login = 111

abbrev pub opcode_connect : ℕ
opcode_connect = 2

abbrev pub opcode_disconnect : ℕ
opcode_disconnect = 3

abbrev pub opcode_scan : ℕ
opcode_scan = 4

abbrev pub opcode_chat : ℕ
opcode_chat = 7

abbrev pub opcode_game_data : ℕ
opcode_game_data = 100

abbrev pub packet_max : ℕ
packet_max = 111

abbrev pub user_state_waiting : ℕ
user_state_waiting = 0

-- The sizes of the packets: the opcode, mac, name, game and session; the opcode and the group; the
-- opcode and the message; and the head of a game packet with its first byte.
abbrev pub login_size : ℕ
login_size = 1 + 6 + 128 + 9 + 100

abbrev pub connect_size : ℕ
connect_size = 1 + 8

abbrev pub chat_size : ℕ
chat_size = 1 + 64

abbrev pub game_data_size : ℕ
game_data_size = 1 + 1 + 6 + 6 + 4 + 2 + 2 + 4 + 1

-- The `int` behind the ports, as its pattern.
abbrev pub int_of : List ℕ → ℕ
int_of (a ∷ b ∷ c ∷ d ∷ _) = a + b * 2 ^ 8 + c * 2 ^ 16 + d * 2 ^ 24
int_of _ = 0

abbrev pub len_of : List ℕ → ℕ
len_of bs = int_of (drop 22 bs)

-- What `Parse` makes of the bytes: a packet of a size, bytes to be dropped, nothing as yet, or an
-- invalid opcode.
pub data Verdict : Type 0 where
  takes : ℕ → Verdict
  drops : ℕ → Verdict
  waits : Verdict
  invalid : Verdict

-- `read_able`, a `uint32_t`.
abbrev pub read_able : List ℕ → ℕ
read_able bs = u32 (length bs)

-- A packet of a size, once it is there.
abbrev pub sized : ℕ → List ℕ → Verdict
sized n bs = if leb n (read_able bs) then takes n else waits

-- A game packet; a negative length is a pattern above all that are allowed.
abbrev pub game_data : List ℕ → Verdict
game_data bs =
    if leb game_data_size (read_able bs)
    then if ltb 0 (len_of bs) && ltb (len_of bs) 4000
      then sized (26 + len_of bs) bs
      else drops (read_able bs)
    else waits

-- By the opcode, and for a login by the state of the player.
pub verdict : ℕ → List ℕ → Verdict
verdict state [] = waits
verdict state (op ∷ rest) =
    let bs : List ℕ = op ∷ rest in
    if ltb packet_max op
    then invalid
    else if op == opcode_ping
    then takes 1
    else if op == opcode_login
    then if state == user_state_waiting then sized login_size bs else waits
    else if op == opcode_connect
    then sized connect_size bs
    else if op == opcode_disconnect
    then takes 1
    else if op == opcode_scan
    then takes 1
    else if op == opcode_chat
    then sized chat_size bs
    else if op == opcode_game_data
    then game_data bs
    else invalid

-- What is done with the connection: the packet, the connection, and whether the player is killed
-- off. The bytes to be dropped are counted by an `int`, and none are where it is not positive.
pub apply : Connector → Verdict → Option (List ℕ) × Connector × Bool
apply c (takes n) = (some (take n (unread c.in_buf)), retrieve c n, false)
apply c (drops n) = (none, if is_positive_int n then retrieve c (n % 2 ^ 32) else c, false)
apply c waits = (none, c, false)
apply c invalid = (none, retrieve c (readable c.in_buf), true)

-- `Parse`; the state is that of the player with the id in the connection's data.
pub parse : (ℕ → ℕ) → Connector → Option (List ℕ) × Connector × Bool
unfolding verdict apply
parse get_player_state c = apply c (verdict (get_player_state (u32 c.ext_data)) (unread c.in_buf))
