-- ===== src/Game/Room/Tests.antt =====
-- example/gameserver/game_room.cc: a room with two players that a third joins and leaves.
use sails.Prelude.{ℕ, ◌≡◌, refl, some, [], ◌∷◌}
use sails.Prelude.Int.{pos}
use sails.Game.Room.{Player, Players, GameRoom, find_player, host_loop, get_room_host_mac}
use sails.Game.Room.Host.{Host}

abbrev player : ℕ → ℕ → Player
player mac age = record {
  user_state = 1;
  player_name = [];
  room_code = [];
  game_code = 65 ∷ [];
  ip = [];
  port = 0;
  fd = pos 5;
  connector_uid = 0;
  mac = mac ∷ [];
  age = age;
  session = [];
}

abbrev players : Players
players = (1, player 11 5) ∷ (2, player 12 3) ∷ (3, player 13 0) ∷ []

abbrev room : GameRoom
room = record { room_code = 82 ∷ []; player_map = 1 ∷ 2 ∷ [] }

host_differs : get_room_host_mac room players ≡ some (12 ∷ [])
unfolding get_room_host_mac host_loop find_player
host_differs = refl
