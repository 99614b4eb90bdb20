-- ===== src/Game/World/Tests.antt =====
-- example/gameserver/game_world.cc: a world with two rooms, and the theorems at it.
use sails.Prelude.{ℕ, zero, suc, ◌≡◌, refl, true, some, List, [], ◌∷◌, arith}
use sails.Prelude.Int.{pos}
use sails.Game.Maps
use sails.Game.Room
use sails.Game.Room.{
  Player, Players, GameRoom, Sent, state_success, recipients, find_player, has_id, message,
}
use sails.Game.Room.Members.{Live}
use sails.Game.Room.Rounds.{Joined}
use sails.Game.World.{
  GameWorld, new_world, get_game_room, create_game_room, with_room, connect_player,
  dis_connect_player, get_room_list, get_room_host_mac, spread_loop, spread_message,
  transfer_message, sessions_of, get_sessions, names_of, get_player_name_map,
}
use sails.Game.World.Rooms.{Kept, room_for, connect_player-Kept, dis_connect_player-connect_player}

abbrev player : ℕ → Player
player mac = record {
  user_state = 1;
  player_name = [];
  room_code = [];
  game_code = 65 ∷ [];
  ip = [];
  port = 0;
  fd = pos 5;
  connector_uid = 0;
  mac = mac ∷ [];
  age = 1;
  session = [];
}

abbrev players : Players
players = (1, player 11) ∷ (2, player 12) ∷ []

abbrev room : GameRoom
room = record { room_code = 82 ∷ []; player_map = 1 ∷ [] }

-- A room with the code R that has a player.
abbrev world : GameWorld
world = record { game_code = 65 ∷ []; room_num = 1; room_map = (82 ∷ [], room) ∷ [] }

room-Live : Live players (room_for world (82 ∷ [])).player_map
unfolding has_id find_player with_room get_game_room Maps.find
room-Live zero h = absurd (ground arith)
room-Live (suc zero) h = (player 11, refl)
room-Live (suc (suc i)) h = absurd (ground arith)

connect_player-Kept_example :
    (sent : List Sent) × (u : GameWorld) × (left : Players) × (changed : GameRoom) × (connect_player
        world players 2
        (82 ∷ [])
      ≡ some (true, sent, u, left))
    × Kept world u (82 ∷ []) changed
    × Joined (room_for world (82 ∷ [])) players 2 (player 12) changed left
unfolding find_player with_room get_game_room Maps.find
connect_player-Kept_example =
    connect_player-Kept world players 2 (82 ∷ []) (player 12) refl room-Live refl

dis_connect_player-connect_player_example :
    (sent : List Sent) × (u : GameWorld) × (joined : Players) × (connect_player world players 2
        (82 ∷ [])
      ≡ some (true, sent, u, joined))
    × (told : List Sent) × (v : GameWorld) × (left : Players) × (room : GameRoom)
    × (dis_connect_player u joined 2 (82 ∷ []) ≡ some (state_success, told, v, left))
    × (recipients told ≡ (room_for world (82 ∷ [])).player_map)
    × (room.player_map ≡ (room_for world (82 ∷ [])).player_map)
    × Kept world v (82 ∷ []) room
unfolding find_player with_room get_game_room Maps.find has_id
dis_connect_player-connect_player_example =
    dis_connect_player-connect_player world players 2 (82 ∷ []) (player 12) refl room-Live refl refl
      refl refl

-- Rooms are listed in the order of their codes, and a room that is made twice is counted twice.
abbrev twice : GameWorld
unfolding create_game_room new_world
twice =
    create_game_room (create_game_room (create_game_room (new_world []) (2 ∷ [])) (1 ∷ [])) (2 ∷ [])

lists_in_order : get_room_list twice ≡ (1 ∷ []) ∷ (2 ∷ []) ∷ []
unfolding twice get_room_list Maps.insert create_game_room new_world
lists_in_order = refl

-- What the other operations make of the world: with the code, without one, and without the room.
host_is_first : get_room_host_mac world players (82 ∷ []) ≡ some (11 ∷ [])
unfolding get_room_host_mac Room.get_room_host_mac Room.host_loop find_player get_game_room
    Maps.find
host_is_first = refl

host_of_none : get_room_host_mac world players (83 ∷ []) ≡ some []
unfolding get_room_host_mac get_game_room Maps.find
host_of_none = refl

spreads_to_all :
    spread_message world players [] (7 ∷ [])
    ≡ some (record { to = 1; packet = message (7 ∷ []) } ∷ [])
unfolding spread_message spread_loop Room.spread_message Room.notify_loop find_player
spreads_to_all = refl

transfers_to_none : transfer_message world players [] [] (11 ∷ []) (7 ∷ []) ≡ some []
unfolding transfer_message
transfers_to_none = refl

sessions_are_none : get_sessions world players ≡ some []
unfolding get_sessions sessions_of Room.get_room_sessions Room.sessions_loop find_player
sessions_are_none = refl

names_by_code : get_player_name_map world players ≡ some ((82 ∷ [], [] ∷ []) ∷ [])
unfolding get_player_name_map names_of Room.get_player_names Room.names_loop find_player Maps.insert
names_by_code = refl
