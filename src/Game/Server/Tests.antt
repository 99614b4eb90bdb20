-- ===== src/Game/Server/Tests.antt =====
-- example/gameserver/server.cc: a server with two players, and the theorems at it.
use sails.Prelude.{ℕ, zero, suc, ◌≡◌, ◌⊎◌, refl, true, none, some, List, [], ◌∷◌, ◌++◌, arith}
use sails.Prelude.Int.{pos}
use sails.Net.HandleThread.{TagRecvData}
use sails.Game.Maps
use sails.Game.Maps.{Map}
use sails.Game.Room.{Player, GameRoom, Sent, recipients, find_player, has_id}
use sails.Game.Room.Members.{Live}
use sails.Game.World
use sails.Game.World.{GameWorld}
use sails.Game.World.Rooms.{room_for}
use sails.Game.Parse.{opcode_login, opcode_connect, opcode_chat, opcode_disconnect}
use sails.Game.Server
use sails.Game.Fields.{is_login}
use sails.Game.Server.{
  Server, Effect, closes, checks_session, scan_result, scan_complete, handle, game_product_override,
  all_sent, opcode_logout, create_player, send_scan_results, scan_loop, disconnect_user,
  get_game_world, transfer_message, login_user_data, user_state_connected_room,
}
use sails.Game.Server.Credentials.{LoginParts, Valid, Holds}
use sails.Game.Server.Admission.{LoggedIn, handle-LoggedIn}
use sails.Game.Server.Dangling.{handle-dangling}
use sails.Game.Server.Chat.{members, audience, handle-chat}
use sails.Game.Server.Queries.{
  all_sessions, get_player_session, get_game_world_list, get_player_name_map,
}
use sails.Game.Server.Joining.{InRoom, handle-InRoom}

abbrev player : ℕ → List ℕ → Player
player state code = record {
  user_state = state;
  player_name = [];
  room_code = code;
  game_code = 65 ∷ [];
  ip = 49 ∷ [];
  port = 80;
  mac = [];
  fd = pos 5;
  connector_uid = 9;
  age = 1;
  session = [];
}

abbrev group : List ℕ
group = 82 ∷ 0 ∷ 0 ∷ 0 ∷ 0 ∷ 0 ∷ 0 ∷ 0 ∷ []

abbrev room : GameRoom
room = record { room_code = group; player_map = 1 ∷ [] }

abbrev world : GameWorld
world = record { game_code = 65 ∷ []; room_num = 1; room_map = (group, room) ∷ [] }

-- Player 1 is in the room, player 2 is logged in.
abbrev server : Server
server = record {
  game_world_map = (65 ∷ [], world) ∷ [];
  player_list = (1, player 2 group) ∷ (2, player 1 []) ∷ [];
}

abbrev received : ℕ → List ℕ → TagRecvData (List ℕ)
received id packet = record {
  uid = 7;
  packet = packet;
  ip = 49 ∷ [];
  port = 80;
  fd = pos 5;
  ext_data = id;
}

abbrev of_byte : ℕ → ℕ → List ℕ
of_byte zero b = []
of_byte (suc k) b = b ∷ of_byte k b

-- A login with a mac, a name, a code of nine letters and a session of 32.
abbrev login : List ℕ
login =
    opcode_login ∷ (of_byte 6 1 ++ of_byte 128 66 ++ of_byte 9 67 ++ of_byte 32 68 ++ of_byte 68 0)

login_is_valid : is_login login ≡ true
unfolding is_login
login_is_valid = refl

login_parts :
    LoginParts login (of_byte 6 1) (of_byte 128 66) (of_byte 9 67) (of_byte 32 68 ++ of_byte 68 0)
login_parts = record {
  cut = refl;
  mac_size = refl;
  name_size = refl;
  game_size = refl;
  session_size = refl;
}

handle-LoggedIn_example :
    (Valid (of_byte 6 1) (of_byte 128 66) (of_byte 9 67) (of_byte 32 68 ++ of_byte 68 0)
      × (token : List ℕ) × (t : Server) × Holds (of_byte 32 68 ++ of_byte 68 0) token
      × (handle [] server (received 1 login) ≡ some (checks_session 1 token ∷ [], t))
      × LoggedIn [] server 1 (player 2 group) (of_byte 6 1) (of_byte 9 67) token t)
    ⊎ ((Valid (of_byte 6 1) (of_byte 128 66) (of_byte 9 67) (of_byte 32 68 ++ of_byte 68 0) → ⊥)
        × (handle [] server (received 1 login) ≡ some (closes (49 ∷ []) 80 9 (pos 5) ∷ [], server)))
unfolding find_player
handle-LoggedIn_example =
    handle-LoggedIn [] server (received 1 login) (player 2 group) (of_byte 6 1) (of_byte 128 66)
      (of_byte 9 67) (of_byte 32 68 ++ of_byte 68 0) login_parts refl

handle-dangling_example :
    (effects : List Effect) × (t : Server) × (u : Server) × (handle [] server (received 1 login)
      ≡ some (effects, t))
    × (handle [] t (received 1 (opcode_logout ∷ [])) ≡ some ([], u))
    × (find_player 1 u.player_list ≡ none)
    × (get_game_world u (65 ∷ []) ≡ some world)
    × (World.connect_player world u.player_list 2 group ≡ none)
unfolding find_player get_game_world Maps.find World.get_game_room has_id
handle-dangling_example =
    handle-dangling [] server (received 1 login) (received 1 (opcode_logout ∷ [])) (player 2 group)
      (player 1 []) world (65 ∷ []) group room 2 refl refl refl login_is_valid refl refl refl refl
      refl refl

one-Live : Live server.player_list (1 ∷ [])
unfolding has_id find_player
one-Live zero h = absurd (ground arith)
one-Live (suc zero) h = (player 2 group, refl)
one-Live (suc (suc i)) h = absurd (ground arith)

abbrev chat : List ℕ
chat = opcode_chat ∷ of_byte 64 7

handle-chat_example :
    (sent : List Sent) × (handle [] server (received 2 chat) ≡ some (all_sent sent, server))
    × (recipients sent ≡ 1 ∷ [])
unfolding find_player get_game_world Maps.find members audience
handle-chat_example =
    handle-chat [] server (received 2 chat) (player 1 []) world refl refl refl refl one-Live

room-Live : Live server.player_list (room_for world group).player_map
unfolding World.with_room World.get_game_room Maps.find
room-Live = one-Live

handle-InRoom_example :
    (sent : List Sent) × (t : Server) × (handle [] server (received 2 (opcode_connect ∷ group))
      ≡ some (all_sent sent, t))
    × InRoom server 2 (player 1 []) world group t
unfolding find_player get_game_world World.with_room World.get_game_room Maps.find
handle-InRoom_example =
    handle-InRoom [] server (received 2 (opcode_connect ∷ group)) (player 1 []) world refl refl refl
      refl refl refl refl room-Live

-- A player who is not in a room is not asked to leave, and a new one is waiting.
abbrev third : Server
unfolding create_player
third = create_player server 3 [] 0 (pos 6) 10

stays : handle [] third (received 3 (opcode_disconnect ∷ [])) ≡ some ([], third)
unfolding third create_player handle Server.get_player_state find_player
stays = refl

lists_games : get_game_world_list server ≡ (65 ∷ []) ∷ []
unfolding get_game_world_list
lists_games = refl

no_names : get_player_name_map server [] ≡ some []
unfolding get_player_name_map get_game_world Maps.find
no_names = refl

no_sessions : get_player_session (record server { game_world_map = [] }) ≡ some []
unfolding get_player_session all_sessions
no_sessions = refl
