-- ===== src/Game/Server/Joining.antt =====
-- example/gameserver/server.cc: a connect packet brings a player into a room of his game.
use sails.Prelude.{ℕ, ◌≡◌, refl, ap, ◌∙◌, true, false, some, List}
use sails.Prelude.Words.{u32}
use sails.Net.HandleThread.{TagRecvData}
use sails.Game.Maps.{Map, find-set}
use sails.Game.Room.{
  Player, Players, GameRoom, Sent, find_player, update_player, is_blank, user_state_logged_in,
}
use sails.Game.Room.Members.{Live, is_increasing_from}
use sails.Game.Room.Rounds.{Joined}
use sails.Game.World
use sails.Game.World.{GameWorld}
use sails.Game.World.Rooms.{Kept, room_for, connect_player-Kept}
use sails.Game.Parse.{opcode_connect}
use sails.Game.Fields.{byte_at, field, is_group_name}
use sails.Game.Server.{
  Server, handle, connect_user, get_game_world, get_player_state, all_sent, in_room, enter_room,
  joined_world, with_world, user_state_connected_room,
}
use sails.Game.Server.Login.{find-update_self}
use sails.Game.Server.Chat.{player_state}

-- The server once a player has joined the room with a code: the world of his game is `v`.
pub record InRoom (s : Server) (id : ℕ) (p : Player) (w : GameWorld) (code : List ℕ) (t : Server)
    : Type 0 where
  pub v : GameWorld
  pub room : GameRoom
  pub left : Players
  pub world : get_game_world t p.game_code ≡ some v
  pub kept : Kept w v code room
  pub joined : Joined (room_for w code) s.player_list id p room left
  pub players : t.player_list ≡ update_player id in_room left
  pub state : get_player_state t id ≡ user_state_connected_room

module _ (s : Server) (id : ℕ) (packet : List ℕ) (p : Player) (w : GameWorld) where
  connect_user-steps :
      is_group_name (field 1 8 packet) ≡ true
      → find_player id s.player_list ≡ some p
      → is_blank p.game_code ≡ false
      → get_game_world s p.game_code ≡ some w
      → connect_user s id packet
        ≡ joined_world s id p.game_code (World.connect_player w s.player_list id (field 1 8 packet))
  unfolding connect_user
  connect_user-steps name e game there =
      let entered : enter_room s id (field 1 8 packet) (some p)
          ≡ joined_world s id p.game_code
              (World.connect_player w s.player_list id (field 1 8 packet)) =
        rw (game, there) refl in
      rw (name) (ap (enter_room s id (field 1 8 packet)) e ∙ entered)

module _ (crosslinks : Map (List ℕ)) (s : Server) (r : TagRecvData (List ℕ)) (p : Player)
    (w : GameWorld) where
  -- A connect packet with a valid name, of a player of the server who is logged in to a game with a
  -- world. The ids of the room with the name, or of an empty one, are in order and its pointers are live. The step
  -- does not fault: he joins the room, which is in the world of the game under its name, the other
  -- rooms are found as they were, and his state is that of one in a room.
  pub handle-InRoom :
      byte_at 0 r.packet ≡ opcode_connect
      → find_player (u32 r.ext_data) s.player_list ≡ some p
      → p.user_state ≡ user_state_logged_in
      → is_group_name (field 1 8 r.packet) ≡ true
      → is_blank p.game_code ≡ false
      → get_game_world s p.game_code ≡ some w
      → is_increasing_from 0 (room_for w (field 1 8 r.packet)).player_map ≡ true
      → Live s.player_list (room_for w (field 1 8 r.packet)).player_map
      → (sent : List Sent) × (t : Server) × (handle crosslinks s r ≡ some (all_sent sent, t))
        × InRoom s (u32 r.ext_data) p w (field 1 8 r.packet) t
  unfolding handle get_game_world
  handle-InRoom op e l name game there order live =
      let id : ℕ = u32 r.ext_data in
      let code : List ℕ = field 1 8 r.packet in
      let (sent, v, left, room, q, kept, j) =
        connect_player-Kept w s.player_list id code p order live e in
      let t : Server = with_world s p.game_code v (update_player id in_room left) in
      let found = find-update_self id in_room left j.joiner j.found in
      let state = player_state s id p e ∙ l in
      (
        sent,
        t,
        rw (op, state)
            (connect_user-steps s id r.packet p w name e game there
              ∙ ap (joined_world s id p.game_code) q),
        record {
          v = v;
          room = room;
          left = left;
          world = find-set p.game_code w v s.game_world_map there;
          kept = kept;
          joined = j;
          players = refl;
          state = player_state t id (in_room j.joiner) found;
        },
      )
