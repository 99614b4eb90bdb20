-- ===== src/Game/World.antt =====
-- example/gameserver/game_world.cc: the rooms of a game, by their codes.
--
-- The map is a list in the order of its keys, as `std::map` keeps it. A player joins and leaves in
-- the thread that handles the packets, so an operation is one step.
pub mod Rooms
mod Tests
use sails.Prelude.{
  ℕ, zero, suc, ◌+◌, Bool, true, false, Option, none, some, List, [], ◌∷◌, ◌++◌, ltb, ◌==◌,
  if◌then◌else◌,
}
use sails.Game.Maps
use sails.Game.Maps.{Map}
use sails.Game.Room
use sails.Game.Room.{GameRoom, Players, Sent, DisconnectState, state_no_room, same_bytes, is_blank}

pub record GameWorld : Type 0 where
  pub game_code : List ℕ
  pub room_num : ℕ
  pub room_map : Map GameRoom

pub new_world : List ℕ → GameWorld
new_world game_code = record { game_code = game_code; room_num = 0; room_map = [] }

unfoldable pub get_game_room : GameWorld → List ℕ → Option GameRoom
unfolding Maps.find
get_game_room w code = Maps.find code w.room_map

abbrev pub empty_room : List ℕ → GameRoom
empty_room code = record { room_code = code; player_map = [] }

unfoldable pub create_game_room : GameWorld → List ℕ → GameWorld
unfolding Maps.insert
create_game_room w code = record w {
  room_num = w.room_num + 1;
  room_map = Maps.insert code (empty_room code) w.room_map;
}

-- The world with the room of a code, which is made where it is not there.
unfoldable pub with_room : GameWorld → List ℕ → Option GameRoom → GameRoom × GameWorld
unfolding create_game_room
with_room w code (some room) = (room, w)
with_room w code none = (empty_room code, create_game_room w code)

abbrev pub set_in : GameWorld → List ℕ → GameRoom → GameWorld
set_in w code changed = record w { room_map = Maps.set code changed w.room_map }

-- What a room did, in its world.
abbrev pub joined_in :
    GameWorld
    → List ℕ
    → Option (Bool × List Sent × GameRoom × Players)
    → Option (Bool × List Sent × GameWorld × Players)
joined_in w code none = none
joined_in w code (some (ok, sent, changed, left)) = some (ok, sent, set_in w code changed, left)

abbrev pub left_in :
    GameWorld
    → List ℕ
    → Option (DisconnectState × List Sent × GameRoom × Players)
    → Option (DisconnectState × List Sent × GameWorld × Players)
left_in w code none = none
left_in w code (some (state, sent, changed, left)) = some (state, sent, set_in w code changed, left)

unfoldable pub connect_player :
    GameWorld → Players → ℕ → List ℕ → Option (Bool × List Sent × GameWorld × Players)
unfolding with_room get_game_room
connect_player w players id code =
    let (room, u) = with_room w code (get_game_room w code) in
    joined_in u code (Room.connect_player room players id)

abbrev pub leave_room :
    GameWorld
    → Players
    → ℕ
    → List ℕ
    → Option GameRoom
    → Option (DisconnectState × List Sent × GameWorld × Players)
leave_room w players id code none = some (state_no_room, [], w, players)
leave_room w players id code (some room) = left_in w code (Room.dis_connect_player room players id)

pub dis_connect_player :
    GameWorld → Players → ℕ → List ℕ → Option (DisconnectState × List Sent × GameWorld × Players)
unfolding get_game_room
dis_connect_player w players id code = leave_room w players id code (get_game_room w code)

abbrev room_codes : Map GameRoom → List (List ℕ)
room_codes [] = []
room_codes ((key, room) ∷ rooms) = room.room_code ∷ room_codes rooms

pub get_room_list : GameWorld → List (List ℕ)
get_room_list w = room_codes w.room_map

pub get_room_host_mac : GameWorld → Players → List ℕ → Option (List ℕ)
unfolding get_game_room
get_room_host_mac w players code = elim (get_game_room w code) [
  | none ↦ some []
  | some room ↦ Room.get_room_host_mac room players
]

-- The loop of `spreadMessage` over all rooms.
unfoldable pub spread_loop : Players → List ℕ → Map GameRoom → Option (List Sent)
spread_loop players text [] = some []
spread_loop players text ((key, room) ∷ rooms) =
    let rest = spread_loop players text rooms in
    elim (Room.spread_message room players text) [
      | none ↦ none
      | some sent ↦ elim rest [ none ↦ none | some more ↦ some (sent ++ more) ]
    ]

-- Without a room's code the message goes to all rooms.
unfoldable pub spread_message : GameWorld → Players → List ℕ → List ℕ → Option (List Sent)
unfolding spread_loop get_game_room
spread_message w players code text =
    if is_blank code then spread_loop players text w.room_map else elim (get_game_room w code) [
      | none ↦ some []
      | some room ↦ Room.spread_message room players text
    ]

pub transfer_message : GameWorld → Players → List ℕ → List ℕ → List ℕ → List ℕ → Option (List Sent)
unfolding get_game_room
transfer_message w players code ip mac text =
    if is_blank code then some [] else elim (get_game_room w code) [
      | none ↦ some []
      | some room ↦ Room.transfer_message room players ip mac text
    ]

-- The loop of `getSessions`.
pub sessions_of : Players → Map GameRoom → Option (List (List ℕ))
sessions_of players [] = some []
sessions_of players ((key, room) ∷ rooms) =
    let rest = sessions_of players rooms in
    elim (Room.get_room_sessions room players) [
      | none ↦ none
      | some ss ↦ elim rest [ none ↦ none | some more ↦ some (ss ++ more) ]
    ]

pub get_sessions : GameWorld → Players → Option (List (List ℕ))
unfolding sessions_of
get_sessions w players = sessions_of players w.room_map

-- The loop of `getPlayerNameMap`.
pub names_of : Players → Map GameRoom → Map (List (List ℕ)) → Option (Map (List (List ℕ)))
names_of players [] names = some names
names_of players ((key, room) ∷ rooms) names = elim (Room.get_player_names room players) [
  | none ↦ none
  | some ns ↦ names_of players rooms (Maps.insert room.room_code ns names)
]

pub get_player_name_map : GameWorld → Players → Option (Map (List (List ℕ)))
unfolding names_of
get_player_name_map w players = names_of players w.room_map []
