-- ===== src/Game/Server.antt =====
-- example/gameserver/server.cc: what the thread that handles packets does with one.
--
-- The players are the table of pointers, as in Game/Room. The worlds are a `std::map` by the codes
-- of the games. What a step asks of the net threads and of other threads is a list of effects. A
-- `none` is a fault, a call through a null pointer or a pointer to a player that was deleted.
pub mod Credentials
pub mod Parts
pub mod Login
pub mod Admission
pub mod Dangling
pub mod Chat
pub mod Joining
pub mod Queries
mod Tests
use sails.Prelude.{
  ℕ, zero, suc, ◌+◌, ◌-◌, Bool, true, false, ◌&&◌, ◌||◌, not, Option, none, some, List, [], ◌∷◌,
  ◌++◌, ltb, leb, ◌==◌, if◌then◌else◌, length, take, drop,
}
use sails.Prelude.Int.{ℤ}
use sails.Prelude.Words.{u32}
use sails.Net.HandleThread.{TagRecvData}
use sails.Game.Maps
use sails.Game.Maps.{Map}
use sails.Game.Room.{
  Player, Players, Sent, DisconnectState, state_player_not_exists, state_player_invalid,
  state_no_gamewold, find_player, update_player, same_bytes, is_blank, user_state_logged_in,
}
use sails.Game.World
use sails.Game.World.{GameWorld, new_world}
use sails.Game.Parse.{
  opcode_login, opcode_connect, opcode_disconnect, opcode_scan, opcode_chat, opcode_game_data,
  user_state_waiting,
}
use sails.Game.Fields.{field, c_str, byte_at, is_login, is_group_name, get_room_name, from_ip}
use sails.Game.Addresses.{get_mac_str, get_ip_str, get_ip}

abbrev pub opcode_logout : ℕ
opcode_logout = 101

abbrev pub user_state_connected_room : ℕ
user_state_connected_room = 2

abbrev pub user_state_dic_conn : ℕ
user_state_dic_conn = 4

pub record Server : Type 0 where
  pub game_world_map : Map GameWorld
  pub player_list : Players

-- `scan_result` goes to a player, with the name of a group and the mac of its host; `closes` is the
-- request of `KillOffPlayer`, with ip, port, uid and descriptor; `checks_session` is the thread
-- that asks whether a session is valid.
pub data Effect : Type 0 where
  sends : Sent → Effect
  scan_result : ℕ → List ℕ → List ℕ → Effect
  scan_complete : ℕ → Effect
  closes : List ℕ → ℕ → ℕ → ℤ → Effect
  checks_session : ℕ → List ℕ → Effect

-- A step: none is a fault.
abbrev pub Step : Type 0
Step = Option (List Effect × Server)

abbrev pub all_sent : List Sent → List Effect
all_sent [] = []
all_sent (s ∷ ss) = sends s ∷ all_sent ss

unfoldable pub get_game_world : Server → List ℕ → Option GameWorld
get_game_world s code = Maps.find code s.game_world_map

unfoldable pub create_game_world : Server → List ℕ → Server
create_game_world s code = record s {
  game_world_map = Maps.insert code (new_world code) s.game_world_map;
}

-- The world that the map points to is `w` now, and so are the players.
abbrev pub with_world : Server → List ℕ → GameWorld → Players → Server
with_world s code w players = record {
  game_world_map = Maps.set code w s.game_world_map;
  player_list = players;
}

unfoldable pub get_player_state : Server → ℕ → ℕ
unfolding find_player
get_player_state s id = elim (find_player id s.player_list) [
  | none ↦ user_state_dic_conn
  | some p ↦ p.user_state
]

unfoldable pub kill_off_player : Server → ℕ → List Effect
unfolding find_player
kill_off_player s id = elim (find_player id s.player_list) [
  | none ↦ []
  | some p ↦ closes p.ip p.port p.connector_uid p.fd ∷ []
]

-- `del` of the table, and `delete`; nothing is under the id then.
unfoldable pub delete_player : ℕ → Players → Players
delete_player id [] = []
delete_player id ((key, p) ∷ ps) =
    let rest = delete_player id ps in if key == id then rest else (key, p) ∷ rest

-- `CreatePlayer` with the id that `getUniqId` of the table gave, which is free.
unfoldable pub create_player : Server → ℕ → List ℕ → ℕ → ℤ → ℕ → Server
create_player s uid ip port fd connector_uid = record s {
  player_list =
      (
        uid,
        record {
          user_state = user_state_waiting;
          player_name = [];
          room_code = [];
          game_code = [];
          ip = ip;
          port = port;
          mac = [];
          fd = fd;
          connector_uid = connector_uid;
          age = 0;
          session = [];
        },
      )
      ∷ s.player_list;
}

unfoldable pub game_product_override : Map (List ℕ) → List ℕ → List ℕ
game_product_override crosslinks product = elim (Maps.find (c_str product) crosslinks) [
  | none ↦ c_str product
  | some crosslink ↦ if is_blank crosslink then c_str product else crosslink
]

-- The server with the world of a game, which is made where it is not there.
unfoldable pub ensure_world : Server → List ℕ → Option GameWorld → Server
unfolding create_game_world
ensure_world s code (some w) = s
ensure_world s code none = create_game_world s code

abbrev pub logged_in : List ℕ → List ℕ → Player → Player
logged_in code packet p = record p {
  mac = get_mac_str (field 1 6 packet);
  user_state = user_state_logged_in;
  game_code = code;
  session = c_str (field 144 100 packet);
}

-- `login_user_data`; a player that is gone is written through a null pointer.
unfoldable pub login_user_data : Map (List ℕ) → Server → ℕ → List ℕ → Step
unfolding find_player update_player is_login game_product_override get_game_world ensure_world
    kill_off_player
login_user_data crosslinks s id packet =
    let code = game_product_override crosslinks (field 135 9 packet) in
    if is_login packet
    then elim (find_player id s.player_list) [
      | none ↦ none
      | some p ↦ some (
        checks_session id (c_str (field 144 100 packet)) ∷ [],
        record (ensure_world s code (get_game_world s code)) {
          player_list = update_player id (logged_in code packet) s.player_list;
        },
      )
    ]
    else some (kill_off_player s id, s)

abbrev pub in_room : Player → Player
in_room p = record p { user_state = user_state_connected_room }

-- What `connectPlayer` of the world did.
abbrev pub joined_world :
    Server → ℕ → List ℕ → Option (Bool × List Sent × GameWorld × Players) → Step
joined_world s id code none = none
joined_world s id code (some (ok, sent, w, players)) =
    some (
      all_sent sent,
      with_world s code w (if ok then update_player id in_room players else players),
    )

-- `connect_user` once the name is valid, with the player that is found.
abbrev pub enter_room : Server → ℕ → List ℕ → Option Player → Step
enter_room s id code none = some (kill_off_player s id, s)
enter_room s id code (some p) =
    if is_blank p.game_code
    then some (kill_off_player s id, s)
    else elim (get_game_world s p.game_code) [
      | none ↦ some (kill_off_player s id, s)
      | some w ↦ joined_world s id p.game_code (World.connect_player w s.player_list id code)
    ]

-- With a name that is not valid the log reads the player through the pointer.
unfoldable pub connect_user : Server → ℕ → List ℕ → Step
unfolding find_player
connect_user s id packet =
    let group : List ℕ = field 1 8 packet in
    if is_group_name group
    then enter_room s id group (find_player id s.player_list)
    else elim (find_player id s.player_list) [
      | none ↦ none
      | some p ↦ some (kill_off_player s id, s)
    ]

abbrev pub Left : Type 0
Left = Option (DisconnectState × List Effect × Server)

-- What `disConnectPlayer` of the world did.
abbrev pub left_world :
    Server → List ℕ → Option (DisconnectState × List Sent × GameWorld × Players) → Left
left_world s code none = none
left_world s code (some (state, sent, w, players)) =
    some (state, all_sent sent, with_world s code w players)

-- Whether the packet came from the connection of the player, who is in a room.
abbrev pub may_leave : TagRecvData (List ℕ) → Player → Bool
may_leave r p =
    not (is_blank p.game_code)
    && not (is_blank p.room_code)
    && same_bytes p.ip r.ip
    && (p.port == r.port)

abbrev pub leave_world : Server → ℕ → Player → Left
leave_world s id p = elim (get_game_world s p.game_code) [
  | none ↦ some (state_no_gamewold, [], s)
  | some w ↦ left_world s p.game_code (World.dis_connect_player w s.player_list id p.room_code)
]

unfoldable pub disconnect_user : Server → TagRecvData (List ℕ) → Left
unfolding find_player
disconnect_user s r =
    let id = u32 r.ext_data in
    elim (find_player id s.player_list) [
      | none ↦ some (state_player_not_exists, [], s)
      | some p ↦ if may_leave r p then leave_world s id p else some (state_player_invalid, [], s)
    ]

-- The state that is answered is only logged.
abbrev pub step_of : Left → Step
step_of none = none
step_of (some (state, effects, s)) = some (effects, s)

-- The loop of `send_scan_results`.
unfoldable pub scan_loop : GameWorld → Players → ℕ → List (List ℕ) → Option (List Effect)
scan_loop w players id [] = some (scan_complete id ∷ [])
scan_loop w players id (code ∷ codes) =
    let rest = scan_loop w players id codes in
    elim (World.get_room_host_mac w players code) [
      | none ↦ none
      | some mac ↦ elim rest [
        | none ↦ none
        | some more ↦ some (scan_result id (get_room_name code) mac ∷ more)
      ]
    ]

-- The world of a player who is there and in a game.
abbrev pub world_of : Server → Option Player → Option GameWorld
world_of s none = none
world_of s (some p) = if is_blank p.game_code then none else get_game_world s p.game_code

-- Effects that leave the server as it is.
abbrev pub with_effects : Server → Option (List Effect) → Step
with_effects s none = none
with_effects s (some effects) = some (effects, s)

abbrev pub sent_effects : Option (List Sent) → Option (List Effect)
sent_effects none = none
sent_effects (some sent) = some (all_sent sent)

unfoldable pub send_scan_results : Server → ℕ → Step
unfolding find_player get_game_world scan_loop
send_scan_results s id = elim (world_of s (find_player id s.player_list)) [
  | none ↦ some ([], s)
  | some w ↦ with_effects s (scan_loop w s.player_list id (World.get_room_list w))
]

abbrev pub room_code_of : Option Player → List ℕ
room_code_of none = []
room_code_of (some p) = p.room_code

unfoldable pub spread_message : Server → ℕ → List ℕ → Step
unfolding find_player get_game_world
spread_message s id packet =
    let p = find_player id s.player_list in
    elim (world_of s p) [
      | none ↦ some ([], s)
      | some w ↦
          with_effects s (
            sent_effects
              (World.spread_message w s.player_list (room_code_of p) (field 1 64 packet)))
    ]

-- The player is read through the pointer before it is tested.
unfoldable pub transfer_message : Server → ℕ → List ℕ → Step
unfolding find_player get_game_world get_ip
transfer_message s id packet = elim (find_player id s.player_list) [
  | none ↦ none
  | some p ↦ elim (get_ip p.ip) [
    | none ↦ none
    | some ip ↦ elim (world_of s (some p)) [
      | none ↦ some ([], s)
      | some w ↦ with_effects s (
          sent_effects (
            World.transfer_message w s.player_list p.room_code (get_ip_str (field 14 4 packet))
              (get_mac_str (field 8 6 packet)) (from_ip ip packet)))
    ]
  ]
]

-- The player is taken out of the table and deleted.
abbrev pub without_player : ℕ → Step → Step
without_player id none = none
without_player id (some (effects, s)) =
    some (effects, record s { player_list = delete_player id s.player_list })

-- By the opcode, and by the state of the player.
unfoldable pub handle : Map (List ℕ) → Server → TagRecvData (List ℕ) → Step
unfolding get_player_state login_user_data connect_user disconnect_user send_scan_results
    spread_message transfer_message delete_player
handle crosslinks s r =
    let id = u32 r.ext_data in
    let op = byte_at 0 r.packet in
    let state = get_player_state s id in
    if op == opcode_login
    then login_user_data crosslinks s id r.packet
    else if op == opcode_connect
    then if state == user_state_logged_in then connect_user s id r.packet else some ([], s)
    else if op == opcode_disconnect
    then if state == user_state_connected_room then step_of (disconnect_user s r) else some ([], s)
    else if op == opcode_logout
    then without_player id
        (if state == user_state_connected_room then step_of (disconnect_user s r) else some ([], s))
    else if op == opcode_scan
    then if state == user_state_logged_in then send_scan_results s id else some ([], s)
    else if op == opcode_chat
    then if state == user_state_logged_in then spread_message s id r.packet else some ([], s)
    else if op == opcode_game_data
    then if state == user_state_connected_room then transfer_message s id r.packet else some ([], s)
    else some ([], s)
