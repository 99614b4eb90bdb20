-- ===== src/Game/Room.antt =====
-- example/gameserver/game_room.cc: a room, its players, and what it sends to them.
--
-- The server owns the players; a room keeps pointers to them under their ids. Players are a list by
-- id, and the map of the room is the list of its ids in order, each a pointer to the player with
-- that id. `none` as a result is a fault, a pointer to a player that was deleted. The mutex of the
-- room is held throughout, so an operation is one step. What a packet holds stands for its bytes:
-- the strings of the player are what they are encoded from.
pub mod Members
pub mod Host
pub mod Rounds
mod Tests
use sails.Prelude.{
  ℕ, zero, suc, ◌+◌, ◌-◌, Bool, true, false, ◌&&◌, not, Option, none, some, List, [], ◌∷◌, ◌++◌,
  ltb, leb, ◌==◌, if◌then◌else◌, length,
}
use sails.Prelude.Int.{ℤ}

pub record Player : Type 0 where
  pub user_state : ℕ
  pub player_name : List ℕ
  pub room_code : List ℕ
  pub game_code : List ℕ
  pub ip : List ℕ
  pub port : ℕ
  pub mac : List ℕ
  pub fd : ℤ
  pub connector_uid : ℕ
  pub age : ℕ
  pub session : List ℕ

-- The players of the server, by id.
abbrev pub Players : Type 0
Players = List (ℕ × Player)

pub record GameRoom : Type 0 where
  pub room_code : List ℕ
  pub player_map : List ℕ

-- `connects` is the name, mac and ip of a player.
pub data Packet : Type 0 where
  connects : List ℕ → List ℕ → List ℕ → Packet
  disconnects : List ℕ → List ℕ → Packet
  bssid : List ℕ → Packet
  message : List ℕ → Packet

-- What is sent, to the connection of a player.
pub record Sent : Type 0 where
  pub to : ℕ
  pub packet : Packet

-- To whom it is sent, in order.
abbrev pub recipients : List Sent → List ℕ
recipients [] = []
recipients (s ∷ ss) = s.to ∷ recipients ss

pub data DisconnectState : Type 0 where
  state_success : DisconnectState
  state_player_not_exists : DisconnectState
  state_player_invalid : DisconnectState
  state_no_gamewold : DisconnectState
  state_no_room : DisconnectState

abbrev pub user_state_logged_in : ℕ
user_state_logged_in = 1

-- A player through its pointer.
unfoldable pub find_player : ℕ → Players → Option Player
find_player id [] = none
find_player id ((key, p) ∷ ps) = let rest = find_player id ps in if key == id then some p else rest

unfoldable pub update_player : ℕ → (Player → Player) → Players → Players
update_player id f [] = []
update_player id f ((key, p) ∷ ps) =
    let rest = update_player id f ps in if key == id then (key, f p) ∷ ps else (key, p) ∷ rest

-- `insert` in a `std::map`: an id that is there stays.
pub insert_id : ℕ → List ℕ → List ℕ
insert_id id [] = id ∷ []
insert_id id (x ∷ xs) =
    let rest = insert_id id xs in
    if ltb id x then id ∷ x ∷ xs else if x == id then x ∷ xs else x ∷ rest

pub erase_id : ℕ → List ℕ → List ℕ
erase_id id [] = []
erase_id id (x ∷ xs) = let rest = erase_id id xs in if x == id then xs else x ∷ rest

unfoldable pub has_id : ℕ → List ℕ → Bool
has_id id [] = false
has_id id (x ∷ xs) = let rest = has_id id xs in if x == id then true else rest

-- `peer->age > maxAge`, where `none` is -1.
abbrev pub is_older : ℕ → Option ℕ → Bool
is_older age none = true
is_older age (some max_age) = ltb max_age age

abbrev pub connects_of : Player → Packet
connects_of p = connects p.player_name p.mac p.ip

-- The first loop of `connectPlayer`: what is sent, and the mac of the group's host.
unfoldable pub greet_loop :
    Players → ℕ → Player → List ℕ → List ℕ → Option ℕ → Option (List Sent × List ℕ)
unfolding find_player
greet_loop players id player [] host max_age = some ([], host)
greet_loop players id player (x ∷ xs) host max_age = elim (find_player x players) [
  | none ↦ none
  | some peer ↦
      elim (greet_loop players id player xs (if is_older peer.age max_age then peer.mac else host)
        (if is_older peer.age max_age then some peer.age else max_age)) [
          | none ↦ none
          | some (sent, last) ↦ some (
            record { to = x; packet = connects_of player }
                ∷ record { to = id; packet = connects_of peer }
                ∷ sent,
            last,
          )
        ]
]

abbrev pub older : Player → Player
older p = record p { age = p.age + 1 }

-- The second loop of `connectPlayer`.
pub age_loop : List ℕ → Players → Option Players
unfolding find_player update_player
age_loop [] players = some players
age_loop (x ∷ xs) players = elim (find_player x players) [
  | none ↦ none
  | some p ↦ age_loop xs (update_player x older players)
]

unfoldable pub connect_player :
    GameRoom → Players → ℕ → Option (Bool × List Sent × GameRoom × Players)
unfolding find_player update_player greet_loop age_loop insert_id
connect_player room players id = elim (find_player id players) [
  | none ↦ some (false, [], room, players)
  | some player ↦ elim (greet_loop players id player room.player_map player.mac none) [
    | none ↦ none
    | some (sent, host) ↦ elim (age_loop (insert_id id room.player_map) players) [
      | none ↦ none
      | some aged ↦ some (
        true,
        sent ++ record { to = id; packet = bssid host } ∷ [],
        record room { player_map = insert_id id room.player_map },
        update_player id (λ p. record p { room_code = room.room_code }) aged,
      )
    ]
  ]
]

-- A packet to every id.
unfoldable pub notify_loop : Players → Packet → List ℕ → Option (List Sent)
unfolding find_player
notify_loop players packet [] = some []
notify_loop players packet (x ∷ xs) =
    let rest = notify_loop players packet xs in
    elim (find_player x players) [
      | none ↦ none
      | some peer ↦ elim rest [
        | none ↦ none
        | some sent ↦ some (record { to = x; packet = packet } ∷ sent)
      ]
    ]

abbrev pub is_blank : List ℕ → Bool
is_blank [] = true
is_blank (_ ∷ _) = false

pub dis_connect_player :
    GameRoom → Players → ℕ → Option (DisconnectState × List Sent × GameRoom × Players)
unfolding find_player update_player notify_loop has_id erase_id
dis_connect_player room players id =
    if has_id id room.player_map
    then elim (find_player id players) [
      | none ↦ none
      | some p ↦
          if is_blank p.room_code
          then some (state_player_invalid, [], room, players)
          else if is_blank p.game_code
          then some (state_player_invalid, [], room, players)
          else let left =
              update_player id (λ q. record q { room_code = []; user_state = user_state_logged_in })
                players in
            elim (notify_loop left (disconnects p.mac p.ip) (erase_id id room.player_map)) [
              | none ↦ none
              | some sent ↦ some (
                state_success,
                sent,
                record room { player_map = erase_id id room.player_map },
                left,
              )
            ]
    ]
    else some (state_player_not_exists, [], room, players)

-- The loop of `getRoomHostMac`, whose `maxAge` stays 0.
unfoldable pub host_loop : Players → List ℕ → List ℕ → Option (List ℕ)
unfolding find_player
host_loop players [] mac = some mac
host_loop players (x ∷ xs) mac = elim (find_player x players) [
  | none ↦ none
  | some peer ↦ host_loop players xs (if ltb 0 peer.age then peer.mac else mac)
]

unfoldable pub get_room_host_mac : GameRoom → Players → Option (List ℕ)
unfolding host_loop
get_room_host_mac room players = host_loop players room.player_map []

unfoldable pub spread_message : GameRoom → Players → List ℕ → Option (List Sent)
unfolding notify_loop
spread_message room players text = notify_loop players (message text) room.player_map

abbrev pub same_bytes : List ℕ → List ℕ → Bool
same_bytes [] [] = true
same_bytes (x ∷ xs) (y ∷ ys) = (x == y) && same_bytes xs ys
same_bytes _ _ = false

-- The loop of `transferMessage`: only to the players with the ip and the mac.
unfoldable pub transfer_loop : Players → List ℕ → List ℕ → List ℕ → List ℕ → Option (List Sent)
unfolding find_player
transfer_loop players ip mac text [] = some []
transfer_loop players ip mac text (x ∷ xs) =
    let rest = transfer_loop players ip mac text xs in
    elim (find_player x players) [
      | none ↦ none
      | some peer ↦
          if same_bytes peer.ip ip && same_bytes peer.mac mac
          then elim rest [
            | none ↦ none
            | some sent ↦ some (record { to = x; packet = message text } ∷ sent)
          ]
          else rest
    ]

unfoldable pub transfer_message : GameRoom → Players → List ℕ → List ℕ → List ℕ → Option (List Sent)
unfolding transfer_loop
transfer_message room players ip mac text = transfer_loop players ip mac text room.player_map

unfoldable pub sessions_loop : Players → List ℕ → Option (List (List ℕ))
unfolding find_player
sessions_loop players [] = some []
sessions_loop players (x ∷ xs) =
    let rest = sessions_loop players xs in
    elim (find_player x players) [
      | none ↦ none
      | some peer ↦
          if is_blank peer.session
          then rest
          else elim rest [ none ↦ none | some ss ↦ some (peer.session ∷ ss) ]
    ]

unfoldable pub get_room_sessions : GameRoom → Players → Option (List (List ℕ))
unfolding sessions_loop
get_room_sessions room players = sessions_loop players room.player_map

unfoldable pub names_loop : Players → List ℕ → Option (List (List ℕ))
unfolding find_player
names_loop players [] = some []
names_loop players (x ∷ xs) =
    let rest = names_loop players xs in
    elim (find_player x players) [
      | none ↦ none
      | some peer ↦ elim rest [ none ↦ none | some ns ↦ some (peer.player_name ∷ ns) ]
    ]

unfoldable pub get_player_names : GameRoom → Players → Option (List (List ℕ))
unfolding names_loop
get_player_names room players = names_loop players room.player_map
