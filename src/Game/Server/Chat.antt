-- ===== src/Game/Server/Chat.antt =====
-- example/gameserver/server.cc: to whom a chat message goes.
use sails.Prelude.{
  ℕ, ◌≡◌, refl, ap, ◌∙◌, true, false, Option, none, some, List, [], ◌∷◌, ◌++◌, arith, ◌==◌,
  Bool-cases, Option-cases, inl, inr, if◌then◌else◌,
}
use sails.Prelude.Words.{u32}
use sails.Net.HandleThread.{TagRecvData}
use sails.Game.Maps
use sails.Game.Maps.{Map}
use sails.Game.Room
use sails.Game.Room.{
  Player, Players, GameRoom, Sent, recipients, message, has_id, same_bytes, notify_loop,
  find_player, is_blank, user_state_logged_in,
}
use sails.Game.Room.Members.{Live}
use sails.Game.Room.Rounds.{notify_loop-all}
use sails.Game.World
use sails.Game.World.{GameWorld, get_game_room, spread_loop}
use sails.Game.Parse.{opcode_chat}
use sails.Game.Fields.{byte_at, field}
use sails.Game.Server.{
  Server, Effect, handle, spread_message, get_game_world, get_player_state, all_sent, world_of,
  room_code_of, with_effects, sent_effects, user_state_dic_conn,
}

-- The members of all rooms, in the order of the codes.
unfoldable pub members : Map GameRoom → List ℕ
members [] = []
members ((code, room) ∷ rooms) = let rest = members rooms in room.player_map ++ rest

abbrev players_of : Option GameRoom → List ℕ
players_of none = []
players_of (some room) = room.player_map

has_id-append : (i : ℕ) (xs ys : List ℕ) → has_id i ys ≡ true → has_id i (xs ++ ys) ≡ true
unfolding has_id
has_id-append i [] ys h = h
has_id-append i (x ∷ xs) ys h = ground (arith, has_id-append i xs ys h)

has_id-append_left : (i : ℕ) (xs ys : List ℕ) → has_id i xs ≡ true → has_id i (xs ++ ys) ≡ true
unfolding has_id
has_id-append_left i [] ys h = absurd (ground arith)
has_id-append_left i (x ∷ xs) ys h = ground (arith, has_id-append_left i xs ys)

recipients-append : (xs ys : List Sent) → recipients (xs ++ ys) ≡ recipients xs ++ recipients ys
recipients-append [] ys = refl
recipients-append (x ∷ xs) ys = ap (λ zs. x.to ∷ zs) (recipients-append xs ys)

spread_loop-members :
    (players : Players) (text : List ℕ) (rooms : Map GameRoom)
    → Live players (members rooms)
    → (sent : List Sent) × (spread_loop players text rooms ≡ some sent)
      × (recipients sent ≡ members rooms)
unfolding spread_loop members Room.spread_message
spread_loop-members players text [] live = ([], refl, refl)
spread_loop-members players text ((code, room) ∷ rooms) live =
    let (sent, e, n) =
      notify_loop-all players (message text) room.player_map
        (λ i h. live i (has_id-append_left i room.player_map (members rooms) h)) in
    let (more, f, m) =
      spread_loop-members players text rooms
        (λ i h. live i (has_id-append i room.player_map (members rooms) h)) in
    (
      sent ++ more,
      rw (e, f, spread_loop) refl,
      recipients-append sent more
          ∙ ap (λ xs. xs ++ recipients more) n
          ∙ ap (λ xs. room.player_map ++ xs) m,
    )

pub player_state :
    (s : Server) (id : ℕ) (p : Player)
    → find_player id s.player_list ≡ some p
    → get_player_state s id ≡ p.user_state
unfolding get_player_state
player_state s id p e = ap (λ o. elim o [ none ↦ user_state_dic_conn | some z ↦ z.user_state ]) e

has_id-members :
    (i : ℕ) (code : List ℕ) (room : GameRoom) (rooms : Map GameRoom)
    → Maps.find code rooms ≡ some room
    → has_id i room.player_map ≡ true
    → has_id i (members rooms) ≡ true
unfolding Maps.find members
has_id-members i code room [] e h = absurd (ground arith)
has_id-members i code room ((key, x) ∷ rooms) e h = elim (Bool-cases (same_bytes key code)) [
  | inl same ↦
      let q : some x ≡ some room = ground arith in
      has_id-append_left i x.player_map (members rooms) (ap (λ o. has_id i (players_of o)) q ∙ h)
  | inr other ↦
      has_id-append i x.player_map (members rooms)
        (has_id-members i code room rooms (ground arith) h)
]

-- To whom the message of a player goes in his world.
unfoldable pub audience : Player → GameWorld → List ℕ
unfolding get_game_room
audience p w =
    if is_blank p.room_code then members w.room_map else players_of (get_game_room w p.room_code)

world_message :
    (players : Players) (w : GameWorld) (p : Player) (text : List ℕ)
    → Live players (members w.room_map)
    → (sent : List Sent) × (World.spread_message w players p.room_code text ≡ some sent)
      × (recipients sent ≡ audience p w)
unfolding World.spread_message audience Room.spread_message get_game_room
world_message players w p text live = elim (Bool-cases (is_blank p.room_code)) [
  | inl out ↦
      let (sent, f, n) = spread_loop-members players text w.room_map live in
      (sent, rw (out) f, n ∙ rw (out) refl)
  | inr inside ↦ elim (Option-cases (Maps.find p.room_code w.room_map)) [
    | inl e ↦ ([], rw (inside, e) refl, rw (inside, e) refl)
    | inr (room, e) ↦
        let (sent, f, n) =
          notify_loop-all players (message text) room.player_map
            (λ i h. live i (has_id-members i p.room_code room w.room_map e h)) in
        (sent, rw (inside, e) f, n ∙ rw (inside, e) refl)
  ]
]

module _ (s : Server) (id : ℕ) (packet : List ℕ) (p : Player) (w : GameWorld) where
  -- What is sent to the rooms of the world of the player.
  abbrev chat_in : Option Player → Option GameWorld → Option (List Effect × Server)
  chat_in q none = some ([], s)
  chat_in q (some v) =
      with_effects s
        (sent_effects (World.spread_message v s.player_list (room_code_of q) (field 1 64 packet)))

  spread_message-sent :
      (sent : List Sent)
      → find_player id s.player_list ≡ some p
      → is_blank p.game_code ≡ false
      → get_game_world s p.game_code ≡ some w
      → World.spread_message w s.player_list p.room_code (field 1 64 packet) ≡ some sent
      → spread_message s id packet ≡ some (all_sent sent, s)
  unfolding spread_message
  spread_message-sent sent e game there f =
      let its_world : world_of s (some p) ≡ some w = rw (game) there in
      ap (λ o. chat_in o (world_of s o)) e
      ∙ ap (λ o. chat_in (some p) o) its_world
      ∙ ap (λ t. with_effects s (sent_effects t)) f

module _ (crosslinks : Map (List ℕ)) (s : Server) (r : TagRecvData (List ℕ)) (p : Player)
    (w : GameWorld) where
  -- A chat message of a player of the server, in a game with a world where the members of all rooms
  -- are players of the server. The step does not fault and leaves the server as it is. Only in the
  -- state of one who is logged in does the message go to anybody: without a room's code to the
  -- members of all rooms of the game, and with one to those of that room, in order. In the state of
  -- one who is in a room, it goes to nobody.
  pub handle-chat :
      byte_at 0 r.packet ≡ opcode_chat
      → find_player (u32 r.ext_data) s.player_list ≡ some p
      → is_blank p.game_code ≡ false
      → get_game_world s p.game_code ≡ some w
      → Live s.player_list (members w.room_map)
      → (sent : List Sent) × (handle crosslinks s r ≡ some (all_sent sent, s))
        × (recipients sent ≡ (if p.user_state == user_state_logged_in then audience p w else []))
  unfolding handle
  handle-chat op e game there live =
      let q = player_state s (u32 r.ext_data) p e in
      elim (Bool-cases (p.user_state == user_state_logged_in)) [
        | inl l ↦
            let (sent, f, n) = world_message s.player_list w p (field 1 64 r.packet) live in
            (
              sent,
              rw (op, q, l)
                  (spread_message-sent s (u32 r.ext_data) r.packet p w sent e game there f),
              n ∙ rw (l) refl,
            )
        | inr other ↦ ([], rw (op, q, other) refl, rw (other) refl)
      ]
