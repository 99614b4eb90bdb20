-- ===== src/Game/Server/Dangling.antt =====
-- example/gameserver/server.cc and game_room.cc: a second login, and then a logout.
--
-- `Parse` lets a login pass by the state that the player has when it arrives, so a login behind a
-- login and a connect that have not been handled yet passes, and is handled in a room.
use sails.Prelude.{
  ℕ, ◌≡◌, refl, ap, ◌∙◌, true, false, Option, none, some, List, [], ◌∷◌, arith, ◌==◌, if◌then◌else◌,
  Bool-cases, Option-cases, inl, inr,
}
use sails.Prelude.Words.{u32}
use sails.Net.HandleThread.{TagRecvData}
use sails.Game.Maps.{Map}
use sails.Game.Room
use sails.Game.Room.{
  Player, Players, GameRoom, Sent, find_player, update_player, insert_id, has_id, greet_loop,
  is_older, user_state_logged_in,
}
use sails.Game.World
use sails.Game.World.{GameWorld, get_game_room, with_room, joined_in}
use sails.Game.Parse.{opcode_login}
use sails.Game.Fields.{is_login, field, byte_at, c_str}
use sails.Game.Server.{
  Server, Effect, checks_session, handle, game_product_override, get_game_world, get_player_state,
  delete_player, opcode_logout, user_state_dic_conn, logged_in,
}
use sails.Game.Server.Login.{handle-LoggedBy}

find-delete : (id : ℕ) (ps : Players) → find_player id (delete_player id ps) ≡ none
unfolding find_player delete_player
find-delete id [] = refl
find-delete id ((key, p) ∷ ps) = ground (arith, find-delete id ps)

find-delete_other :
    (id other : ℕ) (ps : Players)
    → (other == id) ≡ false
    → find_player other (delete_player id ps) ≡ find_player other ps
unfolding find_player delete_player
find-delete_other id other [] d = refl
find-delete_other id other ((key, p) ∷ ps) d = ground (arith, d, find-delete_other id other ps d)

find-update_other :
    (id other : ℕ) (f : Player → Player) (ps : Players)
    → (other == id) ≡ false
    → find_player other (update_player id f ps) ≡ find_player other ps
unfolding find_player update_player
find-update_other id other f [] d = refl
find-update_other id other f ((key, p) ∷ ps) d =
    ground (arith, d, find-update_other id other f ps d)

-- A member that is no longer a player is a fault for the next who joins.
greet_loop-missing :
    (ps : Players) (id x : ℕ) (player : Player) (keys host : List ℕ) (age : Option ℕ)
    → has_id x keys ≡ true
    → find_player x ps ≡ none
    → greet_loop ps id player keys host age ≡ none
unfolding greet_loop has_id find_player
greet_loop-missing ps id x player [] host age h e = absurd (ground arith)
greet_loop-missing ps id x player (k ∷ keys) host age h e = elim (Option-cases (find_player k ps)) [
  | inl q ↦ rw (q, greet_loop) refl
  | inr (peer, q) ↦ elim (Bool-cases (k == x)) [
    | inl same ↦
        let c : k ≡ x = ground arith in absurd (ground (arith, ap (λ i. find_player i ps) c, q, e))
    | inr other ↦
        let rest =
          greet_loop-missing ps id x player keys (if is_older peer.age age then peer.mac else host)
            (if is_older peer.age age then some peer.age else age) (ground arith) e in
        rw (q, rest, greet_loop) refl
  ]
]

room_connect-missing :
    (room : GameRoom) (ps : Players) (id x : ℕ) (player : Player)
    → has_id x room.player_map ≡ true
    → find_player x ps ≡ none
    → find_player id ps ≡ some player
    → Room.connect_player room ps id ≡ none
unfolding Room.connect_player
room_connect-missing room ps id x player h e f =
    rw
      (
        f,
        greet_loop-missing ps id x player room.player_map player.mac none h e,
        Room.connect_player,
      )
      refl

world_connect-missing :
    (w : GameWorld) (code : List ℕ) (room : GameRoom) (ps : Players) (id x : ℕ) (player : Player)
    → get_game_room w code ≡ some room
    → has_id x room.player_map ≡ true
    → find_player x ps ≡ none
    → find_player id ps ≡ some player
    → World.connect_player w ps id code ≡ none
unfolding World.connect_player with_room
world_connect-missing w code room ps id x player r h e f =
    ap
      (λ o.
        joined_in (World.with_room w code o).1 code
          (Room.connect_player (World.with_room w code o).0 ps id))
      r
    ∙ ap (joined_in w code) (room_connect-missing room ps id x player h e f)

handle-logout :
    (crosslinks : Map (List ℕ)) (s : Server) (r : TagRecvData (List ℕ))
    → byte_at 0 r.packet ≡ opcode_logout
    → get_player_state s (u32 r.ext_data) ≡ user_state_logged_in
    → handle crosslinks s r
      ≡ some ([], record s { player_list = delete_player (u32 r.ext_data) s.player_list })
unfolding handle
handle-logout crosslinks s r op e = rw (op, e) refl

module _ (crosslinks : Map (List ℕ)) (s : Server) (first second : TagRecvData (List ℕ)) where
  -- A player of the server is a member of a room of a world, and another is a player of the server.
  -- A valid login packet of the first is handled,
  -- and then the logout that follows when his connection closes. Both steps do not fault. Then the player
  -- is gone, and the world still has the room with his id, so that it is a fault when the other joins that
  -- room: the room reads him through a pointer to what was deleted.
  pub handle-dangling :
      (p q : Player) (w : GameWorld) (game code : List ℕ) (room : GameRoom) (other : ℕ)
      → byte_at 0 first.packet ≡ opcode_login
      → byte_at 0 second.packet ≡ opcode_logout
      → u32 second.ext_data ≡ u32 first.ext_data
      → is_login first.packet ≡ true
      → find_player (u32 first.ext_data) s.player_list ≡ some p
      → get_game_world s game ≡ some w
      → get_game_room w code ≡ some room
      → has_id (u32 first.ext_data) room.player_map ≡ true
      → (other == u32 first.ext_data) ≡ false
      → find_player other s.player_list ≡ some q
      → (effects : List Effect) × (t : Server) × (u : Server) × (handle crosslinks s first
          ≡ some (effects, t))
        × (handle crosslinks t second ≡ some ([], u))
        × (find_player (u32 first.ext_data) u.player_list ≡ none)
        × (get_game_world u game ≡ some w)
        × (World.connect_player w u.player_list other code ≡ none)
  unfolding get_player_state get_game_world
  handle-dangling p q w game code room other op op' same valid e f g h d k =
      elim (handle-LoggedBy crosslinks s first p op e) [
        | inr (wrong, _) ↦ absurd (ground arith)
        | inl (_, t, steps, l) ↦
            let id : ℕ = u32 first.ext_data in
            let u : Server = record t { player_list = delete_player id t.player_list } in
            let gone : find_player id u.player_list ≡ none = find-delete id t.player_list in
            let state : get_player_state t (u32 second.ext_data) ≡ user_state_logged_in =
              ap (get_player_state t) same
              ∙ ap (λ o. elim o [ none ↦ user_state_dic_conn | some z ↦ z.user_state ]) l.player in
            (
              checks_session id (c_str (field 144 100 first.packet)) ∷ [],
              t,
              u,
              steps,
              handle-logout crosslinks t second op' state
                  ∙ ap (λ i. some ([], record t { player_list = delete_player i t.player_list }))
                      same,
              gone,
              l.worlds game w f,
              world_connect-missing w code room u.player_list other id q g h gone (
                  find-delete_other id other t.player_list d
                  ∙ ap (find_player other) l.players
                  ∙ find-update_other id other
                      (logged_in (game_product_override crosslinks (field 135 9 first.packet))
                        first.packet)
                      s.player_list d
                  ∙ k),
            )
      ]
