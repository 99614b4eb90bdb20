-- ===== src/Game/World/Rooms.antt =====
-- example/gameserver/game_world.cc: a room is found under its code, and the other rooms are as they
-- were.
use sails.Prelude.{
  ℕ, ◌≡◌, refl, ap, ◌∙◌, Bool, true, false, Option, none, some, List, [], ◌∷◌, ◌++◌,
}
use sails.Game.Maps
use sails.Game.Maps.{find-insert, find-set, find-insert_other, find-set_other}
use sails.Game.Room
use sails.Game.Room.{
  GameRoom, Player, Players, Sent, bssid, same_bytes, find_player, recipients, state_success,
  has_id, is_blank,
}
use sails.Game.Room.Members.{Live, is_increasing_from}
use sails.Game.Room.Rounds.{Joined, connect_player-Joined, dis_connect_player-Joined}
use sails.Game.World.{
  GameWorld, get_game_room, create_game_room, with_room, empty_room, set_in, joined_in, left_in,
  leave_room, connect_player, dis_connect_player,
}

-- The world once the room with the code is `changed`: it is found, and the other rooms are the same.
pub record Kept (w u : GameWorld) (code : List ℕ) (changed : GameRoom) : Type 0 where
  pub found : get_game_room u code ≡ some changed
  pub others :
      (other : List ℕ)
      → same_bytes code other ≡ false
      → get_game_room u other ≡ get_game_room w other

-- A room that is found, or an empty one.
abbrev pub room_for : GameWorld → List ℕ → GameRoom
room_for w code = (with_room w code (get_game_room w code)).0

abbrev pub replaced : GameWorld → List ℕ → GameRoom → GameWorld
replaced w code changed = set_in (with_room w code (get_game_room w code)).1 code changed

set_in-Kept :
    (w : GameWorld) (code : List ℕ) (room changed : GameRoom)
    → get_game_room w code ≡ some room
    → Kept w (set_in w code changed) code changed
unfolding get_game_room
set_in-Kept w code room changed e = record {
  found = find-set code room changed w.room_map e;
  others = λ other d. find-set_other code other changed w.room_map d;
}

replaced-Kept_of :
    (w : GameWorld) (code : List ℕ) (changed : GameRoom) (o : Option GameRoom)
    → get_game_room w code ≡ o
    → Kept w (set_in (with_room w code o).1 code changed) code changed
unfolding with_room create_game_room get_game_room
replaced-Kept_of w code changed (some room) e = set_in-Kept w code room changed e
replaced-Kept_of w code changed none e = record {
  found =
      find-set code (empty_room code) changed (Maps.insert code (empty_room code) w.room_map)
        (find-insert code (empty_room code) w.room_map e);
  others = λ other d.
      find-set_other code other changed (Maps.insert code (empty_room code) w.room_map) d
      ∙ find-insert_other code other (empty_room code) w.room_map d;
}

replaced-Kept :
    (w : GameWorld) (code : List ℕ) (changed : GameRoom)
    → Kept w (replaced w code changed) code changed
replaced-Kept w code changed = replaced-Kept_of w code changed (get_game_room w code) refl

module _ (w : GameWorld) (players : Players) (id : ℕ) (code : List ℕ) where
  connect_player-by_room :
      (ok : Bool) (sent : List Sent) (changed : GameRoom) (left : Players)
      → Room.connect_player (room_for w code) players id ≡ some (ok, sent, changed, left)
      → connect_player w players id code ≡ some (ok, sent, replaced w code changed, left)
  unfolding connect_player
  connect_player-by_room ok sent changed left e =
      ap (joined_in (with_room w code (get_game_room w code)).1 code) e

  -- A player of the server joins the room with a code, which is made where there is none, and whose
  -- ids are in order and whose pointers are live. The call does not fault and answers true, the room
  -- that is found under the code is the one he joined, and under every other code is found what was.
  pub connect_player-Kept :
      (player : Player)
      → is_increasing_from 0 (room_for w code).player_map ≡ true
      → Live players (room_for w code).player_map
      → find_player id players ≡ some player
      → (sent : List Sent) × (u : GameWorld) × (left : Players) × (changed : GameRoom)
        × (connect_player w players id code ≡ some (true, sent, u, left))
        × Kept w u code changed
        × Joined (room_for w code) players id player changed left
  connect_player-Kept player order live e =
      let (sent, host, changed, left, q, _, _, joined) =
        connect_player-Joined (room_for w code) players id player order live e in
      let all = sent ++ record { to = id; packet = bssid host } ∷ [] in
      (
        all,
        replaced w code changed,
        left,
        changed,
        connect_player-by_room true all changed left q,
        replaced-Kept w code changed,
        joined,
      )

  -- A player in a game, who is not a member of the room with a code, joins it as above, where the
  -- code is not empty, and leaves it. Neither call faults, he leaves with success, a packet goes to
  -- each other member, the room has the members that it had, and under every other code is found
  -- what was.
  pub dis_connect_player-connect_player :
      (player : Player)
      → is_increasing_from 0 (room_for w code).player_map ≡ true
      → Live players (room_for w code).player_map
      → find_player id players ≡ some player
      → has_id id (room_for w code).player_map ≡ false
      → is_blank (room_for w code).room_code ≡ false
      → is_blank player.game_code ≡ false
      → (sent : List Sent) × (u : GameWorld) × (joined : Players) × (connect_player w players id
            code
          ≡ some (true, sent, u, joined))
        × (told : List Sent) × (v : GameWorld) × (left : Players) × (room : GameRoom)
        × (dis_connect_player u joined id code ≡ some (state_success, told, v, left))
        × (recipients told ≡ (room_for w code).player_map)
        × (room.player_map ≡ (room_for w code).player_map)
        × Kept w v code room
  unfolding dis_connect_player
  dis_connect_player-connect_player player order live e new named game =
      let (sent, u, joined, changed, q, kept, j) = connect_player-Kept player order live e in
      let (told, left, r, n, _) =
        dis_connect_player-Joined (room_for w code) changed players joined id player j new named
          game in
      let room : GameRoom = record changed { player_map = (room_for w code).player_map } in
      let after = set_in-Kept u code changed room kept.found in
      (
        sent,
        u,
        joined,
        q,
        told,
        set_in u code room,
        left,
        room,
        ap (leave_room u joined id code) kept.found ∙ ap (left_in u code) r,
        n,
        refl,
        record {
          found = after.found;
          others = λ other d. after.others other d ∙ kept.others other d;
        },
      )
