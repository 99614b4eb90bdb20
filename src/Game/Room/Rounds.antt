-- ===== src/Game/Room/Rounds.antt =====
-- example/gameserver/game_room.cc: `connectPlayer` and then `disConnectPlayer`.
use sails.Prelude.{
  ℕ, ◌≡◌, refl, sym, ap, ◌∙◌, subst, true, false, none, some, List, [], ◌∷◌, ◌++◌, ◌==◌,
  if◌then◌else◌, arith, Bool-cases, inl, inr,
}
use sails.Game.Room.{
  Player, Players, GameRoom, Packet, Sent, recipients, state_success, disconnects, bssid,
  find_player, update_player, insert_id, erase_id, has_id, greet_loop, age_loop, connect_player,
  notify_loop, dis_connect_player, is_blank, user_state_logged_in,
}
use sails.Game.Room.Members.{
  Live, Aged, age_loop-Aged, has_id-insert_id, insert_id-increasing, is_increasing_from,
  erase_id-insert_id, find-update,
}
use sails.Game.Room.Host.{Host, Told, greet_loop-Host, in_head, Live-rest}

-- The room and the players once a player has joined.
pub record Joined (room : GameRoom) (ps : Players) (id : ℕ) (player : Player) (room' : GameRoom)
    (qs : Players) : Type 0 where
  pub members : room'.player_map ≡ insert_id id room.player_map
  pub same_code : room'.room_code ≡ room.room_code
  pub ordered : is_increasing_from 0 room'.player_map ≡ true
  pub live : Live qs room'.player_map
  pub joiner : Player
  pub found : find_player id qs ≡ some joiner
  pub in_room : joiner.room_code ≡ room.room_code
  pub same_game : joiner.game_code ≡ player.game_code

joined-Live :
    (ps : Players) (id : ℕ) (keys : List ℕ) (player : Player)
    → Live ps keys
    → find_player id ps ≡ some player
    → Live ps (insert_id id keys)
joined-Live ps id keys player live e i m = elim (Bool-cases (i == id)) [
  | inl same ↦ let c : id ≡ i = ground arith in (player, ap (λ j. find_player j ps) (sym c) ∙ e)
  | inr other ↦ live i (ground (arith, has_id-insert_id i id keys))
]

-- The player enters the room.
abbrev enter : GameRoom → Player → Player
enter room p = record p { room_code = room.room_code }

connect_player-steps :
    (room : GameRoom) (ps aged : Players) (id : ℕ) (player : Player) (sent : List Sent)
    (host : List ℕ)
    → find_player id ps ≡ some player
    → greet_loop ps id player room.player_map player.mac none ≡ some (sent, host)
    → age_loop (insert_id id room.player_map) ps ≡ some aged
    → connect_player room ps id
      ≡ some (
        true,
        sent ++ record { to = id; packet = bssid host } ∷ [],
        record room { player_map = insert_id id room.player_map },
        update_player id (enter room) aged,
      )
unfolding connect_player
connect_player-steps room ps aged id player sent host e f g = rw (e, f, g, connect_player) refl

-- The loop and the entry leave the pointers live.
updated-Live :
    (ps qs : Players) (id : ℕ) (f : Player → Player) (keys loop : List ℕ)
    → Live ps keys
    → ((i : ℕ) (p : Player)
        → find_player i ps ≡ some p
        → (q : Player) × (find_player i qs ≡ some q) × Aged i loop p q)
    → Live (update_player id f qs) keys
updated-Live ps qs id f keys loop live all i m =
    let (p, e) = live i m in
    let (q, g, _) = all i p e in (if id == i then f q else q, find-update i id f qs q g)

update_self :
    (qs : Players) (id : ℕ) (f : Player → Player) (q : Player)
    → find_player id qs ≡ some q
    → find_player id (update_player id f qs) ≡ some (f q)
update_self qs id f q e =
    let k : (id == id) ≡ true = ground arith in find-update id id f qs q e ∙ (rw k refl)

pub connect_player-Joined :
    (room : GameRoom) (ps : Players) (id : ℕ) (player : Player)
    → is_increasing_from 0 room.player_map ≡ true
    → Live ps room.player_map
    → find_player id ps ≡ some player
    → (sent : List Sent) × (host : List ℕ) × (room' : GameRoom) × (qs : Players) × (connect_player
          room ps id
        ≡ some (true, sent ++ record { to = id; packet = bssid host } ∷ [], room', qs))
      × Told ps id player room.player_map sent
      × Host ps room.player_map player.mac host
      × Joined room ps id player room' qs
connect_player-Joined room ps id player order live e =
    let keys : List ℕ = insert_id id room.player_map in
    let (sent, host, f, n, h) = greet_loop-Host ps id player room.player_map live in
    let new_live = joined-Live ps id room.player_map player live e in
    let (aged, g, all) = age_loop-Aged keys ps new_live in
    let (q, fq, a) = all id player e in
    (
      sent,
      host,
      record room { player_map = keys },
      update_player id (enter room) aged,
      connect_player-steps room ps aged id player sent host e f g,
      n,
      h,
      record {
        members = refl;
        same_code = refl;
        ordered = insert_id-increasing 0 id room.player_map order (omega arith);
        live = updated-Live ps aged id (enter room) keys keys new_live all;
        joiner = enter room q;
        found = update_self aged id (enter room) q fq;
        in_room = refl;
        same_game = a.same_game;
      },
    )

pub notify_loop-all :
    (ps : Players) (packet : Packet) (keys : List ℕ)
    → Live ps keys
    → (sent : List Sent) × (notify_loop ps packet keys ≡ some sent) × (recipients sent ≡ keys)
unfolding notify_loop
notify_loop-all ps packet [] live = ([], refl, refl)
notify_loop-all ps packet (x ∷ xs) live =
    let (p, e) = live x (in_head x xs) in
    let (sent, f, n) = notify_loop-all ps packet xs (Live-rest ps x xs live) in
    (record { to = x; packet = packet } ∷ sent, rw (e, f, notify_loop) refl, ap (λ t. x ∷ t) n)

-- What leaving does to the player.
abbrev leave : Player → Player
leave q = record q { room_code = []; user_state = user_state_logged_in }

dis_connect_player-steps :
    (room : GameRoom) (ps : Players) (id : ℕ) (p : Player) (sent : List Sent)
    → has_id id room.player_map ≡ true
    → find_player id ps ≡ some p
    → is_blank p.room_code ≡ false
    → is_blank p.game_code ≡ false
    → notify_loop (update_player id leave ps) (disconnects p.mac p.ip) (erase_id id room.player_map)
      ≡ some sent
    → dis_connect_player room ps id
      ≡ some (
        state_success,
        sent,
        record room { player_map = erase_id id room.player_map },
        update_player id leave ps,
      )
unfolding dis_connect_player
dis_connect_player-steps room ps id p sent m e r g f = rw (m, e, r, g, f, dis_connect_player) refl

left-Live :
    (qs : Players) (id : ℕ) (f : Player → Player) (keys : List ℕ)
    → Live qs (insert_id id keys)
    → Live (update_player id f qs) keys
left-Live qs id f keys live i m =
    let (q, g) = live i (ground (arith, has_id-insert_id i id keys)) in
    (if id == i then f q else q, find-update i id f qs q g)

-- A player in a game who has joined a room with a code, where he was not a member, can leave it
-- again: `disConnectPlayer` succeeds, a packet goes to each other member in order, the members
-- are those that there were before he joined, and their pointers are live.
pub dis_connect_player-Joined :
    (room room' : GameRoom) (ps qs : Players) (id : ℕ) (player : Player)
    → Joined room ps id player room' qs
    → has_id id room.player_map ≡ false
    → is_blank room.room_code ≡ false
    → is_blank player.game_code ≡ false
    → (sent : List Sent) × (left : Players) × (dis_connect_player room' qs id
        ≡ some (state_success, sent, record room' { player_map = room.player_map }, left))
      × (recipients sent ≡ room.player_map)
      × Live left room.player_map
dis_connect_player-Joined room room' ps qs id player j new code game =
    let back : erase_id id room'.player_map ≡ room.player_map =
      ap (erase_id id) j.members ∙ erase_id-insert_id id room.player_map new in
    let here : has_id id room'.player_map ≡ true =
      ap (has_id id) j.members ∙ has_id-insert_id id id room.player_map ∙ ground arith in
    let live = left-Live qs id leave room.player_map (subst (Live qs) j.members j.live) in
    let (sent, f, n) =
      notify_loop-all (update_player id leave qs) (disconnects j.joiner.mac j.joiner.ip)
        room.player_map live in
    (
      sent,
      update_player id leave qs,
      dis_connect_player-steps room' qs id j.joiner sent here j.found (ap is_blank j.in_room ∙ code)
            (ap is_blank j.same_game ∙ game)
            (ap (notify_loop (update_player id leave qs) (disconnects j.joiner.mac j.joiner.ip))
                back
              ∙ f)
          ∙ ap
              (λ keys. some (
                state_success,
                sent,
                record room' { player_map = keys },
                update_player id leave qs,
              ))
              back,
      n,
      live,
    )
