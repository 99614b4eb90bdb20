-- ===== src/Game/Server/Login.antt =====
-- example/gameserver/server.cc: a login, valid or not.
use sails.Prelude.{
  ℕ, ◌≡◌, ◌⊎◌, inl, inr, refl, ap, ◌∙◌, true, false, Option, none, some, List, [], ◌∷◌, arith,
  Bool-cases,
}
use sails.Prelude.Words.{u32}
use sails.Net.HandleThread.{TagRecvData}
use sails.Game.Maps
use sails.Game.Maps.{Map, find-insert, find-insert_other, same_bytes_eq}
use sails.Game.Room.{Player, Players, find_player, update_player, same_bytes}
use sails.Game.World.{GameWorld, new_world}
use sails.Game.Parse.{opcode_login}
use sails.Game.Fields.{is_login, field, byte_at, c_str}
use sails.Game.Server.{
  Server, closes, checks_session, handle, login_user_data, game_product_override, get_game_world,
  create_game_world, ensure_world, kill_off_player, logged_in,
}

pub find-update_self :
    (id : ℕ) (f : Player → Player) (ps : Players) (p : Player)
    → find_player id ps ≡ some p
    → find_player id (update_player id f ps) ≡ some (f p)
unfolding find_player update_player
find-update_self id f [] p e = absurd (ground arith)
find-update_self id f ((key, q) ∷ ps) p e = ground (arith, find-update_self id f ps p)

-- The world of a game is there once it is ensured, and the worlds that were there still are.
ensured :
    (s : Server) (code : List ℕ) (o : Option GameWorld)
    → get_game_world s code ≡ o
    → ((w : GameWorld) × (get_game_world (ensure_world s code o) code ≡ some w))
      × ((c : List ℕ) (w : GameWorld)
          → get_game_world s c ≡ some w
          → get_game_world (ensure_world s code o) c ≡ some w)
unfolding ensure_world get_game_world create_game_world
ensured s code (some w) e = ((w, e), λ c v f. f)
ensured s code none e = (
  (new_world code, find-insert code (new_world code) s.game_world_map e),
  λ c w f. elim (Bool-cases (same_bytes code c)) [
    | inl same ↦
        absurd
          (ground (arith, ap (λ k. Maps.find k s.game_world_map) (same_bytes_eq code c same), e, f))
    | inr other ↦ find-insert_other code c (new_world code) s.game_world_map other ∙ f
  ],
)

pub kill_off_player-closes :
    (s : Server) (id : ℕ) (p : Player)
    → find_player id s.player_list ≡ some p
    → kill_off_player s id ≡ closes p.ip p.port p.connector_uid p.fd ∷ []
unfolding kill_off_player
kill_off_player-closes s id p e =
    ap (λ o. elim o [ none ↦ [] | some q ↦ closes q.ip q.port q.connector_uid q.fd ∷ [] ]) e

-- The server after the login of a player.
pub record LoggedBy (s : Server) (id : ℕ) (p : Player) (code packet : List ℕ) (t : Server)
    : Type 0 where
  pub player : find_player id t.player_list ≡ some (logged_in code packet p)
  pub players : t.player_list ≡ update_player id (logged_in code packet) s.player_list
  pub world : (w : GameWorld) × (get_game_world t code ≡ some w)
  pub worlds :
      (c : List ℕ) (w : GameWorld) → get_game_world s c ≡ some w → get_game_world t c ≡ some w

module _ (crosslinks : Map (List ℕ)) (s : Server) (r : TagRecvData (List ℕ)) (p : Player) where
  pub handle-LoggedBy :
      byte_at 0 r.packet ≡ opcode_login
      → find_player (u32 r.ext_data) s.player_list ≡ some p
      → ((is_login r.packet ≡ true)
          × (t : Server) × (handle crosslinks s r
              ≡ some (checks_session (u32 r.ext_data) (c_str (field 144 100 r.packet)) ∷ [], t))
          × LoggedBy s
              (u32 r.ext_data)
              p
              (game_product_override crosslinks (field 135 9 r.packet))
              r.packet
              t)
        ⊎ ((is_login r.packet ≡ false)
            × (handle crosslinks s r ≡ some (closes p.ip p.port p.connector_uid p.fd ∷ [], s)))
  unfolding handle login_user_data
  handle-LoggedBy op e =
      let id : ℕ = u32 r.ext_data in
      let code : List ℕ = game_product_override crosslinks (field 135 9 r.packet) in
      let (there, kept) = ensured s code (get_game_world s code) refl in
      elim (Bool-cases (is_login r.packet)) [
        | inl valid ↦ inl (
          valid,
          record (ensure_world s code (get_game_world s code)) {
            player_list = update_player id (logged_in code r.packet) s.player_list;
          },
          rw (op, valid, e) refl,
          record {
            player = find-update_self id (logged_in code r.packet) s.player_list p e;
            players = refl;
            world = there;
            worlds = kept;
          },
        )
        | inr wrong ↦
            inr (wrong, rw (op, wrong) (ap (λ es. some (es, s)) (kill_off_player-closes s id p e)))
      ]
