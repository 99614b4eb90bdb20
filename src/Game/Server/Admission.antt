-- ===== src/Game/Server/Admission.antt =====
-- example/gameserver/server.cc: a login from the parts of its packet.
use sails.Prelude.{
  ℕ, ◌≡◌, ◌≢◌, ◌⊎◌, inl, inr, refl, sym, ap, ◌∙◌, subst, true, false, if◌then◌else◌, Option, none,
  some, List, [], ◌∷◌, arith,
}
use sails.Prelude.Words.{u32}
use sails.Net.HandleThread.{TagRecvData}
use sails.Game.Maps
use sails.Game.Maps.{Map}
use sails.Game.Room.{Player, Players, find_player, update_player, is_blank}
use sails.Game.World.{GameWorld}
use sails.Game.Parse.{opcode_login}
use sails.Game.Fields.{field, byte_at, c_str}
use sails.Game.Addresses.{get_mac_str}
use sails.Game.Server.{
  Server, closes, checks_session, handle, game_product_override, get_game_world, logged_in,
}
use sails.Game.Server.Login.{handle-LoggedBy}
use sails.Game.Server.Credentials.{LoginParts, Holds, Valid, c_str-code, no_zero-c_str}
use sails.Game.Server.Parts.{mac-field, game-field, session-field, is_login-Valid, Valid-is_login}

true-false : true ≡ false → ⊥
true-false e = cc

-- The code of the game: the one that the table of crosslinks gives, or the code of the packet.
pub data CodeOf (crosslinks : Map (List ℕ)) (game : List ℕ) : List ℕ → Type 0 where
  own : Maps.find game crosslinks ≡ none → CodeOf crosslinks game game
  blank : Maps.find game crosslinks ≡ some [] → CodeOf crosslinks game game
  linked :
      (x : ℕ) (xs : List ℕ)
      → Maps.find game crosslinks ≡ some (x ∷ xs)
      → CodeOf crosslinks game (x ∷ xs)

code-CodeOf :
    (crosslinks : Map (List ℕ)) (game : List ℕ) (o : Option (List ℕ))
    → Maps.find game crosslinks ≡ o
    → CodeOf crosslinks game
        (elim o [ none ↦ game | some link ↦ if is_blank link then game else link ])
code-CodeOf crosslinks game none e = own e
code-CodeOf crosslinks game (some []) e = blank e
code-CodeOf crosslinks game (some (x ∷ xs)) e = linked x xs e

game_product_override-CodeOf :
    (crosslinks : Map (List ℕ)) (game : List ℕ)
    → c_str game ≡ game
    → CodeOf crosslinks game (game_product_override crosslinks game)
unfolding game_product_override
game_product_override-CodeOf crosslinks game e =
    subst
      (λ g. CodeOf crosslinks game (elim (Maps.find g crosslinks) [
        | none ↦ g
        | some link ↦ if is_blank link then g else link
      ]))
      (sym e) (code-CodeOf crosslinks game (Maps.find game crosslinks) refl)

find-update_other :
    (id k : ℕ) (f : Player → Player) (ps : Players)
    → k ≢ id
    → find_player k (update_player id f ps) ≡ find_player k ps
unfolding find_player update_player
find-update_other id k f [] h = refl
find-update_other id k f ((key, q) ∷ ps) h = ground (arith, find-update_other id k f ps h, h)

-- A player who is logged in.
abbrev pub admitted : List ℕ → List ℕ → List ℕ → Player → Player
admitted mac code token p = record p {
  mac = get_mac_str mac;
  user_state = 1;
  game_code = code;
  session = token;
}

-- The server after the login of a player, from the parts of his packet.
pub record LoggedIn (crosslinks : Map (List ℕ)) (s : Server) (id : ℕ) (p : Player)
    (mac game token : List ℕ) (t : Server) : Type 0 where
  pub code : List ℕ
  pub coded : CodeOf crosslinks game code
  pub player : find_player id t.player_list ≡ some (admitted mac code token p)
  pub others : (k : ℕ) → k ≢ id → find_player k t.player_list ≡ find_player k s.player_list
  pub world : (w : GameWorld) × (get_game_world t code ≡ some w)
  pub worlds :
      (c : List ℕ) (w : GameWorld) → get_game_world s c ≡ some w → get_game_world t c ≡ some w

module _ (crosslinks : Map (List ℕ)) (s : Server) (r : TagRecvData (List ℕ)) (p : Player)
    (mac name game session : List ℕ) (l : LoginParts r.packet mac name game session) where
  login_op : byte_at 0 r.packet ≡ opcode_login
  login_op = ap (byte_at 0) l.cut

  -- A login packet of a player of the server, cut into its parts. If it is valid, the token of its
  -- session is to be checked, and the player is logged in with his mac, that token and the game
  -- that the code of the packet or its crosslink names, whatever his state was before; that game
  -- has a world then, and the other players and the worlds that were are kept. If it is not valid,
  -- the server is as it was, and his connection is to be closed.
  pub handle-LoggedIn :
      find_player (u32 r.ext_data) s.player_list ≡ some p
      → (Valid mac name game session
          × (token : List ℕ) × (t : Server) × Holds session token
          × (handle crosslinks s r ≡ some (checks_session (u32 r.ext_data) token ∷ [], t))
          × LoggedIn crosslinks s (u32 r.ext_data) p mac game token t)
        ⊎ ((Valid mac name game session → ⊥)
            × (handle crosslinks s r ≡ some (closes p.ip p.port p.connector_uid p.fd ∷ [], s)))
  handle-LoggedIn e = elim (handle-LoggedBy crosslinks s r p login_op e) [
    | inl (valid, t, done_so, by) ↦
        let v = is_login-Valid r.packet mac name game session l valid in
        let same_game = game-field r.packet mac name game session l in
        let same_mac = mac-field r.packet mac name game session l in
        let (token, n, held) = v.token in
        let same_token : c_str (field 144 100 r.packet) ≡ token =
          ap c_str (session-field r.packet mac name game session l)
          ∙ ap c_str held.cut
          ∙ no_zero-c_str token held.rest held.no_zero in
        let code : List ℕ = game_product_override crosslinks (field 135 9 r.packet) in
        inl (
          v,
          token,
          t,
          held,
          done_so ∙ ap (λ z. some (checks_session (u32 r.ext_data) z ∷ [], t)) same_token,
          record {
            code = code;
            coded =
                subst (CodeOf crosslinks game)
                  (ap (game_product_override crosslinks) (sym same_game))
                  (game_product_override-CodeOf crosslinks game (c_str-code game v.code));
            player =
                by.player
                ∙ ap (λ m. some (admitted m code (c_str (field 144 100 r.packet)) p)) same_mac
                ∙ ap (λ z. some (admitted mac code z p)) same_token;
            others = λ k h.
                ap (find_player k) by.players
                ∙ find-update_other (u32 r.ext_data) k (logged_in code r.packet) s.player_list h;
            world = by.world;
            worlds = by.worlds;
          },
        )
    | inr (wrong, done_so) ↦
        inr (
          λ v. true-false (sym (Valid-is_login r.packet mac name game session l v) ∙ wrong),
          done_so,
        )
  ]
