-- ===== src/Game/Server/Queries.antt =====
-- example/gameserver/server.cc: what the thread of the statistics asks the server.
use sails.Prelude.{Option, none, some, List, [], ◌∷◌, ◌++◌, ℕ}
use sails.Game.Maps.{Map}
use sails.Game.Room.{Players}
use sails.Game.World
use sails.Game.World.{GameWorld}
use sails.Game.Server.{Server, get_game_world}

-- The loop of `GetPlayerSession`.
unfoldable pub all_sessions : Players → Map GameWorld → Option (List (List ℕ))
all_sessions players [] = some []
all_sessions players ((code, w) ∷ worlds) =
    let rest = all_sessions players worlds in
    elim (World.get_sessions w players) [
      | none ↦ none
      | some ss ↦ elim rest [ none ↦ none | some more ↦ some (ss ++ more) ]
    ]

unfoldable pub get_player_session : Server → Option (List (List ℕ))
unfolding all_sessions
get_player_session s = all_sessions s.player_list s.game_world_map

abbrev pub codes_of : Map GameWorld → List (List ℕ)
codes_of [] = []
codes_of ((code, w) ∷ worlds) = code ∷ codes_of worlds

unfoldable pub get_game_world_list : Server → List (List ℕ)
get_game_world_list s = codes_of s.game_world_map

unfoldable pub get_player_name_map : Server → List ℕ → Option (Map (List (List ℕ)))
unfolding get_game_world
get_player_name_map s code = elim (get_game_world s code) [
  | none ↦ some []
  | some w ↦ World.get_player_name_map w s.player_list
]
