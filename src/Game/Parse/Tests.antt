-- ===== src/Game/Parse/Tests.antt =====
-- example/gameserver/server.cc: a connection with two packets, and the theorems at it.
use sails.Prelude.{ℕ, ◌≡◌, refl, false, List, [], ◌∷◌, arith, length}
use sails.Prelude.Int.{pos}
use sails.Base.Buffer.{new_buffer}
use sails.Base.Buffer.Contents
use sails.Net.Connector
use sails.Net.Connector.{Connector, new_connector}
use sails.Game.Parse.{parse, verdict, apply, opcode_login, opcode_ping}
use sails.Game.Parse.Frames.{Framed, parse-Framed}

abbrev conn : List ℕ → Connector
unfolding new_connector new_buffer
conn xs = record (new_connector (pos 9) 0 60 0) {
  in_buf = record { bytes = xs; read_index = 0; write_index = length xs };
}

abbrev logged_in : ℕ → ℕ
logged_in id = 1

-- A ping, and behind it the opcode of a login.
abbrev two : Connector
two = conn (opcode_ping ∷ opcode_login ∷ [])

two-Inv : Contents.Inv two.in_buf
unfolding conn new_connector new_buffer
two-Inv = record { ordered = omega arith; within = omega arith; small = omega arith }

parse-Framed_example : Framed two (opcode_ping ∷ []) (Connector.retrieve two 1) × (false ≡ false)
unfolding parse verdict apply two conn new_connector new_buffer
parse-Framed_example =
    parse-Framed logged_in two (Connector.retrieve two 1) (opcode_ping ∷ []) false two-Inv refl
