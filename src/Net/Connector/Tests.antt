-- ===== src/Net/Connector/Tests.antt =====
-- net/connector.cc: one connection that sends twice, the first time in part.
use sails.Prelude.{ℕ, ◌≡◌, refl, true, some, none, List, [], ◌∷◌, ◌++◌, arith}
use sails.Prelude.Int.{pos}
use sails.Base.Buffer.{new_buffer, unread}
use sails.Base.Buffer.Contents.{Inv}
use sails.Net.Connector.{Connector, is_open, new_connector}
use sails.Net.Connector.Stream.{Io, writes, sends, run, run-written}

abbrev conn : Connector
unfolding new_connector new_buffer
conn = new_connector (pos 7) 0 0 0

abbrev ops : List Io
ops = writes (1 ∷ 2 ∷ 3 ∷ []) ∷ sends (some 2) ∷ writes (4 ∷ []) ∷ sends none ∷ []

run-written_example :
    (out : List ℕ) × (d : Connector) × (run conn ops ≡ some (out, d))
    × Inv d.out_buf
    × (is_open d ≡ true)
    × (out ++ unread d.out_buf ≡ 1 ∷ 2 ∷ 3 ∷ 4 ∷ [])
unfolding conn new_connector new_buffer
run-written_example =
    run-written conn ops
      (record { ordered = omega arith; within = omega arith; small = omega arith }) refl
      (omega arith)
