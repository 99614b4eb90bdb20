-- ===== src/Net/ConnectorList/Samples.antt =====
-- net/connector_list.cc: a table of two slots, empty, and with one connection.
use sails.Prelude.{◌≡◌, refl, subst, none, some, [], ◌∷◌, arith}
use sails.Prelude.Int.{pos}
use sails.Prelude.Counts.{count, range_from, erase}
use sails.Base.Buffer.{new_buffer}
use sails.Net.Connector.{Connector, new_connector}
use sails.Net.ConnectorList.{ConnectorList, new_list, init, insert, get_uniq_id, add}
use sails.Net.ConnectorList.Invariant.{Inv, Timed, init-Inv}
use sails.Net.ConnectorList.Traffic.{Step, Reach, Reach-Timed}

-- At second 5, index 3.
abbrev pub fresh : ConnectorList
fresh = record {
  total = 2;
  free = 1 ∷ 2 ∷ [];
  free_size = 2;
  vconn = none ∷ none ∷ none ∷ [];
  tl = [];
  next_node = 0;
  last_timeout_time = 5;
  magic = 0x05300000;
}

unfoldable pub conn : Connector
unfolding new_connector new_buffer
conn = record (new_connector (pos 9) 0 60 0) {
  id = 0x05300001;
  ip = 49 ∷ 50 ∷ [];
  port = 80;
  listen_fd = pos 4;
}

abbrev pub issued_one : ConnectorList
issued_one = record fresh { free = 2 ∷ []; free_size = 1 }

abbrev pub added_one : ConnectorList
added_one = record issued_one {
  vconn = none ∷ some (record { conn = conn; timer = 0 }) ∷ none ∷ [];
  tl = record { node = 0; time = 65; uid = 1 } ∷ [];
  next_node = 1;
}

fresh-init : init new_list 2 3 5 ≡ fresh
unfolding init new_list range_from
fresh-init = refl

pub fresh-Inv : Inv fresh [] × Timed fresh
fresh-Inv = subst (λ l. Inv l [] × Timed l) fresh-init (init-Inv 2 3 5 (omega arith))

pub fresh-issue : get_uniq_id fresh ≡ some (0x05300001, issued_one)
unfolding get_uniq_id
fresh-issue = refl

pub issued_one-add : add issued_one conn 65 ≡ some added_one
unfolding add insert conn new_connector new_buffer
issued_one-add = refl

pub issued_one-Inv : Inv issued_one (1 ∷ []) × Timed issued_one
issued_one-Inv =
    Reach-Timed {s = (fresh, [])} {t = (issued_one, 1 ∷ [])} fresh-Inv.0 fresh-Inv.1
      (Reach.next Reach.here (Step.issues fresh issued_one [] 0x05300001 fresh-issue))

pub added_one-Inv : Inv added_one [] × Timed added_one
unfolding erase count conn
added_one-Inv =
    Reach-Timed {s = (issued_one, 1 ∷ [])} {t = (added_one, [])} issued_one-Inv.0 issued_one-Inv.1 (
      Reach.next Reach.here
        (Step.adds issued_one added_one (1 ∷ []) conn 65 (omega arith) issued_one-add))
