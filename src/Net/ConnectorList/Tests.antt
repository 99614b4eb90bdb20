-- ===== src/Net/ConnectorList/Tests.antt =====
-- net/connector_list.cc: a table of two slots with one connection, and the theorems at it.
use sails.Prelude.{ℕ, ◌≡◌, refl, true, none, some, List, [], ◌∷◌, arith}
use sails.Prelude.Counts.{count, range_from, erase}
use sails.Base.Buffer.{new_buffer}
use sails.Net.Connector.{new_connector, set_timeout}
use sails.Net.ConnectorList.{
  ConnectorList, new_list, init, insert, erase_node, get_uniq_id, add, refresh, check_timeout,
  check_loop, del,
}
use sails.Net.ConnectorList.Samples.{
  fresh, conn, issued_one, added_one, fresh-Inv, fresh-issue, issued_one-add, issued_one-Inv,
  added_one-Inv,
}
use sails.Net.ConnectorList.Invariant.{Inv, Timed}
use sails.Net.ConnectorList.Ownership.{add-Inv}
use sails.Net.ConnectorList.Check.{check_timeout-Closes, Closes}
use sails.Net.ConnectorList.Traffic.{Unowned, get_uniq_id-Unowned, Step, Reach, Reach-Timed}

abbrev refreshed_one : ConnectorList
refreshed_one = record added_one {
  vconn =
      none ∷ some (record { conn = record conn { last_refresh_time = 70 }; timer = 1 }) ∷ none ∷ [];
  tl = record { node = 1; time = 70; uid = 1 } ∷ [];
  next_node = 2;
}

abbrev closed_one : ConnectorList
closed_one = record refreshed_one {
  vconn =
      none
      ∷ some
          (record { conn = record conn { last_refresh_time = 70; is_timeout = true }; timer = 1 })
      ∷ none
      ∷ [];
  last_timeout_time = 71;
}

added_one-refresh : refresh added_one 0x05300001 70 ≡ some refreshed_one
unfolding refresh insert erase_node conn new_connector new_buffer
added_one-refresh = refl

refreshed_one-early :
    check_timeout refreshed_one 69 ≡ some ([], record refreshed_one { last_timeout_time = 69 })
unfolding check_timeout check_loop conn new_connector new_buffer set_timeout
refreshed_one-early = refl

refreshed_one-check : check_timeout refreshed_one 71 ≡ some (1 ∷ [], closed_one)
unfolding check_timeout check_loop conn new_connector new_buffer set_timeout
refreshed_one-check = refl

closed_one-del :
    del closed_one 0x05300001
    ≡ some (record fresh { free = 2 ∷ 1 ∷ []; next_node = 2; last_timeout_time = 71 })
unfolding del erase_node conn new_connector new_buffer
closed_one-del = refl

Reach-Timed_example : Inv closed_one [] × Timed closed_one
unfolding erase count conn
Reach-Timed_example = Reach-Timed {s = (fresh, [])} {t = (closed_one, [])} fresh-Inv.0 fresh-Inv.1 (
    Reach.next
      (Reach.next
        (Reach.next (Reach.next Reach.here (Step.issues fresh issued_one [] 0x05300001 fresh-issue))
          (Step.adds issued_one added_one (1 ∷ []) conn 65 (omega arith) issued_one-add))
        (Step.refreshes added_one refreshed_one [] 0x05300001 70 added_one-refresh))
      (Step.checks refreshed_one closed_one [] (1 ∷ []) 71 refreshed_one-check))

refreshed_one-Inv : Inv refreshed_one [] × Timed refreshed_one
refreshed_one-Inv =
    Reach-Timed {s = (added_one, [])} {t = (refreshed_one, [])} added_one-Inv.0 added_one-Inv.1 (
      Reach.next Reach.here
        (Step.refreshes added_one refreshed_one [] 0x05300001 70 added_one-refresh))

get_uniq_id-Unowned_example :
    (uid : ℕ) × (l' : ConnectorList) × (get_uniq_id fresh ≡ some (uid, l'))
    × Unowned fresh [] uid l'
    × Timed l'
get_uniq_id-Unowned_example = get_uniq_id-Unowned fresh [] fresh-Inv.0 fresh-Inv.1 (omega arith)

add-Inv_example :
    (l' : ConnectorList) × (add issued_one conn 65 ≡ some l')
    × Inv l' (erase 1 (1 ∷ []))
    × Timed l'
    × (l'.magic ≡ issued_one.magic)
unfolding count init new_list range_from conn new_connector
add-Inv_example =
    add-Inv issued_one (1 ∷ []) conn 1 65 issued_one-Inv.0 issued_one-Inv.1 refl refl (omega arith)

check_timeout-Closes_example :
    (us : List ℕ) × (l' : ConnectorList) × (check_timeout refreshed_one 71 ≡ some (us, l'))
    × Inv l' []
    × Timed l'
    × Closes refreshed_one 71 us l'
check_timeout-Closes_example =
    check_timeout-Closes refreshed_one [] 71 refreshed_one-Inv.0 refreshed_one-Inv.1 (omega arith)
