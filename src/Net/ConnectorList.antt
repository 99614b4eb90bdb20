-- ===== src/Net/ConnectorList.antt =====
-- net/connector_list.cc: the connections of a server thread by id, with the list of their timeouts.
--
-- `none` as a result is a fault: a failed assert, `front` of an empty list, an access outside
-- `_vConn`, an `erase` of an iterator that is not in the multimap, or a null dereference. A slot
-- holds the connection, which only the list changes here, and the identity of its node in `_tl`.
-- The mutex is held for the whole of each operation that takes it, so an operation is one step.
-- A time is a natural number of seconds.
pub mod Timers
pub mod Invariant
pub mod Ownership
pub mod Refresh
pub mod Timeout
pub mod Check
pub mod Traffic
pub mod Access
pub mod Samples
mod Tests
use sails.Prelude.{
  ℕ, zero, suc, ◌+◌, ◌*◌, ◌%◌, ◌^◌, bit_and, bit_or, Bool, true, false, ◌&&◌, not, Option, none,
  some, List, [], ◌∷◌, ◌++◌, ltb, leb, ◌==◌, if◌then◌else◌, is_some, get_elem?, set, replicate,
}
use sails.Prelude.Int.{ℤ, negsuc, eq_ℤ}
use sails.Prelude.Words.{u32, inc64, dec64, sub64}
use sails.Prelude.Counts.{range_from}
use sails.Net.Connector.{Connector, set_timeout}

-- A node of the multimap `_tl`, which is kept in the order of the times.
pub record Timer : Type 0 where
  pub node : ℕ
  pub time : ℕ
  pub uid : ℕ

-- `list_data` with a connection: the shared pointer and the iterator
pub record Entry : Type 0 where
  pub conn : Connector
  pub timer : ℕ

pub record ConnectorList : Type 0 where
  pub total : ℕ
  pub free : List ℕ
  pub free_size : ℕ
  pub vconn : List (Option Entry)
  pub tl : List Timer
  -- the identity of the next node of `_tl`
  pub next_node : ℕ
  pub last_timeout_time : ℕ
  pub magic : ℕ

-- `0xFFFFFFFF << 20` and `0x7FFFFFFF >> 11`
abbrev pub magic_mask : ℕ
magic_mask = 0xFFF00000

abbrev pub uid_mask : ℕ
uid_mask = 0xFFFFF

-- `insert`: behind the nodes with the same time.
pub insert : Timer → List Timer → List Timer
insert t [] = t ∷ []
insert t (x ∷ xs) = let rest = insert t xs in if ltb t.time x.time then t ∷ x ∷ xs else x ∷ rest

-- `erase` of an iterator
pub erase_node : ℕ → List Timer → Option (List Timer)
erase_node n [] = none
erase_node n (x ∷ xs) =
    let rest = erase_node n xs in
    if x.node == n then some xs else elim rest [ none ↦ none | some ys ↦ some (x ∷ ys) ]

pub new_list : ConnectorList
new_list = record {
  total = 0;
  free = [];
  free_size = 0;
  vconn = [];
  tl = [];
  next_node = 0;
  last_timeout_time = 0;
  magic = 0;
}

-- 8 bits of the time, 4 of the index, 20 for the slot
abbrev pub magic_of : ℕ → ℕ → ℕ
magic_of now index =
    u32 (bit_and (u32 (u32 now * 2 ^ 24)) 0xFF000000 + bit_and (u32 (index * 2 ^ 20)) magic_mask)

-- `_free` and `_tl` keep what they held.
pub init : ConnectorList → ℕ → ℕ → ℕ → ConnectorList
init l size index now = record {
  total = size;
  free = l.free ++ range_from 1 size;
  free_size = size;
  vconn = none ∷ replicate size none;
  tl = l.tl;
  next_node = l.next_node;
  last_timeout_time = now;
  magic = magic_of now index;
}

-- `_free.front()`, its assert, and `pop_front`
pub take_front : ConnectorList → List ℕ → Option (ℕ × ConnectorList)
take_front l [] = none
take_front l (uid ∷ rest) =
    if ltb 0 uid && leb uid l.total
    then some (bit_or l.magic uid, record l { free = rest; free_size = dec64 l.free_size })
    else none

pub get_uniq_id : ConnectorList → Option (ℕ × ConnectorList)
unfolding take_front
get_uniq_id l = take_front l l.free

-- A null pointer is `some none`; no bound is checked.
unfoldable pub get : ConnectorList → ℕ → Option (Option Connector)
get l uid =
    if bit_and uid magic_mask == l.magic
    then elim (get_elem? l.vconn (bit_and uid uid_mask)) [
      | none ↦ none
      | some none ↦ some none
      | some (some e) ↦ some (some e.conn)
    ]
    else some none

-- What the asserts accept: the slot of an id with the magic, in range.
abbrev pub slot_of : ConnectorList → ℕ → Option (Option Entry)
slot_of l uid =
    let i = bit_and uid uid_mask in
    if (bit_and uid magic_mask == l.magic) && ltb 0 i && leb i l.total
    then get_elem? l.vconn i
    else none

pub add : ConnectorList → Connector → ℕ → Option ConnectorList
add l conn stamp = elim (slot_of l conn.id) [
  | none ↦ none
  | some (some e) ↦ none
  | some none ↦
      let i = bit_and conn.id uid_mask in
      some (record l {
        vconn = set l.vconn i (some (record { conn = conn; timer = l.next_node }));
        tl = insert (record { node = l.next_node; time = stamp; uid = i }) l.tl;
        next_node = l.next_node + 1;
      })
]

-- `iTimeOutStamp - LastRefreshTime() < 1`, where the last time was kept in an `int`.
abbrev pub is_stale : ℕ → ℕ → Bool
is_stale stamp last = leb stamp last && ltb last (2 ^ 31)

pub refresh : ConnectorList → ℕ → ℕ → Option ConnectorList
refresh l uid stamp = elim (slot_of l uid) [
  | none ↦ none
  | some none ↦ none
  | some (some e) ↦
      let i = bit_and uid uid_mask in
      if is_stale stamp e.conn.last_refresh_time then some l else elim (erase_node e.timer l.tl) [
        | none ↦ none
        | some tl ↦ some (record l {
          vconn = set l.vconn i (
              some (record {
                conn = record e.conn { last_refresh_time = u32 stamp };
                timer = l.next_node;
              }));
          tl = insert (record { node = l.next_node; time = stamp; uid = i }) tl;
          next_node = l.next_node + 1;
        })
      ]
]

-- The loop of `checkTimeout` over the nodes: the slots whose connection had `set_timeout` called,
-- and the table afterwards.
unfoldable pub check_loop :
    ℕ → List Timer → List (Option Entry) → Option (List ℕ × List (Option Entry))
check_loop now [] vs = some ([], vs)
check_loop now (t ∷ ts) vs = if ltb now t.time then some ([], vs) else elim (get_elem? vs t.uid) [
  | none ↦ none
  | some none ↦ none
  | some (some e) ↦ elim (eq_ℤ e.conn.listen_fd (negsuc 0)) [
    | true ↦ check_loop now ts vs
    | false ↦
        elim (check_loop now ts
          (set vs t.uid (some (record e { conn = (set_timeout e.conn).1 })))) [
            | none ↦ none
            | some (us, vs') ↦ some (t.uid ∷ us, vs')
          ]
  ]
]

-- At most once a second.
unfoldable pub check_timeout : ConnectorList → ℕ → Option (List ℕ × ConnectorList)
check_timeout l now =
    if leb now l.last_timeout_time then some ([], l) else elim (check_loop now l.tl l.vconn) [
      | none ↦ none
      | some (us, vs) ↦ some (us, record l { vconn = vs; last_timeout_time = now })
    ]

pub record ConnStatus : Type 0 where
  pub ip : List ℕ
  pub uid : ℕ
  pub port : ℕ
  pub timeout : ℕ
  pub last_refresh_time : ℕ

abbrev pub status_of : Connector → ConnStatus
status_of c = record {
  ip = c.ip;
  uid = c.id;
  port = c.port;
  timeout = c.timeout;
  last_refresh_time = c.last_refresh_time;
}

-- The loop of `getConnStatus` from slot `i` on, for `k` slots.
pub status_loop : ℕ → ℕ → ℤ → List (Option Entry) → Option (List ConnStatus)
status_loop i zero lfd vs = some []
status_loop i (suc k) lfd vs =
    let rest = status_loop (i + 1) k lfd vs in
    elim (get_elem? vs i) [
      | none ↦ none
      | some none ↦ rest
      | some (some e) ↦
          if eq_ℤ e.conn.listen_fd lfd
          then elim rest [ none ↦ none | some ss ↦ some (status_of e.conn ∷ ss) ]
          else rest
    ]

pub get_conn_status : ConnectorList → ℤ → Option (List ConnStatus)
unfolding status_loop
get_conn_status l lfd = status_loop 1 l.total lfd l.vconn

pub del_slot : ConnectorList → ℕ → Option ConnectorList
del_slot l uid =
    if ltb 0 uid && leb uid l.total
    then elim (get_elem? l.vconn uid) [
      | none ↦ none
      | some none ↦ none
      | some (some e) ↦ elim (erase_node e.timer l.tl) [
        | none ↦ none
        | some tl ↦ some (record l {
          vconn = set l.vconn uid none;
          tl = tl;
          free = l.free ++ uid ∷ [];
          free_size = inc64 l.free_size;
        })
      ]
    ]
    else none

pub del : ConnectorList → ℕ → Option ConnectorList
unfolding del_slot
del l uid = elim (slot_of l uid) [
  | none ↦ none
  | some none ↦ none
  | some (some e) ↦ del_slot l (bit_and uid uid_mask)
]

abbrev pub size : ConnectorList → ℕ
size l = sub64 l.total l.free_size
