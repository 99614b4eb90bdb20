-- ===== src/Net/Callbacks.antt =====
-- net/net_thread.h: the callbacks of a net thread that go through its server: reading, the tick, and
-- accepting.
pub mod Tick
mod Tests
use sails.Prelude.{
  ℕ, zero, suc, ◌+◌, ◌-◌, ◌*◌, ◌%◌, ◌^◌, Bool, true, false, ◌&&◌, ◌||◌, not, Option, none, some,
  List, [], ◌∷◌, ◌++◌, ltb, leb, ◌==◌, if◌then◌else◌, get_elem?, set, length,
}
use sails.Prelude.Int.{ℤ, pos, negsuc, is_positive}
use sails.Prelude.Words.{u32, inc64}
use sails.Base.ThreadQueue
use sails.Base.ThreadQueue.{ThreadQueue, Waits, done, blocks, faults, push_back, pop_front, millis}
use sails.Base.EventLoop.{Realloc, Event}
use sails.Net.Connector
use sails.Net.Connector.{Connector, read_bytes}
use sails.Net.ConnectorList
use sails.Net.Commands.{TagSendData}
use sails.Net.NetThread
use sails.Net.NetThread.{NetThread}
use sails.Net.HandleThread
use sails.Net.HandleThread.{TagRecvData, HandleThread}
use sails.Net.EpollServer.{
  EpollServer, close_connector, create_connector_uid, add_connector, parse_imp,
}

-- What a read of the descriptor comes to: the bytes, EINTR, EAGAIN, or another error.
pub data ReadResult : Type 0 where
  got : List ℕ → ReadResult
  interrupted would_block failed : ReadResult

abbrev delivered : ReadResult → Option (List ℕ)
delivered (got xs) = some xs
delivered _ = none

-- An accepted descriptor, with what the memory of its new connection held.
pub record Accepted : Type 0 where
  pub fd : ℕ
  pub ip : List ℕ
  pub port : ℕ
  pub last_refresh_time : ℕ
  pub ext_data : ℕ

-- two of the reasons of a closing
abbrev timeout_reason : ℕ
timeout_reason = 0

abbrev client_closed : ℕ
client_closed = 1

module _ {T : Type 0} where
  -- The loop of `read_data`: whether it ends with an error, the connection, and the server. Where
  -- no result is left, there is nothing more to read. The sum of the bytes is an `int`.
  pub read_loop :
      (Connector → Option T × Connector)
      → ℕ
      → List ReadResult
      → ℕ
      → EpollServer T
      → Connector
      → Option (Bool × Connector × EpollServer T)
  read_loop parse fuel [] total s c = elim (Connector.read c none) [
    | none ↦ none
    | some (none, d) ↦ some (false, d, s)
    | some (some n, d) ↦ some (true, d, s)
  ]
  read_loop parse fuel (r ∷ rs) total s c = elim (Connector.read c (delivered r)) [
    | none ↦ none
    | some (none, d) ↦ elim r [
      | got xs ↦ none
      | interrupted ↦ read_loop parse fuel rs total s d
      | would_block ↦ some (false, d, s)
      | failed ↦ some (true, d, s)
    ]
    | some (some zero, d) ↦ some (true, d, s)
    | some (some (suc n), d) ↦
        elim (if leb 4096 (total + suc n) then parse_imp parse fuel s d else some (d, s)) [
          | none ↦ none
          | some (d', s') ↦ elim (ltb (suc n) read_bytes) [
            | true ↦ some (false, d', s')
            | false ↦ read_loop parse fuel rs (total + suc n) s' d'
          ]
        ]
  ]

  -- The net thread in a slot.
  abbrev thread_at : EpollServer T → ℕ → Option NetThread
  thread_at s i = elim (get_elem? s.net_threads i) [ none ↦ none | some o ↦ o ]

  abbrev set_table : EpollServer T → ℕ → NetThread → ConnectorList.ConnectorList → EpollServer T
  set_table s i t l = record s {
    net_threads = set s.net_threads i (some (record t { connector_list = l }));
  }

  -- The end of `read_data` without an error: `refresh`, and `ParseImp` once more.
  pub refresh_and_parse :
      (Connector → Option T × Connector)
      → ℕ
      → EpollServer T
      → ℕ
      → NetThread
      → ℕ
      → Connector
      → ℕ
      → Option (EpollServer T)
  refresh_and_parse parse fuel s i t uid c now =
      elim (ConnectorList.refresh (NetThread.put t.connector_list uid c) c.id (c.timeout + now)) [
        | none ↦ none
        | some l ↦ elim (ConnectorList.get l uid) [
          | none ↦ none
          | some none ↦ none
          | some (some d) ↦ elim (parse_imp parse fuel s d) [
            | none ↦ none
            | some (e, s') ↦ some (set_table s' i t (NetThread.put l uid e))
          ]
        ]
      ]

  -- The end of `read_data` with an error.
  pub close_after :
      EpollServer T
      → ℕ
      → NetThread
      → ℕ
      → Connector
      → List (ThreadQueue TagSendData)
      → Bool
      → Waits (Option (EpollServer T))
  close_after s i t uid c wakes polled =
      let s' = set_table s i t (NetThread.put t.connector_list uid c) in
      if c.is_closed
      then done (some s')
      else close_connector s' c.ip c.port c.id c.connect_fd client_closed wakes polled

  -- `read_data` of the thread in slot `i`, for an event with its id; parsing changes neither the
  -- thread nor its table.
  pub read_data :
      (Connector → Option T × Connector)
      → ℕ
      → EpollServer T
      → ℕ
      → ℤ
      → ℕ
      → ℕ
      → List ReadResult
      → ℕ
      → List (ThreadQueue TagSendData)
      → Bool
      → Waits (Option (EpollServer T))
  unfolding read_loop refresh_and_parse close_after
  read_data parse fuel s i fd revents uid results now wakes polled = elim fd [
    | negsuc n ↦ done (some s)
    | pos n ↦
        if revents == NetThread.event_read
        then elim (thread_at s i) [
          | none ↦ done none
          | some t ↦ elim (ConnectorList.get t.connector_list uid) [
            | none ↦ done none
            | some none ↦ done (some s)
            | some (some c) ↦ elim (read_loop parse fuel results 0 s c) [
              | none ↦ done none
              | some (true, d, s') ↦ close_after s' i t uid d wakes polled
              | some (false, d, s') ↦ done (refresh_and_parse parse fuel s' i t uid d now)
            ]
          ]
        ]
        else done (some s)
  ]

  -- `timeoutCb`, where it is set
  pub timeout_cb :
      EpollServer T
      → Option (Option ConnectorList.Entry)
      → List (ThreadQueue TagSendData)
      → Bool
      → Waits (Option (EpollServer T))
  timeout_cb s none wakes polled = done none
  timeout_cb s (some none) wakes polled = done none
  timeout_cb s (some (some e)) wakes polled = elim e.conn.has_timeout_cb [
    | false ↦ done (some s)
    | true ↦
        close_connector s e.conn.ip e.conn.port e.conn.id e.conn.connect_fd timeout_reason wakes
          polled
  ]

  -- The same of the connections in these slots of a table, one after the other.
  pub time_out_all :
      EpollServer T
      → ConnectorList.ConnectorList
      → List ℕ
      → List (ThreadQueue TagSendData)
      → Bool
      → Waits (Option (EpollServer T))
  unfolding timeout_cb
  time_out_all s l [] wakes polled = done (some s)
  time_out_all s l (slot ∷ slots) wakes polled =
      elim (timeout_cb s (get_elem? l.vconn slot) wakes polled) [
        | blocks ↦ blocks
        | faults ↦ faults
        | done none ↦ done none
        | done (some s') ↦ time_out_all s' l slots wakes polled
      ]

  -- `tick_timer_cb`, with the slot of the thread that made the timer.
  pub tick_timer_cb :
      EpollServer T → ℕ → ℕ → List (ThreadQueue TagSendData) → Bool → Waits (Option (EpollServer T))
  unfolding time_out_all
  tick_timer_cb s i now wakes polled = elim (thread_at s i) [
    | none ↦ done none
    | some t ↦ elim (ConnectorList.check_timeout t.connector_list now) [
      | none ↦ done none
      | some (slots, l) ↦
          time_out_all (set_table (record s { tick = u32 (s.tick + 1) }) i t l) l slots wakes polled
    ]
  ]

  -- The connection of an accepted descriptor, before it has its id.
  pub accepted_connector : EpollServer T → ℤ → Accepted → Connector
  accepted_connector s listen_fd a =
      let c = Connector.new_connector (pos a.fd) a.last_refresh_time 0 a.ext_data in
      record (Connector.set_port c a.port) {
        timeout = s.connector_timeout;
        ip = a.ip;
        listen_fd = listen_fd;
        has_timeout_cb = true;
      }

  -- One descriptor in the loop of `accept_socket` of the thread in slot `i`.
  pub accept_one :
      (List ℕ → Bool)
      → (Connector → Connector)
      → Realloc
      → EpollServer T
      → ℕ
      → ℤ
      → Accepted
      → ℕ
      → Bool
      → Option (EpollServer T)
  unfolding accepted_connector
  accept_one is_ip_allow create_cb realloc s i listen_fd a now polled = elim (thread_at s i) [
    | none ↦ none
    | some t ↦
        if is_ip_allow a.ip
        then elim (create_connector_uid
            (record s {
              net_threads =
                  set s.net_threads i
                    (some (record t { accept_times = HandleThread.count_times t.accept_times }));
            })
            (pos a.fd)) [
              | none ↦ none
              | some (uid, s') ↦
                  let c = record (accepted_connector s listen_fd a) { id = u32 uid } in
                  add_connector realloc s' (create_cb c) (pos a.fd) now polled
            ]
        else some (record s {
          net_threads =
              set s.net_threads i (some (record t { reject_times = inc64 t.reject_times }));
        })
  ]

  -- The loop of `accept_socket`: what `accept` returns up to the first time there is nothing.
  pub accept_socket :
      (List ℕ → Bool)
      → (Connector → Connector)
      → Realloc
      → EpollServer T
      → ℕ
      → ℤ
      → List Accepted
      → ℕ
      → Bool
      → Option (EpollServer T)
  unfolding accept_one
  accept_socket is_ip_allow create_cb realloc s i listen_fd [] now polled = some s
  accept_socket is_ip_allow create_cb realloc s i listen_fd (a ∷ rest) now polled =
      elim (accept_one is_ip_allow create_cb realloc s i listen_fd a now polled) [
        | none ↦ none
        | some s' ↦ accept_socket is_ip_allow create_cb realloc s' i listen_fd rest now polled
      ]
