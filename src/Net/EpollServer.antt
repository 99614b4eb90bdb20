-- ===== src/Net/EpollServer.antt =====
-- net/epoll_server.h: the server with its net threads and its handle threads, and the callbacks of
-- the net threads that go through it (net/net_thread.h).
--
-- `none` as a result is a fault, a use of freed memory among them. What the user overrides (Parse,
-- CreateConnectorCB, isIpAllow) is an argument.
pub mod Parsing
pub mod Tables
mod Tests
use sails.Prelude.{
  ℕ, zero, suc, ◌+◌, ◌-◌, ◌*◌, ◌%◌, ◌^◌, Bool, true, false, ◌&&◌, ◌||◌, not, Option, none, some,
  List, [], ◌∷◌, ◌++◌, ltb, leb, ◌==◌, if◌then◌else◌, get_elem?, set, length,
}
use sails.Prelude.Int.{ℤ, pos, negsuc, is_positive}
use sails.Prelude.Words.{u32, inc64}
use sails.Base.ThreadQueue
use sails.Base.ThreadQueue.{ThreadQueue, Waits, done, blocks, faults, push_back, pop_front, millis}
use sails.Base.EventLoop.{Realloc, Event}
use sails.Net.Connector
use sails.Net.Connector.{Connector, read_bytes}
use sails.Net.ConnectorList
use sails.Net.Commands.{TagSendData}
use sails.Net.NetThread
use sails.Net.NetThread.{NetThread}
use sails.Net.HandleThread
use sails.Net.HandleThread.{TagRecvData, HandleThread}

-- A thread that was deleted is null.
pub record EpollServer (T : Type 0) : Type 0 where
  pub use_memory_pool : Bool
  pub listen_port : ℕ
  pub run_mode : ℕ
  pub net_threads : List (Option NetThread)
  pub handle_threads : List (HandleThread T)
  pub net_thread_num : ℕ
  pub handle_thread_num : ℕ
  pub tick : ℕ
  pub terminated : Bool
  pub connector_timeout : ℕ
  pub recvlist : ThreadQueue (TagRecvData T)

-- An `int` that is converted to `size_t`.
abbrev pub to_size : ℤ → ℕ
to_size (pos n) = n
to_size (negsuc n) = 2 ^ 64 - suc n

-- The numbers of threads that `Init` settles on: one comes as `unsigned`, the other as `int`.
abbrev pub clamp_net : ℤ → ℕ
clamp_net n = if ltb 15 (u32 (to_size n)) then 15 else u32 (to_size n)

abbrev pub clamp_handle : ℤ → ℕ
clamp_handle (negsuc n) = 1
clamp_handle (pos n) = if ltb 15 n then 15 else n

abbrev no_answer : Option NetThread → Option (Bool × NetThread)
no_answer none = none
no_answer (some t) = some (true, t)

module _ {T : Type 0} where
  -- The slot of `GetNetThreadOfFd`, which divides by zero when there is no thread.
  pub slot_of_fd : EpollServer T → ℤ → Option ℕ
  slot_of_fd s fd =
      if length s.net_threads == 0 then none else some (to_size fd % length s.net_threads)

  -- A call on the net thread of a descriptor.
  pub on_net_thread :
      {R : Type 0}
      → EpollServer T
      → ℤ
      → R
      → (NetThread → Option (R × NetThread))
      → Option (R × EpollServer T)
  unfolding slot_of_fd
  on_net_thread s fd null act = elim (slot_of_fd s fd) [
    | none ↦ none
    | some i ↦ elim (get_elem? s.net_threads i) [
      | none ↦ none
      | some none ↦ some (null, s)
      | some (some t) ↦ elim (act t) [
        | none ↦ none
        | some (r, u) ↦ some (r, record s { net_threads = set s.net_threads i (some u) })
      ]
    ]
  ]

  abbrev server_only : Option (Bool × EpollServer T) → Option (EpollServer T)
  server_only none = none
  server_only (some (b, s)) = some s

  pub send : EpollServer T → List ℕ → List ℕ → ℕ → ℕ → ℤ → Bool → Option (EpollServer T)
  unfolding on_net_thread
  send s bytes ip port uid fd polled =
      server_only
        (on_net_thread s fd false (λ t. no_answer (NetThread.send t ip port uid bytes polled)))

  pub send_to_source : EpollServer T → List ℕ → TagRecvData T → Bool → Option (EpollServer T)
  unfolding send
  send_to_source s bytes source polled =
      send s bytes source.ip source.port source.uid source.fd polled

  pub set_connector_data : EpollServer T → List ℕ → ℕ → ℕ → ℤ → ℕ → Bool → Option (EpollServer T)
  unfolding on_net_thread
  set_connector_data s ip port uid fd x polled = server_only (
      on_net_thread s fd false
        (λ t. no_answer (NetThread.set_connector_data t ip port uid fd x polled)))

  -- The server with what became of the thread in a slot.
  pub store : EpollServer T → ℕ → Waits (Option NetThread) → Waits (Option (EpollServer T))
  store s i blocks = blocks
  store s i faults = faults
  store s i (done none) = done none
  store s i (done (some u)) = done (some (record s { net_threads = set s.net_threads i (some u) }))

  -- A request that may wait, to the thread in a slot.
  pub ask :
      EpollServer T
      → ℕ
      → Option (Option NetThread)
      → (NetThread → Waits (Option NetThread))
      → Waits (Option (EpollServer T))
  unfolding store
  ask s i none act = done none
  ask s i (some none) act = done (some s)
  ask s i (some (some t)) act = store s i (act t)

  pub close_connector :
      EpollServer T
      → List ℕ
      → ℕ
      → ℕ
      → ℤ
      → ℕ
      → List (ThreadQueue TagSendData)
      → Bool
      → Waits (Option (EpollServer T))
  unfolding slot_of_fd ask
  close_connector s ip port uid fd reason wakes polled = elim (slot_of_fd s fd) [
    | none ↦ done none
    | some i ↦
        ask s i (get_elem? s.net_threads i)
          (λ t. NetThread.close_connector t ip port uid fd reason wakes polled)
  ]

  pub create_connector_uid : EpollServer T → ℤ → Option (ℕ × EpollServer T)
  unfolding on_net_thread
  create_connector_uid s fd = on_net_thread s fd 0 NetThread.create_connector_uid

  pub add_connector : Realloc → EpollServer T → Connector → ℤ → ℕ → Bool → Option (EpollServer T)
  unfolding on_net_thread
  add_connector realloc s c fd now polled =
      server_only
        (on_net_thread s fd false (λ t. no_answer (NetThread.add_connector realloc t c now polled)))

  abbrev push_recv : EpollServer T → TagRecvData T → Bool × Bool × EpollServer T
  push_recv s msg = let r = push_back s.recvlist msg in (r.0, false, record s { recvlist = r.1 })

  -- The dispatch by the descriptor.
  pub insert_on_fd : EpollServer T → TagRecvData T → ℤ → Option (Bool × Bool × EpollServer T)
  insert_on_fd s msg (negsuc n) = none
  insert_on_fd s msg (pos fd) =
      if length s.handle_threads == 0
      then none
      else elim (get_elem? s.handle_threads (fd % length s.handle_threads)) [
        | none ↦ none
        | some h ↦
            let r = HandleThread.add_for_handle h msg in
            some (
              r.0,
              r.1,
              record s { handle_threads = set s.handle_threads (fd % length s.handle_threads) r.2 },
            )
      ]

  -- `InsertRecvData`: whether there was room, and whether the packet has been freed.
  pub insert_recv_data : EpollServer T → TagRecvData T → Option (Bool × Bool × EpollServer T)
  unfolding insert_on_fd
  insert_recv_data s msg =
      if s.run_mode == 1 then some (push_recv s msg) else insert_on_fd s msg msg.fd

  pub recv_data : T → Connector → TagRecvData T
  recv_data p c = record {
    uid = c.id;
    packet = p;
    ip = c.ip;
    port = c.port;
    fd = c.connect_fd;
    ext_data = c.ext_data;
  }

  -- `ParseImp`, on fuel. `Parse` may change the connection even where it gives no packet. A packet
  -- that finds no room is freed here: a fault where it has been freed, or is memory of the pool, which
  -- is not for `delete`.
  pub parse_imp :
      (Connector → Option T × Connector)
      → ℕ
      → EpollServer T
      → Connector
      → Option (Connector × EpollServer T)
  unfolding insert_recv_data recv_data
  parse_imp parse zero s c = none
  parse_imp parse (suc fuel) s c = elim (parse c).0 [
    | none ↦ some ((parse c).1, s)
    | some p ↦ elim (insert_recv_data s (recv_data p (parse c).1)) [
      | none ↦ none
      | some (true, freed, s') ↦ parse_imp parse fuel s' (parse c).1
      | some (false, freed, s') ↦
          let rest = parse_imp parse fuel s' (parse c).1 in
          if freed then none else if s.use_memory_pool then none else rest
    ]
  ]
