-- ===== src/Net/NetThread.antt =====
-- net/net_thread.h: a thread that reads and writes its connections, and takes commands from others.
--
-- `none` as a result is a fault, as it is in the parts. A connection is shared by pointer; the one
-- that the table holds is changed in place by `put`. What a system call returns is an argument.
pub mod Sound
pub mod Commands
pub mod Pipe
pub mod Requests
pub mod Delivery
pub mod Joining
mod Tests
use sails.Prelude.Ints.{int_prefix}
use sails.Prelude.{
  ℕ, zero, suc, ◌+◌, ◌%◌, ◌^◌, bit_and, Bool, true, false, ◌&&◌, Option, none, some, List, [], ◌∷◌,
  ◌++◌, ltb, leb, ◌==◌, if◌then◌else◌, get_elem?, set, length, take,
}
use sails.Prelude.Int.{ℤ, pos, negsuc, is_positive}
use sails.Prelude.Words.{u32}
use sails.Base.ThreadQueue
use sails.Base.ThreadQueue.{ThreadQueue, Waits, done, blocks, faults, millis, pop_front, push_back}
use sails.Base.EventLoop
use sails.Base.EventLoop.{Event, EventLoop, Realloc, event_ctl_add, event_ctl, event_stop, on_fd}
use sails.Net.Connector
use sails.Net.Connector.{Connector}
use sails.Net.ConnectorList
use sails.Net.ConnectorList.{ConnectorList, Entry, uid_mask}
use sails.Net.Commands.{
  TagSendData, cmd_send, cmd_close, cmd_set, same_text, print_reason, scan_reason, ext_bytes,
  ext_of,
}

pub data RunStatus : Type 0 where
  runing pause stoping : RunStatus

pub record NetThread : Type 0 where
  pub index : ℕ
  pub sendlist : ThreadQueue TagSendData
  pub status : RunStatus
  pub listen_port : ℕ
  pub accept_times : ℕ
  pub reject_times : ℕ
  pub ev_loop : EventLoop
  pub connector_list : ConnectorList
  -- the descriptor that wakes the loop up
  pub notify : ℤ

-- What the thread does outside: bytes go to a descriptor, `ClosedConnectCB` is called, and a
-- descriptor is closed.
pub data Effect : Type 0 where
  sent : ℤ → List ℕ → Effect
  closed_cb : Connector → ℕ → Effect
  closed : ℤ → Effect

-- The object that the table points to for an id is now `c`.
pub put : ConnectorList → ℕ → Connector → ConnectorList
put l uid c = elim (get_elem? l.vconn (bit_and uid uid_mask)) [
  | none ↦ l
  | some none ↦ l
  | some (some e) ↦ record l {
    vconn = set l.vconn (bit_and uid uid_mask) (some (record e { conn = c }));
  }
]

abbrev pub Outcome : Type 0
Outcome = Option (List Effect × NetThread)

-- The connection is the one that the command was meant for.
abbrev pub is_meant : Connector → TagSendData → Bool
is_meant c msg = (c.port == msg.port) && same_text c.ip msg.ip

-- The search and the two tests that each command starts with.
pub on_conn : NetThread → TagSendData → (Connector → Outcome) → Outcome
on_conn t msg act = elim (ConnectorList.get t.connector_list msg.uid) [
  | none ↦ none
  | some none ↦ some ([], t)
  | some (some c) ↦ if is_meant c msg then act c else some ([], t)
]

-- 's': what `::write` returns is `accepted`; the length is converted to `int`.
pub do_send : NetThread → TagSendData → Option ℕ → Connector → Outcome
unfolding put
do_send t msg accepted c = elim (Connector.write c (int_prefix msg.buffer)) [
  | none ↦ none
  | some d ↦
      let r = Connector.send d accepted in
      some
        (sent d.connect_fd r.1 ∷ [], record t { connector_list = put t.connector_list msg.uid r.2 })
]

-- The connection after `close` and `data.u64 = 0`.
abbrev pub shut : Connector → Connector
shut c = record (Connector.close c).1 { ext_data = 0 }

-- 'c'
pub do_close : NetThread → TagSendData → Connector → Outcome
unfolding put
do_close t msg c = elim (on_fd c.connect_fd none (event_stop t.ev_loop)) [
  | none ↦ none
  | some ev ↦ elim (ConnectorList.del (put t.connector_list msg.uid (shut c)) msg.uid) [
    | none ↦ none
    | some l ↦ some (
      closed_cb c (scan_reason msg.buffer)
          ∷ (if (Connector.close c).0 then closed c.connect_fd ∷ [] else []),
      record t { ev_loop = ev; connector_list = l },
    )
  ]
]

-- 'm': the string ends with a zero, which the `memcpy` may read.
pub do_set : NetThread → TagSendData → Connector → Outcome
unfolding put
do_set t msg c = elim (ext_of (msg.buffer ++ 0 ∷ [])) [
  | none ↦ none
  | some x ↦
      some
        ([], record t { connector_list = put t.connector_list msg.uid (record c { ext_data = x }) })
]

-- One command of `read_pipe_cb`.
pub run_command : NetThread → TagSendData → Option ℕ → Outcome
unfolding on_conn do_send do_close do_set
run_command t msg accepted =
    if msg.cmd == cmd_send
    then on_conn t msg (do_send t msg accepted)
    else if msg.cmd == cmd_close
    then on_conn t msg (do_close t msg)
    else if msg.cmd == cmd_set
    then on_conn t msg (do_set t msg)
    else some ([], t)

abbrev next_accept : List (Option ℕ) → Option ℕ × List (Option ℕ)
next_accept [] = (none, [])
next_accept (a ∷ outs) = (a, outs)

-- The loop of `read_pipe_cb`, on fuel; a command that another thread queues meanwhile is taken
-- after those that are there. The list is what `::write` returns at each command, then -1.
pub pipe_loop : ℕ → NetThread → List (Option ℕ) → Outcome
unfolding run_command
pipe_loop zero t outs = none
pipe_loop (suc fuel) t outs = elim (pop_front t.sendlist (millis 0) []) [
  | blocks ↦ none
  | faults ↦ none
  | done (none, q) ↦ some ([], record t { sendlist = q })
  | done (some msg, q) ↦ elim (run_command (record t { sendlist = q }) msg (next_accept outs).0) [
    | none ↦ none
    | some (es, t') ↦ elim (pipe_loop fuel t' (next_accept outs).1) [
      | none ↦ none
      | some (fs, u) ↦ some (es ++ fs, u)
    ]
  ]
]

abbrev pub event_read : ℕ
event_read = 1

abbrev pub event_write : ℕ
event_write = 2

-- One round more than there are commands.
pub read_pipe_cb : NetThread → ℕ → List (Option ℕ) → Outcome
unfolding pipe_loop
read_pipe_cb t revents outs =
    if revents == event_write
    then pipe_loop (suc (length t.sendlist.queue)) t outs
    else some ([], t)

abbrev pub notify_event : NetThread → Event
notify_event t = record {
  fd = t.notify;
  events = event_write;
  edata = 0;
  cb = none;
  event_data = 0;
}

-- `mod_ev_only` on the notifying descriptor; what it returns is not read.
pub wake_up : NetThread → Bool → Option NetThread
wake_up t polled = elim (EventLoop.mod_ev_only t.ev_loop (notify_event t) polled) [
  | none ↦ none
  | some r ↦ some t
]

-- A command that finds no room is dropped.
pub queue_once : NetThread → TagSendData → Bool → Option NetThread
unfolding wake_up
queue_once t msg polled = wake_up (record t { sendlist = (push_back t.sendlist msg).1 }) polled

pub send : NetThread → List ℕ → ℕ → ℕ → List ℕ → Bool → Option NetThread
unfolding queue_once
send t ip port uid s polled =
    queue_once t (record { cmd = cmd_send; uid = uid; buffer = s; ip = ip; port = port }) polled

-- The tests of `close_connector` and `SetConnectorData`.
abbrev pub is_named : List ℕ → ℕ → ℕ → ℤ → Bool
is_named ip port uid fd = ltb 0 (length ip) && (ltb 0 port && (ltb 0 uid && is_positive fd))

-- The loop that pushes until there is room: `wakes` are the queues that it finds after each pause.
pub push_until :
    ThreadQueue TagSendData
    → TagSendData
    → List (ThreadQueue TagSendData)
    → Waits (ThreadQueue TagSendData)
push_until q msg [] = elim (push_back q msg).0 [ true ↦ done (push_back q msg).1 | false ↦ blocks ]
push_until q msg (r ∷ rs) =
    let rest = push_until r msg rs in
    elim (push_back q msg).0 [ true ↦ done (push_back q msg).1 | false ↦ rest ]

abbrev pub close_data : List ℕ → ℕ → ℕ → ℕ → TagSendData
close_data ip port uid reason = record {
  cmd = cmd_close;
  uid = uid;
  buffer = print_reason reason;
  ip = ip;
  port = port;
}

pub close_connector :
    NetThread
    → List ℕ
    → ℕ
    → ℕ
    → ℤ
    → ℕ
    → List (ThreadQueue TagSendData)
    → Bool
    → Waits (Option NetThread)
unfolding push_until wake_up
close_connector t ip port uid fd reason wakes polled =
    if is_named ip port uid fd
    then elim (push_until t.sendlist (close_data ip port uid reason) wakes) [
      | blocks ↦ blocks
      | faults ↦ faults
      | done q ↦ done (wake_up (record t { sendlist = q }) polled)
    ]
    else done (some t)

abbrev pub set_data : List ℕ → ℕ → ℕ → ℕ → TagSendData
set_data ip port uid x = record {
  cmd = cmd_set;
  uid = uid;
  buffer = ext_bytes x;
  ip = ip;
  port = port;
}

pub set_connector_data : NetThread → List ℕ → ℕ → ℕ → ℤ → ℕ → Bool → Option NetThread
unfolding queue_once
set_connector_data t ip port uid fd x polled =
    if is_named ip port uid fd then queue_once t (set_data ip port uid x) polled else some t

pub create_connector_uid : NetThread → Option (ℕ × NetThread)
create_connector_uid t = elim (ConnectorList.get_uniq_id t.connector_list) [
  | none ↦ none
  | some (uid, l) ↦ some (uid, record t { connector_list = l })
]

-- The connection with an id, a new one where it has none.
pub with_id : NetThread → Connector → Option (Connector × NetThread)
unfolding create_connector_uid
with_id t c =
    if c.id == 0
    then elim (create_connector_uid t) [
      | none ↦ none
      | some (uid, u) ↦ some (record c { id = u32 uid }, u)
    ]
    else some (c, t)

-- `read_data_cb`, by a number
abbrev pub read_callback : ℕ
read_callback = 0

abbrev pub read_event : Connector → Event
read_event c = record {
  fd = c.connect_fd;
  events = event_read;
  edata = 0;
  cb = some read_callback;
  event_data = c.id;
}

-- With the current time, and what `realloc` and `epoll_ctl` return.
pub add_connector : Realloc → NetThread → Connector → ℕ → Bool → Option NetThread
unfolding with_id
add_connector realloc t c now polled = elim (with_id t c) [
  | none ↦ none
  | some (d, u) ↦ elim (ConnectorList.add u.connector_list d (d.timeout + now)) [
    | none ↦ none
    | some l ↦ elim (event_ctl realloc u.ev_loop event_ctl_add (read_event d) polled) [
      | none ↦ none
      | some (true, ev) ↦ some (record u { connector_list = l; ev_loop = ev })
      | some (false, ev) ↦ elim (ConnectorList.del l d.id) [
        | none ↦ none
        | some l' ↦ some (record u { connector_list = l'; ev_loop = ev })
      ]
    ]
  ]
]

pub record NetThreadStatus : Type 0 where
  pub status : RunStatus
  pub listen_port : ℕ
  pub connector_num : ℕ
  pub accept_times : ℕ
  pub reject_times : ℕ
  pub send_queue_capacity : ℕ
  pub send_queue_size : ℕ

pub get_status : NetThread → NetThreadStatus
get_status t = record {
  status = t.status;
  listen_port = t.listen_port;
  connector_num = ConnectorList.size t.connector_list;
  accept_times = t.accept_times;
  reject_times = t.reject_times;
  send_queue_capacity = u32 t.sendlist.max_size;
  send_queue_size = u32 t.sendlist.size;
}

-- The constructor; the event loop is made by `create_event_loop`, and is empty before.
pub new_net_thread : ℕ → ℤ → ℕ → NetThread
new_net_thread index notify now = record {
  index = index;
  sendlist = ThreadQueue.new_queue;
  status = stoping;
  listen_port = 0;
  accept_times = 0;
  reject_times = 0;
  ev_loop = record { anfds = []; max_events = 0 };
  connector_list = ConnectorList.init ConnectorList.new_list 1000000 index now;
  notify = notify;
}

-- `read_pipe_cb` and `accept_socket_cb`, by a number
abbrev pub pipe_callback : ℕ
pipe_callback = 1

abbrev pub accept_callback : ℕ
accept_callback = 2

-- An event that is added to the loop must be accepted.
pub must_add : Realloc → NetThread → Event → Bool → Option NetThread
must_add realloc t e polled = elim (event_ctl realloc t.ev_loop event_ctl_add e polled) [
  | none ↦ none
  | some (false, ev) ↦ none
  | some (true, ev) ↦ some (record t { ev_loop = ev })
]

-- Whether `create_event_loop` makes the timer of `tick_timer_cb`.
unfoldable pub has_tick_timer : NetThread → Bool
has_tick_timer t = t.index == 0

-- Up to the timer, which `has_tick_timer` tells of.
pub create_event_loop : Realloc → NetThread → Bool → Option NetThread
unfolding must_add
create_event_loop realloc t polled =
    must_add realloc (record t { ev_loop = EventLoop.new_loop })
      (record (notify_event t) { cb = some pipe_callback }) polled

-- `bind` once the socket listens. Without an event for it the program ends; `listen_port` is kept
-- as it was.
pub bind : Realloc → NetThread → ℤ → Bool → Option (ℤ × NetThread)
unfolding must_add
bind realloc t listenfd polled =
    let e : Event = record {
      fd = listenfd;
      events = event_read;
      edata = 0;
      cb = some accept_callback;
      event_data = 0;
    } in
    elim (must_add realloc t e polled) [ none ↦ none | some u ↦ some (listenfd, u) ]

pub run : NetThread → NetThread
run t = record t { status = runing }
