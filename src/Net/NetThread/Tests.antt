-- ===== src/Net/NetThread/Tests.antt =====
-- net/net_thread.h: a thread with one connection, and the theorems at it.
use sails.Prelude.{
  ℕ, zero, suc, ◌≡◌, sym, ap, subst, inl, inr, refl, true, false, none, some, List, [], ◌∷◌, ◌++◌,
  arith, get_elem?, replicate,
}
use sails.Prelude.Int.{pos}
use sails.Base.Buffer.{new_buffer, unread}
use sails.Base.ThreadQueue.{has_room, done}
use sails.Base.EventLoop.{
  event_ctl, add_event, add_fd, array_needsize, grow, EventLoop, Realloc, empty_anfd,
}
use sails.Base.EventLoop.Flags.{empty-Inv}
use sails.Net.Connector.{Connector, new_connector, is_open}
use sails.Net.ConnectorList.{Entry, get}
use sails.Net.ConnectorList.Samples.{conn, issued_one, added_one, added_one-Inv}
use sails.Net.ConnectorList.Access.{get-slot}
use sails.Net.Commands.{TagSendData, cmd_send, cmd_close}
use sails.Net.NetThread.{
  NetThread, stoping, sent, read_pipe_cb, close_connector, send, set_connector_data, event_write,
  get_status, run, bind, must_add, runing,
}
use sails.Net.NetThread.Sound.{Sound, Fit}
use sails.Net.NetThread.Commands.{Sound-less}
use sails.Net.NetThread.Pipe.{Each, none_left, and_rest, Piped, read_pipe_cb-Piped}
use sails.Net.NetThread.Requests.{Wakes, Closes, close_connector-Closes}
use sails.Net.NetThread.Delivery.{set_connector_data-get, send-Delivered}

abbrev entry : Entry
entry = record { conn = conn; timer = 0 }

abbrev ten : EventLoop
ten = record { anfds = replicate 10 empty_anfd; max_events = 10 }

abbrev thread : NetThread
thread = record {
  index = 3;
  sendlist = record { queue = []; max_size = 100; size = 0; is_terminate = false };
  status = stoping;
  listen_port = 0;
  accept_times = 0;
  reject_times = 0;
  ev_loop = ten;
  connector_list = added_one;
  notify = pos 5;
}

only_conn : (i : ℕ) (e : Entry) → get_elem? added_one.vconn i ≡ some (some e) → e.conn ≡ conn
only_conn zero e h = absurd (ground arith)
only_conn (suc zero) e h = let q : entry ≡ e = ground arith in sym (ap (λ x. x.conn) q)
only_conn (suc (suc zero)) e h = absurd (ground arith)
only_conn (suc (suc (suc i))) e h = absurd (ground arith)

conn-Fit : Fit ten 100 conn
unfolding conn new_connector new_buffer
conn-Fit = record {
  fd = 9;
  at_fd = refl;
  known = omega arith;
  valid = record { ordered = omega arith; within = omega arith; small = omega arith };
  room = omega arith;
}

thread-Sound : Sound thread [] 100
thread-Sound = record {
  table = added_one-Inv.0;
  timed = added_one-Inv.1;
  loop = empty-Inv 10;
  conns = λ i e h. subst (Fit ten 100) (sym (only_conn i e h)) conn-Fit;
}

thread-Wakes : Wakes thread
thread-Wakes = record { fd = 5; at_fd = refl; known = omega arith; limited = omega arith }

close_connector-Closes_example :
    (u : NetThread) × (close_connector thread conn.ip conn.port 0x05300001 (pos 9) 2 [] true
      ≡ done (some u))
    × Closes thread [] 0x05300001 2 conn (read_pipe_cb u event_write [])
unfolding has_room conn new_connector
close_connector-Closes_example =
    close_connector-Closes thread [] 0x05300001 entry (pos 9) 2 [] [] true
      (Sound-less thread [] 100 9 thread-Sound (omega arith)) thread-Wakes refl refl refl refl refl
      (omega arith)

set_connector_data-get_example :
    (u v : NetThread) × (set_connector_data thread conn.ip conn.port 0x05300001 (pos 9) 77 true
      ≡ some u)
    × (read_pipe_cb u event_write [] ≡ some ([], v))
    × (get v.connector_list 0x05300001 ≡ some (some (record conn { ext_data = 77 })))
unfolding has_room conn new_connector
set_connector_data-get_example =
    set_connector_data-get thread [] 100 0x05300001 entry [] true thread-Sound thread-Wakes refl
      refl refl refl (pos 9) 77 refl (omega arith)

send-Delivered_example :
    (u v : NetThread) × (d : Connector) × (out : List ℕ) × (send thread conn.ip conn.port 0x05300001
        (1 ∷ 2 ∷ 3 ∷ [])
        true
      ≡ some u)
    × (read_pipe_cb u event_write (some 2 ∷ []) ≡ some (sent (pos 9) out ∷ [], v))
    × (get v.connector_list 0x05300001 ≡ some (some d))
    × (is_open d ≡ true)
    × (out ≡ 1 ∷ 2 ∷ [])
    × (out ++ unread d.out_buf ≡ 1 ∷ 2 ∷ 3 ∷ [])
unfolding has_room conn new_connector new_buffer
send-Delivered_example =
    send-Delivered thread [] 100 0x05300001 entry (some 2 ∷ []) true thread-Sound thread-Wakes refl
      refl refl refl (1 ∷ 2 ∷ 3 ∷ []) refl (omega arith) (omega arith)

-- A command for an id that is free, another with another port, and a third that is carried out.
abbrev commands : List TagSendData
commands =
    record { cmd = cmd_close; uid = 0x05300002; buffer = 49 ∷ []; ip = 49 ∷ 50 ∷ []; port = 80 }
    ∷ record { cmd = cmd_close; uid = 0x05300001; buffer = 49 ∷ []; ip = 49 ∷ 50 ∷ []; port = 81 }
    ∷ record { cmd = cmd_send; uid = 0x05300001; buffer = 7 ∷ []; ip = 49 ∷ 50 ∷ []; port = 80 }
    ∷ []

abbrev busy : NetThread
busy = record thread {
  sendlist = record { queue = commands; max_size = 3; size = 3; is_terminate = false };
}

busy-Sound : Sound busy [] 100
busy-Sound = record {
  table = added_one-Inv.0;
  timed = added_one-Inv.1;
  loop = empty-Inv 10;
  conns = λ i e h. subst (Fit ten 100) (sym (only_conn i e h)) conn-Fit;
}

commands-Each : Each 0x05300000 2 commands
commands-Each =
    and_rest _ _ (record { inside = inr (omega arith); whole = inl refl })
      (and_rest _ _ (record { inside = inr (omega arith); whole = inl refl })
        (and_rest _ _ (record { inside = inr (omega arith); whole = inl refl }) none_left))

read_pipe_cb-Piped_example :
    Piped busy [] (some 1 ∷ []) (read_pipe_cb busy event_write (some 1 ∷ []))
read_pipe_cb-Piped_example =
    read_pipe_cb-Piped busy [] (some 1 ∷ []) (record { counted = refl; small = omega arith })
      (Sound-less busy [] 100 3 busy-Sound (omega arith)) commands-Each

get-conn : get added_one 0x05300001 ≡ some (some conn)
get-conn = get-slot added_one 0x05300001 (some entry) refl refl

abbrev no_memory : Realloc
no_memory n = none

abbrev waiting : NetThread
waiting = record thread { connector_list = issued_one }

-- The status of a running thread with three commands, whose table has one of two slots left.
busy-get_status : get_status (run busy) ≡ record {
  status = runing;
  listen_port = 0;
  connector_num = 1;
  accept_times = 0;
  reject_times = 0;
  send_queue_capacity = 3;
  send_queue_size = 3;
}
unfolding get_status run
busy-get_status = refl

-- A listening descriptor for which there is no memory ends the program.
thread-bind : bind no_memory thread (pos 30) true ≡ none
unfolding bind must_add event_ctl add_event add_fd array_needsize grow
thread-bind = refl
