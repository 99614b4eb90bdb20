-- ===== src/Net/Callbacks/Tests.antt =====
-- net/net_thread.h: a tick of a server with two net threads, of which the second has a connection
-- that is due.
use sails.Prelude.{ℕ, ◌≡◌, refl, true, false, none, some, [], ◌∷◌, arith, replicate}
use sails.Prelude.Int.{pos}
use sails.Base.ThreadQueue.{done}
use sails.Base.EventLoop.{empty_anfd, Realloc}
use sails.Net.Connector.{set_port}
use sails.Net.ConnectorList.{ConnectorList, get, check_timeout, check_loop}
use sails.Net.ConnectorList.Samples.{fresh, added_one}
use sails.Net.NetThread.{has_tick_timer, NetThread, RunStatus}
use sails.Net.EpollServer.{EpollServer}
use sails.Net.EpollServer.Tables.{table_at}
use sails.Net.Callbacks.{
  failed, Accepted, time_out_all, tick_timer_cb, accepted_connector, accept_one, accept_socket,
  read_data,
}
use sails.Net.Callbacks.Tick.{tick_timer_cb-others}

abbrev thread : ℕ → ConnectorList → NetThread
thread index l = record {
  index = index;
  sendlist = record { queue = []; max_size = 100; size = 0; is_terminate = false };
  status = RunStatus.runing;
  listen_port = 0;
  accept_times = 0;
  reject_times = 0;
  ev_loop = record { anfds = replicate 10 empty_anfd; max_events = 10 };
  connector_list = l;
  notify = pos 5;
}

abbrev server : ℕ → ConnectorList → EpollServer ℕ
server tick l = record {
  use_memory_pool = false;
  listen_port = 80;
  run_mode = 1;
  net_threads = some (thread 0 l) ∷ some (thread 1 added_one) ∷ [];
  handle_threads = [];
  net_thread_num = 2;
  handle_thread_num = 0;
  tick = tick;
  terminated = false;
  connector_timeout = 10;
  recvlist = record { queue = []; max_size = 100; size = 0; is_terminate = false };
}

abbrev checked : ConnectorList
checked = record fresh { last_timeout_time = 90 }

server-tick : tick_timer_cb (server 0 fresh) 0 90 [] true ≡ done (some (server 1 checked))
unfolding tick_timer_cb time_out_all check_timeout check_loop
server-tick = refl

tick_timer_cb-others_example : table_at (server 1 checked) 1 ≡ some added_one
unfolding has_tick_timer
tick_timer_cb-others_example =
    tick_timer_cb-others (server 0 fresh) (server 1 checked) 0 90 1 [] true (thread 0 fresh) refl
      refl refl (omega arith) server-tick

abbrev no_memory : Realloc
no_memory n = none

abbrev guest : Accepted
guest = record { fd = 9; ip = 49 ∷ []; port = 70000; last_refresh_time = 0; ext_data = 0 }

-- An address that is not allowed is counted, and a port keeps 16 bits.
refused-accept_socket :
    accept_socket (λ ip. false) (λ c. c) no_memory (server 0 fresh) 0 (pos 4) (guest ∷ []) 90 true
    ≡ some (record (server 0 fresh) {
      net_threads =
          some (record (thread 0 fresh) { reject_times = 1 }) ∷ some (thread 1 added_one) ∷ [];
    })
unfolding accept_socket accept_one
refused-accept_socket = refl

guest-port : (accepted_connector (server 0 fresh) (pos 4) guest).port ≡ 4464
unfolding accepted_connector set_port
guest-port = refl

-- An event for an id that is free is passed over, and one for another event than reading.
free-read_data :
    read_data (λ c. (none, c)) 1 (server 0 fresh) 1 (pos 9) 1 0x05300002 (failed ∷ []) 90 [] true
    ≡ done (some (server 0 fresh))
unfolding read_data get
free-read_data = refl

write-read_data :
    read_data (λ c. (none, c)) 1 (server 0 fresh) 1 (pos 9) 2 0x05300001 (failed ∷ []) 90 [] true
    ≡ done (some (server 0 fresh))
unfolding read_data
write-read_data = refl
