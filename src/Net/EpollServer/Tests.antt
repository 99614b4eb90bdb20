-- ===== src/Net/EpollServer/Tests.antt =====
-- net/epoll_server.h: a server with two handle threads, and the theorems at it.
use sails.Prelude.{
  ◌^◌, ℕ, ◌-◌, ◌<◌, ◌≡◌, refl, ap, true, false, Option, none, some, List, [], ◌∷◌, arith, length,
  get_elem?, take_all,
}
use sails.Prelude.Int.{pos}
use sails.Base.Buffer.{Buffer, new_buffer, unread}
use sails.Base.Buffer.Contents
use sails.Base.Buffer.Contents.{length-unread}
use sails.Base.ThreadQueue.{ThreadQueue, done}
use sails.Base.ThreadQueue.Pushes.{pushes}
use sails.Net.Connector.{Connector, new_connector}
use sails.Net.HandleThread.{TagRecvData, HandleThread, HandleStatus, handle_imp}
use sails.Net.EpollServer.{
  EpollServer, parse_imp, send, set_connector_data, create_connector_uid, add_connector,
  send_to_source, recv_data, on_net_thread, slot_of_fd,
}
use sails.Net.EpollServer.Parsing.{Parser, packets, Target, parse_imp-one_queue, parse_imp-handled}

abbrev buffer_of : List ℕ → Buffer
buffer_of xs = record { bytes = xs; read_index = 0; write_index = length xs }

-- A protocol with packets of one byte.
abbrev first_byte : Connector → List ℕ → Option ℕ × Connector
first_byte c [] = (none, c)
first_byte c (x ∷ xs) = (some x, record c { in_buf = buffer_of xs })

abbrev parse : Connector → Option ℕ × Connector
parse c = first_byte c (unread c.in_buf)

unread-buffer_of : (xs : List ℕ) → unread (buffer_of xs) ≡ xs
unread-buffer_of xs = take_all (length xs - 0) xs (omega arith)

first_byte-shorter :
    (c d : Connector) (p : ℕ) (xs : List ℕ)
    → first_byte c xs ≡ (some p, d)
    → (length (unread d.in_buf) < length xs) × (d.connect_fd ≡ c.connect_fd)
first_byte-shorter c d p [] e = absurd (ground arith)
first_byte-shorter c d p (x ∷ xs) e =
    let q : record c { in_buf = buffer_of xs } ≡ d = ground arith in
    let n = ap length (unread-buffer_of xs) in rw (← q) (omega (arith, n), refl)

first_byte-Inv :
    (c d : Connector) (p : ℕ) (xs : List ℕ)
    → length xs < 2 ^ 62
    → first_byte c xs ≡ (some p, d)
    → Contents.Inv d.in_buf
first_byte-Inv c d p [] h e = absurd (ground arith)
first_byte-Inv c d p (x ∷ xs) h e =
    let q : record c { in_buf = buffer_of xs } ≡ d = ground arith in
    rw (← q) (record { ordered = omega arith; within = omega arith; small = omega arith })

parse-Parser : Parser parse
parse-Parser = record {
  consumes = λ c d p v e. (
    (first_byte-shorter c d p (unread c.in_buf) e).0,
    first_byte-Inv c d p (unread c.in_buf)
        (omega (arith, length-unread c.in_buf v, v.ordered, v.within, v.small)) e,
  );
  keeps_fd = λ c d p v e. (first_byte-shorter c d p (unread c.in_buf) e).1;
}

abbrev conn : Connector
unfolding new_connector new_buffer
conn = record (new_connector (pos 9) 0 60 0) { in_buf = buffer_of (5 ∷ 6 ∷ []) }

conn-Inv : Contents.Inv conn.in_buf
unfolding conn new_connector
conn-Inv = record { ordered = omega arith; within = omega arith; small = omega arith }

abbrev roomy : ThreadQueue (TagRecvData ℕ)
roomy = record { queue = []; max_size = 2; size = 0; is_terminate = false }

abbrev full : ThreadQueue (TagRecvData ℕ)
full = record { queue = []; max_size = 0; size = 0; is_terminate = false }

abbrev handler : ℕ → ThreadQueue (TagRecvData ℕ) → HandleThread ℕ
handler id q = record {
  id = id;
  handlelist = q;
  continue_handle = true;
  status = HandleStatus.runing;
  handle_times = 0;
}

abbrev server : ℕ → ThreadQueue (TagRecvData ℕ) → EpollServer ℕ
server mode q = record {
  use_memory_pool = false;
  listen_port = 80;
  run_mode = mode;
  net_threads = [];
  handle_threads = handler 0 roomy ∷ handler 1 q ∷ [];
  net_thread_num = 0;
  handle_thread_num = 2;
  tick = 0;
  terminated = false;
  connector_timeout = 10;
  recvlist = full;
}

parse_imp-one_queue_example :
    parse_imp parse 3 (server 1 roomy) conn
    ≡ some (
      (packets parse 3 conn).1,
      record (server 1 roomy) { recvlist = pushes full (packets parse 3 conn).0 },
    )
unfolding conn new_connector new_buffer
parse_imp-one_queue_example =
    parse_imp-one_queue parse 3 (server 1 roomy) conn parse-Parser conn-Inv (omega arith) refl refl

to_second :
    (q : ThreadQueue (TagRecvData ℕ)) (d : Connector)
    → d.connect_fd ≡ pos 9
    → Target parse (server 2 q) d 9 (handler 1 q)
to_second q d e = record { mode = refl; at_fd = e; handler = refl; some_handler = refl }

parse_imp-handled_example :
    (s' : EpollServer ℕ) × (u v : HandleThread ℕ) × (parse_imp parse 3 (server 2 roomy) conn
      ≡ some ((packets parse 3 conn).1, s'))
    × (get_elem? s'.handle_threads 1 ≡ some u)
    × (handle_imp (length (packets parse 3 conn).0) s'.run_mode s'.recvlist u
        ≡ done ((packets parse 3 conn).0, s'.recvlist, v))
    × (v.handlelist.queue ≡ [])
unfolding conn new_connector new_buffer packets
parse_imp-handled_example =
    parse_imp-handled parse 3 (server 2 roomy) conn 9 (handler 1 roomy) parse-Parser conn-Inv
      (omega arith) (to_second roomy conn refl) (omega arith) (omega arith) refl refl

-- Without a net thread, every call for a descriptor divides by zero.
no_threads-send : send (server 1 roomy) (1 ∷ []) (49 ∷ []) 80 1 (pos 9) true ≡ none
unfolding send on_net_thread slot_of_fd
no_threads-send = refl

no_threads-set_connector_data :
    set_connector_data (server 1 roomy) (49 ∷ []) 80 1 (pos 9) 3 true ≡ none
unfolding set_connector_data on_net_thread slot_of_fd
no_threads-set_connector_data = refl

no_threads-create_connector_uid : create_connector_uid (server 1 roomy) (pos 9) ≡ none
unfolding create_connector_uid on_net_thread slot_of_fd
no_threads-create_connector_uid = refl

no_threads-add_connector : add_connector (λ n. none) (server 1 roomy) conn (pos 9) 5 true ≡ none
unfolding add_connector on_net_thread slot_of_fd
no_threads-add_connector = refl

no_threads-send_to_source : send_to_source (server 1 roomy) (1 ∷ []) (recv_data 5 conn) true ≡ none
unfolding send_to_source send recv_data on_net_thread slot_of_fd
no_threads-send_to_source = refl
