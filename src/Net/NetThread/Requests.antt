-- ===== src/Net/NetThread/Requests.antt =====
-- net/net_thread.h: what another thread asks for is what the net thread does.
use sails.Prelude.{
  ℕ, suc, ◌+◌, ◌^◌, ◌<◌, ◌≡◌, refl, ap, ◌∙◌, bit_and, Bool, true, Option, none, some, List, [], ◌∷◌,
  ◌++◌, if◌then◌else◌, arith, length, get_elem?,
}
use mathlib.Core.List.{append-nil}
use sails.Prelude.Int.{ℤ, pos}
use sails.Prelude.Counts.{count}
use sails.Prelude.Words.{dec64}
use sails.Base.ThreadQueue.{ThreadQueue, done, has_room, insert_back, push_back}
use sails.Base.ThreadQueue.Order.{push_back-room, insert_back-queue}
use sails.Base.ThreadQueue.Pushes.{push_back-below, below}
use sails.Base.EventLoop.Changes.{mod_ev_only-known}
use sails.Net.Connector.{Connector, is_open}
use sails.Net.ConnectorList.{Entry, get, magic_mask, uid_mask}
use sails.Net.Commands.{TagSendData}
use sails.Net.Commands.Texts.{same_text_refl, length-print_reason, scan-print_reason}
use sails.Net.NetThread.{
  NetThread, Effect, closed_cb, closed, Outcome, next_accept, run_command, pipe_loop, read_pipe_cb,
  event_write, is_named, is_meant, do_close, close_data, wake_up, push_until, close_connector,
  notify_event,
}
use sails.Net.NetThread.Pipe.{Sound-queue, pipe_loop-nil, pipe_loop-cons}
use sails.Net.NetThread.Sound.{Sound}
use sails.Net.NetThread.Commands.{do_close-Closing, on_conn-Meant, Sound-less}

-- The notifying descriptor has its place in the event loop, and the limit of the queue is a `size_t`.
pub record Wakes (t : NetThread) : Type 0 where
  pub fd : ℕ
  pub at_fd : t.notify ≡ pos fd
  pub known : fd < t.ev_loop.max_events
  pub limited : t.sendlist.max_size < 2 ^ 64

pub wake_up-same :
    (t : NetThread) (issued : List ℕ) (n : ℕ) (polled : Bool)
    → Sound t issued n
    → Wakes t
    → wake_up t polled ≡ some t
unfolding wake_up
wake_up-same t issued n polled s w =
    let (r, e) = mod_ev_only-known t.ev_loop (notify_event t) w.fd polled s.loop w.at_fd w.known in
    rw (e, wake_up) refl

-- The thread with one more command.
abbrev pub queued : NetThread → TagSendData → NetThread
queued t msg = record t { sendlist = insert_back t.sendlist msg }

pushes :
    (q : ThreadQueue TagSendData) (msg : TagSendData)
    → has_room q ≡ true
    → ((push_back q msg).0 ≡ true) × ((push_back q msg).1 ≡ insert_back q msg)
pushes q msg h = let e = push_back-room q msg h in (ap (λ p. p.0) e, ap (λ p. p.1) e)

push_until-room :
    (q : ThreadQueue TagSendData) (msg : TagSendData) (wakes : List (ThreadQueue TagSendData))
    → has_room q ≡ true
    → push_until q msg wakes ≡ done (insert_back q msg)
unfolding push_until
push_until-room q msg [] h = let (z, o) = pushes q msg h in rw (z, push_until) (ap done o)
push_until-room q msg (r ∷ rs) h = let (z, o) = pushes q msg h in rw (z, push_until) (ap done o)

-- A request with an address, while there is room, is one more command.
pub close_connector-queued :
    (t : NetThread) (issued : List ℕ) (n : ℕ) (ip : List ℕ) (port uid : ℕ) (fd : ℤ) (reason : ℕ)
    (wakes : List (ThreadQueue TagSendData)) (polled : Bool)
    → Sound t issued n
    → Wakes t
    → is_named ip port uid fd ≡ true
    → has_room t.sendlist ≡ true
    → close_connector t ip port uid fd reason wakes polled
      ≡ done (some (queued t (close_data ip port uid reason)))
unfolding close_connector
close_connector-queued t issued n ip port uid fd reason wakes polled s w named room =
    let msg = close_data ip port uid reason in
    let q = insert_back t.sendlist msg in
    rw (named, push_until-room t.sendlist msg wakes room, close_connector)
      (ap done (
        wake_up-same (record t { sendlist = q }) issued n polled (Sound-queue t q issued n s)
          (record {
            fd = w.fd;
            at_fd = w.at_fd;
            known = w.known;
            limited = unfold insert_back in w.limited;
          })))

-- What is pushed while there is room is counted.
pub insert_back-counted :
    (q : ThreadQueue TagSendData) (msg : TagSendData)
    → has_room q ≡ true
    → q.max_size < 2 ^ 64
    → 0 < (insert_back q msg).size
insert_back-counted q msg room limited =
    let (_, size, _) = push_back-below q msg (below q room) limited in
    omega (arith, size, ap (λ p. p.1.size) (push_back-room q msg room))

-- The queue after its only command is taken.
abbrev pub taken : ThreadQueue TagSendData → ThreadQueue TagSendData
taken q = record q { queue = []; size = dec64 q.size }

-- The notification of a queue with one command.
pub one_command :
    (t u : NetThread) (msg : TagSendData) (outs : List (Option ℕ)) (es : List Effect)
    → t.sendlist.queue ≡ msg ∷ []
    → 0 < t.sendlist.size
    → run_command (record t { sendlist = taken t.sendlist }) msg (next_accept outs).0 ≡ some (es, u)
    → u.sendlist.queue ≡ []
    → read_pipe_cb t event_write outs ≡ some (es, u)
unfolding read_pipe_cb
one_command t u msg outs es h k r e =
    ap (λ xs. pipe_loop (suc (length xs)) t outs) h
    ∙ pipe_loop-cons 1 t msg [] outs h k r (pipe_loop-nil 0 u (next_accept outs).1 e)
    ∙ ap (λ xs. some (xs, u)) (append-nil es)

pub is_meant-own :
    (c : Connector) (msg : TagSendData) → msg.ip ≡ c.ip → msg.port ≡ c.port → is_meant c msg ≡ true
is_meant-own c msg i p = rw (i, p) (ground (arith, same_text_refl c.ip))

-- What becomes of a connection whose closing was asked for.
pub record Closes (t : NetThread) (issued : List ℕ) (uid reason : ℕ) (c : Connector) (o : Outcome)
    : Type 0 where
  pub effects : List Effect
  pub after : NetThread
  pub result : o ≡ some (effects, after)
  pub called : effects ≡ closed_cb c reason ∷ (if is_open c then closed c.connect_fd ∷ [] else [])
  pub gone : get after.connector_list uid ≡ some none
  pub freed : count (bit_and uid uid_mask) after.connector_list.free ≡ 1
  pub sound : Sound after issued 0

-- A thread with an empty queue that has room, whose connections can take 9 bytes more, is asked to
-- close a connection of its table, by the id, the address of the connection and a positive descriptor,
-- with a reason below 10 ^ 9. Once the notification is served, the callback was called with the
-- connection and that reason, the descriptor is closed unless it was, the id is free and finds
-- nothing, and the thread is sound.
pub close_connector-Closes :
    (t : NetThread) (issued : List ℕ) (uid : ℕ) (e : Entry) (fd : ℤ) (reason : ℕ)
    (wakes : List (ThreadQueue TagSendData)) (outs : List (Option ℕ)) (polled : Bool)
    → Sound t issued 9
    → Wakes t
    → t.sendlist.queue ≡ []
    → has_room t.sendlist ≡ true
    → bit_and uid magic_mask ≡ t.connector_list.magic
    → get_elem? t.connector_list.vconn (bit_and uid uid_mask) ≡ some (some e)
    → is_named e.conn.ip e.conn.port uid fd ≡ true
    → reason < 10 ^ 9
    → (u : NetThread) × (close_connector t e.conn.ip e.conn.port uid fd reason wakes polled
        ≡ done (some u))
      × Closes t issued uid reason e.conn (read_pipe_cb u event_write outs)
unfolding run_command
close_connector-Closes t issued uid e fd reason wakes outs polled s w empty room m g named small =
    let msg = close_data e.conn.ip e.conn.port uid reason in
    let u = queued t msg in
    let q : u.sendlist.queue ≡ msg ∷ [] =
      insert_back-queue t.sendlist msg ∙ ap (λ xs. xs ++ msg ∷ []) empty in
    let v = record u { sendlist = taken u.sendlist } in
    let meant : is_meant e.conn msg ≡ true = is_meant-own e.conn msg refl refl in
    let c =
      do_close-Closing v issued 0 msg e
        (Sound-less v issued 9 (0 + length msg.buffer) (Sound-queue t (taken u.sendlist) issued 9 s)
          (omega (arith, length-print_reason reason)))
        m g in
    let r : run_command v msg (next_accept outs).0 ≡ some (c.ran.effects, c.ran.after) =
      on_conn-Meant v msg (do_close v msg) e (record { marked = m; slot = g; meant = meant })
      ∙ c.ran.result in
    (
      u,
      close_connector-queued t issued 9 e.conn.ip e.conn.port uid fd reason wakes polled s w named
          room,
      record {
        effects = c.ran.effects;
        after = c.ran.after;
        result =
            one_command u c.ran.after msg outs c.ran.effects q
              (insert_back-counted t.sendlist msg room w.limited) r
              (ap (λ x. x.queue) c.ran.same_queue);
        called =
            c.called
            ∙ ap
                (λ k.
                  closed_cb e.conn k
                  ∷ (if is_open e.conn then closed e.conn.connect_fd ∷ [] else []))
                (scan-print_reason reason small);
        gone = c.gone;
        freed = c.freed;
        sound = c.ran.sound;
      },
    )

-- A request leaves the table as it was.
pub close_connector-table :
    (t u : NetThread) (ip : List ℕ) (port uid : ℕ) (fd : ℤ) (reason : ℕ)
    (wakes : List (ThreadQueue TagSendData)) (polled : Bool)
    → close_connector t ip port uid fd reason wakes polled ≡ done (some u)
    → u.connector_list ≡ t.connector_list
unfolding close_connector wake_up
close_connector-table t u ip port uid fd reason wakes polled e = ground arith
