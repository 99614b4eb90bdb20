-- ===== src/Net/NetThread/Commands.antt =====
-- net/net_thread.h: what each command of `read_pipe_cb` does to the connection that it names, and
-- that it does not fault.
use sails.Prelude.Ints.{int_prefix, int_prefix-length}
use sails.Prelude.{
  ℕ, ◌+◌, ◌<◌, ◌≤◌, ◌≡◌, refl, sym, ap, ◌∙◌, subst, bit_and, true, false, Option, none, some, List,
  [], ◌∷◌, ◌⊎◌, inl, inr, arith, ◌==◌, length, get_elem?, set, get_elem?-set_self, Bool-cases,
  if◌then◌else◌,
}
use sails.Prelude.Int.{pos}
use sails.Prelude.Counts.{count}
use sails.Base.EventLoop.{Anfd, event_stop, on_fd}
use sails.Base.EventLoop.Changes.{event_stop-Stopped}
use sails.Net.Connector
use sails.Net.Connector.{Connector, is_open}
use sails.Net.Connector.Buffers.{write-Wrote, send-Left, close-same}
use sails.Net.ConnectorList.{ConnectorList, Entry, get, del, magic_mask, uid_mask}
use sails.Net.ConnectorList.Invariant.{Inv, slot-set, slot-set_self}
use sails.Net.ConnectorList.Access.{get-slot, get-Found, del-some, del-total, get-del_lem}
use sails.Net.ConnectorList.Refresh.{replace-Inv, del-Inv}
use sails.Net.ConnectorList.Ownership.{held_slot}
use sails.Net.Commands.{TagSendData, cmd_send, cmd_close, cmd_set, scan_reason}
use sails.Net.Commands.Texts.{ext_of-whole}
use sails.Net.NetThread.{
  NetThread, Effect, sent, closed_cb, closed, Outcome, is_meant, on_conn, do_send, do_close, do_set,
  run_command, put, shut,
}
use sails.Net.NetThread.Sound.{
  Fit, Sound, Sensible, Fit-less, Fit-Same, put-slot, put-Sound, change-Timed,
}

-- The id finds a connection with the address of the command, in a slot of the table.
pub record Meant (t : NetThread) (msg : TagSendData) (e : Entry) : Type 0 where
  pub marked : bit_and msg.uid magic_mask ≡ t.connector_list.magic
  pub slot : get_elem? t.connector_list.vconn (bit_and msg.uid uid_mask) ≡ some (some e)
  pub meant : is_meant e.conn msg ≡ true

-- A sensible command names a connection, or nothing is done for it.
pub on_conn-cases :
    (t : NetThread) (issued : List ℕ) (msg : TagSendData) (act : Connector → Outcome)
    → Inv t.connector_list issued
    → Sensible t.connector_list.magic t.connector_list.total msg
    → (on_conn t msg act ≡ some ([], t))
      ⊎ ((e : Entry) × Meant t msg e × (on_conn t msg act ≡ act e.conn))
unfolding on_conn
on_conn-cases t issued msg act v s = elim (get-Found t.connector_list issued msg.uid v s.inside) [
  | inl null ↦ inl (rw (null, on_conn) refl)
  | inr (e, m, g, found) ↦ elim (Bool-cases (is_meant e.conn msg)) [
    | inl its ↦ inr (e, record { marked = m; slot = g; meant = its }, rw (found, its, on_conn) refl)
    | inr other ↦ inl (rw (found, other, on_conn) refl)
  ]
]

pub on_conn-Meant :
    (t : NetThread) (msg : TagSendData) (act : Connector → Outcome) (e : Entry)
    → Meant t msg e
    → on_conn t msg act ≡ act e.conn
unfolding on_conn
on_conn-Meant t msg act e m =
    rw (get-slot t.connector_list msg.uid (some e) m.marked m.slot, m.meant, on_conn) refl

-- What holds after a command: no fault, and the thread is sound, with its queue as it was.
pub record Ran (t : NetThread) (issued : List ℕ) (n : ℕ) (o : Outcome) : Type 0 where
  pub effects : List Effect
  pub after : NetThread
  pub result : o ≡ some (effects, after)
  pub sound : Sound after issued n
  pub same_queue : after.sendlist ≡ t.sendlist
  pub same_magic : after.connector_list.magic ≡ t.connector_list.magic
  pub same_total : after.connector_list.total ≡ t.connector_list.total
  pub same_size : after.ev_loop.max_events ≡ t.ev_loop.max_events
  pub same_notify : after.notify ≡ t.notify

pub Sound-less :
    (t : NetThread) (issued : List ℕ) (n m : ℕ) → Sound t issued n → m ≤ n → Sound t issued m
Sound-less t issued n m s h = record {
  table = s.table;
  timed = s.timed;
  loop = s.loop;
  conns = λ i e g. Fit-less t.ev_loop t.ev_loop n m e.conn (s.conns i e g) refl h;
}

idle-Ran :
    (t : NetThread) (issued : List ℕ) (n m : ℕ) (o : Outcome)
    → Sound t issued n
    → m ≤ n
    → o ≡ some ([], t)
    → Ran t issued m o
idle-Ran t issued n m o s h e = record {
  effects = [];
  after = t;
  result = e;
  sound = Sound-less t issued n m s h;
  same_queue = refl;
  same_magic = refl;
  same_total = refl;
  same_size = refl;
  same_notify = refl;
}

-- A command that puts a connection in the place of the one it names.
put-Ran :
    (t : NetThread) (issued : List ℕ) (n m uid : ℕ) (c : Connector) (e : Entry) (es : List Effect)
    (o : Outcome)
    → Sound t issued n
    → m ≤ n
    → get_elem? t.connector_list.vconn (bit_and uid uid_mask) ≡ some (some e)
    → Fit t.ev_loop m c
    → o ≡ some (es, record t { connector_list = put t.connector_list uid c })
    → Ran t issued m o
put-Ran t issued n m uid c e es o s h g f q =
    let p = put-slot t.connector_list uid c e g in
    record {
      effects = es;
      after = record t { connector_list = put t.connector_list uid c };
      result = q;
      sound = put-Sound t issued n m uid c e s h g f;
      same_queue = refl;
      same_magic = ap (λ l. l.magic) p;
      same_total = ap (λ l. l.total) p;
      same_size = refl;
      same_notify = refl;
    }

-- 's' on the connection it means: the bytes are written behind those that were to go, and some go.
do_send-Ran :
    (t : NetThread) (issued : List ℕ) (n : ℕ) (msg : TagSendData) (accepted : Option ℕ) (e : Entry)
    → Sound t issued (n + length msg.buffer)
    → get_elem? t.connector_list.vconn (bit_and msg.uid uid_mask) ≡ some (some e)
    → Ran t issued n (do_send t msg accepted e.conn)
unfolding do_send
do_send-Ran t issued n msg accepted e s g =
    let f = s.conns (bit_and msg.uid uid_mask) e g in
    let (d, w, k) =
      write-Wrote e.conn (int_prefix msg.buffer) f.valid
        (omega (arith, f.room, int_prefix-length msg.buffer)) in
    let r = Connector.send d accepted in
    let left = send-Left d accepted k.valid in
    let fd =
      Fit-Same t.ev_loop (n + length msg.buffer) n e.conn d f k.same k.valid
        (omega (arith, k.grown, int_prefix-length msg.buffer)) in
    let fit = Fit-Same t.ev_loop n n d r.2 fd left.same left.valid (omega (arith, left.size)) in
    put-Ran t issued (n + length msg.buffer) n msg.uid r.2 e (sent d.connect_fd r.1 ∷ [])
      (do_send t msg accepted e.conn) s (omega arith) g fit (rw (w, do_send) refl)

do_set-Ran :
    (t : NetThread) (issued : List ℕ) (n : ℕ) (msg : TagSendData) (e : Entry)
    → Sound t issued (n + length msg.buffer)
    → 8 ≤ length msg.buffer
    → get_elem? t.connector_list.vconn (bit_and msg.uid uid_mask) ≡ some (some e)
    → Ran t issued n (do_set t msg e.conn)
unfolding do_set
do_set-Ran t issued n msg e s h g =
    let f = s.conns (bit_and msg.uid uid_mask) e g in
    let (x, w) = ext_of-whole msg.buffer (0 ∷ []) h in
    let fit : Fit t.ev_loop n (record e.conn { ext_data = x }) = record {
      fd = f.fd;
      at_fd = f.at_fd;
      known = f.known;
      valid = f.valid;
      room = omega (arith, f.room);
    } in
    put-Ran t issued (n + length msg.buffer) n msg.uid (record e.conn { ext_data = x }) e []
      (do_set t msg e.conn) s (omega arith) g fit (rw (w, do_set) refl)

-- What 'c' does on the connection it means.
pub record Closing (t : NetThread) (issued : List ℕ) (n : ℕ) (msg : TagSendData) (c : Connector)
    : Type 0 where
  pub ran : Ran t issued n (do_close t msg c)
  pub called :
      ran.effects
      ≡ closed_cb c (scan_reason msg.buffer) ∷ (if is_open c then closed c.connect_fd ∷ [] else [])
  pub gone : get ran.after.connector_list msg.uid ≡ some none
  pub freed : count (bit_and msg.uid uid_mask) ran.after.connector_list.free ≡ 1
  pub unwatched :
      (fd : ℕ) (a : Anfd)
      → c.connect_fd ≡ pos fd
      → get_elem? ran.after.ev_loop.anfds fd ≡ some a
      → a.isused ≡ false

-- What a deletion leaves in the table was there before.
after_del :
    (l l' : ConnectorList) (i uid : ℕ) (d : Entry)
    → bit_and uid uid_mask ≡ i
    → del (record l { vconn = set l.vconn i (some d) }) uid ≡ some l'
    → (j : ℕ) (e : Entry) → get_elem? l'.vconn j ≡ some (some e)
    → get_elem? l.vconn j ≡ some (some e)
after_del l l' i uid d q h j e k =
    let lm = record l { vconn = set l.vconn i (some d) } in
    let (_, _, v) = del-some lm l' uid i q h in
    let k' : get_elem? (set lm.vconn i none) j ≡ some (some e) =
      ap (λ vs. get_elem? vs j) (sym v) ∙ k in
    elim (Bool-cases (i == j)) [
      | inl same ↦ absurd (let r = slot-set_self i j none lm.vconn e k' same in ground arith)
      | inr other ↦ slot-set i j (some d) l.vconn e (slot-set i j none lm.vconn e k' other) other
    ]

-- 'c' of the connection it means does not fault: the callback is called with the connection and the
-- reason, the descriptor is closed unless it was, nothing is watched on it any more, and its id is
-- free and finds nothing.
pub do_close-Closing :
    (t : NetThread) (issued : List ℕ) (n : ℕ) (msg : TagSendData) (e : Entry)
    → Sound t issued (n + length msg.buffer)
    → bit_and msg.uid magic_mask ≡ t.connector_list.magic
    → get_elem? t.connector_list.vconn (bit_and msg.uid uid_mask) ≡ some (some e)
    → Closing t issued n msg e.conn
unfolding do_close
do_close-Closing t issued n msg e s m g =
    let l = t.connector_list in
    let i = bit_and msg.uid uid_mask in
    let f = s.conns i e g in
    let (ev, stop, st) = event_stop-Stopped t.ev_loop f.fd s.loop f.known in
    let stop' : on_fd e.conn.connect_fd none (event_stop t.ev_loop) ≡ some ev =
      ap (λ z. on_fd z none (event_stop t.ev_loop)) f.at_fd ∙ stop in
    let (above, inside) = held_slot l issued i e s.table g in
    let b : i < length l.vconn = omega (arith, s.table.slots) in
    let d : Entry = record e { conn = shut e.conn } in
    let lm = record l { vconn = set l.vconn i (some d) } in
    let at_i : get_elem? lm.vconn i ≡ some (some d) = get_elem?-set_self l.vconn i (some d) b in
    let im = replace-Inv l issued e d i l.next_node l.tl s.table inside g in
    let (l', h, table, timed, magic, once) =
      del-Inv lm issued msg.uid i d im (change-Timed l i (shut e.conn) e s.timed b g) m refl at_i in
    let h' : del (put l msg.uid (shut e.conn)) msg.uid ≡ some l' =
      ap (λ x. del x msg.uid) (put-slot l msg.uid (shut e.conn) e g) ∙ h in
    let es =
      closed_cb e.conn (scan_reason msg.buffer)
      ∷ (if (Connector.close e.conn).0 then closed e.conn.connect_fd ∷ [] else []) in
    record {
      ran = record {
        effects = es;
        after = record t { ev_loop = ev; connector_list = l' };
        result = rw (stop', h', do_close) refl;
        sound = record {
          table = table;
          timed = timed;
          loop = st.sound;
          conns = λ j c k.
              Fit-less t.ev_loop ev (n + length msg.buffer) n c.conn
                (s.conns j c (after_del l l' i msg.uid d refl h j c k)) st.same_size (omega arith);
        };
        same_queue = refl;
        same_magic = magic;
        same_total = del-total lm l' msg.uid h;
        same_size = st.same_size;
        same_notify = refl;
      };
      called =
          ap
            (λ x.
              closed_cb e.conn (scan_reason msg.buffer)
              ∷ (if x then closed e.conn.connect_fd ∷ [] else []))
            (close-same e.conn).2;
      gone = get-del_lem lm l' issued msg.uid im h;
      freed = once;
      unwatched = λ fd a p k.
          let q : pos f.fd ≡ pos fd = sym f.at_fd ∙ p in
          let r : f.fd ≡ fd = ground arith in st.stopped a (ap (get_elem? ev.anfds) r ∙ k);
    }

on_conn-Ran :
    (t : NetThread) (issued : List ℕ) (n m : ℕ) (msg : TagSendData) (act : Connector → Outcome)
    → Sound t issued n
    → m ≤ n
    → Sensible t.connector_list.magic t.connector_list.total msg
    → ((e : Entry) → Meant t msg e → Ran t issued m (act e.conn))
    → Ran t issued m (on_conn t msg act)
on_conn-Ran t issued n m msg act s h r f = elim (on_conn-cases t issued msg act s.table r) [
  | inl q ↦ idle-Ran t issued n m (on_conn t msg act) s h q
  | inr (e, k, q) ↦ subst (Ran t issued m) (sym q) (f e k)
]

-- One command does not fault, whatever it names and whatever `::write` takes.
pub run_command-Ran :
    (t : NetThread) (issued : List ℕ) (n : ℕ) (msg : TagSendData) (accepted : Option ℕ)
    → Sound t issued (n + length msg.buffer)
    → Sensible t.connector_list.magic t.connector_list.total msg
    → Ran t issued n (run_command t msg accepted)
unfolding run_command
run_command-Ran t issued n msg accepted s r =
    let k = n + length msg.buffer in
    let le : n ≤ k = omega arith in
    elim (Bool-cases (msg.cmd == cmd_send)) [
      | inl is_s ↦
          rw (is_s, run_command)
            (on_conn-Ran t issued k n msg (do_send t msg accepted) s le r
              (λ e m. do_send-Ran t issued n msg accepted e s m.slot))
      | inr no_s ↦ elim (Bool-cases (msg.cmd == cmd_close)) [
        | inl is_c ↦
            rw (no_s, is_c, run_command)
              (on_conn-Ran t issued k n msg (do_close t msg) s le r
                (λ e m. (do_close-Closing t issued n msg e s m.marked m.slot).ran))
        | inr no_c ↦ elim (Bool-cases (msg.cmd == cmd_set)) [
          | inl is_m ↦
              rw (no_s, no_c, is_m, run_command)
                (on_conn-Ran t issued k n msg (do_set t msg) s le r (λ e m.
                  do_set-Ran t issued n msg e s
                    (elim r.whole [
                      | inl other ↦ absurd (let q = sym is_m ∙ other in ground arith)
                      | inr enough ↦ enough
                    ])
                    m.slot))
          | inr no_m ↦
              idle-Ran t issued k n (run_command t msg accepted) s le
                (rw (no_s, no_c, no_m, run_command) refl)
        ]
      ]
    ]
