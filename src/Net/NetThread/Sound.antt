-- ===== src/Net/NetThread/Sound.antt =====
-- net/net_thread.h: what a net thread keeps true, and that the table may change a connection.
use sails.Prelude.{
  ℕ, ◌+◌, ◌^◌, ◌<◌, ◌≤◌, ◌≡◌, refl, ap, ◌∙◌, subst, bit_and, false, some, List, ◌≢◌, ◌⊎◌, inl, inr,
  arith, ◌==◌, length, get_elem?, set, Bool-cases,
}
use sails.Prelude.Int.{pos}
use sails.Base.Buffer.Contents
use sails.Base.EventLoop.{EventLoop}
use sails.Base.EventLoop.Flags
use sails.Base.PtrList.Invariant.{held, weight, held-set}
use sails.Net.Connector.{Connector}
use sails.Net.Connector.Buffers.{Same}
use sails.Net.ConnectorList.{ConnectorList, Entry, magic_mask, uid_mask}
use sails.Net.ConnectorList.Invariant.{Inv, Timed, slot-set, slot-set_self}
use sails.Net.ConnectorList.Ownership.{held_slot}
use sails.Net.ConnectorList.Refresh.{replace-Inv}
use sails.Net.Commands.{TagSendData, cmd_set}
use sails.Net.NetThread.{NetThread, put}

-- A connection whose descriptor the event loop has room for, and whose output buffer can take `n`
-- more bytes.
pub record Fit (ev : EventLoop) (n : ℕ) (c : Connector) : Type 0 where
  pub fd : ℕ
  pub at_fd : c.connect_fd ≡ pos fd
  pub known : fd < ev.max_events
  pub valid : Contents.Inv c.out_buf
  pub room : length c.out_buf.bytes + n < 2 ^ 62

-- The thread with its table, its timeouts and its event loop in order; `n` more bytes fit into each
-- output buffer.
pub record Sound (t : NetThread) (issued : List ℕ) (n : ℕ) : Type 0 where
  pub table : Inv t.connector_list issued
  pub timed : Timed t.connector_list
  pub loop : Flags.Inv t.ev_loop
  pub conns :
      (i : ℕ) (e : Entry)
      → get_elem? t.connector_list.vconn i ≡ some (some e)
      → Fit t.ev_loop n e.conn

-- A command whose id, if it carries the magic, lies in the table, and whose bytes are there.
pub record Sensible (magic total : ℕ) (msg : TagSendData) : Type 0 where
  pub inside : (bit_and msg.uid magic_mask ≢ magic) ⊎ (bit_and msg.uid uid_mask ≤ total)
  pub whole : ((msg.cmd == cmd_set) ≡ false) ⊎ (8 ≤ length msg.buffer)

pub Fit-less :
    (ev ev' : EventLoop) (n m : ℕ) (c : Connector)
    → Fit ev n c
    → ev'.max_events ≡ ev.max_events
    → m ≤ n
    → Fit ev' m c
Fit-less ev ev' n m c f s h = record {
  fd = f.fd;
  at_fd = f.at_fd;
  known = omega (arith, f.known);
  valid = f.valid;
  room = omega (arith, f.room);
}

pub put-slot :
    (l : ConnectorList) (uid : ℕ) (c : Connector) (e : Entry)
    → get_elem? l.vconn (bit_and uid uid_mask) ≡ some (some e)
    → put l uid c
      ≡ record l { vconn = set l.vconn (bit_and uid uid_mask) (some (record e { conn = c })) }
unfolding put
put-slot l uid c e g = rw (g, put) refl

-- A connection is changed in its place.
pub change-Timed :
    (l : ConnectorList) (i : ℕ) (c : Connector) (e : Entry)
    → Timed l
    → i < length l.vconn
    → get_elem? l.vconn i ≡ some (some e)
    → Timed (record l { vconn = set l.vconn i (some (record e { conn = c })) })
change-Timed l i c e t h g =
    let f : Entry = record e { conn = c } in
    let w : held i l.vconn ≡ 1 = ap weight g in
    record {
      one_each = λ j. ground (arith, t.one_each j, held-set i j (some f) l.vconn h);
      iterators = λ j d k. elim (Bool-cases (i == j)) [
        | inl same ↦
            let this : some f ≡ some d = slot-set_self i j (some f) l.vconn d k same in
            let tm : e.timer ≡ d.timer = ground arith in
            let ij : i ≡ j = ground arith in rw (← tm, ← ij) (t.iterators i e g)
        | inr other ↦ t.iterators j d (slot-set i j (some f) l.vconn d k other)
      ];
      fresh = t.fresh;
      sorted = t.sorted;
    }

pub put-Sound :
    (t : NetThread) (issued : List ℕ) (n m uid : ℕ) (c : Connector) (e : Entry)
    → Sound t issued n
    → m ≤ n
    → get_elem? t.connector_list.vconn (bit_and uid uid_mask) ≡ some (some e)
    → Fit t.ev_loop m c
    → Sound (record t { connector_list = put t.connector_list uid c }) issued m
put-Sound t issued n m uid c e s le g fit =
    let l = t.connector_list in
    let i = bit_and uid uid_mask in
    let f : Entry = record e { conn = c } in
    let (above, inside) = held_slot l issued i e s.table g in
    let b : i < length l.vconn = omega (arith, s.table.slots) in
    rw (put-slot l uid c e g) (record {
      table = replace-Inv l issued e f i l.next_node l.tl s.table inside g;
      timed = change-Timed l i c e s.timed b g;
      loop = s.loop;
      conns = λ j d k. elim (Bool-cases (i == j)) [
        | inl same ↦
            let this : some f ≡ some d = slot-set_self i j (some f) l.vconn d k same in
            let q : c ≡ d.conn = ground arith in subst (Fit t.ev_loop m) q fit
        | inr other ↦
            Fit-less t.ev_loop t.ev_loop n m d.conn
              (s.conns j d (slot-set i j (some f) l.vconn d k other)) refl le
      ];
    })

-- A connection that differs in its output buffer only, which grew by what was written at most.
pub Fit-Same :
    (ev : EventLoop) (n m : ℕ) (c d : Connector)
    → Fit ev n c
    → Same c d
    → Contents.Inv d.out_buf
    → length d.out_buf.bytes + m ≤ length c.out_buf.bytes + n
    → Fit ev m d
Fit-Same ev n m c d f s v h = record {
  fd = f.fd;
  at_fd = s.same_fd ∙ f.at_fd;
  known = f.known;
  valid = v;
  room = omega (arith, f.room);
}
