-- ===== src/Net/NetThread/Delivery.antt =====
-- net/net_thread.h: bytes and data that another thread hands over reach the connection.
use sails.Prelude.{
  ℕ, ◌^◌, ◌<◌, ◌≤◌, ◌≡◌, refl, ap, ◌∙◌, bit_and, Bool, true, Option, some, List, [], ◌∷◌, ◌++◌,
  arith, length, length-append, get_elem?, set, get_elem?-set_self, get_elem?-inside,
}
use mathlib.Core.List.{append-nil}
use sails.Prelude.Ints.{int_prefix-all}
use sails.Prelude.Int.{ℤ}
use sails.Base.Buffer.{unread}
use sails.Base.ThreadQueue.{has_room, insert_back}
use sails.Base.ThreadQueue.Order.{push_back-room, insert_back-queue}
use sails.Net.Connector
use sails.Net.Connector.{Connector, is_open}
use sails.Net.Connector.Stream.{send-Kept, taken_by, send-taken_by}
use sails.Net.Connector.Buffers.{write-Wrote}
use sails.Net.ConnectorList.{ConnectorList, Entry, get, magic_mask, uid_mask}
use sails.Net.ConnectorList.Access.{get-slot}
use sails.Net.Commands.{TagSendData, cmd_send}
use sails.Net.Commands.Texts.{ext_of-bytes}
use sails.Net.NetThread.{
  NetThread, sent, put, next_accept, run_command, do_send, do_set, read_pipe_cb, event_write,
  is_named, queue_once, send, set_data, set_connector_data, wake_up,
}
use sails.Net.NetThread.Sound.{Sound, put-slot}
use sails.Net.NetThread.Commands.{on_conn-Meant}
use sails.Net.NetThread.Pipe.{Sound-queue}
use sails.Net.NetThread.Requests.{
  Wakes, wake_up-same, queued, taken, insert_back-counted, one_command, is_meant-own,
}

queue_once-queued :
    (t : NetThread) (issued : List ℕ) (n : ℕ) (msg : TagSendData) (polled : Bool)
    → Sound t issued n
    → Wakes t
    → has_room t.sendlist ≡ true
    → queue_once t msg polled ≡ some (queued t msg)
unfolding queue_once
queue_once-queued t issued n msg polled s w room =
    ap (λ x. wake_up (record t { sendlist = x.1 }) polled) (push_back-room t.sendlist msg room)
    ∙ wake_up-same (queued t msg) issued n polled (Sound-queue t (queued t msg).sendlist issued n s)
        (record {
          fd = w.fd;
          at_fd = w.at_fd;
          known = w.known;
          limited = unfold insert_back in w.limited;
        })

get-put :
    (l : ConnectorList) (uid : ℕ) (c : Connector) (e : Entry)
    → bit_and uid magic_mask ≡ l.magic
    → bit_and uid uid_mask < length l.vconn
    → get_elem? l.vconn (bit_and uid uid_mask) ≡ some (some e)
    → get (put l uid c) uid ≡ some (some c)
get-put l uid c e m h g =
    let f : Entry = record e { conn = c } in
    ap (λ x. get x uid) (put-slot l uid c e g)
    ∙ get-slot (record l { vconn = set l.vconn (bit_and uid uid_mask) (some f) }) uid (some f) m
        (get_elem?-set_self l.vconn (bit_and uid uid_mask) (some f) h)

module _ (t : NetThread) (issued : List ℕ) (n uid : ℕ) (e : Entry) (outs : List (Option ℕ))
    (polled : Bool) (s : Sound t issued n) (w : Wakes t) (empty : t.sendlist.queue ≡ [])
    (room : has_room t.sendlist ≡ true) (m : bit_and uid magic_mask ≡ t.connector_list.magic)
    (g : get_elem? t.connector_list.vconn (bit_and uid uid_mask) ≡ some (some e)) where
  only_one : (msg : TagSendData) → (queued t msg).sendlist.queue ≡ msg ∷ []
  only_one msg = insert_back-queue t.sendlist msg ∙ ap (λ xs. xs ++ msg ∷ []) empty

  in_table : bit_and uid uid_mask < length t.connector_list.vconn
  in_table = get_elem?-inside t.connector_list.vconn (bit_and uid uid_mask) g

  -- The data that is set by id, address and a positive descriptor is the data of the connection
  -- once the notification is served.
  pub set_connector_data-get :
      (fd : ℤ) (x : ℕ)
      → is_named e.conn.ip e.conn.port uid fd ≡ true
      → x < 2 ^ 64
      → (u v : NetThread) × (set_connector_data t e.conn.ip e.conn.port uid fd x polled ≡ some u)
        × (read_pipe_cb u event_write outs ≡ some ([], v))
        × (get v.connector_list uid ≡ some (some (record e.conn { ext_data = x })))
  unfolding set_connector_data run_command do_set
  set_connector_data-get fd x named small =
      let msg = set_data e.conn.ip e.conn.port uid x in
      let u = queued t msg in
      let u' = record u { sendlist = taken u.sendlist } in
      let c : Connector = record e.conn { ext_data = x } in
      let v = record u' { connector_list = put t.connector_list uid c } in
      let r : run_command u' msg (next_accept outs).0 ≡ some ([], v) =
        on_conn-Meant u' msg (do_set u' msg) e
          (record { marked = m; slot = g; meant = is_meant-own e.conn msg refl refl })
        ∙ rw (ext_of-bytes x (0 ∷ []) small, do_set) refl in
      (
        u,
        v,
        rw (named, set_connector_data) (queue_once-queued t issued n msg polled s w room),
        one_command u v msg outs [] (only_one msg)
            (insert_back-counted t.sendlist msg room w.limited) r refl,
        get-put t.connector_list uid c e m in_table g,
      )

  -- Bytes for an open connection, sent by id and address, with fewer than 2 ^ 31 to go in all,
  -- are handed to its descriptor behind what was still to go once the notification is served: as many as
  -- `::write` answers that it took, none where it fails, and the rest stays in its output buffer.
  pub send-Delivered :
      (bytes : List ℕ)
      → is_open e.conn ≡ true
      → length bytes ≤ n
      → length (unread e.conn.out_buf ++ bytes) < 2 ^ 31
      → (u v : NetThread) × (d : Connector) × (out : List ℕ) × (send t e.conn.ip e.conn.port uid
            bytes polled
          ≡ some u)
        × (read_pipe_cb u event_write outs ≡ some (sent e.conn.connect_fd out ∷ [], v))
        × (get v.connector_list uid ≡ some (some d))
        × (is_open d ≡ true)
        × (out ≡ taken_by (next_accept outs).0 (unread e.conn.out_buf ++ bytes))
        × (out ++ unread d.out_buf ≡ unread e.conn.out_buf ++ bytes)
  unfolding send run_command do_send
  send-Delivered bytes opened fits few =
      let msg : TagSendData = record {
        cmd = cmd_send;
        uid = uid;
        buffer = bytes;
        ip = e.conn.ip;
        port = e.conn.port;
      } in
      let f = s.conns (bit_and uid uid_mask) e g in
      let (d, wr, k) = write-Wrote e.conn bytes f.valid (omega (arith, f.room)) in
      let still : is_open d ≡ true = rw (k.same.same_closed, k.same.same_fd) opened in
      let a = (next_accept outs).0 in
      let r = Connector.send d a in
      let gone = send-Kept d a k.valid still in
      let u = queued t msg in
      let u' = record u { sendlist = taken u.sendlist } in
      let v = record u' { connector_list = put t.connector_list uid r.2 } in
      let ran : run_command u' msg a ≡ some (sent d.connect_fd r.1 ∷ [], v) =
        on_conn-Meant u' msg (do_send u' msg a) e
          (record { marked = m; slot = g; meant = is_meant-own e.conn msg refl refl })
        ∙ rw
            (
              int_prefix-all bytes (omega (arith, length-append (unread e.conn.out_buf) bytes)),
              wr,
              do_send,
            )
            refl in
      (
        u,
        v,
        r.2,
        r.1,
        queue_once-queued t issued n msg polled s w room,
        one_command u v msg outs (sent d.connect_fd r.1 ∷ []) (only_one msg)
              (insert_back-counted t.sendlist msg room w.limited) ran refl
            ∙ ap (λ z. some (sent z r.1 ∷ [], v)) k.same.same_fd,
        get-put t.connector_list uid r.2 e m in_table g,
        gone.still_open,
        send-taken_by d a k.valid still (omega (arith, ap length k.added))
            ∙ ap (taken_by a) k.added,
        gone.stream ∙ append-nil (unread d.out_buf) ∙ k.added,
      )
