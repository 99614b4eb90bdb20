-- ===== src/Net/Callbacks/Tick.antt =====
-- net/net_thread.h: the tick looks at the connections of thread 0 only.
use sails.Prelude.{
  ℕ, ◌+◌, ◌<◌, ◌≡◌, refl, sym, ap, ◌∙◌, Bool, true, false, Option, none, some, List, [], ◌∷◌, arith,
  get_elem?, get_elem?-set_ne,
}
use sails.Prelude.Words.{u32}
use sails.Base.ThreadQueue.{ThreadQueue, Waits, done, blocks, faults}
use sails.Net.ConnectorList.{ConnectorList, Entry, check_timeout}
use sails.Net.Commands.{TagSendData}
use sails.Net.NetThread.{has_tick_timer, NetThread}
use sails.Net.EpollServer.{EpollServer}
use sails.Net.EpollServer.Tables.{table_at, table_of, close_connector-tables}
use sails.Net.Callbacks.{
  timeout_reason, thread_at, set_table, timeout_cb, time_out_all, tick_timer_cb,
}

module _ {T : Type 0} where
  module _ (j : ℕ) (wakes : List (ThreadQueue TagSendData)) (polled : Bool) where
    timeout_cb-tables :
        (s s' : EpollServer T) (o : Option (Option Entry))
        → timeout_cb s o wakes polled ≡ done (some s')
        → table_at s' j ≡ table_at s j
    unfolding timeout_cb
    timeout_cb-tables s s' none e = absurd (ground arith)
    timeout_cb-tables s s' (some none) e = absurd (ground arith)
    timeout_cb-tables s s' (some (some f)) e = go f.conn.has_timeout_cb refl
      where
        go : (b : Bool) → f.conn.has_timeout_cb ≡ b → table_at s' j ≡ table_at s j
        go false q =
            let r : done (some s) ≡ done (some s') = sym (rw (q, timeout_cb) refl) ∙ e in
            ap (λ x. table_at x j) (sym (let z : s ≡ s' = ground arith in z))
        go true q =
            close_connector-tables s s' f.conn.ip f.conn.port f.conn.id f.conn.connect_fd
              timeout_reason wakes polled j (sym (rw (q, timeout_cb) refl) ∙ e)

    time_out_all-tables :
        (slots : List ℕ) (s s' : EpollServer T) (l : ConnectorList)
        → time_out_all s l slots wakes polled ≡ done (some s')
        → table_at s' j ≡ table_at s j
    unfolding time_out_all
    time_out_all-tables [] s s' l e =
        ap (λ x. table_at x j) (sym (let z : s ≡ s' = ground arith in z))
    time_out_all-tables (slot ∷ slots) s s' l e =
        go (timeout_cb s (get_elem? l.vconn slot) wakes polled) refl
          (λ u f. time_out_all-tables slots u s' l f)
      where
        go :
            (w : Waits (Option (EpollServer T)))
            → timeout_cb s (get_elem? l.vconn slot) wakes polled ≡ w
            → ((u : EpollServer T)
                → time_out_all u l slots wakes polled ≡ done (some s')
                → table_at s' j ≡ table_at u j)
            → table_at s' j ≡ table_at s j
        go blocks q rest =
            let r : blocks ≡ done (some s') = sym (rw (q, time_out_all) refl) ∙ e in
            absurd (ground arith)
        go faults q rest =
            let r : faults ≡ done (some s') = sym (rw (q, time_out_all) refl) ∙ e in
            absurd (ground arith)
        go (done none) q rest =
            let r : done none ≡ done (some s') = sym (rw (q, time_out_all) refl) ∙ e in
            absurd (ground arith)
        go (done (some u)) q rest =
            rest u (sym (rw (q, time_out_all) refl) ∙ e)
            ∙ timeout_cb-tables s u (get_elem? l.vconn slot) q

  -- The tick of a thread, with what `checkTimeout` says.
  tick_timer_cb-checked :
      (s s' : EpollServer T) (i now : ℕ) (wakes : List (ThreadQueue TagSendData)) (polled : Bool)
      (t : NetThread) (o : Option (List ℕ × ConnectorList))
      → thread_at s i ≡ some t
      → check_timeout t.connector_list now ≡ o
      → tick_timer_cb s i now wakes polled ≡ done (some s')
      → (slots : List ℕ) × (l : ConnectorList) × (time_out_all
            (set_table (record s { tick = u32 (s.tick + 1) }) i t l)
            l
            slots
            wakes
            polled
          ≡ done (some s'))
  unfolding tick_timer_cb
  tick_timer_cb-checked s s' i now wakes polled t none q c e =
      let r : done none ≡ done (some s') = sym (rw (q, c, tick_timer_cb) refl) ∙ e in
      absurd (ground arith)
  tick_timer_cb-checked s s' i now wakes polled t (some (slots, l)) q c e =
      (slots, l, sym (rw (q, c, tick_timer_cb) refl) ∙ e)

  -- A tick of the timer that a thread made, for a server whose threads have the indexes of their
  -- slots. When it returns, the table of each thread but the first is as it was: there no connection
  -- is timed out, however long ago it was last used.
  pub tick_timer_cb-others :
      (s s' : EpollServer T) (i now j : ℕ) (wakes : List (ThreadQueue TagSendData)) (polled : Bool)
      (t : NetThread)
      → thread_at s i ≡ some t
      → t.index ≡ i
      → has_tick_timer t ≡ true
      → 0 < j
      → tick_timer_cb s i now wakes polled ≡ done (some s')
      → table_at s' j ≡ table_at s j
  unfolding has_tick_timer
  tick_timer_cb-others s s' i now j wakes polled t q own timer h e =
      let (slots, l, f) =
        tick_timer_cb-checked s s' i now wakes polled t (check_timeout t.connector_list now) q refl
          e in
      let s1 : EpollServer T = set_table (record s { tick = u32 (s.tick + 1) }) i t l in
      let first : i ≡ 0 = ground arith in
      time_out_all-tables j wakes polled slots s1 s' l f
      ∙ ap table_of (
          get_elem?-set_ne s.net_threads i j (some (record t { connector_list = l }))
            (λ z. absurd (omega arith)))
