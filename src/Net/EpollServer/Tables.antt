-- ===== src/Net/EpollServer/Tables.antt =====
-- net/epoll_server.h: a request to close a connection changes no table of connections.
use sails.Prelude.{
  ℕ, ◌≡◌, ◌⊎◌, refl, sym, ap, ◌∙◌, Bool, Option, none, some, List, ◌==◌, arith, get_elem?, set,
  get_elem?-set_self, get_elem?-set_ne, get_elem?-inside, Bool-cases, inl, inr,
}
use sails.Prelude.Int.{ℤ}
use sails.Base.ThreadQueue.{ThreadQueue, Waits, done, blocks, faults}
use sails.Net.ConnectorList.{ConnectorList}
use sails.Net.Commands.{TagSendData}
use sails.Net.NetThread
use sails.Net.NetThread.{NetThread}
use sails.Net.NetThread.Requests.{close_connector-table}
use sails.Net.EpollServer.{EpollServer, slot_of_fd, store, ask, close_connector}

-- The table of the thread in a slot.
abbrev pub table_of : Option (Option NetThread) → Option ConnectorList
table_of none = none
table_of (some none) = none
table_of (some (some t)) = some t.connector_list

table-set :
    (ts : List (Option NetThread)) (i j : ℕ) (t u : NetThread)
    → get_elem? ts i ≡ some (some t)
    → u.connector_list ≡ t.connector_list
    → table_of (get_elem? (set ts i (some u)) j) ≡ table_of (get_elem? ts j)
table-set ts i j t u g e = elim (Bool-cases (i == j)) [
  | inl same ↦
      let q : i ≡ j = ground arith in
      ap (λ k. table_of (get_elem? (set ts i (some u)) k)) (sym q)
      ∙ ap table_of (get_elem?-set_self ts i (some u) (get_elem?-inside ts i g))
      ∙ ap some e
      ∙ sym (ap table_of g)
      ∙ ap (λ k. table_of (get_elem? ts k)) q
  | inr other ↦ ap table_of (get_elem?-set_ne ts i j (some u) (λ q. ground arith))
]

module _ {T : Type 0} where
  abbrev pub table_at : EpollServer T → ℕ → Option ConnectorList
  table_at s j = table_of (get_elem? s.net_threads j)

  store-one :
      (s s' : EpollServer T) (i : ℕ) (w : Waits (Option NetThread))
      → store s i w ≡ done (some s')
      → (u : NetThread) × (w ≡ done (some u))
        × (s' ≡ record s { net_threads = set s.net_threads i (some u) })
  unfolding store
  store-one s s' i blocks e = absurd (ground arith)
  store-one s s' i faults e = absurd (ground arith)
  store-one s s' i (done none) e = absurd (ground arith)
  store-one s s' i (done (some u)) e = (u, refl, ground arith)

  -- The request is for a thread that is gone, or it changes one thread.
  ask-one :
      (s s' : EpollServer T) (i : ℕ) (o : Option (Option NetThread))
      (act : NetThread → Waits (Option NetThread))
      → ask s i o act ≡ done (some s')
      → (s' ≡ s)
        ⊎ ((t u : NetThread) × (o ≡ some (some t))
            × (act t ≡ done (some u))
            × (s' ≡ record s { net_threads = set s.net_threads i (some u) }))
  unfolding ask
  ask-one s s' i none act e = absurd (ground arith)
  ask-one s s' i (some none) act e = inl (ground arith)
  ask-one s s' i (some (some t)) act e =
      let (u, w, q) = store-one s s' i (act t) e in inr (t, u, refl, w, q)

  close_connector-asked :
      (s s' : EpollServer T) (ip : List ℕ) (port uid : ℕ) (fd : ℤ) (reason : ℕ)
      (wakes : List (ThreadQueue TagSendData)) (polled : Bool) (o : Option ℕ)
      → slot_of_fd s fd ≡ o
      → close_connector s ip port uid fd reason wakes polled ≡ done (some s')
      → (i : ℕ) × (ask s i
            (get_elem? s.net_threads i)
            (λ t. NetThread.close_connector t ip port uid fd reason wakes polled)
          ≡ done (some s'))
  unfolding close_connector
  close_connector-asked s s' ip port uid fd reason wakes polled none q e =
      let r : done none ≡ done (some s') = sym (rw (q, close_connector) refl) ∙ e in
      absurd (ground arith)
  close_connector-asked s s' ip port uid fd reason wakes polled (some i) q e =
      (i, sym (rw (q, close_connector) refl) ∙ e)

  pub close_connector-tables :
      (s s' : EpollServer T) (ip : List ℕ) (port uid : ℕ) (fd : ℤ) (reason : ℕ)
      (wakes : List (ThreadQueue TagSendData)) (polled : Bool) (j : ℕ)
      → close_connector s ip port uid fd reason wakes polled ≡ done (some s')
      → table_at s' j ≡ table_at s j
  close_connector-tables s s' ip port uid fd reason wakes polled j e =
      let act : NetThread → Waits (Option NetThread) =
        λ t. NetThread.close_connector t ip port uid fd reason wakes polled in
      let (i, f) =
        close_connector-asked s s' ip port uid fd reason wakes polled (slot_of_fd s fd) refl e in
      elim (ask-one s s' i (get_elem? s.net_threads i) act f) [
        | inl same ↦ ap (λ x. table_at x j) same
        | inr (t, u, g, c, q) ↦
            ap (λ x. table_at x j) q
            ∙ table-set s.net_threads i j t u g
                (close_connector-table t u ip port uid fd reason wakes polled c)
      ]
