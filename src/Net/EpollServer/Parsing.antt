-- ===== src/Net/EpollServer/Parsing.antt =====
-- net/epoll_server.h: the packets of a connection go to the queue that handles them, in order.
use sails.Prelude.{
  if◌then◌else◌, ℕ, zero, suc, ◌+◌, ◌%◌, ◌^◌, ◌<◌, ◌≤◌, ◌≡◌, refl, sym, ap, ◌∙◌, Bool, true, false,
  ◌⊎◌, not, Option, none, some, List, [], ◌∷◌, ◌++◌, ◌==◌, arith, length, get_elem?, set,
  length-set, get_elem?-set_self, get_elem?-inside, inl, inr,
}
use sails.Prelude.Int.{pos}
use sails.Base.Buffer.{unread}
use sails.Base.Buffer.Contents
use sails.Base.ThreadQueue.{done, push_back}
use sails.Base.ThreadQueue.Pushes.{pushes, pushes-queue, pushes-size, push_back-below}
use sails.Net.Connector.{Connector}
use sails.Net.HandleThread.{TagRecvData, HandleThread, handle_imp}
use sails.Net.HandleThread.Rounds.{handle_imp-in_order, add_for_handle-push}
use sails.Net.EpollServer.{EpollServer, insert_on_fd, insert_recv_data, recv_data, parse_imp}

-- What `Parse` of the user keeps to: a packet takes bytes of the buffer, and stays on the connection.
pub record Parser {T : Type 0} (parse : Connector → Option T × Connector) : Type 0 where
  pub consumes :
      (c d : Connector) (p : T)
      → Contents.Inv c.in_buf
      → parse c ≡ (some p, d)
      → (length (unread d.in_buf) < length (unread c.in_buf)) × Contents.Inv d.in_buf
  pub keeps_fd :
      (c d : Connector) (p : T)
      → Contents.Inv c.in_buf
      → parse c ≡ (some p, d)
      → d.connect_fd ≡ c.connect_fd

parsed-cases :
    {T : Type 0} (r : Option T × Connector)
    → ((d : Connector) × (r ≡ (none, d))) ⊎ ((p : T) × (d : Connector) × (r ≡ (some p, d)))
parsed-cases (none, d) = inl (d, refl)
parsed-cases (some p, d) = inr (p, d, refl)

module _ {T : Type 0} (parse : Connector → Option T × Connector) where
  -- The packets of a connection, at most `k`, and the connection behind them.
  unfoldable pub packets : ℕ → Connector → List (TagRecvData T) × Connector
  packets zero c = ([], c)
  packets (suc k) c = elim (parse c).0 [
    | none ↦ ([], (parse c).1)
    | some p ↦ (recv_data p (parse c).1 ∷ (packets k (parse c).1).0, (packets k (parse c).1).1)
  ]

  packets-none : (k : ℕ) (c d : Connector) → parse c ≡ (none, d) → packets (suc k) c ≡ ([], d)
  unfolding packets
  packets-none k c d e =
      ap
        (λ r. elim r.0 [
          | none ↦ ([], r.1)
          | some p ↦ (recv_data p r.1 ∷ (packets k r.1).0, (packets k r.1).1)
        ])
        e

  packets-some :
      (k : ℕ) (c d : Connector) (p : T)
      → parse c ≡ (some p, d)
      → packets (suc k) c ≡ (recv_data p d ∷ (packets k d).0, (packets k d).1)
  unfolding packets
  packets-some k c d p e =
      ap
        (λ r. elim r.0 [
          | none ↦ ([], r.1)
          | some q ↦ (recv_data q r.1 ∷ (packets k r.1).0, (packets k r.1).1)
        ])
        e

  -- A round of `ParseImp` with what `Parse` gives.
  abbrev parse_step : ℕ → EpollServer T → Option T × Connector → Option (Connector × EpollServer T)
  parse_step fuel s r = elim r.0 [
    | none ↦ some (r.1, s)
    | some p ↦ elim (insert_recv_data s (recv_data p r.1)) [
      | none ↦ none
      | some (true, freed, s') ↦ parse_imp parse fuel s' r.1
      | some (false, freed, s') ↦
          if freed then none else if s.use_memory_pool then none else parse_imp parse fuel s' r.1
    ]
  ]

  parse_imp-ends :
      (fuel : ℕ) (s : EpollServer T) (c d : Connector)
      → parse c ≡ (none, d)
      → parse_imp parse (suc fuel) s c ≡ some (d, s)
  unfolding parse_imp
  parse_imp-ends fuel s c d e = ap (parse_step fuel s) e

  parse_imp-goes :
      (fuel : ℕ) (s s' : EpollServer T) (c d : Connector) (p : T) (b freed : Bool)
      → parse c ≡ (some p, d)
      → insert_recv_data s (recv_data p d) ≡ some (b, freed, s')
      → (b ≡ true) ⊎ ((freed ≡ false) × (s.use_memory_pool ≡ false))
      → parse_imp parse (suc fuel) s c ≡ parse_imp parse fuel s' d
  unfolding parse_imp
  parse_imp-goes fuel s s' c d p true freed e i _ =
      let m : parse_step fuel s (some p, d) ≡ parse_imp parse fuel s' d = rw (i, parse_step) refl in
      ap (parse_step fuel s) e ∙ m
  parse_imp-goes fuel s s' c d p false freed e i (inl absent) = absurd (ground arith)
  parse_imp-goes fuel s s' c d p false freed e i (inr (spared, pool)) =
      let m : parse_step fuel s (some p, d) ≡ parse_imp parse fuel s' d =
        rw (i, spared, pool, parse_step) refl in
      ap (parse_step fuel s) e ∙ m

  -- In the mode with one queue, without the memory pool, for a valid input buffer and a parser that
  -- takes bytes with each packet: as many rounds as there are unread bytes, and one, are enough; the packets are pushed on
  -- the queue of the server in order, those that find no room are dropped, and there is no fault.
  pub parse_imp-one_queue :
      (fuel : ℕ) (s : EpollServer T) (c : Connector)
      → Parser parse
      → Contents.Inv c.in_buf
      → length (unread c.in_buf) < fuel
      → (s.run_mode == 1) ≡ true
      → s.use_memory_pool ≡ false
      → parse_imp parse fuel s c
        ≡ some ((packets fuel c).1, record s { recvlist = pushes s.recvlist (packets fuel c).0 })
  unfolding insert_recv_data
  parse_imp-one_queue zero s c law v h mode pool = absurd (omega arith)
  parse_imp-one_queue (suc fuel) s c law v h mode pool = elim (parsed-cases (parse c)) [
    | inl (d, e) ↦
        parse_imp-ends fuel s c d e
        ∙ ap (λ r. some (r.1, record s { recvlist = pushes s.recvlist r.0 }))
            (sym (packets-none fuel c d e))
    | inr (p, d, e) ↦
        let msg = recv_data p d in
        let s' = record s { recvlist = (push_back s.recvlist msg).1 } in
        let i : insert_recv_data s msg ≡ some ((push_back s.recvlist msg).0, false, s') =
          rw (mode, insert_recv_data) refl in
        parse_imp-goes fuel s s' c d p (push_back s.recvlist msg).0 false e i (inr (refl, pool))
        ∙ parse_imp-one_queue fuel s' d law (law.consumes c d p v e).1
            (omega (arith, (law.consumes c d p v e).0)) mode pool
        ∙ ap (λ r. some (r.1, record s { recvlist = pushes s.recvlist r.0 }))
            (sym (packets-some fuel c d p e))
  ]

  -- The thread that handles the packets of a descriptor, in the mode with a queue for each thread.
  pub record Target (s : EpollServer T) (c : Connector) (fd : ℕ) (h : HandleThread T) : Type 0 where
    pub mode : (s.run_mode == 1) ≡ false
    pub at_fd : c.connect_fd ≡ pos fd
    pub handler : get_elem? s.handle_threads (fd % length s.handle_threads) ≡ some h
    pub some_handler : (length s.handle_threads == 0) ≡ false

  insert_on_fd-Target :
      (s : EpollServer T) (d : Connector) (fd : ℕ) (h : HandleThread T) (msg : TagRecvData T)
      → Target s d fd h
      → insert_on_fd s msg (pos fd)
        ≡ some (
          (push_back h.handlelist msg).0,
          not (push_back h.handlelist msg).0,
          record s {
            handle_threads =
                set s.handle_threads
                  (fd % length s.handle_threads)
                  (record h { handlelist = (push_back h.handlelist msg).1 });
          },
        )
  unfolding insert_on_fd
  insert_on_fd-Target s d fd h msg t =
      rw (t.some_handler, t.handler, add_for_handle-push h msg, insert_on_fd) refl

  insert-Target :
      (s : EpollServer T) (d : Connector) (fd : ℕ) (h : HandleThread T) (msg : TagRecvData T)
      → Target s d fd h
      → msg.fd ≡ pos fd
      → insert_recv_data s msg
        ≡ some (
          (push_back h.handlelist msg).0,
          not (push_back h.handlelist msg).0,
          record s {
            handle_threads =
                set s.handle_threads
                  (fd % length s.handle_threads)
                  (record h { handlelist = (push_back h.handlelist msg).1 });
          },
        )
  unfolding insert_recv_data
  insert-Target s d fd h msg t e =
      rw (t.mode, insert_recv_data) (ap (insert_on_fd s msg) e ∙ insert_on_fd-Target s d fd h msg t)

  recv_data-fd : (p : T) (d : Connector) → (recv_data p d).fd ≡ d.connect_fd
  unfolding recv_data
  recv_data-fd p d = refl

  next-Target :
      (s : EpollServer T) (c d : Connector) (fd : ℕ) (h u : HandleThread T)
      → Target s c fd h
      → d.connect_fd ≡ c.connect_fd
      → Target
          (record s { handle_threads = set s.handle_threads (fd % length s.handle_threads) u })
          d
          fd
          u
  next-Target s c d fd h u t e =
      let i = fd % length s.handle_threads in
      let n : length (set s.handle_threads i u) ≡ length s.handle_threads =
        length-set s.handle_threads i u in
      record {
        mode = t.mode;
        at_fd = e ∙ t.at_fd;
        handler =
            ap (λ k. get_elem? (set s.handle_threads i u) (fd % k)) n
            ∙ get_elem?-set_self s.handle_threads i u
                (get_elem?-inside s.handle_threads i t.handler);
        some_handler = ap (λ k. k == 0) n ∙ t.some_handler;
      }

  set_same :
      (hs : List (HandleThread T)) (i : ℕ) {u : HandleThread T}
      → get_elem? hs i ≡ some u
      → set hs i u ≡ hs
  set_same [] i e = refl
  set_same (h ∷ hs) zero e = ap (λ x. x ∷ hs) (let q : h ≡ _ = ground arith in sym q)
  set_same (h ∷ hs) (suc i) e = ap (λ xs. h ∷ xs) (set_same hs i e)

  set_twice :
      (hs : List (HandleThread T)) (i : ℕ) (u v : HandleThread T)
      → set (set hs i u) i v ≡ set hs i v
  set_twice [] i u v = refl
  set_twice (h ∷ hs) zero u v = refl
  set_twice (h ∷ hs) (suc i) u v = ap (λ xs. h ∷ xs) (set_twice hs i u v)

  -- The server whose handle thread for a descriptor has got more packets.
  abbrev with_packets : EpollServer T → ℕ → HandleThread T → List (TagRecvData T) → EpollServer T
  with_packets s fd h msgs = record s {
    handle_threads =
        set s.handle_threads (fd % length s.handle_threads)
          (record h { handlelist = pushes h.handlelist msgs });
  }

  with_packets-cons :
      (s : EpollServer T) (fd : ℕ) (h : HandleThread T) (msg : TagRecvData T)
      (msgs : List (TagRecvData T))
      → with_packets
          (record s {
            handle_threads =
                set s.handle_threads
                  (fd % length s.handle_threads)
                  (record h { handlelist = (push_back h.handlelist msg).1 });
          })
          fd
          (record h { handlelist = (push_back h.handlelist msg).1 })
          msgs
        ≡ with_packets s fd h (msg ∷ msgs)
  with_packets-cons s fd h msg msgs =
      let hs = s.handle_threads in
      let i = fd % length hs in
      let u : HandleThread T = record h { handlelist = (push_back h.handlelist msg).1 } in
      let w : HandleThread T = record h { handlelist = pushes h.handlelist (msg ∷ msgs) } in
      ap (λ k. record s { handle_threads = set (set hs i u) (fd % k) w }) (length-set hs i u)
      ∙ ap (λ x. record s { handle_threads = x }) (set_twice hs i u w)

  -- In the mode with a queue for each thread: the packets of a connection all go, in order, to the
  -- end of the queue of the one thread that its descriptor selects, if that has room for them.
  pub parse_imp-one_handler :
      (fuel : ℕ) (s : EpollServer T) (c : Connector) (fd : ℕ) (h : HandleThread T)
      → Parser parse
      → Contents.Inv c.in_buf
      → length (unread c.in_buf) < fuel
      → Target s c fd h
      → h.handlelist.size + length (packets fuel c).0 ≤ h.handlelist.max_size
      → h.handlelist.max_size < 2 ^ 64
      → parse_imp parse fuel s c ≡ some ((packets fuel c).1, with_packets s fd h (packets fuel c).0)
  parse_imp-one_handler zero s c fd h law v enough t room m = absurd (omega arith)
  parse_imp-one_handler (suc fuel) s c fd h law v enough t room m = elim (parsed-cases (parse c)) [
    | inl (d, e) ↦
        parse_imp-ends fuel s c d e
        ∙ ap (λ hs. some (d, record s { handle_threads = hs }))
            (sym (set_same s.handle_threads (fd % length s.handle_threads) t.handler))
        ∙ ap (λ r. some (r.1, with_packets s fd h r.0)) (sym (packets-none fuel c d e))
    | inr (p, d, e) ↦
        let msg = recv_data p d in
        let i = fd % length s.handle_threads in
        let u : HandleThread T = record h { handlelist = (push_back h.handlelist msg).1 } in
        let s' = record s { handle_threads = set s.handle_threads i u } in
        let n : length (packets (suc fuel) c).0 ≡ suc (length (packets fuel d).0) =
          ap (λ r. length r.0) (packets-some fuel c d p e) in
        let (pushed, size, limit) = push_back-below h.handlelist msg (omega arith) m in
        let t' : Target s d fd h = record {
          mode = t.mode;
          at_fd = law.keeps_fd c d p v e ∙ t.at_fd;
          handler = t.handler;
          some_handler = t.some_handler;
        } in
        parse_imp-goes fuel s s' c d p (push_back h.handlelist msg).0
          (not (push_back h.handlelist msg).0) e
          (insert-Target s d fd h msg t' (recv_data-fd p d ∙ t'.at_fd)) (inl pushed)
        ∙ parse_imp-one_handler fuel s' d fd u law (law.consumes c d p v e).1
            (omega (arith, (law.consumes c d p v e).0))
            (next-Target s c d fd h u t (law.keeps_fd c d p v e)) (omega arith) (omega arith)
        ∙ ap (λ x. some ((packets fuel d).1, x)) (with_packets-cons s fd h msg (packets fuel d).0)
        ∙ ap (λ r. some (r.1, with_packets s fd h r.0)) (sym (packets-some fuel c d p e))
  ]

  -- The packets of a connection with a valid input buffer are handled in the order in which they
  -- arrived, for a parser that takes bytes with each and stays on the connection: parsed into the
  -- empty queue of the thread that its descriptor selects, which has room for them, they are what
  -- this thread handles in as many rounds, in order, as long as it goes on.
  pub parse_imp-handled :
      (fuel : ℕ) (s : EpollServer T) (c : Connector) (fd : ℕ) (h : HandleThread T)
      → Parser parse
      → Contents.Inv c.in_buf
      → length (unread c.in_buf) < fuel
      → Target s c fd h
      → h.handlelist.size + length (packets fuel c).0 ≤ h.handlelist.max_size
      → h.handlelist.max_size < 2 ^ 64
      → h.handlelist.queue ≡ []
      → h.continue_handle ≡ true
      → (s' : EpollServer T) × (u v : HandleThread T) × (parse_imp parse fuel s c
          ≡ some ((packets fuel c).1, s'))
        × (get_elem? s'.handle_threads (fd % length s.handle_threads) ≡ some u)
        × (handle_imp (length (packets fuel c).0) s'.run_mode s'.recvlist u
            ≡ done ((packets fuel c).0, s'.recvlist, v))
        × (v.handlelist.queue ≡ [])
  parse_imp-handled fuel s c fd h law v enough t room m empty on =
      let msgs = (packets fuel c).0 in
      let u : HandleThread T = record h { handlelist = pushes h.handlelist msgs } in
      let s' = with_packets s fd h msgs in
      let q : u.handlelist.queue ≡ msgs =
        pushes-queue h.handlelist msgs room m ∙ ap (λ xs. xs ++ msgs) empty in
      let n = pushes-size h.handlelist msgs room m in
      let (w, e, z) =
        handle_imp-in_order msgs s.run_mode s.recvlist u t.mode on q (omega (arith, n))
          (omega (arith, n)) in
      (
        s',
        u,
        w,
        parse_imp-one_handler fuel s c fd h law v enough t room m,
        get_elem?-set_self s.handle_threads (fd % length s.handle_threads) u
            (get_elem?-inside s.handle_threads (fd % length s.handle_threads) t.handler),
        e,
        z,
      )
