-- ===== src/Net/HandleThread/Rounds.antt =====
-- net/handle_thread.h: packets are handled in the order of the queue, each once.
use sails.Prelude.{
  ℕ, suc, ◌^◌, ◌<◌, ◌≤◌, arith, not, ◌≡◌, refl, true, false, some, List, [], ◌∷◌, length, ◌==◌,
}
use sails.Prelude.Words.{dec64}
use sails.Base.ThreadQueue.{ThreadQueue, done, millis, push_back}
use sails.Base.ThreadQueue.Order.{pop_front-first, pop_front-none}
use sails.Net.HandleThread.{
  TagRecvData, HandleThread, add_for_handle, after_pop, handle_round, handle_imp, discard,
}

module _ {T : Type 0} where
  -- In the mode with a queue for each thread, a thread that goes on handles, in as many rounds as
  -- there are packets in its queue, which are counted, these packets in their order, and its queue is then empty.
  pub handle_imp-in_order :
      (msgs : List (TagRecvData T)) (run_mode : ℕ) (recvlist : ThreadQueue (TagRecvData T))
      (h : HandleThread T)
      → (run_mode == 1) ≡ false
      → h.continue_handle ≡ true
      → h.handlelist.queue ≡ msgs
      → length msgs ≤ h.handlelist.size
      → h.handlelist.size < 2 ^ 64
      → (u : HandleThread T) × (handle_imp (length msgs) run_mode recvlist h
          ≡ done (msgs, recvlist, u))
        × (u.handlelist.queue ≡ [])
  unfolding handle_imp handle_round after_pop
  handle_imp-in_order [] run_mode recvlist h mode on q k m = (h, refl, q)
  handle_imp-in_order (msg ∷ msgs) run_mode recvlist h mode on q k m =
      let p = pop_front-first h.handlelist msg msgs (millis 100) [] q (omega arith) in
      let h' =
        after_pop
          (record h {
            handlelist = record h.handlelist { queue = msgs; size = dec64 h.handlelist.size };
          })
          (some msg) in
      let (u, e, z) =
        handle_imp-in_order msgs run_mode recvlist h' mode on refl (omega arith) (omega arith) in
      (u, rw (on, mode, p, handle_imp, handle_round) (rw e refl), z)

  -- The destructor frees what is in the queue, each packet once, and ends.
  pub discard-all :
      (msgs : List (TagRecvData T)) (q : ThreadQueue (TagRecvData T))
      → q.queue ≡ msgs
      → length msgs ≤ q.size
      → q.size < 2 ^ 64
      → (r : ThreadQueue (TagRecvData T)) × (discard (suc (length msgs)) q ≡ done (msgs, r))
        × (r.queue ≡ [])
  unfolding discard
  discard-all [] q h k m = (q, rw (pop_front-none q h, discard) refl, h)
  discard-all (msg ∷ msgs) q h k m =
      let p = pop_front-first q msg msgs (millis 100) [] h (omega arith) in
      let (r, e, z) =
        discard-all msgs (record q { queue = msgs; size = dec64 q.size }) refl (omega arith)
          (omega arith) in
      (r, rw (p, discard) (rw e refl), z)

  pub add_for_handle-push :
      (h : HandleThread T) (msg : TagRecvData T)
      → add_for_handle h msg ≡ (
        (push_back h.handlelist msg).0,
        not (push_back h.handlelist msg).0,
        record h { handlelist = (push_back h.handlelist msg).1 },
      )
  unfolding add_for_handle
  add_for_handle-push h msg = refl
