-- ===== src/Net/HandleThread.antt =====
-- net/handle_thread.h: the threads that handle the packets.
--
-- `Tdeleter`, `handleCustomMessage`, `heartbeat` and the `handle` of the server are the user's; a
-- round answers with the packet that `handle` is called with.
pub mod Rounds
mod Tests
use sails.Prelude.{
  not, ℕ, zero, suc, ◌+◌, ◌-◌, ◌^◌, Bool, true, false, Option, none, some, List, [], ◌∷◌, ◌++◌, ltb,
  ◌==◌, if◌then◌else◌,
}
use sails.Prelude.Int.{ℤ}
use sails.Prelude.Words.{u32, inc64}
use sails.Base.ThreadQueue.{
  ThreadQueue, Waits, done, blocks, faults, millis, new_queue, pop_front, push_back,
}

-- `TagRecvData`: a packet with the connection it came from.
pub record TagRecvData (T : Type 0) : Type 0 where
  pub uid : ℕ
  pub packet : T
  pub ip : List ℕ
  pub port : ℕ
  pub fd : ℤ
  pub ext_data : ℕ

pub data HandleStatus : Type 0 where
  runing stoping : HandleStatus

pub record HandleThread (T : Type 0) : Type 0 where
  pub id : ℕ
  pub handlelist : ThreadQueue (TagRecvData T)
  pub continue_handle : Bool
  pub status : HandleStatus
  pub handle_times : ℕ

-- `handle_times` starts again before it passes the signed numbers.
abbrev pub count_times : ℕ → ℕ
count_times n = if ltb (2 ^ 63 - 11) (inc64 n) then 0 else inc64 n

module _ {T : Type 0} where
  pub new_handle_thread : ℕ → HandleThread T
  new_handle_thread id = record {
    id = id;
    handlelist = new_queue;
    continue_handle = true;
    status = stoping;
    handle_times = 0;
  }

  pub run : HandleThread T → HandleThread T
  run h = record h { status = runing }

  pub terminate : HandleThread T → HandleThread T
  terminate h = record h { continue_handle = false }

  pub join : HandleThread T → HandleThread T
  join h = record h { status = stoping }

  -- On false the packet and its record have been freed.
  pub add_for_handle : HandleThread T → TagRecvData T → Bool × Bool × HandleThread T
  add_for_handle h msg =
      let r = push_back h.handlelist msg in (r.0, not r.0, record h { handlelist = r.1 })

  -- What a round does with what it took.
  after_pop : HandleThread T → Option (TagRecvData T) → HandleThread T
  after_pop h none = h
  after_pop h (some msg) = record h { handle_times = count_times h.handle_times }

  -- One round of `handleImp`, with the queue of the server: the packet handled, that queue, and the
  -- thread. `wakes` are what the wait of 100 milliseconds finds.
  pub handle_round :
      ℕ
      → ThreadQueue (TagRecvData T)
      → HandleThread T
      → List (ThreadQueue (TagRecvData T))
      → Waits (Option (TagRecvData T) × ThreadQueue (TagRecvData T) × HandleThread T)
  unfolding after_pop
  handle_round run_mode recvlist h wakes =
      if run_mode == 1
      then elim (pop_front recvlist (millis 100) wakes) [
        | blocks ↦ blocks
        | faults ↦ faults
        | done (o, q) ↦ done (o, q, after_pop h o)
      ]
      else elim (pop_front h.handlelist (millis 100) wakes) [
        | blocks ↦ blocks
        | faults ↦ faults
        | done (o, q) ↦ done (o, recvlist, after_pop (record h { handlelist = q }) o)
      ]

  -- `handleImp`, for at most `k` rounds: the packets handled in turn.
  pub handle_imp :
      ℕ
      → ℕ
      → ThreadQueue (TagRecvData T)
      → HandleThread T
      → Waits (List (TagRecvData T) × ThreadQueue (TagRecvData T) × HandleThread T)
  unfolding handle_round
  handle_imp zero run_mode recvlist h = done ([], recvlist, h)
  handle_imp (suc k) run_mode recvlist h =
      if h.continue_handle
      then elim (handle_round run_mode recvlist h []) [
        | blocks ↦ blocks
        | faults ↦ faults
        | done (o, q, h') ↦ elim (handle_imp k run_mode q h') [
          | blocks ↦ blocks
          | faults ↦ faults
          | done (ms, r, u) ↦ done (elim o [ none ↦ ms | some msg ↦ msg ∷ ms ], r, u)
        ]
      ]
      else done ([], recvlist, h)

  -- The loop of the destructor, which frees what is left: one round more than there are packets.
  pub discard :
      ℕ → ThreadQueue (TagRecvData T) → Waits (List (TagRecvData T) × ThreadQueue (TagRecvData T))
  discard zero q = blocks
  discard (suc fuel) q = elim (pop_front q (millis 100) []) [
    | blocks ↦ blocks
    | faults ↦ faults
    | done (none, r) ↦ done ([], r)
    | done (some msg, r) ↦ elim (discard fuel r) [
      | blocks ↦ blocks
      | faults ↦ faults
      | done (ms, u) ↦ done (msg ∷ ms, u)
    ]
  ]

pub record HandleThreadStatus : Type 0 where
  pub status : HandleStatus
  pub handle_times : ℕ
  pub handle_queue_capacity : ℕ
  pub handle_queue_size : ℕ

pub get_status : {T : Type 0} → HandleThread T → HandleThreadStatus
get_status h = record {
  status = h.status;
  handle_times = h.handle_times;
  handle_queue_capacity = u32 h.handlelist.max_size;
  handle_queue_size = u32 h.handlelist.size;
}
