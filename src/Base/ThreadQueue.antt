-- ===== src/Base/ThreadQueue.antt =====
-- base/thread_queue.h: the queue between the network and the handling threads.
--
-- Each method holds the mutex throughout, but for its waits and for the test of `_size` that
-- `push_back` makes before it locks. A wait is modelled by what it finds: the states of the queue
-- at the successive wake-ups, which the other threads made.
pub mod Order
pub mod Books
pub mod Pushes
mod Tests
use sails.Prelude.{
  ℕ, zero, suc, ◌+◌, ◌-◌, ◌*◌, ◌%◌, ◌^◌, Bool, true, false, ◌&&◌, ◌||◌, not, Option, none, some,
  List, [], ◌∷◌, ◌++◌, ltb, leb, ◌==◌, if◌then◌else◌, length,
}
use sails.Prelude.Words.{inc64, dec64}

pub record ThreadQueue (A : Type 0) : Type 0 where
  pub queue : List A
  pub max_size : ℕ
  pub size : ℕ
  pub is_terminate : Bool

-- The time that a caller is ready to wait, an `int` in milliseconds; `before k` is -k - 1.
pub data Millis : Type 0 where
  millis before : ℕ → Millis

abbrev pub is_zero : Millis → Bool
is_zero (millis n) = n == 0
is_zero (before n) = false

-- What a call that may wait comes to. It `blocks` if no wake-up lets it go on, and `faults` at a
-- failed assert.
pub data Waits (R : Type 0) : Type 0 where
  done : R → Waits R
  blocks : Waits R
  faults : Waits R

module _ {A : Type 0} where
  unfoldable pub new_queue : ThreadQueue A
  new_queue = record { queue = []; max_size = 100000; size = 0; is_terminate = false }

  abbrev pub is_empty : List A → Bool
  is_empty [] = true
  is_empty (a ∷ bs) = false

  -- `wait`: up to the first wake-up that finds an element, or the end of the program.
  unfoldable pub wait : ThreadQueue A → List (ThreadQueue A) → Waits (ThreadQueue A)
  wait q [] = if is_empty q.queue && not q.is_terminate then blocks else done q
  wait q (r ∷ rs) =
      let rest = wait r rs in if is_empty q.queue && not q.is_terminate then rest else done q

  -- `timedWait` waits once, whatever it finds: the first wake-up, or the time is up and nothing came.
  unfoldable pub timed_wait : ThreadQueue A → List (ThreadQueue A) → ThreadQueue A
  timed_wait q [] = q
  timed_wait q (r ∷ rs) = r

  -- `_queue.front()` and `pop_front()` with the assert on the stored size, or the answer `false`
  pub take_front : ThreadQueue A → List A → Waits (Option A × ThreadQueue A)
  take_front q [] = done (none, q)
  take_front q (a ∷ bs) =
      if ltb 0 q.size then done (some a, record q { queue = bs; size = dec64 q.size }) else faults

  unfoldable pub take_after : Waits (ThreadQueue A) → Waits (Option A × ThreadQueue A)
  unfolding take_front
  take_after blocks = blocks
  take_after faults = faults
  take_after (done q) = take_front q q.queue

  -- Above 3600 * 24 milliseconds the wait has no limit; -1 is a wait with a limit.
  unfoldable pub pop_wait : ThreadQueue A → Millis → List (ThreadQueue A) → Waits (ThreadQueue A)
  unfolding wait timed_wait
  pop_wait q (millis n) wakes =
      if ltb (3600 * 24) n then wait q wakes else done (timed_wait q wakes)
  pop_wait q (before n) wakes = done (timed_wait q wakes)

  -- `some a` for `true` with the element, `none` for `false`.
  pub pop_front : ThreadQueue A → Millis → List (ThreadQueue A) → Waits (Option A × ThreadQueue A)
  unfolding pop_wait take_after
  pop_front q ms wakes =
      if is_empty q.queue
      then if is_zero ms then done (none, q) else take_after (pop_wait q ms wakes)
      else take_after (done q)

  -- `push_back` in its two steps: the test, and then the insertion under the lock.
  unfoldable pub has_room : ThreadQueue A → Bool
  has_room q = not (leb q.max_size q.size)

  unfoldable pub insert_back : ThreadQueue A → A → ThreadQueue A
  insert_back q a = record q { queue = q.queue ++ a ∷ []; size = inc64 q.size }

  pub push_back : ThreadQueue A → A → Bool × ThreadQueue A
  unfolding has_room insert_back
  push_back q a = if has_room q then (true, insert_back q a) else (false, q)

  -- `push_back` of a whole queue: the number of elements that found room, as the pattern of an `int`,
  -- which wraps around.
  push_back_loop : ThreadQueue A → List A → ℕ → ℕ × ThreadQueue A
  unfolding insert_back
  push_back_loop q [] n = (n, q)
  push_back_loop q (a ∷ bs) n =
      let rest = push_back_loop (insert_back q a) bs ((n + 1) % 2 ^ 32) in
      if leb q.max_size q.size then (n, q) else rest

  pub push_back_all : ThreadQueue A → List A → ℕ × ThreadQueue A
  unfolding push_back_loop
  push_back_all q bs = push_back_loop q bs 0

  pub push_front : ThreadQueue A → A → ThreadQueue A
  push_front q a = record q { queue = a ∷ q.queue; size = inc64 q.size }

  pub push_front_all : ThreadQueue A → List A → ThreadQueue A
  unfolding push_front
  push_front_all q [] = q
  push_front_all q (a ∷ bs) = push_front_all (push_front q a) bs

  -- The exchange at the end of `swap`: the caller's queue and the size that is stored.
  exchange : ThreadQueue A → List A → Bool × List A × ThreadQueue A
  exchange q bs =
      if is_empty q.queue
      then (false, bs, q)
      else (true, q.queue, record q { queue = bs; size = length q.queue })

  exchange_after : Waits (ThreadQueue A) → List A → Waits (Bool × List A × ThreadQueue A)
  unfolding exchange
  exchange_after blocks bs = blocks
  exchange_after faults bs = faults
  exchange_after (done q) bs = done (exchange q bs)

  -- Only -1 waits for ever. A wait with a limit that finds nothing leaves at once.
  swap_wait :
      ThreadQueue A → List A → Millis → List (ThreadQueue A) → Waits (Bool × List A × ThreadQueue A)
  unfolding wait timed_wait exchange_after
  swap_wait q bs (before zero) wakes = exchange_after (wait q wakes) bs
  swap_wait q bs _ wakes = exchange_after (done (timed_wait q wakes)) bs

  -- The answer, the caller's queue and the thread queue afterwards.
  pub swap :
      ThreadQueue A → List A → Millis → List (ThreadQueue A) → Waits (Bool × List A × ThreadQueue A)
  unfolding swap_wait exchange_after
  swap q bs ms wakes =
      if is_empty q.queue
      then if is_zero ms then done (false, bs, q) else swap_wait q bs ms wakes
      else exchange_after (done q) bs

  pub set_max_size : ThreadQueue A → ℕ → ThreadQueue A
  set_max_size q n = record q { max_size = n }

  pub clear : ThreadQueue A → ThreadQueue A
  clear q = record q { queue = []; size = 0 }

  pub empty : ThreadQueue A → Bool
  empty q = is_empty q.queue
