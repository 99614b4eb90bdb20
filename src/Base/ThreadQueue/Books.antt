-- ===== src/Base/ThreadQueue/Books.antt =====
-- base/thread_queue.h: the stored size, under `swap` and under concurrent producers.
use sails.Prelude.{
  ℕ, ◌+◌, ◌-◌, ◌^◌, ◌<◌, ◌≤◌, ◌≡◌, ◌≢◌, inr, refl, sym, ◌∙◌, subst, Bool, true, false, some, List,
  [], arith, length,
}
use sails.Base.ThreadQueue.{
  ThreadQueue, Millis, millis, done, is_empty, pop_front, has_room, insert_back, swap,
}
use sails.Base.ThreadQueue.Order.{IsValid, Gives, Pops, pop_front-at_once, insert_back-IsValid}

module _ {A : Type 0} where
  -- What a successful `swap` leaves: the elements are the caller's, and the stored size is the
  -- number of those that were taken.
  pub record Swapped (q : ThreadQueue A) (bs : List A) (r : Bool × List A × ThreadQueue A)
      : Type 0 where
    pub answer : r.0 ≡ true
    pub taken : r.1 ≡ q.queue
    pub queue : r.2.queue ≡ bs
    pub books : IsValid r.2 → length bs ≡ length q.queue
    pub balanced : length bs ≡ length q.queue → IsValid r.2

  -- `swap` on a queue with elements hands them all to the caller; it stores the size of what it
  -- handed over, so the stored size is right exactly if the caller's queue was as long.
  pub swap-Swapped :
      (q : ThreadQueue A) (bs : List A) (ms : Millis) (wakes : List (ThreadQueue A))
      → IsValid q
      → q.queue ≢ []
      → Gives (Swapped q bs) (swap q bs ms wakes)
  unfolding swap
  swap-Swapped q bs ms wakes v h =
      let n : is_empty q.queue ≡ false = ground arith in
      rw (n, swap)
        (record {
          answer = refl;
          taken = refl;
          queue = refl;
          books = λ w. sym w.counted;
          balanced = λ m. record { counted = sym m; small = omega (arith, v.counted, v.small) };
        })

-- Several producers call `push_back`; `pending` of them have passed the test and wait for the lock.
pub record Producers (A : Type 0) : Type 0 where
  pub q : ThreadQueue A
  pub pending : ℕ

pub data Step {A : Type 0} (producers : ℕ) : Producers A → Producers A → Type 0 where
  test :
      (s : Producers A)
      → s.pending < producers
      → has_room s.q ≡ true
      → Step producers s (record s { pending = s.pending + 1 })
  insert :
      (s : Producers A) (a : A)
      → 0 < s.pending
      → Step producers s (record { q = insert_back s.q a; pending = s.pending - 1 })
  pop :
      (s : Producers A) (a : A) (r : ThreadQueue A)
      → pop_front s.q (millis 0) [] ≡ done (some a, r)
      → Step producers s (record s { q = r })

pub data Reach {A : Type 0} (producers : ℕ) (s : Producers A) : Producers A → Type 0 where
  here : Reach producers s s
  next : {t u : Producers A} → Reach producers s t → Step producers t u → Reach producers s u

pub record Bounded {A : Type 0} (limit producers : ℕ) (s : Producers A) : Type 0 where
  pub valid : IsValid s.q
  pub same : s.q.max_size ≡ limit
  pub few : s.pending ≤ producers
  pub within : s.q.size + s.pending + 1 ≤ limit + producers

module _ {A : Type 0} (limit producers : ℕ) (small : limit + producers < 2 ^ 63) where
  Step-Bounded :
      {s t : Producers A}
      → Step producers s t
      → Bounded limit producers s
      → Bounded limit producers t
  Step-Bounded (test s h room) b = record {
    valid = b.valid;
    same = b.same;
    few = omega arith;
    within = unfold has_room in ground (arith, b.same);
  }
  Step-Bounded (insert s a h) b = record {
    valid = insert_back-IsValid s.q a b.valid (omega (arith, b.within));
    same = unfold insert_back in b.same;
    few = omega (arith, b.few);
    within = unfold insert_back in omega (arith, b.within);
  }
  Step-Bounded (pop s a r e) b =
      let (front, size, room, valid) =
        subst (Gives (Pops s.q)) e (pop_front-at_once s.q (millis 0) [] b.valid (inr refl)) in
      record { valid = valid; same = room ∙ b.same; few = b.few; within = omega (arith, b.within) }

  -- With `producers` threads the queue may pass its limit, by fewer elements than there are threads.
  pub Reach-Bounded :
      {s t : Producers A}
      → Bounded limit producers s
      → Reach producers s t
      → Bounded limit producers t
  Reach-Bounded b here = b
  Reach-Bounded b (next r st) = Step-Bounded st (Reach-Bounded b r)
