-- ===== src/Base/ThreadQueue/Order.antt =====
-- base/thread_queue.h: the queue as a list, first in and first out.
use sails.Prelude.{
  ℕ, zero, suc, ◌+◌, ◌-◌, ◌^◌, ◌<◌, ◌≡◌, ◌≢◌, ◌⊎◌, inl, inr, refl, Bool-cases, ◌&&◌, not, ◌*◌, sym,
  ap, ◌∙◌, true, false, ltb, ◌%◌, Option, none, some, List, [], ◌∷◌, ◌++◌, arith, leb, length,
  length-append, take, min,
}
use mathlib.Core.List.{append-nil, append_assoc, reverse, reverse-cons}
use sails.Prelude.Words.{dec64}
use sails.Base.ThreadQueue.{
  ThreadQueue, Millis, millis, before, Waits, done, blocks, faults, pop_front, take_front, wait,
  timed_wait, take_after, pop_wait, is_empty, is_zero, insert_back, push_back, has_room,
  push_back_loop, push_back_all, push_front, push_front_all,
}

-- The call comes to a result, and that has the property.
abbrev pub Gives : {R : Type 0} → (R → Type 0) → Waits R → Type 0
Gives P (done r) = P r
Gives P blocks = ⊥
Gives P faults = ⊥

module _ {A : Type 0} where
  -- The stored size is the number of elements.
  pub record IsValid (q : ThreadQueue A) : Type 0 where
    pub counted : q.size ≡ length q.queue
    pub small : q.size < 2 ^ 63

  -- A pop takes the oldest element and counts it off; on an empty queue a pop that may not wait
  -- answers `false` and changes nothing.
  abbrev pub Pops : ThreadQueue A → Option A × ThreadQueue A → Type 0
  Pops q (none, r) = (q.queue ≡ []) × (r ≡ q)
  Pops q (some a, r) =
      (q.queue ≡ a ∷ r.queue) × (r.size + 1 ≡ q.size) × (r.max_size ≡ q.max_size) × IsValid r

  take_front-Pops :
      (q : ThreadQueue A) (xs : List A)
      → IsValid q
      → q.queue ≡ xs
      → Gives (Pops q) (take_front q xs)
  unfolding take_front
  take_front-Pops q [] v e = (e, refl)
  take_front-Pops q (a ∷ bs) v e =
      let n : length q.queue ≡ suc (length bs) = ap length e in
      let some_left : ltb 0 q.size ≡ true = ground (arith, v.counted) in
      rw (some_left) (
        e,
        omega (arith, v.counted, v.small),
        refl,
        record {
          counted = omega (arith, v.counted, v.small);
          small = omega (arith, v.counted, v.small);
        },
      )

  -- A run of appends: `k` elements of `bs` went to the back.
  pub record Appended (q : ThreadQueue A) (bs : List A) (k : ℕ) (r : ThreadQueue A) : Type 0 where
    pub queue : r.queue ≡ q.queue ++ take k bs
    pub room : r.max_size ≡ q.max_size
    pub valid : IsValid r

  pub pop_front-at_once :
      (q : ThreadQueue A) (ms : Millis) (wakes : List (ThreadQueue A))
      → IsValid q
      → (q.queue ≢ []) ⊎ (ms ≡ millis 0)
      → Gives (Pops q) (pop_front q ms wakes)
  unfolding pop_front
  pop_front-at_once q ms wakes v h = ground (arith, take_front-Pops q q.queue v refl)

  -- All of the queues that a wait finds, and some of them.
  abbrev pub AllOf : (ThreadQueue A → Type 0) → List (ThreadQueue A) → Type 0
  AllOf P [] = Unit
  AllOf P (q ∷ qs) = P q × AllOf P qs

  abbrev pub SomeOf : (ThreadQueue A → Type 0) → List (ThreadQueue A) → Type 0
  SomeOf P [] = ⊥
  SomeOf P (q ∷ qs) = P q ⊎ SomeOf P qs

  -- A call that takes from one of the queues it finds, or waits for ever, as all of them are empty.
  abbrev pub Popped : List (ThreadQueue A) → Waits (Option A × ThreadQueue A) → Type 0
  Popped qs (done r) = SomeOf (λ q. Pops q r) qs
  Popped qs blocks = AllOf (λ q. q.queue ≡ []) qs
  Popped qs faults = ⊥

  Gives-Popped :
      (q : ThreadQueue A) (qs : List (ThreadQueue A)) (w : Waits (Option A × ThreadQueue A))
      → Gives (Pops q) w
      → Popped (q ∷ qs) w
  Gives-Popped q qs (done r) h = inl h
  Gives-Popped q qs blocks h = absurd h
  Gives-Popped q qs faults h = absurd h

  later-Popped :
      (q : ThreadQueue A) (qs : List (ThreadQueue A)) (w : Waits (Option A × ThreadQueue A))
      → q.queue ≡ []
      → Popped qs w
      → Popped (q ∷ qs) w
  later-Popped q qs (done r) e h = inr h
  later-Popped q qs blocks e h = (e, h)
  later-Popped q qs faults e h = absurd h

  take_front-Popped :
      (q : ThreadQueue A) (qs : List (ThreadQueue A))
      → IsValid q
      → Popped (q ∷ qs) (take_front q q.queue)
  take_front-Popped q qs v =
      Gives-Popped q qs (take_front q q.queue) (take_front-Pops q q.queue v refl)

  is_empty-nil : (xs : List A) → is_empty xs ≡ true → xs ≡ []
  is_empty-nil [] e = refl
  is_empty-nil (x ∷ xs) e = cc

  wait-Popped :
      (q : ThreadQueue A) (wakes : List (ThreadQueue A))
      → AllOf IsValid (q ∷ wakes)
      → Popped (q ∷ wakes) (take_after (wait q wakes))
  unfolding wait take_after
  wait-Popped q [] (v, vs) = elim (Bool-cases (is_empty q.queue && not q.is_terminate)) [
    | inl e ↦ rw (e) (is_empty-nil q.queue (ground (arith, e)), tt)
    | inr e ↦ rw (e) (take_front-Popped q [] v)
  ]
  wait-Popped q (r ∷ rs) (v, vs) = elim (Bool-cases (is_empty q.queue && not q.is_terminate)) [
    | inl e ↦ rw (e) (
        later-Popped q (r ∷ rs) (take_after (wait r rs)) (is_empty-nil q.queue (ground (arith, e)))
          (wait-Popped r rs vs))
    | inr e ↦ rw (e) (take_front-Popped q (r ∷ rs) v)
  ]

  timed_wait-Popped :
      (q : ThreadQueue A) (wakes : List (ThreadQueue A))
      → q.queue ≡ []
      → AllOf IsValid (q ∷ wakes)
      → Popped (q ∷ wakes) (take_after (done (timed_wait q wakes)))
  unfolding timed_wait take_after
  timed_wait-Popped q [] e (v, vs) = take_front-Popped q [] v
  timed_wait-Popped q (r ∷ rs) e (v, (w, vs)) =
      later-Popped q (r ∷ rs) (take_front r r.queue) e (take_front-Popped r rs w)

  pop_wait-Popped :
      (q : ThreadQueue A) (ms : Millis) (wakes : List (ThreadQueue A))
      → q.queue ≡ []
      → AllOf IsValid (q ∷ wakes)
      → Popped (q ∷ wakes) (take_after (pop_wait q ms wakes))
  unfolding pop_wait
  pop_wait-Popped q (millis n) wakes e v = elim (Bool-cases (ltb (3600 * 24) n)) [
    | inl h ↦ rw (h) (wait-Popped q wakes v)
    | inr h ↦ rw (h) (timed_wait-Popped q wakes e v)
  ]
  pop_wait-Popped q (before n) wakes e v = timed_wait-Popped q wakes e v

  -- With queues that count their elements, a pop does not fault. It takes the oldest element of
  -- the queue or of what a wake-up finds, or answers `false` where that is empty, or waits for ever,
  -- and then the queue and all that the wake-ups find are empty.
  pub pop_front-Popped :
      (q : ThreadQueue A) (ms : Millis) (wakes : List (ThreadQueue A))
      → AllOf IsValid (q ∷ wakes)
      → Popped (q ∷ wakes) (pop_front q ms wakes)
  unfolding pop_front take_after
  pop_front-Popped q ms wakes (v, vs) = elim (Bool-cases (is_empty q.queue)) [
    | inl e ↦ elim (Bool-cases (is_zero ms)) [
      | inl z ↦ rw (e, z) (inl (is_empty-nil q.queue e, refl))
      | inr z ↦ rw (e, z) (pop_wait-Popped q ms wakes (is_empty-nil q.queue e) (v, vs))
    ]
    | inr e ↦ rw (e) (take_front-Popped q wakes v)
  ]

  pub insert_back-IsValid :
      (q : ThreadQueue A) (a : A) → IsValid q → q.size + 1 < 2 ^ 63 → IsValid (insert_back q a)
  unfolding insert_back
  insert_back-IsValid q a v h = record {
    counted = omega (arith, v.counted, length-append q.queue (a ∷ []));
    small = omega (arith, v.counted);
  }

  push_back_loop-Appended :
      (q : ThreadQueue A) (bs : List A) (n k : ℕ)
      → IsValid q
      → n < 2 ^ 32
      → q.size + length bs < 2 ^ 63
      → k ≡ min (length bs) (q.max_size - q.size)
      → Appended q bs k (push_back_loop q bs n).1 × ((push_back_loop q bs n).0 ≡ (n + k) % 2 ^ 32)
  unfolding push_back_loop
  push_back_loop-Appended q [] n zero v w h e =
      (record { queue = sym (append-nil q.queue); room = refl; valid = v }, omega arith)
  push_back_loop-Appended q [] n (suc k) v w h e = absurd (omega arith)
  push_back_loop-Appended q (a ∷ bs) n zero v w h e =
      let full : leb q.max_size q.size ≡ true = ground arith in
      rw full (record { queue = sym (append-nil q.queue); room = refl; valid = v }, omega arith)
  push_back_loop-Appended q (a ∷ bs) n (suc k) v w h e =
      let open_ : leb q.max_size q.size ≡ false = ground arith in
      let (ih, m) =
        push_back_loop-Appended (insert_back q a) bs ((n + 1) % 2 ^ 32) k
          (insert_back-IsValid q a v (omega arith)) (omega arith)
          (unfold insert_back in omega (arith, v.counted))
          (unfold insert_back in omega (arith, v.counted)) in
      rw open_ (
        record {
          queue = ih.queue ∙ (unfold insert_back in append_assoc q.queue (a ∷ []) (take k bs));
          room = ih.room ∙ (unfold insert_back in refl);
          valid = ih.valid;
        },
        omega arith,
      )

  -- `push_back` of a queue appends the longest prefix for which the limit leaves room, in order,
  -- and returns the number of elements appended as an `int` has it, modulo 2 ^ 32.
  pub push_back_all-Appended :
      (q : ThreadQueue A) (bs : List A)
      → IsValid q
      → q.size + length bs < 2 ^ 63
      → Appended q bs (min (length bs) (q.max_size - q.size)) (push_back_all q bs).1
        × ((push_back_all q bs).0 ≡ min (length bs) (q.max_size - q.size) % 2 ^ 32)
  unfolding push_back_all
  push_back_all-Appended q bs v h =
      let (r, n) = push_back_loop-Appended q bs 0 _ v (omega arith) h refl in (r, omega arith)

  -- `push_front` of a queue puts it in front in reverse order, and no limit is tested.
  pub push_front_all-reverse :
      (q : ThreadQueue A) (bs : List A)
      → IsValid q
      → q.size + length bs < 2 ^ 63
      → ((push_front_all q bs).queue ≡ reverse bs ++ q.queue) × IsValid (push_front_all q bs)
  unfolding push_front_all
  push_front_all-reverse q [] v h = (refl, v)
  push_front_all-reverse q (a ∷ bs) v h =
      let (e, w) =
        push_front_all-reverse (push_front q a) bs
          (unfold push_front in record { counted = omega (arith, v.counted); small = omega arith })
          (unfold push_front in omega arith) in
      (e ∙ sym (rw (reverse-cons a bs) (append_assoc (reverse bs) (a ∷ []) q.queue)), w)

-- Without a wait, the front is taken, or nothing.
module _ {A : Type 0} where
  pub pop_front-cons :
      (q : ThreadQueue A) (a : A) (rest : List A)
      → q.queue ≡ a ∷ rest
      → 0 < q.size
      → pop_front q (millis 0) [] ≡ done (some a, record q { queue = rest; size = dec64 q.size })
  unfolding pop_front
  pop_front-cons q a rest h k =
      let some_left : ltb 0 q.size ≡ true = ground arith in
      rw (h, pop_front, take_front) (rw (some_left) refl)

  pub pop_front-nil :
      (q : ThreadQueue A) → q.queue ≡ [] → pop_front q (millis 0) [] ≡ done (none, q)
  unfolding pop_front
  pop_front-nil q h = rw (h, pop_front) refl

  pub push_back-room :
      (q : ThreadQueue A) (a : A) → has_room q ≡ true → push_back q a ≡ (true, insert_back q a)
  unfolding push_back
  push_back-room q a h = rw (h, push_back) refl

  pub push_back-full : (q : ThreadQueue A) (a : A) → has_room q ≡ false → push_back q a ≡ (false, q)
  unfolding push_back
  push_back-full q a h = rw (h, push_back) refl

  pub insert_back-queue : (q : ThreadQueue A) (a : A) → (insert_back q a).queue ≡ q.queue ++ a ∷ []
  unfolding insert_back
  insert_back-queue q a = refl

  -- The front is taken at once, however long the caller would wait.
  pub pop_front-first :
      (q : ThreadQueue A) (a : A) (rest : List A) (ms : Millis) (wakes : List (ThreadQueue A))
      → q.queue ≡ a ∷ rest
      → 0 < q.size
      → pop_front q ms wakes ≡ done (some a, record q { queue = rest; size = dec64 q.size })
  unfolding pop_front
  pop_front-first q a rest ms wakes h k =
      let some_left : ltb 0 q.size ≡ true = ground arith in
      rw (h, pop_front, take_front) (rw (some_left) refl)

  -- A wait of 100 milliseconds in which nothing comes.
  pub pop_front-none :
      (q : ThreadQueue A) → q.queue ≡ [] → pop_front q (millis 100) [] ≡ done (none, q)
  unfolding pop_front
  pop_front-none q h = rw (h, pop_front) refl
