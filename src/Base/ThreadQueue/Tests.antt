-- ===== src/Base/ThreadQueue/Tests.antt =====
-- base/thread_queue.h: the theorems at small queues.
use sails.Prelude.{ℕ, ◌≡◌, refl, false, [], ◌∷◌, arith}
use sails.Base.ThreadQueue.{
  ThreadQueue, millis, pop_front, push_back_all, push_front_all, has_room, insert_back,
}
use sails.Base.ThreadQueue.Order.{
  IsValid, Popped, pop_front-Popped, Appended, push_back_all-Appended, push_front_all-reverse,
}
use sails.Base.ThreadQueue.Books.{Producers, Step, Reach, Bounded, Reach-Bounded}

abbrev two : ThreadQueue ℕ
two = record { queue = 7 ∷ 8 ∷ []; max_size = 3; size = 2; is_terminate = false }

two-IsValid : IsValid two
two-IsValid = record { counted = refl; small = omega arith }

abbrev none_left : ThreadQueue ℕ
none_left = record { queue = []; max_size = 3; size = 0; is_terminate = false }

none_left-IsValid : IsValid none_left
none_left-IsValid = record { counted = refl; small = omega arith }

pop_front-Popped_example :
    Popped
      (none_left ∷ none_left ∷ two ∷ [])
      (pop_front none_left (millis 90000) (none_left ∷ two ∷ []))
pop_front-Popped_example =
    pop_front-Popped none_left (millis 90000) (none_left ∷ two ∷ [])
      (none_left-IsValid, (none_left-IsValid, (two-IsValid, tt)))

push_back_all-Appended_example :
    Appended two (9 ∷ 10 ∷ []) 1 (push_back_all two (9 ∷ 10 ∷ [])).1
    × ((push_back_all two (9 ∷ 10 ∷ [])).0 ≡ 1)
push_back_all-Appended_example = push_back_all-Appended two (9 ∷ 10 ∷ []) two-IsValid (omega arith)

push_front_all-reverse_example :
    ((push_front_all two (9 ∷ 10 ∷ [])).queue ≡ 10 ∷ 9 ∷ 7 ∷ 8 ∷ [])
    × IsValid (push_front_all two (9 ∷ 10 ∷ []))
push_front_all-reverse_example = push_front_all-reverse two (9 ∷ 10 ∷ []) two-IsValid (omega arith)

-- One place is left and two producers pass the test before either inserts.
abbrev start : Producers ℕ
start = record { q = two; pending = 0 }

abbrev raced : Producers ℕ
unfolding insert_back
raced = record { q = insert_back (insert_back two 9) 10; pending = 0 }

race : Reach 2 start raced
unfolding insert_back has_room
race =
    Reach.next
      (Reach.next
        (Reach.next (Reach.next Reach.here (Step.test _ (omega arith) refl))
          (Step.test _ (omega arith) refl))
        (Step.insert _ 9 (omega arith)))
      (Step.insert _ 10 (omega arith))

Reach-Bounded_example : Bounded 3 2 raced
Reach-Bounded_example =
    Reach-Bounded 3 2 (omega arith)
      (record { valid = two-IsValid; same = refl; few = omega arith; within = omega arith }) race
