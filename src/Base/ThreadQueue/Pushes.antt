-- ===== src/Base/ThreadQueue/Pushes.antt =====
-- base/thread_queue.h: elements that are pushed one after the other.
use sails.Prelude.{◌+◌, ◌^◌, ◌<◌, ◌≤◌, ◌≡◌, sym, ap, ◌∙◌, true, List, [], ◌∷◌, ◌++◌, arith, length}
use mathlib.Core.List.{append-nil, append_assoc}
use sails.Base.ThreadQueue.{ThreadQueue, has_room, insert_back, push_back}
use sails.Base.ThreadQueue.Order.{push_back-room}

module _ {A : Type 0} where
  -- The queue after a `push_back` of each.
  abbrev pub pushes : ThreadQueue A → List A → ThreadQueue A
  pushes q [] = q
  pushes q (a ∷ bs) = pushes (push_back q a).1 bs

  has_room-below : (q : ThreadQueue A) → q.size < q.max_size → has_room q ≡ true
  unfolding has_room
  has_room-below q h = ground arith

  pub below : (q : ThreadQueue A) → has_room q ≡ true → q.size < q.max_size
  unfolding has_room
  below q h = ground arith

  -- While the limit leaves room, all of them are at the end, in order.
  pub pushes-queue :
      (q : ThreadQueue A) (bs : List A)
      → q.size + length bs ≤ q.max_size
      → q.max_size < 2 ^ 64
      → (pushes q bs).queue ≡ q.queue ++ bs
  unfolding insert_back
  pushes-queue q [] h m = sym (append-nil q.queue)
  pushes-queue q (a ∷ bs) h m =
      let e : (push_back q a).1 ≡ insert_back q a =
        ap (λ p. p.1) (push_back-room q a (has_room-below q (omega arith))) in
      ap (λ r. (pushes r bs).queue) e
      ∙ pushes-queue (insert_back q a) bs (omega arith) m
      ∙ append_assoc q.queue (a ∷ []) bs

  pub pushes-size :
      (q : ThreadQueue A) (bs : List A)
      → q.size + length bs ≤ q.max_size
      → q.max_size < 2 ^ 64
      → (pushes q bs).size ≡ q.size + length bs
  unfolding insert_back
  pushes-size q [] h m = omega arith
  pushes-size q (a ∷ bs) h m =
      let e : (push_back q a).1 ≡ insert_back q a =
        ap (λ p. p.1) (push_back-room q a (has_room-below q (omega arith))) in
      ap (λ r. (pushes r bs).size) e
      ∙ pushes-size (insert_back q a) bs (omega arith) m
      ∙ omega arith

  pub push_back-below :
      (q : ThreadQueue A) (a : A)
      → q.size < q.max_size
      → q.max_size < 2 ^ 64
      → ((push_back q a).0 ≡ true)
        × ((push_back q a).1.size ≡ q.size + 1)
        × ((push_back q a).1.max_size ≡ q.max_size)
  unfolding insert_back
  push_back-below q a h m =
      let e = push_back-room q a (has_room-below q h) in
      (ap (λ p. p.0) e, ap (λ p. p.1.size) e ∙ omega arith, ap (λ p. p.1.max_size) e)
