-- ===== src/Base/EventLoop/Flaws.antt =====
-- base/event_loop.cc: what `delete_event` and `add_event` do to a descriptor that keeps its slot.
use sails.Prelude.{
  ℕ, ◌<◌, ◌≡◌, ◌≢◌, refl, ap, ◌∙◌, bit_or, Bool, true, false, none, some, List, [], ◌∷◌, ◌++◌,
  arith, ltb, ◌==◌, get_elem?, set, length, get_elem?-set_self, get_elem?-none,
}
use sails.Prelude.Bits.{zero-bit_or}
use sails.Prelude.Int.{pos}
use sails.Base.EventLoop.{
  Event, Anfd, EventLoop, Realloc, on_fd, place, add_at, add_event, strip, delete_at, delete_fd,
  delete_event,
}
use sails.Base.EventLoop.Flags.{Inv, fits-add_fd, add_event-add_fd}

module _ (l : EventLoop) (fd : ℕ) (ev : Event) where
  delete_fd-at :
      (a b : Anfd)
      → fd < l.max_events
      → get_elem? l.anfds fd ≡ some a
      → delete_at a ev.events ≡ some b
      → delete_fd l fd ev.events ≡ some (true, record l { anfds = set l.anfds fd b })
  unfolding delete_fd
  delete_fd-at a b h g q =
      let k : ltb l.max_events fd ≡ false = ground arith in rw (k, g, q, delete_fd) refl

  delete_event-delete_fd : ev.fd ≡ pos fd → delete_event l ev ≡ delete_fd l fd ev.events
  unfolding delete_event
  delete_event-delete_fd f = ap (λ x. on_fd x (some (false, l)) (λ n. delete_fd l n ev.events)) f

known_slot :
    (a : Anfd) (n : ℕ) (xs : List Event)
    → a.isused ≡ true
    → a.events ≡ n
    → a.next ≡ xs
    → a ≡ record { isused = true; fd = a.fd; events = n; next = xs }
known_slot a n xs used m q = λ i. record { isused = used i; fd = a.fd; events = m i; next = q i }

-- A descriptor that reads, with the one event `x`, once its reading is deleted.
abbrev bare : Anfd → Anfd
bare a = record { isused = true; fd = a.fd; events = 0; next = [] }

delete_at-bare :
    (a : Anfd) (x : Event)
    → a.isused ≡ true
    → a.events ≡ 1
    → a.next ≡ x ∷ []
    → delete_at a 1 ≡ some (bare a)
unfolding delete_at strip
delete_at-bare a x used m q = ap (λ s. delete_at s 1) (known_slot a 1 (x ∷ []) used m q)

place-bare : (a : Anfd) (e : Event) → 0 < e.events → place (bare a) e ≡ none
unfolding place
place-bare a e h =
    let k : (bit_or 0 e.events == 0) ≡ false = ground (arith, zero-bit_or e.events) in rw k refl

add_at-place :
    (l : EventLoop) (fd : ℕ) (e : Event) (a : Anfd) (ctl polled : Bool)
    → get_elem? l.anfds fd ≡ some a
    → place a e ≡ none
    → add_at l fd e ctl polled ≡ none
unfolding add_at
add_at-place l fd e a ctl polled g q = rw (g, q, add_at) refl

-- When the only event of a descriptor, which reads, is deleted, the slot stays in use with no
-- event; an event that is added to it later goes through a null pointer.
pub add-delete_event :
    (realloc : Realloc) (l : EventLoop) (fd : ℕ) (a : Anfd) (x ev e : Event) (ctl polled : Bool)
    → Inv l
    → fd < l.max_events
    → get_elem? l.anfds fd ≡ some a
    → a.isused ≡ true
    → a.events ≡ 1
    → a.next ≡ x ∷ []
    → (ev.fd ≡ pos fd) × (ev.events ≡ 1)
    → (e.fd ≡ pos fd) × (0 < e.events)
    → (l' : EventLoop) × (delete_event l ev ≡ some (true, l'))
      × (add_event realloc l' e ctl polled ≡ none)
add-delete_event realloc l fd a x ev e ctl polled v h g used m q (f, one) (f', some_flag) =
    let b : fd < length l.anfds = omega (arith, v.sized) in
    let l' : EventLoop = record l { anfds = set l.anfds fd (bare a) } in
    (
      l',
      delete_event-delete_fd l fd ev f
          ∙ delete_fd-at l fd ev a (bare a) h g
              (ap (delete_at a) one ∙ delete_at-bare a x used m q),
      add_event-add_fd realloc l' fd e ctl polled f'
          ∙ fits-add_fd realloc l' fd e ctl polled (ground arith)
          ∙ add_at-place l' fd e (bare a) ctl polled (get_elem?-set_self l.anfds fd (bare a) b)
              (place-bare a e some_flag),
    )

-- Reading and writing deleted from a descriptor that only reads.
abbrev writing : Anfd → Event → List Event → Anfd
writing a x xs = record { isused = true; fd = a.fd; events = 2; next = x ∷ strip 3 xs }

delete_at-writing :
    (a : Anfd) (x : Event) (xs : List Event)
    → a.isused ≡ true
    → a.events ≡ 1
    → a.next ≡ x ∷ xs
    → delete_at a 3 ≡ some (writing a x xs)
unfolding delete_at
delete_at-writing a x xs used m q = ap (λ s. delete_at s 3) (known_slot a 1 (x ∷ xs) used m q)

-- Deleting reading and writing from a descriptor that only reads leaves it marked as one that
-- writes, with its first event as it was.
pub delete_event-both :
    (l : EventLoop) (fd : ℕ) (a : Anfd) (x ev : Event) (xs : List Event)
    → Inv l
    → fd < l.max_events
    → get_elem? l.anfds fd ≡ some a
    → a.isused ≡ true
    → a.events ≡ 1
    → a.next ≡ x ∷ xs
    → (ev.fd ≡ pos fd) × (ev.events ≡ 3)
    → (l' : EventLoop) × (b : Anfd) × (delete_event l ev ≡ some (true, l'))
      × (get_elem? l'.anfds fd ≡ some b)
      × (b.isused ≡ true)
      × (b.events ≡ 2)
      × (b.next ≡ x ∷ strip 3 xs)
delete_event-both l fd a x ev xs v h g used m q (f, both) = (
  record l { anfds = set l.anfds fd (writing a x xs) },
  writing a x xs,
  delete_event-delete_fd l fd ev f
      ∙ delete_fd-at l fd ev a (writing a x xs) h g
          (ap (delete_at a) both ∙ delete_at-writing a x xs used m q),
  get_elem?-set_self l.anfds fd (writing a x xs) (omega (arith, v.sized)),
  refl,
  refl,
  refl,
)

-- The guard of `delete_event` lets the number of slots itself pass as a descriptor, which is read
-- past the end of the table.
pub delete_event-edge :
    (l : EventLoop) (ev : Event) → Inv l → ev.fd ≡ pos l.max_events → delete_event l ev ≡ none
unfolding delete_fd
delete_event-edge l ev v f =
    let k : ltb l.max_events l.max_events ≡ false = ground arith in
    let g = get_elem?-none l.anfds l.max_events (omega (arith, v.sized)) in
    delete_event-delete_fd l l.max_events ev f ∙ (rw (k, g) refl)

-- A slot with one more event at the end of its list.
abbrev longer : Anfd → List Event → Event → Anfd
longer a xs e = record a { next = xs ++ e ∷ [] }

add_at-refused :
    (l : EventLoop) (fd : ℕ) (e x : Event) (a : Anfd) (xs : List Event)
    → get_elem? l.anfds fd ≡ some a
    → a.isused ≡ true
    → (bit_or a.events e.events == a.events) ≡ false
    → a.next ≡ x ∷ xs
    → add_at l fd e true false
      ≡ some (false, record l { anfds = set l.anfds fd (longer a (x ∷ xs) e) })
unfolding add_at place
add_at-refused l fd e x a xs g used new q =
    let p : place a e ≡ some (true, longer a (x ∷ xs) e) = ground arith in rw (g, p, add_at) refl

-- When epoll refuses an event with a new flag on a descriptor in use, as it does when the
-- descriptor is registered already, `add_event` fails, but the event stays at the end of the list
-- while the flags of the descriptor stay as they were.
pub add_event-refused :
    (realloc : Realloc) (l : EventLoop) (fd : ℕ) (e x : Event) (a : Anfd) (xs : List Event)
    → Inv l
    → fd < l.max_events
    → e.fd ≡ pos fd
    → get_elem? l.anfds fd ≡ some a
    → a.isused ≡ true
    → bit_or a.events e.events ≢ a.events
    → a.next ≡ x ∷ xs
    → (l' : EventLoop) × (b : Anfd) × (add_event realloc l e true false ≡ some (false, l'))
      × (get_elem? l'.anfds fd ≡ some b)
      × (b.next ≡ (x ∷ xs) ++ e ∷ [])
      × (b.events ≡ a.events)
add_event-refused realloc l fd e x a xs v h f g used new q =
    let k : (bit_or a.events e.events == a.events) ≡ false = ground arith in
    (
      record l { anfds = set l.anfds fd (longer a (x ∷ xs) e) },
      longer a (x ∷ xs) e,
      add_event-add_fd realloc l fd e true false f
          ∙ fits-add_fd realloc l fd e true false (ground arith)
          ∙ add_at-refused l fd e x a xs g used k q,
      get_elem?-set_self l.anfds fd (longer a (x ∷ xs) e) (omega (arith, v.sized)),
      refl,
      refl,
    )
