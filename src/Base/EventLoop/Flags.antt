-- ===== src/Base/EventLoop/Flags.antt =====
-- base/event_loop.cc: what a descriptor listens to is the flags of its list.
use sails.Prelude.{
  ◌^◌, length-replicate, ◌≤◌, ℕ, zero, suc, ◌+◌, ◌-◌, ◌<◌, ◌≡◌, refl, sym, ap, ◌∙◌, bit_or, Bool,
  true, false, ◌&&◌, not, Option, none, some, List, [], ◌∷◌, ◌++◌, arith, leb, ◌==◌, if◌then◌else◌,
  get_elem?, set, length, length-set, replicate, get_elem?-set_self, get_elem?-set_ne,
  get_elem?-some, Bool-cases, inl, inr, ◌⊎◌, get_elem?-inside,
}
use sails.Prelude.Bits.{bit_or-absorb}
use sails.Prelude.Int.{pos}
use sails.Base.EventLoop.{
  new_loop, init_events_count, Event, Anfd, EventLoop, Realloc, empty_anfd, place, collect, add_at,
  add_fd, on_fd, add_event, array_needsize,
}
use sails.Base.EventLoop.Growth.{Allocates, Grown, array_needsize-Grown}

abbrev is_nil : List Event → Bool
is_nil [] = true
is_nil (_ ∷ _) = false

-- A descriptor in use has events, and its flags are theirs; one that is not has none.
abbrev pub is_sound : Anfd → Bool
is_sound a =
    if a.isused then not (is_nil a.next) && (a.events == collect 0 a.next) else is_nil a.next

pub record Inv (l : EventLoop) : Type 0 where
  pub sized : length l.anfds ≡ l.max_events
  pub sound : (i : ℕ) (a : Anfd) → get_elem? l.anfds i ≡ some a → is_sound a ≡ true

collect-snoc :
    (n : ℕ) (xs : List Event) (e : Event)
    → collect n (xs ++ e ∷ []) ≡ bit_or (collect n xs) e.events
unfolding collect
collect-snoc n [] e = refl
collect-snoc n (x ∷ xs) e = collect-snoc (bit_or n x.events) xs e

set_slot :
    (i j : ℕ) (b a : Anfd) (xs : List Anfd)
    → get_elem? (set xs i b) j ≡ some a
    → (i == j) ≡ true
    → is_sound b ≡ true
    → is_sound a ≡ true
set_slot i j b a [] g e h = absurd (ground arith)
set_slot zero zero b a (x ∷ xs) g e h = let q : b ≡ a = ground arith in rw (← q) h
set_slot zero (suc j) b a (x ∷ xs) g e h = absurd (ground arith)
set_slot (suc i) zero b a (x ∷ xs) g e h = absurd (ground arith)
set_slot (suc i) (suc j) b a (x ∷ xs) g e h = set_slot i j b a xs g (ground arith) h

-- A table with one slot changed.
pub set-Inv :
    (l : EventLoop) (fd : ℕ) (b : Anfd)
    → Inv l
    → is_sound b ≡ true
    → Inv (record l { anfds = set l.anfds fd b })
set-Inv l fd b v h = record {
  sized = length-set l.anfds fd b ∙ v.sized;
  sound = λ i a g. elim (Bool-cases (fd == i)) [
    | inl same ↦ set_slot fd i b a l.anfds g same h
    | inr other ↦ v.sound i a (sym (get_elem?-set_ne l.anfds fd i b (λ q. ground arith)) ∙ g)
  ];
}

-- The descriptor listens to the flags of the event.
pub record Listens (fd : ℕ) (e : Event) (l : EventLoop) : Type 0 where
  pub slot : Anfd
  pub at : get_elem? l.anfds fd ≡ some slot
  pub used : slot.isused ≡ true
  pub covers : bit_or slot.events e.events ≡ slot.events

used_list :
    (a : Anfd) (xs : List Event)
    → a.next ≡ xs
    → is_sound a ≡ true
    → a.isused ≡ true
    → (y : Event) × (ys : List Event) × (a.next ≡ y ∷ ys) × (a.events ≡ collect 0 a.next)
used_list a [] q h used = absurd (ground arith)
used_list a (y ∷ ys) q h used = (y, ys, q, ground arith)

-- What `place` makes of a sound descriptor, once its flags are collected.
abbrev Placed : Anfd → Event → Type 0
Placed a e =
    (need : Bool) × (b : Anfd) × (place a e ≡ some (need, b))
    × (is_sound (record b { events = collect 0 b.next }) ≡ true)
    × (b.isused ≡ true)
    × (bit_or (collect 0 b.next) e.events ≡ collect 0 b.next)

append_sound :
    (a : Anfd) (e y : Event) (ys : List Event)
    → a.isused ≡ true
    → is_sound (record a { next = (y ∷ ys) ++ e ∷ []; events = collect 0 ((y ∷ ys) ++ e ∷ []) })
      ≡ true
append_sound a e y ys used = ground arith

snoc-covers :
    (xs : List Event) (e : Event)
    → bit_or (collect 0 (xs ++ e ∷ [])) e.events ≡ collect 0 (xs ++ e ∷ [])
snoc-covers xs e = rw (collect-snoc 0 xs e) (bit_or-absorb (collect 0 xs) e.events)

place-new :
    (a : Anfd) (e y : Event) (ys : List Event)
    → a.isused ≡ true
    → (bit_or a.events e.events == a.events) ≡ false
    → a.next ≡ y ∷ ys
    → place a e ≡ some (true, record a { next = (y ∷ ys) ++ e ∷ [] })
unfolding place
place-new a e y ys used new q = ground arith

place-Placed : (a : Anfd) (e : Event) → is_sound a ≡ true → Placed a e
unfolding place
place-Placed a e h = elim (Bool-cases a.isused) [
  | inr unused ↦ (
    true,
    record a { isused = true; next = e ∷ [] },
    rw (unused, place) refl,
    ground arith,
    refl,
    snoc-covers [] e,
  )
  | inl used ↦
      let (y, ys, q, m) = used_list a a.next refl h used in
      elim (Bool-cases (bit_or a.events e.events == a.events)) [
        | inl known ↦
            let k : bit_or a.events e.events ≡ a.events = ground arith in
            (
              false,
              a,
              rw (used, known, place) refl,
              ground arith,
              used,
              ap (λ n. bit_or n e.events) (sym m) ∙ k ∙ m,
            )
        | inr new ↦ (
          true,
          record a { next = (y ∷ ys) ++ e ∷ [] },
          place-new a e y ys used new q,
          append_sound a e y ys used,
          used,
          snoc-covers (y ∷ ys) e,
        )
      ]
]

pub add_at-placed :
    (l : EventLoop) (fd : ℕ) (e : Event) (a b : Anfd) (need ctl : Bool)
    → get_elem? l.anfds fd ≡ some a
    → place a e ≡ some (need, b)
    → add_at l fd e ctl true
      ≡ some (true, record l { anfds = set l.anfds fd (record b { events = collect 0 b.next }) })
unfolding add_at
add_at-placed l fd e a b true true g q = rw (g, q, add_at) refl
add_at-placed l fd e a b true false g q = rw (g, q, add_at) refl
add_at-placed l fd e a b false ctl g q = rw (g, q, add_at) refl

-- `add_event` on a descriptor of the table.
add_at-Inv :
    (l : EventLoop) (fd : ℕ) (e : Event)
    → Inv l
    → fd < l.max_events
    → (l' : EventLoop) × ((ctl : Bool) → add_at l fd e ctl true ≡ some (true, l'))
      × Inv l'
      × Listens fd e l'
      × (l'.max_events ≡ l.max_events)
unfolding add_at
add_at-Inv l fd e v h =
    let (a, g) = get_elem?-some l.anfds fd (omega (arith, v.sized)) in
    let (need, b, q, sound, used, covers) = place-Placed a e (v.sound fd a g) in
    let c : Anfd = record b { events = collect 0 b.next } in
    (
      record l { anfds = set l.anfds fd c },
      λ ctl. add_at-placed l fd e a b need ctl g q,
      set-Inv l fd c v sound,
      record {
        slot = c;
        at = get_elem?-set_self l.anfds fd c (omega (arith, v.sized));
        used = used;
        covers = covers;
      },
      refl,
    )

-- The slots that the growth adds are not in use.
appended :
    (xs : List Anfd) (k i : ℕ) (a : Anfd)
    → ((j : ℕ) (b : Anfd) → get_elem? xs j ≡ some b → is_sound b ≡ true)
    → get_elem? (xs ++ replicate k empty_anfd) i ≡ some a
    → is_sound a ≡ true
appended [] zero i a h g = absurd (ground arith)
appended [] (suc k) zero a h g = let q : empty_anfd ≡ a = ground arith in rw (← q) refl
appended [] (suc k) (suc i) a h g = appended [] k i a h g
appended (x ∷ xs) k zero a h g = h zero a g
appended (x ∷ xs) k (suc i) a h g = appended xs k i a (λ j. h (suc j)) g

Grown-Inv :
    (realloc : Realloc) (l l' : EventLoop) (need : ℕ) (ok : Bool)
    → Inv l
    → Grown realloc l need ok l'
    → Inv l'
Grown-Inv realloc l l' need ok v g = record {
  sized = g.sized;
  sound = λ i a h.
      appended l.anfds (l'.max_events - l.max_events) i a v.sound
        (ap (λ xs. get_elem? xs i) (sym g.kept) ∙ h);
}

pub empty-Inv : (n : ℕ) → Inv (record { anfds = replicate n empty_anfd; max_events = n })
empty-Inv n = record {
  sized = length-replicate n empty_anfd;
  sound = λ i a h. appended [] n i a (λ j b k. absurd (ground arith)) h;
}

pub new_loop-Inv : Inv new_loop
unfolding new_loop
new_loop-Inv = empty-Inv init_events_count

-- What `add_event` comes to.
abbrev Added : Realloc → EventLoop → ℕ → Event → Option (Bool × EventLoop) → Type 0
Added realloc l fd e result =
    (ok : Bool) × (l' : EventLoop) × (result ≡ some (ok, l'))
    × Inv l'
    × (((ok ≡ true) × Listens fd e l') ⊎ ((ok ≡ false) × (l' ≡ l) × (n : ℕ) × (realloc n ≡ none)))
    × (l.max_events ≤ l'.max_events)

module _ (realloc : Realloc) (l : EventLoop) (fd : ℕ) (e : Event) (ctl polled : Bool) where
  pub fits-add_fd :
      leb l.max_events fd ≡ false → add_fd realloc l fd e ctl polled ≡ add_at l fd e ctl polled
  unfolding add_fd
  fits-add_fd h = rw (h, add_fd) refl

  grows-add_fd :
      (l' : EventLoop)
      → leb l.max_events fd ≡ true
      → array_needsize realloc l (fd + 1) ≡ some (true, l')
      → add_fd realloc l fd e ctl polled ≡ add_at l' fd e ctl polled
  unfolding add_fd
  grows-add_fd l' h q = rw (h, q, add_fd) refl

  fails-add_fd :
      (l' : EventLoop)
      → leb l.max_events fd ≡ true
      → array_needsize realloc l (fd + 1) ≡ some (false, l')
      → add_fd realloc l fd e ctl polled ≡ some (false, l')
  unfolding add_fd
  fails-add_fd l' h q = rw (h, q, add_fd) refl

  pub add_event-add_fd :
      e.fd ≡ pos fd → add_event realloc l e ctl polled ≡ add_fd realloc l fd e ctl polled
  unfolding add_event
  add_event-add_fd h = ap (λ x. on_fd x none (λ n. add_fd realloc l n e ctl polled)) h

add_fd-Added :
    (realloc : Realloc) (l : EventLoop) (fd : ℕ) (e : Event) (ctl : Bool)
    → Inv l
    → Allocates realloc l
    → fd + 1 < 2 ^ 30
    → Added realloc l fd e (add_fd realloc l fd e ctl true)
add_fd-Added realloc l fd e ctl v alloc small = elim (Bool-cases (leb l.max_events fd)) [
  | inr fits ↦
      let (l', q, w, k, same) = add_at-Inv l fd e v (ground arith) in
      (true, l', fits-add_fd realloc l fd e ctl true fits ∙ q ctl, w, inl (refl, k), omega arith)
  | inl short ↦ grown short (array_needsize-Grown realloc l (fd + 1) v.sized alloc small)
]
  where
    grown :
        leb l.max_events fd ≡ true
        → (ok : Bool) × (m : EventLoop) × (array_needsize realloc l (fd + 1) ≡ some (ok, m))
          × Grown realloc l (fd + 1) ok m
        → Added realloc l fd e (add_fd realloc l fd e ctl true)
    grown short (false, m, q, g) = (
      false,
      m,
      fails-add_fd realloc l fd e ctl true m short q,
      Grown-Inv realloc l m (fd + 1) false v g,
      elim g.outcome [
        | inl (t, _) ↦ absurd (ground arith)
        | inr (_, same, n, none_left) ↦ inr (refl, same, n, none_left)
      ],
      g.longer,
    )
    grown short (true, m, q, g) =
        let (l', r, w, k, same) =
          add_at-Inv m fd e (Grown-Inv realloc l m (fd + 1) true v g) (ground (arith, g.outcome)) in
        (
          true,
          l',
          grows-add_fd realloc l fd e ctl true m short q ∙ r ctl,
          w,
          inl (refl, k),
          omega (arith, g.longer),
        )

-- The descriptor has no events yet, so that epoll does not know it.
abbrev pub is_fresh : EventLoop → ℕ → Bool
is_fresh l fd = elim (get_elem? l.anfds fd) [ none ↦ true | some a ↦ not a.isused ]

-- The same with the size of the table, which never shrinks.
pub add_event-longer :
    (realloc : Realloc) (l : EventLoop) (fd : ℕ) (e : Event) (ctl : Bool)
    → Inv l
    → Allocates realloc l
    → e.fd ≡ pos fd
    → fd + 1 < 2 ^ 30
    → (ok : Bool) × (l' : EventLoop) × (add_event realloc l e ctl true ≡ some (ok, l'))
      × Inv l'
      × (((ok ≡ true) × (fd < l'.max_events) × Listens fd e l') ⊎ (ok ≡ false))
      × (l.max_events ≤ l'.max_events)
add_event-longer realloc l fd e ctl v alloc f small =
    let (ok, l', q, w, s, g) = add_fd-Added realloc l fd e ctl v alloc small in
    (
      ok,
      l',
      add_event-add_fd realloc l fd e ctl true f ∙ q,
      w,
      elim s [
        | inl (taken, k) ↦ inl (taken, omega (arith, w.sized, get_elem?-inside l'.anfds fd k.at), k)
        | inr (refused, _, _, _) ↦ inr refused
      ],
      g,
    )
