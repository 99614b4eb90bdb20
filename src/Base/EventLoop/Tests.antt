-- ===== src/Base/EventLoop/Tests.antt =====
-- base/event_loop.cc: a table of two descriptors, and the theorems at it.
use sails.Prelude.{
  ℕ, zero, suc, sym, ap, ◌-◌, ◌≡◌, refl, Bool, true, some, none, [], ◌∷◌, arith, get_elem?, length,
  replicate, length-replicate,
}
use sails.Prelude.Int.{pos}
use sails.Base.EventLoop.{
  Event, Anfd, EventLoop, Realloc, empty_anfd, add_event, array_needsize, grow, init_events, add_at,
  add_fd, place, collect, delete_event,
}
use sails.Base.EventLoop.Growth.{Allocates, Grown, array_needsize-Grown}
use sails.Base.EventLoop.Flags.{Inv, is_sound}
use sails.Base.EventLoop.Flaws.{add-delete_event}

abbrev reads : Event
reads = record { fd = pos 1; events = 1; edata = 0; cb = some 7; event_data = 0 }

abbrev writes : Event
writes = record { fd = pos 1; events = 2; edata = 0; cb = some 8; event_data = 0 }

abbrev both : Event
both = record { fd = pos 1; events = 3; edata = 0; cb = some 9; event_data = 0 }

abbrev far : Event
far = record { fd = pos 2; events = 1; edata = 0; cb = some 9; event_data = 0 }

abbrev reading : Anfd
reading = record { isused = true; fd = 0; events = 1; next = reads ∷ [] }

abbrev two : EventLoop
two = record { anfds = empty_anfd ∷ reading ∷ []; max_events = 2 }

-- The new memory holds an old slot everywhere.
abbrev old_memory : Realloc
old_memory n = some (replicate (n - 2) reading)

two-Inv : Inv two
unfolding collect
two-Inv = record { sized = refl; sound = slots }
  where
    slots : (i : ℕ) (a : Anfd) → get_elem? two.anfds i ≡ some a → is_sound a ≡ true
    slots zero a h = ground arith
    slots (suc zero) a h = let q : reading ≡ a = ground arith in ap is_sound (sym q)
    slots (suc (suc i)) a h = absurd (ground arith)

old_memory-Allocates : Allocates old_memory two
old_memory-Allocates n more e h =
    let q : replicate (n - 2) reading ≡ more = ground arith in
    omega (arith, ap length q, length-replicate (n - 2) reading)

add_writes :
    add_event old_memory two writes true true
    ≡ some (
      true,
      record two {
        anfds = empty_anfd ∷ record reading { events = 3; next = reads ∷ writes ∷ [] } ∷ [];
      },
    )
unfolding add_event add_fd add_at place collect
add_writes = refl

add_far :
    (add_event old_memory two far true true)
    ≡ some (
      true,
      record {
        anfds =
            empty_anfd
            ∷ reading
            ∷ record { isused = true; fd = 0; events = 1; next = far ∷ [] }
            ∷ replicate 16 empty_anfd;
        max_events = 19;
      },
    )
unfolding add_event add_fd add_at place collect array_needsize grow init_events
add_far = refl

array_needsize-Grown_example :
    (ok : Bool) × (l' : EventLoop) × (array_needsize old_memory two 3 ≡ some (ok, l'))
    × Grown old_memory two 3 ok l'
array_needsize-Grown_example =
    array_needsize-Grown old_memory two 3 refl old_memory-Allocates (omega arith)

add-delete_event_example :
    (l' : EventLoop) × (delete_event two reads ≡ some (true, l'))
    × (add_event old_memory l' writes true true ≡ none)
add-delete_event_example =
    add-delete_event old_memory two 1 reading reads reads writes true true two-Inv (omega arith)
      refl refl refl refl (refl, refl) (refl, omega arith)
