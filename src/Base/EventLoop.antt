-- ===== src/Base/EventLoop.antt =====
-- base/event_loop.cc, as it is built on Linux: the table of the events by descriptor.
--
-- `none` as a result is a fault: an access outside `anfds` or through a null `next`. Whether an
-- `epoll_ctl` succeeds and what `realloc` returns are arguments; `malloc` of one event succeeds.
-- The mutex is held for the whole of `event_ctl` and `event_stop`, so each is one step. An `int` of
-- flags is a natural number below 2 ^ 31.
pub mod Growth
pub mod Flags
pub mod Changes
pub mod Flaws
mod Tests
use sails.Prelude.{
  ◌^◌, ℕ, zero, suc, ◌+◌, ◌-◌, ◌/◌, bit_and, bit_or, bit_xor, Bool, true, false, ◌&&◌, not, Option,
  none, some, List, [], ◌∷◌, ◌++◌, ltb, leb, ◌==◌, if◌then◌else◌, get_elem?, set, length, replicate,
}
use sails.Prelude.Int.{ℤ, pos, negsuc}

-- `struct event` without `next`; a callback is known by a number.
pub record Event : Type 0 where
  pub fd : ℤ
  pub events : ℕ
  pub edata : ℕ
  pub cb : Option ℕ
  -- `data`, by its `u64`
  pub event_data : ℕ

-- `next` is the whole list of the descriptor. Where `isused` is 0 the list is freed, and `next`,
-- which is not read then, is empty.
pub record Anfd : Type 0 where
  pub isused : Bool
  pub fd : ℕ
  pub events : ℕ
  pub next : List Event

pub record EventLoop : Type 0 where
  pub anfds : List Anfd
  pub max_events : ℕ

abbrev pub init_events_count : ℕ
init_events_count = 1000

abbrev pub empty_anfd : Anfd
empty_anfd = record { isused = false; fd = 0; events = 0; next = [] }

-- the constructor, whose `memset` clears the table, and `init`
pub new_loop : EventLoop
new_loop = record { anfds = replicate init_events_count empty_anfd; max_events = init_events_count }

-- The loop of `init_events` for `count` slots from `start` on.
pub init_events : ℕ → ℕ → List Anfd → List Anfd
init_events start zero anfds = anfds
init_events start (suc count) anfds = init_events (start + 1) count (set anfds start empty_anfd)

-- The loop `newcnt += (newcnt >> 1) + 16`, on fuel; a count that an `int` cannot hold is a fault.
unfoldable pub grow : ℕ → ℕ → ℕ → Option ℕ
grow zero need_cnt newcnt = none
grow (suc fuel) need_cnt newcnt =
    let bigger = newcnt + (newcnt / 2 + 16) in
    let rest = grow fuel need_cnt bigger in
    if leb (2 ^ 31) bigger then none else if ltb bigger need_cnt then rest else some bigger

-- What `realloc` returns for a count: `none` for NULL, or what the memory behind the old table
-- holds.
abbrev pub Realloc : Type 0
Realloc = ℕ → Option (List Anfd)

-- The fuel is `need_cnt`.
unfoldable pub array_needsize : Realloc → EventLoop → ℕ → Option (Bool × EventLoop)
unfolding init_events grow
array_needsize realloc l need_cnt =
    if ltb l.max_events need_cnt
    then elim (grow need_cnt need_cnt l.max_events) [
      | none ↦ none
      | some newcnt ↦ elim (realloc newcnt) [
        | none ↦ some (false, l)
        | some more ↦ some (
          true,
          record {
            anfds = init_events l.max_events (newcnt - l.max_events) (l.anfds ++ more);
            max_events = newcnt;
          },
        )
      ]
    ]
    else some (true, l)

-- The event goes to the end of the list of its descriptor, unless its flags are all known; whether
-- epoll is to be told.
pub place : Anfd → Event → Option (Bool × Anfd)
place a e =
    if a.isused
    then if bit_or a.events e.events == a.events
      then some (false, a)
      else elim a.next [ [] ↦ none | x ∷ xs ↦ some (true, record a { next = (x ∷ xs) ++ e ∷ [] }) ]
    else some (true, record a { isused = true; next = e ∷ [] })

-- The loop that collects the flags of a list.
pub collect : ℕ → List Event → ℕ
collect new_events [] = new_events
collect new_events (x ∷ xs) = collect (bit_or new_events x.events) xs

-- `add_event` once the table is large enough.
pub add_at : EventLoop → ℕ → Event → Bool → Bool → Option (Bool × EventLoop)
unfolding place collect
add_at l fd e ctl_poll polled = elim (get_elem? l.anfds fd) [
  | none ↦ none
  | some a ↦ elim (place a e) [
    | none ↦ none
    | some (need_add_to_epoll, b) ↦
        if need_add_to_epoll && ctl_poll && not polled
        then some (false, record l { anfds = set l.anfds fd b })
        else some
            (true, record l { anfds = set l.anfds fd (record b { events = collect 0 b.next }) })
  ]
]

-- What is done for a negative descriptor, and for another.
abbrev pub on_fd : {R : Type 0} → ℤ → R → (ℕ → R) → R
on_fd (negsuc n) below f = below
on_fd (pos fd) below f = f fd

unfoldable pub add_fd : Realloc → EventLoop → ℕ → Event → Bool → Bool → Option (Bool × EventLoop)
unfolding array_needsize add_at
add_fd realloc l fd e ctl_poll polled =
    if leb l.max_events fd
    then elim (array_needsize realloc l (fd + 1)) [
      | none ↦ none
      | some (false, l') ↦ some (false, l')
      | some (true, l') ↦ add_at l' fd e ctl_poll polled
    ]
    else add_at l fd e ctl_poll polled

-- With what `realloc` and `epoll_ctl` return.
unfoldable pub add_event : Realloc → EventLoop → Event → Bool → Bool → Option (Bool × EventLoop)
unfolding add_fd
add_event realloc l e ctl_poll polled =
    on_fd e.fd none (λ fd. add_fd realloc l fd e ctl_poll polled)

-- The loop of `delete_event` over what is behind the first event.
pub strip : ℕ → List Event → List Event
strip flags [] = []
strip flags (x ∷ xs) =
    let rest = strip flags xs in
    let left = bit_xor x.events flags in
    if ltb 0 (bit_and x.events flags)
    then if left == 0 then rest else record x { events = left } ∷ rest
    else x ∷ rest

-- `delete_event` on a descriptor. The flags that it tests before the loop, it tests once more after
-- it; they are the same.
pub delete_at : Anfd → ℕ → Option Anfd
unfolding strip
delete_at a flags =
    if a.isused && not (bit_and a.events flags == 0)
    then elim a.next [
      | [] ↦ none
      | x ∷ xs ↦
          let left = bit_xor a.events flags in
          some (record a {
            events = left;
            next = if left == 0 then strip flags xs else x ∷ strip flags xs;
          })
    ]
    else some a

pub delete_fd : EventLoop → ℕ → ℕ → Option (Bool × EventLoop)
unfolding delete_at
delete_fd l fd flags =
    if ltb l.max_events fd then some (false, l) else elim (get_elem? l.anfds fd) [
      | none ↦ none
      | some a ↦ elim (delete_at a flags) [
        | none ↦ none
        | some b ↦ some (true, record l { anfds = set l.anfds fd b })
      ]
    ]

-- What epoll says to the deletion is only printed.
pub delete_event : EventLoop → Event → Option (Bool × EventLoop)
unfolding delete_fd
delete_event l ev = on_fd ev.fd (some (false, l)) (λ fd. delete_fd l fd ev.events)

pub mod_ev_fd : EventLoop → ℕ → Bool → Option Bool
mod_ev_fd l fd polled =
    if ltb l.max_events fd
    then some false
    else elim (get_elem? l.anfds fd) [ none ↦ none | some a ↦ some (a.isused && polled) ]

pub mod_ev_only : EventLoop → Event → Bool → Option Bool
unfolding mod_ev_fd
mod_ev_only l ev polled = on_fd ev.fd (some false) (λ fd. mod_ev_fd l fd polled)

-- A descriptor without its events, which are freed.
abbrev pub freed : Anfd → Anfd
freed a = record a { isused = false; next = [] }

pub mod_fd : Realloc → EventLoop → ℕ → Event → Bool → Bool → Option (Bool × EventLoop)
unfolding add_event mod_ev_only
mod_fd realloc l fd ev ctl_poll polled =
    if ltb l.max_events fd then some (false, l) else elim (get_elem? l.anfds fd) [
      | none ↦ none
      | some a ↦
          if a.isused
          then elim (add_event realloc (record l { anfds = set l.anfds fd (freed a) }) ev false
              polled) [
                | none ↦ none
                | some (false, l') ↦ some (false, l')
                | some (true, l') ↦
                    if ctl_poll
                    then elim (mod_ev_only l' ev polled) [ none ↦ none | some r ↦ some (r, l') ]
                    else some (false, l')
              ]
          else some (false, l)
    ]

pub mod_event : Realloc → EventLoop → Event → Bool → Bool → Option (Bool × EventLoop)
unfolding mod_fd
mod_event realloc l ev ctl_poll polled =
    on_fd ev.fd (some (false, l)) (λ fd. mod_fd realloc l fd ev ctl_poll polled)

-- It always returns true; no bound is checked.
pub event_stop : EventLoop → ℕ → Option EventLoop
event_stop l fd = elim (get_elem? l.anfds fd) [
  | none ↦ none
  | some a ↦ some (if a.isused then record l { anfds = set l.anfds fd (freed a) } else l)
]

-- The loop of `delete_all_event` from `fd` on, for `k` descriptors.
pub stop_loop_from : ℕ → ℕ → EventLoop → Option EventLoop
unfolding event_stop
stop_loop_from fd zero l = some l
stop_loop_from fd (suc k) l = elim (event_stop l fd) [
  | none ↦ none
  | some l' ↦ stop_loop_from (fd + 1) k l'
]

pub delete_all_event : EventLoop → Option EventLoop
unfolding stop_loop_from
delete_all_event l = stop_loop_from 0 l.max_events l

pub data OperatorType : Type 0 where
  event_ctl_add : OperatorType
  event_ctl_del : OperatorType
  event_ctl_mod : OperatorType

unfoldable pub event_ctl :
    Realloc → EventLoop → OperatorType → Event → Bool → Option (Bool × EventLoop)
unfolding add_event delete_event mod_event
event_ctl realloc l event_ctl_add ev polled = add_event realloc l ev true polled
event_ctl realloc l event_ctl_del ev polled = delete_event l ev
event_ctl realloc l event_ctl_mod ev polled = mod_event realloc l ev true polled
