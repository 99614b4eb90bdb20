-- ===== src/Base/EventLoop/Changes.antt =====
-- base/event_loop.cc: `event_stop`, `delete_all_event` and `mod_event`.
use sails.Prelude.{
  Bool, ◌&&◌, ℕ, zero, suc, ◌+◌, ◌<◌, ◌≡◌, ◌≢◌, refl, sym, ap, ◌∙◌, bit_or, true, false, some, List,
  [], ◌∷◌, arith, ltb, ◌==◌, get_elem?, set, length, get_elem?-set_self, get_elem?-set_ne,
  get_elem?-some, Bool-cases, inl, inr,
}
use sails.Prelude.Int.{pos}
use sails.Base.EventLoop.{
  Event, Anfd, EventLoop, Realloc, freed, on_fd, place, collect, add_event, mod_ev_fd, mod_ev_only,
  mod_fd, mod_event, event_stop, stop_loop_from, delete_all_event, event_ctl, event_ctl_add,
}
use sails.Base.EventLoop.Flags.{Inv, set-Inv, fits-add_fd, add_event-add_fd, add_at-placed}

-- A slot that is not in use, and what the table was but for that slot.
pub record Stopped (fd : ℕ) (l l' : EventLoop) : Type 0 where
  pub sound : Inv l'
  pub same_size : l'.max_events ≡ l.max_events
  pub stopped : (a : Anfd) → get_elem? l'.anfds fd ≡ some a → a.isused ≡ false
  pub others : (i : ℕ) → fd ≢ i → get_elem? l'.anfds i ≡ get_elem? l.anfds i

-- `event_stop` of a descriptor of the table does not fault; the descriptor then has no events, and
-- those of the others are as they were.
pub event_stop-Stopped :
    (l : EventLoop) (fd : ℕ)
    → Inv l
    → fd < l.max_events
    → (l' : EventLoop) × (event_stop l fd ≡ some l') × Stopped fd l l'
unfolding event_stop
event_stop-Stopped l fd v h =
    let (a, g) = get_elem?-some l.anfds fd (omega (arith, v.sized)) in
    elim (Bool-cases a.isused) [
      | inr unused ↦ (
        l,
        rw (g, unused, event_stop) refl,
        record {
          sound = v;
          same_size = refl;
          stopped = λ b k. let q : a ≡ b = (let r = sym g ∙ k in ground arith) in rw (← q) unused;
          others = λ i _. refl;
        },
      )
      | inl used ↦ (
        record l { anfds = set l.anfds fd (freed a) },
        rw (g, used, event_stop) refl,
        record {
          sound = set-Inv l fd (freed a) v refl;
          same_size = refl;
          stopped = λ b k.
              let r = sym (get_elem?-set_self l.anfds fd (freed a) (omega (arith, v.sized))) ∙ k in
              ground arith;
          others = λ i ne. get_elem?-set_ne l.anfds fd i (freed a) ne;
        },
      )
    ]

stop_loop_from-all :
    (k fd : ℕ) (l : EventLoop)
    → Inv l
    → fd + k ≡ l.max_events
    → ((i : ℕ) (a : Anfd) → i < fd → get_elem? l.anfds i ≡ some a → a.isused ≡ false)
    → (l' : EventLoop) × (stop_loop_from fd k l ≡ some l')
      × Inv l'
      × ((i : ℕ) (a : Anfd) → i < l.max_events → get_elem? l'.anfds i ≡ some a → a.isused ≡ false)
unfolding stop_loop_from
stop_loop_from-all zero fd l v h before = (l, refl, v, λ i a lt. before i a (omega arith))
stop_loop_from-all (suc k) fd l v h before =
    let (m, e, s) = event_stop-Stopped l fd v (omega arith) in
    let (l', f, w, all) =
      stop_loop_from-all k (fd + 1) m s.sound (omega (arith, s.same_size)) (λ i a lt g.
        elim (Bool-cases (fd == i)) [
          | inl same ↦ let q : fd ≡ i = ground arith in s.stopped a (ap (get_elem? m.anfds) q ∙ g)
          | inr other ↦ before i a (ground arith) (sym (s.others i (λ q. ground arith)) ∙ g)
        ]) in
    (l', rw (e, stop_loop_from) f, w, λ i a lt. all i a (omega (arith, s.same_size)))

-- `delete_all_event` does not fault, and no descriptor is in use afterwards.
pub delete_all_event-all :
    (l : EventLoop)
    → Inv l
    → (l' : EventLoop) × (delete_all_event l ≡ some l')
      × Inv l'
      × ((i : ℕ) (a : Anfd) → i < l.max_events → get_elem? l'.anfds i ≡ some a → a.isused ≡ false)
unfolding delete_all_event
delete_all_event-all l v =
    stop_loop_from-all l.max_events 0 l v (omega arith) (λ i a lt. absurd (omega arith))

-- A slot with one event.
abbrev pub one_event : Anfd → Event → Anfd
one_event a e = record a { isused = true; next = e ∷ []; events = bit_or 0 e.events }

place-unused :
    (a : Anfd) (e : Event)
    → place (freed a) e ≡ some (true, record a { isused = true; next = e ∷ [] })
unfolding place
place-unused a e = refl

set_twice : (xs : List Anfd) (i : ℕ) (a b : Anfd) → set (set xs i a) i b ≡ set xs i b
set_twice [] i a b = refl
set_twice (x ∷ xs) zero a b = refl
set_twice (x ∷ xs) (suc i) a b = ap (λ ys. x ∷ ys) (set_twice xs i a b)

mod_fd-one :
    (realloc : Realloc) (l m : EventLoop) (fd : ℕ) (e : Event) (a : Anfd)
    → ltb l.max_events fd ≡ false
    → get_elem? l.anfds fd ≡ some a
    → a.isused ≡ true
    → add_event realloc (record l { anfds = set l.anfds fd (freed a) }) e false true
      ≡ some (true, m)
    → mod_ev_only m e true ≡ some true
    → mod_fd realloc l fd e true true ≡ some (true, m)
unfolding mod_fd
mod_fd-one realloc l m fd e a h g used q r = rw (h, g, used, q, r, mod_fd) refl

listed-mod_ev_only :
    (l : EventLoop) (fd : ℕ) (e : Event) (a : Anfd)
    → e.fd ≡ pos fd
    → fd < l.max_events
    → get_elem? l.anfds fd ≡ some a
    → a.isused ≡ true
    → mod_ev_only l e true ≡ some true
unfolding mod_ev_only mod_ev_fd
listed-mod_ev_only l fd e a f h g used =
    let k : ltb l.max_events fd ≡ false = ground arith in
    ap (λ x. on_fd x (some false) (λ n. mod_ev_fd l n true)) f ∙ (rw (k, g, used, mod_ev_fd) refl)

-- `mod_event` of a descriptor of the table that is in use, where epoll accepts it, answers true and
-- leaves the descriptor with the new event alone, and with its flags, and the other descriptors as
-- they were.
pub mod_event-one :
    (realloc : Realloc) (l : EventLoop) (fd : ℕ) (e : Event) (a : Anfd)
    → Inv l
    → e.fd ≡ pos fd
    → get_elem? l.anfds fd ≡ some a
    → fd < l.max_events
    → a.isused ≡ true
    → mod_event realloc l e true true
      ≡ some (true, record l { anfds = set l.anfds fd (one_event a e) })
unfolding mod_event collect
mod_event-one realloc l fd e a v f g h used =
    let m : EventLoop = record l { anfds = set l.anfds fd (freed a) } in
    let l' : EventLoop = record l { anfds = set l.anfds fd (one_event a e) } in
    let b : fd < length l.anfds = omega (arith, v.sized) in
    let q =
      add_event-add_fd realloc m fd e false true f
      ∙ fits-add_fd realloc m fd e false true (ground arith)
      ∙ add_at-placed m fd e (freed a) (record a { isused = true; next = e ∷ [] }) true false
          (get_elem?-set_self l.anfds fd (freed a) b) (place-unused a e)
      ∙ ap (λ xs. some (true, record l { anfds = xs }))
          (set_twice l.anfds fd (freed a) (one_event a e)) in
    let r =
      listed-mod_ev_only l' fd e (one_event a e) f h
        (get_elem?-set_self l.anfds fd (one_event a e) b) refl in
    ap (λ x. on_fd x (some (false, l)) (λ n. mod_fd realloc l n e true true)) f
    ∙ mod_fd-one realloc l l' fd e a (ground arith) g used q r

-- A descriptor of the table can be told of without a fault.
pub mod_ev_only-known :
    (l : EventLoop) (e : Event) (fd : ℕ) (polled : Bool)
    → Inv l
    → e.fd ≡ pos fd
    → fd < l.max_events
    → (r : Bool) × (mod_ev_only l e polled ≡ some r)
unfolding mod_ev_only mod_ev_fd
mod_ev_only-known l e fd polled v f h =
    let (a, g) = get_elem?-some l.anfds fd (omega (arith, v.sized)) in
    let k : ltb l.max_events fd ≡ false = ground arith in
    (
      a.isused && polled,
      ap (λ x. on_fd x (some false) (λ n. mod_ev_fd l n polled)) f ∙ (rw (k, g, mod_ev_fd) refl),
    )

pub event_ctl-add :
    (realloc : Realloc) (l : EventLoop) (e : Event) (polled : Bool)
    → event_ctl realloc l event_ctl_add e polled ≡ add_event realloc l e true polled
unfolding event_ctl
event_ctl-add realloc l e polled = refl
