-- ===== src/Net/NetThread/Joining.antt =====
-- net/net_thread.h: a connection joins a net thread, or leaves no trace in its table; the new thread.
use sails.Prelude.{
  ℕ, ◌+◌, ◌^◌, ◌<◌, ◌≤◌, ◌≡◌, ◌⊎◌, inl, inr, refl, ap, ◌∙◌, bit_and, bit_or, Bool, true, false,
  none, some, List, [], if◌then◌else◌, arith, get_elem?,
}
use sails.Prelude.Int.{pos}
use sails.Prelude.Counts.{count, erase}
use sails.Base.Buffer.Contents
use sails.Base.ThreadQueue.{new_queue}
use sails.Base.EventLoop.{EventLoop, Anfd, Event, Realloc, new_loop, event_ctl, event_ctl_add}
use sails.Base.EventLoop.Growth.{Allocates}
use sails.Base.EventLoop.Flags.{add_event-longer, new_loop-Inv}
use sails.Base.EventLoop.Changes.{event_ctl-add}
use sails.Base.PtrList.Invariant.{weight}
use sails.Net.Connector.{Connector}
use sails.Net.ConnectorList.{ConnectorList, Entry, get, add, uid_mask}
use sails.Net.ConnectorList.Invariant.{init-Inv, init-held}
use sails.Net.NetThread.{
  NetThread, event_read, event_write, pipe_callback, must_add, new_net_thread, create_event_loop,
}
use sails.Net.NetThread.Requests.{Wakes}
use sails.Net.NetThread.Sound.{Sound}

-- The descriptor of a connection has its slot in the event loop, which listens to what can be read.
pub record Reads (c : Connector) (ev : EventLoop) : Type 0 where
  pub fd : ℕ
  pub at_fd : c.connect_fd ≡ pos fd
  pub slot : Anfd
  pub at : get_elem? ev.anfds fd ≡ some slot
  pub used : slot.isused ≡ true
  pub reads : bit_or slot.events event_read ≡ slot.events

-- The connection is in the table and the event loop listens to its descriptor, or neither the table nor
-- its free list shows that it was there.
abbrev pub Joined : NetThread → List ℕ → ℕ → Connector → NetThread → Type 0
Joined t issued n c u =
    Sound u (erase (bit_and c.id uid_mask) issued) n
    × (((get u.connector_list c.id ≡ some (some c)) × Reads c u.ev_loop)
        ⊎ ((get u.connector_list c.id ≡ some none)
            × (count (bit_and c.id uid_mask) u.connector_list.free ≡ 1)))

-- The connections after an `add`, and after the `del` that follows it.
module _ (t : NetThread) (issued : List ℕ) (n : ℕ) (c : Connector) (ev : EventLoop)
    (l : ConnectorList) (stamp : ℕ) (s : Sound t issued n)
    (longer : t.ev_loop.max_events ≤ ev.max_events)
    (a : add t.connector_list c stamp ≡ some l) where
  new_entry : Entry
  new_entry = record { conn = c; timer = t.connector_list.next_node }

must_add-result :
    (realloc : Realloc) (t : NetThread) (e : Event) (ok : Bool) (ev : EventLoop)
    → event_ctl realloc t.ev_loop event_ctl_add e true ≡ some (ok, ev)
    → must_add realloc t e true ≡ (if ok then some (record t { ev_loop = ev }) else none)
unfolding must_add
must_add-result realloc t e true ev q = rw (q, must_add) refl
must_add-result realloc t e false ev q = rw (q, must_add) refl

-- A new thread whose event loop takes the notifying descriptor is sound, whatever bytes are to come,
-- and can be woken up; where the event loop has no room for it, the program ends.
pub create_event_loop-Sound :
    (realloc : Realloc) (index now fd n : ℕ)
    → Allocates realloc new_loop
    → fd + 1 < 2 ^ 30
    → (create_event_loop realloc (new_net_thread index (pos fd) now) true ≡ none)
      ⊎ ((t : NetThread) × (create_event_loop realloc (new_net_thread index (pos fd) now) true
            ≡ some t)
          × Sound t [] n
          × Wakes t)
unfolding create_event_loop new_net_thread new_queue
create_event_loop-Sound realloc index now fd n alloc small =
    let e : Event = record {
      fd = pos fd;
      events = event_write;
      edata = 0;
      cb = some pipe_callback;
      event_data = 0;
    } in
    let (ok, ev, q, loop, known, longer) =
      add_event-longer realloc new_loop fd e true new_loop-Inv alloc refl small in
    let t = record (new_net_thread index (pos fd) now) { ev_loop = new_loop } in
    let made = must_add-result realloc t e ok ev (event_ctl-add realloc new_loop e true ∙ q) in
    let (table, timed) = init-Inv 1000000 index now (omega arith) in
    elim known [
      | inl (taken, inside, _) ↦ inr (
        record (new_net_thread index (pos fd) now) { ev_loop = ev },
        made ∙ ap (λ b. if b then some (record t { ev_loop = ev }) else none) taken,
        record {
          table = table;
          timed = timed;
          loop = loop;
          conns = λ i c g. absurd (omega (arith, init-held 1000000 index now i, ap weight g));
        },
        record { fd = fd; at_fd = refl; known = inside; limited = omega arith },
      )
      | inr refused ↦
          inl (made ∙ ap (λ b. if b then some (record t { ev_loop = ev }) else none) refused)
    ]
