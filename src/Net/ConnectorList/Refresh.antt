-- ===== src/Net/ConnectorList/Refresh.antt =====
-- net/connector_list.cc: `refresh`, `del` and `getUniqId` with the timeouts.
use sails.Prelude.{
  ℕ, ◌+◌, ◌<◌, ◌≤◌, ◌≡◌, refl, ap, ◌∙◌, bit_and, true, false, none, some, List, [], ◌∷◌, ◌++◌,
  arith, ltb, leb, ◌==◌, if◌then◌else◌, length, get_elem?, set, length-set, length-append,
  Bool-cases, inl, inr,
}
use sails.Prelude.Words.{u32, inc64}
use sails.Prelude.Counts.{count, count-snoc}
use sails.Base.PtrList.Invariant.{held, weight, held-set, held_count-set}
use sails.Net.Connector.{Connector}
use sails.Net.ConnectorList.{
  ConnectorList, Entry, Timer, insert, erase_node, refresh, del_slot, del, slot_of, is_stale,
  magic_mask, uid_mask,
}
use sails.Net.ConnectorList.Timers.{find_node, count_uid, is_sorted_from, erase_node-Erased}
use sails.Net.ConnectorList.Invariant.{Inv, Timed, slot-set, slot-set_self}
use sails.Net.ConnectorList.Ownership.{slot_of-Known, held_slot, fill-Timed}

-- What is left of the timeouts once the node of slot `i` is erased.
record Without (l : ConnectorList) (i : ℕ) (tl : List Timer) : Type 0 where
  pub counts : (j : ℕ) → count_uid j tl ≡ (if i == j then 0 else held j l.vconn)
  pub its :
      (j : ℕ) (e : Entry)
      → get_elem? l.vconn j ≡ some (some e)
      → (i == j) ≡ false
      → find_node e.timer tl ≡ some j
  pub fresh : (m : ℕ) → l.next_node ≤ m → find_node m tl ≡ none
  pub sorted : is_sorted_from 0 tl ≡ true

erase_node-Without :
    (l : ConnectorList) (i : ℕ) (e : Entry)
    → Timed l
    → get_elem? l.vconn i ≡ some (some e)
    → (tl : List Timer) × (erase_node e.timer l.tl ≡ some tl) × Without l i tl
erase_node-Without l i e t h =
    let found = t.iterators i e h in
    let (tl, eq, w) = erase_node-Erased e.timer i l.tl found in
    let n : held i l.vconn ≡ 1 = ap weight h in
    (
      tl,
      eq,
      record {
        counts = λ j. elim (Bool-cases (i == j)) [
          | inl same ↦ let s : i ≡ j = ground arith in ground (arith, w.counts i, t.one_each i)
          | inr other ↦ ground (arith, w.counts j, t.one_each j)
        ];
        its = λ j f g ne.
            let there = t.iterators j f g in
            elim (Bool-cases (f.timer == e.timer)) [
              | inl same ↦ let s : f.timer ≡ e.timer = ground arith in absurd (ground arith)
              | inr other ↦ w.finds f.timer other ∙ there
            ];
        fresh = λ m le.
            let f = t.fresh m le in
            elim (Bool-cases (m == e.timer)) [
              | inl same ↦ absurd (ground arith)
              | inr other ↦ w.finds m other ∙ f
            ];
        sorted = w.sorted 0 t.sorted;
      },
    )

-- A connection is put in the place of one.
pub replace-Inv :
    (l : ConnectorList) (issued : List ℕ) (e f : Entry) (i next : ℕ) (tl : List Timer)
    → Inv l issued
    → i ≤ l.total
    → get_elem? l.vconn i ≡ some (some e)
    → Inv (record l { vconn = set l.vconn i (some f); tl = tl; next_node = next }) issued
replace-Inv l issued e f i next tl v le h =
    let n : held i l.vconn ≡ 1 = ap weight h in
    let b : i < length l.vconn = omega (arith, v.slots) in
    record {
      small = v.small;
      slots = length-set l.vconn i (some f) ∙ v.slots;
      magic = v.magic;
      word = v.word;
      sized = v.sized;
      tally = omega (arith, v.tally, held_count-set i (some f) l.vconn b);
      owned = λ j. ground (arith, v.owned j, held-set i j (some f) l.vconn b);
    }

-- A connection is taken out.
drop-Inv :
    (l : ConnectorList) (issued : List ℕ) (e : Entry) (i : ℕ) (tl : List Timer)
    → Inv l issued
    → i ≤ l.total
    → get_elem? l.vconn i ≡ some (some e)
    → Inv
        (record l {
          vconn = set l.vconn i none;
          tl = tl;
          free = l.free ++ i ∷ [];
          free_size = inc64 l.free_size;
        })
        issued
drop-Inv l issued e i tl v le h =
    let k : held i l.vconn ≡ 1 = ap weight h in
    let b : i < length l.vconn = omega (arith, v.slots) in
    let n : length (l.free ++ i ∷ []) ≡ length l.free + 1 = length-append l.free (i ∷ []) in
    record {
      small = v.small;
      slots = length-set l.vconn i none ∙ v.slots;
      magic = v.magic;
      word = v.word;
      sized = omega (arith, v.sized, v.tally, v.small);
      tally = omega (arith, v.tally, held_count-set i none l.vconn b);
      owned = λ j. ground (arith, v.owned j, count-snoc j i l.free, held-set i j none l.vconn b);
    }

del-slot_of :
    (l : ConnectorList) (uid : ℕ) (e : Entry)
    → slot_of l uid ≡ some (some e)
    → del l uid ≡ del_slot l (bit_and uid uid_mask)
unfolding del
del-slot_of l uid e s = rw (s, del) refl

-- `del` with an id that carries the magic, and whose slot holds a connection, does not fault; each
-- connection that is left keeps exactly one node, and the id stands once in the free list.
pub del-Inv :
    (l : ConnectorList) (issued : List ℕ) (uid i : ℕ) (e : Entry)
    → Inv l issued
    → Timed l
    → bit_and uid magic_mask ≡ l.magic
    → bit_and uid uid_mask ≡ i
    → get_elem? l.vconn i ≡ some (some e)
    → (l' : ConnectorList) × (del l uid ≡ some l')
      × Inv l' issued
      × Timed l'
      × (l'.magic ≡ l.magic)
      × (count i l'.free ≡ 1)
unfolding del_slot
del-Inv l issued uid i e v t marked slot h =
    let (pos, le) = held_slot l issued i e v h in
    let s =
      slot_of-Known l uid i (record { marked = marked; slot = slot; positive = pos; inside = le })
      ∙ h in
    let (tl, eq, w) = erase_node-Without l i e t h in
    let p : ltb 0 i ≡ true = ground arith in
    let q : leb i l.total ≡ true = ground arith in
    let own : count i l.free ≡ 0 = ground (arith, v.owned i, ap weight h) in
    let b : i < length l.vconn = omega (arith, v.slots) in
    (
      record l {
        vconn = set l.vconn i none;
        tl = tl;
        free = l.free ++ i ∷ [];
        free_size = inc64 l.free_size;
      },
      del-slot_of l uid e (s) ∙ ap (del_slot l) slot ∙ rw (p, q, h, eq) refl,
      drop-Inv l issued e i tl v le h,
      record {
        one_each = λ j. ground (arith, w.counts j, held-set i j none l.vconn b);
        iterators = λ j f g. elim (Bool-cases (i == j)) [
          | inl same ↦ absurd (ground (arith, slot-set_self i j none l.vconn f g same))
          | inr other ↦ w.its j f (slot-set i j none l.vconn f g other) other
        ];
        fresh = w.fresh;
        sorted = w.sorted;
      },
      refl,
      ground (arith, count-snoc i i l.free),
    )

-- `refresh` with an id that carries the magic, and whose slot holds a connection, does not fault,
-- and each connection keeps exactly one node, which its iterator names, in the order of the times.
pub refresh-Inv :
    (l : ConnectorList) (issued : List ℕ) (uid i stamp : ℕ) (e : Entry)
    → Inv l issued
    → Timed l
    → bit_and uid magic_mask ≡ l.magic
    → bit_and uid uid_mask ≡ i
    → get_elem? l.vconn i ≡ some (some e)
    → (l' : ConnectorList) × (refresh l uid stamp ≡ some l')
      × Inv l' issued
      × Timed l'
      × (l'.magic ≡ l.magic)
unfolding refresh
refresh-Inv l issued uid i stamp e v t marked slot h =
    let (pos, le) = held_slot l issued i e v h in
    let s =
      slot_of-Known l uid i (record { marked = marked; slot = slot; positive = pos; inside = le })
      ∙ h in
    let (tl, eq, w) = erase_node-Without l i e t h in
    let c : Connector = record e.conn { last_refresh_time = u32 stamp } in
    elim (Bool-cases (is_stale stamp e.conn.last_refresh_time)) [
      | inl stale ↦ (l, rw (s, stale, refresh) refl, v, t, refl)
      | inr newer ↦ (
        record l {
          vconn = set l.vconn i (some (record { conn = c; timer = l.next_node }));
          tl = insert (record { node = l.next_node; time = stamp; uid = i }) tl;
          next_node = l.next_node + 1;
        },
        rw (s, newer, eq, slot, refresh) refl,
        replace-Inv l issued e (record { conn = c; timer = l.next_node }) i (l.next_node + 1)
            (insert (record { node = l.next_node; time = stamp; uid = i }) tl) v le h,
        fill-Timed l tl c i stamp w.counts w.its w.fresh w.sorted (omega (arith, v.slots)),
        refl,
      )
    ]
