-- ===== src/Net/ConnectorList/Ownership.antt =====
-- net/connector_list.cc: each operation keeps the table and the timeouts together, and does not
-- fault for a caller that uses the ids it was given.
use sails.Prelude.{
  ℕ, ◌+◌, ◌<◌, ◌≤◌, ◌≡◌, refl, ap, ◌∙◌, bit_and, true, false, none, some, List, arith, ◌==◌,
  if◌then◌else◌, length, get_elem?, set, length-set, Bool-cases, inl, inr,
}
use sails.Prelude.Counts.{count, erase, count-erase, length-erase}
use sails.Base.PtrList.Invariant.{held, weight, held-set, held_count-set}
use sails.Base.PtrList.Ownership.{empty_slot}
use sails.Net.Connector.{Connector}
use sails.Net.ConnectorList.{
  ConnectorList, Entry, Timer, insert, add, slot_of, magic_mask, uid_mask,
}
use sails.Net.ConnectorList.Timers.{
  find_node, count_uid, is_sorted_from, count_uid-insert, find_node-insert, insert-is_sorted,
}
use sails.Net.ConnectorList.Invariant.{Inv, Timed, slot-set, slot-set_self}

-- A slot gets a connection with a new node.
pub fill-Timed :
    (l : ConnectorList) (tl : List Timer) (c : Connector) (i stamp : ℕ)
    → ((j : ℕ) → count_uid j tl ≡ (if i == j then 0 else held j l.vconn))
    → ((j : ℕ) (e : Entry)
        → get_elem? l.vconn j ≡ some (some e)
        → (i == j) ≡ false
        → find_node e.timer tl ≡ some j)
    → ((m : ℕ) → l.next_node ≤ m → find_node m tl ≡ none)
    → is_sorted_from 0 tl ≡ true
    → i < length l.vconn
    → Timed (record l {
      vconn = set l.vconn i (some (record { conn = c; timer = l.next_node }));
      tl = insert (record { node = l.next_node; time = stamp; uid = i }) tl;
      next_node = l.next_node + 1;
    })
fill-Timed l tl c i stamp counts its fresh sorted h =
    let e : Entry = record { conn = c; timer = l.next_node } in
    let t : Timer = record { node = l.next_node; time = stamp; uid = i } in
    let new = fresh l.next_node (omega arith) in
    record {
      one_each =
          λ j. ground (arith, counts j, count_uid-insert j t tl, held-set i j (some e) l.vconn h);
      iterators = λ j f g. elim (Bool-cases (i == j)) [
        | inl same ↦
            let this : some e ≡ some f = slot-set_self i j (some e) l.vconn f g same in
            ground (arith, find_node-insert f.timer t tl new)
        | inr other ↦
            let found = its j f (slot-set i j (some e) l.vconn f g other) other in
            ground (arith, find_node-insert f.timer t tl new)
      ];
      fresh = λ m le. ground (arith, fresh m, find_node-insert m t tl new);
      sorted = insert-is_sorted 0 t tl sorted (omega arith);
    }

-- An id with the magic whose slot is in range.
pub record Known (l : ConnectorList) (uid i : ℕ) : Type 0 where
  pub marked : bit_and uid magic_mask ≡ l.magic
  pub slot : bit_and uid uid_mask ≡ i
  pub positive : 0 < i
  pub inside : i ≤ l.total

pub slot_of-Known :
    (l : ConnectorList) (uid i : ℕ) → Known l uid i → slot_of l uid ≡ get_elem? l.vconn i
slot_of-Known l uid i k = ground (arith, k.marked, k.slot, k.positive, k.inside)

-- The slot of an id that was issued is empty, and in range.
issued_slot :
    (l : ConnectorList) (issued : List ℕ) (i : ℕ)
    → Inv l issued
    → 0 < count i issued
    → (0 < i) × (i ≤ l.total) × (get_elem? l.vconn i ≡ some none)
issued_slot l issued i v h =
    let own : (0 < i) × (i ≤ l.total) × (held i l.vconn ≡ 0) = ground (arith, v.owned i) in
    (own.0, own.1, empty_slot i l.vconn (omega (arith, v.slots)) own.2)

-- The slot of a connection is in range.
pub held_slot :
    (l : ConnectorList) (issued : List ℕ) (i : ℕ) (e : Entry)
    → Inv l issued
    → get_elem? l.vconn i ≡ some (some e)
    → (0 < i) × (i ≤ l.total)
held_slot l issued i e v h = ground (arith, v.owned i, ap weight h)

fill-Inv :
    (l : ConnectorList) (issued : List ℕ) (e : Entry) (i next : ℕ) (tl : List Timer)
    → Inv l issued
    → 0 < count i issued
    → i ≤ l.total
    → get_elem? l.vconn i ≡ some none
    → Inv (record l { vconn = set l.vconn i (some e); tl = tl; next_node = next }) (erase i issued)
fill-Inv l issued e i next tl v h le empty =
    let n : held i l.vconn ≡ 0 = ap weight empty in
    let b : i < length l.vconn = omega (arith, v.slots) in
    record {
      small = v.small;
      slots = length-set l.vconn i (some e) ∙ v.slots;
      magic = v.magic;
      word = v.word;
      sized = v.sized;
      tally = omega (arith, v.tally, length-erase i issued h, held_count-set i (some e) l.vconn b);
      owned =
          λ j. ground (arith, v.owned j, count-erase i j issued h, held-set i j (some e) l.vconn b);
    }

-- `add` of a connection whose id was issued and carries the magic does not fault.
pub add-Inv :
    (l : ConnectorList) (issued : List ℕ) (c : Connector) (i stamp : ℕ)
    → Inv l issued
    → Timed l
    → bit_and c.id magic_mask ≡ l.magic
    → bit_and c.id uid_mask ≡ i
    → 0 < count i issued
    → (l' : ConnectorList) × (add l c stamp ≡ some l')
      × Inv l' (erase i issued)
      × Timed l'
      × (l'.magic ≡ l.magic)
unfolding add
add-Inv l issued c i stamp v t marked slot h =
    let (pos, le, empty) = issued_slot l issued i v h in
    let e : Entry = record { conn = c; timer = l.next_node } in
    let s =
      slot_of-Known l c.id i (record { marked = marked; slot = slot; positive = pos; inside = le })
      ∙ empty in
    let n : held i l.vconn ≡ 0 = ap weight empty in
    (
      record l {
        vconn = set l.vconn i (some e);
        tl = insert (record { node = l.next_node; time = stamp; uid = i }) l.tl;
        next_node = l.next_node + 1;
      },
      rw (s, slot, add) refl,
      fill-Inv l issued e i (l.next_node + 1)
          (insert (record { node = l.next_node; time = stamp; uid = i }) l.tl) v h le empty,
      fill-Timed l l.tl c i stamp (λ j. ground (arith, t.one_each j)) (λ j f g _. t.iterators j f g)
          t.fresh t.sorted (omega (arith, v.slots)),
      refl,
    )
