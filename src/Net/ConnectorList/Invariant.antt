-- ===== src/Net/ConnectorList/Invariant.antt =====
-- net/connector_list.cc: what holds of the table and of the list of timeouts between calls.
use sails.Prelude.{
  ℕ, zero, suc, ◌+◌, ◌*◌, ◌/◌, ◌^◌, ◌<◌, ◌≤◌, ◌≡◌, refl, sym, ap, ◌∙◌, bit_and, bit_or, true, false,
  Option, none, some, List, [], ◌∷◌, arith, ◌==◌, length, get_elem?, set, length-replicate,
}
use sails.Prelude.Words.{u32}
use sails.Prelude.Counts.{count, count-range_from, length-range_from}
use sails.Prelude.Bits.{low20, high20, high24, tag20}
use sails.Base.PtrList.Invariant.{
  held, weight, held_count, in_range, held-new, held_count-replicate,
}
use sails.Net.ConnectorList.{ConnectorList, Entry, new_list, init, magic_of, magic_mask, uid_mask}
use sails.Net.ConnectorList.Timers.{find_node, count_uid, is_sorted_from}

-- The part on the slots: `issued` are those that `getUniqId` gave out and `add` has not yet filled.
pub record Inv (l : ConnectorList) (issued : List ℕ) : Type 0 where
  pub small : l.total < 2 ^ 20
  pub slots : length l.vconn ≡ l.total + 1
  pub magic : l.magic / 2 ^ 20 * 2 ^ 20 ≡ l.magic
  pub word : l.magic < 2 ^ 32
  pub sized : l.free_size ≡ length l.free
  pub tally : length l.free + length issued + held_count l.vconn ≡ l.total
  pub owned : (i : ℕ) → count i l.free + count i issued + held i l.vconn ≡ in_range i l.total

-- The part on the timeouts: a slot with a connection has one node, a slot without has none, the
-- iterator of a connection is its node, and the nodes are in the order of their times.
pub record Timed (l : ConnectorList) : Type 0 where
  pub one_each : (i : ℕ) → count_uid i l.tl ≡ held i l.vconn
  pub iterators :
      (i : ℕ) (e : Entry) → get_elem? l.vconn i ≡ some (some e) → find_node e.timer l.tl ≡ some i
  pub fresh : (m : ℕ) → l.next_node ≤ m → find_node m l.tl ≡ none
  pub sorted : is_sorted_from 0 l.tl ≡ true

or_sum : (m i : ℕ) → m / 2 ^ 20 * 2 ^ 20 ≡ m → i < 2 ^ 20 → bit_or m i ≡ m + i
or_sum m i e h = ap (λ x. bit_or x i) (sym e) ∙ tag20 (m / 2 ^ 20) i h ∙ ap (λ x. x + i) e

-- A slot number and the magic come back out of the id that they make.
pub low_tag : (m i : ℕ) → m / 2 ^ 20 * 2 ^ 20 ≡ m → i < 2 ^ 20 → bit_and (bit_or m i) uid_mask ≡ i
low_tag m i e h = rw (or_sum m i e h) (omega (arith, low20 (m + i)))

pub high_tag :
    (m i : ℕ)
    → m / 2 ^ 20 * 2 ^ 20 ≡ m
    → m < 2 ^ 32
    → i < 2 ^ 20
    → bit_and (bit_or m i) magic_mask ≡ m
high_tag m i e w h = rw (or_sum m i e h) (omega (arith, high20 (m + i)))

magic_of-multiple : (now index : ℕ) → magic_of now index / 2 ^ 20 * 2 ^ 20 ≡ magic_of now index
magic_of-multiple now index = omega (
  arith,
  high24 (u32 (u32 now * 2 ^ 24)) (omega arith),
  high20 (u32 (index * 2 ^ 20)) (omega arith),
)

pub init-Inv :
    (size index now : ℕ)
    → size < 2 ^ 20
    → Inv (init new_list size index now) [] × Timed (init new_list size index now)
unfolding init new_list
init-Inv size index now small = (
  record {
    small = small;
    slots = omega (arith, length-replicate {0} {A = Option Entry} size none);
    magic = magic_of-multiple now index;
    word = omega arith;
    sized = omega (arith, length-range_from 1 size);
    tally =
        unfold held_count in
        omega (arith, length-range_from 1 size, held_count-replicate Entry size);
    owned = λ i. unfold count in ground (arith, count-range_from i 1 size, held-new Entry i size);
  },
  record {
    one_each = λ i. sym (held-new Entry i size);
    iterators = λ i e h. absurd (omega (arith, held-new Entry i size, ap weight h));
    fresh = λ m h. refl;
    sorted = refl;
  },
)

pub init-held : (size index now i : ℕ) → held i (init new_list size index now).vconn ≡ 0
unfolding init
init-held size index now i = held-new Entry i size

-- The entry that a slot holds after `set`.
pub slot-set :
    (i j : ℕ) (o : Option Entry) (vs : List (Option Entry)) (e : Entry)
    → get_elem? (set vs i o) j ≡ some (some e)
    → (i == j) ≡ false
    → get_elem? vs j ≡ some (some e)
slot-set i j o [] e h ne = h
slot-set zero zero o (v ∷ vs) e h ne = absurd (ground arith)
slot-set zero (suc j) o (v ∷ vs) e h ne = h
slot-set (suc i) zero o (v ∷ vs) e h ne = h
slot-set (suc i) (suc j) o (v ∷ vs) e h ne = slot-set i j o vs e h (ground arith)

pub slot-set_self :
    (i j : ℕ) (o : Option Entry) (vs : List (Option Entry)) (e : Entry)
    → get_elem? (set vs i o) j ≡ some (some e)
    → (i == j) ≡ true
    → o ≡ some e
slot-set_self i j o [] e h ne = absurd (ground arith)
slot-set_self zero zero o (v ∷ vs) e h ne = ground arith
slot-set_self zero (suc j) o (v ∷ vs) e h ne = absurd (ground arith)
slot-set_self (suc i) zero o (v ∷ vs) e h ne = absurd (ground arith)
slot-set_self (suc i) (suc j) o (v ∷ vs) e h ne = slot-set_self i j o vs e h (ground arith)
