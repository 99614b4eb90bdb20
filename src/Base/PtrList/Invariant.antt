-- ===== src/Base/PtrList/Invariant.antt =====
-- base/constant_ptr_list.h: who owns each id. An id is in the free list, or issued and not yet
-- added, or its slot holds a pointer, and never two of these.
use sails.Prelude.{
  ℕ, zero, suc, ◌+◌, ◌*◌, ◌/◌, ◌^◌, ◌<◌, ◌≤◌, ◌≡◌, refl, sym, ap, ◌∙◌, bit_and, bit_or, Bool,
  Option, none, some, List, [], ◌∷◌, arith, ltb, leb, ◌==◌, if◌then◌else◌, length, get_elem?, set,
  replicate, length-replicate,
}
use sails.Prelude.Words.{u32, dec64}
use sails.Prelude.Counts.{count, count-range_from, length-range_from}
use sails.Prelude.Bits.{low24, high24, tag24}
use sails.Base.PtrList.{PtrList, new_list, init, take_front, size, uid_mask, magic_mask}

module _ {A : Type 0} where
  abbrev pub weight : Option (Option A) → ℕ
  weight (some (some t)) = 1
  weight _ = 0

  -- 1 for a slot that holds a pointer, else 0.
  abbrev pub held : ℕ → List (Option A) → ℕ
  held i vs = weight (get_elem? vs i)

  unfoldable pub held_count : List (Option A) → ℕ
  held_count [] = 0
  held_count (o ∷ vs) = weight (some o) + held_count vs

  pub held-set :
      (i j : ℕ) (o : Option A) (vs : List (Option A))
      → i < length vs
      → held j (set vs i o) ≡ (if i == j then weight (some o) else held j vs)
  held-set i j o [] h = elim h [ ]
  held-set zero zero o (v ∷ vs) h = refl
  held-set zero (suc j) o (v ∷ vs) h = ground arith
  held-set (suc i) zero o (v ∷ vs) h = ground arith
  held-set (suc i) (suc j) o (v ∷ vs) h = ground (arith, held-set i j o vs)

  pub held_count-set :
      (i : ℕ) (o : Option A) (vs : List (Option A))
      → i < length vs
      → held_count (set vs i o) + held i vs ≡ held_count vs + weight (some o)
  unfolding held_count
  held_count-set i o [] h = elim h [ ]
  held_count-set zero o (v ∷ vs) h = omega arith
  held_count-set (suc i) o (v ∷ vs) h = omega (arith, held_count-set i o vs (omega arith))

-- 1 for a slot number of the table, else 0.
abbrev pub in_range : ℕ → ℕ → ℕ
in_range i total = if ltb 0 i then (if leb i total then 1 else 0) else 0

-- `issued` are the slots that `get_uniq_id` gave out and `add` has not yet filled.
pub record Inv {A : Type 0} (l : PtrList A) (issued : List ℕ) : Type 0 where
  pub small : l.total < 2 ^ 24
  pub slots : length l.vlist ≡ l.total + 1
  pub magic : l.magic_num / 2 ^ 24 * 2 ^ 24 ≡ l.magic_num
  pub word : l.magic_num < 2 ^ 32
  pub sized : l.free_size ≡ length l.free
  pub tally : length l.free + length issued + held_count l.vlist ≡ l.total
  pub owned : (i : ℕ) → count i l.free + count i issued + held i l.vlist ≡ in_range i l.total

module _ (A : Type 0) where
  held-replicate : (i n : ℕ) → held i (replicate {A = Option A} n none) ≡ 0
  held-replicate i zero = refl
  held-replicate zero (suc n) = refl
  held-replicate (suc i) (suc n) = held-replicate i n

  pub held_count-replicate : (n : ℕ) → held_count (replicate {A = Option A} n none) ≡ 0
  unfolding held_count
  held_count-replicate zero = refl
  held_count-replicate (suc n) = omega (arith, held_count-replicate n)

  pub held-new : (i n : ℕ) → held {A = A} i (none ∷ replicate n none) ≡ 0
  held-new zero n = refl
  held-new (suc i) n = held-replicate i n

-- The mask leaves a multiple of 2 ^ 24.
masked : (x : ℕ) → x < 2 ^ 32 → bit_and x magic_mask / 2 ^ 24 * 2 ^ 24 ≡ bit_and x magic_mask
masked x h = omega (arith, high24 x h)

masked_word : (x : ℕ) → x < 2 ^ 32 → bit_and x magic_mask < 2 ^ 32
masked_word x h = omega (arith, high24 x h)

or_sum : (m i : ℕ) → m / 2 ^ 24 * 2 ^ 24 ≡ m → i < 2 ^ 24 → bit_or m i ≡ m + i
or_sum m i e h = ap (λ x. bit_or x i) (sym e) ∙ tag24 (m / 2 ^ 24) i h ∙ ap (λ x. x + i) e

-- A slot number and the magic come back out of the id that they make.
pub low_tag : (m i : ℕ) → m / 2 ^ 24 * 2 ^ 24 ≡ m → i < 2 ^ 24 → bit_and (bit_or m i) uid_mask ≡ i
low_tag m i e h = rw (or_sum m i e h) (omega (arith, low24 (m + i)))

pub high_tag :
    (m i : ℕ)
    → m / 2 ^ 24 * 2 ^ 24 ≡ m
    → m < 2 ^ 32
    → i < 2 ^ 24
    → bit_and (bit_or m i) magic_mask ≡ m
high_tag m i e w h = rw (or_sum m i e h) (omega (arith, high24 (m + i)))

module _ {A : Type 0} where
  pub init-Inv :
      (size : ℕ) (need : Bool) (now d : ℕ)
      → size < 2 ^ 24
      → d / 2 ^ 24 * 2 ^ 24 ≡ d
      → d < 2 ^ 32
      → Inv (init (new_list {A = A}) size need now d).0 []
  unfolding init new_list
  init-Inv size need now d small tag word = record {
    small = small;
    slots = omega (arith, length-replicate {0} {A = Option A} size none);
    magic = ground (arith, masked (u32 (u32 now * 2 ^ 24)) (omega arith));
    word = ground (arith, masked_word (u32 (u32 now * 2 ^ 24)) (omega arith));
    sized = omega (arith, length-range_from 1 size);
    tally =
        unfold held_count in omega (arith, length-range_from 1 size, held_count-replicate A size);
    owned = λ i. unfold count in ground (arith, count-range_from i 1 size, held-new A i size);
  }

  pub take_front-some :
      (l l' : PtrList A) (i : ℕ) (rest : List ℕ) (uid : ℕ)
      → take_front l (i ∷ rest) ≡ some (uid, l')
      → (0 < i)
        × (i ≤ l.total)
        × (uid ≡ bit_or l.magic_num i)
        × (l' ≡ record l { free = rest; free_size = dec64 l.free_size })
  unfolding take_front
  take_front-some l l' i rest uid e = ground arith

  pub take_front-Inv :
      (l : PtrList A) (issued rest : List ℕ) (i : ℕ)
      → Inv l issued
      → l.free ≡ i ∷ rest
      → i ≤ l.total
      → Inv (record l { free = rest; free_size = dec64 l.free_size }) (i ∷ issued)
  take_front-Inv l issued rest i v f h =
      let n : length l.free ≡ suc (length rest) = ap length f in
      record {
        small = v.small;
        slots = v.slots;
        magic = v.magic;
        word = v.word;
        sized = omega (arith, v.sized, v.tally, v.small);
        tally = omega (arith, v.tally);
        owned = λ j. unfold count in ground (arith, v.owned j, ap (count j) f);
      }
