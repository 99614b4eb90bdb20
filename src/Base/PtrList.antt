-- ===== src/Base/PtrList.antt =====
-- base/constant_ptr_list.h: a table of pointers under ids that carry a magic byte.
--
-- `none` as a result is a fault: a failed assert, `front` of an empty list, or a read or write
-- outside `vList`. A pointer is a value of the type `A`, and a null slot is `none`. The mutex is
-- held for the whole of each operation that takes it, so an operation is one step.
pub mod Invariant
pub mod Ownership
pub mod Access
pub mod Reuse
mod Tests
use sails.Prelude.{
  ℕ, zero, suc, ◌+◌, ◌-◌, ◌*◌, ◌%◌, ◌^◌, bit_and, bit_or, Bool, true, false, ◌&&◌, not, Option,
  none, some, List, [], ◌∷◌, ◌++◌, ltb, leb, ◌==◌, if◌then◌else◌, is_some, get_elem?, set,
  replicate,
}
use sails.Prelude.Words.{u32, inc64, dec64, sub64}
use sails.Prelude.Counts.{range_from}

pub record PtrList (A : Type 0) : Type 0 where
  pub total : ℕ
  pub free : List ℕ
  pub free_size : ℕ
  pub vlist : List (Option A)
  pub magic_num : ℕ

-- `0xFFFFFFFF << 24` and `0xFFFFFFFF >> 8`
abbrev pub magic_mask : ℕ
magic_mask = 0xFF000000

abbrev pub uid_mask : ℕ
uid_mask = 0xFFFFFF

module _ {A : Type 0} where
  -- the constructor
  pub new_list : PtrList A
  new_list = record { total = 0; free = []; free_size = 0; vlist = []; magic_num = 0 }

  -- The static `default_magic_num` is the last argument, and its new value the second result.
  pub init : PtrList A → ℕ → Bool → ℕ → ℕ → PtrList A × ℕ
  init l size need_magic_num now default_magic_num =
      let m = bit_and (u32 (u32 now * 2 ^ 24)) magic_mask in
      let fresh = need_magic_num && (m == 0) in
      (
        record {
          total = size;
          free = l.free ++ range_from 1 size;
          free_size = size;
          vlist = none ∷ replicate size none;
          magic_num = if fresh then default_magic_num else if need_magic_num then m else 0;
        },
        if fresh then u32 (default_magic_num + 0x01000000) else default_magic_num,
      )

  -- `free.front()`, its assert, and `pop_front`
  pub take_front : PtrList A → List ℕ → Option (ℕ × PtrList A)
  take_front l [] = none
  take_front l (uid ∷ rest) =
      if ltb 0 uid && leb uid l.total
      then some (bit_or l.magic_num uid, record l { free = rest; free_size = dec64 l.free_size })
      else none

  pub get_uniq_id : PtrList A → Option (ℕ × PtrList A)
  unfolding take_front
  get_uniq_id l = take_front l l.free

  -- The slot of an id that carries the list's magic; no bound is checked.
  pub get : PtrList A → ℕ → Option (Option A)
  get l uid =
      if bit_and uid magic_mask == l.magic_num
      then get_elem? l.vlist (bit_and uid uid_mask)
      else some none

  -- the parts of the asserts in `add`, `del` and `_del`
  abbrev slot_is : PtrList A → ℕ → Bool → Bool
  slot_is l uid held = ltb 0 uid && leb uid l.total && elim (get_elem? l.vlist uid) [
    | none ↦ false
    | some o ↦ if held then is_some o else not (is_some o)
  ]

  pub add : PtrList A → A → ℕ → Option (PtrList A)
  add l t uid =
      let i = bit_and uid uid_mask in
      if (bit_and uid magic_mask == l.magic_num) && slot_is l i false
      then some (record l { vlist = set l.vlist i (some t) })
      else none

  pub del_slot : PtrList A → ℕ → Option (PtrList A)
  del_slot l uid =
      if slot_is l uid true
      then some (record l {
        vlist = set l.vlist uid none;
        free = l.free ++ uid ∷ [];
        free_size = inc64 l.free_size;
      })
      else none

  pub del : PtrList A → ℕ → Option (PtrList A)
  unfolding del_slot
  del l uid =
      let i = bit_and uid uid_mask in
      if (bit_and uid magic_mask == l.magic_num) && slot_is l i true then del_slot l i else none

  pub size : PtrList A → ℕ
  size l = sub64 l.total l.free_size

  -- The loop of `clear` from slot `i` on, for `k` slots; the pointers that it destroys in order.
  clear_loop : ℕ → ℕ → PtrList A → List A × PtrList A
  clear_loop i zero l = ([], l)
  clear_loop i (suc k) l = elim (get_elem? l.vlist i) [
    | none ↦ clear_loop (i + 1) k l
    | some none ↦ clear_loop (i + 1) k l
    | some (some t) ↦
        let (ts, l') = clear_loop (i + 1) k (record l {
          vlist = set l.vlist i none;
          free = l.free ++ i ∷ [];
          free_size = inc64 l.free_size;
        }) in
        (t ∷ ts, l')
  ]

  pub clear : PtrList A → List A × PtrList A
  unfolding clear_loop
  clear l = clear_loop 1 l.total l
