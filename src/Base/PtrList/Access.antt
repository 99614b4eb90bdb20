-- ===== src/Base/PtrList/Access.antt =====
-- base/constant_ptr_list.h: what `get` sees after each operation, when the operations succeed,
-- and what `size` and `clear` do.
use sails.Prelude.{
  ℕ, ◌+◌, ◌^◌, ◌<◌, ◌≡◌, ◌≢◌, refl, sym, ap, ◌∙◌, bit_and, bit_or, none, some, List, [], ◌∷◌, arith,
  length, get_elem?-set_self, get_elem?-set_ne, get_elem?-none,
}
use sails.Prelude.Counts.{count}
use sails.Prelude.Words.{dec64}
use sails.Base.PtrList.{PtrList, take_front, get_uniq_id, get, add, del, size, uid_mask}
use sails.Base.PtrList.Invariant.{Inv, held, held_count, in_range, low_tag, high_tag}

module _ {A : Type 0} where
  -- `get` after `add`: the pointer under its id, and under any id of another slot what was there.
  pub get-add :
      (l l' : PtrList A) (issued : List ℕ) (t : A) (uid w : ℕ)
      → Inv l issued
      → add l t uid ≡ some l'
      → bit_and uid uid_mask ≢ bit_and w uid_mask
      → (get l' uid ≡ some (some t)) × (get l' w ≡ get l w)
  unfolding add get
  get-add l l' issued t uid w v e ne = (
    ground (arith, v.slots, get_elem?-set_self l.vlist (bit_and uid uid_mask) (some t)),
    ground
        (arith, get_elem?-set_ne l.vlist (bit_and uid uid_mask) (bit_and w uid_mask) (some t) ne),
  )

  -- `get` after `del`: null under the id, and under any id of another slot what was there.
  pub get-del :
      (l l' : PtrList A) (issued : List ℕ) (uid w : ℕ)
      → Inv l issued
      → del l uid ≡ some l'
      → bit_and uid uid_mask ≢ bit_and w uid_mask
      → (get l' uid ≡ some none) × (get l' w ≡ get l w)
  unfolding del get
  get-del l l' issued uid w v e ne = (
    ground (arith, v.slots, get_elem?-set_self l.vlist (bit_and uid uid_mask) none),
    ground (arith, get_elem?-set_ne l.vlist (bit_and uid uid_mask) (bit_and w uid_mask) none ne),
  )

  take_front_total :
      (l : PtrList A) (issued xs : List ℕ)
      → Inv l issued
      → l.free ≡ xs
      → length issued + held_count l.vlist < l.total
      → (uid : ℕ) × (l' : PtrList A) × (take_front l xs ≡ some (uid, l'))
  take_front_total l issued [] v f h = absurd (omega (arith, v.tally, ap length f))
  take_front_total l issued (i ∷ rest) v f h =
      let c : 0 < count i (i ∷ rest) = unfold count in ground arith in
      let own : count i (i ∷ rest) + count i issued + held i l.vlist ≡ in_range i l.total =
        ap (λ n. n + count i issued + held i l.vlist) (sym (ap (count i) f)) ∙ v.owned i in
      (
        bit_or l.magic_num i,
        record l { free = rest; free_size = dec64 l.free_size },
        unfold take_front in ground arith,
      )

  -- While fewer ids are out than the table has slots, `get_uniq_id` gives one out.
  pub get_uniq_id_total :
      (l : PtrList A) (issued : List ℕ)
      → Inv l issued
      → length issued + held_count l.vlist < l.total
      → (uid : ℕ) × (l' : PtrList A) × (get_uniq_id l ≡ some (uid, l'))
  unfolding get_uniq_id
  get_uniq_id_total l issued v h = take_front_total l issued l.free v refl h

  -- `size` counts the ids that are out, added or not.
  pub size-Inv :
      (l : PtrList A) (issued : List ℕ) → Inv l issued → size l ≡ length issued + held_count l.vlist
  unfolding size
  size-Inv l issued v = omega (arith, v.tally, v.sized, v.small)

  -- An id with the list's magic and a slot number past the table is read out of bounds.
  pub get_out_of_range :
      (l : PtrList A) (issued : List ℕ) (i : ℕ)
      → Inv l issued
      → l.total < i
      → i < 2 ^ 24
      → get l (bit_or l.magic_num i) ≡ none
  unfolding get
  get_out_of_range l issued i v h small =
      rw (low_tag l.magic_num i v.magic small, high_tag l.magic_num i v.magic v.word small)
        (ground (arith, get_elem?-none l.vlist i (omega (arith, v.slots))))
