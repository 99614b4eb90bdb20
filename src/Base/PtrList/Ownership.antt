-- ===== src/Base/PtrList/Ownership.antt =====
-- base/constant_ptr_list.h: the protocol of the callers. An id is issued, its slot filled by `add`
-- and emptied by `del`; whatever the order, no id is with two owners.
use sails.Prelude.{
  ℕ, zero, suc, ◌+◌, ◌<◌, ◌≤◌, ◌≡◌, refl, ap, ◌∙◌, bit_and, Option, none, some, List, [], ◌∷◌, ◌++◌,
  arith, length, get_elem?, set, length-set, length-append,
}
use sails.Prelude.Counts.{count, count-snoc, erase, count-erase, length-erase}
use sails.Prelude.Words.{inc64}
use sails.Base.PtrList.{PtrList, take_front, get_uniq_id, add, del, uid_mask, magic_mask}
use sails.Base.PtrList.Invariant.{
  Inv, held, weight, held-set, held_count-set, low_tag, high_tag, take_front-some, take_front-Inv,
}

module _ {A : Type 0} where
  -- What `get_uniq_id` gives out: an id with the list's magic, whose slot is free, and which nobody
  -- holds.
  abbrev pub Issued : PtrList A → List ℕ → ℕ → PtrList A → Type 0
  Issued l issued uid l' =
      Inv l' (bit_and uid uid_mask ∷ issued)
      × (bit_and uid magic_mask ≡ l.magic_num)
      × (0 < bit_and uid uid_mask)
      × (bit_and uid uid_mask ≤ l.total)
      × (count (bit_and uid uid_mask) issued ≡ 0)
      × (get_elem? l.vlist (bit_and uid uid_mask) ≡ some none)

  pub empty_slot :
      (i : ℕ) (vs : List (Option A)) → i < length vs → held i vs ≡ 0 → get_elem? vs i ≡ some none
  empty_slot i [] h e = elim h [ ]
  empty_slot zero (none ∷ vs) h e = refl
  empty_slot zero (some t ∷ vs) h e = absurd (omega arith)
  empty_slot (suc i) (v ∷ vs) h e = empty_slot i vs (omega arith) e

  take_front-Issued :
      (l l' : PtrList A) (issued xs : List ℕ) (uid : ℕ)
      → Inv l issued
      → l.free ≡ xs
      → take_front l xs ≡ some (uid, l')
      → Issued l issued uid l'
  take_front-Issued l l' issued [] uid v f e = unfold take_front in cc
  take_front-Issued l l' issued (i ∷ rest) uid v f e =
      let (pos, le, id, new) = take_front-some l l' i rest uid e in
      let low = low_tag l.magic_num i v.magic (omega arith) in
      let own : (count i l.free + count i issued + held i l.vlist ≡ 1) =
        ground (arith, v.owned i) in
      let c : count i l.free ≡ suc (count i rest) =
        ap (count i) f ∙ (unfold count in ground arith) in
      rw (id, new, low)
        (
          take_front-Inv l issued rest i v f le,
          high_tag l.magic_num i v.magic v.word (omega arith),
          pos,
          le,
          omega arith,
          empty_slot i l.vlist (omega arith) (omega arith),
        )

  -- An id that `get_uniq_id` gives out carries the magic, lies in the table, and is nobody's.
  pub get_uniq_id-Issued :
      (l l' : PtrList A) (issued : List ℕ) (uid : ℕ)
      → Inv l issued
      → get_uniq_id l ≡ some (uid, l')
      → Issued l issued uid l'
  unfolding get_uniq_id
  get_uniq_id-Issued l l' issued uid v e = take_front-Issued l l' issued l.free uid v refl e

  add-some :
      (l l' : PtrList A) (t : A) (uid i : ℕ)
      → bit_and uid uid_mask ≡ i
      → add l t uid ≡ some l'
      → (i ≤ l.total)
        × (get_elem? l.vlist i ≡ some none)
        × (l' ≡ record l { vlist = set l.vlist i (some t) })
  unfolding add
  add-some l l' t uid i m e = rw (← m) (ground arith)

  fill-Inv :
      (l : PtrList A) (issued : List ℕ) (t : A) (i : ℕ)
      → Inv l issued
      → 0 < count i issued
      → i ≤ l.total
      → get_elem? l.vlist i ≡ some none
      → Inv (record l { vlist = set l.vlist i (some t) }) (erase i issued)
  fill-Inv l issued t i v h le e =
      let empty : held i l.vlist ≡ 0 = ap weight e in
      record {
        small = v.small;
        slots = length-set l.vlist i (some t) ∙ v.slots;
        magic = v.magic;
        word = v.word;
        sized = v.sized;
        tally = omega (
          arith,
          v.tally,
          v.slots,
          length-erase i issued h,
          held_count-set i (some t) l.vlist (omega arith),
          empty,
        );
        owned = λ j. ground (
          arith,
          v.owned j,
          count-erase i j issued h,
          held-set i j (some t) l.vlist (omega arith),
          empty,
        );
      }

  pub add-Inv :
      (l l' : PtrList A) (issued : List ℕ) (t : A) (uid : ℕ)
      → Inv l issued
      → 0 < count (bit_and uid uid_mask) issued
      → add l t uid ≡ some l'
      → Inv l' (erase (bit_and uid uid_mask) issued)
  add-Inv l l' issued t uid v h e =
      let (le, empty, new) = add-some l l' t uid (bit_and uid uid_mask) refl e in
      rw new (fill-Inv l issued t (bit_and uid uid_mask) v h le empty)

  del-some :
      (l l' : PtrList A) (uid i : ℕ)
      → bit_and uid uid_mask ≡ i
      → del l uid ≡ some l'
      → (i ≤ l.total)
        × (held i l.vlist ≡ 1)
        × (l' ≡ record l {
          vlist = set l.vlist i none;
          free = l.free ++ i ∷ [];
          free_size = inc64 l.free_size;
        })
  unfolding del
  del-some l l' uid i m e = rw (← m) (ground arith)

  pub drop-Inv :
      (l : PtrList A) (issued : List ℕ) (i : ℕ)
      → Inv l issued
      → i ≤ l.total
      → held i l.vlist ≡ 1
      → Inv
          (record l {
            vlist = set l.vlist i none;
            free = l.free ++ i ∷ [];
            free_size = inc64 l.free_size;
          })
          issued
  drop-Inv l issued i v le e =
      let n : length (l.free ++ i ∷ []) ≡ length l.free + 1 = length-append l.free (i ∷ []) in
      let c = held_count-set i none l.vlist (omega (arith, v.slots)) in
      record {
        small = v.small;
        slots = length-set l.vlist i none ∙ v.slots;
        magic = v.magic;
        word = v.word;
        sized = omega (arith, v.sized, v.tally, v.small);
        tally = omega (arith, v.tally);
        owned = λ j. ground (
          arith,
          v.owned j,
          count-snoc j i l.free,
          held-set i j none l.vlist (omega (arith, v.slots)),
        );
      }

  pub del-Inv :
      (l l' : PtrList A) (issued : List ℕ) (uid : ℕ)
      → Inv l issued
      → del l uid ≡ some l'
      → Inv l' issued
  del-Inv l l' issued uid v e =
      let (le, full, new) = del-some l l' uid (bit_and uid uid_mask) refl e in
      rw new (drop-Inv l issued (bit_and uid uid_mask) v le full)

-- One call of a client that adds only ids it was given, and any order of such calls.
pub data Step {A : Type 0} : PtrList A × List ℕ → PtrList A × List ℕ → Type 0 where
  issue :
      (l l' : PtrList A) (issued : List ℕ) (uid : ℕ)
      → get_uniq_id l ≡ some (uid, l')
      → Step (l, issued) (l', bit_and uid uid_mask ∷ issued)
  adds :
      (l l' : PtrList A) (issued : List ℕ) (t : A) (uid : ℕ)
      → 0 < count (bit_and uid uid_mask) issued
      → add l t uid ≡ some l'
      → Step (l, issued) (l', erase (bit_and uid uid_mask) issued)
  deletes :
      (l l' : PtrList A) (issued : List ℕ) (uid : ℕ)
      → del l uid ≡ some l'
      → Step (l, issued) (l', issued)

pub data Reach {A : Type 0} (s : PtrList A × List ℕ) : PtrList A × List ℕ → Type 0 where
  here : Reach s s
  next : {t u : PtrList A × List ℕ} → Reach s t → Step t u → Reach s u

module _ {A : Type 0} where
  Step-Inv : {s t : PtrList A × List ℕ} → Step s t → Inv s.0 s.1 → Inv t.0 t.1
  Step-Inv (issue l l' issued uid e) v = (get_uniq_id-Issued l l' issued uid v e).0
  Step-Inv (adds l l' issued t uid h e) v = add-Inv l l' issued t uid v h e
  Step-Inv (deletes l l' issued uid e) v = del-Inv l l' issued uid v e

  -- After any history of `get_uniq_id`, `add` of an id that was issued, and `del`, each id of the
  -- table is free, or issued, or in use, and only one of these; the free slots are counted right.
  pub Reach-Inv : {s t : PtrList A × List ℕ} → Inv s.0 s.1 → Reach s t → Inv t.0 t.1
  Reach-Inv v here = v
  Reach-Inv v (next r st) = Step-Inv st (Reach-Inv v r)
