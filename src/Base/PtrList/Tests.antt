-- ===== src/Base/PtrList/Tests.antt =====
-- base/constant_ptr_list.h: a table of two slots, and the theorems at it.
use sails.Prelude.{ℕ, ◌≡◌, refl, true, none, some, [], ◌∷◌, arith}
use sails.Prelude.Counts.{count, range_from, erase}
use sails.Base.PtrList.{PtrList, new_list, init, get_uniq_id, add, del, size, clear}
use sails.Base.PtrList.Invariant.{Inv, held, held_count, init-Inv}
use sails.Base.PtrList.Ownership.{get_uniq_id-Issued, add-Inv, Step, Reach, Reach-Inv}
use sails.Base.PtrList.Access.{size-Inv}
use sails.Base.PtrList.Reuse.{clear-Inv, pointers}

-- The magic byte is 5.
abbrev fresh : PtrList ℕ
unfolding init new_list range_from
fresh = (init new_list 2 true 5 0x01000000).0

abbrev issued_one : PtrList ℕ
issued_one = record fresh { free = 2 ∷ []; free_size = 1 }

abbrev added_one : PtrList ℕ
added_one = record issued_one { vlist = none ∷ some 70 ∷ none ∷ [] }

fresh-Inv : Inv fresh []
unfolding init new_list range_from
fresh-Inv = init-Inv 2 true 5 0x01000000 (omega arith) (omega arith) (omega arith)

fresh-issue : get_uniq_id fresh ≡ some (0x05000001, issued_one)
unfolding init new_list range_from get_uniq_id
fresh-issue = refl

issued_one-Inv : Inv issued_one (1 ∷ [])
unfolding init new_list range_from
issued_one-Inv = (get_uniq_id-Issued fresh issued_one [] 0x05000001 fresh-Inv fresh-issue).0

issued_one-add : add issued_one 70 0x05000001 ≡ some added_one
unfolding init new_list range_from add
issued_one-add = refl

added_one-Inv : Inv added_one []
unfolding init new_list range_from erase count
added_one-Inv =
    add-Inv issued_one added_one (1 ∷ []) 70 0x05000001 issued_one-Inv (omega arith) issued_one-add

added_one-del : del added_one 0x05000001 ≡ some (record fresh { free = 2 ∷ 1 ∷ [] })
unfolding init new_list range_from del
added_one-del = refl

Reach-Inv_example : Inv issued_one (1 ∷ [])
Reach-Inv_example =
    Reach-Inv {s = (fresh, [])} {t = (issued_one, 1 ∷ [])} fresh-Inv
      (Reach.next Reach.here (Step.issue fresh issued_one [] 0x05000001 fresh-issue))

size-Inv_example : size added_one ≡ 1
unfolding held_count init new_list
size-Inv_example = size-Inv added_one [] added_one-Inv

clear-Inv_example :
    Inv (clear added_one).1 []
    × ((clear added_one).0 ≡ 70 ∷ [])
    × ((j : ℕ) → held j (clear added_one).1.vlist ≡ 0)
unfolding pointers init new_list
clear-Inv_example = clear-Inv added_one [] added_one-Inv
