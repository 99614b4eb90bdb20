-- ===== src/Base/PtrList/Reuse.antt =====
-- base/constant_ptr_list.h: a second `init`, and `clear`.
use sails.Prelude.{
  ℕ, zero, suc, ◌+◌, ◌≤◌, ◌≡◌, refl, sym, ap, ◌∙◌, Bool, Option, none, some, List, [], ◌∷◌, ◌++◌,
  arith, ltb, leb, if◌then◌else◌, get_elem?, set, ◌&&◌, drop, take, drop-get_elem?, drop-set,
  take_all, length-drop, get_elem?-some,
}
use sails.Prelude.Counts.{count, count-append, count-range_from, range_from}
use sails.Prelude.Words.{inc64}
use sails.Base.PtrList.{PtrList, init, clear, clear_loop}
use sails.Base.PtrList.Invariant.{Inv, held, weight, held-set}
use sails.Base.PtrList.Ownership.{drop-Inv}

module _ {A : Type 0} where
  -- `init` does not empty the free list: after a second `init` every id that was free, and that the
  -- new table has, stands twice in it, so that two owners will be given the one id.
  pub init_twice :
      (l : PtrList A) (issued : List ℕ) (size now d i : ℕ) (need : Bool)
      → Inv l issued
      → count i l.free ≡ 1
      → i ≤ size
      → count i (init l size need now d).0.free ≡ 2
  unfolding init
  init_twice l issued n now d i need v h le =
      ground (arith, count-append i l.free (range_from 1 n), count-range_from i 1 n, v.owned i)

  -- The pointers of a row of slots.
  unfoldable pub pointers : List (Option A) → List A
  pointers [] = []
  pointers (none ∷ vs) = pointers vs
  pointers (some t ∷ vs) = t ∷ pointers vs

  -- What the loop of `clear` over the slots i, …, i + k - 1 does: it destroys their pointers, in
  -- order, and leaves these slots empty and the others alone.
  pub record Cleared (l : PtrList A) (issued : List ℕ) (i k : ℕ) (r : List A × PtrList A)
      : Type 0 where
    pub valid : Inv r.1 issued
    pub total : r.1.total ≡ l.total
    pub destroyed : r.0 ≡ pointers (take k (drop i l.vlist))
    pub gone : (j : ℕ) → held j r.1.vlist ≡ (if leb i j && ltb j (i + k) then 0 else held j l.vlist)

  abbrev dropped : PtrList A → ℕ → PtrList A
  dropped l i = record l {
    vlist = set l.vlist i none;
    free = l.free ++ i ∷ [];
    free_size = inc64 l.free_size;
  }

  clear_loop-slot :
      (i k : ℕ) (l : PtrList A) (issued : List ℕ) (o : Option A)
      → Inv l issued
      → i ≤ l.total
      → get_elem? l.vlist i ≡ some o
      → Cleared l issued (i + 1) k (clear_loop (i + 1) k l)
      → (Inv (dropped l i) issued
          → Cleared (dropped l i) issued (i + 1) k (clear_loop (i + 1) k (dropped l i)))
      → Cleared l issued i (suc k) (clear_loop i (suc k) l)
  unfolding clear_loop pointers
  clear_loop-slot i k l issued none v h e ih _ =
      rw (e, clear_loop)
        (record {
          valid = ih.valid;
          total = ih.total;
          destroyed =
              ih.destroyed
              ∙ ap (λ vs. pointers (take (suc k) vs)) (sym (drop-get_elem? l.vlist i e));
          gone = λ j. ground (arith, ih.gone j, ap weight e);
        })
  clear_loop-slot i k l issued (some t) v h e _ step =
      let ih = step (drop-Inv l issued i v h (ap weight e)) in
      rw (e, clear_loop)
        (record {
          valid = ih.valid;
          total = ih.total;
          destroyed =
              ap (λ ts. t ∷ ts)
                (ih.destroyed
                  ∙ ap (λ vs. pointers (take k vs)) (drop-set l.vlist i (i + 1) none (omega arith)))
              ∙ ap (λ vs. pointers (take (suc k) vs)) (sym (drop-get_elem? l.vlist i e));
          gone = λ j.
              ground
                (arith, ih.gone j, ap weight e, held-set i j none l.vlist (omega (arith, v.slots)));
        })

  clear_loop-Cleared :
      (i k : ℕ) (l : PtrList A) (issued : List ℕ)
      → Inv l issued
      → i + k ≤ l.total + 1
      → Cleared l issued i k (clear_loop i k l)
  clear_loop-Cleared i zero l issued v h =
      unfold clear_loop pointers in
      record { valid = v; total = refl; destroyed = refl; gone = λ j. ground arith }
  clear_loop-Cleared i (suc k) l issued v h =
      let (o, e) = get_elem?-some l.vlist i (omega (arith, v.slots)) in
      clear_loop-slot i k l issued o v (omega arith) e
        (clear_loop-Cleared (i + 1) k l issued v (omega arith))
        (λ w. clear_loop-Cleared (i + 1) k (dropped l i) issued w (omega arith))

  -- `clear` destroys the pointers of all slots once each, in the order of the slots, and leaves a
  -- valid list in which every slot is empty.
  pub clear-Inv :
      (l : PtrList A) (issued : List ℕ)
      → Inv l issued
      → Inv (clear l).1 issued
        × ((clear l).0 ≡ pointers (drop 1 l.vlist))
        × ((j : ℕ) → held j (clear l).1.vlist ≡ 0)
  unfolding clear
  clear-Inv l issued v =
      let c = clear_loop-Cleared 1 l.total l issued v (omega arith) in
      (
        c.valid,
        c.destroyed
            ∙ ap pointers
                (take_all l.total (drop 1 l.vlist) (omega (arith, length-drop 1 l.vlist, v.slots))),
        λ j. ground (arith, c.gone j, v.owned j),
      )
