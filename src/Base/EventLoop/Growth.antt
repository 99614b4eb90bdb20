-- ===== src/Base/EventLoop/Growth.antt =====
-- base/event_loop.cc: `array_needsize` makes the table long enough, and keeps what it holds.
use sails.Prelude.{
  ℕ, zero, suc, ◌+◌, ◌-◌, ◌*◌, ◌/◌, ◌<◌, ◌≤◌, ◌≡◌, refl, sym, ap, ◌∙◌, Bool, true, false, Option,
  none, some, List, [], ◌∷◌, ◌++◌, arith, ltb, set, length, replicate, length-append,
  length-replicate, Bool-cases, inl, inr, ◌⊎◌, leb, ◌^◌,
}
use mathlib.Core.List.{append-nil, append_assoc}
use sails.Base.EventLoop.{EventLoop, Anfd, Realloc, empty_anfd, init_events, grow, array_needsize}

-- The loop ends on fuel that covers what is missing, 16 a round, and stops at the first count that
-- is enough.
grow-enough :
    (fuel need cnt : ℕ)
    → cnt < need
    → need ≤ cnt + fuel
    → 3 * need + 32 < 2 ^ 32
    → (r : ℕ) × (grow fuel need cnt ≡ some r) × (need ≤ r) × (cnt < r) × (2 * r ≤ 3 * need + 32)
unfolding grow
grow-enough zero need cnt h k m = absurd (omega arith)
grow-enough (suc fuel) need cnt h k m =
    let fits : leb (2 ^ 31) (cnt + (cnt / 2 + 16)) ≡ false = ground arith in
    elim (Bool-cases (ltb (cnt + (cnt / 2 + 16)) need)) [
      | inl more ↦
          let (r, e, enough, over, top) =
            grow-enough fuel need (cnt + (cnt / 2 + 16)) (ground arith) (omega arith) m in
          (r, rw (fits, more, grow) e, enough, omega arith, top)
      | inr done ↦
          (cnt + (cnt / 2 + 16), rw (fits, done, grow) refl, ground arith, omega arith, omega arith)
    ]

set-middle : (xs ys : List Anfd) (a b : Anfd) → set (xs ++ a ∷ ys) (length xs) b ≡ xs ++ b ∷ ys
set-middle [] ys a b = refl
set-middle (x ∷ xs) ys a b = ap (λ zs. x ∷ zs) (set-middle xs ys a b)

init_events-fill :
    (more xs : List Anfd)
    → init_events (length xs) (length more) (xs ++ more) ≡ xs ++ replicate (length more) empty_anfd
unfolding init_events
init_events-fill [] xs = refl
init_events-fill (a ∷ more) xs =
    let n : length (xs ++ empty_anfd ∷ []) ≡ length xs + 1 = length-append xs (empty_anfd ∷ []) in
    ap (λ zs. init_events (length xs + 1) (length more) zs)
      (set-middle xs more a empty_anfd ∙ sym (append_assoc xs (empty_anfd ∷ []) more))
    ∙ ap (λ k. init_events k (length more) ((xs ++ empty_anfd ∷ []) ++ more)) (sym n)
    ∙ init_events-fill more (xs ++ empty_anfd ∷ [])
    ∙ append_assoc xs (empty_anfd ∷ []) (replicate (length more) empty_anfd)

-- What `realloc` promises: the old table, and memory for what is over it.
abbrev pub Allocates : Realloc → EventLoop → Type 0
Allocates realloc l =
    (n : ℕ) (more : List Anfd)
    → realloc n ≡ some more
    → l.max_events ≤ n
    → length more + l.max_events ≡ n

-- The table afterwards, and whether it is large enough.
pub record Grown (realloc : Realloc) (l : EventLoop) (need : ℕ) (ok : Bool) (l' : EventLoop)
    : Type 0 where
  pub sized : length l'.anfds ≡ l'.max_events
  pub outcome :
      ((ok ≡ true) × (need ≤ l'.max_events))
      ⊎ ((ok ≡ false) × (l' ≡ l) × (n : ℕ) × (realloc n ≡ none))
  pub longer : l.max_events ≤ l'.max_events
  pub kept : l'.anfds ≡ l.anfds ++ replicate (l'.max_events - l.max_events) empty_anfd
  pub bounded : 2 * l'.max_events ≤ 2 * l.max_events + 3 * need + 32

unchanged-Grown :
    (realloc : Realloc) (l : EventLoop) (need : ℕ) (ok : Bool)
    → length l.anfds ≡ l.max_events
    → ((ok ≡ true) × (need ≤ l.max_events))
      ⊎ ((ok ≡ false) × (l ≡ l) × (n : ℕ) × (realloc n ≡ none))
    → Grown realloc l need ok l
unchanged-Grown realloc l need ok s outcome =
    let z : l.max_events - l.max_events ≡ 0 = omega arith in
    record {
      sized = s;
      outcome = outcome;
      longer = omega arith;
      kept = rw z (sym (append-nil l.anfds));
      bounded = omega arith;
    }

-- For fewer than 2 ^ 30 slots, `array_needsize` ends without a fault and no count overflows. It
-- answers true, and the table has the slots that are
-- needed, or false, if
-- `realloc` gave no memory, and the table is as it was. A longer table has at most half as many slots more
-- than are needed and 16, beside those it had; the slots that were there are as they were, and the
-- new ones are cleared.
pub array_needsize-Grown :
    (realloc : Realloc) (l : EventLoop) (need : ℕ)
    → length l.anfds ≡ l.max_events
    → Allocates realloc l
    → need < 2 ^ 30
    → (ok : Bool) × (l' : EventLoop) × (array_needsize realloc l need ≡ some (ok, l'))
      × Grown realloc l need ok l'
unfolding array_needsize
array_needsize-Grown realloc l need s alloc small = elim (Bool-cases (ltb l.max_events need)) [
  | inr fits ↦ (
    true,
    l,
    rw (fits, array_needsize) refl,
    unchanged-Grown realloc l need true s (inl (refl, ground arith)),
  )
  | inl short ↦
      let (r, e, enough, over, top) =
        grow-enough need need l.max_events (ground arith) (omega arith) (omega arith) in
      allocated r e enough over top short (realloc r) refl
]
  where
    allocated :
        (r : ℕ)
        → grow need need l.max_events ≡ some r
        → need ≤ r
        → l.max_events < r
        → 2 * r ≤ 3 * need + 32
        → ltb l.max_events need ≡ true
        → (x : Option (List Anfd)) → realloc r ≡ x
        → (ok : Bool) × (l' : EventLoop) × (array_needsize realloc l need ≡ some (ok, l'))
          × Grown realloc l need ok l'
    allocated r e enough over top short none q = (
      false,
      l,
      rw (short, e, q, array_needsize) refl,
      unchanged-Grown realloc l need false s (inr (refl, refl, r, q)),
    )
    allocated r e enough over top short (some more) q =
        let n = alloc r more q (omega arith) in
        let filled : init_events l.max_events (r - l.max_events) (l.anfds ++ more)
            ≡ l.anfds ++ replicate (r - l.max_events) empty_anfd =
          let k : r - l.max_events ≡ length more = omega arith in
          ap (λ i. init_events i (r - l.max_events) (l.anfds ++ more)) (sym s)
          ∙ (rw k (init_events-fill more l.anfds)) in
        (
          true,
          record { anfds = l.anfds ++ replicate (r - l.max_events) empty_anfd; max_events = r },
          rw (short, e, q, filled, array_needsize) refl,
          record {
            sized = omega (
              arith,
              length-append l.anfds (replicate (r - l.max_events) empty_anfd),
              length-replicate (r - l.max_events) empty_anfd,
            );
            outcome = inl (refl, enough);
            longer = omega arith;
            kept = refl;
            bounded = omega arith;
          },
        )
