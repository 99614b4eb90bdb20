-- ===== src/Base/Text/Search.antt =====
-- base/string.cc: `last_index_of` and `first_index_of`.
use sails.Prelude.{
  ℕ, zero, suc, ◌+◌, ◌<◌, ◌≤◌, ◌≡◌, ◌≢◌, sym, ap, ◌∙◌, subst, false, Option, none, some, List, [],
  ◌∷◌, ◌==◌, length, get_elem?, get_elem?-some, arith, Bool-cases, inl, inr,
}
use sails.Base.Text.{last_loop, last_index_of, first_loop, first_index_of}

-- The last place below `k` where a byte stands, or that there is none.
pub data Last (src : List ℕ) (c k : ℕ) : Option ℕ → Type 0 where
  last_at :
      (i : ℕ)
      → i < k
      → get_elem? src i ≡ some c
      → ((j : ℕ) → i < j → j < k → get_elem? src j ≢ some c)
      → Last src c k (some i)
  nowhere : ((j : ℕ) → j < k → get_elem? src j ≢ some c) → Last src c k none

below :
    (j k : ℕ) (src : List ℕ) (c : ℕ)
    → j < suc k
    → get_elem? src k ≢ some c
    → (j < k → get_elem? src j ≢ some c)
    → get_elem? src j ≢ some c
below j k src c h top rest = elim (Bool-cases (j == k)) [
  | inl same ↦ let q : j ≡ k = ground arith in λ e. top (ap (get_elem? src) (sym q) ∙ e)
  | inr other ↦ rest (ground arith)
]

Last-suc :
    (src : List ℕ) (c k : ℕ) (r : Option ℕ)
    → get_elem? src k ≢ some c
    → Last src c k r
    → Last src c (suc k) r
Last-suc src c k r top (last_at i lt e after) =
    last_at i (omega arith) e (λ j a b. below j k src c b top (after j a))
Last-suc src c k r top (nowhere none_below) = nowhere (λ j b. below j k src c b top (none_below j))

last_loop-Last : (src : List ℕ) (c k : ℕ) → k ≤ length src → Last src c k (last_loop src c k)
unfolding last_loop
last_loop-Last src c zero h = nowhere (λ j b. absurd (omega arith))
last_loop-Last src c (suc k) h =
    let (x, e) = get_elem?-some src k (omega arith) in
    elim (Bool-cases (x == c)) [
      | inl here ↦
          let q : x ≡ c = ground arith in
          rw (e, here, last_loop)
            (last_at k (omega arith) (e ∙ ap some q) (λ j a b. absurd (omega arith)))
      | inr other ↦
          let ne : get_elem? src k ≢ some c =
            λ g. let s : x ≡ c = (let t = sym e ∙ g in ground arith) in absurd (ground arith) in
          rw (e, other, last_loop)
            (Last-suc src c k (last_loop src c k) ne (last_loop-Last src c k (omega arith)))
    ]

-- `last_index_of` finds the last place of a byte in a string, or -1 where the byte is not in it.
pub last_index_of-Last : (src : List ℕ) (c : ℕ) → Last src c (length src) (last_index_of src c)
unfolding last_index_of
last_index_of-Last src c = last_loop-Last src c (length src) (omega arith)

-- The first place from `k` on where a byte of the rest stands, or that there is none.
pub data First (src : List ℕ) (c k : ℕ) : Option ℕ → Type 0 where
  first_at :
      (i : ℕ)
      → get_elem? src i ≡ some c
      → ((j : ℕ) → j < i → get_elem? src j ≢ some c)
      → First src c k (some (k + i))
  absent : ((j : ℕ) → get_elem? src j ≢ some c) → First src c k none

First-cons :
    (src : List ℕ) (x c k : ℕ) (r : Option ℕ)
    → (x == c) ≡ false
    → First src c (k + 1) r
    → First (x ∷ src) c k r
First-cons src x c k r h (first_at i e before) =
    let n : k + suc i ≡ k + 1 + i = omega arith in
    subst (λ m. First (x ∷ src) c k (some m)) n (first_at (suc i) e (earlier i before))
  where
    earlier :
        (i : ℕ)
        → ((j : ℕ) → j < i → get_elem? src j ≢ some c)
        → (j : ℕ) → j < suc i
        → get_elem? (x ∷ src) j ≢ some c
    earlier i before zero lt = λ g. absurd (ground arith)
    earlier i before (suc j) lt = before j (omega arith)
First-cons src x c k r h (absent nothing) = absent (later nothing)
  where
    later : ((j : ℕ) → get_elem? src j ≢ some c) → (j : ℕ) → get_elem? (x ∷ src) j ≢ some c
    later nothing zero = λ g. absurd (ground arith)
    later nothing (suc j) = nothing j

first_loop-First : (src : List ℕ) (c k : ℕ) → First src c k (first_loop k src c)
unfolding first_loop
first_loop-First [] c k = absent (λ j g. absurd (ground arith))
first_loop-First (x ∷ xs) c k = elim (Bool-cases (x == c)) [
  | inl here ↦
      let q : x ≡ c = ground arith in
      let n : k + 0 ≡ k = omega arith in
      rw here (
        subst (λ m. First (x ∷ xs) c k (some m)) n
          (first_at 0 (ap some q) (λ j b. absurd (omega arith))))
  | inr other ↦
      rw other (First-cons xs x c k (first_loop (k + 1) xs c) other (first_loop-First xs c (k + 1)))
]

-- `first_index_of` finds the first place of a byte in a string, or -1 where the byte is not in it.
pub first_index_of-First : (src : List ℕ) (c : ℕ) → First src c 0 (first_index_of src c)
unfolding first_index_of
first_index_of-First src c = first_loop-First src c 0
