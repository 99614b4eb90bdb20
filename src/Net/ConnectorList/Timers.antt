-- ===== src/Net/ConnectorList/Timers.antt =====
-- net/connector_list.cc: the multimap `_tl`, its nodes by identity, its order by time.
use sails.Prelude.{
  ℕ, ◌+◌, ◌≤◌, ◌≡◌, refl, Bool, true, false, ◌&&◌, Option, none, some, List, [], ◌∷◌, arith, leb,
  ◌==◌, if◌then◌else◌, Bool-cases, inl, inr,
}
use sails.Net.ConnectorList.{Timer, insert, erase_node}

-- The slot of a node.
abbrev pub find_node : ℕ → List Timer → Option ℕ
find_node n [] = none
find_node n (x ∷ xs) = if x.node == n then some x.uid else find_node n xs

-- How many nodes a slot has.
abbrev pub count_uid : ℕ → List Timer → ℕ
count_uid i [] = 0
count_uid i (x ∷ xs) = (if x.uid == i then 1 else 0) + count_uid i xs

-- In the order of the times, from `low` on.
abbrev pub is_sorted_from : ℕ → List Timer → Bool
is_sorted_from low [] = true
is_sorted_from low (x ∷ xs) = leb low x.time && is_sorted_from x.time xs

pub count_uid-insert :
    (i : ℕ) (t : Timer) (xs : List Timer)
    → count_uid i (insert t xs) ≡ (if t.uid == i then 1 else 0) + count_uid i xs
unfolding insert
count_uid-insert i t [] = refl
count_uid-insert i t (x ∷ xs) = ground (arith, count_uid-insert i t xs)

pub find_node-insert :
    (m : ℕ) (t : Timer) (xs : List Timer)
    → find_node t.node xs ≡ none
    → find_node m (insert t xs) ≡ (if t.node == m then some t.uid else find_node m xs)
unfolding insert
find_node-insert m t [] h = refl
find_node-insert m t (x ∷ xs) h = ground (arith, find_node-insert m t xs)

pub insert-is_sorted :
    (low : ℕ) (t : Timer) (xs : List Timer)
    → is_sorted_from low xs ≡ true
    → low ≤ t.time
    → is_sorted_from low (insert t xs) ≡ true
unfolding insert
insert-is_sorted low t [] h le = ground arith
insert-is_sorted low t (x ∷ xs) h le = ground (arith, insert-is_sorted x.time t xs)

pub sorted_weaken :
    (low low' : ℕ) (xs : List Timer)
    → is_sorted_from low xs ≡ true
    → low' ≤ low
    → is_sorted_from low' xs ≡ true
sorted_weaken low low' [] h le = refl
sorted_weaken low low' (x ∷ xs) h le = ground arith

-- What is left when a node is erased.
pub record Erased (n uid : ℕ) (xs ys : List Timer) : Type 0 where
  pub counts : (i : ℕ) → count_uid i xs ≡ (if uid == i then 1 else 0) + count_uid i ys
  pub finds : (m : ℕ) → (m == n) ≡ false → find_node m ys ≡ find_node m xs
  pub sorted : (low : ℕ) → is_sorted_from low xs ≡ true → is_sorted_from low ys ≡ true

Erased-cons :
    (x : Timer) (n uid : ℕ) (xs ys : List Timer)
    → Erased n uid xs ys
    → Erased n uid (x ∷ xs) (x ∷ ys)
Erased-cons x n uid xs ys e = record {
  counts = λ i. omega (arith, e.counts i);
  finds = λ m h. ground (arith, e.finds m h);
  sorted = λ low h. ground (arith, e.sorted x.time);
}

pub erase_node-Erased :
    (n uid : ℕ) (xs : List Timer)
    → find_node n xs ≡ some uid
    → (ys : List Timer) × (erase_node n xs ≡ some ys) × Erased n uid xs ys
unfolding erase_node
erase_node-Erased n uid [] h = absurd (ground arith)
erase_node-Erased n uid (x ∷ xs) h = elim (Bool-cases (x.node == n)) [
  | inl here ↦ (
    xs,
    rw (here, erase_node) refl,
    record {
      counts = λ i. ground arith;
      finds = λ m k. ground arith;
      sorted = λ low k. ground (arith, sorted_weaken x.time low xs);
    },
  )
  | inr later ↦
      let (ys, e, w) = erase_node-Erased n uid xs (ground arith) in
      (x ∷ ys, rw (later, e, erase_node) refl, Erased-cons x n uid xs ys w)
]
