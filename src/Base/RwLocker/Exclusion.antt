-- ===== src/Base/RwLocker/Exclusion.antt =====
-- base/rw_locker.h: readers and writers exclude each other, in any order of calls.
use sails.Prelude.{
  ℕ, zero, suc, ◌+◌, ◌-◌, ◌≡◌, refl, Bool, true, false, Option, none, some, arith, ◌==◌,
  if◌then◌else◌, Bool-cases, inl, inr,
}
use sails.Base.RwLocker.{
  ReadWriteLock, returns, waits, faults, new_lock, read_lock, read_lock_on, read_unlock, write_lock,
  write_unlock,
}

-- What threads have done with a lock: how many read, which waits to, and which writes.
pub data Reach : ReadWriteLock → ℕ → Option ℕ → Option ℕ → Type 0 where
  start : Reach new_lock 0 none none
  reads :
      (l k : ReadWriteLock) (n t : ℕ) (v w : Option ℕ)
      → Reach l n v w
      → read_lock t l ≡ returns k
      → Reach k (n + 1) v w
  must_wait :
      (l k : ReadWriteLock) (n t : ℕ) (v w : Option ℕ)
      → Reach l n v w
      → read_lock t l ≡ waits k
      → Reach k n (some t) w
  goes_on :
      (l k : ReadWriteLock) (n t : ℕ) (w : Option ℕ)
      → Reach l n (some t) w
      → read_lock_on t l ≡ returns k
      → Reach k (n + 1) none w
  has_read :
      (l k : ReadWriteLock) (n t : ℕ) (v w : Option ℕ)
      → Reach l (n + 1) v w
      → read_unlock t l ≡ returns k
      → Reach k n v w
  writes :
      (l k : ReadWriteLock) (n t : ℕ) (v w : Option ℕ)
      → Reach l n v w
      → write_lock t l ≡ returns k
      → Reach k n v (some t)
  has_written :
      (l k : ReadWriteLock) (n t : ℕ) (v : Option ℕ)
      → Reach l n v (some t)
      → write_unlock t l ≡ returns k
      → Reach k n v none

abbrev pub count_of : Option ℕ → ℕ
count_of none = 0
count_of (some t) = 1

abbrev is_there : Option ℕ → Bool
is_there none = false
is_there (some t) = true

-- A number as whether there are any.
abbrev pub any_of : ℕ → ℕ
any_of n = if n == 0 then 0 else 1

-- The fields are what the threads have done: either some read or one writes, and the one who waits
-- is the first.
pub record Exclusive (l : ReadWriteLock) (n : ℕ) (v w : Option ℕ) : Type 0 where
  pub count : l.read_cnt ≡ n + count_of v
  pub gate : l.read_mtx ≡ is_there v
  pub alone : any_of n + count_of w ≡ count_of l.write_mtx
  pub first : any_of n + count_of v ≡ any_of (n + count_of v)

read_lock-Exclusive :
    (m : Bool) (o : Option ℕ) (c : ℕ) (k : ReadWriteLock) (n t : ℕ) (v w : Option ℕ)
    → Exclusive (record { read_mtx = m; write_mtx = o; read_cnt = c }) n v w
    → read_lock t (record { read_mtx = m; write_mtx = o; read_cnt = c }) ≡ returns k
    → Exclusive k (n + 1) v w
unfolding read_lock
read_lock-Exclusive true o c k n t v w i e = absurd (ground arith)
read_lock-Exclusive false o c k n t (some x) w i e = absurd (ground (arith, i.gate))
read_lock-Exclusive false none zero k n t none w i e =
    let q : record { read_mtx = false; write_mtx = some t; read_cnt = 1 } ≡ k = ground arith in
    rw (← q) (record {
      count = ground (arith, i.count, i.alone, i.first);
      gate = refl;
      alone = ground (arith, i.count, i.alone, i.first);
      first = ground (arith, i.count, i.alone, i.first);
    })
read_lock-Exclusive false (some x) zero k n t none w i e = absurd (ground arith)
read_lock-Exclusive false o (suc c) k n t none w i e =
    let q : record { read_mtx = false; write_mtx = o; read_cnt = suc c + 1 } ≡ k = ground arith in
    rw (← q) (record {
      count = ground (arith, i.count, i.alone, i.first);
      gate = refl;
      alone = ground (arith, i.count, i.alone, i.first);
      first = ground (arith, i.count, i.alone, i.first);
    })

must_wait-Exclusive :
    (m : Bool) (o : Option ℕ) (c : ℕ) (k : ReadWriteLock) (n t : ℕ) (v w : Option ℕ)
    → Exclusive (record { read_mtx = m; write_mtx = o; read_cnt = c }) n v w
    → read_lock t (record { read_mtx = m; write_mtx = o; read_cnt = c }) ≡ waits k
    → Exclusive k n (some t) w
unfolding read_lock
must_wait-Exclusive true o c k n t v w i e = absurd (ground arith)
must_wait-Exclusive false o c k n t (some x) w i e = absurd (ground (arith, i.gate))
must_wait-Exclusive false none zero k n t none w i e = absurd (ground arith)
must_wait-Exclusive false o (suc c) k n t none w i e = absurd (ground arith)
must_wait-Exclusive false (some x) zero k n t none w i e =
    let q : record { read_mtx = true; write_mtx = some x; read_cnt = 1 } ≡ k = ground arith in
    rw (← q) (record {
      count = ground (arith, i.count, i.alone, i.first);
      gate = refl;
      alone = ground (arith, i.count, i.alone, i.first);
      first = ground (arith, i.count, i.alone, i.first);
    })

read_lock_on-Exclusive :
    (m : Bool) (o : Option ℕ) (c : ℕ) (k : ReadWriteLock) (n t : ℕ) (w : Option ℕ)
    → Exclusive (record { read_mtx = m; write_mtx = o; read_cnt = c }) n (some t) w
    → read_lock_on t (record { read_mtx = m; write_mtx = o; read_cnt = c }) ≡ returns k
    → Exclusive k (n + 1) none w
unfolding read_lock_on
read_lock_on-Exclusive m (some x) c k n t w i e = absurd (ground arith)
read_lock_on-Exclusive m none c k n t w i e =
    let q : record { read_mtx = false; write_mtx = some t; read_cnt = c } ≡ k = ground arith in
    rw (← q) (record {
      count = ground (arith, i.count, i.alone, i.first);
      gate = refl;
      alone = ground (arith, i.count, i.alone, i.first);
      first = ground (arith, i.count, i.alone, i.first);
    })

read_unlock-Exclusive :
    (m : Bool) (o : Option ℕ) (c : ℕ) (k : ReadWriteLock) (n t : ℕ) (v w : Option ℕ)
    → Exclusive (record { read_mtx = m; write_mtx = o; read_cnt = c }) (n + 1) v w
    → read_unlock t (record { read_mtx = m; write_mtx = o; read_cnt = c }) ≡ returns k
    → Exclusive k n v w
unfolding read_unlock
read_unlock-Exclusive true o c k n t v w i e = absurd (ground arith)
read_unlock-Exclusive false o c k n t (some x) w i e = absurd (ground (arith, i.gate))
read_unlock-Exclusive false none c k n t none w i e = absurd (ground (arith, i.alone))
read_unlock-Exclusive false (some x) c k n t none w i e = elim (Bool-cases (c - 1 == 0)) [
  | inl last ↦
      let q : record { read_mtx = false; write_mtx = none; read_cnt = c - 1 } ≡ k = ground arith in
      rw (← q) (record {
        count = ground (arith, i.count, i.alone, i.first);
        gate = refl;
        alone = ground (arith, i.count, i.alone, i.first);
        first = ground (arith, i.count, i.alone, i.first);
      })
  | inr more ↦
      let q : record { read_mtx = false; write_mtx = some x; read_cnt = c - 1 } ≡ k =
        ground arith in
      rw (← q) (record {
        count = ground (arith, i.count, i.alone, i.first);
        gate = refl;
        alone = ground (arith, i.count, i.alone, i.first);
        first = ground (arith, i.count, i.alone, i.first);
      })
]

write_lock-Exclusive :
    (m : Bool) (o : Option ℕ) (c : ℕ) (k : ReadWriteLock) (n t : ℕ) (v w : Option ℕ)
    → Exclusive (record { read_mtx = m; write_mtx = o; read_cnt = c }) n v w
    → write_lock t (record { read_mtx = m; write_mtx = o; read_cnt = c }) ≡ returns k
    → Exclusive k n v (some t)
unfolding write_lock
write_lock-Exclusive m (some x) c k n t v w i e = absurd (ground arith)
write_lock-Exclusive m none c k n t v w i e =
    let q : record { read_mtx = m; write_mtx = some t; read_cnt = c } ≡ k = ground arith in
    rw (← q) (record {
      count = ground (arith, i.count, i.alone, i.first);
      gate = i.gate;
      alone = ground (arith, i.count, i.alone, i.first);
      first = ground (arith, i.count, i.alone, i.first);
    })

write_unlock-Exclusive :
    (m : Bool) (o : Option ℕ) (c : ℕ) (k : ReadWriteLock) (n t : ℕ) (v : Option ℕ)
    → Exclusive (record { read_mtx = m; write_mtx = o; read_cnt = c }) n v (some t)
    → write_unlock t (record { read_mtx = m; write_mtx = o; read_cnt = c }) ≡ returns k
    → Exclusive k n v none
unfolding write_unlock
write_unlock-Exclusive m none c k n t v i e = absurd (ground arith)
write_unlock-Exclusive m (some x) c k n t v i e =
    let q : record { read_mtx = m; write_mtx = none; read_cnt = c } ≡ k = ground arith in
    rw (← q) (record {
      count = ground (arith, i.count, i.alone, i.first);
      gate = i.gate;
      alone = ground (arith, i.count, i.alone, i.first);
      first = ground (arith, i.count, i.alone, i.first);
    })

-- After any sequence of calls of any threads that returned or wait: while a thread reads, none
-- writes, and `write_mtx` is held just while one reads or writes; `read_mtx` is held just while a
-- thread waits for the writer, which it does before any other reads; and the count is the number of
-- those who read or wait.
pub Reach-Exclusive :
    (l : ReadWriteLock) (n : ℕ) (v w : Option ℕ) → Reach l n v w → Exclusive l n v w
unfolding new_lock
Reach-Exclusive _ _ _ _ start = record { count = refl; gate = refl; alone = refl; first = refl }
Reach-Exclusive _ _ _ _ (reads l k n t v w r e) =
    read_lock-Exclusive l.read_mtx l.write_mtx l.read_cnt k n t v w (Reach-Exclusive l n v w r) e
Reach-Exclusive _ _ _ _ (must_wait l k n t v w r e) =
    must_wait-Exclusive l.read_mtx l.write_mtx l.read_cnt k n t v w (Reach-Exclusive l n v w r) e
Reach-Exclusive _ _ _ _ (goes_on l k n t w r e) =
    read_lock_on-Exclusive l.read_mtx l.write_mtx l.read_cnt k n t w
      (Reach-Exclusive l n (some t) w r) e
Reach-Exclusive _ _ _ _ (has_read l k n t v w r e) =
    read_unlock-Exclusive l.read_mtx l.write_mtx l.read_cnt k n t v w
      (Reach-Exclusive l (n + 1) v w r) e
Reach-Exclusive _ _ _ _ (writes l k n t v w r e) =
    write_lock-Exclusive l.read_mtx l.write_mtx l.read_cnt k n t v w (Reach-Exclusive l n v w r) e
Reach-Exclusive _ _ _ _ (has_written l k n t v r e) =
    write_unlock-Exclusive l.read_mtx l.write_mtx l.read_cnt k n t v
      (Reach-Exclusive l n v (some t) r) e

-- Two threads lock for reading one after the other, and the one that came first unlocks. Each call
-- returns. The unlock of the other is then a fault, as `write_mtx` is locked by the first.
pub read_unlock-faults :
    (a b : ℕ)
    → (a == b) ≡ false
    → (one two left : ReadWriteLock) × (read_lock a new_lock ≡ returns one)
      × (read_lock b one ≡ returns two)
      × (read_unlock a two ≡ returns left)
      × (left.write_mtx ≡ some a)
      × (read_unlock b left ≡ faults)
unfolding new_lock read_lock read_unlock
read_unlock-faults a b d =
    let one : ReadWriteLock = record { read_mtx = false; write_mtx = some a; read_cnt = 1 } in
    (one, record one { read_cnt = 2 }, one, refl, refl, refl, refl, rw (d) refl)
