-- ===== src/Base/RwLocker.antt =====
-- base/rw_locker.h: a lock for many readers or one writer, made of two mutexes and a count.
--
-- What a thread does while it holds `read_mtx` is one step, apart from the wait for `write_mtx` in
-- `readLock`. A mutex knows the thread that locked it: it is a fault that another unlocks it.
pub mod Exclusion
mod Tests
use sails.Prelude.{ℕ, ◌+◌, ◌-◌, Bool, true, false, Option, none, some, ◌==◌, if◌then◌else◌}

-- `write_mtx` is the thread that holds it.
pub record ReadWriteLock : Type 0 where
  pub read_mtx : Bool
  pub write_mtx : Option ℕ
  pub read_cnt : ℕ

-- A call returns, is at a mutex that another thread holds, waits for `write_mtx` with `read_mtx`
-- in its hands, or is a fault.
pub data Outcome : Type 0 where
  returns : ReadWriteLock → Outcome
  blocked : Outcome
  waits : ReadWriteLock → Outcome
  faults : Outcome

unfoldable pub new_lock : ReadWriteLock
new_lock = record { read_mtx = false; write_mtx = none; read_cnt = 0 }

-- The first reader takes `write_mtx`.
abbrev pub first_reader : ℕ → ReadWriteLock → Option ℕ → Outcome
first_reader t l none = returns (record l { write_mtx = some t; read_cnt = 1 })
first_reader t l (some owner) = waits (record l { read_mtx = true; read_cnt = 1 })

unfoldable pub read_lock : ℕ → ReadWriteLock → Outcome
read_lock t l =
    if l.read_mtx
    then blocked
    else if l.read_cnt == 0
    then first_reader t l l.write_mtx
    else returns (record l { read_cnt = l.read_cnt + 1 })

abbrev pub after_wait : ℕ → ReadWriteLock → Option ℕ → Outcome
after_wait t l none = returns (record l { read_mtx = false; write_mtx = some t })
after_wait t l (some owner) = blocked

-- `readLock` of the thread that waits, once `write_mtx` may be free.
unfoldable pub read_lock_on : ℕ → ReadWriteLock → Outcome
read_lock_on t l = after_wait t l l.write_mtx

abbrev pub unlock : ℕ → ReadWriteLock → Option ℕ → Outcome
unlock t l none = faults
unlock t l (some owner) = if owner == t then returns (record l { write_mtx = none }) else faults

-- A thread that reads unlocks, so the count is above 0.
unfoldable pub read_unlock : ℕ → ReadWriteLock → Outcome
read_unlock t l =
    if l.read_mtx
    then blocked
    else if l.read_cnt - 1 == 0
    then unlock t (record l { read_cnt = l.read_cnt - 1 }) l.write_mtx
    else returns (record l { read_cnt = l.read_cnt - 1 })

abbrev pub take_write : ℕ → ReadWriteLock → Option ℕ → Outcome
take_write t l none = returns (record l { write_mtx = some t })
take_write t l (some owner) = blocked

unfoldable pub write_lock : ℕ → ReadWriteLock → Outcome
write_lock t l = take_write t l l.write_mtx

unfoldable pub write_unlock : ℕ → ReadWriteLock → Outcome
write_unlock t l = unlock t l l.write_mtx

-- `RWLocker`, whose constructor locks and whose destructor unlocks.
pub data LockerType : Type 0 where
  read write : LockerType

unfoldable pub acquire : LockerType → ℕ → ReadWriteLock → Outcome
unfolding read_lock write_lock
acquire read t l = read_lock t l
acquire write t l = write_lock t l

unfoldable pub release : LockerType → ℕ → ReadWriteLock → Outcome
unfolding read_unlock write_unlock
release read t l = read_unlock t l
release write t l = write_unlock t l
