-- ===== src/Base/RwLocker/Tests.antt =====
-- base/rw_locker.h: a reader, a writer that has to wait, and the theorems at them.
use sails.Prelude.{◌≡◌, refl, true, false, none, some}
use sails.Base.RwLocker.{
  ReadWriteLock, returns, blocked, waits, faults, new_lock, read_lock, read_unlock, read, write,
  acquire, release,
}
use sails.Base.RwLocker.Exclusion.{
  Reach, start, reads, Exclusive, Reach-Exclusive, read_unlock-faults,
}

abbrev one_reader : ReadWriteLock
one_reader = record { read_mtx = false; write_mtx = some 7; read_cnt = 1 }

reader-Reach : Reach one_reader 1 none none
unfolding read_lock new_lock
reader-Reach = reads new_lock one_reader 0 7 none none start refl

Reach-Exclusive_example : Exclusive one_reader 1 none none
Reach-Exclusive_example = Reach-Exclusive one_reader 1 none none reader-Reach

read_unlock-faults_example :
    (one two left : ReadWriteLock) × (read_lock 1 new_lock ≡ returns one)
    × (read_lock 2 one ≡ returns two)
    × (read_unlock 1 two ≡ returns left)
    × (left.write_mtx ≡ some 1)
    × (read_unlock 2 left ≡ faults)
read_unlock-faults_example = read_unlock-faults 1 2 refl

writer_waits : acquire write 8 one_reader ≡ blocked
unfolding acquire
writer_waits = refl

-- A reader that comes while one writes waits with `read_mtx` in its hands.
reader_waits :
    acquire read 8 (record { read_mtx = false; write_mtx = some 7; read_cnt = 0 })
    ≡ waits (record { read_mtx = true; write_mtx = some 7; read_cnt = 1 })
unfolding acquire read_lock
reader_waits = refl

reader_leaves :
    release read 7 one_reader
    ≡ returns (record { read_mtx = false; write_mtx = none; read_cnt = 0 })
unfolding release read_unlock
reader_leaves = refl
