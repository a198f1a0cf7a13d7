-- ===== src/Mutex/Tests.antt =====
-- The operations of mutex.c on small tables, and the theorems about them at concrete histories.
use os163_assi.Prelude.{◌+◌, ◌≡◌, refl, some, List, [], ◌∷◌, arith, get_elem?}
use os163_assi.Mutex.{
  MxTable, locked, unlocked, find_id, find_free, alloc, dealloc, lock, lock_try, unlock, panics,
}
use os163_assi.Mutex.System.{
  waiting, System, Event, quiet, acquired, allocates, deallocates, lock_gets, lock_waits,
  retry_gets, unlocks, wakes, boot, Reach, start, later, acquisitions, releases,
}
use os163_assi.Mutex.Balance.{outstanding, mutual_exclusion}
use os163_assi.Mutex.Wakeup.{Attended, no_lost_wakeup}

-- Thread 1 allocates the mutex 1 and takes it; thread 2 asks for it and sleeps on slot 0.
abbrev history : List Event
history = quiet ∷ acquired 0 ∷ quiet ∷ []

contended : (s : System) × Reach history s × (s.pc 2 ≡ waiting 0)
unfolding find_id find_free alloc lock lock_try
contended = (
  _,
  later (later (later start (allocates 1 refl)) (lock_gets 1 1 0 _ (omega arith) refl refl refl))
      (lock_waits 2 1 0 (omega arith) refl refl),
  refl,
)

mutual_exclusion_example :
    acquisitions 0 history ≡ releases 0 history + outstanding 0 contended.0.table
mutual_exclusion_example = mutual_exclusion 0 contended.1 refl

no_lost_wakeup_example : Attended contended.0 0
no_lost_wakeup_example = no_lost_wakeup 2 0 contended.1 refl refl contended.2

-- Thread 1 goes on to unlock the mutex and to free it before it wakes thread 2, which then takes
-- the freed slot: it is locked under the identifier 0.
stale_lock :
    (es : List Event) × (s : System) × Reach es s
    × (get_elem? s.table.mutex 0 ≡ some (record { state = locked; mxid = 0; owner = 2 }))
unfolding contended unlock dealloc
stale_lock = (
  _,
  _,
  later
      (later (later (later contended.1 (unlocks 1 1 0 (omega arith) refl refl)) (wakes 1 0 refl))
        (deallocates 1 1 refl))
      (retry_gets 2 0 (omega arith) refl refl),
  refl,
)

abbrev boot_table : MxTable
boot_table = boot.table

-- A lock of the identifier 0 finds a free slot and panics; an unlock of it leaks the slot.
lock_zero : (lock 1 0 boot_table).0 ≡ panics
unfolding find_id lock
lock_zero = refl

unlock_zero :
    get_elem? (unlock 0 boot_table).2.mutex 0
    ≡ some (record { state = unlocked; mxid = 0; owner = 0 })
unfolding find_id unlock
unlock_zero = refl
