-- ===== src/Mutex/System.antt =====
-- The threads that use the mutex table, interleaved. A step is what one thread does while it holds
-- `mxtable.lock`, so that no two operations overlap; between steps the threads run in any order.
use os163_assi.Prelude.{
  ℕ, ◌+◌, ◌≡◌, ◌≢◌, Bool, true, false, none, some, List, [], ◌∷◌, if◌then◌else◌, ◌==◌, update,
  replicate,
}
use os163_assi.Mutex.{
  Mutex, MxTable, max_mutexes, freed, find_id, alloc, dealloc, lock, lock_try, unlock, returns,
  sleeps,
}

-- Where a thread stands: out of the operations, asleep on a slot's address, woken and about to
-- repeat the exchange, at the `wakeup(mx)` that ends `kthread_mutex_unlock`, or ended by `exit`.
pub data Pc : Type 0 where
  running : Pc
  waiting : ℕ → Pc
  retrying : ℕ → Pc
  waking : ℕ → Pc
  ended : Pc

pub record System : Type 0 where
  pub table : MxTable
  pub pc : ℕ → Pc

-- What a step means for the users of a slot; `unlocked_zero` is an unlock of the identifier 0, which
-- finds a slot that no mutex has, and `cut_short` is the end of a thread right before its `wakeup`.
pub data Event : Type 0 where
  quiet : Event
  acquired : ℕ → Event
  released : ℕ → Event
  unlocked_zero : Event
  cut_short : Event

-- `wakeup(mx)`: every thread that sleeps on the slot runs again.
abbrev pub wake : ℕ → Pc → Pc
wake k (waiting j) = if j == k then retrying j else waiting j
wake k p = p

-- A thread is named by its address, which is not 0. The constructors say where it stands before and
-- after, and which operation it made of the table. A panic halts the machine: no step follows.
pub data Step (s : System) : Event → System → Type 0 where
  allocates : (i : ℕ) → s.pc i ≡ running → Step s quiet (record s { table = (alloc s.table).1 })
  deallocates :
      (i mutex_id : ℕ)
      → s.pc i ≡ running
      → Step s quiet (record s { table = (dealloc mutex_id s.table).1 })
  lock_fails :
      (i mutex_id : ℕ)
      → s.pc i ≡ running
      → find_id mutex_id s.table.mutex ≡ none
      → Step s quiet (record s { table = (lock i mutex_id s.table).1 })
  lock_gets :
      (i mutex_id k : ℕ) (mx : Mutex)
      → i ≢ 0
      → s.pc i ≡ running
      → find_id mutex_id s.table.mutex ≡ some (k, mx)
      → (lock i mutex_id s.table).0 ≡ returns 0
      → Step s (acquired k) (record s { table = (lock i mutex_id s.table).1 })
  lock_waits :
      (i mutex_id k : ℕ)
      → i ≢ 0
      → s.pc i ≡ running
      → (lock i mutex_id s.table).0 ≡ sleeps k
      → Step s quiet
          (record { table = (lock i mutex_id s.table).1; pc = update s.pc i (waiting k) })
  retry_gets :
      (i k : ℕ)
      → i ≢ 0
      → s.pc i ≡ retrying k
      → (lock_try i k s.table).0 ≡ returns 0
      → Step s
          (acquired k)
          (record { table = (lock_try i k s.table).1; pc = update s.pc i running })
  retry_waits :
      (i k j : ℕ)
      → i ≢ 0
      → s.pc i ≡ retrying k
      → (lock_try i k s.table).0 ≡ sleeps j
      → Step s quiet (record { table = (lock_try i k s.table).1; pc = update s.pc i (waiting j) })
  unlock_fails :
      (i mutex_id : ℕ)
      → s.pc i ≡ running
      → (unlock mutex_id s.table).1 ≡ none
      → Step s quiet (record s { table = (unlock mutex_id s.table).2 })
  unlocks :
      (i mutex_id k : ℕ)
      → mutex_id ≢ 0
      → s.pc i ≡ running
      → (unlock mutex_id s.table).1 ≡ some k
      → Step s
          (released k)
          (record { table = (unlock mutex_id s.table).2; pc = update s.pc i (waking k) })
  unlocks_zero :
      (i k : ℕ)
      → s.pc i ≡ running
      → (unlock 0 s.table).1 ≡ some k
      → Step s unlocked_zero
          (record { table = (unlock 0 s.table).2; pc = update s.pc i (waking k) })
  ends :
      (i : ℕ) → ((k : ℕ) → s.pc i ≢ waking k) → Step s quiet (record s { pc = update s.pc i ended })
  ends_waking :
      (i k : ℕ) → s.pc i ≡ waking k → Step s cut_short (record s { pc = update s.pc i ended })
  wakes :
      (i k : ℕ)
      → s.pc i ≡ waking k
      → Step s quiet (record s { pc = λ j. wake k (update s.pc i running j) })

-- `mxtable` after boot: zeroed storage, and the first identifier is 1.
abbrev pub boot : System
boot = record {
  table = record { mutex = replicate max_mutexes freed; nextmxid = 1 };
  pc = λ i. running;
}

-- The states that the threads can reach, each with the events so far, the latest first.
pub data Reach : List Event → System → Type 0 where
  start : Reach [] boot
  later : {es : List Event} {e : Event} {s t : System} → Reach es s → Step s e t → Reach (e ∷ es) t

-- How often a slot was acquired, and how often it was released.
abbrev pub acquisitions : ℕ → List Event → ℕ
acquisitions k [] = 0
acquisitions k (acquired j ∷ es) = (if j == k then 1 else 0) + acquisitions k es
acquisitions k (_ ∷ es) = acquisitions k es

abbrev pub releases : ℕ → List Event → ℕ
releases k [] = 0
releases k (released j ∷ es) = (if j == k then 1 else 0) + releases k es
releases k (_ ∷ es) = releases k es

-- No event of the history is of the named kind.
abbrev pub never_zero : List Event → Bool
never_zero [] = true
never_zero (unlocked_zero ∷ es) = false
never_zero (_ ∷ es) = never_zero es

abbrev pub never_cut : List Event → Bool
never_cut [] = true
never_cut (cut_short ∷ es) = false
never_cut (_ ∷ es) = never_cut es
