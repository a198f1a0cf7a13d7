-- ===== src/Mutex.antt =====
-- mutex.c and mutex.h: the table of kernel mutexes that the threads of a process synchronise by.
-- Every operation runs under `mxtable.lock` and is a function of the table; the waiting loop of
-- `kthread_mutex_lock` is `lock_try`, which runs once for each pass of the loop.
pub mod System
pub mod Slot
pub mod Effect
pub mod Balance
pub mod Wakeup
mod Tests
use os163_assi.Prelude.{
  ℕ, zero, suc, Bool, true, false, Option, none, some, List, [], ◌∷◌, if◌then◌else◌, ◌==◌,
  get_elem?, set, minus_one, add32,
}

-- `enum mxstate`
pub data MxState : Type 0 where
  free locked unlocked : MxState

-- `kthread_mutex_t`. `owner` is the address of a thread, 0 for none.
pub record Mutex : Type 0 where
  pub state : MxState
  pub mxid : ℕ
  pub owner : ℕ

-- `mxtable` with the counter `nextmxid`
pub record MxTable : Type 0 where
  pub mutex : List Mutex
  pub nextmxid : ℕ

abbrev pub max_mutexes : ℕ
max_mutexes = 64

abbrev pub is_free : MxState → Bool
is_free free = true
is_free _ = false

abbrev pub is_locked : MxState → Bool
is_locked locked = true
is_locked _ = false

abbrev pub is_unlocked : MxState → Bool
is_unlocked unlocked = true
is_unlocked _ = false

-- The first entry that passes the test, with its index: the `for … goto found` of each operation.
pub find_from : (Mutex → Bool) → List Mutex → ℕ → Option (ℕ × Mutex)
find_from test [] i = none
find_from test (mx ∷ rest) i = if test mx then some (i, mx) else find_from test rest (suc i)

pub find_free : List Mutex → Option (ℕ × Mutex)
unfolding find_from
find_free mxs = find_from (λ mx. is_free mx.state) mxs 0

pub find_id : ℕ → List Mutex → Option (ℕ × Mutex)
unfolding find_from
find_id mutex_id mxs = find_from (λ mx. mx.mxid == mutex_id) mxs 0

-- `*mx = …` at an index of the table.
abbrev pub put : MxTable → ℕ → Mutex → MxTable
put t i mx = record t { mutex = set t.mutex i mx }

alloc_found : MxTable → Option (ℕ × Mutex) → ℕ × MxTable
alloc_found t none = (minus_one, t)
alloc_found t (some (i, mx)) = (
  t.nextmxid,
  record {
    mutex = set t.mutex i (record { state = unlocked; mxid = t.nextmxid; owner = 0 });
    nextmxid = add32 t.nextmxid 1;
  },
)

-- `kthread_mutex_alloc`
pub alloc : MxTable → ℕ × MxTable
unfolding alloc_found
alloc t = alloc_found t (find_free t.mutex)

abbrev pub freed : Mutex
freed = record { state = free; mxid = 0; owner = 0 }

dealloc_found : MxTable → Option (ℕ × Mutex) → ℕ × MxTable
dealloc_found t none = (minus_one, t)
dealloc_found t (some (i, mx)) = if is_locked mx.state then (minus_one, t) else (0, put t i freed)

-- `kthread_mutex_dealloc`
pub dealloc : ℕ → MxTable → ℕ × MxTable
unfolding dealloc_found
dealloc mutex_id t = dealloc_found t (find_id mutex_id t.mutex)

-- How a pass through the kernel ends for the thread that makes it.
pub data Outcome : Type 0 where
  returns : ℕ → Outcome
  sleeps : ℕ → Outcome  -- in `sleep(mx, &mxtable.lock)`, on the slot's address
  panics : Outcome

try_at : ℕ → ℕ → MxTable → Option Mutex → Outcome × MxTable
try_at thread i t none = (panics, t)
try_at thread i t (some mx) =
    if is_locked mx.state
    then (sleeps i, put t i (record mx { state = locked }))
    else (returns 0, put t i (record mx { state = locked; owner = thread }))

-- One pass of `while(xchg(&mx->state, LOCKED) == LOCKED) sleep(mx, …); mx->owner = thread;` at slot
-- `i`. The exchange writes `LOCKED` whatever it finds.
pub lock_try : ℕ → ℕ → MxTable → Outcome × MxTable
unfolding try_at
lock_try thread i t = try_at thread i t (get_elem? t.mutex i)

lock_found : ℕ → MxTable → Option (ℕ × Mutex) → Outcome × MxTable
lock_found thread t none = (returns minus_one, t)
lock_found thread t (some (i, mx)) = if is_free mx.state then (panics, t) else lock_try thread i t

-- `kthread_mutex_lock`, up to its return or its first `sleep`
pub lock : ℕ → ℕ → MxTable → Outcome × MxTable
unfolding lock_found
lock thread mutex_id t = lock_found thread t (find_id mutex_id t.mutex)

unlock_found : MxTable → Option (ℕ × Mutex) → ℕ × Option ℕ × MxTable
unlock_found t none = (minus_one, none, t)
unlock_found t (some (i, mx)) =
    if is_unlocked mx.state
    then (minus_one, none, t)
    else (0, some i, put t i (record mx { state = unlocked; owner = 0 }))

-- `kthread_mutex_unlock` up to its `wakeup(mx)`: the value it will return, and the slot to wake.
pub unlock : ℕ → MxTable → ℕ × Option ℕ × MxTable
unfolding unlock_found
unlock mutex_id t = unlock_found t (find_id mutex_id t.mutex)
