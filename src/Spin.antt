-- ===== src/Spin.antt =====
-- spinlock.c: `pushcli` and `popcli`, and the spinlocks that stand on them. The call stack that a lock
-- records for debugging is not modelled. `ncli` counts nested calls, far below 2 ^ 31.
pub mod Nested
pub mod Lock
mod Tests
use os163_assi.Prelude.{
  ℕ, zero, suc, ◌+◌, ◌-◌, Bool, true, false, not, ◌&&◌, Option, none, some, List, [], ◌∷◌,
  if◌then◌else◌, ◌==◌,
}
use os163_assi.Kalloc.{Run, done, panicked}

-- The fields of `struct cpu`, with the interrupt flag of its `eflags`
pub record Cpu : Type 0 where
  pub flag_if : Bool
  pub ncli : ℕ
  pub intena : Bool

pub pushcli : Cpu → Cpu
pushcli c = record {
  flag_if = false;
  ncli = c.ncli + 1;
  intena = if c.ncli == 0 then c.flag_if else c.intena;
}

pub popcli : Cpu → Run Cpu (Unit {0})
popcli c =
    if c.flag_if
    then panicked
    else if c.ncli == 0
    then panicked
    else done tt (record c { ncli = c.ncli - 1; flag_if = (c.ncli - 1 == 0) && c.intena })

-- `struct spinlock`; a processor is its number, and none is a null pointer.
pub record Spinlock : Type 0 where
  pub locked : Bool
  pub cpu : Option ℕ

pub initlock : Spinlock
initlock = record { locked = false; cpu = none }

is_cpu : ℕ → Option ℕ → Bool
is_cpu me none = false
is_cpu me (some k) = k == me

pub holding : ℕ → Spinlock → Bool
unfolding is_cpu
holding me lk = lk.locked && is_cpu me lk.cpu

-- A try of `acquire` by the processor `me`: it panics, it has the lock, or the lock is taken and it
-- tries the `xchg` again, with the interrupts off.
pub data Acquired : Type 0 where
  acquired : Spinlock → Cpu → Acquired
  spinning : Cpu → Acquired
  acquire_panics : Acquired

pub acquire : ℕ → Spinlock → Cpu → Acquired
unfolding pushcli holding
acquire me lk c =
    if holding me lk
    then acquire_panics
    else if lk.locked
    then spinning (pushcli c)
    else acquired (record { locked = true; cpu = some me }) (pushcli c)

pub release : ℕ → Spinlock → Cpu → Run Cpu Spinlock
unfolding popcli holding
release me lk c = if not (holding me lk) then panicked else elim (popcli c) [
  | panicked ↦ panicked
  | done _ c' ↦ done (record { locked = false; cpu = none }) c'
]
