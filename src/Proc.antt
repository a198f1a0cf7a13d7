-- ===== src/Proc.antt =====
-- proc.c and kthread.c: the table of processes, each with its kernel threads. A process is named by
-- its place in `ptable.proc`, a thread by its process and its place in `pthreads`. `ptable.lock` and
-- `proc->lock` are taken with interrupts off, so that on one CPU each function is one step, up to a
-- `sleep`. User memory, open files and saved registers belong to other components: the page
-- directory is its address, and what `kalloc`, `copyuvm` and `cow_shareuvm` return is given.
pub mod Calls
pub mod Inv
pub mod Keeps
pub mod Forks
pub mod Exits
pub mod Waits
pub mod Threads
pub mod System
pub mod Reaping
pub mod Exec
mod Tests
use os163_assi.Prelude.{
  ℕ, zero, suc, ◌+◌, Bool, true, false, not, ◌&&◌, ◌||◌, Option, none, some, List, [], ◌∷◌,
  if◌then◌else◌, ◌==◌, update, find_first, minus_one, add32,
}

-- `enum procstate`
pub data ProcState : Type 0 where
  unused embryo sleeping runnable running zombie : ProcState

-- What a thread sleeps on: the address of a process, of a thread, or of something else.
pub data Chan : Type 0 where
  no_chan : Chan
  proc_chan : ℕ → Chan
  thread_chan : ℕ → ℕ → Chan
  other_chan : ℕ → Chan

-- `struct thread`
pub record Thread : Type 0 where
  pub state : ProcState
  pub tid : ℕ
  pub kstack : ℕ
  pub chan : Chan

-- `struct proc`
pub record Process : Type 0 where
  pub state : ProcState
  pub pid : ℕ
  pub parent : Option ℕ
  pub pgdir : ℕ
  pub sz : ℕ
  pub killed : Bool
  pub executed : Bool
  pub threads : ℕ → Thread

-- `ptable`, `initproc`, `nextpid` and `nexttid`
pub record Table : Type 0 where
  pub proc : ℕ → Process
  pub initproc : ℕ
  pub nextpid : ℕ
  pub nexttid : ℕ

abbrev pub nproc : ℕ
nproc = 64

abbrev pub nthread : ℕ
nthread = 16

abbrev pub is_unused : ProcState → Bool
is_unused unused = true
is_unused _ = false

abbrev pub is_sleeping : ProcState → Bool
is_sleeping sleeping = true
is_sleeping _ = false

abbrev pub is_zombie : ProcState → Bool
is_zombie zombie = true
is_zombie _ = false

abbrev pub same_chan : Chan → Chan → Bool
same_chan no_chan no_chan = true
same_chan (proc_chan p) (proc_chan q) = p == q
same_chan (thread_chan p i) (thread_chan q j) = p == q && i == j
same_chan (other_chan a) (other_chan b) = a == b
same_chan _ _ = false

-- Assignments to one process, and to one thread.
abbrev pub set_proc : Table → ℕ → Process → Table
set_proc t p pr = record t { proc = update t.proc p pr }

abbrev pub set_thread : Table → ℕ → ℕ → Thread → Table
set_thread t p i th = set_proc t p (record (t.proc p) { threads = update (t.proc p).threads i th })

-- `wakeup1`, for one thread and for the table
pub wake : Chan → Thread → Thread
wake c th =
    if is_sleeping th.state && same_chan th.chan c then record th { state = runnable } else th

pub wakeup1 : Chan → Table → Table
unfolding wake
wakeup1 c t = record t {
  proc = λ p. record (t.proc p) { threads = λ i. wake c ((t.proc p).threads i) };
}

-- `wakeup2` wakes threads of the current process only. Its loop runs on behind the array; what it
-- finds there is not part of the table.
pub wakeup2 : ℕ → Chan → Table → Table
unfolding wake
wakeup2 p c t = set_proc t p (record (t.proc p) { threads = λ i. wake c ((t.proc p).threads i) })

-- `allocthread`: the place of the new thread. `stack` is what `kalloc` returns.
thread_with : ℕ → ℕ → Option ℕ → Table → Option ℕ × Table
thread_with p i none t = (
  none,
  record (set_thread t p i (record ((t.proc p).threads i) { state = unused; tid = t.nexttid })) {
    nexttid = add32 t.nexttid 1;
  },
)
thread_with p i (some v) t = (
  some i,
  record (set_thread t p i
      (record ((t.proc p).threads i) { state = embryo; tid = t.nexttid; kstack = v })) {
        nexttid = add32 t.nexttid 1;
      },
)

thread_at : ℕ → Option ℕ → Option ℕ → Table → Option ℕ × Table
unfolding thread_with
thread_at p stack none t = (none, t)
thread_at p stack (some i) t = thread_with p i stack t

pub allocthread : ℕ → Option ℕ → Table → Option ℕ × Table
unfolding thread_at
allocthread p stack t =
    thread_at p stack (find_first (λ i. is_unused ((t.proc p).threads i).state) nthread 0) t

-- `kthread_create` in the process `p`: the new thread's identifier
pub created : ℕ → Option ℕ × Table → ℕ × Table
created p (none, t) = (minus_one, t)
created p (some i, t) = (
  ((t.proc p).threads i).tid,
  set_thread t p i (record ((t.proc p).threads i) { state = runnable }),
)

pub kthread_create : ℕ → Option ℕ → Table → ℕ × Table
unfolding created
kthread_create p stack t = created p (allocthread p stack t)

-- `allocproc`: the place of the new process and of its thread
proc_at : Option ℕ → Option ℕ → Table → Option (ℕ × ℕ) × Table
proc_at stack none t = (none, t)
proc_at stack (some p) t =
    let fresh =
      record (set_proc t p (record (t.proc p) {
        state = embryo;
        pid = t.nextpid;
        executed = false;
        threads = λ i. record ((t.proc p).threads i) { state = unused };
      })) { nextpid = add32 t.nextpid 1 } in
    let (found, t') = allocthread p stack fresh in
    elim found [ none ↦ (none, t') | some i ↦ (some (p, i), t') ]

pub allocproc : Option ℕ → Table → Option (ℕ × ℕ) × Table
unfolding proc_at
allocproc stack t = proc_at stack (find_first (λ p. is_unused (t.proc p).state) nproc 0) t
