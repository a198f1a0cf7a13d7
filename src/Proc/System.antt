-- ===== src/Proc/System.antt =====
-- proc.c and kthread.c: all histories of the table of processes on one CPU.
use os163_assi.Prelude.{
  ℕ, ◌≡◌, ◌≢◌, ◌<◌, true, false, Option, none, some, ◌==◌, update, arith, refl, Option-cases, inl,
  inr, find_first,
}
use os163_assi.Proc.{
  unused, sleeping, runnable, running, zombie, no_chan, proc_chan, other_chan, thread_chan, Thread,
  Process, Table, nproc, nthread, wakeup1, kthread_create, created, allocthread,
}
use os163_assi.Proc.Calls.{
  fork, cow_fork, exit, wait, cow_wait, sleep, sleep_ends, kill, yield, schedule, kthread_exit,
  join_again, kthread_join, gone,
}
use os163_assi.Proc.Inv.{is_runnable, sleeps_on, Inv, set_thread-Inv, wakeup1-Inv, same_chan_refl}
use os163_assi.Proc.Keeps.{allocthread-Inv, Alloced}
use os163_assi.Proc.Forks.{fork-Inv, cow_fork-Inv}
use os163_assi.Proc.Exits.{exit-Inv}
use os163_assi.Proc.Waits.{Leaves, wait-Inv}
use os163_assi.Proc.Threads.{
  set_thread-Inv_awake, kthread_exit-Inv, kthread_join-Inv, join_again-Inv,
}

-- The thread `i` of the process `p` has the CPU.
abbrev pub Runs : Table → ℕ → ℕ → Type 0
Runs t p i = (i < nthread) × (((t.proc p).threads i).state ≡ running)

-- What a running thread does under `ptable.lock` or `proc->lock`, and what the scheduler does. A
-- panic halts the machine. `exec` is left out: a thread in `wait_before_exec` sleeps on its process.
pub data Step (t : Table) : Table → Type 0 where
  forks : (p i : ℕ) (stack pgdir : Option ℕ) → Runs t p i → Step t (fork p stack pgdir t).1
  cow_forks : (p i : ℕ) (stack pgdir : Option ℕ) → Runs t p i → Step t (cow_fork p stack pgdir t).1
  exits : (p i : ℕ) {t' : Table} → Runs t p i → exit p t ≡ gone t' → Step t t'
  waits : (p i : ℕ) {t' : Table} → Runs t p i → Leaves (wait p i t) t' → Step t t'
  cow_waits : (p i : ℕ) {t' : Table} → Runs t p i → Leaves (cow_wait p i t) t' → Step t t'
  kills : (p i pid : ℕ) → Runs t p i → Step t (kill pid t).1
  yields : (p i : ℕ) → Runs t p i → Step t (yield p i t)
  schedules :
      (p i : ℕ) → i < nthread → ((t.proc p).threads i).state ≡ runnable → Step t (schedule p i t)
  sleeps_elsewhere : (p i a : ℕ) → Runs t p i → Step t (sleep p i (other_chan a) t)
  wakes_elsewhere : (p i a : ℕ) → Runs t p i → Step t (wakeup1 (other_chan a) t)
  ends_sleep : (p i : ℕ) → Runs t p i → Step t (sleep_ends p i t)
  creates : (p i : ℕ) (stack : Option ℕ) → Runs t p i → Step t (kthread_create p stack t).1
  thread_exits : (p i : ℕ) {t' : Table} → Runs t p i → kthread_exit p i t ≡ gone t' → Step t t'
  joins :
      (p i thread_id : ℕ) {t' : Table}
      → Runs t p i
      → Leaves (kthread_join p i thread_id t) t'
      → Step t t'
  joins_on : (p i j : ℕ) {t' : Table} → Runs t p i → Leaves (join_again p i j t) t' → Step t t'

-- `userinit`: the process 0 with one thread, which the scheduler may choose.
abbrev first_thread : Thread
first_thread = record { state = runnable; tid = 1; kstack = 0; chan = no_chan }

abbrev no_thread : Thread
no_thread = record { state = unused; tid = 0; kstack = 0; chan = no_chan }

abbrev no_proc : Process
no_proc = record {
  state = unused;
  pid = 0;
  parent = none;
  pgdir = 0;
  sz = 0;
  killed = false;
  executed = false;
  threads = λ i. no_thread;
}

abbrev pub booted : Table
booted = record {
  proc =
      update (λ p. no_proc) 0
        (record no_proc {
          state = runnable;
          pid = 1;
          sz = 4096;
          threads = update (λ i. no_thread) 0 first_thread;
        });
  initproc = 0;
  nextpid = 2;
  nexttid = 2;
}

pub data Reach : Table → Type 0 where
  start : Reach booted
  later : {t t' : Table} → Reach t → Step t t' → Reach t'

kill-Inv : (pid : ℕ) (t : Table) → Inv t → Inv (kill pid t).1
unfolding kill
kill-Inv pid t inv = elim (Option-cases (find_first (λ k. (t.proc k).pid == pid) nproc 0)) [
  | inl e ↦ rw e inv
  | inr (k, e) ↦ rw e (record {
    child = λ q j r c lt s par. ground (arith, inv.child q j r c lt);
    join = λ q j i s. ground (arith, inv.join q j i);
    alive = λ q j lt al. ground (arith, inv.alive q j lt);
    own = λ c. ground (arith, inv.own c);
    init_runs = ground (arith, inv.init_runs);
    init_free = λ q. ground (arith, inv.init_free q);
  })
]

created-Inv :
    (p : ℕ) (t : Table) (res : Option ℕ × Table)
    → Alloced p t res
    → is_runnable (t.proc p).state ≡ true
    → Inv (created p res).1
unfolding created
created-Inv p t (none, t') a runs = a.kept
created-Inv p t (some i, t') a runs =
    set_thread-Inv_awake t' p i (record ((t'.proc p).threads i) { state = runnable }) a.kept
      (ground (arith, a.state p)) refl refl

kthread_create-Inv :
    (p : ℕ) (stack : Option ℕ) (t : Table)
    → Inv t
    → is_runnable (t.proc p).state ≡ true
    → Inv (kthread_create p stack t).1
unfolding kthread_create
kthread_create-Inv p stack t inv runs =
    created-Inv p t (allocthread p stack t) (allocthread-Inv p stack t inv) runs

sleep_ends-Inv : (p i : ℕ) (t : Table) → Inv t → Runs t p i → Inv (sleep_ends p i t)
unfolding sleep_ends
sleep_ends-Inv p i t inv (lt, runs) =
    set_thread-Inv_awake t p i (record ((t.proc p).threads i) { chan = no_chan }) inv
      (inv.alive p i lt (ground arith)) (ground arith) (ground arith)

sleep-Inv_other : (p i a : ℕ) (t : Table) → Inv t → Runs t p i → Inv (sleep p i (other_chan a) t)
unfolding sleep
sleep-Inv_other p i a t inv (lt, runs) =
    set_thread-Inv t p i (record ((t.proc p).threads i) { state = sleeping; chan = other_chan a })
      inv (λ r k lt s par. ground arith) (λ j s. ground arith) (λ j s. refl)
      (λ lt al. inv.alive p i lt (ground arith))

booted-Inv : Inv booted
booted-Inv = record {
  child = λ q j r k lt s par. ground arith;
  join = λ q j i s. ground arith;
  alive = λ p i lt al. ground arith;
  own = λ k. ground arith;
  init_runs = refl;
  init_free = λ q. refl;
}

-- A process whose thread runs is runnable.
Runs-runnable : {t : Table} {p i : ℕ} → Inv t → Runs t p i → is_runnable (t.proc p).state ≡ true
Runs-runnable {p} {i} inv (lt, runs) = inv.alive p i lt (ground arith)

Step-Inv : {t t' : Table} → Inv t → Step t t' → Inv t'
unfolding yield schedule cow_wait
Step-Inv {t} inv (forks p i stack pgdir r) = fork-Inv p stack pgdir t inv (Runs-runnable inv r)
Step-Inv {t} inv (cow_forks p i stack pgdir r) =
    cow_fork-Inv p stack pgdir t inv (Runs-runnable inv r)
Step-Inv {t} {t'} inv (exits p i r e) = exit-Inv p t t' inv e
Step-Inv {t} {t'} inv (waits p i r e) = wait-Inv p i t t' inv (Runs-runnable inv r) e
Step-Inv {t} {t'} inv (cow_waits p i r e) = wait-Inv p i t t' inv (Runs-runnable inv r) e
Step-Inv {t} inv (kills p i pid r) = kill-Inv pid t inv
Step-Inv {t} inv (yields p i r) =
    set_thread-Inv_awake t p i (record ((t.proc p).threads i) { state = runnable }) inv
      (Runs-runnable inv r) refl refl
Step-Inv {t} inv (schedules p i lt ready) =
    set_thread-Inv_awake t p i (record ((t.proc p).threads i) { state = running }) inv
      (inv.alive p i lt (ground arith)) refl refl
Step-Inv {t} inv (sleeps_elsewhere p i a r) = sleep-Inv_other p i a t inv r
Step-Inv {t} inv (wakes_elsewhere p i a r) = wakeup1-Inv (other_chan a) t inv
Step-Inv {t} inv (ends_sleep p i r) = sleep_ends-Inv p i t inv r
Step-Inv {t} inv (creates p i stack r) = kthread_create-Inv p stack t inv (Runs-runnable inv r)
Step-Inv {t} {t'} inv (thread_exits p i r e) = kthread_exit-Inv p i t t' inv e
Step-Inv {t} {t'} inv (joins p i thread_id r e) =
    kthread_join-Inv p i thread_id t t' inv (Runs-runnable inv r) (ground (arith, r.1)) e
Step-Inv {t} {t'} inv (joins_on p i j r e) =
    join_again-Inv p i j t t' inv (Runs-runnable inv r) (ground (arith, r.1)) e

pub Reach-Inv : {t : Table} → Reach t → Inv t
Reach-Inv start = booted-Inv
Reach-Inv (later r st) = Step-Inv (Reach-Inv r) st

-- No parent misses the end of a child. In every state reachable without `exec`, while a thread sleeps in `wait` on
-- a process, no child of that process is a zombie.
pub no_missed_child :
    {t : Table} (q j p k : ℕ)
    → Reach t
    → k < nproc
    → ((t.proc q).threads j).state ≡ sleeping
    → ((t.proc q).threads j).chan ≡ proc_chan p
    → (t.proc k).parent ≡ some p
    → (t.proc k).state ≢ zombie
no_missed_child {t} q j p k r lt asleep on par died =
    let s : sleeps_on ((t.proc q).threads j) (proc_chan p) ≡ true =
      ground (arith, same_chan_refl (proc_chan p)) in
    ground (arith, (Reach-Inv r).child q j p k lt s)

-- No thread misses the end of another. In every state reachable without `exec`, while a thread sleeps in
-- `kthread_join` on a thread of its process, that thread is not a zombie.
pub no_missed_join :
    {t : Table} (p j i : ℕ)
    → Reach t
    → ((t.proc p).threads j).state ≡ sleeping
    → ((t.proc p).threads j).chan ≡ thread_chan p i
    → ((t.proc p).threads i).state ≢ zombie
no_missed_join {t} p j i r asleep on died =
    let s : sleeps_on ((t.proc p).threads j) (thread_chan p i) ≡ true =
      ground (arith, same_chan_refl (thread_chan p i)) in
    ground (arith, (Reach-Inv r).join p j i s)
