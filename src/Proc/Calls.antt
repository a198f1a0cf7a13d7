-- ===== src/Proc/Calls.antt =====
-- proc.c, kthread.c, sysproc.c and exec.c: the calls of a running thread on the table of processes.
use os163_assi.Prelude.{
  ℕ, zero, suc, Bool, true, false, not, ◌&&◌, Option, none, some, List, [], ◌∷◌, if◌then◌else◌,
  ◌==◌, update, find_first, minus_one,
}
use os163_assi.Proc.{
  ProcState, unused, sleeping, runnable, running, zombie, Chan, no_chan, proc_chan, thread_chan,
  Thread, Table, nproc, nthread, is_unused, is_zombie, set_proc, set_thread, wakeup1, wakeup2,
  allocproc,
}

-- `fork` and `cow_fork` by the process `p`, behind `allocproc`; `pgdir` is what `copyuvm` or
-- `cow_shareuvm` returns for the child. One step, since nothing schedules or reaps an EMBRYO.
unfoldable pub fork_with : ℕ → Option ℕ → Option (ℕ × ℕ) × Table → ℕ × Table
fork_with p pgdir (none, t) = (minus_one, t)
fork_with p none (some (child, i), t) = (
  minus_one,
  set_proc t child (record (t.proc child) {
    state = unused;
    threads =
        update (t.proc child).threads i
          (record ((t.proc child).threads i) { state = unused; kstack = 0 });
  }),
)
fork_with p (some d) (some (child, i), t) = (
  (t.proc child).pid,
  set_proc t child (record (t.proc child) {
    state = runnable;
    parent = some p;
    pgdir = d;
    sz = (t.proc p).sz;
    threads =
        update (t.proc child).threads i (record ((t.proc child).threads i) { state = runnable });
  }),
)

unfoldable pub fork : ℕ → Option ℕ → Option ℕ → Table → ℕ × Table
unfolding fork_with
fork p stack pgdir t = fork_with p pgdir (allocproc stack t)

unfoldable pub cow_fork : ℕ → Option ℕ → Option ℕ → Table → ℕ × Table
unfolding fork_with
cow_fork p stack pgdir t = fork_with p pgdir (allocproc stack t)

-- How a call ends that may sleep, panic or give pages back to `kfree`.
pub data Outcome : Type 0 where
  returns : ℕ → List ℕ → Table → Outcome
  sleeps : Table → Outcome
  gone : Table → Outcome  -- the thread never runs again
  panics : Outcome

-- `if(p->parent == proc)`
abbrev pub is_parent : Option ℕ → ℕ → Bool
is_parent none q = false
is_parent (some p) q = p == q

-- The loop of `exit` that passes the children of `p` to `initproc`.
unfoldable pub reparent : ℕ → Table → Table
reparent p t = record t {
  proc = λ k.
      if is_parent (t.proc k).parent p
      then record (t.proc k) { parent = some t.initproc }
      else t.proc k;
}

-- `wakeup1(initproc)`, if one of these children is a zombie.
unfoldable pub wake_init : ℕ → Table → Table
wake_init p t =
    let orphan =
      find_first (λ k. is_parent (t.proc k).parent p && is_zombie (t.proc k).state) nproc 0 in
    elim orphan [ none ↦ t | some k ↦ wakeup1 (proc_chan t.initproc) t ]

unfoldable pub dead : Thread → Thread
dead th = if is_unused th.state then th else record th { state = zombie; chan = no_chan }

-- `wakeup1(proc->parent)`
unfoldable pub wake_parent : Option ℕ → Table → Table
wake_parent none t = t
wake_parent (some q) t = wakeup1 (proc_chan q) t

-- The end of `exit`, once it has woken whom it concerns: the children go to `initproc`, and the
-- threads and the process become zombies.
unfoldable pub bury : ℕ → Table → Table
unfolding reparent dead
bury p t =
    let t' = reparent p t in
    set_proc t' p
      (record (t'.proc p) { state = zombie; threads = λ i. dead ((t'.proc p).threads i) })

-- `exit` of the process `p`, behind the files and the working directory. The code wakes `initproc`
-- while it goes through the children, which comes to the same under `ptable.lock`.
unfoldable pub exit : ℕ → Table → Outcome
unfolding bury wake_init wake_parent
exit p t =
    if p == t.initproc
    then panics
    else gone (bury p (wake_init p (wake_parent (t.proc p).parent t)))

-- `wakeup1(chan); … sleep(chan, &ptable.lock)` of the thread `i` of `p`: the half of `sleep` before
-- `sched`.
unfoldable pub sleep : ℕ → ℕ → Chan → Table → Table
sleep p i c t = set_thread t p i (record ((t.proc p).threads i) { state = sleeping; chan = c })

-- The half of `sleep` behind `sched`.
unfoldable pub sleep_ends : ℕ → ℕ → Table → Table
sleep_ends p i t = set_thread t p i (record ((t.proc p).threads i) { chan = no_chan })

-- The stacks of the zombie threads of a process, which `wait` gives back.
unfoldable pub stacks : (ℕ → Thread) → ℕ → List ℕ
stacks th zero = []
stacks th (suc n) = if is_zombie (th n).state then (th n).kstack ∷ stacks th n else stacks th n

reaped_thread : Thread → Thread
reaped_thread th = if is_zombie th.state then record th { kstack = 0 } else th

-- What `wait` leaves of the zombie child `k`.
unfoldable pub reaped : ℕ → Table → Table
unfolding reaped_thread
reaped k t = set_proc t k (record (t.proc k) {
  state = unused;
  pid = 0;
  parent = none;
  killed = false;
  threads = λ i. reaped_thread ((t.proc k).threads i);
})

-- Whether the thread is neither unused nor a zombie.
abbrev pub is_left : ProcState → Bool
is_left st = not (is_unused st) && not (is_zombie st)

reap_checked : ℕ → Table → Option ℕ → Outcome
unfolding reaped stacks
reap_checked k t (some i) = panics
reap_checked k t none =
    returns (t.proc k).pid ((t.proc k).pgdir ∷ stacks (t.proc k).threads nthread) (reaped k t)

-- The body of `wait` for the zombie child `k`: a panic if one of its threads is neither unused nor a
-- zombie. The page directory goes to `freevm` or `cow_freevm`.
unfoldable pub reap : ℕ → Table → Outcome
unfolding reap_checked
reap k t = reap_checked k t (find_first (λ i. is_left ((t.proc k).threads i).state) nthread 0)

-- `wait` once the table was searched: for a zombie child, and for any child.
waited : ℕ → ℕ → Table → Option ℕ → Option ℕ → Outcome
unfolding reap sleep
waited p i t (some k) kid = reap k t
waited p i t none none = returns minus_one [] t
waited p i t none (some k) =
    if (t.proc p).killed then returns minus_one [] t else sleeps (sleep p i (proc_chan p) t)

-- One pass of the loop of `wait`, by the thread `i` of `p`.
unfoldable pub wait : ℕ → ℕ → Table → Outcome
unfolding waited
wait p i t =
    waited p i t
      (find_first (λ k. is_parent (t.proc k).parent p && is_zombie (t.proc k).state) nproc 0)
      (find_first (λ k. is_parent (t.proc k).parent p) nproc 0)

-- The loop of `cow_wait` is that of `wait`, but for the call of `cow_freevm`.
unfoldable pub cow_wait : ℕ → ℕ → Table → Outcome
unfolding wait
cow_wait p i t = wait p i t

-- `kill`: the first process with the identifier.
killed_at : Table → Option ℕ → ℕ × Table
killed_at t none = (minus_one, t)
killed_at t (some k) = (0, set_proc t k (record (t.proc k) { killed = true }))

unfoldable pub kill : ℕ → Table → ℕ × Table
unfolding killed_at
kill pid t = killed_at t (find_first (λ k. (t.proc k).pid == pid) nproc 0)

-- `yield`, and the choice of a thread by `scheduler`.
unfoldable pub yield : ℕ → ℕ → Table → Table
yield p i t = set_thread t p i (record ((t.proc p).threads i) { state = runnable })

unfoldable pub schedule : ℕ → ℕ → Table → Table
schedule p i t = set_thread t p i (record ((t.proc p).threads i) { state = running })

exit_thread : ℕ → Table → Option ℕ → Outcome
unfolding exit
exit_thread p t none = exit p t
exit_thread p t (some j) = gone t

-- The thread `i` of `p` becomes a zombie, and wakes those that wait for it.
unfoldable pub end_thread : ℕ → ℕ → Table → Table
end_thread p i t =
    wakeup2 p (thread_chan p i)
      (set_thread t p i (record ((t.proc p).threads i) { state = zombie }))

-- `kthread_exit` of the thread `i` of `p`: the last thread ends the process. The threads are counted
-- before the wakeup, which changes no state that the count tells apart.
unfoldable pub kthread_exit : ℕ → ℕ → Table → Outcome
unfolding exit_thread end_thread
kthread_exit p i t = exit_thread p (end_thread p i t) (
    find_first
      (λ j.
        is_left
          (update (t.proc p).threads i (record ((t.proc p).threads i) { state = zombie }) j).state)
      nthread 0)

-- The loop of `kthread_join`, up to its end or its next `sleep`.
unfoldable pub join_again : ℕ → ℕ → ℕ → Table → Outcome
unfolding sleep
join_again p i j t =
    let th = (t.proc p).threads j in
    if is_zombie th.state
    then returns 0 (th.kstack ∷ []) (set_thread t p j (record th { state = unused; kstack = 0 }))
    else sleeps (sleep p i (thread_chan p j) t)

-- `kthread_join` by the thread `i` of `p`, once it found the thread `j`.
unfoldable pub join_at : ℕ → ℕ → ℕ → Table → Outcome
unfolding join_again
join_at p i j t =
    if is_unused ((t.proc p).threads j).state then returns 0 [] t else join_again p i j t

joined : ℕ → ℕ → Table → Option ℕ → Outcome
unfolding join_at
joined p i t none = returns minus_one [] t
joined p i t (some j) = join_at p i j t

unfoldable pub kthread_join : ℕ → ℕ → ℕ → Table → Outcome
unfolding joined
kthread_join p i thread_id t =
    joined p i t (find_first (λ j. ((t.proc p).threads j).tid == thread_id) nthread 0)
