-- ===== src/Proc/Threads.antt =====
-- kthread.c and proc.c: the calls that change single threads keep the invariant.
use os163_assi.Prelude.{
  ℕ, ◌≡◌, Bool, true, false, ◌==◌, update, arith, refl, Bool-cases, Option-cases, inl, inr,
  find_first,
}
use os163_assi.Proc.{
  unused, sleeping, zombie, proc_chan, thread_chan, Thread, Table, nthread, is_unused, is_sleeping,
  is_zombie, set_thread, wakeup2,
}
use os163_assi.Proc.Calls.{
  is_left, sleep, end_thread, kthread_exit, join_again, join_at, kthread_join, gone,
}
use os163_assi.Proc.Inv.{
  is_runnable, Inv, wake-sleeps_on, wake-sleeps_on_other, wake-is_zombie, wake-is_alive,
  set_thread-Inv,
}
use os163_assi.Proc.Keeps.{set_thread-Inv_idle}
use os163_assi.Proc.Exits.{exit-Inv}
use os163_assi.Proc.Waits.{Leaves}

-- A thread of a runnable process may be anything that is awake and no zombie.
pub set_thread-Inv_awake :
    (t : Table) (p i : ℕ) (th : Thread)
    → Inv t
    → is_runnable (t.proc p).state ≡ true
    → is_sleeping th.state ≡ false
    → is_zombie th.state ≡ false
    → Inv (set_thread t p i th)
set_thread-Inv_awake t p i th inv runs awake lives =
    set_thread-Inv t p i th inv (λ r k lt s par. ground arith) (λ j s. ground arith) (λ j s. lives)
      (λ lt al. runs)

end_thread-Inv : (p i : ℕ) (t : Table) → Inv t → Inv (end_thread p i t)
unfolding end_thread wakeup2
end_thread-Inv p i t inv = record {
  child = λ q j r k lt s par. elim (Bool-cases (p == q)) [
    | inr far ↦ ground (arith, inv.child q j r k lt)
    | inl here ↦ elim (Bool-cases (i == j)) [
      | inl this ↦ ground (
        arith,
        wake-sleeps_on_other (thread_chan p i) (proc_chan r)
            (record ((t.proc p).threads i) { state = zombie }),
      )
      | inr other ↦ ground (
        arith,
        inv.child q j r k lt,
        wake-sleeps_on_other (thread_chan p i) (proc_chan r) ((t.proc p).threads j),
      )
    ]
  ];
  join = λ q j k s. elim (Bool-cases (p == q)) [
    | inr far ↦ ground (arith, inv.join q j k)
    | inl here ↦ elim (Bool-cases (i == j)) [
      | inl this ↦ ground (
        arith,
        wake-sleeps_on_other (thread_chan p i) (thread_chan q k)
            (record ((t.proc p).threads i) { state = zombie }),
      )
      | inr other ↦ elim (Bool-cases (i == k)) [
        | inl that ↦ ground (arith, wake-sleeps_on (thread_chan p i) ((t.proc p).threads j))
        | inr there ↦ ground (
          arith,
          inv.join q j k,
          wake-is_zombie (thread_chan p i) ((t.proc p).threads k),
          wake-sleeps_on_other (thread_chan p i) (thread_chan q k) ((t.proc p).threads j),
        )
      ]
    ]
  ];
  alive = λ q j lt al. elim (Bool-cases (p == q)) [
    | inr far ↦ ground (arith, inv.alive q j lt)
    | inl here ↦ elim (Bool-cases (i == j)) [
      | inl this ↦ ground (
        arith,
        wake-is_alive (thread_chan p i) (record ((t.proc p).threads i) { state = zombie }),
      )
      | inr other ↦
          ground (arith, inv.alive q j lt, wake-is_alive (thread_chan p i) ((t.proc p).threads j))
    ]
  ];
  own = λ k. ground (arith, inv.own k);
  init_runs = ground (arith, inv.init_runs);
  init_free = λ q. ground (arith, inv.init_free q);
}

pub kthread_exit-Inv : (p i : ℕ) (t t' : Table) → Inv t → kthread_exit p i t ≡ gone t' → Inv t'
unfolding kthread_exit
kthread_exit-Inv p i t t' inv runs =
    let left : ℕ → Bool = λ j.
      is_left
        (update (t.proc p).threads i (record ((t.proc p).threads i) { state = zombie }) j).state in
    elim (Option-cases (find_first left nthread 0)) [
      | inl e ↦ exit-Inv p (end_thread p i t) t' (end_thread-Inv p i t inv) (ground arith)
      | inr (j, e) ↦
          let same : end_thread p i t ≡ t' = ground arith in rw (← same) (end_thread-Inv p i t inv)
    ]

pub join_again-Inv :
    (p i j : ℕ) (t t' : Table)
    → Inv t
    → is_runnable (t.proc p).state ≡ true
    → is_zombie ((t.proc p).threads i).state ≡ false
    → Leaves (join_again p i j t) t'
    → Inv t'
unfolding join_again sleep
join_again-Inv p i j t t' inv runs me left =
    elim (Bool-cases (is_zombie ((t.proc p).threads j).state)) [
      | inl died ↦
          let th : Thread = record ((t.proc p).threads j) { state = unused; kstack = 0 } in
          let same : set_thread t p j th ≡ t' = ground arith in
          rw (← same) (set_thread-Inv_idle t p j th inv refl refl)
      | inr lives ↦
          let th : Thread = record ((t.proc p).threads i) {
            state = sleeping;
            chan = thread_chan p j;
          } in
          let same : set_thread t p i th ≡ t' = ground arith in
          rw (← same) (
            set_thread-Inv t p i th inv (λ r k lt s par. ground arith) (λ k s. ground arith)
              (λ k s. refl) (λ lt al. runs))
    ]

pub kthread_join-Inv :
    (p i thread_id : ℕ) (t t' : Table)
    → Inv t
    → is_runnable (t.proc p).state ≡ true
    → is_zombie ((t.proc p).threads i).state ≡ false
    → Leaves (kthread_join p i thread_id t) t'
    → Inv t'
unfolding kthread_join join_at
kthread_join-Inv p i thread_id t t' inv runs me left =
    elim (Option-cases (find_first (λ j. ((t.proc p).threads j).tid == thread_id) nthread 0)) [
      | inl e ↦ let same : t ≡ t' = ground arith in rw (← same) inv
      | inr (j, e) ↦ elim (Bool-cases (is_unused ((t.proc p).threads j).state)) [
        | inl gone_before ↦ let same : t ≡ t' = ground arith in rw (← same) inv
        | inr there ↦ join_again-Inv p i j t t' inv runs me (ground arith)
      ]
    ]
