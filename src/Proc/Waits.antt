-- ===== src/Proc/Waits.antt =====
-- proc.c and kthread.c: `wait`, `kthread_exit`, `kthread_join` and the scheduler's steps keep the
-- invariant.
use os163_assi.Prelude.{
  ℕ, ◌≡◌, ◌<◌, Bool, true, false, ◌&&◌, ◌==◌, arith, refl, Bool-cases, Option-cases, inl, inr,
  find_first, find_first-Found, find_first-none,
}
use os163_assi.Proc.{sleeping, proc_chan, Table, nproc, is_zombie}
use os163_assi.Proc.Calls.{
  is_parent, reap, reaped, wait, sleep, gone, returns, sleeps, panics, Outcome,
}
use os163_assi.Proc.Inv.{is_runnable, Inv, set_thread-Inv}

-- The state that a call leaves, if the machine runs on.
abbrev pub Leaves : Outcome → Table → Type 0
Leaves (returns r pages t') t'' = t' ≡ t''
Leaves (sleeps t') t'' = t' ≡ t''
Leaves (gone t') t'' = t' ≡ t''
Leaves panics t'' = ⊥

reaped-Inv : (k : ℕ) (t : Table) → Inv t → is_zombie (t.proc k).state ≡ true → Inv (reaped k t)
unfolding reaped
reaped-Inv k t inv died = record {
  child = λ q j r c lt s par. elim (Bool-cases (k == q)) [
    | inl here ↦ ground (arith, inv.child q j r c lt)
    | inr far ↦ ground (arith, inv.child q j r c lt)
  ];
  join = λ q j i s. elim (Bool-cases (k == q)) [
    | inl here ↦ ground (arith, inv.join q j i)
    | inr far ↦ ground (arith, inv.join q j i)
  ];
  alive = λ q j lt al. elim (Bool-cases (k == q)) [
    | inl here ↦ ground (arith, inv.alive q j lt)
    | inr far ↦ ground (arith, inv.alive q j lt)
  ];
  own = λ c. ground (arith, inv.own c);
  init_runs = ground (arith, inv.init_runs);
  init_free = λ q. ground (arith, inv.init_free q);
}

sleep-Inv_child :
    (p i : ℕ) (t : Table)
    → Inv t
    → is_runnable (t.proc p).state ≡ true
    → ((k : ℕ)
        → k < nproc
        → is_parent (t.proc k).parent p ≡ true
        → is_zombie (t.proc k).state ≡ false)
    → Inv (sleep p i (proc_chan p) t)
unfolding sleep
sleep-Inv_child p i t inv runs no_zombie =
    set_thread-Inv t p i (record ((t.proc p).threads i) { state = sleeping; chan = proc_chan p })
      inv (λ r k lt s par. ground (arith, no_zombie k)) (λ j s. ground arith) (λ j s. refl)
      (λ lt al. runs)

pub wait-Inv :
    (p i : ℕ) (t t' : Table)
    → Inv t
    → is_runnable (t.proc p).state ≡ true
    → Leaves (wait p i t) t'
    → Inv t'
unfolding wait reap
wait-Inv p i t t' inv runs left =
    let dead : ℕ → Bool = λ k. is_parent (t.proc k).parent p && is_zombie (t.proc k).state in
    elim (Option-cases (find_first dead nproc 0)) [
      | inr (k, e) ↦
          let died : is_zombie (t.proc k).state ≡ true =
            ground (arith, (find_first-Found dead nproc 0 k e).hit) in
          let same : reaped k t ≡ t' = ground arith in rw (← same) (reaped-Inv k t inv died)
      | inl e ↦ elim (Option-cases (find_first (λ k. is_parent (t.proc k).parent p) nproc 0)) [
        | inl e2 ↦ let same : t ≡ t' = ground arith in rw (← same) inv
        | inr (k, e2) ↦ elim (Bool-cases (t.proc p).killed) [
          | inl dies ↦ let same : t ≡ t' = ground arith in rw (← same) inv
          | inr lives ↦
              let same : sleep p i (proc_chan p) t ≡ t' = ground arith in
              rw (← same) (
                sleep-Inv_child p i t inv runs (λ k lt par.
                  ground (arith, find_first-none dead nproc 0 k e (omega arith) (omega arith))))
        ]
      ]
    ]
