-- ===== src/Proc/Exits.antt =====
-- proc.c: `exit` wakes whoever waits for the process, or for a zombie child that it leaves to `init`.
use os163_assi.Prelude.{
  ℕ, ◌≡◌, ◌<◌, Bool, true, false, ◌&&◌, Option, none, some, ◌==◌, arith, refl, Bool-cases,
  Option-cases, inl, inr, find_first, find_first-none,
}
use os163_assi.Proc.{Chan, proc_chan, Table, nproc, is_zombie, wakeup1}
use os163_assi.Proc.Calls.{is_parent, exit, bury, wake_init, wake_parent, gone}
use os163_assi.Proc.Inv.{sleeps_on, Inv, wake-sleeps_on, wake-sleeps_on_other, wakeup1-Inv}

-- Nobody sleeps on the channel.
abbrev pub Quiet : Table → Chan → Type 0
Quiet t c = (q j : ℕ) → sleeps_on ((t.proc q).threads j) c ≡ false

wakeup1-Quiet : (c : Chan) (t : Table) → Quiet (wakeup1 c t) c
unfolding wakeup1
wakeup1-Quiet c t q j = wake-sleeps_on c ((t.proc q).threads j)

wakeup1-Quiet_other : (c d : Chan) (t : Table) → Quiet t d → Quiet (wakeup1 c t) d
unfolding wakeup1
wakeup1-Quiet_other c d t quiet q j =
    ground (arith, wake-sleeps_on_other c d ((t.proc q).threads j), quiet q j)

bury-Inv :
    (p : ℕ) (t : Table)
    → Inv t
    → (p == t.initproc) ≡ false
    → ((r : ℕ) → is_parent (t.proc p).parent r ≡ true → Quiet t (proc_chan r))
    → ((k : ℕ)
        → k < nproc
        → is_parent (t.proc k).parent p ≡ true
        → is_zombie (t.proc k).state ≡ true
        → Quiet t (proc_chan t.initproc))
    → Inv (bury p t)
unfolding bury
bury-Inv p t inv apart told orphans = record {
  child = λ q j r k lt s par. elim (Bool-cases (p == q)) [
    | inl here ↦ ground arith
    | inr far ↦ elim (Bool-cases (p == k)) [
      | inl me ↦ ground (arith, told r, inv.own p, told r (ground (arith, inv.own p)) q j)
      | inr other ↦ elim (Bool-cases (is_parent (t.proc k).parent p)) [
        | inr not_mine ↦ ground (arith, inv.child q j r k lt)
        | inl mine ↦ elim (Bool-cases (is_zombie (t.proc k).state)) [
          | inr lives ↦ ground arith
          | inl died ↦ ground (arith, orphans k lt mine died q j)
        ]
      ]
    ]
  ];
  join = λ q j k s. elim (Bool-cases (p == q)) [
    | inl here ↦ ground arith
    | inr far ↦ ground (arith, inv.join q j k)
  ];
  alive = λ q j lt al. elim (Bool-cases (p == q)) [
    | inl here ↦ ground arith
    | inr far ↦ ground (arith, inv.alive q j lt)
  ];
  own = λ k. ground (arith, inv.own k, inv.init_free p, inv.init_free k);
  init_runs = ground (arith, inv.init_runs, inv.init_free p);
  init_free = λ q. ground (arith, inv.init_free q, inv.init_free p);
}

-- The table once `exit` has woken the parent, and `init` where it must.
record Woken (p : ℕ) (t t' : Table) : Type 0 where
  kept : Inv t'
  init : t'.initproc ≡ t.initproc
  told : (r : ℕ) → is_parent (t'.proc p).parent r ≡ true → Quiet t' (proc_chan r)
  orphans :
      (k : ℕ)
      → k < nproc
      → is_parent (t'.proc k).parent p ≡ true
      → is_zombie (t'.proc k).state ≡ true
      → Quiet t' (proc_chan t'.initproc)

wake_parent-told :
    (par : Option ℕ) (t : Table) (r : ℕ)
    → is_parent par r ≡ true
    → Quiet (wake_parent par t) (proc_chan r)
unfolding wake_parent
wake_parent-told none t r h = absurd cc
wake_parent-told (some q) t r h =
    let same : q ≡ r = ground arith in rw (← same) (wakeup1-Quiet (proc_chan q) t)

wake_parent-Inv :
    (par : Option ℕ) (t : Table)
    → Inv t
    → Inv (wake_parent par t)
      × ((wake_parent par t).initproc ≡ t.initproc)
      × ((k : ℕ) → ((wake_parent par t).proc k).parent ≡ (t.proc k).parent)
unfolding wake_parent wakeup1
wake_parent-Inv none t inv = (inv, refl, λ k. refl)
wake_parent-Inv (some q) t inv = (wakeup1-Inv (proc_chan q) t inv, refl, λ k. refl)

wake_init-Woken :
    (p : ℕ) (t : Table)
    → Inv t
    → ((r : ℕ) → is_parent (t.proc p).parent r ≡ true → Quiet t (proc_chan r))
    → Woken p t (wake_init p t)
unfolding wake_init wakeup1
wake_init-Woken p t inv told =
    let test : ℕ → Bool = λ k. is_parent (t.proc k).parent p && is_zombie (t.proc k).state in
    elim (Option-cases (find_first test nproc 0)) [
      | inl e ↦
          rw (e, wake_init)
            (record {
              kept = inv;
              init = refl;
              told = told;
              orphans = λ k lt mine died.
                  absurd
                    (ground (arith, find_first-none test nproc 0 k e (omega arith) (omega arith)));
            })
      | inr (k, e) ↦
          rw (e, wake_init)
            (record {
              kept = wakeup1-Inv (proc_chan t.initproc) t inv;
              init = refl;
              told =
                  λ r par. wakeup1-Quiet_other (proc_chan t.initproc) (proc_chan r) t (told r par);
              orphans = λ k lt mine died. wakeup1-Quiet (proc_chan t.initproc) t;
            })
    ]

pub exit-Inv : (p : ℕ) (t t' : Table) → Inv t → exit p t ≡ gone t' → Inv t'
unfolding exit
exit-Inv p t t' inv runs =
    let t1 = wake_parent (t.proc p).parent t in
    let (inv1, init1, parents) = wake_parent-Inv (t.proc p).parent t inv in
    let w =
      wake_init-Woken p t1 inv1
        (λ r par. wake_parent-told (t.proc p).parent t r (ground (arith, parents p))) in
    let apart : (p == t.initproc) ≡ false = ground arith in
    let buried = bury-Inv p (wake_init p t1) w.kept (ground (arith, w.init)) w.told w.orphans in
    let same : bury p (wake_init p t1) ≡ t' = ground arith in rw (← same) buried
