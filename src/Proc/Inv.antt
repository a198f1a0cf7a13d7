-- ===== src/Proc/Inv.antt =====
-- proc.c and kthread.c: nobody sleeps on what has already happened. A parent asleep in `wait` has no
-- zombie child, and a thread asleep in `kthread_join` waits for no zombie.
use os163_assi.Prelude.{
  ℕ, ◌≡◌, ◌<◌, Bool, true, false, ◌&&◌, ◌==◌, update, arith, refl, Bool-cases, inl, inr,
}
use os163_assi.Proc.{
  ProcState, sleeping, runnable, running, Chan, no_chan, proc_chan, thread_chan, other_chan, Thread,
  Table, nproc, nthread, is_sleeping, is_zombie, set_thread, same_chan, wake, wakeup1,
}
use os163_assi.Proc.Calls.{is_parent}

abbrev pub is_runnable : ProcState → Bool
is_runnable runnable = true
is_runnable _ = false

abbrev pub is_alive : ProcState → Bool
is_alive sleeping = true
is_alive runnable = true
is_alive running = true
is_alive _ = false

abbrev pub sleeps_on : Thread → Chan → Bool
sleeps_on th c = is_sleeping th.state && same_chan th.chan c

pub record Inv (t : Table) : Type 0 where
  pub child :
      (q j r k : ℕ)
      → k < nproc
      → sleeps_on ((t.proc q).threads j) (proc_chan r) ≡ true
      → is_parent (t.proc k).parent r ≡ true
      → is_zombie (t.proc k).state ≡ false
  pub join :
      (q j i : ℕ)
      → sleeps_on ((t.proc q).threads j) (thread_chan q i) ≡ true
      → is_zombie ((t.proc q).threads i).state ≡ false
  pub alive :
      (p i : ℕ)
      → i < nthread
      → is_alive ((t.proc p).threads i).state ≡ true
      → is_runnable (t.proc p).state ≡ true
  pub own : (k : ℕ) → is_parent (t.proc k).parent k ≡ false
  pub init_runs : is_runnable (t.proc t.initproc).state ≡ true
  pub init_free : (q : ℕ) → is_parent (t.proc t.initproc).parent q ≡ false

pub same_chan_refl : (c : Chan) → same_chan c c ≡ true
same_chan_refl no_chan = refl
same_chan_refl (proc_chan p) = ground arith
same_chan_refl (thread_chan p i) = ground arith
same_chan_refl (other_chan a) = ground arith

pub wake-sleeps_on : (c : Chan) (th : Thread) → sleeps_on (wake c th) c ≡ false
unfolding wake
wake-sleeps_on c th = ground arith

pub wake-sleeps_on_other :
    (c d : Chan) (th : Thread) → sleeps_on (wake c th) d ≡ true → sleeps_on th d ≡ true
unfolding wake
wake-sleeps_on_other c d th h = ground arith

pub wake-is_zombie : (c : Chan) (th : Thread) → is_zombie (wake c th).state ≡ is_zombie th.state
unfolding wake
wake-is_zombie c th = ground arith

pub wake-is_alive : (c : Chan) (th : Thread) → is_alive (wake c th).state ≡ is_alive th.state
unfolding wake
wake-is_alive c th = ground arith

-- The invariant is kept by a wakeup, and then nobody sleeps on the channel.
pub wakeup1-Inv : (c : Chan) (t : Table) → Inv t → Inv (wakeup1 c t)
unfolding wakeup1
wakeup1-Inv c t inv = record {
  child = λ q j r k lt s par.
      inv.child q j r k lt (wake-sleeps_on_other c (proc_chan r) ((t.proc q).threads j) s) par;
  join = λ q j i s. ground (
    arith,
    wake-is_zombie c ((t.proc q).threads i),
    inv.join q j i (wake-sleeps_on_other c (thread_chan q i) ((t.proc q).threads j) s),
  );
  alive = λ p i lt al. inv.alive p i lt (ground (arith, wake-is_alive c ((t.proc p).threads i)));
  own = inv.own;
  init_runs = inv.init_runs;
  init_free = inv.init_free;
}

-- One thread changes. Its new state must fit what the invariant says of it.
pub set_thread-Inv :
    (t : Table) (p i : ℕ) (th : Thread)
    → Inv t
    → ((r k : ℕ)
        → k < nproc
        → sleeps_on th (proc_chan r) ≡ true
        → is_parent (t.proc k).parent r ≡ true
        → is_zombie (t.proc k).state ≡ false)
    → ((j : ℕ)
        → sleeps_on th (thread_chan p j) ≡ true
        → is_zombie (update (t.proc p).threads i th j).state ≡ false)
    → ((j : ℕ)
        → sleeps_on ((t.proc p).threads j) (thread_chan p i) ≡ true
        → is_zombie th.state ≡ false)
    → (i < nthread → is_alive th.state ≡ true → is_runnable (t.proc p).state ≡ true)
    → Inv (set_thread t p i th)
set_thread-Inv t p i th inv child join ended alive = record {
  child = λ q j r k lt s par. elim (Bool-cases (p == q)) [
    | inr far ↦ ground (arith, inv.child q j r k lt)
    | inl here ↦ elim (Bool-cases (i == j)) [
      | inl this ↦ ground (arith, child r k lt)
      | inr other ↦ ground (arith, inv.child q j r k lt)
    ]
  ];
  join = λ q j k s. elim (Bool-cases (p == q)) [
    | inr far ↦ ground (arith, inv.join q j k)
    | inl here ↦ elim (Bool-cases (i == j)) [
      | inl this ↦ ground (arith, join k)
      | inr other ↦ elim (Bool-cases (i == k)) [
        | inl that ↦ ground (arith, ended j)
        | inr there ↦ ground (arith, inv.join q j k)
      ]
    ]
  ];
  alive = λ q j lt al. elim (Bool-cases (p == q)) [
    | inr far ↦ ground (arith, inv.alive q j lt)
    | inl here ↦ elim (Bool-cases (i == j)) [
      | inl this ↦ ground (arith, alive)
      | inr other ↦ ground (arith, inv.alive q j lt)
    ]
  ];
  own = λ k. ground (arith, inv.own k);
  init_runs = ground (arith, inv.init_runs);
  init_free = λ q. ground (arith, inv.init_free q);
}
