-- ===== src/Proc/Exec.antt =====
-- exec.c: `wait_before_exec`, by which a thread waits until it is the only one of its process.
use os163_assi.Prelude.{
  ℕ, ◌≡◌, ◌<◌, Bool, true, false, not, ◌&&◌, Option, none, some, if◌then◌else◌, ◌==◌, arith, refl,
  Option-cases, inl, inr, find_first, find_first-Found, find_first-none,
}
use os163_assi.Proc.{
  unused, runnable, proc_chan, Thread, Table, nthread, is_sleeping, is_zombie, set_proc,
}
use os163_assi.Proc.Calls.{is_left, sleep}

-- What a pass makes of another thread: a zombie's place is freed, and a sleeper is hurried.
pub hurried : Thread → Thread
hurried th =
    if is_zombie th.state
    then record th { state = unused; kstack = 0 }
    else if is_sleeping th.state
    then record th { state = runnable }
    else th

-- How a pass ends: the function returns, or sleeps on the process with `threadsAlive` as it is then.
pub data Pass : Type 0 where
  returned : Table → Pass
  asleep : (threads_alive : Bool) → Table → Pass

others : ℕ → ℕ → Bool → Table → Table
unfolding hurried
others p i executed t = set_proc t p (record (t.proc p) {
  executed = executed;
  threads = λ j. if j == i then (t.proc p).threads j else hurried ((t.proc p).threads j);
})

pass_ends : ℕ → ℕ → Bool → Table → Option ℕ → Pass
unfolding others sleep
pass_ends p i threads_alive t (some j) = asleep true (sleep p i (proc_chan p) (others p i true t))
pass_ends p i threads_alive t none =
    if threads_alive
    then asleep true (sleep p i (proc_chan p) (others p i true t))
    else returned (others p i false t)

-- One pass of the loop, by the thread `i` of `p`.
pub wait_before_exec : ℕ → ℕ → Bool → Table → Pass
unfolding pass_ends
wait_before_exec p i threads_alive t =
    pass_ends p i threads_alive t
      (find_first (λ j. not (j == i) && is_left ((t.proc p).threads j).state) nthread 0)

-- Every thread of `p` but `i` is an unused place, and the process is not marked any more.
abbrev pub Alone : ℕ → ℕ → Table → Type 0
Alone p i t =
    ((j : ℕ) → j < nthread → (j == i) ≡ false → ((t.proc p).threads j).state ≡ unused)
    × ((t.proc p).executed ≡ false)

-- What a pass promises. The second case shows that a thread that once saw another one alive sleeps
-- in every later pass too.
abbrev pub Promised : ℕ → ℕ → Bool → Table → Pass → Type 0
Promised p i threads_alive t (returned t') =
    (threads_alive ≡ false)
    × ((j : ℕ) → j < nthread → (not (j == i) && is_left ((t.proc p).threads j).state) ≡ false)
    × Alone p i t'
Promised p i threads_alive t (asleep seen t') =
    (seen ≡ true)
    × ((threads_alive ≡ false)
        → (j : ℕ) × (j < nthread) × ((not (j == i) && is_left ((t.proc p).threads j).state) ≡ true))

-- A pass of `wait_before_exec` returns only if `threadsAlive` was never set and no other thread of
-- the process is left; then every other place is unused. It sleeps, with `threadsAlive` set, if it
-- was set or another thread is left.
pub wait_before_exec-Promised :
    (p i : ℕ) (threads_alive : Bool) (t : Table)
    → Promised p i threads_alive t (wait_before_exec p i threads_alive t)
unfolding wait_before_exec
wait_before_exec-Promised p i threads_alive t =
    let left : ℕ → Bool = λ j. not (j == i) && is_left ((t.proc p).threads j).state in
    elim (Option-cases (find_first left nthread 0)) [
      | inr (j, e) ↦
          let f = find_first-Found left nthread 0 j e in
          rw (e, wait_before_exec) (refl, λ h. (j, omega (arith, f.below), f.hit))
      | inl e ↦
          let gone : (j : ℕ) → j < nthread → left j ≡ false =
            λ j lt. find_first-none left nthread 0 j e (omega arith) (omega arith) in
          rw (e, wait_before_exec) (split threads_alive gone)
    ]
  where
    split :
        (threads_alive : Bool)
        → ((j : ℕ) → j < nthread → (not (j == i) && is_left ((t.proc p).threads j).state) ≡ false)
        → Promised p i threads_alive t (pass_ends p i threads_alive t none)
    split true gone = (refl, λ h. absurd cc)
    split false gone = (refl, gone, (λ j lt other. ground (arith, gone j lt), ground arith))
