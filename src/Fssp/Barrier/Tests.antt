-- ===== src/Fssp/Barrier/Tests.antt =====
-- A barrier of two threads: thread 0 has been counted, thread 1 is being counted.
use os163_assi.Prelude.{◌≡◌, ◌≤◌, refl, arith}
use os163_assi.Fssp.Barrier.{
  gathered, outside, count_in, count_out, enter, count, leave, drain, System, Step, pick, Reach,
  start, later,
}
use os163_assi.Fssp.Barrier.Safety.{returned, arrived, barrier_holds, no_deadlock}

-- Thread 0 has gone through the first barrier, thread 1 is still about to leave it.
half_way : (s : System) × Reach 2 s × (s.pc 0 ≡ outside 1) × (s.pc 1 ≡ gathered 0)
unfolding count_in count_out
half_way = (
  _,
  later
      (later
        (later
          (later
            (later (later start (pick 0 (omega arith) (enter refl))) (pick 0 (omega arith) count))
            (pick 1 (omega arith) (enter refl)))
          (pick 1 (omega arith) count))
        (pick 0 (omega arith) (leave refl)))
      (pick 0 (omega arith) drain),
  refl,
  refl,
)

barrier_holds_example : returned (half_way.0.pc 0) ≤ arrived (half_way.0.pc 1)
barrier_holds_example = barrier_holds 0 1 half_way.1 (omega arith) (omega arith)

no_deadlock_example : (t : System) × Step 2 half_way.0 t
no_deadlock_example = no_deadlock (omega arith) half_way.1
