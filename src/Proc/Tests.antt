-- ===== src/Proc/Tests.antt =====
-- A process that forks a child and sleeps in `wait`, and a thread that joins another.
use os163_assi.Prelude.{◌≡◌, ◌≢◌, refl, arith, some, false, find_first}
use os163_assi.Proc.{
  zombie, sleeping, proc_chan, thread_chan, Table, allocproc, allocthread, kthread_create,
}
use os163_assi.Proc.Calls.{fork, wait, kthread_join, schedule}
use os163_assi.Proc.System.{
  Reach, start, later, schedules, forks, waits, creates, joins, no_missed_child, no_missed_join,
}
use os163_assi.Proc.Exec.{Promised, wait_before_exec, wait_before_exec-Promised}
use os163_assi.Proc.Reaping.{Waited, wait-Waited}

waiting :
    (t : Table) × Reach t
    × (((t.proc 0).threads 0).state ≡ sleeping)
    × (((t.proc 0).threads 0).chan ≡ proc_chan 0)
    × ((t.proc 1).parent ≡ some 0)
unfolding find_first schedule fork wait allocproc allocthread
waiting = (
  _,
  later
      (later (later start (schedules 0 0 (omega arith) refl))
        (forks 0 0 (some 5) (some 6) (omega arith, refl)))
      (waits 0 0 (omega arith, refl) refl),
  refl,
  refl,
  refl,
)

no_missed_child_example : (waiting.0.proc 1).state ≢ zombie
no_missed_child_example =
    no_missed_child 0 0 0 1 waiting.1 (omega arith) waiting.2 waiting.3 waiting.4

joining :
    (t : Table) × Reach t
    × (((t.proc 0).threads 0).state ≡ sleeping)
    × (((t.proc 0).threads 0).chan ≡ thread_chan 0 1)
unfolding find_first schedule kthread_create kthread_join allocthread
joining = (
  _,
  later
      (later (later start (schedules 0 0 (omega arith) refl))
        (creates 0 0 (some 5) (omega arith, refl)))
      (joins 0 0 2 (omega arith, refl) refl),
  refl,
  refl,
)

no_missed_join_example : ((joining.0.proc 0).threads 1).state ≢ zombie
no_missed_join_example = no_missed_join 0 0 1 joining.1 joining.2 joining.3

wait-Waited_example : Waited 0 0 waiting.0 (wait 0 0 waiting.0)
wait-Waited_example = wait-Waited 0 0 waiting.0

wait_before_exec-Promised_example :
    Promised 0 0 false joining.0 (wait_before_exec 0 0 false joining.0)
wait_before_exec-Promised_example = wait_before_exec-Promised 0 0 false joining.0
