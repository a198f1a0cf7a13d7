-- ===== src/Spin/Tests.antt =====
-- Two locks that overlap, and a lock that another processor tries, on a processor that had its
-- interrupts on.
use os163_assi.Prelude.{◌≡◌, refl, true, false, some, none, List, [], ◌∷◌}
use os163_assi.Kalloc.{done}
use os163_assi.Spin.{Cpu, Spinlock, acquired, acquire}
use os163_assi.Spin.Nested.{Call, push, pop, calls, depth, AtDepth, calls-AtDepth}
use os163_assi.Spin.Lock.{
  Act, pushes, pops, acquires, releases, inside, trespass, Ends, acquire-Held,
}

abbrev idle : Cpu
idle = record { flag_if = true; ncli = 0; intena = false }

abbrev free_lock : Spinlock
free_lock = record { locked = false; cpu = none }

abbrev overlap : List Call
overlap = push ∷ push ∷ pop ∷ push ∷ pop ∷ pop ∷ []

nested_calls : depth overlap 0 ≡ some 0
unfolding depth
nested_calls = refl

idle-AtDepth : AtDepth true 0 idle
idle-AtDepth = record {
  counted = refl;
  off_inside = λ ne. absurd (ne refl);
  as_outside = λ _. refl;
  remembered = λ ne. absurd (ne refl);
}

calls-AtDepth_example : (c' : Cpu) × (calls overlap idle ≡ done tt c') × AtDepth true 0 c'
calls-AtDepth_example = calls-AtDepth overlap 0 idle refl nested_calls

-- While processor 1 has the lock, it takes and frees another one and takes a third; processor 2 tries
-- this lock in between.
abbrev meanwhile : List Act
meanwhile = pushes ∷ acquires 2 idle ∷ pops ∷ acquires 2 idle ∷ pushes ∷ []

one_more_open : inside 1 meanwhile 0 ≡ some 1
unfolding inside
one_more_open = refl

no_trespass : trespass 1 meanwhile ≡ false
unfolding trespass
no_trespass = refl

another_releases : trespass 1 (pushes ∷ releases 2 idle ∷ []) ≡ true
unfolding trespass
another_releases = refl

acquire-Held_example :
    (lk' : Spinlock) × (c' : Cpu) × (acquire 1 free_lock idle ≡ acquired lk' c')
    × Ends 1 1 true meanwhile (record { lock = lk'; cpu = c' })
acquire-Held_example =
    acquire-Held 1 0 1 true free_lock idle meanwhile idle-AtDepth refl one_more_open
