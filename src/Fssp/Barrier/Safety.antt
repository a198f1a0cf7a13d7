-- ===== src/Fssp/Barrier/Safety.antt =====
-- What the barrier of fssp.c promises to its threads.
use os163_assi.Prelude.{
  ℕ, suc, ◌≡◌, ◌≤◌, ◌<◌, inl, inr, refl, ap, true, false, arith, how_many_none, how_many_some,
  how_many_fails, Bool-cases,
}
use os163_assi.Fssp.Barrier.{
  Barrier, Pc, outside, counting, gathered, draining, Move, enter, count, leave, drain, System,
  Step, pick, Reach,
}
use os163_assi.Fssp.Barrier.Phases.{
  is_counting, is_gathered, is_draining, may_fill, may_empty, Filling, Emptying, Reach-Inv,
}

-- How many calls of `inc_barrier` a thread has returned from, and in how many it has been counted.
abbrev pub returned : Pc → ℕ
returned (outside c) = c
returned (counting c) = c
returned (gathered c) = c
returned (draining c) = c

abbrev pub arrived : Pc → ℕ
arrived (outside c) = c
arrived (counting c) = c
arrived (gathered c) = suc c
arrived (draining c) = suc c

fill_bounds : (g : ℕ) (p : Pc) → may_fill g p ≡ true → (returned p ≡ g) × (g ≤ arrived p)
fill_bounds g (outside c) h = ground arith
fill_bounds g (counting c) h = ground arith
fill_bounds g (gathered c) h = ground arith
fill_bounds g (draining c) h = cc

empty_bounds : (g : ℕ) (p : Pc) → may_empty g p ≡ true → (returned p ≤ suc g) × (arrived p ≡ suc g)
empty_bounds g (outside c) h = ground arith
empty_bounds g (counting c) h = cc
empty_bounds g (gathered c) h = ground arith
empty_bounds g (draining c) h = ground arith

-- The barrier holds. Of `n` threads that call `inc_barrier` on a barrier with the limit `n`, in any
-- interleaving, none returns from its k-th call before every one of them has been counted in its
-- own k-th call.
pub barrier_holds :
    {n : ℕ} {s : System} (i j : ℕ)
    → Reach n s
    → i < n
    → j < n
    → returned (s.pc i) ≤ arrived (s.pc j)
barrier_holds {s} i j r hi hj = elim (Reach-Inv (omega arith) r) [
  | inl (g, f) ↦
      omega (arith, fill_bounds g (s.pc i) (f.places i hi), fill_bounds g (s.pc j) (f.places j hj))
  | inr (g, e) ↦
      omega
        (arith, empty_bounds g (s.pc i) (e.places i hi), empty_bounds g (s.pc j) (e.places j hj))
]

-- Where some thread stands in the filling phase while the first mutex is free.
entering :
    (g : ℕ) (p : Pc)
    → may_fill g p ≡ true
    → is_gathered p ≡ false
    → is_counting p ≡ false
    → p ≡ outside g
entering g (outside c) h k l = ap outside (ground arith)
entering g (counting c) h k l = cc
entering g (gathered c) h k l = cc
entering g (draining c) h k l = cc

counting_at : (p : Pc) → is_counting p ≡ true → (c : ℕ) × (p ≡ counting c)
counting_at (counting c) h = (c, refl)
counting_at (outside c) h = cc
counting_at (gathered c) h = cc
counting_at (draining c) h = cc

gathered_at : (p : Pc) → is_gathered p ≡ true → (c : ℕ) × (p ≡ gathered c)
gathered_at (gathered c) h = (c, refl)
gathered_at (outside c) h = cc
gathered_at (counting c) h = cc
gathered_at (draining c) h = cc

draining_at : (p : Pc) → is_draining p ≡ true → (c : ℕ) × (p ≡ draining c)
draining_at (draining c) h = (c, refl)
draining_at (outside c) h = cc
draining_at (counting c) h = cc
draining_at (gathered c) h = cc

-- A thread that can move gives a step of the system.
taken_turn :
    {n : ℕ} {s : System} {b' : Barrier} {p' : Pc} (i : ℕ) (p : Pc)
    → i < n
    → s.pc i ≡ p
    → Move s.barrier p b' p'
    → (t : System) × Step n s t
taken_turn {s} {b'} {p'} i p lt at mv = (_, pick i {b' = b'} {p' = p'} lt (rw at mv))

fill_steps : {n : ℕ} (s : System) (g : ℕ) → Filling n g s.barrier s.pc → (t : System) × Step n s t
fill_steps {n} s g f = elim (Bool-cases s.barrier.pre_mx) [
  | inl busy ↦
      let (i, lt, at) = how_many_some is_counting n s.pc (ground (arith, f.holder)) in
      let (c, here) = counting_at (s.pc i) at in taken_turn i (counting c) lt here count
  | inr idle ↦
      let (i, lt, at) = how_many_fails is_gathered n s.pc (omega (arith, f.counter, f.room)) in
      let here =
        entering g (s.pc i) (f.places i lt) at
          (how_many_none is_counting n s.pc i (ground (arith, f.holder)) lt) in
      taken_turn i (outside g) lt here (enter idle)
]

empty_steps : {n : ℕ} (s : System) (g : ℕ) → Emptying n g s.barrier s.pc → (t : System) × Step n s t
empty_steps {n} s g e = elim (Bool-cases s.barrier.post_mx) [
  | inl busy ↦
      let (i, lt, at) = how_many_some is_draining n s.pc (ground (arith, e.holder)) in
      let (c, here) = draining_at (s.pc i) at in taken_turn i (draining c) lt here drain
  | inr idle ↦
      let (i, lt, at) = how_many_some is_gathered n s.pc (ground (arith, e.counter, e.some_left)) in
      let (c, here) = gathered_at (s.pc i) at in taken_turn i (gathered c) lt here (leave idle)
]

-- The barrier never deadlocks: with at least one thread, in every reachable state some thread can
-- make its next step.
pub no_deadlock : {n : ℕ} {s : System} → 0 < n → Reach n s → (t : System) × Step n s t
no_deadlock {s} pos r = elim (Reach-Inv pos r) [
  | inl (g, f) ↦ fill_steps s g f
  | inr (g, e) ↦ empty_steps s g e
]
