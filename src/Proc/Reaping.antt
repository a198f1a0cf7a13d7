-- ===== src/Proc/Reaping.antt =====
-- proc.c: what `wait` and `cow_wait` promise, whichever way a pass of their loop ends.
use os163_assi.Prelude.{
  ℕ, ◌≡◌, ◌<◌, ◌⊎◌, Bool, true, false, ◌&&◌, List, ◌∷◌, ◌==◌, arith, refl, Bool-cases, Option-cases,
  inl, inr, find_first, find_first-Found, find_first-none, minus_one,
}
use os163_assi.Proc.{unused, proc_chan, Table, nproc, nthread, is_zombie}
use os163_assi.Proc.Calls.{
  is_parent, is_left, wait, reap, reaped, sleep, returns, sleeps, gone, panics, Outcome, stacks,
}

-- The process `k` is a zombie child of `p`.
abbrev pub ZombieChild : Table → ℕ → ℕ → Type 0
ZombieChild t p k =
    (k < nproc) × (is_parent (t.proc k).parent p ≡ true) × (is_zombie (t.proc k).state ≡ true)

abbrev pub NoZombieChild : Table → ℕ → Type 0
NoZombieChild t p =
    (k : ℕ) → k < nproc → (is_parent (t.proc k).parent p && is_zombie (t.proc k).state) ≡ false

-- A child was found dead, with all its threads, and its place is free; or there is nothing to wait
-- for.
pub data Ended (p : ℕ) (t : Table) (r : ℕ) (pages : List ℕ) (t' : Table) : Type 0 where
  reaps :
      (k : ℕ)
      → ZombieChild t p k
      → ((j : ℕ) → j < nthread → is_left ((t.proc k).threads j).state ≡ false)
      → r ≡ (t.proc k).pid
      → pages ≡ (t.proc k).pgdir ∷ stacks (t.proc k).threads nthread
      → (t'.proc k).state ≡ unused
      → ((q : ℕ) → (k == q) ≡ false → t'.proc q ≡ t.proc q)
      → Ended p t r pages t'
  gives_up :
      r ≡ minus_one
      → t' ≡ t
      → NoZombieChild t p
      → ((k : ℕ) → k < nproc → is_parent (t.proc k).parent p ≡ false) ⊎ ((t.proc p).killed ≡ true)
      → Ended p t r pages t'

abbrev pub Waited : ℕ → ℕ → Table → Outcome → Type 0
Waited p i t (returns r pages t') = Ended p t r pages t'
Waited p i t (sleeps t') =
    NoZombieChild t p
    × ((k : ℕ) × (k < nproc) × (is_parent (t.proc k).parent p ≡ true))
    × ((t.proc p).killed ≡ false)
    × (t' ≡ sleep p i (proc_chan p) t)
Waited p i t (gone t') = ⊥
Waited p i t panics =
    (k j : ℕ) × ZombieChild t p k × (j < nthread) × (is_left ((t.proc k).threads j).state ≡ true)

reap-Waited : (p i k : ℕ) (t : Table) → ZombieChild t p k → Waited p i t (reap k t)
unfolding reap reaped
reap-Waited p i k t died =
    let left : ℕ → Bool = λ j. is_left ((t.proc k).threads j).state in
    elim (Option-cases (find_first left nthread 0)) [
      | inr (j, e) ↦
          let f = find_first-Found left nthread 0 j e in
          rw (e, reap) (k, j, died, omega (arith, f.below), f.hit)
      | inl e ↦
          rw (e, reap)
            (reaps k died (λ j lt. find_first-none left nthread 0 j e (omega arith) (omega arith))
              refl refl (ground arith) (λ q far. ground arith))
    ]

-- A pass of `wait` reaps a zombie child whose threads are all dead, and changes no other process; it
-- returns -1 only if there is no zombie child, and no child or the caller is killed; it sleeps only
-- if there is a child, none is a zombie, and the caller is not killed; and it panics only if a zombie
-- child has a thread that is neither unused nor a zombie.
pub wait-Waited : (p i : ℕ) (t : Table) → Waited p i t (wait p i t)
unfolding wait
wait-Waited p i t =
    let dead : ℕ → Bool = λ k. is_parent (t.proc k).parent p && is_zombie (t.proc k).state in
    let kid : ℕ → Bool = λ k. is_parent (t.proc k).parent p in
    elim (Option-cases (find_first dead nproc 0)) [
      | inr (k, e) ↦
          let f = find_first-Found dead nproc 0 k e in
          rw (e, wait)
            (reap-Waited p i k t
              (omega (arith, f.below), ground (arith, f.hit), ground (arith, f.hit)))
      | inl e ↦
          let none_dead : NoZombieChild t p =
            λ k lt. find_first-none dead nproc 0 k e (omega arith) (omega arith) in
          elim (Option-cases (find_first kid nproc 0)) [
            | inl e2 ↦
                rw (e, e2, wait)
                  (gives_up refl refl none_dead
                    (inl (λ k lt. find_first-none kid nproc 0 k e2 (omega arith) (omega arith))))
            | inr (k, e2) ↦
                let f = find_first-Found kid nproc 0 k e2 in
                elim (Bool-cases (t.proc p).killed) [
                  | inl dies ↦ rw (e, e2, dies, wait) (gives_up refl refl none_dead (inr dies))
                  | inr lives ↦
                      let runs : wait p i t ≡ sleeps (sleep p i (proc_chan p) t) = ground arith in
                      rw runs (none_dead, (k, omega (arith, f.below), f.hit), lives, refl)
                ]
          ]
    ]
