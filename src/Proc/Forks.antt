-- ===== src/Proc/Forks.antt =====
-- proc.c: `fork`, `cow_fork` and `exit` keep the invariant.
use os163_assi.Prelude.{
  ℕ, ◌≡◌, true, false, Option, none, some, ◌==◌, arith, refl, Bool-cases, inl, inr,
}
use os163_assi.Proc.{embryo, Table, is_unused, allocproc}
use os163_assi.Proc.Calls.{fork, cow_fork, fork_with}
use os163_assi.Proc.Inv.{is_runnable, Inv}
use os163_assi.Proc.Keeps.{NewProc, allocproc-Inv}

fork_with-Inv :
    (p : ℕ) (pgdir : Option ℕ) (t : Table) (res : Option (ℕ × ℕ) × Table)
    → NewProc t res
    → is_runnable (t.proc p).state ≡ true
    → Inv (fork_with p pgdir res).1
unfolding fork_with
fork_with-Inv p pgdir t (none, t') new runs = new.kept
fork_with-Inv p none t (some (c, i), t') new runs =
    let inv = new.kept in
    let born : (t'.proc c).state ≡ embryo = new.born c i refl in
    record {
      child = λ q j r k lt s par. elim (Bool-cases (c == q)) [
        | inr far ↦ ground (arith, inv.child q j r k lt)
        | inl here ↦ elim (Bool-cases (i == j)) [
          | inl this ↦ ground arith
          | inr other ↦ ground (arith, inv.child q j r k lt)
        ]
      ];
      join = λ q j k s. elim (Bool-cases (c == q)) [
        | inr far ↦ ground (arith, inv.join q j k)
        | inl here ↦ elim (Bool-cases (i == j)) [
          | inl this ↦ ground arith
          | inr other ↦ ground (arith, inv.join q j k)
        ]
      ];
      alive = λ q j lt al. elim (Bool-cases (c == q)) [
        | inr far ↦ ground (arith, inv.alive q j lt)
        | inl here ↦ elim (Bool-cases (i == j)) [
          | inl this ↦ ground arith
          | inr other ↦ ground (arith, inv.alive q j lt)
        ]
      ];
      own = λ k. ground (arith, inv.own k);
      init_runs = ground (arith, inv.init_runs);
      init_free = λ q. ground (arith, inv.init_free q);
    }
fork_with-Inv p (some d) t (some (c, i), t') new runs =
    let inv = new.kept in
    let born : (t'.proc c).state ≡ embryo = new.born c i refl in
    let free : is_unused (t.proc c).state ≡ true = new.free c i refl in
    let apart : (p == c) ≡ false = ground arith in
    record {
      child = λ q j r k lt s par. elim (Bool-cases (c == k)) [
        | inl new_one ↦ ground arith
        | inr old ↦ elim (Bool-cases (c == q)) [
          | inr far ↦ ground (arith, inv.child q j r k lt)
          | inl here ↦ elim (Bool-cases (i == j)) [
            | inl this ↦ ground arith
            | inr other ↦ ground (arith, inv.child q j r k lt)
          ]
        ]
      ];
      join = λ q j k s. elim (Bool-cases (c == q)) [
        | inr far ↦ ground (arith, inv.join q j k)
        | inl here ↦ elim (Bool-cases (i == j)) [
          | inl this ↦ ground arith
          | inr other ↦ ground (arith, inv.join q j k)
        ]
      ];
      alive = λ q j lt al. elim (Bool-cases (c == q)) [
        | inr far ↦ ground (arith, inv.alive q j lt)
        | inl here ↦ ground arith
      ];
      own = λ k. elim (Bool-cases (c == k)) [
        | inl here ↦ ground arith
        | inr far ↦ ground (arith, inv.own k)
      ];
      init_runs = ground (arith, inv.init_runs);
      init_free = λ q. ground (arith, inv.init_free q, inv.init_runs);
    }

pub fork-Inv :
    (p : ℕ) (stack pgdir : Option ℕ) (t : Table)
    → Inv t
    → is_runnable (t.proc p).state ≡ true
    → Inv (fork p stack pgdir t).1
unfolding fork
fork-Inv p stack pgdir t inv runs =
    fork_with-Inv p pgdir t (allocproc stack t) (allocproc-Inv stack t inv) runs

pub cow_fork-Inv :
    (p : ℕ) (stack pgdir : Option ℕ) (t : Table)
    → Inv t
    → is_runnable (t.proc p).state ≡ true
    → Inv (cow_fork p stack pgdir t).1
unfolding cow_fork
cow_fork-Inv p stack pgdir t inv runs =
    fork_with-Inv p pgdir t (allocproc stack t) (allocproc-Inv stack t inv) runs
