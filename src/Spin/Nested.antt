-- ===== src/Spin/Nested.antt =====
-- spinlock.c: calls of `pushcli` and `popcli` that match.
use os163_assi.Prelude.{
  ℕ, zero, suc, ◌-◌, ◌≡◌, ◌≢◌, refl, inl, inr, Bool, true, false, ◌&&◌, Option, none, some, List,
  [], ◌∷◌, ◌==◌, arith, Bool-cases,
}
use os163_assi.Kalloc.{Run, done, panicked}
use os163_assi.Spin.{Cpu, pushcli, popcli}

pub data Call : Type 0 where
  push pop : Call

pub calls : List Call → Cpu → Run Cpu (Unit {0})
unfolding pushcli popcli
calls [] c = done tt c
calls (push ∷ rest) c = calls rest (pushcli c)
calls (pop ∷ rest) c = elim (popcli c) [ panicked ↦ panicked | done _ c' ↦ calls rest c' ]

-- How deep the calls are nested at the end; none where more are popped than pushed.
unfoldable pub depth : List Call → ℕ → Option ℕ
depth [] n = some n
depth (push ∷ rest) n = depth rest (suc n)
depth (pop ∷ rest) zero = none
depth (pop ∷ rest) (suc n) = depth rest n

-- The interrupts at depth `n`, where they were `before` outside all of it
pub record AtDepth (before : Bool) (n : ℕ) (c : Cpu) : Type 0 where
  pub counted : c.ncli ≡ n
  pub off_inside : n ≢ 0 → c.flag_if ≡ false
  pub as_outside : n ≡ 0 → c.flag_if ≡ before
  pub remembered : n ≢ 0 → c.intena ≡ before

pub pushcli-AtDepth :
    (before : Bool) (n : ℕ) (c : Cpu) → AtDepth before n c → AtDepth before (suc n) (pushcli c)
unfolding pushcli
pushcli-AtDepth before n c at = elim (Bool-cases (n == 0)) [
  | inl outer ↦ record {
    counted = omega (arith, at.counted);
    off_inside = λ _. refl;
    as_outside = λ e. absurd (omega arith);
    remembered = λ _.
        let first : (c.ncli == 0) ≡ true = ground (arith, at.counted) in
        rw first (at.as_outside (ground arith));
  }
  | inr inner ↦ record {
    counted = omega (arith, at.counted);
    off_inside = λ _. refl;
    as_outside = λ e. absurd (omega arith);
    remembered = λ _.
        let later : (c.ncli == 0) ≡ false = ground (arith, at.counted) in
        rw later (at.remembered (ground arith));
  }
]

pub popcli-AtDepth :
    (before : Bool) (n : ℕ) (c : Cpu)
    → AtDepth before (suc n) c
    → (c' : Cpu) × (popcli c ≡ done tt c') × AtDepth before n c'
unfolding popcli
popcli-AtDepth before n c at =
    let off : c.flag_if ≡ false = at.off_inside (ground arith) in
    let some_left : (c.ncli == 0) ≡ false = ground (arith, at.counted) in
    let kept : c.intena ≡ before = at.remembered (ground arith) in
    let left : c.ncli - 1 ≡ n = omega (arith, at.counted) in
    (
      record c { ncli = c.ncli - 1; flag_if = (c.ncli - 1 == 0) && c.intena },
      rw (off, some_left) refl,
      record {
        counted = left;
        off_inside = λ ne. let inside : (n == 0) ≡ false = ground arith in rw (left, inside) refl;
        as_outside = λ e. let outside : (n == 0) ≡ true = ground arith in rw (left, outside) kept;
        remembered = λ _. kept;
      },
    )

calls_from :
    (before : Bool) (ops : List Call) (n k : ℕ) (c : Cpu)
    → AtDepth before n c
    → depth ops n ≡ some k
    → (c' : Cpu) × (calls ops c ≡ done tt c') × AtDepth before k c'
unfolding calls depth
calls_from before [] n k c at e = (c, refl, let same : n ≡ k = cc in rw same at at)
calls_from before (push ∷ ops) n k c at e =
    calls_from before ops (suc n) k (pushcli c) (pushcli-AtDepth before n c at) e
calls_from before (pop ∷ ops) zero k c at e = absurd cc
calls_from before (pop ∷ ops) (suc n) k c at e =
    let (c1, popped, at1) = popcli-AtDepth before n c at in
    let (c2, ends, at2) = calls_from before ops n k c1 at1 e in (c2, rw (popped, calls) ends, at2)

-- `pushcli` and `popcli` are matched. In whatever order they are called, as long as no more is popped
-- than was pushed, none panics; the interrupts are off until as many have been popped as were pushed,
-- and then they are on or off as they were before the first.
pub calls-AtDepth :
    (ops : List Call) (n : ℕ) (c : Cpu)
    → c.ncli ≡ 0
    → depth ops 0 ≡ some n
    → (c' : Cpu) × (calls ops c ≡ done tt c') × AtDepth c.flag_if n c'
calls-AtDepth ops n c outside e =
    calls_from c.flag_if ops 0 n c
      (record {
        counted = outside;
        off_inside = λ ne. absurd (ne refl);
        as_outside = λ _. refl;
        remembered = λ ne. absurd (ne refl);
      })
      e
