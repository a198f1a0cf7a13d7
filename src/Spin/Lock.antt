-- ===== src/Spin/Lock.antt =====
-- spinlock.c: a processor between `acquire` and `release`, with all that it and the others do.
use os163_assi.Prelude.{
  ℕ, zero, suc, ◌+◌, ◌≡◌, refl, inl, inr, Bool, true, false, not, ◌||◌, sym, Option, none, some,
  List, [], ◌∷◌, if◌then◌else◌, ◌==◌, arith, Bool-cases,
}
use os163_assi.Kalloc.{Run, done, panicked}
use os163_assi.Spin.{
  Cpu, pushcli, popcli, Spinlock, initlock, holding, Acquired, acquired, spinning, acquire_panics,
  acquire, release,
}
use os163_assi.Spin.Nested.{AtDepth, pushcli-AtDepth, popcli-AtDepth}

-- What happens on the machine: the processor `me` calls `pushcli` or `popcli`, as other locks make it
-- do, or it or another processor, in any state, tries to acquire or to release this lock.
pub data Act : Type 0 where
  pushes pops : Act
  acquires releases : (who : ℕ) (c : Cpu) → Act

-- The lock and the processor `me`
pub record Pair : Type 0 where
  pub lock : Spinlock
  pub cpu : Cpu

after_acquire : ℕ → ℕ → Pair → Acquired → Pair
after_acquire me who s (acquired lk c) = record { lock = lk; cpu = if who == me then c else s.cpu }
after_acquire me who s (spinning c) = record s { cpu = if who == me then c else s.cpu }
after_acquire me who s acquire_panics = s

-- One act; a panic halts the machine. The processor `me` acts in its own state.
act : ℕ → Act → Pair → Run Pair (Unit {0})
unfolding after_acquire
act me pushes s = done tt (record s { cpu = pushcli s.cpu })
act me pops s = elim (popcli s.cpu) [
  | panicked ↦ panicked
  | done _ c ↦ done tt (record s { cpu = c })
]
act me (acquires who c) s = elim (acquire who s.lock (if who == me then s.cpu else c)) [
  | acquire_panics ↦ panicked
  | r ↦ done tt (after_acquire me who s r)
]
act me (releases who c) s = elim (release who s.lock (if who == me then s.cpu else c)) [
  | panicked ↦ panicked
  | done lk c' ↦ done tt (record { lock = lk; cpu = if who == me then c' else s.cpu })
]

pub acts : ℕ → List Act → Pair → Run Pair (Unit {0})
unfolding act
acts me [] s = done tt s
acts me (a ∷ rest) s = elim (act me a s) [ panicked ↦ panicked | done _ s' ↦ acts me rest s' ]

-- How many calls of `pushcli` by `me` are open after the acts, beyond those at the start; none where it
-- pops more than it pushed, or releases the lock.
unfoldable pub inside : ℕ → List Act → ℕ → Option ℕ
inside me [] k = some k
inside me (pushes ∷ rest) k = inside me rest (suc k)
inside me (pops ∷ rest) zero = none
inside me (pops ∷ rest) (suc k) = inside me rest k
inside me (acquires who c ∷ rest) k = inside me rest k
inside me (releases who c ∷ rest) k = elim (who == me) [ true ↦ none | false ↦ inside me rest k ]

-- Does `me` acquire the lock a second time, or another processor release it?
unfoldable pub trespass : ℕ → List Act → Bool
trespass me [] = false
trespass me (pushes ∷ rest) = trespass me rest
trespass me (pops ∷ rest) = trespass me rest
trespass me (acquires who c ∷ rest) = (who == me) || trespass me rest
trespass me (releases who c ∷ rest) = not (who == me) || trespass me rest

-- While the processor `me` has the lock: its interrupts are off, it would panic if it took the lock
-- again, every other processor spins and may not release it, and its own release leaves the lock as
-- `initlock` does and the interrupts as they are at depth `n`.
pub record Held (me n : ℕ) (before : Bool) (s : Pair) : Type 0 where
  pub held : holding me s.lock ≡ true
  pub off : s.cpu.flag_if ≡ false
  pub again : acquire me s.lock s.cpu ≡ acquire_panics
  pub excluded :
      (other : ℕ) (c2 : Cpu)
      → (me == other) ≡ false
      → (acquire other s.lock c2 ≡ spinning (pushcli c2)) × (release other s.lock c2 ≡ panicked)
  pub freed : (c' : Cpu) × (release me s.lock s.cpu ≡ done initlock c') × AtDepth before n c'

abbrev taken_by : ℕ → Spinlock
taken_by me = record { locked = true; cpu = some me }

taken-Held :
    (me n : ℕ) (before : Bool) (c : Cpu)
    → AtDepth before (suc n) c
    → Held me n before (record { lock = taken_by me; cpu = c })
unfolding acquire release holding initlock
taken-Held me n before c at =
    let mine : (me == me) ≡ true = ground arith in
    let (c2, popped, at2) = popcli-AtDepth before n c at in
    record {
      held = rw mine refl;
      off = at.off_inside (ground arith);
      again = rw mine refl;
      excluded = λ other c3 ne. rw ne (refl, refl);
      freed = (c2, rw (mine, popped) refl, at2);
    }

-- After the acts, unless one of them panicked
abbrev pub Ends : ℕ → ℕ → Bool → List Act → Pair → Type 0
Ends me n before ops s =
    (s' : Pair) × (acts me ops s ≡ (if trespass me ops then panicked else done tt s'))
    × Held me n before s'

acts_inside :
    (me n k j : ℕ) (before : Bool) (ops : List Act) (c : Cpu)
    → AtDepth before (suc (n + j)) c
    → inside me ops j ≡ some k
    → Ends me (n + k) before ops (record { lock = taken_by me; cpu = c })
unfolding acts inside trespass acquire release holding after_acquire
acts_inside me n k j before [] c at e =
    let same : j ≡ k = cc in (_, refl, taken-Held me (n + k) before c (rw (sym same) at))
acts_inside me n k j before (pushes ∷ ops) c at e =
    acts_inside me n k (suc j) before ops (pushcli c)
      (let deeper : n + suc j ≡ suc (n + j) = omega arith in
        rw deeper (pushcli-AtDepth before (suc (n + j)) c at))
      e
acts_inside me n k zero before (pops ∷ ops) c at e = absurd cc
acts_inside me n k (suc j) before (pops ∷ ops) c at e =
    let deeper : n + suc j ≡ suc (n + j) = omega arith in
    let (c1, popped, at1) = popcli-AtDepth before (n + suc j) c at in
    let (s', ends, held) = acts_inside me n k j before ops c1 (rw (sym deeper) at1) e in
    (s', rw (popped, acts, act) ends, held)
acts_inside me n k j before (acquires who c2 ∷ ops) c at e =
    let (s', ends, held) = acts_inside me n k j before ops c at e in
    elim (Bool-cases (who == me)) [
      | inl mine ↦
          let turned : (me == who) ≡ true = ground arith in
          (s', rw (mine, acts, act, acquire, holding, turned) refl, held)
      | inr other ↦
          let turned : (me == who) ≡ false = ground arith in
          (s', rw (other, acts, act, acquire, holding, turned, other) ends, held)
    ]
acts_inside me n k j before (releases who c2 ∷ ops) c at e = elim (Bool-cases (who == me)) [
  | inl mine ↦ (let none_left = rw (mine, inside) at e in absurd cc)
  | inr other ↦
      let turned : (me == who) ≡ false = ground arith in
      let (s', ends, held) = acts_inside me n k j before ops c at (rw (other, inside) at e) in
      (s', rw (other, acts, act, release, holding, turned) refl, held)
]

-- A processor that takes a free lock keeps it until its own `release`, whatever happens before that:
-- it may call `pushcli` and `popcli` in any order, not popping more than it pushed since, and other
-- processors may try the lock as often as they like. A second `acquire` by the owner and a `release` by
-- another processor panic, and nothing else does. After any such acts that do not panic the owner holds
-- the lock, its interrupts are off, every other processor spins, and the owner's release makes the lock
-- as `initlock` does; if it has popped what it pushed since, its interrupts are then as before `acquire`.
pub acquire-Held :
    (me n k : ℕ) (before : Bool) (lk : Spinlock) (c : Cpu) (ops : List Act)
    → AtDepth before n c
    → lk.locked ≡ false
    → inside me ops 0 ≡ some k
    → (lk' : Spinlock) × (c' : Cpu) × (acquire me lk c ≡ acquired lk' c')
      × Ends me (n + k) before ops (record { lock = lk'; cpu = c' })
unfolding acquire holding
acquire-Held me n k before lk c ops at free e =
    let start : n + 0 ≡ n = omega arith in
    (
      taken_by me,
      pushcli c,
      rw free refl,
      acts_inside me n k 0 before ops (pushcli c) (rw start (pushcli-AtDepth before n c at)) e,
    )
