-- ===== src/Log/Reserve.antt =====
-- log.c: the space that `begin_op` reserves. It counts on ten calls of `log_write` by each operation;
-- what an operation has left of them is its budget, which it may overrun.
use os163_assi.Prelude.{
  ℕ, suc, ◌+◌, ◌-◌, ◌*◌, ◌≡◌, ◌≢◌, ◌≤◌, ◌<◌, Bool, true, false, List, [], ◌∷◌, ◌++◌, length, arith,
  refl, ap, sym, ◌∙◌, ◌&&◌, leb, length-append, sub32, Bool-cases, inl, inr, ◌==◌,
}
use os163_assi.Log.{Log, maxopblocks, goes_on, panics, begin_op, end_op, end_commit, log_write, has}

-- The log, the budgets of the operations that have begun and not ended, and whether one has overrun its
-- budget.
pub record System : Type 0 where
  pub log : Log
  pub budgets : List ℕ
  pub overrun : Bool

-- An operation begins, writes a block, or ends; or the commit that the last one started ends. A
-- panic halts the machine, and one that sleeps tries again later.
pub data Step (s : System) : System → Type 0 where
  begins :
      {log' : Log}
      → begin_op s.log ≡ goes_on log'
      → Step s (record s { log = log'; budgets = maxopblocks ∷ s.budgets })
  writes :
      (pre post : List ℕ) (left b : ℕ) {log' : Log}
      → s.budgets ≡ pre ++ (suc left ∷ post)
      → log_write b s.log ≡ goes_on log'
      → Step s (record s { log = log'; budgets = pre ++ (left ∷ post) })
  overruns :
      (pre post : List ℕ) (b : ℕ) {log' : Log}
      → s.budgets ≡ pre ++ (0 ∷ post)
      → log_write b s.log ≡ goes_on log'
      → Step s (record s { log = log'; overrun = true })
  ends :
      (pre post : List ℕ) (left : ℕ) {log' : Log}
      → s.budgets ≡ pre ++ (left ∷ post)
      → (end_op s.log).1 ≡ goes_on log'
      → Step s (record s { log = log'; budgets = pre ++ post })
  commits : s.log.committing ≡ true → Step s (record s { log = end_commit s.log })

-- From the log as `initlog` leaves it, with `size` blocks on the disk.
pub data Reach (size : ℕ) : System → Type 0 where
  start : Reach size (record {
    log = record { size = size; outstanding = 0; committing = false; block = [] };
    budgets = [];
    overrun = false;
  })
  later : {s t : System} → Reach size s → Step s t → Reach size t

abbrev sum : List ℕ → ℕ
sum [] = 0
sum (n ∷ rest) = n + sum rest

sum-append : (xs ys : List ℕ) → sum (xs ++ ys) ≡ sum xs + sum ys
sum-append [] ys = omega arith
sum-append (x ∷ xs) ys = omega (arith, sum-append xs ys)

abbrev small : List ℕ → Bool
small [] = true
small (n ∷ rest) = leb n 10 && small rest

small-append : (xs ys : List ℕ) → small (xs ++ ys) ≡ (small xs && small ys)
small-append [] ys = refl
small-append (x ∷ xs) ys = ground (arith, small-append xs ys)

sum-small : (ns : List ℕ) → small ns ≡ true → sum ns ≤ 10 * length ns
sum-small [] h = omega arith
sum-small (n ∷ ns) h = ground (arith, sum-small ns)

-- The blocks in the log and those that may still come fit, and nobody writes during a commit.
record Inv (size : ℕ) (s : System) : Type 0 where
  on_disk : s.log.size ≡ size
  counted : s.log.outstanding ≡ length s.budgets
  few : length s.budgets ≤ 3
  each : small s.budgets ≡ true
  fits : length s.log.block + sum s.budgets ≤ 30
  quiet : s.log.committing ≡ true → length s.budgets ≡ 0

begin_op-Inv :
    {size : ℕ} {s : System} (log' : Log)
    → Inv size s
    → begin_op s.log ≡ goes_on log'
    → Inv size (record s { log = log'; budgets = maxopblocks ∷ s.budgets })
unfolding begin_op
begin_op-Inv {size} {s} log' i runs = record {
  on_disk = ground (arith, i.on_disk);
  counted = ground (arith, i.counted);
  few = ground (arith, i.counted, i.few);
  each = ground (arith, i.each);
  fits = ground (arith, i.counted, sum-small s.budgets i.each, i.fits);
  quiet = λ c. ground (arith, i.quiet);
}

-- The budgets, split at the operation that makes the step.
length_split :
    (pre post : List ℕ) (left : ℕ) → length (pre ++ (left ∷ post)) ≡ length pre + suc (length post)
length_split pre post left = omega (arith, length-append pre (left ∷ post))

sum_split :
    (pre post : List ℕ) (left : ℕ) → sum (pre ++ (left ∷ post)) ≡ sum pre + (left + sum post)
sum_split pre post left = omega (arith, sum-append pre (left ∷ post))

end_op-Inv :
    {size : ℕ} {s : System} (pre post : List ℕ) (left : ℕ)
    → Inv size s
    → s.budgets ≡ pre ++ (left ∷ post)
    → (log' : Log) × ((end_op s.log).1 ≡ goes_on log')
      × Inv size (record s { log = log'; budgets = pre ++ post })
unfolding end_op
end_op-Inv {size} {s} pre post left i at =
    let len : length s.budgets ≡ length pre + suc (length post) =
      ap length at ∙ length_split pre post left in
    let total : sum s.budgets ≡ sum pre + (left + sum post) = ap sum at ∙ sum_split pre post left in
    let bounded = sym (ap small at ∙ small-append pre (left ∷ post)) ∙ i.each in
    elim (Bool-cases (sub32 s.log.outstanding 1 == 0)) [
      | inl last ↦ (
        record s.log { outstanding = sub32 s.log.outstanding 1; committing = true },
        ground (arith, i.quiet),
        record {
          on_disk = i.on_disk;
          counted = ground (arith, i.counted, i.few, length-append pre post);
          few = omega (arith, i.few, length-append pre post);
          each = rw (small-append pre post) (ground arith);
          fits = omega (arith, i.fits, sum-append pre post);
          quiet = λ c. ground (arith, i.counted, i.few, length-append pre post);
        },
      )
      | inr more ↦ (
        record s.log { outstanding = sub32 s.log.outstanding 1 },
        ground (arith, i.quiet),
        record {
          on_disk = i.on_disk;
          counted = ground (arith, i.counted, i.few, length-append pre post);
          few = omega (arith, i.few, length-append pre post);
          each = rw (small-append pre post) (ground arith);
          fits = omega (arith, i.fits, sum-append pre post);
          quiet = λ c. omega (arith, i.quiet c);
        },
      )
    ]

log_write-Inv :
    {size : ℕ} {s : System} (pre post : List ℕ) (left b : ℕ)
    → Inv size s
    → leb (size - 1) (length s.log.block) ≡ false
    → s.budgets ≡ pre ++ (suc left ∷ post)
    → (log' : Log) × (log_write b s.log ≡ goes_on log')
      × Inv size (record s { log = log'; budgets = pre ++ (left ∷ post) })
unfolding log_write
log_write-Inv {size} {s} pre post left b i enough at =
    let len : length s.budgets ≡ length pre + suc (length post) =
      ap length at ∙ length_split pre post (suc left) in
    let total : sum s.budgets ≡ sum pre + (suc left + sum post) =
      ap sum at ∙ sum_split pre post (suc left) in
    let bounded = sym (ap small at ∙ small-append pre (suc left ∷ post)) ∙ i.each in
    elim (Bool-cases (has b s.log.block)) [
      | inl there ↦ (
        s.log,
        ground (arith, i.on_disk, i.counted, i.few, i.fits),
        record {
          on_disk = i.on_disk;
          counted = omega (arith, i.counted, length_split pre post left);
          few = omega (arith, i.few, length_split pre post left);
          each = rw (small-append pre (left ∷ post)) (ground arith);
          fits = omega (arith, i.fits, sum_split pre post left);
          quiet = λ c. omega (arith, i.quiet c, length_split pre post left);
        },
      )
      | inr fresh ↦ (
        record s.log { block = s.log.block ++ (b ∷ []) },
        ground (arith, i.on_disk, i.counted, i.few, i.fits),
        record {
          on_disk = i.on_disk;
          counted = omega (arith, i.counted, length_split pre post left);
          few = omega (arith, i.few, length_split pre post left);
          each = rw (small-append pre (left ∷ post)) (ground arith);
          fits = omega (arith, i.fits, sum_split pre post left, length-append s.log.block (b ∷ []));
          quiet = λ c. omega (arith, i.quiet c, length_split pre post left);
        },
      )
    ]

-- A write that succeeds has room on the disk.
write_room :
    {size : ℕ} {s : System} (b : ℕ) (log' : Log)
    → Inv size s
    → log_write b s.log ≡ goes_on log'
    → leb (size - 1) (length s.log.block) ≡ false
unfolding log_write
write_room {size} {s} b log' i runs = elim (Bool-cases (leb (size - 1) (length s.log.block))) [
  | inr room ↦ room
  | inl full ↦ absurd (stopped (ground (arith, i.on_disk)) runs)
]
  where
    stopped : log_write b s.log ≡ panics → log_write b s.log ≡ goes_on log' → ⊥
    stopped bad good = cc

Step-Inv :
    {size : ℕ} {s t : System}
    → (s.overrun ≡ false → Inv size s)
    → Step s t
    → t.overrun ≡ false
    → Inv size t
unfolding end_commit
Step-Inv inv (begins {log'} runs) kept = begin_op-Inv log' (inv kept) runs
Step-Inv {s = s} inv (writes pre post left b {log'} at runs) kept =
    let i = inv kept in
    let (log2, runs2, kept2) = log_write-Inv pre post left b i (write_room b log' i runs) at in
    let same : log2 ≡ log' = cc in rw (sym same) kept2
Step-Inv inv (overruns pre post b at runs) kept = absurd cc
Step-Inv {s = s} inv (ends pre post left {log'} at runs) kept =
    let (log2, runs2, kept2) = end_op-Inv pre post left (inv kept) at in
    let same : log2 ≡ log' = cc in rw (sym same) kept2
Step-Inv inv (commits busy) kept =
    let i = inv kept in
    record {
      on_disk = i.on_disk;
      counted = i.counted;
      few = i.few;
      each = i.each;
      fits = omega (arith, i.fits);
      quiet = λ c. i.quiet busy;
    }

Reach-Inv : {size : ℕ} {s : System} → Reach size s → s.overrun ≡ false → Inv size s
Reach-Inv start kept = record {
  on_disk = refl;
  counted = refl;
  few = omega arith;
  each = refl;
  fits = omega arith;
  quiet = λ c. refl;
}
Reach-Inv (later r st) kept = Step-Inv (Reach-Inv r) st kept

-- The reservation is enough. In every state that is reached with no operation that calls `log_write`
-- more than ten times, an operation that has begun and has called it fewer than ten times can end
-- without a panic, and write another block: that panics only if the log on the disk has no block left
-- for it, which with more than 30 blocks on the disk does not happen.
pub reserve_is_enough :
    {size : ℕ} {s : System} (pre post : List ℕ) (left b : ℕ)
    → Reach size s
    → s.overrun ≡ false
    → s.budgets ≡ pre ++ (suc left ∷ post)
    → ((end_op s.log).1 ≢ panics)
      × (log_write b s.log ≡ panics → size ≤ suc (length s.log.block))
      × (30 < size → log_write b s.log ≢ panics)
reserve_is_enough {size} {s} pre post left b r kept at =
    let i = Reach-Inv r kept in
    let total : sum s.budgets ≡ sum pre + (suc left + sum post) =
      ap sum at ∙ sum_split pre post (suc left) in
    (
      λ bad. let (log', runs, kept2) = end_op-Inv pre post (suc left) i at in cc,
      λ bad. no_room i bad,
      λ enough bad. absurd (omega (arith, no_room i bad, i.fits, total)),
    )
  where
    no_room : Inv size s → log_write b s.log ≡ panics → size ≤ suc (length s.log.block)
    no_room i bad = elim (Bool-cases (leb (size - 1) (length s.log.block))) [
      | inl full ↦ ground arith
      | inr room ↦ let (log', runs, kept2) = log_write-Inv pre post left b i room at in absurd (cc)
    ]
