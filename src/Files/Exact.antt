-- ===== src/Files/Exact.antt =====
-- The counts of the file table in every history of calls.
use os163_assi.Prelude.{
  ℕ, zero, suc, ◌+◌, ◌≡◌, ◌≢◌, ◌≤◌, ◌<◌, ◌==◌, bit, Bool, Option, none, some, List, update, arith,
  replicate, refl, sym,
}
use os163_assi.Files.{
  System, dup_begin, dup_end, close_begin, close_end, sys_open, fork_files, exit_files, boot,
  nofile, nfile, no_file,
}
use os163_assi.Files.Table.{ref_of, count}
use os163_assi.Files.Users.{
  Pc, idle, duping, closing, Running, holds, total, total_zero, nproc, IsCounted, count-empty,
}
use os163_assi.Files.Calls.{
  dup_begin-IsCounted, dup_end-IsCounted, close_begin-IsCounted, close_end-IsCounted,
  sys_open-IsCounted, fork_files-IsCounted, exit_files-IsCounted,
}

-- What one of the processes does next, in any order. `dup` and `close` are two steps each, between which
-- all other processes run; `open`, `fork` and `exit` are one. A process is inside one call at a time, so
-- that no two of its threads are, and none calls `pipe`. A panic halts the machine. The slot of a child
-- has no open files.
pub data Step (c : Running) : Running → Type 0 where
  dup_begins :
      (p fd i fd' : ℕ) {t : System}
      → p < nproc
      → c.pc p ≡ idle
      → dup_begin p fd c.sys ≡ some (i, fd', t)
      → Step c (record { sys = t; pc = update c.pc p (duping i fd') })
  dup_ends :
      (p i fd : ℕ) {t : System}
      → p < nproc
      → c.pc p ≡ duping i fd
      → dup_end i c.sys ≡ some t
      → Step c (record { sys = t; pc = update c.pc p idle })
  close_begins :
      (p fd i : ℕ) {t : System}
      → p < nproc
      → c.pc p ≡ idle
      → close_begin p fd c.sys ≡ some (i, t)
      → Step c (record { sys = t; pc = update c.pc p (closing i) })
  close_ends :
      (p i : ℕ) {t : System}
      → p < nproc
      → c.pc p ≡ closing i
      → close_end i c.sys ≡ some t
      → Step c (record { sys = t; pc = update c.pc p idle })
  opens :
      (p ip r : ℕ) (readable writable : Bool) {t : System}
      → p < nproc
      → c.pc p ≡ idle
      → sys_open ip readable writable p c.sys ≡ some (r, t)
      → Step c (record c { sys = t })
  forks :
      (p child : ℕ) {t : System}
      → p < nproc
      → child < nproc
      → c.pc p ≡ idle
      → c.pc child ≡ idle
      → c.sys.ofile child ≡ replicate nofile none
      → fork_files p child c.sys ≡ some t
      → Step c (record c { sys = t })
  exits :
      (p : ℕ) {t : System}
      → p < nproc
      → c.pc p ≡ idle
      → exit_files p c.sys ≡ some t
      → Step c (record c { sys = t })

pub data Reach : Running → Type 0 where
  start : Reach (record { sys = boot; pc = λ p. idle })
  later : {c t : Running} → Reach c → Step c t → Reach t

boot_ref : (n i : ℕ) → ref_of (replicate n no_file) i ≡ 0
boot_ref zero i = refl
boot_ref (suc n) zero = refl
boot_ref (suc n) (suc i) = boot_ref n i

Step-IsCounted : {c t : Running} → IsCounted c → Step c t → IsCounted t
Step-IsCounted {c} counts (dup_begins p fd i fd' {t} lt out runs) =
    dup_begin-IsCounted c p fd i fd' t counts lt out runs
Step-IsCounted {c} counts (dup_ends p i fd {t} lt at runs) =
    let (t', runs', counts') = dup_end-IsCounted c p i fd counts lt at in
    let same : t' ≡ t = cc in rw (sym same) counts'
Step-IsCounted {c} counts (close_begins p fd i {t} lt out runs) =
    close_begin-IsCounted c p fd i t counts lt out runs
Step-IsCounted {c} counts (close_ends p i {t} lt at runs) =
    let (t', runs', counts') = close_end-IsCounted c p i counts lt at in
    let same : t' ≡ t = cc in rw (sym same) counts'
Step-IsCounted {c} counts (opens p ip _ readable writable {t} lt out runs) =
    let (r', t', runs', counts') = sys_open-IsCounted c ip p readable writable counts lt out in
    let same : t' ≡ t = cc in rw (sym same) counts'
Step-IsCounted {c} counts (forks p child {t} lt lt' out out' empty runs) =
    let (t', runs', counts') = fork_files-IsCounted c p child counts lt lt' out out' empty in
    let same : t' ≡ t = cc in rw (sym same) counts'
Step-IsCounted {c} counts (exits p {t} lt out runs) =
    let (t', runs', counts') = exit_files-IsCounted c p counts lt out in
    let same : t' ≡ t = cc in rw (sym same) counts'

Reach-IsCounted : {c : Running} → Reach c → IsCounted c
unfolding holds
Reach-IsCounted start = record {
  counted = λ k. omega (
    arith,
    boot_ref nfile k,
    total_zero nproc (λ p. holds k (boot.ofile p) idle) (λ p. count-empty k nofile),
  );
  twice = λ p i fd e. absurd cc;
}
Reach-IsCounted (later r st) = Step-IsCounted (Reach-IsCounted r) st

-- Is the process between `fdalloc` and `filedup` for the file `k`, or between the clearing of its
-- descriptor and `fileclose`?
abbrev pub in_dup : ℕ → Pc → ℕ
in_dup k (duping i fd) = bit (i == k)
in_dup k at = 0

abbrev pub in_close : ℕ → Pc → ℕ
in_close k (closing i) = bit (i == k)
in_close k at = 0

-- How many descriptors of all processes lead to a file, and how many calls of each kind are half done.
abbrev pub users : ℕ → Running → ℕ
users k c = total nproc (λ p. count k (c.sys.ofile p))

abbrev pub dups_open : ℕ → Running → ℕ
dups_open k c = total nproc (λ p. in_dup k (c.pc p))

abbrev pub closes_open : ℕ → Running → ℕ
closes_open k c = total nproc (λ p. in_close k (c.pc p))

total_sums :
    (n : ℕ) (f a g b : ℕ → ℕ)
    → ((q : ℕ) → f q + a q ≡ g q + b q)
    → total n f + total n a ≡ total n g + total n b
unfolding total
total_sums zero f a g b same = refl
total_sums (suc n) f a g b same = omega (arith, same n, total_sums n f a g b same)

holds_sum :
    (k : ℕ) (l : List (Option ℕ)) (at : Pc)
    → ((i fd : ℕ) → at ≡ duping i fd → 2 ≤ count i l)
    → holds k l at + in_dup k at ≡ count k l + in_close k at
unfolding holds
holds_sum k l idle twice = refl
holds_sum k l (duping i fd) twice = ground (arith, twice i fd refl)
holds_sum k l (closing i) twice = omega arith

-- In every state that dup, close, the file part of open, fork and exit reach, where the two halves of dup
-- and of close may have the calls of other processes between them, no two threads of a process are
-- inside such calls at once, and none calls pipe: the reference count of each file, and one more for
-- each dup that has the new descriptor and not yet the reference, is the number of descriptors that
-- lead to the file, and one more for each close that has cleared its descriptor and not yet closed.
pub counts_are_exact :
    {c : Running} (k : ℕ)
    → Reach c
    → ref_of c.sys.files k + dups_open k c ≡ users k c + closes_open k c
counts_are_exact {c} k r =
    let counts = Reach-IsCounted r in
    omega (
      arith,
      counts.counted k,
      total_sums nproc (λ p. holds k (c.sys.ofile p) (c.pc p)) (λ p. in_dup k (c.pc p))
          (λ p. count k (c.sys.ofile p)) (λ p. in_close k (c.pc p))
          (λ p. holds_sum k (c.sys.ofile p) (c.pc p) (counts.twice p)),
    )

-- What it means that the next step of the process `p` does not panic, wherever it stands.
pub record Calm (c : Running) (p : ℕ) : Type 0 where
  pub dup : (i fd : ℕ) → c.pc p ≡ duping i fd → dup_end i c.sys ≢ none
  pub close : (i : ℕ) → c.pc p ≡ closing i → close_end i c.sys ≢ none
  pub opening :
      (ip : ℕ) (readable writable : Bool)
      → c.pc p ≡ idle
      → sys_open ip readable writable p c.sys ≢ none
  pub fork :
      (child : ℕ)
      → child < nproc
      → c.pc p ≡ idle
      → c.pc child ≡ idle
      → c.sys.ofile child ≡ replicate nofile none
      → fork_files p child c.sys ≢ none
  pub exit : c.pc p ≡ idle → exit_files p c.sys ≢ none

-- In every state that these calls reach, with the calls of other processes between the two halves of
-- dup and of close, no two threads of a process inside such calls at once, and none calling pipe, no
-- step of a process panics: not the filedup that ends its dup, nor the fileclose that ends its close,
-- and not an open, a fork into a slot without open files, or an exit.
pub calls_never_panic : {c : Running} (p : ℕ) → Reach c → p < nproc → Calm c p
calls_never_panic {c} p r lt = record {
  dup =
      λ i fd at bad. let (t, runs, e) = dup_end-IsCounted c p i fd (Reach-IsCounted r) lt at in cc;
  close = λ i at bad. let (t, runs, e) = close_end-IsCounted c p i (Reach-IsCounted r) lt at in cc;
  opening = λ ip readable writable out bad.
      let (v, t, runs, e) =
        sys_open-IsCounted c ip p readable writable (Reach-IsCounted r) lt out in
      cc;
  fork = λ child lt' out out' empty bad.
      let (t, runs, e) = fork_files-IsCounted c p child (Reach-IsCounted r) lt lt' out out' empty in
      cc;
  exit = λ out bad. let (t, runs, e) = exit_files-IsCounted c p (Reach-IsCounted r) lt out in cc;
}
