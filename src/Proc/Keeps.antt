-- ===== src/Proc/Keeps.antt =====
-- proc.c and kthread.c: `allocthread`, `allocproc`, `fork` and `exit` keep the invariant.
use os163_assi.Prelude.{
  ℕ, ◌≡◌, ◌<◌, Bool, true, false, Option, none, some, ◌==◌, add32, arith, refl, Bool-cases,
  Option-cases, inl, inr, find_first, find_first-Found,
}
use os163_assi.Proc.{
  unused, embryo, Thread, Table, nproc, nthread, is_unused, is_zombie, set_proc, set_thread,
  allocthread, allocproc, thread_with,
}
use os163_assi.Proc.Inv.{is_alive, Inv, set_thread-Inv}

pub Inv-counters :
    (t : Table) (pid tid : ℕ) → Inv t → Inv (record t { nextpid = pid; nexttid = tid })
Inv-counters t pid tid inv = record {
  child = inv.child;
  join = inv.join;
  alive = inv.alive;
  own = inv.own;
  init_runs = inv.init_runs;
  init_free = inv.init_free;
}

-- A thread that neither sleeps, runs nor is a zombie fits everywhere.
pub set_thread-Inv_idle :
    (t : Table) (p i : ℕ) (th : Thread)
    → Inv t
    → is_alive th.state ≡ false
    → is_zombie th.state ≡ false
    → Inv (set_thread t p i th)
set_thread-Inv_idle t p i th inv idle fresh =
    set_thread-Inv t p i th inv (λ r k lt s par. ground arith) (λ j s. ground arith) (λ j s. fresh)
      (λ lt al. ground arith)

thread_with-Inv : (p i : ℕ) (stack : Option ℕ) (t : Table) → Inv t → Inv (thread_with p i stack t).1
unfolding thread_with
thread_with-Inv p i none t inv =
    let th : Thread = record ((t.proc p).threads i) { state = unused; tid = t.nexttid } in
    Inv-counters (set_thread t p i th) t.nextpid (add32 t.nexttid 1)
      (set_thread-Inv_idle t p i th inv refl refl)
thread_with-Inv p i (some v) t inv =
    let th : Thread = record ((t.proc p).threads i) {
      state = embryo;
      tid = t.nexttid;
      kstack = v;
    } in
    Inv-counters (set_thread t p i th) t.nextpid (add32 t.nexttid 1)
      (set_thread-Inv_idle t p i th inv refl refl)

-- What `allocthread` leaves alone: the processes but for their threads.
pub record Alloced (p : ℕ) (t : Table) (res : Option ℕ × Table) : Type 0 where
  pub kept : Inv res.1
  pub state : (k : ℕ) → (res.1.proc k).state ≡ (t.proc k).state
  pub place : (i : ℕ) → res.0 ≡ some i → i < nthread

pub allocthread-Inv :
    (p : ℕ) (stack : Option ℕ) (t : Table) → Inv t → Alloced p t (allocthread p stack t)
unfolding allocthread thread_with
allocthread-Inv p stack t inv =
    let test : ℕ → Bool = λ i. is_unused ((t.proc p).threads i).state in
    elim (Option-cases (find_first test nthread 0)) [
      | inl e ↦ rw e (record { kept = inv; state = λ k. refl; place = λ i h. absurd cc })
      | inr (i, e) ↦ rw e (record {
        kept = thread_with-Inv p i stack t inv;
        state = λ k. same i stack k;
        place = λ j h. ground (arith, place i stack j, (find_first-Found test nthread 0 i e).below);
      })
    ]
  where
    same :
        (i : ℕ) (stack : Option ℕ) (k : ℕ)
        → ((thread_with p i stack t).1.proc k).state ≡ (t.proc k).state
    same i none k = ground arith
    same i (some v) k = ground arith

    place : (i : ℕ) (stack : Option ℕ) (j : ℕ) → (thread_with p i stack t).0 ≡ some j → i ≡ j
    place i none j h = absurd cc
    place i (some v) j h = ground arith

fresh_proc-Inv :
    (t : Table) (p pid : ℕ)
    → Inv t
    → is_unused (t.proc p).state ≡ true
    → Inv (
        set_proc t p (record (t.proc p) {
          state = embryo;
          pid = pid;
          executed = false;
          threads = λ i. record ((t.proc p).threads i) { state = unused };
        }))
fresh_proc-Inv t p pid inv free = record {
  child = λ q j r k lt s par. elim (Bool-cases (p == q)) [
    | inl here ↦ ground arith
    | inr far ↦ ground (arith, inv.child q j r k lt)
  ];
  join = λ q j k s. elim (Bool-cases (p == q)) [
    | inl here ↦ ground arith
    | inr far ↦ ground (arith, inv.join q j k)
  ];
  alive = λ q j lt al. elim (Bool-cases (p == q)) [
    | inl here ↦ ground arith
    | inr far ↦ ground (arith, inv.alive q j lt)
  ];
  own = λ k. ground (arith, inv.own k);
  init_runs = ground (arith, inv.init_runs);
  init_free = λ q. ground (arith, inv.init_free q);
}

-- What `allocproc` returns: a place that was free, whose process is an embryo.
pub record NewProc (t : Table) (res : Option (ℕ × ℕ) × Table) : Type 0 where
  pub kept : Inv res.1
  pub free : (c i : ℕ) → res.0 ≡ some (c, i) → is_unused (t.proc c).state ≡ true
  pub born : (c i : ℕ) → res.0 ≡ some (c, i) → (res.1.proc c).state ≡ embryo
  pub place : (c i : ℕ) → res.0 ≡ some (c, i) → i < nthread

pub allocproc-Inv : (stack : Option ℕ) (t : Table) → Inv t → NewProc t (allocproc stack t)
unfolding allocproc
allocproc-Inv stack t inv =
    let test : ℕ → Bool = λ p. is_unused (t.proc p).state in
    elim (Option-cases (find_first test nproc 0)) [
      | inl e ↦ rw e (record {
        kept = inv;
        free = λ c i h. absurd cc;
        born = λ c i h. absurd cc;
        place = λ c i h. absurd cc;
      })
      | inr (p, e) ↦
          let free : is_unused (t.proc p).state ≡ true = (find_first-Found test nproc 0 p e).hit in
          let fresh : Table =
            record (set_proc t p (record (t.proc p) {
              state = embryo;
              pid = t.nextpid;
              executed = false;
              threads = λ i. record ((t.proc p).threads i) { state = unused };
            })) { nextpid = add32 t.nextpid 1 } in
          let a = allocthread-Inv p stack fresh (
            Inv-counters _ (add32 t.nextpid 1) t.nexttid (fresh_proc-Inv t p t.nextpid inv free)) in
          rw e (ended p fresh free (allocthread p stack fresh) a (ground (arith, a.state p)))
    ]
  where
    ended :
        (p : ℕ) (fresh : Table)
        → is_unused (t.proc p).state ≡ true
        → (res : Option ℕ × Table) → Alloced p fresh res
        → (res.1.proc p).state ≡ embryo
        → NewProc t (elim res.0 [ none ↦ (none, res.1) | some i ↦ (some (p, i), res.1) ])
    ended p fresh free (none, t') a born = record {
      kept = a.kept;
      free = λ c i h. absurd cc;
      born = λ c i h. absurd cc;
      place = λ c i h. absurd cc;
    }
    ended p fresh free (some i, t') a born = record {
      kept = a.kept;
      free = λ c j h. ground arith;
      born = λ c j h. ground arith;
      place = λ c j h. ground (arith, a.place i refl);
    }
