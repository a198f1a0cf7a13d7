-- ===== src/Fssp/Barrier.antt =====
-- The barrier of fssp.c: `inc_barrier` by `limit` threads over two mutexes and a counter. A mutex is
-- locked or not, as a slot of the kernel's table is; a step takes a free one, or gives one
-- back. What a thread does to the counter it does while it holds a mutex.
pub mod Phases
pub mod Safety
mod Tests
use os163_assi.Prelude.{ℕ, suc, ◌+◌, ◌-◌, ◌≡◌, ◌<◌, Bool, true, false, update, ltb, if◌then◌else◌}

-- `barrier`, with each mutex as whether it is locked
pub record Barrier : Type 0 where
  pub pre_mx : Bool
  pub post_mx : Bool
  pub counter : ℕ
  pub limit : ℕ

-- `init_barrier`: two fresh mutexes, of which the second is locked at once.
abbrev pub init_barrier : ℕ → Barrier
init_barrier limit = record { pre_mx = false; post_mx = true; counter = 0; limit = limit }

-- Where a thread stands in its call number `calls + 1` of `inc_barrier`.
pub data Pc : Type 0 where
  outside : (calls : ℕ) → Pc  -- before `lock(pre_mx)`
  counting : (calls : ℕ) → Pc  -- holds `pre_mx`, before `counter++`
  gathered : (calls : ℕ) → Pc  -- before `lock(post_mx)`
  draining : (calls : ℕ) → Pc  -- holds `post_mx`, before `counter--`

-- `counter++; if(limit > counter) unlock(pre_mx); else unlock(post_mx);`
pub count_in : Barrier → Barrier
count_in b =
    if ltb (b.counter + 1) b.limit
    then record b { counter = b.counter + 1; pre_mx = false }
    else record b { counter = b.counter + 1; post_mx = false }

-- The counter counts the caller, so that the subtraction on numbers is the one on `int`.
-- `counter--; if(counter > 0) unlock(post_mx); else unlock(pre_mx);`
pub count_out : Barrier → Barrier
count_out b =
    if ltb 0 (b.counter - 1)
    then record b { counter = b.counter - 1; post_mx = false }
    else record b { counter = b.counter - 1; pre_mx = false }

-- One step of one thread; the indices are its place before, and the barrier and its place after.
pub data Move (b : Barrier) : Pc → Barrier → Pc → Type 0 where
  enter : {c : ℕ} → b.pre_mx ≡ false → Move b (outside c) (record b { pre_mx = true }) (counting c)
  count : {c : ℕ} → Move b (counting c) (count_in b) (gathered c)
  leave :
      {c : ℕ} → b.post_mx ≡ false → Move b (gathered c) (record b { post_mx = true }) (draining c)
  drain : {c : ℕ} → Move b (draining c) (count_out b) (outside (suc c))

pub record System : Type 0 where
  pub barrier : Barrier
  pub pc : ℕ → Pc

-- Any of the `n` threads may move next.
pub data Step (n : ℕ) (s : System) : System → Type 0 where
  pick :
      (i : ℕ) {b' : Barrier} {p' : Pc}
      → i < n
      → Move s.barrier (s.pc i) b' p'
      → Step n s (record { barrier = b'; pc = update s.pc i p' })

-- As many threads as the limit says.
pub data Reach (n : ℕ) : System → Type 0 where
  start : Reach n (record { barrier = init_barrier n; pc = λ i. outside 0 })
  later : {s t : System} → Reach n s → Step n s t → Reach n t
