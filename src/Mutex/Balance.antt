-- ===== src/Mutex/Balance.antt =====
-- Mutual exclusion of the kernel mutexes, over every interleaving of the threads.
use os163_assi.Prelude.{
  zero, suc, ℕ, ◌+◌, ◌≡◌, refl, true, false, some, List, [], ◌∷◌, arith, if◌then◌else◌, get_elem?,
  replicate,
}
use os163_assi.Mutex.{Mutex, MxTable, max_mutexes, freed}
use os163_assi.Mutex.System.{
  System, Event, quiet, acquired, released, Step, allocates, deallocates, lock_fails, lock_gets,
  lock_waits, retry_gets, retry_waits, unlock_fails, unlocks, unlocks_zero, ends, ends_waking,
  wakes, unlocked_zero, cut_short, never_zero, Reach, start, later, acquisitions, releases,
}
use os163_assi.Mutex.Slot.{locked_at, slot_ok, IsGood}
use os163_assi.Mutex.Effect.{
  alloc-locked_at, alloc-IsGood, dealloc-locked_at, dealloc-IsGood, lock_try-gets, lock_try-waits,
  lock_try-IsGood, lock-gets, lock-waits, lock-IsGood, lock-fails, unlock-fails, unlock-releases,
  unlock-IsGood,
}

Step-IsGood : {s t : System} {e : Event} → Step s e t → IsGood s.table.mutex → IsGood t.table.mutex
Step-IsGood {s} (allocates i p) good = alloc-IsGood s.table good
Step-IsGood {s} (deallocates i mutex_id p) good = dealloc-IsGood mutex_id s.table good
Step-IsGood {s} (lock_fails i mutex_id p e) good = rw (lock-fails i mutex_id s.table e) good
Step-IsGood {s} (lock_gets i mutex_id k mx real p e g) good =
    lock-IsGood i mutex_id s.table real good
Step-IsGood {s} (lock_waits i mutex_id k real p w) good = lock-IsGood i mutex_id s.table real good
Step-IsGood {s} (retry_gets i k real p g) good = lock_try-IsGood i k s.table real good
Step-IsGood {s} (retry_waits i k j real p w) good = lock_try-IsGood i k s.table real good
Step-IsGood {s} (unlock_fails i mutex_id p e) good = unlock-IsGood mutex_id s.table good
Step-IsGood {s} (unlocks i mutex_id k named p e) good = unlock-IsGood mutex_id s.table good
Step-IsGood {s} (unlocks_zero i k p e) good = unlock-IsGood 0 s.table good
Step-IsGood (ends i calm) good = good
Step-IsGood (ends_waking i k p) good = good
Step-IsGood (wakes i k p) good = good

replicate-IsGood :
    (n k : ℕ) (mx : Mutex) → get_elem? (replicate n freed) k ≡ some mx → slot_ok mx ≡ true
replicate-IsGood zero k mx h = cc
replicate-IsGood (suc n) zero mx h = ground arith
replicate-IsGood (suc n) (suc k) mx h = replicate-IsGood n k mx h

replicate-locked_at : (n k : ℕ) → locked_at k (replicate n freed) ≡ false
unfolding locked_at
replicate-locked_at zero k = refl
replicate-locked_at (suc n) zero = refl
replicate-locked_at (suc n) (suc k) = replicate-locked_at n k

-- In every reachable state a slot has an owner exactly if it is locked, and a free slot has the
-- identifier 0.
pub Reach-IsGood : {es : List Event} {s : System} → Reach es s → IsGood s.table.mutex
Reach-IsGood start = replicate-IsGood max_mutexes
Reach-IsGood (later r st) = Step-IsGood st (Reach-IsGood r)

-- How many acquisitions of a slot are still to be released.
abbrev pub outstanding : ℕ → MxTable → ℕ
outstanding k t = if locked_at k t.mutex then 1 else 0

-- One step changes the balance of each slot as its event says.
Step-balance :
    {s t : System} {e : Event} (k : ℕ)
    → IsGood s.table.mutex
    → Step s e t
    → never_zero (e ∷ []) ≡ true
    → acquisitions k (e ∷ []) + outstanding k s.table ≡ releases k (e ∷ []) + outstanding k t.table
Step-balance {s} k good (allocates i p) named_only = ground (arith, alloc-locked_at k s.table)
Step-balance {s} k good (deallocates i mutex_id p) named_only =
    ground (arith, dealloc-locked_at k mutex_id s.table)
Step-balance {s} k good (lock_fails i mutex_id p e) named_only =
    rw (lock-fails i mutex_id s.table e)
Step-balance {s} k good (lock_gets i mutex_id j mx real p e g) named_only =
    let (loose, after) = lock-gets i mutex_id j mx s.table e g in ground (arith, loose, after k)
Step-balance {s} k good (lock_waits i mutex_id j real p w) named_only =
    let (held, after) = lock-waits i mutex_id j s.table w in ground (arith, after k)
Step-balance {s} k good (retry_gets i j real p g) named_only =
    let (loose, after) = lock_try-gets i j s.table g in ground (arith, loose, after k)
Step-balance {s} k good (retry_waits i j j' real p w) named_only =
    let (same, held, after) = lock_try-waits i j j' s.table w in ground (arith, after k)
Step-balance {s} k good (unlock_fails i mutex_id p e) named_only =
    rw (unlock-fails mutex_id s.table e)
Step-balance {s} k good (unlocks i mutex_id j named p e) named_only =
    let (held, after) = unlock-releases mutex_id j s.table named good e in
    ground (arith, held, after k)
Step-balance {s} k good (unlocks_zero i j p e) named_only = absurd cc
Step-balance k good (ends i calm) named_only = refl
Step-balance k good (ends_waking i j p) named_only = refl
Step-balance k good (wakes i j p) named_only = refl

acquisitions-cons :
    (k : ℕ) (e : Event) (es : List Event)
    → acquisitions k (e ∷ es) ≡ acquisitions k (e ∷ []) + acquisitions k es
acquisitions-cons k quiet es = omega arith
acquisitions-cons k (acquired j) es = omega arith
acquisitions-cons k (released j) es = omega arith
acquisitions-cons k unlocked_zero es = omega arith
acquisitions-cons k cut_short es = omega arith

releases-cons :
    (k : ℕ) (e : Event) (es : List Event)
    → releases k (e ∷ es) ≡ releases k (e ∷ []) + releases k es
releases-cons k quiet es = omega arith
releases-cons k (acquired j) es = omega arith
releases-cons k (released j) es = omega arith
releases-cons k unlocked_zero es = omega arith
releases-cons k cut_short es = omega arith

pub never_zero-cons :
    (e : Event) (es : List Event)
    → never_zero (e ∷ es) ≡ true
    → (never_zero (e ∷ []) ≡ true) × (never_zero es ≡ true)
never_zero-cons quiet es h = (refl, h)
never_zero-cons (acquired j) es h = (refl, h)
never_zero-cons (released j) es h = (refl, h)
never_zero-cons unlocked_zero es h = absurd cc
never_zero-cons cut_short es h = (refl, h)

-- Mutual exclusion. In every history of a system of threads in which no thread unlocks the identifier
-- 0, which belongs to no mutex, each slot has been acquired just as often as released, and once more
-- if it is locked now: between two acquisitions of a slot lies a release of it. Threads may end
-- anywhere.
pub mutual_exclusion :
    {es : List Event} {s : System} (k : ℕ)
    → Reach es s
    → never_zero es ≡ true
    → acquisitions k es ≡ releases k es + outstanding k s.table
mutual_exclusion k start named_only = ground (arith, replicate-locked_at max_mutexes k)
mutual_exclusion k (later {es} {e} r st) named_only =
    let (here, before) = never_zero-cons e es named_only in
    omega (
      arith,
      mutual_exclusion k r before,
      Step-balance k (Reach-IsGood r) st here,
      acquisitions-cons k e es,
      releases-cons k e es,
    )
