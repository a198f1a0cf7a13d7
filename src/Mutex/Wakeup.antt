-- ===== src/Mutex/Wakeup.antt =====
-- No lost wakeup: the sleep and wakeup protocol of the kernel mutexes.
use os163_assi.Prelude.{
  update, ℕ, ◌≡◌, ◌≢◌, ◌⊎◌, inl, inr, Bool-cases, ◌∙◌, true, List, [], ◌∷◌, refl, arith, ◌==◌,
}
use os163_assi.Mutex.{MxTable, alloc, dealloc, lock, lock_try}
use os163_assi.Mutex.System.{
  Pc, running, waiting, waking, System, Event, Step, allocates, deallocates, lock_fails, lock_gets,
  lock_waits, retry_gets, retry_waits, unlock_fails, unlocks, unlocks_zero, ends, ends_waking,
  wakes, ended, never_zero, never_cut, quiet, acquired, released, unlocked_zero, cut_short, Reach,
  start, later,
}
use os163_assi.Mutex.Slot.{locked_at, IsGood}
use os163_assi.Mutex.Effect.{
  alloc-locked_at, dealloc-locked_at, lock_try-gets, lock_try-waits, lock-gets, lock-waits,
  lock-fails, unlock-fails, unlock-releases,
}
use os163_assi.Mutex.Balance.{Reach-IsGood, never_zero-cons}

-- Either the slot is locked, or some thread is about to wake those that sleep on it.
abbrev pub Attended : System → ℕ → Type 0
Attended s k = (locked_at k s.table.mutex ≡ true) ⊎ ((j : ℕ) × (s.pc j ≡ waking k))

abbrev pub IsAwake : System → Type 0
IsAwake s = (i k : ℕ) → s.pc i ≡ waiting k → Attended s k

-- A step that keeps each lock and each thread's place keeps the property.
keep :
    (s : System) (t' : MxTable)
    → ((k : ℕ) → locked_at k s.table.mutex ≡ true → locked_at k t'.mutex ≡ true)
    → IsAwake s
    → IsAwake (record s { table = t' })
keep s t' more awake i k p = elim (awake i k p) [ inl held ↦ inl (more k held) | inr j ↦ inr j ]

-- A thread that was at no `wakeup` moves, and the locks are kept. Where it now sleeps is locked.
move :
    (s : System) (t' : MxTable) (i : ℕ) (p : Pc)
    → ((k : ℕ) → s.pc i ≢ waking k)
    → ((k : ℕ) → p ≡ waiting k → locked_at k t'.mutex ≡ true)
    → ((k : ℕ) → locked_at k s.table.mutex ≡ true → locked_at k t'.mutex ≡ true)
    → IsAwake s
    → IsAwake (record { table = t'; pc = update s.pc i p })
move s t' i p calm fine more awake j k h = elim (Bool-cases (i == j)) [
  | inl here ↦ inl (fine k (rw here at h))
  | inr there ↦ elim (awake j k (rw there at h)) [
    | inl held ↦ inl (more k held)
    | inr (w, at) ↦ inr (w, ground (arith, calm k))
  ]
]

Step-IsAwake :
    {s t : System} {e : Event}
    → IsGood s.table.mutex
    → Step s e t
    → never_zero (e ∷ []) ≡ true
    → never_cut (e ∷ []) ≡ true
    → IsAwake s
    → IsAwake t
Step-IsAwake {s} good (allocates i p) named_only whole awake =
    keep s (alloc s.table).1 (λ k h. alloc-locked_at k s.table ∙ h) awake
Step-IsAwake {s} good (deallocates i mutex_id p) named_only whole awake =
    keep s (dealloc mutex_id s.table).1 (λ k h. dealloc-locked_at k mutex_id s.table ∙ h) awake
Step-IsAwake {s} good (lock_fails i mutex_id p e) named_only whole awake =
    rw (lock-fails i mutex_id s.table e) awake
Step-IsAwake {s} good (lock_gets i mutex_id j mx real p e g) named_only whole awake =
    let (loose, after) = lock-gets i mutex_id j mx s.table e g in
    keep s (lock i mutex_id s.table).1 (λ k h. ground (arith, after k)) awake
Step-IsAwake {s} good (lock_waits i mutex_id j real p w) named_only whole awake =
    let (held, after) = lock-waits i mutex_id j s.table w in
    move s (lock i mutex_id s.table).1 i (waiting j) (λ k. ground arith)
      (λ k e. ground (arith, after k)) (λ k h. after k ∙ h) awake
Step-IsAwake {s} good (retry_gets i j real p g) named_only whole awake =
    let (loose, after) = lock_try-gets i j s.table g in
    move s (lock_try i j s.table).1 i running (λ k. ground arith) (λ k e. cc)
      (λ k h. ground (arith, after k)) awake
Step-IsAwake {s} good (retry_waits i j j' real p w) named_only whole awake =
    let (same, held, after) = lock_try-waits i j j' s.table w in
    move s (lock_try i j s.table).1 i (waiting j') (λ k. ground arith)
      (λ k e. ground (arith, after k)) (λ k h. after k ∙ h) awake
Step-IsAwake {s} good (unlock_fails i mutex_id p e) named_only whole awake =
    rw (unlock-fails mutex_id s.table e) awake
Step-IsAwake {s} good (unlocks i mutex_id j named p e) named_only whole awake = λ a k h.
    let (held, after) = unlock-releases mutex_id j s.table named good e in
    elim (Bool-cases (j == k)) [
      | inl hit ↦ inr (i, ground arith)
      | inr miss ↦ elim (awake a k (ground arith)) [
        | inl old ↦ inl (ground (arith, after k))
        | inr (w, at) ↦ inr (w, ground arith)
      ]
    ]
Step-IsAwake {s} good (unlocks_zero i j p e) named_only whole awake = absurd cc
Step-IsAwake {s} good (ends i calm) named_only whole awake =
    move s s.table i ended calm (λ k e. cc) (λ k h. h) awake
Step-IsAwake {s} good (ends_waking i j p) named_only whole awake = absurd cc
Step-IsAwake {s} good (wakes i j p) named_only whole awake = λ a k h.
    elim (awake a k (ground arith)) [ inl old ↦ inl old | inr (w, at) ↦ inr (w, ground arith) ]

never_cut-cons :
    (e : Event) (es : List Event)
    → never_cut (e ∷ es) ≡ true
    → (never_cut (e ∷ []) ≡ true) × (never_cut es ≡ true)
never_cut-cons quiet es h = (refl, h)
never_cut-cons (acquired j) es h = (refl, h)
never_cut-cons (released j) es h = (refl, h)
never_cut-cons unlocked_zero es h = (refl, h)
never_cut-cons cut_short es h = absurd cc

-- No wakeup is lost. In every state that is reached without an unlock of the identifier 0, and
-- without a thread that ends between the release of `mxtable.lock` and the `wakeup` of its unlock, a
-- thread that sleeps on a slot sleeps on one that is locked, or some thread stands right before the
-- `wakeup` of that slot.
pub no_lost_wakeup :
    {es : List Event} {s : System} (i k : ℕ)
    → Reach es s
    → never_zero es ≡ true
    → never_cut es ≡ true
    → s.pc i ≡ waiting k
    → Attended s k
no_lost_wakeup i k start named_only whole h = cc
no_lost_wakeup i k (later {es} {e} r st) named_only whole h =
    let (named_now, named_before) = never_zero-cons e es named_only in
    let (whole_now, whole_before) = never_cut-cons e es whole in
    Step-IsAwake (Reach-IsGood r) st named_now whole_now
      (λ i k. no_lost_wakeup i k r named_before whole_before) i k h
