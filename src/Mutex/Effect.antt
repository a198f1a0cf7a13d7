-- ===== src/Mutex/Effect.antt =====
-- The effect of each operation of mutex.c on the slots: which of them are locked afterwards, and
-- that every slot stays good.
use os163_assi.Prelude.{
  ◌∙◌, ℕ, ◌≡◌, ◌≢◌, refl, inl, inr, true, false, none, some, arith, if◌then◌else◌, ◌==◌, get_elem?,
  Option-cases, Bool-cases, minus_one,
}
use os163_assi.Mutex.{
  locked, unlocked, is_free, is_locked, is_unlocked, Mutex, MxTable, find_free, find_id, alloc,
  freed, dealloc, returns, sleeps, lock_try, lock, unlock,
}
use os163_assi.Mutex.Slot.{
  find_free-get, find_id-get, locked_at, IsGood, locked_at-set, set-IsGood, locked_at-get,
}

-- `kthread_mutex_alloc` locks and unlocks nothing.
pub alloc-locked_at : (j : ℕ) (t : MxTable) → locked_at j (alloc t).1.mutex ≡ locked_at j t.mutex
unfolding alloc
alloc-locked_at j t = elim (Option-cases (find_free t.mutex)) [
  | inl e ↦ rw e
  | inr ((k, mx), e) ↦
      let (at, p) = find_free-get t.mutex k mx e in
      let new : Mutex = record { state = unlocked; mxid = t.nextmxid; owner = 0 } in
      rw e (ground (arith, locked_at-set t.mutex k mx at new j, locked_at-get t.mutex k mx at))
]

pub alloc-IsGood : (t : MxTable) → IsGood t.mutex → IsGood (alloc t).1.mutex
unfolding alloc
alloc-IsGood t good = elim (Option-cases (find_free t.mutex)) [
  | inl e ↦ rw e good
  | inr ((k, mx), e) ↦
      let (at, p) = find_free-get t.mutex k mx e in rw e (set-IsGood t.mutex k mx at _ refl good)
]

-- `kthread_mutex_dealloc` locks and unlocks nothing.
pub dealloc-locked_at :
    (j mutex_id : ℕ) (t : MxTable) → locked_at j (dealloc mutex_id t).1.mutex ≡ locked_at j t.mutex
unfolding dealloc
dealloc-locked_at j mutex_id t = elim (Option-cases (find_id mutex_id t.mutex)) [
  | inl e ↦ rw e
  | inr ((k, mx), e) ↦
      let (at, p) = find_id-get mutex_id t.mutex k mx e in
      rw e (ground (arith, locked_at-set t.mutex k mx at freed j, locked_at-get t.mutex k mx at))
]

pub dealloc-IsGood :
    (mutex_id : ℕ) (t : MxTable) → IsGood t.mutex → IsGood (dealloc mutex_id t).1.mutex
unfolding dealloc
dealloc-IsGood mutex_id t good = elim (Option-cases (find_id mutex_id t.mutex)) [
  | inl e ↦ rw e good
  | inr ((k, mx), e) ↦
      let (at, p) = find_id-get mutex_id t.mutex k mx e in
      rw e (elim (Bool-cases (is_locked mx.state)) [
        | inl held ↦ rw held good
        | inr loose ↦ rw loose (set-IsGood t.mutex k mx at freed refl good)
      ])
]

-- What has become of a slot's lock when an acquisition of slot `k` has gone through.
abbrev pub Acquires : ℕ → MxTable → MxTable → Type 0
Acquires k t t' =
    (locked_at k t.mutex ≡ false)
    × ((j : ℕ) → locked_at j t'.mutex ≡ (if k == j then true else locked_at j t.mutex))

-- A pass of the waiting loop that gets the mutex found it not locked, and locks it.
pub lock_try-gets :
    (thread k : ℕ) (t : MxTable)
    → (lock_try thread k t).0 ≡ returns 0
    → Acquires k t (lock_try thread k t).1
unfolding lock_try
lock_try-gets thread k t h = elim (Option-cases (get_elem? t.mutex k)) [
  | inl e ↦ let h' = rw e at h in cc
  | inr (mx, at) ↦ elim (Bool-cases (is_locked mx.state)) [
    | inl held ↦ let h' = rw (at, held) at h in cc
    | inr loose ↦
        let new : Mutex = record mx { state = locked; owner = thread } in
        (
          ground (arith, locked_at-get t.mutex k mx at),
          λ j. rw (at, loose) (locked_at-set t.mutex k mx at new j),
        )
  ]
]

-- A pass that sleeps found the mutex locked, sleeps on that slot and leaves every slot as it was.
pub lock_try-waits :
    (thread k i : ℕ) (t : MxTable)
    → (lock_try thread k t).0 ≡ sleeps i
    → (i ≡ k)
      × (locked_at k t.mutex ≡ true)
      × ((j : ℕ) → locked_at j (lock_try thread k t).1.mutex ≡ locked_at j t.mutex)
unfolding lock_try
lock_try-waits thread k i t h = elim (Option-cases (get_elem? t.mutex k)) [
  | inl e ↦ let h' = rw e at h in cc
  | inr (mx, at) ↦ elim (Bool-cases (is_locked mx.state)) [
    | inr loose ↦ let h' = rw (at, loose) at h in cc
    | inl held ↦
        let h' = rw (at, held) at h in
        let get = locked_at-get t.mutex k mx at in
        (
          cc,
          get ∙ held,
          λ j.
              rw (at, held)
                (ground
                  (arith, get, locked_at-set t.mutex k mx at (record mx { state = locked }) j)),
        )
  ]
]

pub lock_try-IsGood :
    (thread k : ℕ) (t : MxTable)
    → thread ≢ 0
    → IsGood t.mutex
    → IsGood (lock_try thread k t).1.mutex
unfolding lock_try
lock_try-IsGood thread k t real good = elim (Option-cases (get_elem? t.mutex k)) [
  | inl e ↦ rw e good
  | inr (mx, at) ↦ rw at (elim (Bool-cases (is_locked mx.state)) [
    | inl held ↦ rw held (
        set-IsGood t.mutex k mx at (record mx { state = locked }) (ground (arith, good k mx at))
          good)
    | inr loose ↦ rw loose (
        set-IsGood t.mutex k mx at (record mx { state = locked; owner = thread }) (ground arith)
          good)
  ])
]

pub lock-gets :
    (thread mutex_id k : ℕ) (mx : Mutex) (t : MxTable)
    → find_id mutex_id t.mutex ≡ some (k, mx)
    → (lock thread mutex_id t).0 ≡ returns 0
    → Acquires k t (lock thread mutex_id t).1
unfolding lock
lock-gets thread mutex_id k mx t e h = elim (Bool-cases (is_free mx.state)) [
  | inl empty ↦ let h' = rw (e, empty) at h in cc
  | inr used ↦ rw (e, used) (lock_try-gets thread k t (rw (e, used) at h))
]

pub lock-waits :
    (thread mutex_id i : ℕ) (t : MxTable)
    → (lock thread mutex_id t).0 ≡ sleeps i
    → (locked_at i t.mutex ≡ true)
      × ((j : ℕ) → locked_at j (lock thread mutex_id t).1.mutex ≡ locked_at j t.mutex)
unfolding lock
lock-waits thread mutex_id i t h = elim (Option-cases (find_id mutex_id t.mutex)) [
  | inl e ↦ let h' = rw e at h in cc
  | inr ((k, mx), e) ↦ elim (Bool-cases (is_free mx.state)) [
    | inl empty ↦ let h' = rw (e, empty) at h in cc
    | inr used ↦
        let (same, held, keep) = lock_try-waits thread k i t (rw (e, used) at h) in
        (rw same held, rw (e, used) keep)
  ]
]

pub lock-IsGood :
    (thread mutex_id : ℕ) (t : MxTable)
    → thread ≢ 0
    → IsGood t.mutex
    → IsGood (lock thread mutex_id t).1.mutex
unfolding lock
lock-IsGood thread mutex_id t real good = elim (Option-cases (find_id mutex_id t.mutex)) [
  | inl e ↦ rw e good
  | inr ((k, mx), e) ↦ rw e (elim (Bool-cases (is_free mx.state)) [
    | inl empty ↦ rw empty good
    | inr used ↦ rw used (lock_try-IsGood thread k t real good)
  ])
]

-- A lock of an identifier that no slot has returns -1 and leaves the table as it was.
pub lock-fails :
    (thread mutex_id : ℕ) (t : MxTable)
    → find_id mutex_id t.mutex ≡ none
    → lock thread mutex_id t ≡ (returns minus_one, t)
unfolding lock
lock-fails thread mutex_id t e = rw e

-- An unlock that wakes nobody has left the table as it was.
pub unlock-fails :
    (mutex_id : ℕ) (t : MxTable)
    → (unlock mutex_id t).1 ≡ none
    → unlock mutex_id t ≡ (minus_one, none, t)
unfolding unlock
unlock-fails mutex_id t h = elim (Option-cases (find_id mutex_id t.mutex)) [
  | inl e ↦ rw e
  | inr ((k, mx), e) ↦ elim (Bool-cases (is_unlocked mx.state)) [
    | inl open_already ↦ rw (e, open_already)
    | inr shut ↦ let h' = rw (e, shut) at h in cc
  ]
]

-- An unlock by an identifier other than 0 that goes through finds the slot locked, and opens it.
pub unlock-releases :
    (mutex_id k : ℕ) (t : MxTable)
    → mutex_id ≢ 0
    → IsGood t.mutex
    → (unlock mutex_id t).1 ≡ some k
    → (locked_at k t.mutex ≡ true)
      × ((j : ℕ)
          → locked_at j (unlock mutex_id t).2.mutex
            ≡ (if k == j then false else locked_at j t.mutex))
unfolding unlock
unlock-releases mutex_id k t named good h = elim (Option-cases (find_id mutex_id t.mutex)) [
  | inl e ↦ let h' = rw e at h in cc
  | inr ((i, mx), e) ↦ elim (Bool-cases (is_unlocked mx.state)) [
    | inl open_already ↦ let h' = rw (e, open_already) at h in cc
    | inr shut ↦
        let (at, p) = find_id-get mutex_id t.mutex i mx e in
        let h' = rw (e, shut) at h in
        let same : i ≡ k = cc in
        let get = locked_at-get t.mutex i mx at in
        let new : Mutex = record mx { state = unlocked; owner = 0 } in
        (
          ground (arith, same, get, good i mx at),
          λ j. rw (e, shut, ← same) (locked_at-set t.mutex i mx at new j),
        )
  ]
]

pub unlock-IsGood :
    (mutex_id : ℕ) (t : MxTable) → IsGood t.mutex → IsGood (unlock mutex_id t).2.mutex
unfolding unlock
unlock-IsGood mutex_id t good = elim (Option-cases (find_id mutex_id t.mutex)) [
  | inl e ↦ rw e good
  | inr ((k, mx), e) ↦
      let (at, p) = find_id-get mutex_id t.mutex k mx e in
      rw e (elim (Bool-cases (is_unlocked mx.state)) [
        | inl open_already ↦ rw open_already good
        | inr shut ↦
            rw shut
              (set-IsGood t.mutex k mx at (record mx { state = unlocked; owner = 0 }) refl good)
      ])
]
