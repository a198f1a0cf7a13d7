-- ===== src/Mutex/Slot.antt =====
-- What an operation may do to the table: write one slot, along one edge of a small state machine.
use os163_assi.Prelude.{
  not, ap, ◌∙◌, ◌&&◌, get_elem?-set, ℕ, suc, ◌+◌, ◌≡◌, inl, inr, Bool, true, false, none, some,
  List, [], ◌∷◌, arith, if◌then◌else◌, ◌==◌, get_elem?, set, Bool-cases,
}
use os163_assi.Mutex.{is_free, is_locked, Mutex, find_from, find_free, find_id}

-- The search returns an entry of the table that passes the test, and its index.
find_from-get :
    (test : Mutex → Bool) (mxs : List Mutex) (i k : ℕ) (mx : Mutex)
    → find_from test mxs i ≡ some (k, mx)
    → (d : ℕ) × (k ≡ i + d) × (get_elem? mxs d ≡ some mx) × (test mx ≡ true)
unfolding find_from
find_from-get test [] i k mx h = cc
find_from-get test (x ∷ rest) i k mx h = elim (Bool-cases (test x)) [
  | inl hit ↦ (0, ground arith, ground arith, ground arith)
  | inr miss ↦
      let (d, e, g, p) = find_from-get test rest (suc i) k mx (ground arith) in
      (suc d, omega arith, g, p)
]

pub find_free-get :
    (mxs : List Mutex) (k : ℕ) (mx : Mutex)
    → find_free mxs ≡ some (k, mx)
    → (get_elem? mxs k ≡ some mx) × (is_free mx.state ≡ true)
unfolding find_free
find_free-get mxs k mx h =
    let (d, e, g, p) = find_from-get (λ mx. is_free mx.state) mxs 0 k mx h in
    (ap (get_elem? mxs) (omega arith) ∙ g, p)

pub find_id-get :
    (mutex_id : ℕ) (mxs : List Mutex) (k : ℕ) (mx : Mutex)
    → find_id mutex_id mxs ≡ some (k, mx)
    → (get_elem? mxs k ≡ some mx) × (mx.mxid ≡ mutex_id)
unfolding find_id
find_id-get mutex_id mxs k mx h =
    let (d, e, g, p) = find_from-get (λ mx. mx.mxid == mutex_id) mxs 0 k mx h in
    (ap (get_elem? mxs) (omega arith) ∙ g, ground arith)

-- Is the slot in the state `LOCKED`?
unfoldable pub locked_at : ℕ → List Mutex → Bool
locked_at k mxs = elim (get_elem? mxs k) [ none ↦ false | some mx ↦ is_locked mx.state ]

-- What every operation keeps of a slot: it has an owner exactly if it is locked, and a free slot
-- has no identifier.
abbrev pub slot_ok : Mutex → Bool
slot_ok mx =
    (if is_locked mx.state then not (mx.owner == 0) else mx.owner == 0)
    && (if is_free mx.state then mx.mxid == 0 else true)

abbrev pub IsGood : List Mutex → Type 0
IsGood mxs = (k : ℕ) (mx : Mutex) → get_elem? mxs k ≡ some mx → slot_ok mx ≡ true

module _ (mxs : List Mutex) (k : ℕ) (old : Mutex) (at : get_elem? mxs k ≡ some old) where
  pub locked_at-set :
      (new : Mutex) (j : ℕ)
      → locked_at j (set mxs k new) ≡ (if k == j then is_locked new.state else locked_at j mxs)
  unfolding locked_at
  locked_at-set new j = ground (arith, get_elem?-set mxs k j new old at)

  pub set-IsGood : (new : Mutex) → slot_ok new ≡ true → IsGood mxs → IsGood (set mxs k new)
  set-IsGood new fine good j mx h = ground (arith, get_elem?-set mxs k j new old at, good j mx)

  pub locked_at-get : locked_at k mxs ≡ is_locked old.state
  unfolding locked_at
  locked_at-get = rw (at, locked_at)
