-- ===== src/Fssp/Fires.antt =====
-- The squad fires: for every number of soldiers that fssp.c accepts.
mod Tests
use os163_assi.Prelude.{
  ℕ, zero, suc, ◌+◌, ◌≡◌, ◌≤◌, ◌<◌, refl, Bool, true, false, ◌&&◌, ◌||◌, Option, none, some, List,
  [], ◌∷◌, if◌then◌else◌, ◌==◌, leb, length, replicate, arith,
}
use os163_assi.Fssp.Automaton.{
  Result, fired, deadlock, out_of_bounds, out_of_fuel, march, initial, fire, is_legal, all_fired,
}

-- Are all `n` soldiers in state `F` at the end, after at most `limit` rounds?
squad_fired : ℕ → ℕ → Result → Bool
squad_fired n limit (fired rounds soldiers) =
    leb rounds limit && (length soldiers == n) && all_fired soldiers
squad_fired n limit _ = false

all_fired-eq-replicate :
    (soldiers : List ℕ) → all_fired soldiers ≡ true → soldiers ≡ replicate (length soldiers) fire
all_fired-eq-replicate [] h = refl
all_fired-eq-replicate (s ∷ rest) h = ground (arith, all_fired-eq-replicate rest)

squad_fired_sound :
    (n limit : ℕ) (res : Result)
    → squad_fired n limit res ≡ true
    → (rounds : ℕ) × (rounds ≤ limit) × (res ≡ fired rounds (replicate n fire))
unfolding squad_fired
squad_fired_sound n limit (fired rounds soldiers) h =
    (rounds, ground arith, ground (arith, all_fired-eq-replicate soldiers))
squad_fired_sound n limit deadlock h = cc
squad_fired_sound n limit out_of_bounds h = cc
squad_fired_sound n limit out_of_fuel h = cc

-- Does the test hold for 1, …, n?
all_upto : ℕ → (ℕ → Bool) → Bool
all_upto zero test = true
all_upto (suc n) test = test (suc n) && all_upto n test

all_upto_sound :
    (n : ℕ) (test : ℕ → Bool) (k : ℕ) → all_upto n test ≡ true → 0 < k → k ≤ n → test k ≡ true
unfolding all_upto
all_upto_sound zero test k h pos le = absurd (omega arith)
all_upto_sound (suc n) test k h pos le = ground (arith, all_upto_sound n test k)

squads_fire : all_upto 15 (λ n. squad_fired n 43 (march 44 0 (initial n))) ≡ true
unfolding all_upto squad_fired march initial
squads_fire = refl

is_legal-bounds : (n : ℕ) → is_legal n ≡ true → (0 < n) × (n ≤ 15)
unfolding is_legal
is_legal-bounds n h = ground arith

-- For every number of soldiers that `main` accepts the squad fires: after at most 43 rounds all
-- soldiers are in the state `F`, none was before, and no soldier reads outside the table on the way.
pub squad_fires :
    (n : ℕ)
    → is_legal n ≡ true
    → (rounds : ℕ) × (rounds ≤ 43) × (march 44 0 (initial n) ≡ fired rounds (replicate n fire))
squad_fires n legal = squad_fired_sound n 43 (march 44 0 (initial n)) (
    all_upto_sound 15 (λ n. squad_fired n 43 (march 44 0 (initial n))) n squads_fire
      (is_legal-bounds n legal).0 (is_legal-bounds n legal).1)
