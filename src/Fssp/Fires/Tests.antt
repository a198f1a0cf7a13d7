-- ===== src/Fssp/Fires/Tests.antt =====
-- The firing squad with seven soldiers, and the check of its number.
use os163_assi.Prelude.{ℕ, ◌≡◌, ◌≤◌, refl, true, replicate}
use os163_assi.Fssp.Automaton.{is_legal, march, initial, fired, fire}
use os163_assi.Fssp.Fires.{squad_fires}

seven_is_legal : is_legal 7 ≡ true
unfolding is_legal
seven_is_legal = refl

squad_fires_example :
    (rounds : ℕ) × (rounds ≤ 43) × (march 44 0 (initial 7) ≡ fired rounds (replicate 7 fire))
squad_fires_example = squad_fires 7 seven_is_legal
