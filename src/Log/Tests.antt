-- ===== src/Log/Tests.antt =====
-- A transaction of two blocks on a disk whose log starts at block 2, with a crash in the commit and
-- one in the first recovery.
use os163_assi.Prelude.{ℕ, suc, length, ◌≢◌, ◌++◌, ◌≡◌, ◌≤◌, ◌<◌, ◌∷◌, List, [], false, refl, arith}
use os163_assi.Log.{
  Store, decode, commit, reboot, recover_from_log, begin_op, log_write, end_op, panics,
}
use os163_assi.Log.Recover.{recoveries, Atomic}
use os163_assi.Log.Reserve.{System, Reach, start, later, begins, writes, reserve_is_enough}
use os163_assi.Log.Crash.{crash_safe}

abbrev blocks : List ℕ
blocks = 40 ∷ 50 ∷ []

abbrev st : Store
st = record { disk = λ b. 0 ∷ []; cache = λ b. b ∷ b ∷ []; power = 4 }

clean : decode (st.disk 2) ≡ []
unfolding decode
clean = refl

crash_safe_example :
    Atomic 2 blocks st.disk st.cache refl
      (recover_from_log 2 (reboot 9 (recoveries 2 (1 ∷ []) (commit 2 blocks st)))).disk
crash_safe_example = crash_safe 2 blocks (1 ∷ []) 9 st refl clean (omega arith)

-- The crash comes after the header was written: the transaction is completed by the recovery.
recovered :
    (recover_from_log 2 (reboot 9 (recoveries 2 (1 ∷ []) (commit 2 blocks st)))).disk 50
    ≡ 50 ∷ 50 ∷ []
unfolding recover_from_log recoveries commit
recovered = refl

-- Two operations have begun on a log of 31 blocks, and one of them has written a block.
writing :
    (s : System) × Reach 31 s
    × (s.overrun ≡ false)
    × (s.budgets ≡ (10 ∷ []) ++ (9 ∷ []))
    × (s.log.block ≡ 40 ∷ [])
unfolding begin_op log_write
writing = (
  _,
  later (later (later start (begins refl)) (begins refl)) (writes (10 ∷ []) [] 9 40 refl refl),
  refl,
  refl,
  refl,
)

reserve_is_enough_example :
    ((end_op writing.0.log).1 ≢ panics)
    × (log_write 41 writing.0.log ≡ panics → 31 ≤ suc (length writing.0.log.block))
    × (30 < 31 → log_write 41 writing.0.log ≢ panics)
reserve_is_enough_example = reserve_is_enough (10 ∷ []) [] 8 41 writing.1 writing.2 writing.3
