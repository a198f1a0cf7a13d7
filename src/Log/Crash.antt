-- ===== src/Log/Crash.antt =====
-- Crash safety of the log: a transaction is on the disk as a whole or not at all.
use os163_assi.Prelude.{
  ℕ, suc, ◌≡◌, ◌≤◌, ◌<◌, ◌∙◌, ap, refl, true, false, inl, inr, List, [], ◌∷◌, ◌==◌, length, arith,
  Bool-cases,
}
use os163_assi.Log.{
  Block, Store, reboot, decode, write_head, write_log_loop, install_loop, commit, recover_from_log,
}
use os163_assi.Log.Region.{
  in_region, all_outside, Logged-ext, write_log_loop-outside, write_log_loop-power,
  write_log_loop-Logged, install_loop-power, install_loop-dead,
}
use os163_assi.Log.Recover.{
  recoveries, write_head-live, decode-live, Recoverable, undone, installed, install, Atomic,
  recover-Atomic, recoveries-Recoverable,
}

-- The transaction: the log at `start`, the block numbers, the disk before, and what the cache holds.
module _ (start : ℕ) (blocks : List ℕ) (old c : ℕ → Block)
    (out : all_outside start (suc (length blocks)) blocks ≡ true) where
  -- Committing, interrupted or not, leaves a disk that can be recovered.
  module _ (st : Store) (clean : decode (st.disk start) ≡ []) (before : (x : ℕ) → st.disk x ≡ old x)
      (cached : (x : ℕ) → st.cache x ≡ c x) where
    copied_st : Store
    copied_st = write_log_loop blocks (suc start) st

    headed : Store
    headed = write_head start blocks copied_st

    -- `write_log` leaves the header and the home blocks alone.
    spared :
        (x : ℕ)
        → in_region (suc start) (length blocks) x ≡ false
        → (copied_st.disk x ≡ st.disk x) × (copied_st.cache x ≡ st.cache x)
    unfolding copied_st
    spared x h = write_log_loop-outside blocks (suc start) st x h

    commit-dead :
        (copied_st.power == 0) ≡ true
        → Recoverable start blocks old c out
            (write_head start [] (install_loop blocks (suc start) headed)).disk
    unfolding headed write_head
    commit-dead dead =
        let same : (x : ℕ)
            → (write_head start [] (install_loop blocks (suc start) headed)).disk x
              ≡ copied_st.disk x =
          λ x. ground (
            arith,
            install_loop-dead blocks (suc start) headed x (ground arith),
            install_loop-power blocks (suc start) headed,
          ) in
        undone (ap decode (same start ∙ (spared start (ground arith)).0) ∙ clean)
          (λ x h. same x ∙ (spared x (ground arith)).0 ∙ before x)

    commit-live :
        (copied_st.power == 0) ≡ false
        → Recoverable start blocks old c out
            (write_head start [] (install_loop blocks (suc start) headed)).disk
    unfolding headed installed copied_st write_head
    commit-live live =
        let (in_cache, on_disk) =
          write_log_loop-Logged blocks (suc start) start (suc (length blocks)) c st (omega arith)
            (omega arith) out (λ x h. cached x) in
        let enough : length blocks ≤ st.power =
          ground (arith, write_log_loop-power blocks (suc start) st) in
        install start blocks old c out headed (decode-live start blocks copied_st live)
          (Logged-ext blocks (suc start) c copied_st.cache headed.cache (λ x h. ground arith)
            in_cache)
          (Logged-ext blocks (suc start) c copied_st.disk headed.disk
            (λ x h. write_head-live start blocks copied_st x live ∙ ground arith) (on_disk enough))
          (λ x h. inl (
            write_head-live start blocks copied_st x live
            ∙ ground arith
            ∙ (spared x (ground arith)).0
            ∙ before x))

    commit-Recoverable :
        Recoverable start blocks old c out
          (write_head start [] (install_loop blocks (suc start) headed)).disk
    commit-Recoverable = elim (Bool-cases (copied_st.power == 0)) [
      | inl dead ↦ commit-dead dead
      | inr live ↦ commit-live live
    ]

-- The disk after a commit can be recovered.
committed :
    (start : ℕ) (blocks : List ℕ) (st : Store)
    (out : all_outside start (suc (length blocks)) blocks ≡ true)
    → decode (st.disk start) ≡ []
    → Recoverable start blocks st.disk st.cache out (commit start blocks st).disk
unfolding commit headed copied_st
committed start [] st out clean = undone clean (λ x h. refl)
committed start (b ∷ rest) st out clean =
    commit-Recoverable start (b ∷ rest) st.disk st.cache out st clean (λ x. refl) (λ x. refl)

-- Crash safety. Let the log be empty on the disk, and the logged blocks lie outside the log. Let the
-- machine lose power anywhere in `commit`, or not at all, and then any number of times anywhere in
-- `recover_from_log`, and let one recovery run to its end. Then the log is empty again, and either
-- every block outside the log is as it was before the commit, or every logged block holds what the
-- cache held of it and every other block outside the log is as it was.
pub crash_safe :
    (start : ℕ) (blocks powers : List ℕ) (last : ℕ) (st : Store)
    (out : all_outside start (suc (length blocks)) blocks ≡ true)
    → decode (st.disk start) ≡ []
    → length blocks < last
    → Atomic start blocks st.disk st.cache out
        (recover_from_log start
          (reboot last (recoveries start powers (commit start blocks st)))).disk
crash_safe start blocks powers last st out clean enough =
    recover-Atomic start blocks st.disk st.cache out last
      (recoveries start powers (commit start blocks st)) enough
      (recoveries-Recoverable start blocks st.disk st.cache out powers (commit start blocks st)
        (committed start blocks st out clean))
