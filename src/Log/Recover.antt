-- ===== src/Log/Recover.antt =====
-- What a crash may leave on the disk, and how `recover_from_log` deals with it.
use os163_assi.Prelude.{
  ℕ, suc, ◌≡◌, ◌<◌, ◌∙◌, ap, refl, Bool, true, false, not, ◌⊎◌, inl, inr, List, [], ◌∷◌,
  if◌then◌else◌, ◌==◌, length, arith, Bool-cases,
}
use os163_assi.Log.{
  Block, Store, reboot, encode, decode, write_head, install_loop, recover_from_log, has,
}
use os163_assi.Log.Region.{
  decode-encode, in_region, all_outside, Logged, Logged-ext, install_loop-mixed, install_loop-full,
  install_loop-power,
}

-- Interrupted recoveries: the machine starts with the given power, and dies again.
unfoldable pub recoveries : ℕ → List ℕ → Store → Store
recoveries start [] st = st
recoveries start (power ∷ rest) st =
    recoveries start rest (recover_from_log start (reboot power st))

-- A header write, with and without power.
pub write_head-live :
    (start : ℕ) (blocks : List ℕ) (st : Store) (x : ℕ)
    → (st.power == 0) ≡ false
    → ((write_head start blocks st).disk x
        ≡ (if start == x then encode blocks (st.cache start) else st.disk x))
unfolding write_head
write_head-live start blocks st x live = ground arith

pub write_head-dead :
    (start : ℕ) (blocks : List ℕ) (st : Store) (x : ℕ)
    → (st.power == 0) ≡ true
    → (write_head start blocks st).disk x ≡ st.disk x
unfolding write_head
write_head-dead start blocks st x dead = ground arith

pub decode-live :
    (start : ℕ) (blocks : List ℕ) (st : Store)
    → (st.power == 0) ≡ false
    → decode ((write_head start blocks st).disk start) ≡ blocks
decode-live start blocks st live =
    ap decode (write_head-live start blocks st start live ∙ ground arith)
    ∙ decode-encode blocks (st.cache start)

-- The transaction: the log at `start`, the block numbers, the disk before, and what the cache holds.
module _ (start : ℕ) (blocks : List ℕ) (old c : ℕ → Block)
    (out : all_outside start (suc (length blocks)) blocks ≡ true) where
  abbrev pub home : ℕ → Bool
  home x = not (in_region start (suc (length blocks)) x)

  -- What the disk shall hold at a home block once the transaction is committed.
  abbrev pub new : ℕ → Block
  new x = if has x blocks then c x else old x

  -- The disk lets the transaction be undone, completed from the log, or has it completed.
  pub data Recoverable (d : ℕ → Block) : Type 0 where
    undone : decode (d start) ≡ [] → ((x : ℕ) → home x ≡ true → d x ≡ old x) → Recoverable d
    logged :
        decode (d start) ≡ blocks
        → Logged blocks (suc start) c d
        → ((x : ℕ) → home x ≡ true → (d x ≡ old x) ⊎ ((has x blocks ≡ true) × (d x ≡ c x)))
        → Recoverable d
    completed : decode (d start) ≡ [] → ((x : ℕ) → home x ≡ true → d x ≡ new x) → Recoverable d

  -- The header is no home block, and so are the copies.
  has-outside :
      (bs : List ℕ) (x : ℕ)
      → all_outside start (suc (length blocks)) bs ≡ true
      → home x ≡ false
      → has x bs ≡ false
  has-outside [] x o h = refl
  has-outside (b ∷ bs) x o h = ground (arith, has-outside bs x)

  -- An installation from the log, and the header write behind it.
  module _ (st : Store) (head : decode (st.disk start) ≡ blocks)
      (cached : Logged blocks (suc start) c st.cache) (copied : Logged blocks (suc start) c st.disk)
      (mixed : (x : ℕ)
        → home x ≡ true
        → (st.disk x ≡ old x) ⊎ ((has x blocks ≡ true) × (st.disk x ≡ c x))) where
    unfoldable pub installed : Store
    installed = install_loop blocks (suc start) st

    mixed_after :
        (x : ℕ)
        → (installed.disk x ≡ st.disk x) ⊎ ((has x blocks ≡ true) × (installed.disk x ≡ c x))
    unfolding installed
    mixed_after x =
        install_loop-mixed blocks (suc start) start (suc (length blocks)) c st x (omega arith)
          (omega arith) out cached

    kept : (x : ℕ) → home x ≡ false → installed.disk x ≡ st.disk x
    kept x h = elim (mixed_after x) [
      | inl e ↦ e
      | inr (hit, e) ↦ let miss = has-outside blocks x out h in cc
    ]

    install-dead : (installed.power == 0) ≡ true → Recoverable (write_head start [] installed).disk
    install-dead dead =
        let same = λ (x : ℕ). write_head-dead start [] installed x dead in
        logged (ap decode (same start ∙ kept start (ground arith)) ∙ head)
          (Logged-ext blocks (suc start) c st.disk (write_head start [] installed).disk
            (λ x h. same x ∙ kept x (ground arith)) copied)
          (λ x h. elim (mixed_after x) [
            | inr (hit, e) ↦ inr (hit, same x ∙ e)
            | inl e ↦ elim (mixed x h) [
              | inl before ↦ inl (same x ∙ e ∙ before)
              | inr (hit, after) ↦ inr (hit, same x ∙ e ∙ after)
            ]
          ])

    full :
        (installed.power == 0) ≡ false
        → (x : ℕ) → installed.disk x ≡ (if has x blocks then c x else st.disk x)
    unfolding installed
    full live x =
        install_loop-full blocks (suc start) start (suc (length blocks)) c st x (omega arith)
          (omega arith) out cached (ground (arith, install_loop-power blocks (suc start) st))

    install-live :
        (installed.power == 0) ≡ false
        → (decode ((write_head start [] installed).disk start) ≡ [])
          × ((x : ℕ) → home x ≡ true → (write_head start [] installed).disk x ≡ new x)
    install-live live = (
      decode-live start [] installed live,
      λ x h. elim (mixed x h) [
        | inl before ↦ ground (arith, write_head-live start [] installed x live, full live x)
        | inr (hit, after) ↦ ground (arith, write_head-live start [] installed x live, full live x)
      ],
    )

    enough_power : length blocks < st.power → (installed.power == 0) ≡ false
    unfolding installed
    enough_power enough = ground (arith, install_loop-power blocks (suc start) st)

    pub install : Recoverable (write_head start [] installed).disk
    install = elim (Bool-cases (installed.power == 0)) [
      | inl dead ↦ install-dead dead
      | inr live ↦ completed (install-live live).0 (install-live live).1
    ]

  -- Clearing a header that is clear keeps every home block.
  cleared :
      (st : Store)
      → decode (st.disk start) ≡ []
      → (decode ((write_head start [] st).disk start) ≡ [])
        × ((x : ℕ) → home x ≡ true → (write_head start [] st).disk x ≡ st.disk x)
  cleared st empty = elim (Bool-cases (st.power == 0)) [
    | inl dead ↦ (
      ap decode (write_head-dead start [] st start dead) ∙ empty,
      λ x h. write_head-dead start [] st x dead,
    )
    | inr live ↦
        (decode-live start [] st live, λ x h. write_head-live start [] st x live ∙ ground arith)
  ]

  recovered-empty :
      (power : ℕ) (st : Store)
      → decode (st.disk start) ≡ []
      → recover_from_log start (reboot power st) ≡ write_head start [] (reboot power st)
  unfolding recover_from_log
  recovered-empty power st empty =
      ap (λ bs. write_head start [] (install_loop bs (suc start) (reboot power st))) empty

  recovered-logged :
      (power : ℕ) (st : Store)
      → decode (st.disk start) ≡ blocks
      → recover_from_log start (reboot power st)
        ≡ write_head start [] (install_loop blocks (suc start) (reboot power st))
  unfolding recover_from_log
  recovered-logged power st full =
      ap (λ bs. write_head start [] (install_loop bs (suc start) (reboot power st))) full

  -- A recovery, interrupted or not, leaves a disk that can be recovered.
  recover-Recoverable :
      (power : ℕ) (st : Store)
      → Recoverable st.disk
      → Recoverable (recover_from_log start (reboot power st)).disk
  unfolding installed
  recover-Recoverable power st (undone empty before) =
      let (empty', same) = cleared (reboot power st) empty in
      rw (recovered-empty power st empty) (undone empty' (λ x h. same x h ∙ before x h))
  recover-Recoverable power st (completed empty after) =
      let (empty', same) = cleared (reboot power st) empty in
      rw (recovered-empty power st empty) (completed empty' (λ x h. same x h ∙ after x h))
  recover-Recoverable power st (logged head copied mixed) =
      rw (recovered-logged power st head) (install (reboot power st) head copied copied mixed)

  -- The transaction is on the disk as a whole or not at all, and the log is empty.
  abbrev pub Atomic : (ℕ → Block) → Type 0
  Atomic d =
      (decode (d start) ≡ [])
      × (((x : ℕ) → home x ≡ true → d x ≡ old x) ⊎ ((x : ℕ) → home x ≡ true → d x ≡ new x))

  pub recover-Atomic :
      (power : ℕ) (st : Store)
      → length blocks < power
      → Recoverable st.disk
      → Atomic (recover_from_log start (reboot power st)).disk
  unfolding installed
  recover-Atomic power st enough (undone empty before) =
      let (empty', same) = cleared (reboot power st) empty in
      rw (recovered-empty power st empty) (empty', inl (λ x h. same x h ∙ before x h))
  recover-Atomic power st enough (completed empty after) =
      let (empty', same) = cleared (reboot power st) empty in
      rw (recovered-empty power st empty) (empty', inr (λ x h. same x h ∙ after x h))
  recover-Atomic power st enough (logged head copied mixed) =
      let st' = reboot power st in
      let live = enough_power st' head copied copied mixed enough in
      let (empty', after) = install-live st' head copied copied mixed live in
      rw (recovered-logged power st head) (empty', inr after)

  pub recoveries-Recoverable :
      (powers : List ℕ) (st : Store)
      → Recoverable st.disk
      → Recoverable (recoveries start powers st).disk
  unfolding recoveries
  recoveries-Recoverable [] st r = r
  recoveries-Recoverable (power ∷ rest) st r =
      recoveries-Recoverable rest (recover_from_log start (reboot power st))
        (recover-Recoverable power st r)
