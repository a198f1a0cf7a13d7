-- ===== src/Inode/Unique.antt =====
-- fs.c: an inode is never in two places of the cache, so that all who use it lock the same copy.
use os163_assi.Prelude.{
  ℕ, ◌≡◌, ◌≢◌, ◌<◌, Bool, true, false, some, ◌==◌, update, arith, refl, Bool-cases, Option-cases,
  inl, inr, find_first, find_first-Found, find_first-none, add32, sub32,
}
use os163_assi.Inode.{
  Dinode, Inode, Cache, ninode, in_use, is_inode, iget, idup, done, truncates, ilock, iunlock, iput,
  iput_ends, cleared,
}

-- Steps of threads on the cache. A caller of `idup` and `iput` holds a reference.
pub data Step (c : Cache) : Cache → Type 0 where
  gets : (dev inum i : ℕ) {c' : Cache} → iget dev inum c ≡ some (i, c') → Step c c'
  dups : (i : ℕ) → in_use (c i).ref ≡ true → Step c (idup i c)
  locks : (i : ℕ) (on_disk : Dinode) {c' : Cache} → ilock i on_disk c ≡ done c' → Step c c'
  unlocks : (i : ℕ) {c' : Cache} → iunlock i c ≡ done c' → Step c c'
  puts : (i : ℕ) {c' : Cache} → in_use (c i).ref ≡ true → iput i c ≡ done c' → Step c c'
  frees : (i : ℕ) {c' : Cache} → in_use (c i).ref ≡ true → iput i c ≡ truncates c' → Step c c'
  freed : (i : ℕ) → in_use (c i).ref ≡ true → Step c (iput_ends i c)

abbrev pub empty_entry : Inode
empty_entry = record {
  dev = 0;
  inum = 0;
  ref = 0;
  busy = false;
  valid = false;
  copy = record { itype = 0; major = 0; minor = 0; nlink = 0; size = 0; addrs = λ n. 0 };
}

pub data Reach : Cache → Type 0 where
  start : Reach (λ i. empty_entry)
  later : {c c' : Cache} → Reach c → Step c c' → Reach c'

-- No two of the 50 places in use hold the same inode.
abbrev pub Distinct : Cache → Type 0
Distinct c =
    (i j dev inum : ℕ)
    → i < ninode
    → j < ninode
    → is_inode dev inum (c i) ≡ true
    → is_inode dev inum (c j) ≡ true
    → (i == j) ≡ true

-- A change of one entry that brings no new inode into the cache.
update-Distinct :
    (c : Cache) (k : ℕ) (ip : Inode)
    → Distinct c
    → ((dev inum : ℕ) → is_inode dev inum ip ≡ true → is_inode dev inum (c k) ≡ true)
    → Distinct (update c k ip)
update-Distinct c k ip apart old i j dev inum lt lt' at at' = elim (Bool-cases (k == i)) [
  | inl here ↦ elim (Bool-cases (k == j)) [
    | inl there ↦ ground arith
    | inr far ↦ ground (arith, apart i j dev inum lt lt', old dev inum)
  ]
  | inr away ↦ elim (Bool-cases (k == j)) [
    | inl there ↦ ground (arith, apart i j dev inum lt lt', old dev inum)
    | inr far ↦ ground (arith, apart i j dev inum lt lt')
  ]
]

iget-Distinct :
    (dev inum i : ℕ) (c c' : Cache) → Distinct c → iget dev inum c ≡ some (i, c') → Distinct c'
unfolding iget
iget-Distinct dev inum i c c' apart runs =
    let hit : ℕ → Bool = λ k. is_inode dev inum (c k) in
    elim (Option-cases (find_first hit ninode 0)) [
      | inr (k, e) ↦
          let f = find_first-Found hit ninode 0 k e in
          let new : Inode = record (c k) { ref = add32 (c k).ref 1 } in
          let same : update c k new ≡ c' = ground arith in
          rw (← same) (update-Distinct c k new apart (λ d n is_new. ground (arith, f.hit)))
      | inl e ↦ elim (Option-cases (find_first (λ k. (c k).ref == 0) ninode 0)) [
        | inl full ↦ absurd (ground arith)
        | inr (k, e2) ↦
            let new : Inode = record (c k) {
              dev = dev;
              inum = inum;
              ref = 1;
              busy = false;
              valid = false;
            } in
            let same : update c k new ≡ c' = ground arith in
            rw (← same) (
              fresh k new refl refl
                (λ j lt. find_first-none hit ninode 0 j e (omega arith) (omega arith)))
      ]
    ]
  where
    fresh :
        (k : ℕ) (new : Inode)
        → new.dev ≡ dev
        → new.inum ≡ inum
        → ((j : ℕ) → j < ninode → is_inode dev inum (c j) ≡ false)
        → Distinct (update c k new)
    fresh k new d n none_there i j dev' inum' lt lt' at at' = elim (Bool-cases (k == i)) [
      | inl here ↦ elim (Bool-cases (k == j)) [
        | inl there ↦ ground arith
        | inr far ↦ ground (arith, none_there j lt')
      ]
      | inr away ↦ elim (Bool-cases (k == j)) [
        | inl there ↦ ground (arith, none_there i lt)
        | inr far ↦ ground (arith, apart i j dev' inum' lt lt')
      ]
    ]

-- A call that changes one entry and brings no inode into it.
Step-Distinct : {c c' : Cache} → Distinct c → Step c c' → Distinct c'
unfolding idup ilock iunlock iput iput_ends
Step-Distinct {c} {c'} apart (gets dev inum i runs) = iget-Distinct dev inum i c c' apart runs
Step-Distinct {c} apart (dups i held) =
    update-Distinct c i (record (c i) { ref = add32 (c i).ref 1 }) apart (λ d n h. ground arith)
Step-Distinct {c} {c'} apart (locks i on_disk runs) = elim (Bool-cases (c i).valid) [
  | inl valid ↦
      let new : Inode = record (c i) { busy = true } in
      let same : update c i new ≡ c' = ground arith in
      rw (← same) (update-Distinct c i new apart (λ d n h. h))
  | inr fresh ↦
      let new : Inode = record (c i) { busy = true; valid = true; copy = on_disk } in
      let same : update c i new ≡ c' = ground arith in
      rw (← same) (update-Distinct c i new apart (λ d n h. h))
]
Step-Distinct {c} {c'} apart (unlocks i runs) =
    let new : Inode = record (c i) { busy = false } in
    let same : update c i new ≡ c' = ground arith in
    rw (← same) (update-Distinct c i new apart (λ d n h. h))
Step-Distinct {c} {c'} apart (puts i held runs) =
    let new : Inode = record (c i) { ref = sub32 (c i).ref 1 } in
    let same : update c i new ≡ c' = ground arith in
    rw (← same) (update-Distinct c i new apart (λ d n h. ground arith))
Step-Distinct {c} {c'} apart (frees i held runs) =
    let new : Inode = record (c i) { busy = true } in
    let same : update c i new ≡ c' = ground arith in
    rw (← same) (update-Distinct c i new apart (λ d n h. h))
Step-Distinct {c} apart (freed i held) =
    update-Distinct c i
      (record (c i) {
        ref = sub32 (c i).ref 1;
        busy = false;
        valid = false;
        copy = cleared (c i).copy;
      })
      apart (λ d n h. ground arith)

Reach-Distinct : {c : Cache} → Reach c → Distinct c
Reach-Distinct start = λ i j dev inum lt lt' at at'. ground arith
Reach-Distinct (later r st) = Step-Distinct (Reach-Distinct r) st

-- In every reachable state of the cache, two places in use for the same device hold different
-- inodes.
pub one_inode :
    {c : Cache} (i j : ℕ)
    → Reach c
    → i < ninode
    → j < ninode
    → i ≢ j
    → in_use (c i).ref ≡ true
    → in_use (c j).ref ≡ true
    → (c i).dev ≡ (c j).dev
    → (c i).inum ≢ (c j).inum
one_inode {c} i j r lt lt' apart used used' d n =
    apart (
      ground
        (arith, Reach-Distinct r i j (c i).dev (c i).inum lt lt' (ground arith) (ground arith)))
