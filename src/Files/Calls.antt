-- ===== src/Files/Calls.antt =====
-- Each part of a call of a process keeps the counts of the file table, and does not panic.
use os163_assi.Prelude.{
  ℕ, ◌+◌, ◌≡◌, ◌≤◌, ◌<◌, ◌==◌, Bool, false, true, none, some, get_elem?, set, update, arith,
  Option-cases, Bool-cases, inl, inr, replicate, minus_one, refl, sym, ◌∙◌,
}
use os163_assi.Files.{
  System, filealloc, fdalloc, argfd, dup_begin, dup_end, close_begin, close_end, sys_open,
  fork_files, exit_files, put_fd, fill_in, nofile,
}
use os163_assi.Files.Table.{
  ref_of, filedup_lem, fileclose_lem, filealloc_lem, fdalloc_lem, count, count-set, fill_in-ref,
  dup_all_lem, close_all_lem,
}
use os163_assi.Files.Users.{
  Pc, idle, duping, closing, Running, holds, total_moved, total_has, nproc, IsCounted, count-empty,
}

-- A change at the process `p` that the counts follow.
moved-IsCounted :
    (c c' : Running) (p : ℕ)
    → IsCounted c
    → p < nproc
    → ((q : ℕ) → (p == q) ≡ false → (c.sys.ofile q ≡ c'.sys.ofile q) × (c.pc q ≡ c'.pc q))
    → ((k : ℕ)
        → ref_of c'.sys.files k + holds k (c.sys.ofile p) (c.pc p)
          ≡ ref_of c.sys.files k + holds k (c'.sys.ofile p) (c'.pc p))
    → ((i fd : ℕ) → c'.pc p ≡ duping i fd → 2 ≤ count i (c'.sys.ofile p))
    → IsCounted c'
moved-IsCounted c c' p counts lt others moves twice = record {
  counted = λ k. omega (
    arith,
    counts.counted k,
    moves k,
    total_moved nproc p (λ q. holds k (c.sys.ofile q) (c.pc q))
        (λ q. holds k (c'.sys.ofile q) (c'.pc q))
        (λ q out. let (same, same') = others q out in rw (same, same') refl) lt,
  );
  twice = λ q i fd e. elim (Bool-cases (p == q)) [
    | inl here ↦ let same : p ≡ q = ground arith in rw (sym same) (twice i fd (rw same e))
    | inr there ↦
        let (same, same') = others q there in rw (sym same) (counts.twice q i fd (same' ∙ e))
  ];
}

-- A file that a process holds has a reference.
live :
    (c : Running) (p i : ℕ)
    → IsCounted c
    → p < nproc
    → holds i (c.sys.ofile p) (c.pc p) ≤ ref_of c.sys.files i
live c p i counts lt =
    omega (arith, counts.counted i, total_has nproc p (λ q. holds i (c.sys.ofile q) (c.pc q)) lt)

argfd_lem :
    (s : System) (p fd i : ℕ) → argfd s p fd ≡ some i → get_elem? (s.ofile p) fd ≡ some (some i)
unfolding argfd
argfd_lem s p fd i h = ground arith

same_dup : {i fd j fd' : ℕ} → Path Pc (duping j fd') (duping i fd) → j ≡ i
same_dup e = cc

close_is_no_dup : {i fd j : ℕ} → Path Pc (closing j) (duping i fd) → ⊥
close_is_no_dup e = cc

no_dup : {i fd : ℕ} → Path Pc idle (duping i fd) → ⊥
no_dup e = cc

pub dup_begin-IsCounted :
    (c : Running) (p fd i fd' : ℕ) (t : System)
    → IsCounted c
    → p < nproc
    → c.pc p ≡ idle
    → dup_begin p fd c.sys ≡ some (i, fd', t)
    → IsCounted (record { sys = t; pc = update c.pc p (duping i fd') })
unfolding dup_begin holds
dup_begin-IsCounted c p fd i fd' t counts lt out e = elim (Option-cases (argfd c.sys p fd)) [
  | inl no_file ↦ absurd (ground arith)
  | inr (j, e1) ↦ elim (Option-cases (fdalloc (c.sys.ofile p))) [
    | inl full ↦ absurd (ground arith)
    | inr (n, free) ↦
        let same : j ≡ i = ground arith in
        let same' : put_fd c.sys p n (some j) ≡ t = ground arith in
        let new = set (c.sys.ofile p) n (some j) in
        let self : (p == p) ≡ true = ground arith in
        let at_fd = argfd_lem c.sys p fd j e1 in
        let has_one = λ (k : ℕ). count-set (c.sys.ofile p) fd k (some j) none at_fd in
        let more = λ (k : ℕ).
          count-set (c.sys.ofile p) n k none (some j) (fdalloc_lem (c.sys.ofile p) n free) in
        rw (sym same', sym same)
          (moved-IsCounted c _ p counts lt (λ q out. rw out (refl, refl))
            (λ k. rw (self, out, holds) (ground (arith, more k)))
            (λ i' fd2 at.
              let now : j ≡ i' = same_dup (rw self at at) in
              rw self (ground (arith, more i', has_one i'))))
  ]
]

pub dup_end-IsCounted :
    (c : Running) (p i fd : ℕ)
    → IsCounted c
    → p < nproc
    → c.pc p ≡ duping i fd
    → (t : System) × (dup_end i c.sys ≡ some t)
      × IsCounted (record { sys = t; pc = update c.pc p idle })
unfolding dup_end holds
dup_end-IsCounted c p i fd counts lt at =
    let both = counts.twice p i fd at in
    let self : (p == p) ≡ true = ground arith in
    let lives : holds i (c.sys.ofile p) (duping i fd) ≤ ref_of c.sys.files i =
      rw at at (live c p i counts lt) in
    let (files', dups, gains) = filedup_lem i c.sys.files (ground (arith, lives)) in
    (
      record c.sys { files = files' },
      ground arith,
      moved-IsCounted c _ p counts lt (λ q out. rw out (refl, refl))
          (λ k. rw (self, at) (ground (arith, gains k)))
          (λ i' fd' e. absurd (no_dup (rw self at e))),
    )

pub close_begin-IsCounted :
    (c : Running) (p fd i : ℕ) (t : System)
    → IsCounted c
    → p < nproc
    → c.pc p ≡ idle
    → close_begin p fd c.sys ≡ some (i, t)
    → IsCounted (record { sys = t; pc = update c.pc p (closing i) })
unfolding close_begin holds
close_begin-IsCounted c p fd i t counts lt out e = elim (Option-cases (argfd c.sys p fd)) [
  | inl no_file ↦ absurd (ground arith)
  | inr (j, e1) ↦
      let same : j ≡ i = ground arith in
      let same' : put_fd c.sys p fd none ≡ t = ground arith in
      let self : (p == p) ≡ true = ground arith in
      let less =
        λ (k : ℕ). count-set (c.sys.ofile p) fd k (some j) none (argfd_lem c.sys p fd j e1) in
      rw (sym same', sym same)
        (moved-IsCounted c _ p counts lt (λ q out. rw out (refl, refl))
          (λ k. rw (self, out, holds) (ground (arith, less k)))
          (λ i' fd' at. absurd (close_is_no_dup (rw self at at))))
]

pub close_end-IsCounted :
    (c : Running) (p i : ℕ)
    → IsCounted c
    → p < nproc
    → c.pc p ≡ closing i
    → (t : System) × (close_end i c.sys ≡ some t)
      × IsCounted (record { sys = t; pc = update c.pc p idle })
unfolding close_end holds
close_end-IsCounted c p i counts lt at =
    let self : (p == p) ≡ true = ground arith in
    let lives : holds i (c.sys.ofile p) (closing i) ≤ ref_of c.sys.files i =
      rw at at (live c p i counts lt) in
    let (out, files', closes, gains) = fileclose_lem i c.sys.files (ground (arith, lives)) in
    (
      record c.sys { files = files' },
      ground arith,
      moved-IsCounted c _ p counts lt (λ q out. rw out (refl, refl))
          (λ k. rw (self, at) (ground (arith, gains k)))
          (λ i' fd' e. absurd (no_dup (rw self at e))),
    )

pub fork_files-IsCounted :
    (c : Running) (p child : ℕ)
    → IsCounted c
    → p < nproc
    → child < nproc
    → c.pc p ≡ idle
    → c.pc child ≡ idle
    → c.sys.ofile child ≡ replicate nofile none
    → (t : System) × (fork_files p child c.sys ≡ some t) × IsCounted (record c { sys = t })
unfolding fork_files holds
fork_files-IsCounted c p child counts lt lt' out out' empty =
    let self : (child == child) ≡ true = ground arith in
    let (files', dups, gains) = dup_all_lem (c.sys.ofile p) c.sys.files (λ i pos.
      let lives : holds i (c.sys.ofile p) idle ≤ ref_of c.sys.files i =
        rw out at (live c p i counts lt) in
      omega (arith, pos, lives)) in
    (
      record { files = files'; ofile = update c.sys.ofile child (c.sys.ofile p) },
      ground arith,
      moved-IsCounted c _ child counts lt' (λ q out. rw out (refl, refl))
          (λ k. rw (self, out', empty) (omega (arith, gains k, count-empty k nofile)))
          (λ i fd e. absurd (no_dup (rw out' at e))),
    )

pub exit_files-IsCounted :
    (c : Running) (p : ℕ)
    → IsCounted c
    → p < nproc
    → c.pc p ≡ idle
    → (t : System) × (exit_files p c.sys ≡ some t) × IsCounted (record c { sys = t })
unfolding exit_files holds
exit_files-IsCounted c p counts lt out =
    let self : (p == p) ≡ true = ground arith in
    let (files', closes, loses) = close_all_lem (c.sys.ofile p) c.sys.files (λ i.
      let lives : holds i (c.sys.ofile p) idle ≤ ref_of c.sys.files i =
        rw out at (live c p i counts lt) in
      omega (arith, lives)) in
    (
      record { files = files'; ofile = update c.sys.ofile p (replicate nofile none) },
      ground arith,
      moved-IsCounted c _ p counts lt (λ q out. rw out (refl, refl))
          (λ k. rw (self, out) (omega (arith, loses k, count-empty k nofile)))
          (λ i fd e. absurd (no_dup (rw out at e))),
    )

pub sys_open-IsCounted :
    (c : Running) (ip p : ℕ) (readable writable : Bool)
    → IsCounted c
    → p < nproc
    → c.pc p ≡ idle
    → (r : ℕ) × (t : System) × (sys_open ip readable writable p c.sys ≡ some (r, t))
      × IsCounted (record c { sys = t })
unfolding sys_open holds
sys_open-IsCounted c ip p readable writable counts lt out =
    elim (Option-cases (filealloc c.sys.files)) [
      | inl e ↦ (minus_one, c.sys, ground arith, counts)
      | inr ((i, files1), e) ↦
          let gains = filealloc_lem c.sys.files files1 i e in
          elim (Option-cases (fdalloc (c.sys.ofile p))) [
            | inl full ↦
                let (gone, files2, closes, loses) =
                  fileclose_lem i files1 (ground (arith, gains i)) in
                (
                  minus_one,
                  record c.sys { files = files2 },
                  ground arith,
                  moved-IsCounted c _ p counts lt (λ q out. (refl, refl))
                      (λ k. omega (arith, gains k, loses k))
                      (λ i fd e. absurd (no_dup (rw out at e))),
                )
            | inr (fd, free) ↦
                let files2 = fill_in ip readable writable files1 i (get_elem? files1 i) in
                let self : (p == p) ≡ true = ground arith in
                (
                  fd,
                  record (put_fd c.sys p fd (some i)) { files = files2 },
                  ground arith,
                  moved-IsCounted c _ p counts lt (λ q out. rw out (refl, refl))
                      (λ k.
                        rw (self, out)
                          (omega (
                            arith,
                            gains k,
                            fill_in-ref ip i k readable writable files1,
                            count-set (c.sys.ofile p) fd k none (some i)
                                (fdalloc_lem (c.sys.ofile p) fd free),
                          )))
                      (λ i fd e. absurd (no_dup (rw out at e))),
                )
          ]
    ]
