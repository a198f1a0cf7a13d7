-- ===== src/Fssp/Barrier/Phases.antt =====
-- The invariant of the barrier: it fills, and then it empties, one generation after the other.
use os163_assi.Prelude.{
  ℕ, suc, ◌+◌, ◌-◌, ◌≡◌, ◌≤◌, ◌<◌, ◌⊎◌, inl, inr, refl, ap, Bool, true, false, update, ltb, ◌==◌,
  arith, bit, how_many, how_many-update, how_many-le, how_many_all, how_many_none, how_many-eq-zero,
  Bool-cases,
}
use os163_assi.Fssp.Barrier.{
  Barrier, Pc, outside, counting, gathered, draining, count_in, count_out, Move, enter, count,
  leave, drain, System, Step, pick, Reach, start, later,
}

abbrev pub is_counting : Pc → Bool
is_counting (counting c) = true
is_counting _ = false

abbrev pub is_gathered : Pc → Bool
is_gathered (gathered c) = true
is_gathered _ = false

abbrev pub is_draining : Pc → Bool
is_draining (draining c) = true
is_draining _ = false

-- Where a thread may stand while generation `g` gathers, and while it leaves.
abbrev pub may_fill : ℕ → Pc → Bool
may_fill g (outside c) = c == g
may_fill g (counting c) = c == g
may_fill g (gathered c) = c == g
may_fill g (draining c) = false

abbrev pub may_empty : ℕ → Pc → Bool
may_empty g (outside c) = c == suc g
may_empty g (counting c) = false
may_empty g (gathered c) = c == g
may_empty g (draining c) = c == g

pub record Filling (n g : ℕ) (b : Barrier) (pc : ℕ → Pc) : Type 0 where
  pub limit : b.limit ≡ n
  pub shut : b.post_mx ≡ true
  pub holder : how_many is_counting n pc ≡ bit b.pre_mx
  pub counter : how_many is_gathered n pc ≡ b.counter
  pub room : b.counter < n
  pub places : (i : ℕ) → i < n → may_fill g (pc i) ≡ true

pub record Emptying (n g : ℕ) (b : Barrier) (pc : ℕ → Pc) : Type 0 where
  pub limit : b.limit ≡ n
  pub shut : b.pre_mx ≡ true
  pub holder : how_many is_draining n pc ≡ bit b.post_mx
  pub counter : how_many is_gathered n pc + bit b.post_mx ≡ b.counter
  pub some_left : 0 < b.counter
  pub places : (i : ℕ) → i < n → may_empty g (pc i) ≡ true

abbrev pub Inv : ℕ → Barrier → (ℕ → Pc) → Type 0
Inv n b pc = ((g : ℕ) × Filling n g b pc) ⊎ ((g : ℕ) × Emptying n g b pc)

module _ (n : ℕ) (b : Barrier) (pc : ℕ → Pc) (i : ℕ) (lt : i < n) where
  -- The counts that a move of thread `i` to `p'` changes.
  record Counts (p' : Pc) : Type 0 where
    c :
        how_many is_counting n (update pc i p') + bit (is_counting (pc i))
        ≡ how_many is_counting n pc + bit (is_counting p')
    g :
        how_many is_gathered n (update pc i p') + bit (is_gathered (pc i))
        ≡ how_many is_gathered n pc + bit (is_gathered p')
    d :
        how_many is_draining n (update pc i p') + bit (is_draining (pc i))
        ≡ how_many is_draining n pc + bit (is_draining p')

  counts : (p' : Pc) → Counts p'
  counts p' = record {
    c = how_many-update is_counting n pc i p' lt;
    g = how_many-update is_gathered n pc i p' lt;
    d = how_many-update is_draining n pc i p' lt;
  }

  -- The last thread to be counted opens the way out: all threads have gathered.
  last_in :
      {c : ℕ} (g : ℕ)
      → pc i ≡ counting c
      → Counts (gathered c)
      → Filling n g b pc
      → n ≤ b.counter + 1
      → Emptying n g
          (record b { counter = b.counter + 1; post_mx = false })
          (update pc i (gathered c))
  last_in {c} g at k f full = record {
    limit = f.limit;
    shut = ground (arith, k.c, f.holder);
    holder = omega (arith, k.d, none_drains, ap (λ p. bit (is_draining p)) at);
    counter = ground (arith, k.g, f.counter);
    some_left = omega arith;
    places = λ j q. ground (
      arith,
      how_many_all is_gathered n (update pc i (gathered c)) j
          (ground (arith, k.g, f.counter, f.room)) q,
      f.places j q,
    );
  }
    where
      none_drains : how_many is_draining n pc ≡ 0
      none_drains = how_many-eq-zero is_draining n pc (λ j q. ground (arith, f.places j q))

  -- A thread that finds the barrier filling keeps it so, unless it is the last one to be counted.
  fill_move :
      {p p' : Pc} {b' : Barrier} (g : ℕ)
      → pc i ≡ p
      → Counts p'
      → Move b p b' p'
      → Filling n g b pc
      → Inv n b' (update pc i p')
  unfolding count_in
  fill_move g at k (enter e) f = inl (
    g,
    record {
      limit = f.limit;
      shut = f.shut;
      holder = ground (arith, k.c, f.holder);
      counter = ground (arith, k.g, f.counter);
      room = f.room;
      places = λ j q. ground (arith, f.places j, f.places i);
    },
  )
  fill_move g at k count f = elim (Bool-cases (ltb (b.counter + 1) b.limit)) [
    | inl more ↦
        rw (more, count_in)
          (inl (
            g,
            record {
              limit = f.limit;
              shut = f.shut;
              holder = ground (arith, k.c, f.holder, how_many-le is_counting n pc);
              counter = ground (arith, k.g, f.counter);
              room = ground (arith, f.limit);
              places = λ j q. ground (arith, f.places j, f.places i);
            },
          ))
    | inr last ↦ rw (last, count_in) (inr (g, last_in g at k f (ground (arith, f.limit))))
  ]
  fill_move g at k (leave e) f = absurd (ground (arith, f.shut))
  fill_move g at k drain f = absurd (ground (arith, f.places i))

  -- The last thread to leave opens the way in for the next generation.
  last_out :
      {c : ℕ} (g : ℕ)
      → pc i ≡ draining c
      → Counts (outside (suc c))
      → Emptying n g b pc
      → b.counter ≤ 1
      → Filling n
          (suc g)
          (record b { counter = b.counter - 1; pre_mx = false })
          (update pc i (outside (suc c)))
  last_out {c} g at k e few = record {
    limit = e.limit;
    shut = ground (arith, k.d, e.holder);
    holder = omega (arith, k.c, none_counts, ap (λ p. bit (is_counting p)) at);
    counter = ground (arith, k.g, k.d, e.counter, e.holder);
    room = omega arith;
    places = λ j q. ground (
      arith,
      how_many_none is_gathered n (update pc i (outside (suc c))) j
          (ground (arith, k.g, k.d, e.counter, e.holder)) q,
      how_many_none is_draining n (update pc i (outside (suc c))) j (ground (arith, k.d, e.holder))
          q,
      e.places j q,
      e.places i lt,
    );
  }
    where
      none_counts : how_many is_counting n pc ≡ 0
      none_counts = how_many-eq-zero is_counting n pc (λ j q. ground (arith, e.places j q))

  empty_move :
      {p p' : Pc} {b' : Barrier} (g : ℕ)
      → pc i ≡ p
      → Counts p'
      → Move b p b' p'
      → Emptying n g b pc
      → Inv n b' (update pc i p')
  unfolding count_out
  empty_move g at k (enter e) f = absurd (ground (arith, f.shut))
  empty_move g at k count f = absurd (ground (arith, f.places i))
  empty_move g at k (leave e) f = inr (
    g,
    record {
      limit = f.limit;
      shut = f.shut;
      holder = ground (arith, k.d, f.holder);
      counter = ground (arith, k.g, f.counter);
      some_left = f.some_left;
      places = λ j q. ground (arith, f.places j, f.places i);
    },
  )
  empty_move g at k drain f = elim (Bool-cases (ltb 0 (b.counter - 1))) [
    | inl more ↦
        rw (more, count_out)
          (inr (
            g,
            record {
              limit = f.limit;
              shut = f.shut;
              holder = ground (arith, k.d, f.holder, how_many-le is_draining n pc);
              counter = ground (arith, k.g, k.d, f.counter, f.holder);
              some_left = ground arith;
              places = λ j q. ground (arith, f.places j, f.places i);
            },
          ))
    | inr last ↦ rw (last, count_out) (inl (suc g, last_out g at k f (ground arith)))
  ]

-- Every step of every thread keeps the invariant.
Step-Inv : {n : ℕ} {s t : System} → Step n s t → Inv n s.barrier s.pc → Inv n t.barrier t.pc
Step-Inv {n} {s} (pick i {p'} lt mv) (inl (g, f)) =
    fill_move n s.barrier s.pc i lt g refl (counts n s.barrier s.pc i lt p') mv f
Step-Inv {n} {s} (pick i {p'} lt mv) (inr (g, e)) =
    empty_move n s.barrier s.pc i lt g refl (counts n s.barrier s.pc i lt p') mv e

pub Reach-Inv : {n : ℕ} {s : System} → 0 < n → Reach n s → Inv n s.barrier s.pc
Reach-Inv {n} pos start = inl (
  0,
  record {
    limit = refl;
    shut = refl;
    holder = how_many-eq-zero is_counting n (λ i. outside 0) (λ j q. refl);
    counter = how_many-eq-zero is_gathered n (λ i. outside 0) (λ j q. refl);
    room = pos;
    places = λ j q. refl;
  },
)
Reach-Inv pos (later r st) = Step-Inv st (Reach-Inv pos r)
