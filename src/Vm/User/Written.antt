-- ===== src/Vm/User/Written.antt =====
-- vm.c: `copyout` as a whole.
use os163_assi.Prelude.{
  ℕ, zero, suc, ◌+◌, ◌-◌, ◌%◌, ◌^◌, ◌≡◌, ◌≤◌, ◌<◌, ◌∙◌, ◌⊎◌, ap, refl, inl, inr, true, false, ◌&&◌,
  List, [], ◌∷◌, if◌then◌else◌, ltb, leb, add32, length, take, drop, length-take, length-drop,
  get_or, arith, Bool-cases,
}
use os163_assi.Kalloc.{pgsize, pgrounddown, v2p, p2v, kernbase}
use os163_assi.Vm.{Machine}
use os163_assi.Vm.User.{store, ka, uva2ka, Copied, copied, part, copyout_loop, copyout}
use os163_assi.Vm.User.Copy.{IsMapped, frame, user_byte, NoSharing, get_or-take, get_or-drop}
use os163_assi.Vm.User.Rounds.{
  SameTables, store-SameTables, kept_page, keep_sharing, same_page, frame_at, store-user_byte,
}

-- What is to be read at `a` when the bytes stand from `va` on and there was `old`.
abbrev pub after : ℕ → List ℕ → ℕ → ℕ → ℕ
after va buf a old = if leb va a && ltb a (va + length buf) then get_or buf (a - va) 0 else old

abbrev Mapped : Machine → ℕ → ℕ → ℕ → Type 0
Mapped m d va n = (a : ℕ) → va ≤ a → a < va + n → IsMapped m d a

-- The translation of the page that the copyout_round is about
translated :
    (m : Machine) (d va : ℕ)
    → IsMapped m d va
    → uva2ka m d (pgrounddown va) ≡ ka (p2v (frame m d va))
unfolding uva2ka
translated m d va h =
    rw
      (
        same_page m d (pgrounddown va) va (omega arith),
        h.walk,
        h.present,
        h.user,
        frame_at m d va h,
      )
      refl

kernel_and_back :
    (m : Machine) (d va : ℕ) → IsMapped m d va → v2p (p2v (frame m d va)) ≡ frame m d va
kernel_and_back m d va h = omega (arith, frame_at m d va h, h.word)

-- The number of bytes of a copyout_round
part_is :
    (va len : ℕ)
    → va < 2 ^ 32
    → (part va (suc len) ≤ suc len)
      × (va % 4096 + part va (suc len) ≤ 4096)
      × (1 ≤ part va (suc len))
      × ((part va (suc len) ≡ suc len) ⊎ (pgrounddown va + 4096 ≡ va + part va (suc len)))
unfolding part
part_is va len lt = elim (Bool-cases (ltb (suc len) (pgsize - (va - pgrounddown va)))) [
  | inl short ↦ rw short (ground arith, ground arith, omega arith, inl refl)
  | inr long ↦ rw long (ground arith, omega arith, omega arith, inr (omega arith))
]

-- Two parts that follow each other
parts_join :
    (va va' n a old : ℕ) (buf : List ℕ)
    → n ≤ length buf
    → (n ≡ length buf) ⊎ (va' ≡ va + n)
    → after va' (drop n buf) a (after va (take n buf) a old) ≡ after va buf a old
parts_join va va' n a old buf le parts =
    let taken : length (take n buf) ≡ n = omega (arith, length-take n buf) in
    let left : length (drop n buf) ≡ length buf - n = length-drop n buf in
    rw (taken, left)
      (elim (Bool-cases (leb va a && ltb a (va + n))) [
        | inl first ↦
            let all : (leb va a && ltb a (va + length buf)) ≡ true = ground arith in
            let early : (leb va' a && ltb a (va' + (length buf - n))) ≡ false =
              before_rest first parts in
            rw (first, all, early) (get_or-take buf n (a - va) (ground arith))
        | inr other ↦ rw other (rest parts other)
      ])
  where
    before_rest :
        (leb va a && ltb a (va + n)) ≡ true
        → (n ≡ length buf) ⊎ (va' ≡ va + n)
        → (leb va' a && ltb a (va' + (length buf - n))) ≡ false
    before_rest first (inl all) = ground arith
    before_rest first (inr next) = ground arith

    rest :
        (n ≡ length buf) ⊎ (va' ≡ va + n)
        → (leb va a && ltb a (va + n)) ≡ false
        → (if leb va' a && ltb a (va' + (length buf - n))
            then get_or (drop n buf) (a - va') 0
            else old)
          ≡ after va buf a old
    rest (inl all) other =
        let none : (leb va' a && ltb a (va' + (length buf - n))) ≡ false = ground arith in
        let none' : (leb va a && ltb a (va + length buf)) ≡ false = ground arith in
        rw (none, none') refl
    rest (inr next) other = elim (Bool-cases (leb va a && ltb a (va + length buf))) [
      | inl inside ↦
          let there : (leb va' a && ltb a (va' + (length buf - n))) ≡ true = ground arith in
          let place : n + (a - va') ≡ a - va = ground arith in
          rw (inside, there) (get_or-drop buf n (a - va') ∙ ap (λ k. get_or buf k 0) place)
      | inr out ↦
          let gone : (leb va' a && ltb a (va' + (length buf - n))) ≡ false = ground arith in
          rw (out, gone) refl
    ]

-- What `copyout` leaves: all bytes of the process as they were, but those from `va` on.
pub record Written (m : Machine) (d va : ℕ) (buf : List ℕ) (res : Copied) : Type 0 where
  pub machine : Machine
  pub ends : res ≡ copied 0 machine
  pub tables : SameTables m machine
  pub bytes :
      (a : ℕ)
      → a < 2 ^ 32
      → IsMapped m d a
      → user_byte machine d a ≡ after va buf a (user_byte m d a)

abbrev Fits : ℕ → List ℕ → Type 0
Fits va buf = va + length buf ≤ kernbase

copyout_round :
    (fuel : ℕ) (m : Machine) (d va b : ℕ) (bytes : List ℕ)
    → IsMapped m d va
    → copyout_loop (suc fuel) m d va (b ∷ bytes)
      ≡ copyout_loop fuel
          (store m (frame m d va) (va % 4096) (take (part va (suc (length bytes))) (b ∷ bytes)))
          d
          (add32 (pgrounddown va) pgsize)
          (drop (part va (suc (length bytes))) (b ∷ bytes))
unfolding copyout_loop
copyout_round fuel m d va b bytes h =
    let off : va - pgrounddown va ≡ va % 4096 = omega arith in
    rw (translated m d va h, kernel_and_back m d va h, off, copyout_loop) refl

join_tables : (m m1 m2 : Machine) → SameTables m m1 → SameTables m1 m2 → SameTables m m2
join_tables m m1 m2 first second = record {
  walks = λ d a. second.walks d a ∙ first.walks d a;
  lengths = λ pa. second.lengths pa ∙ first.lengths pa;
}

loop-Written :
    (fuel : ℕ) (m : Machine) (d va : ℕ) (buf : List ℕ)
    → length buf < fuel
    → Fits va buf
    → NoSharing m d
    → Mapped m d va (length buf)
    → Written m d va buf (copyout_loop fuel m d va buf)
unfolding copyout_loop
loop-Written zero m d va buf lt fits free mapped = absurd (omega arith)
loop-Written (suc fuel) m d va [] lt fits free mapped = record {
  machine = m;
  ends = refl;
  tables = record { walks = λ d a. refl; lengths = λ pa. refl };
  bytes = λ a _ _. let none : (leb va a && ltb a (va + 0)) ≡ false = ground arith in rw none refl;
}
loop-Written (suc fuel) m d va (b ∷ bytes) lt fits free mapped =
    let buf = b ∷ bytes in
    let n = part va (suc (length bytes)) in
    let mv : IsMapped m d va = mapped va (omega arith) (omega arith) in
    let m1 = store m (frame m d va) (va % 4096) (take n buf) in
    let va' = add32 (pgrounddown va) pgsize in
    let (le, in_page, some_bytes, parts) = part_is va (length bytes) (omega arith) in
    let stored : length (take n buf) ≡ n = omega (arith, length-take n buf) in
    let left : length (drop n buf) ≡ suc (length bytes) - n = length-drop n buf in
    let next : va' ≡ pgrounddown va + 4096 = omega arith in
    let tables = store-SameTables m (frame m d va) (va % 4096) (take n buf) in
    let w =
      loop-Written fuel m1 d va' (drop n buf) (omega (arith, left)) (fits_rest n parts left next)
        (keep_sharing m m1 d tables free) (mapped_rest n m1 parts left next tables) in
    record {
      machine = w.machine;
      ends = copyout_round fuel m d va b bytes mv ∙ w.ends;
      tables = join_tables m m1 w.machine tables w.tables;
      bytes = λ a la ma.
          w.bytes a la (kept_page m m1 d a tables ma)
          ∙ ap (after va' (drop n buf) a) (
              store-user_byte m d va a (take n buf) free (omega arith) la mv ma
                (omega (arith, stored, in_page)))
          ∙ parts_join va va' n a (user_byte m d a) buf le
              (elim parts [ inl all ↦ inl all | inr on ↦ inr (next ∙ on) ]);
    }
  where
    fits_rest :
        (n : ℕ)
        → (n ≡ suc (length bytes)) ⊎ (pgrounddown va + 4096 ≡ va + n)
        → length (drop n (b ∷ bytes)) ≡ suc (length bytes) - n
        → add32 (pgrounddown va) pgsize ≡ pgrounddown va + 4096
        → Fits (add32 (pgrounddown va) pgsize) (drop n (b ∷ bytes))
    fits_rest n (inl all) left next = omega (arith, fits)
    fits_rest n (inr on) left next = omega (arith, fits)

    mapped_rest :
        (n : ℕ) (m1 : Machine)
        → (n ≡ suc (length bytes)) ⊎ (pgrounddown va + 4096 ≡ va + n)
        → length (drop n (b ∷ bytes)) ≡ suc (length bytes) - n
        → add32 (pgrounddown va) pgsize ≡ pgrounddown va + 4096
        → SameTables m m1
        → Mapped m1 d (add32 (pgrounddown va) pgsize) (length (drop n (b ∷ bytes)))
    mapped_rest n m1 (inl all) left next tables a ge lt' = absurd (omega arith)
    mapped_rest n m1 (inr on) left next tables a ge lt' =
        kept_page m m1 d a tables (mapped a (omega arith) (omega arith))

-- `copyout` to pages that the process has: it returns 0, and then the process reads the bytes from
-- `va` on, over however many pages they go, and every other byte as before. The pages have different
-- frames, and user memory lies below KERNBASE.
pub copyout-Written :
    (m : Machine) (d va : ℕ) (buf : List ℕ)
    → Fits va buf
    → NoSharing m d
    → Mapped m d va (length buf)
    → Written m d va buf (copyout m d va buf)
unfolding copyout
copyout-Written m d va buf fits free mapped =
    loop-Written (suc (length buf)) m d va buf (omega arith) fits free mapped
