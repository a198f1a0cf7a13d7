-- ===== src/Vm/User/Rounds.antt =====
-- vm.c: the rounds of `copyout`.
use os163_assi.Prelude.{
  ℕ, ◌+◌, ◌-◌, ◌/◌, ◌%◌, ◌^◌, ◌≡◌, ◌≤◌, ◌<◌, ◌∙◌, ap, sym, refl, inl, inr, false, ◌&&◌, List,
  if◌then◌else◌, ◌==◌, ltb, leb, length, get_or, arith, Bool-cases,
}
use os163_assi.Vm.{Machine, walkpgdir, pdx, ptx}
use os163_assi.Vm.User.{store}
use os163_assi.Vm.User.Copy.{
  IsMapped, frame, user_byte, NoSharing, length-write_at, get_or-write_at,
}

-- The page tables are the same, and the pages have their lengths.
pub record SameTables (m m' : Machine) : Type 0 where
  pub walks : (d a : ℕ) → walkpgdir m' d a ≡ walkpgdir m d a
  pub lengths : (pa : ℕ) → length (m'.mem.page pa) ≡ length (m.mem.page pa)

pub store-SameTables :
    (m : Machine) (pa off : ℕ) (bytes : List ℕ) → SameTables m (store m pa off bytes)
unfolding store walkpgdir
store-SameTables m pa off bytes = record {
  walks = λ d a. refl;
  lengths = λ k. elim (Bool-cases (pa == k)) [
    | inl here ↦
        let same : pa ≡ k = ground arith in
        rw here (length-write_at bytes (m.mem.page pa) off ∙ ap (λ k. length (m.mem.page k)) same)
    | inr there ↦ rw there refl
  ];
}

pub kept_page : (m m' : Machine) (d a : ℕ) → SameTables m m' → IsMapped m d a → IsMapped m' d a
kept_page m m' d a same h = record {
  pte = h.pte;
  walk = same.walks d a ∙ h.walk;
  present = h.present;
  user = h.user;
  word = h.word;
  whole = same.lengths h.pte.addr ∙ h.whole;
}

back : (m m' : Machine) → SameTables m m' → SameTables m' m
back m m' same = record {
  walks = λ d a. sym (same.walks d a);
  lengths = λ pa. sym (same.lengths pa);
}

keep_frame : (m m' : Machine) (d a : ℕ) → SameTables m m' → frame m' d a ≡ frame m d a
unfolding frame
keep_frame m m' d a same = rw (same.walks d a) refl

pub keep_sharing : (m m' : Machine) (d : ℕ) → SameTables m m' → NoSharing m d → NoSharing m' d
keep_sharing m m' d same free a b la lb ma mb e =
    free a b la lb (kept_page m' m d a (back m m' same) ma) (kept_page m' m d b (back m m' same) mb)
      (sym (keep_frame m m' d a same) ∙ e ∙ keep_frame m m' d b same)

-- Addresses of one page have one entry.
pub same_page : (m : Machine) (d a b : ℕ) → a / 4096 ≡ b / 4096 → walkpgdir m d a ≡ walkpgdir m d b
unfolding walkpgdir
same_page m d a b e =
    let table : pdx a ≡ pdx b = omega arith in
    let place : ptx a ≡ ptx b = omega arith in rw (table, place) refl

pub frame_at : (m : Machine) (d a : ℕ) (h : IsMapped m d a) → frame m d a ≡ h.pte.addr
unfolding frame
frame_at m d a h = rw h.walk refl

-- Bytes that are stored in the page of `va` appear behind `va`, and nowhere else.
pub store-user_byte :
    (m : Machine) (d va a : ℕ) (bytes : List ℕ)
    → NoSharing m d
    → va < 2 ^ 32
    → a < 2 ^ 32
    → IsMapped m d va
    → IsMapped m d a
    → va % 4096 + length bytes ≤ 4096
    → user_byte (store m (frame m d va) (va % 4096) bytes) d a
      ≡ (if leb va a && ltb a (va + length bytes) then get_or bytes (a - va) 0 else user_byte m d a)
unfolding user_byte store frame walkpgdir
store-user_byte m d va a bytes free lv la mv ma le =
    elim (Bool-cases (frame m d va == frame m d a)) [
      | inl here ↦
          let one : frame m d va ≡ frame m d a = ground arith in
          let page : a / 4096 ≡ va / 4096 = free a va la lv ma mv (sym one) in
          let fits : va % 4096 + length bytes ≤ length (m.mem.page (frame m d va)) =
            omega (arith, mv.whole, ap (λ k. length (m.mem.page k)) (frame_at m d va mv)) in
          let test : (leb (va % 4096) (a % 4096) && ltb (a % 4096) (va % 4096 + length bytes))
              ≡ (leb va a && ltb a (va + length bytes)) =
            ground arith in
          rw here (
            get_or-write_at bytes (m.mem.page (frame m d va)) (va % 4096) (a % 4096) fits
            ∙ rw test (chosen one page))
      | inr there ↦
          let outside : (leb va a && ltb a (va + length bytes)) ≡ false = other_page there in
          rw (there, outside) refl
    ]
  where
    chosen :
        frame m d va ≡ frame m d a
        → a / 4096 ≡ va / 4096
        → (if leb va a && ltb a (va + length bytes)
            then get_or bytes (a % 4096 - va % 4096) 0
            else get_or (m.mem.page (frame m d va)) (a % 4096) 0)
          ≡ (if leb va a && ltb a (va + length bytes)
              then get_or bytes (a - va) 0
              else get_or (m.mem.page (frame m d a)) (a % 4096) 0)
    chosen one page = elim (Bool-cases (leb va a && ltb a (va + length bytes))) [
      | inl inside ↦
          let place : a % 4096 - va % 4096 ≡ a - va = ground arith in rw (inside, place) refl
      | inr out ↦ rw (out, one) refl
    ]

    frames_same : walkpgdir m d va ≡ walkpgdir m d a → frame m d va ≡ frame m d a
    frames_same e = rw e refl

    other_page :
        (frame m d va == frame m d a) ≡ false → (leb va a && ltb a (va + length bytes)) ≡ false
    other_page there = elim (Bool-cases (va / 4096 == a / 4096)) [
      | inr apart ↦ ground arith
      | inl page ↦
          let one : walkpgdir m d va ≡ walkpgdir m d a = same_page m d va a (ground arith) in
          let e : frame m d va ≡ frame m d a = frames_same one in ground arith
    ]
