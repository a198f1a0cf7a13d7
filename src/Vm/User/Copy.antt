-- ===== src/Vm/User/Copy.antt =====
-- vm.c: `copyout` writes what it is given into the address space of a process.
use os163_assi.Prelude.{
  ℕ, zero, suc, ◌+◌, ◌-◌, ◌/◌, ◌%◌, ◌^◌, ◌≡◌, ◌≤◌, ◌<◌, ◌∙◌, ap, refl, inl, inr, true, false, ◌&&◌,
  Option, none, some, List, [], ◌∷◌, if◌then◌else◌, ◌==◌, ltb, leb, length, take, drop, set,
  length-set, get_or, get_or-set, arith, Bool-cases,
}
use os163_assi.Vm.{Pte, Machine, walkpgdir}
use os163_assi.Vm.User.{write_at}

-- A page that the process may use
pub record IsMapped (m : Machine) (d a : ℕ) : Type 0 where
  pub pte : Pte
  pub walk : walkpgdir m d a ≡ some pte
  pub present : pte.flags.present ≡ true
  pub user : pte.flags.user ≡ true
  pub word : pte.addr < 2 ^ 32
  pub whole : length (m.mem.page pte.addr) ≡ 4096

-- The frame of an address, and the byte that the process reads there
frame_of : Option Pte → ℕ
frame_of none = 0
frame_of (some pte) = pte.addr

unfoldable pub frame : Machine → ℕ → ℕ → ℕ
unfolding frame_of
frame m d a = frame_of (walkpgdir m d a)

unfoldable pub user_byte : Machine → ℕ → ℕ → ℕ
unfolding frame
user_byte m d a = get_or (m.mem.page (frame m d a)) (a % 4096) 0

-- Different pages of the directory have different frames.
abbrev pub NoSharing : Machine → ℕ → Type 0
NoSharing m d =
    (a b : ℕ)
    → a < 2 ^ 32
    → b < 2 ^ 32
    → IsMapped m d a
    → IsMapped m d b
    → frame m d a ≡ frame m d b
    → a / 4096 ≡ b / 4096

pub length-write_at :
    (bytes page : List ℕ) (off : ℕ) → length (write_at page off bytes) ≡ length page
unfolding write_at
length-write_at [] page off = refl
length-write_at (b ∷ bytes) page off =
    length-write_at bytes (set page off b) (off + 1) ∙ length-set page off b

pub get_or-write_at :
    (bytes page : List ℕ) (off j : ℕ)
    → off + length bytes ≤ length page
    → get_or (write_at page off bytes) j 0 ≡ (
        if leb off j && ltb j (off + length bytes)
        then get_or bytes (j - off) 0
        else get_or page j 0)
unfolding write_at
get_or-write_at [] page off j le =
    let out : (leb off j && ltb j (off + 0)) ≡ false = ground arith in rw out refl
get_or-write_at (b ∷ bytes) page off j le =
    let further =
      get_or-write_at bytes (set page off b) (off + 1) j (omega (arith, length-set page off b)) in
    let here = get_or-set page off j b 0 (omega arith) in
    further ∙ rw here (first_or_later off j (length bytes) b bytes page)
  where
    first_or_later :
        (off j n b : ℕ) (bytes page : List ℕ)
        → (if leb (off + 1) j && ltb j (off + 1 + n)
            then get_or bytes (j - (off + 1)) 0
            else (if off == j then b else get_or page j 0))
          ≡ (if leb off j && ltb j (off + suc n)
              then get_or (b ∷ bytes) (j - off) 0
              else get_or page j 0)
    first_or_later off j n b bytes page = elim (Bool-cases (off == j)) [
      | inl same ↦
          let e : off ≡ j = ground arith in
          let none : (leb (off + 1) j && ltb j (off + 1 + n)) ≡ false = ground arith in
          let all : (leb off j && ltb j (off + suc n)) ≡ true = ground arith in
          let zero_off : j - off ≡ 0 = omega arith in rw (none, all, same, zero_off) refl
      | inr other ↦ elim (Bool-cases (leb off j && ltb j (off + suc n))) [
        | inl later ↦
            let all : (leb (off + 1) j && ltb j (off + 1 + n)) ≡ true = ground arith in
            let step : j - off ≡ suc (j - (off + 1)) = ground arith in rw (later, all, step) refl
        | inr out ↦
            let none : (leb (off + 1) j && ltb j (off + 1 + n)) ≡ false = ground arith in
            rw (out, none, other) refl
      ]
    ]

pub get_or-take : (xs : List ℕ) (n i : ℕ) → i < n → get_or (take n xs) i 0 ≡ get_or xs i 0
get_or-take [] zero i lt = refl
get_or-take [] (suc n) i lt = refl
get_or-take (x ∷ xs) zero i lt = absurd (omega arith)
get_or-take (x ∷ xs) (suc n) zero lt = refl
get_or-take (x ∷ xs) (suc n) (suc i) lt = get_or-take xs n i (omega arith)

pub get_or-drop : (xs : List ℕ) (n i : ℕ) → get_or (drop n xs) i 0 ≡ get_or xs (n + i) 0
get_or-drop xs zero i = ap (λ k. get_or xs k 0) (omega arith)
get_or-drop [] (suc n) i = refl
get_or-drop (x ∷ xs) (suc n) i =
    let step : suc n + i ≡ suc (n + i) = omega arith in rw step (get_or-drop xs n i)
