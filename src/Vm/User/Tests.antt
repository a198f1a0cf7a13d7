-- ===== src/Vm/User/Tests.antt =====
-- A process with two pages, and three bytes that are copied to where they meet.
use os163_assi.Prelude.{
  ℕ, ◌+◌, ◌/◌, ◌%◌, ◌^◌, ◌≡◌, ◌⊎◌, ◌≤◌, ◌<◌, inl, inr, refl, true, false, ◌&&◌, none, some, [], ◌∷◌,
  if◌then◌else◌, ◌==◌, ltb, replicate, length-replicate, arith, Bool-cases, Option,
}
use os163_assi.Vm.{Machine, Pte, PageTable, zero_pte, walkpgdir, pdx, ptx}
use os163_assi.Kalloc.{done, is_bad}
use os163_assi.Vm.User.{copyout, user_page, deallocuvm}
use os163_assi.Vm.User.Free.{Freeable, Cleared, deallocuvm-Cleared}
use os163_assi.Vm.User.Copy.{IsMapped, frame, NoSharing}
use os163_assi.Vm.User.Written.{Written, copyout-Written}

abbrev page_at : ℕ → Pte
page_at pa = record { addr = pa; flags = record user_page { present = true } }

abbrev two_pages : PageTable
two_pages = record {
  frame = 0x8010_2000;
  entry = λ i. if i == 0 then page_at 0x10_3000 else if i == 1 then page_at 0x10_4000 else zero_pte;
}

abbrev process : Machine
process = record {
  mem = record { freelist = []; page = λ _. replicate 4096 0 };
  counter = λ _. 1;
  dir = λ d i. if (d == 1) && (i == 0) then some two_pages else none;
}

first_page : (a : ℕ) → a / 4096 ≡ 0 → walkpgdir process 1 a ≡ some (page_at 0x10_3000)
unfolding walkpgdir
first_page a e =
    let table : (pdx a == 0) ≡ true = ground arith in
    let place : (ptx a == 0) ≡ true = ground arith in rw (table, place) refl

second_page : (a : ℕ) → a / 4096 ≡ 1 → walkpgdir process 1 a ≡ some (page_at 0x10_4000)
unfolding walkpgdir
second_page a e =
    let table : (pdx a == 0) ≡ true = ground arith in
    let place : (ptx a == 0) ≡ false = ground arith in
    let place' : (ptx a == 1) ≡ true = ground arith in rw (table, place, place') refl

no_other :
    (a : ℕ) (pte : Pte)
    → a < 2 ^ 32
    → walkpgdir process 1 a ≡ some pte
    → pte.flags.present ≡ true
    → (a / 4096 ≡ 0) ⊎ (a / 4096 ≡ 1)
unfolding walkpgdir
no_other a pte lt e present = elim (Bool-cases (pdx a == 0)) [
  | inr out ↦ absurd (some_none (rw out at e))
  | inl table ↦ elim (Bool-cases (ptx a == 0)) [
    | inl zero_place ↦ inl (ground arith)
    | inr after ↦ elim (Bool-cases (ptx a == 1)) [
      | inl one_place ↦ inr (ground arith)
      | inr beyond ↦ absurd (absent (rw (table, after, beyond) at e) present)
    ]
  ]
]
  where
    some_none : Path (Option Pte) none (some pte) → ⊥
    some_none e' = cc

    absent : Path (Option Pte) (some zero_pte) (some pte) → pte.flags.present ≡ true → ⊥
    absent e' h = cc

frame_first : (a : ℕ) → a / 4096 ≡ 0 → frame process 1 a ≡ 0x10_3000
unfolding frame
frame_first a e = rw (first_page a e) refl

frame_second : (a : ℕ) → a / 4096 ≡ 1 → frame process 1 a ≡ 0x10_4000
unfolding frame
frame_second a e = rw (second_page a e) refl

process-NoSharing : NoSharing process 1
process-NoSharing a b la lb ma mb e =
    which (no_other a ma.pte la ma.walk ma.present) (no_other b mb.pte lb mb.walk mb.present)
  where
    which : (a / 4096 ≡ 0) ⊎ (a / 4096 ≡ 1) → (b / 4096 ≡ 0) ⊎ (b / 4096 ≡ 1) → a / 4096 ≡ b / 4096
    which (inl ea) (inl eb) = omega arith
    which (inr ea) (inr eb) = omega arith
    which (inl ea) (inr eb) = absurd (omega (arith, frame_first a ea, frame_second b eb))
    which (inr ea) (inl eb) = absurd (omega (arith, frame_second a ea, frame_first b eb))

process-Mapped : (a : ℕ) → 4094 ≤ a → a < 4094 + 3 → IsMapped process 1 a
process-Mapped a ge lt = elim (Bool-cases (ltb a 4096)) [
  | inl low ↦ record {
    pte = page_at 0x10_3000;
    walk = first_page a (ground arith);
    present = refl;
    user = refl;
    word = omega arith;
    whole = length-replicate {A = ℕ} 4096 0;
  }
  | inr high ↦ record {
    pte = page_at 0x10_4000;
    walk = second_page a (ground arith);
    present = refl;
    user = refl;
    word = omega arith;
    whole = length-replicate {A = ℕ} 4096 0;
  }
]

copyout-Written_example :
    Written process 1 4094 (7 ∷ 8 ∷ 9 ∷ []) (copyout process 1 4094 (7 ∷ 8 ∷ 9 ∷ []))
copyout-Written_example =
    copyout-Written process 1 4094 (7 ∷ 8 ∷ 9 ∷ []) (omega arith) process-NoSharing process-Mapped

process-AllFreeable : (b : ℕ) → 0 ≤ b → b < 8192 → b % 4096 ≡ 0 → Freeable 0x8010_0000 process 1 b
unfolding is_bad
process-AllFreeable b ge lt al = elim (Bool-cases (ltb b 4096)) [
  | inl low ↦ record {
    pte = page_at 0x10_3000;
    walk = first_page b (ground arith);
    frame = λ _. (refl, refl);
  }
  | inr high ↦ record {
    pte = page_at 0x10_4000;
    walk = second_page b (ground arith);
    frame = λ _. (refl, refl);
  }
]

deallocuvm-Cleared_example :
    (m' : Machine) × (deallocuvm 0x8010_0000 (2 ^ 19 + 1) process 1 8192 0 ≡ some (0, done tt m'))
    × Cleared process 1 ((0 + 4095) / 4096) ((8192 + 4095) / 4096) m'
deallocuvm-Cleared_example =
    deallocuvm-Cleared 0x8010_0000 process 1 8192 0 (omega arith) (omega arith) process-AllFreeable
