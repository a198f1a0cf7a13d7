-- ===== src/Prelude/Family.antt =====
-- A value for each thread, as a function of its number: the update of one, and how many of the
-- first `n` pass a test.
use Prim.Native.Nat.{ℕ, zero, suc, ◌+◌, ◌≤◌, ◌<◌}
use mathlib.Core.Path.{◌≡◌, refl}
use mathlib.Core.Logic.{inl, inr}
use mathlib.Core.Bool.{Bool, true, false}
use mathlib.Core.Option.{Option, none, some}
use native.Mathlib.Omega.{arith}
use os163_assi.Prelude.Tests.{◌==◌, if◌then◌else◌, Bool-cases}

abbrev pub update {ℓ} : {A : Type ℓ} → (ℕ → A) → ℕ → A → ℕ → A
update f i v j = if i == j then v else f j

abbrev pub bit : Bool → ℕ
bit true = 1
bit false = 0

module _ {A : Type 0} (test : A → Bool) where
  pub how_many : ℕ → (ℕ → A) → ℕ
  how_many zero f = 0
  how_many (suc n) f = bit (test (f n)) + how_many n f

  how_many-update_above :
      (n : ℕ) (f : ℕ → A) (i : ℕ) (v : A) → n ≤ i → how_many n (update f i v) ≡ how_many n f
  unfolding how_many
  how_many-update_above zero f i v h = refl
  how_many-update_above (suc n) f i v h =
      ground (arith, how_many-update_above n f i v (omega arith))

  -- An update of one value moves the number by what that value contributes.
  pub how_many-update :
      (n : ℕ) (f : ℕ → A) (i : ℕ) (v : A)
      → i < n
      → how_many n (update f i v) + bit (test (f i)) ≡ how_many n f + bit (test v)
  unfolding how_many
  how_many-update zero f i v h = absurd (omega arith)
  how_many-update (suc n) f i v h = elim (Bool-cases (i == n)) [
    | inl here ↦ ground (arith, how_many-update_above n f i v (ground arith))
    | inr there ↦ ground (arith, how_many-update n f i v (ground arith))
  ]

  pub how_many-le : (n : ℕ) (f : ℕ → A) → how_many n f ≤ n
  unfolding how_many
  how_many-le zero f = omega arith
  how_many-le (suc n) f = ground (arith, how_many-le n f)

  pub how_many_all : (n : ℕ) (f : ℕ → A) (i : ℕ) → how_many n f ≡ n → i < n → test (f i) ≡ true
  unfolding how_many
  how_many_all zero f i e h = absurd (omega arith)
  how_many_all (suc n) f i e h = ground (arith, how_many-le n f, how_many_all n f i)

  pub how_many_none : (n : ℕ) (f : ℕ → A) (i : ℕ) → how_many n f ≡ 0 → i < n → test (f i) ≡ false
  unfolding how_many
  how_many_none zero f i e h = absurd (omega arith)
  how_many_none (suc n) f i e h = ground (arith, how_many_none n f i)

  pub how_many_some :
      (n : ℕ) (f : ℕ → A) → 0 < how_many n f → (i : ℕ) × (i < n) × (test (f i) ≡ true)
  unfolding how_many
  how_many_some zero f h = absurd (omega arith)
  how_many_some (suc n) f h = elim (Bool-cases (test (f n))) [
    | inl here ↦ (n, omega arith, here)
    | inr there ↦ let (i, lt, hit) = how_many_some n f (ground arith) in (i, omega arith, hit)
  ]

  pub how_many-eq-zero :
      (n : ℕ) (f : ℕ → A) → ((i : ℕ) → i < n → test (f i) ≡ false) → how_many n f ≡ 0
  unfolding how_many
  how_many-eq-zero zero f none_passes = refl
  how_many-eq-zero (suc n) f none_passes = ground (
    arith,
    none_passes n (omega arith),
    how_many-eq-zero n f (λ i h. none_passes i (omega arith)),
  )

  pub how_many_fails :
      (n : ℕ) (f : ℕ → A) → how_many n f < n → (i : ℕ) × (i < n) × (test (f i) ≡ false)
  unfolding how_many
  how_many_fails zero f h = absurd (omega arith)
  how_many_fails (suc n) f h = elim (Bool-cases (test (f n))) [
    | inr here ↦ (n, omega arith, here)
    | inl there ↦ let (i, lt, miss) = how_many_fails n f (ground arith) in (i, omega arith, miss)
  ]

-- The first number from `i` on, of `n` in all, that passes a test: a scan of a table.
unfoldable pub find_first : (ℕ → Bool) → ℕ → ℕ → Option ℕ
find_first test zero i = none
find_first test (suc n) i = let rest = find_first test n (suc i) in if test i then some i else rest

-- What the scan found, and that it found the first.
pub record Found (test : ℕ → Bool) (i n k : ℕ) : Type 0 where
  pub from : i ≤ k
  pub below : k < i + n
  pub hit : test k ≡ true
  pub missed : (j : ℕ) → i ≤ j → j < k → test j ≡ false

pub find_first-Found :
    (test : ℕ → Bool) (n i k : ℕ) → find_first test n i ≡ some k → Found test i n k
unfolding find_first
find_first-Found test zero i k h = absurd cc
find_first-Found test (suc n) i k h = elim (Bool-cases (test i)) [
  | inl here ↦ record {
    from = ground arith;
    below = ground arith;
    hit = ground arith;
    missed = λ j le lt. absurd (ground arith);
  }
  | inr on ↦
      let f = find_first-Found test n (suc i) k (ground arith) in
      record {
        from = omega arith;
        below = omega arith;
        hit = f.hit;
        missed = λ j le lt. elim (Bool-cases (i == j)) [
          | inl here ↦ ground arith
          | inr there ↦ f.missed j (ground arith) lt
        ];
      }
]

pub find_first-none :
    (test : ℕ → Bool) (n i j : ℕ) → find_first test n i ≡ none → i ≤ j → j < i + n → test j ≡ false
unfolding find_first
find_first-none test zero i j h le lt = absurd (omega arith)
find_first-none test (suc n) i j h le lt = elim (Bool-cases (i == j)) [
  | inl here ↦ ground arith
  | inr there ↦ elim (Bool-cases (test i)) [
    | inl hit ↦ absurd (ground arith)
    | inr on ↦ find_first-none test n (suc i) j (ground arith) (ground arith) (omega arith)
  ]
]
