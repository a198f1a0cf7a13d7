-- ===== src/Prelude/Window.antt =====
-- Consecutive values of a function of the counters of a ring.
use Prim.Native.Nat.{ℕ, zero, suc, ◌+◌, ◌<◌}
use mathlib.Core.Path.{◌≡◌, refl, sym, ap, ap₂, ◌∙◌}
use mathlib.Core.List.{List, [], ◌∷◌, ◌++◌}
use native.Mathlib.Omega.{arith}
use os163_assi.Prelude.Lists.{length}

module _ {ℓ} {A : Type ℓ} where
  -- The `n` values from `r` on
  unfoldable pub window : (ℕ → A) → ℕ → ℕ → List A
  window f r zero = []
  window f r (suc n) = f r ∷ window f (r + 1) n

  pub length-window : (f : ℕ → A) (r n : ℕ) → length (window f r n) ≡ n
  unfolding window
  length-window f r zero = refl
  length-window f r (suc n) = ap suc (length-window f (r + 1) n)

  pub window_ext :
      (f g : ℕ → A) (r s n : ℕ)
      → ((k : ℕ) → k < n → f (r + k) ≡ g (s + k))
      → window f r n ≡ window g s n
  unfolding window
  window_ext f g r s zero same = refl
  window_ext f g r s (suc n) same =
      let here : r + 0 ≡ r = omega arith in
      let here' : s + 0 ≡ s = omega arith in
      ap₂ ◌∷◌ (ap f (sym here) ∙ same 0 (omega arith) ∙ ap g here') (
        window_ext f g (r + 1) (s + 1) n (λ k lt.
          let next : r + 1 + k ≡ r + suc k = omega arith in
          let next' : s + 1 + k ≡ s + suc k = omega arith in
          rw (next, next') (same (suc k) (omega arith))))

  pub window-append :
      (f : ℕ → A) (r m n : ℕ) → window f r (m + n) ≡ window f r m ++ window f (r + m) n
  unfolding window
  window-append f r zero n =
      let none : 0 + n ≡ n = omega arith in
      let here : r + 0 ≡ r = omega arith in rw (none, here) refl
  window-append f r (suc m) n =
      let one : suc m + n ≡ suc (m + n) = omega arith in
      let next : r + 1 + m ≡ r + suc m = omega arith in
      rw (one, window-append f (r + 1) m n, next) refl

  pub window_last : (f : ℕ → A) (r n : ℕ) → window f r (suc n) ≡ window f r n ++ (f (r + n) ∷ [])
  unfolding window
  window_last f r zero = let here : r + 0 ≡ r = omega arith in rw here refl
  window_last f r (suc n) =
      let next : r + 1 + n ≡ r + suc n = omega arith in
      ap (λ l. f r ∷ l) (window_last f (r + 1) n ∙ rw next refl)
