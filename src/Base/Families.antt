-- ===== src/Base/Families.antt =====
-- A value for each thread: change one of them, and add up a weight over the first `n`.
use Prim.Native.Nat.{ℕ, zero, suc, ◌+◌, ◌≤◌, ◌<◌}
use mathlib.Core.Path.{◌≡◌, refl}
use mathlib.Core.Logic.{ite}
use native.Mathlib.Decide.{dec_lt, ℕ_discrete}
use native.Mathlib.Omega.{arith}

abbrev pub assign {ℓ} : {A : Type ℓ} → (ℕ → A) → ℕ → A → ℕ → A
assign f i a j = ite (ℕ_discrete i j) a (f j)

module _ {ℓ} {A : Type ℓ} (w : A → ℕ) where
  pub tally : ℕ → (ℕ → A) → ℕ
  tally zero f = 0
  tally (suc n) f = w (f n) + tally n f

  tally-assign_beyond :
      (n : ℕ) (f : ℕ → A) (i : ℕ) (a : A) → n ≤ i → tally n (assign f i a) ≡ tally n f
  unfolding tally
  tally-assign_beyond zero f i a h = refl
  tally-assign_beyond (suc n) f i a h = ground (arith, tally-assign_beyond n f i a)

  -- One change moves the sum by the difference of the weights.
  pub tally-assign :
      (n : ℕ) (f : ℕ → A) (i : ℕ) (a : A)
      → i < n
      → tally n (assign f i a) + w (f i) ≡ tally n f + w a
  unfolding tally
  tally-assign zero f i a h = absurd (omega arith)
  tally-assign (suc n) f i a h = elim (dec_lt i n) [
    | yes early ↦ ground (arith, tally-assign n f i a early)
    | no late ↦ ground (arith, tally-assign_beyond n f i a)
  ]

  pub tally_zero : (n : ℕ) (a : A) → w a ≡ 0 → tally n (λ _. a) ≡ 0
  unfolding tally
  tally_zero zero a h = refl
  tally_zero (suc n) a h = omega (arith, h, tally_zero n a h)

  -- Each thread's weight is in the sum, and two threads' weights are in it together.
  pub weight-le-tally : (n : ℕ) (f : ℕ → A) (i : ℕ) → i < n → w (f i) ≤ tally n f
  unfolding tally
  weight-le-tally zero f i h = absurd (omega arith)
  weight-le-tally (suc n) f i h = elim (dec_lt i n) [
    | yes early ↦ omega (arith, weight-le-tally n f i early)
    | no late ↦ ground arith
  ]

  pub weights-le-tally :
      (n : ℕ) (f : ℕ → A) (i j : ℕ) → i < j → j < n → w (f i) + w (f j) ≤ tally n f
  unfolding tally
  weights-le-tally zero f i j h k = absurd (omega arith)
  weights-le-tally (suc n) f i j h k = elim (dec_lt j n) [
    | yes early ↦ omega (arith, weights-le-tally n f i j h early)
    | no late ↦ ground (arith, weight-le-tally n f i)
  ]
