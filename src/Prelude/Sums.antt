-- ===== src/Prelude/Sums.antt =====
-- Sums of a function on the numbers below a bound.
use Prim.Native.Nat.{ℕ, zero, suc, ◌+◌, ◌≤◌, ◌<◌}
use mathlib.Core.Path.{◌≡◌}
use mathlib.Core.Logic.{inl, inr}
use native.Mathlib.Omega.{arith}
use rockx_dkg_cli.Prelude.Tests.{◌==◌, if◌then◌else◌, Bool-cases, ==_iff}

unfoldable pub sum_below : ℕ → (ℕ → ℕ) → ℕ
sum_below zero f = 0
sum_below (suc n) f = sum_below n f + f n

-- `a` in one place, and 0 elsewhere
abbrev pub point : ℕ → ℕ → ℕ → ℕ
point s a j = if s == j then a else 0

pub sum_below_mono :
    (n : ℕ) (f g : ℕ → ℕ) → ((j : ℕ) → j < n → g j ≤ f j) → sum_below n g ≤ sum_below n f
unfolding sum_below
sum_below_mono zero f g h = omega arith
sum_below_mono (suc n) f g h =
    omega (arith, sum_below_mono n f g (λ j b. h j (omega (arith, b))), h n (omega arith))

point_elsewhere : (s a j : ℕ) → j < s → point s a j ≡ 0
point_elsewhere s a j h = ground arith

-- The function grows in one place at most.
pub sum_below-grows :
    (n s a : ℕ) (f g : ℕ → ℕ)
    → ((j : ℕ) → j < n → g j ≤ f j + point s a j)
    → sum_below n g ≤ sum_below n f + a
unfolding sum_below
sum_below-grows zero s a f g h = omega arith
sum_below-grows (suc n) s a f g h = elim (Bool-cases (s == n)) [
  | inl last ↦
      let e : s ≡ n = (==_iff s n).0 last in
      let here : g n ≤ f n + a = ground (arith, h n (omega arith), last) in
      let before : sum_below n g ≤ sum_below n f = sum_below_mono n f g (λ j b.
        omega (arith, h j (omega (arith, b)), point_elsewhere s a j (omega (arith, b, e)))) in
      omega (arith, before, here)
  | inr other ↦
      let here : g n ≤ f n = ground (arith, h n (omega arith), other) in
      omega (arith, sum_below-grows n s a f g (λ j b. h j (omega (arith, b))), here)
]

-- It falls in one place, and grows nowhere.
pub sum_below-falls :
    (n s a : ℕ) (f g : ℕ → ℕ)
    → s < n
    → ((j : ℕ) → j < n → g j + point s a j ≤ f j)
    → sum_below n g + a ≤ sum_below n f
unfolding sum_below
sum_below-falls zero s a f g below h = omega (arith, below)
sum_below-falls (suc n) s a f g below h = elim (Bool-cases (s == n)) [
  | inl last ↦
      let here : g n + a ≤ f n = ground (arith, h n (omega arith), last) in
      omega (arith, sum_below_mono n f g (λ j b. omega (arith, h j (omega (arith, b)))), here)
  | inr before ↦
      let here : g n ≤ f n = omega (arith, h n (omega arith)) in
      let s_before : s < n = ground (arith, below, before) in
      omega (arith, sum_below-falls n s a f g s_before (λ j b. h j (omega (arith, b))), here)
]
