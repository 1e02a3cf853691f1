-- ===== src/Base/Order.antt =====
-- `<` on the native numbers is well founded, and products and powers are monotone.
use mathlib.Core.WellFounded.{Acc, WellFounded}
use Prim.Native.Nat.{ℕ, zero, suc, ◌+◌, ◌*◌, ◌^◌, ◌≤◌, ◌<◌}
use mathlib.Core.Path.{◌≡◌}
use native.Mathlib.Nat.{pow-suc}
use native.Mathlib.Decide.{dec_lt}
use native.Mathlib.Omega.{arith}

Acc-below : (k n : ℕ) → n < k → Acc ◌<◌ n
Acc-below zero n h = elim h [ ]
Acc-below (suc k) n h = Acc.intro n (λ m hm. Acc-below k m (omega arith))

unfoldable pub lt_wf : WellFounded ◌<◌
unfolding Acc-below
lt_wf = record { apply = λ n. Acc-below (suc n) n (omega arith) }

pub mul_le : (a b p : ℕ) → a < b → a * p + p ≤ b * p
mul_le a b p h = grind arith

-- The digit in front of a remainder is determined.
pub quotient_unique : (a b p r q : ℕ) → r < p → q < p → a * p + r ≡ b * p + q → a ≡ b
quotient_unique a b p r q hr hq e = elim (dec_lt a b) [
  | yes l ↦ absurd (omega (arith, mul_le a b p l))
  | no n ↦ elim (dec_lt b a) [ yes l ↦ absurd (omega (arith, mul_le b a p l)) | no m ↦ omega arith ]
]

pub ten-pow_le : (k m : ℕ) → k ≤ m → 10 ^ k ≤ 10 ^ m
ten-pow_le zero zero h = omega arith
ten-pow_le zero (suc m) h = omega (arith, pow-suc 10 m, ten-pow_le zero m (omega arith))
ten-pow_le (suc k) zero h = absurd (omega arith)
ten-pow_le (suc k) (suc m) h =
    omega (arith, pow-suc 10 k, pow-suc 10 m, ten-pow_le k m (omega arith))
