-- ===== src/Base/Bits.antt =====
-- Laws of `|` and `&` on words, from the digit recursion that the native operations stand for.
use Prim.Native.Nat.{
  bit_and, bit_or, digits, bit_or-bitwise, bit_and-bitwise, max, min, ℕ, zero, suc, ◌+◌, ◌*◌, ◌/◌,
  ◌%◌, ◌^◌, ◌≤◌, ◌<◌,
}
use mathlib.Core.Bool.{Bool, true, false, ◌&&◌}
use mathlib.Core.Logic.{◌⊎◌, inl, inr}
use mathlib.Core.Path.{◌≡◌, refl, ap}
use native.Mathlib.Nat.{pow-suc, div-div-eq-div-mul}
use native.Mathlib.Omega.{arith}
use seedward_libs.Base.Tests.{◌==◌, ==_iff}

-- A test of every byte below a bound, by evaluation.
holds_under : (ℕ → Bool) → ℕ → Bool
holds_under test zero = true
holds_under test (suc bound) = holds_under test bound && test bound

holds_under-at :
    (test : ℕ → Bool) (bound x : ℕ) → x < bound → holds_under test bound ≡ true → test x ≡ true
unfolding holds_under
holds_under-at test (suc bound) x l all = ground (arith, holds_under-at test bound x)
holds_under-at test zero x l all = absurd (omega arith)

low_seven_table : holds_under (λ x. bit_and x 0x7f == x % 128) 256 ≡ true
unfolding holds_under
low_seven_table = refl

-- The low seven bits of a byte.
pub bit_and-low_seven : (x : ℕ) → x < 256 → bit_and x 0x7f ≡ x % 128
bit_and-low_seven x h = (==_iff _ _).0 (holds_under-at _ 256 x h low_seven_table)

top_bit_table : holds_under (λ x. bit_or x 0x80 == x % 128 + 128) 256 ≡ true
unfolding holds_under
top_bit_table = refl

-- Setting the top bit of a byte.
pub bit_or-top_bit : (x : ℕ) → x < 256 → bit_or x 0x80 ≡ x % 128 + 128
bit_or-top_bit x h = (==_iff _ _).0 (holds_under-at _ 256 x h top_bit_table)

-- The digits of `a | b`, of which there are `fuel` at most.
abbrev digits_of_or : ℕ → ℕ → ℕ → ℕ
digits_of_or a b fuel = digits (λ rest. rest) max fuel a b

fuel_irrelevant :
    (a b fuel more : ℕ) → a ≤ fuel → fuel ≤ more → digits_of_or a b more ≡ digits_of_or a b fuel
fuel_irrelevant zero b zero zero l k = refl
fuel_irrelevant zero b zero (suc more) l k = refl
fuel_irrelevant zero b (suc fuel) (suc more) l k = refl
fuel_irrelevant (suc a) b (suc fuel) (suc more) l k =
    let halves = fuel_irrelevant (suc a / 2) (b / 2) fuel more (omega arith) (omega arith) in
    omega (arith, halves)
fuel_irrelevant a b (suc fuel) zero l k = absurd (omega arith)
fuel_irrelevant (suc a) b zero more l k = absurd (omega arith)

zero-bit_or : (b : ℕ) → bit_or 0 b ≡ b
zero-bit_or b = bit_or-bitwise 0 b

-- The lowest digit of `a | b`.
bit_or_step : (a b : ℕ) → bit_or a b ≡ bit_or (a / 2) (b / 2) * 2 + max (a % 2) (b % 2)
bit_or_step zero b = omega (arith, zero-bit_or (b / 2), zero-bit_or b)
bit_or_step (suc a) b =
    let halves = fuel_irrelevant (suc a / 2) (b / 2) (suc a / 2) a (omega arith) (omega arith) in
    omega (arith, halves, bit_or-bitwise (suc a / 2) (b / 2), bit_or-bitwise (suc a) b)

double : (s y : ℕ) → y * 2 ^ suc s ≡ y * 2 ^ s * 2
double s y = rw pow-suc (omega arith)

-- `x | y << s` is a sum where `x` has no bit at `s` or above.
pub bit_or-add : (s x y : ℕ) → x < 2 ^ s → bit_or x (y * 2 ^ s) ≡ x + y * 2 ^ s
bit_or-add zero zero y h = omega (arith, zero-bit_or (y * 2 ^ 0))
bit_or-add zero (suc x) y h = absurd (omega arith)
bit_or-add (suc s) x y h =
    let twice : y * 2 ^ suc s ≡ y * 2 ^ s * 2 = omega (arith, double s y) in
    let half : y * 2 ^ s * 2 / 2 ≡ y * 2 ^ s = omega arith in
    rw twice (
      omega (
        arith,
        bit_or_step x (y * 2 ^ s * 2),
        ap (λ (t : ℕ). bit_or (x / 2) t) half,
        bit_or-add s (x / 2) y (omega (arith, double s 1)),
      ))

bit_or-zero_fuel : (n a : ℕ) → a ≤ n → bit_or a 0 ≡ a
bit_or-zero_fuel n zero h = zero-bit_or 0
bit_or-zero_fuel zero (suc a) h = absurd (omega arith)
bit_or-zero_fuel (suc n) (suc a) h =
    omega (arith, bit_or_step (suc a) 0, bit_or-zero_fuel n (suc a / 2) (omega arith))

bit_or_comm_fuel : (n a b : ℕ) → a ≤ n → bit_or a b ≡ bit_or b a
bit_or_comm_fuel n zero b h = omega (arith, zero-bit_or b, bit_or-zero_fuel b b (omega arith))
bit_or_comm_fuel zero (suc a) b h = absurd (omega arith)
bit_or_comm_fuel (suc n) (suc a) b h = omega (
  arith,
  bit_or_step (suc a) b,
  bit_or_step b (suc a),
  bit_or_comm_fuel n (suc a / 2) (b / 2) (omega arith),
)

pub bit_or_comm : (a b : ℕ) → bit_or a b ≡ bit_or b a
bit_or_comm a b = bit_or_comm_fuel a a b (omega arith)

-- The same recursion for `a & b`.
abbrev digits_of_and : ℕ → ℕ → ℕ → ℕ
digits_of_and a b fuel = digits (λ rest. zero) min fuel a b

and_fuel_irrelevant :
    (fuel more a b : ℕ) → a ≤ fuel → fuel ≤ more → digits_of_and a b more ≡ digits_of_and a b fuel
and_fuel_irrelevant zero zero a b l k = refl
and_fuel_irrelevant zero (suc more) zero b l k = refl
and_fuel_irrelevant zero (suc more) (suc a) b l k = absurd (omega arith)
and_fuel_irrelevant (suc fuel) zero a b l k = absurd (omega arith)
and_fuel_irrelevant (suc fuel) (suc more) zero b l k = refl
and_fuel_irrelevant (suc fuel) (suc more) (suc a) b l k =
    let halves = and_fuel_irrelevant fuel more (suc a / 2) (b / 2) (omega arith) (omega arith) in
    omega (arith, halves)

-- The lowest digit of `a & b`.
lowest_and : (a b : ℕ) → bit_and a b ≡ bit_and (a / 2) (b / 2) * 2 + min (a % 2) (b % 2)
lowest_and zero b = omega (arith, bit_and-bitwise 0 b, bit_and-bitwise 0 (b / 2))
lowest_and (suc a) b =
    let halves =
      and_fuel_irrelevant (suc a / 2) a (suc a / 2) (b / 2) (omega arith) (omega arith) in
    omega (arith, halves, bit_and-bitwise (suc a / 2) (b / 2), bit_and-bitwise (suc a) b)

none_in_common : (fuel a : ℕ) → a ≤ fuel → bit_and a 0 ≡ 0
none_in_common fuel zero h = refl
none_in_common zero (suc a) h = absurd (omega arith)
none_in_common (suc fuel) (suc a) h =
    omega (arith, lowest_and (suc a) 0, none_in_common fuel (suc a / 2) (omega arith))

one_in_common : (a : ℕ) → bit_and a 1 ≡ a % 2
one_in_common a = omega (arith, lowest_and a 1, none_in_common (a / 2) (a / 2) (omega arith))

-- The mask of bit `k`, as `k` halvings and the lowest bit.
abbrev halved : ℕ → ℕ → ℕ
halved zero a = a
halved (suc k) a = halved k (a / 2)

bit_and-halved : (k a : ℕ) → bit_and a (2 ^ k) ≡ halved k a % 2 * 2 ^ k
bit_and-halved zero a = omega (arith, one_in_common a)
bit_and-halved (suc k) a =
    let twice : 2 ^ suc k ≡ 2 ^ k * 2 = rw pow-suc (omega arith) in
    let half : 2 ^ k * 2 / 2 ≡ 2 ^ k = omega arith in
    rw twice (
      omega (
        arith,
        lowest_and a (2 ^ k * 2),
        ap (λ (t : ℕ). bit_and (a / 2) t) half,
        bit_and-halved k (a / 2),
        ap (λ (t : ℕ). halved k (a / 2) % 2 * t) twice,
      ))

halved-div : (k a : ℕ) → halved k a ≡ a / 2 ^ k
halved-div zero a = omega arith
halved-div (suc k) a =
    let twice : 2 * 2 ^ k ≡ 2 ^ suc k = omega (arith, double k 1) in
    omega (arith, halved-div k (a / 2), div-div-eq-div-mul a 2 (2 ^ k), ap (λ (t : ℕ). a / t) twice)

-- The mask of bit `k` leaves that bit.
bit_and-bit : (k a : ℕ) → bit_and a (2 ^ k) ≡ a / 2 ^ k % 2 * 2 ^ k
bit_and-bit k a = omega (arith, bit_and-halved k a, ap (λ (t : ℕ). t % 2 * 2 ^ k) (halved-div k a))

two_pow_pos : (k : ℕ) → 0 < 2 ^ k
two_pow_pos zero = omega arith
two_pow_pos (suc k) = omega (arith, double k 1, two_pow_pos k)

one_digit :
    (m d p : ℕ)
    → m ≡ d * p
    → 0 < p
    → d < 2
    → (((m == 0) ≡ false) × (d ≡ 1)) ⊎ (((m == 0) ≡ true) × (d ≡ 0))
one_digit m zero p e h l = inr (ground arith, refl)
one_digit m (suc zero) p e h l = inl (ground arith, refl)
one_digit m (suc (suc d)) p e h l = absurd (omega arith)

-- Testing bit `k` by its mask.
pub bit_test :
    (k a : ℕ)
    → (((bit_and a (2 ^ k) == 0) ≡ false) × (a / 2 ^ k % 2 ≡ 1))
      ⊎ (((bit_and a (2 ^ k) == 0) ≡ true) × (a / 2 ^ k % 2 ≡ 0))
bit_test k a = one_digit _ (a / 2 ^ k % 2) (2 ^ k) (bit_and-bit k a) (two_pow_pos k) (omega arith)
