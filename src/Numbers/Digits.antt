-- ===== src/Numbers/Digits.antt =====
-- Strings of decimal digits: which ones checkDigits and intWire accept, and the number they spell.
use native.Mathlib.Nat.{pow-suc}
use seedward_libs.Base.{
  ℕ, zero, suc, ◌+◌, ◌-◌, ◌*◌, ◌^◌, ◌≤◌, arith, [], ◌∷◌, ◌++◌, ◌≡◌, ◌≢◌, refl, ap, ◌∙◌, ◌⊎◌, inl,
  inr, Bytes, true, false, length, replicate, All,
}
use seedward_libs.Errors.{Error, ok, err, empty_number, invalid_number}
use seedward_libs.Numbers.{is_digit, check_digits_from, check_digits, int_wire}

abbrev pub IsDigit : ℕ → Type 0
IsDigit c = (b'0' ≤ c) × (c ≤ b'9')

abbrev pub AllDigits : Bytes → Type 0
AllDigits = All IsDigit

-- The number that digits spell behind `n`.
abbrev pub digits_value : ℕ → Bytes → ℕ
digits_value n [] = n
digits_value n (c ∷ s) = digits_value (n * 10 + (c - b'0')) s

-- A number string: one digit or more.
abbrev pub IsNumber : Bytes → Type 0
IsNumber s = (s ≢ []) × AllDigits s

IsDigit-cases : (c : ℕ) → (IsDigit c × (is_digit c ≡ true)) ⊎ ((¬ IsDigit c) × (is_digit c ≡ false))
IsDigit-cases c = ground arith

check_digits_from_cases :
    (r s field : Bytes)
    → (AllDigits r × (check_digits_from r s field ≡ ok tt))
      ⊎ ((¬ AllDigits r) × (check_digits_from r s field ≡ err (invalid_number field s)))
unfolding check_digits_from
check_digits_from_cases [] s field = inl (tt, refl)
check_digits_from_cases (c ∷ r) s field = elim (IsDigit-cases c) [
  | inl (d, e) ↦ elim (check_digits_from_cases r s field) [
    | inl (ds, e') ↦ inl ((d, ds), rw e e')
    | inr (n, e') ↦ inr ((λ h. n h.1), rw e e')
  ]
  | inr (n, e) ↦ inr ((λ h. n h.0), rw e)
]

-- checkDigits accepts exactly the number strings, and gives an error on all others.
pub check_digits_cases :
    (s field : Bytes)
    → (IsNumber s × (check_digits s field ≡ ok tt))
      ⊎ ((¬ IsNumber s) × (e : Error) × (check_digits s field ≡ err e))
unfolding check_digits
check_digits_cases [] field = inr ((λ h. h.0 refl), empty_number field, refl)
check_digits_cases (c ∷ s) field = elim (check_digits_from_cases (c ∷ s) (c ∷ s) field) [
  | inl (d, e) ↦ inl (((λ p. cc), d), e)
  | inr (n, e) ↦ inr ((λ h. n h.1), invalid_number field (c ∷ s), e)
]

-- intWire accepts exactly the number strings, and leaves them as they are.
pub int_wire_cases :
    (s field : Bytes)
    → (IsNumber s × (int_wire s field ≡ ok s))
      ⊎ ((¬ IsNumber s) × (e : Error) × (int_wire s field ≡ err e))
unfolding int_wire
int_wire_cases s field = elim (check_digits_cases s field) [
  | inl (n, e) ↦ inl (n, rw e)
  | inr (n, x, e) ↦ inr (n, x, rw e)
]

pub digits_value-append :
    (n : ℕ) (s t : Bytes) → digits_value n (s ++ t) ≡ digits_value (digits_value n s) t
digits_value-append n [] t = refl
digits_value-append n (c ∷ s) t = digits_value-append (n * 10 + (c - b'0')) s t

pub digits_value-shift :
    (n : ℕ) (s : Bytes) → digits_value n s ≡ n * 10 ^ length s + digits_value 0 s
digits_value-shift n [] = omega arith
digits_value-shift n (c ∷ s) = omega (
  arith,
  digits_value-shift (n * 10 + (c - b'0')) s,
  digits_value-shift (0 + (c - b'0')) s,
  ap (λ (t : ℕ). n * t) (pow-suc 10 (length s)),
)

pub digits_value-zeros : (n k : ℕ) → digits_value n (replicate k b'0') ≡ n * 10 ^ k
digits_value-zeros n zero = omega arith
digits_value-zeros n (suc k) =
    omega (arith, digits_value-zeros (n * 10 + 0) k, ap (λ (t : ℕ). n * t) (pow-suc 10 k))

pow_add : (a k m : ℕ) → a + k ≡ m → 10 ^ a * 10 ^ k ≡ 10 ^ m
pow_add a zero m h = let e : a ≡ m = omega arith in rw e (omega arith)
pow_add a (suc k) zero h = absurd (omega arith)
pow_add a (suc k) (suc m) h =
    omega
      (arith, pow-suc 10 m, ap (λ (t : ℕ). 10 ^ a * t) (pow-suc 10 k), pow_add a k m (omega arith))

-- Digits with zeros behind them.
pub digits_value-padded :
    (i f : Bytes) (k m : ℕ)
    → length f + k ≡ m
    → digits_value 0 (i ++ (f ++ replicate k b'0'))
      ≡ digits_value 0 i * 10 ^ m + digits_value 0 f * 10 ^ k
digits_value-padded i f k m h =
    let n = digits_value 0 i in
    digits_value-append 0 i (f ++ replicate k b'0')
    ∙ digits_value-append n f (replicate k b'0')
    ∙ digits_value-zeros (digits_value n f) k
    ∙ omega (
      arith,
      ap (λ (t : ℕ). t * 10 ^ k) (digits_value-shift n f),
      ap (λ (t : ℕ). n * t) (pow_add (length f) k m h),
    )
