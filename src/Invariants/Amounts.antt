-- ===== src/Invariants/Amounts.antt =====
-- The amounts that CheckSelfDelegation of gentxvalidate/invariants.go reads with big.Int.
use seedward_libs.Base.{
  ℕ, ◌+◌, ◌-◌, ◌*◌, arith, Bool, true, false, ◌&&◌, [], ◌∷◌, ◌≡◌, refl, ◌⊎◌, inl, inr, Bool-cases,
  Bytes, none, some, ltb, ◌==◌, if◌then◌else◌,
}
use seedward_libs.Numbers.{is_digit, scan_digits, scan_nat, set_string}
use seedward_libs.Numbers.Digits.{AllDigits, digits_value, IsNumber}
use seedward_libs.Numbers.Decimal.{nonneg}
use seedward_libs.Invariants.{non_negative}

-- The sign in front of a number string, and what stands behind it.
abbrev pub has_minus : Bytes → Bool
has_minus [] = false
has_minus (c ∷ s) = c == b'-'

abbrev pub unsigned : Bytes → Bytes
unsigned [] = []
unsigned (c ∷ s) = if c == b'-' then s else if c == b'+' then s else c ∷ s

abbrev pub amount : Bytes → ℕ
amount s = digits_value 0 (unsigned s)

-- A non-negative integer: digits behind an optional sign, a minus only in front of zero.
pub record IsAmount (s : Bytes) : Type 0 where
  pub digits : IsNumber (unsigned s)
  pub sign : has_minus s ≡ true → amount s ≡ 0

scan_digits_cases :
    (n : ℕ) (s : Bytes)
    → (AllDigits s × (scan_digits n s ≡ some (digits_value n s)))
      ⊎ ((¬ AllDigits s) × (scan_digits n s ≡ none))
unfolding scan_digits
scan_digits_cases n [] = inl (tt, refl)
scan_digits_cases n (c ∷ s) = elim (Bool-cases (is_digit c)) [
  | inr f ↦ inr ((λ h. ground (arith, h.0)), rw f refl)
  | inl t ↦ elim (scan_digits_cases (n * 10 + (c - b'0')) s) [
    | inl (h, e) ↦ inl ((ground arith, h), rw t e)
    | inr (h, e) ↦ inr ((λ d. h d.1), rw t e)
  ]
]

scan_nat_cases :
    (neg : Bool) (s : Bytes)
    → let v = digits_value 0 s in
      (IsNumber s × (scan_nat neg s ≡ some (record { neg = neg && ltb 0 v; abs = v })))
      ⊎ ((¬ IsNumber s) × (scan_nat neg s ≡ none))
unfolding scan_nat
scan_nat_cases neg [] = inr ((λ h. h.0 refl), refl)
scan_nat_cases neg (c ∷ s) = elim (scan_digits_cases 0 (c ∷ s)) [
  | inl (h, e) ↦ inl (((λ p. cc), h), rw (e, scan_nat))
  | inr (h, e) ↦ inr ((λ d. h d.1), rw (e, scan_nat))
]

set_string-scan_nat : (s : Bytes) → set_string s ≡ scan_nat (has_minus s) (unsigned s)
unfolding set_string scan_nat
set_string-scan_nat [] = refl
set_string-scan_nat (c ∷ s) = elim (Bool-cases (c == b'-')) [
  | inl t ↦ rw t refl
  | inr f ↦ elim (Bool-cases (c == b'+')) [ inl t ↦ rw (f, t) refl | inr f' ↦ rw (f, f') refl ]
]

-- A signed zero is not negative, and a signed number above zero is.
sign_cases :
    (neg : Bool) (v : ℕ)
    → (((neg ≡ true) → v ≡ 0)
        × (non_negative (some (record { neg = neg && ltb 0 v; abs = v })) ≡ some (nonneg v)))
      ⊎ ((¬ ((neg ≡ true) → v ≡ 0))
          × (non_negative (some (record { neg = neg && ltb 0 v; abs = v })) ≡ none))
sign_cases false v = inl ((λ h. cc), refl)
sign_cases true v = elim (Bool-cases (ltb 0 v)) [
  | inl t ↦ inr ((λ h. ground (arith, h refl)), rw t refl)
  | inr f ↦ inl ((λ h. ground arith), rw f refl)
]

-- A floor or self-bond is read exactly when it is a non-negative integer, as its value.
pub amount_cases :
    (s : Bytes)
    → (IsAmount s × (non_negative (set_string s) ≡ some (nonneg (amount s))))
      ⊎ ((¬ IsAmount s) × (non_negative (set_string s) ≡ none))
amount_cases s = elim (scan_nat_cases (has_minus s) (unsigned s)) [
  | inr (n, e) ↦ inr ((λ h. n h.digits), rw (set_string-scan_nat s, e) refl)
  | inl (d, e) ↦ elim (sign_cases (has_minus s) (amount s)) [
    | inl (z, e') ↦ inl (record { digits = d; sign = z }, rw (set_string-scan_nat s, e) e')
    | inr (n, e') ↦ inr ((λ h. n h.sign), rw (set_string-scan_nat s, e) e')
  ]
]
