-- ===== src/Decode/Uints.antt =====
-- parseUint of gentxvalidate/decode.go: which strings it reads, and as what.
use seedward_libs.Base.{
  ℕ, ◌+◌, ◌-◌, ◌*◌, ◌%◌, ◌^◌, ◌<◌, ◌≤◌, arith, true, false, [], ◌∷◌, ◌≡◌, refl, ◌⊎◌, inl, inr,
  Bool-cases, Bytes, ltb, leb,
}
use seedward_libs.Errors.{Error, ok, err, uint_syntax, uint_range}
use seedward_libs.Numbers.{is_digit}
use seedward_libs.Numbers.Digits.{IsDigit, AllDigits, digits_value}
use seedward_libs.Decode.{uint_cutoff, parse_digits, parse_uint}

digits_value-grows : (n : ℕ) (s : Bytes) → n ≤ digits_value n s
digits_value-grows n [] = omega arith
digits_value-grows n (c ∷ s) = omega (arith, digits_value-grows (n * 10 + (c - b'0')) s)

-- One round: with a digit and a value that fits, the wrapped sum is the sum.
parse_digits_step :
    (n c : ℕ) (rest s field : Bytes)
    → IsDigit c
    → n * 10 + (c - b'0') < 2 ^ 64
    → parse_digits n (c ∷ rest) s field ≡ parse_digits (n * 10 + (c - b'0')) rest s field
unfolding parse_digits
parse_digits_step n c rest s field h l =
    let digit : is_digit c ≡ true = ground (arith, h) in
    let below : leb uint_cutoff n ≡ false = ground (arith, h, l) in
    let sum : (n * 10 % 2 ^ 64 + (c - b'0')) % 2 ^ 64 ≡ n * 10 + (c - b'0') =
      omega (arith, h.0, h.1) in
    let grows : ltb (n * 10 + (c - b'0')) (n * 10 % 2 ^ 64) ≡ false = ground (arith, h, l) in
    rw (digit, below, sum, grows) refl

-- A digit by which the value leaves 64 bits is refused.
parse_digits_overflow :
    (n c : ℕ) (rest s field : Bytes)
    → IsDigit c
    → n < 2 ^ 64
    → 2 ^ 64 ≤ n * 10 + (c - b'0')
    → parse_digits n (c ∷ rest) s field ≡ err (uint_range field s)
unfolding parse_digits
parse_digits_overflow n c rest s field h small l =
    let digit : is_digit c ≡ true = ground (arith, h) in
    elim (Bool-cases (leb uint_cutoff n)) [
      | inl t ↦ rw (digit, t) refl
      | inr f ↦
          let wraps : ltb ((n * 10 % 2 ^ 64 + (c - b'0')) % 2 ^ 64) (n * 10 % 2 ^ 64) ≡ true =
            ground (arith, h) in
          rw (digit, f, wraps) refl
    ]

parse_digits_cases :
    (n : ℕ) (rest s field : Bytes)
    → n < 2 ^ 64
    → ((AllDigits rest × (digits_value n rest < 2 ^ 64))
        × (parse_digits n rest s field ≡ ok (digits_value n rest)))
      ⊎ ((¬ (AllDigits rest × (digits_value n rest < 2 ^ 64)))
          × (e : Error) × (parse_digits n rest s field ≡ err e))
unfolding parse_digits
parse_digits_cases n [] s field h = inl ((tt, h), refl)
parse_digits_cases n (c ∷ rest) s field h = elim (Bool-cases (is_digit c)) [
  | inr f ↦ inr ((λ p. ground (arith, p.0.0)), uint_syntax field s, rw f refl)
  | inl t ↦
      let d : IsDigit c = ground arith in
      let n1 = n * 10 + (c - b'0') in
      elim (Bool-cases (ltb n1 (2 ^ 64))) [
        | inr f ↦ inr (
          (λ p. ground (arith, p.1, digits_value-grows n1 rest)),
          uint_range field s,
          parse_digits_overflow n c rest s field d h (ground arith),
        )
        | inl l ↦
            let step = parse_digits_step n c rest s field d (ground arith) in
            elim (parse_digits_cases n1 rest s field (ground arith)) [
              | inl ((ds, b), e) ↦ inl (((d, ds), b), rw step e)
              | inr (refused, x, e) ↦ inr ((λ p. refused (p.0.1, p.1)), x, rw step e)
            ]
      ]
]

-- parseUint reads exactly the strings of digits whose number is below 2 ^ 64, as that number, and the
-- empty string as 0; it gives an error for all others.
pub parse_uint_cases :
    (s field : Bytes)
    → ((AllDigits s × (digits_value 0 s < 2 ^ 64)) × (parse_uint s field ≡ ok (digits_value 0 s)))
      ⊎ ((¬ (AllDigits s × (digits_value 0 s < 2 ^ 64)))
          × (e : Error) × (parse_uint s field ≡ err e))
unfolding parse_uint
parse_uint_cases [] field = inl ((tt, omega arith), refl)
parse_uint_cases (c ∷ s) field = parse_digits_cases 0 (c ∷ s) (c ∷ s) field (omega arith)
