-- ===== src/Numbers/Decimal.antt =====
-- What decimal strings mean: the ones that legacyDecWire accepts, and the number each stands for.
use seedward_libs.Base.{
  ℕ, zero, suc, ◌+◌, ◌-◌, ◌*◌, ◌^◌, ◌≤◌, arith, [], ◌∷◌, ◌++◌, ◌≡◌, refl, ◌∙◌, ◌⊎◌, inl, inr,
  Bool-cases, leb→le, Bytes, true, false, some, length, replicate, is_empty, leb, ◌==◌,
  if◌then◌else◌, All-append,
}
use seedward_libs.Errors.{Error, ok, err, decimal_places}
use seedward_libs.Numbers.{
  is_digit, cut_dot, trim_left_zeros, or_zero, scale, legacy_dec_wire, BigInt, scan_digits,
  scan_nat, set_string, dec_value, check_digits,
}
use seedward_libs.Numbers.Digits.{
  IsDigit, AllDigits, digits_value, IsNumber, check_digits_cases, digits_value-padded,
}

digits_value-trim : (s : Bytes) → digits_value 0 (trim_left_zeros s) ≡ digits_value 0 s
unfolding trim_left_zeros
digits_value-trim [] = refl
digits_value-trim (c ∷ s) = ground (arith, digits_value-trim s)

digits_value-or_zero : (s : Bytes) → digits_value 0 (or_zero s) ≡ digits_value 0 s
digits_value-or_zero [] = refl
digits_value-or_zero (c ∷ s) = refl

-- The parts of a decimal string and the condition under which it is read.
abbrev pub int_part : Bytes → Bytes
int_part s = (cut_dot s).0

abbrev pub frac_part : Bytes → Bytes
frac_part s = (cut_dot s).1

pub record IsDecimal (s : Bytes) : Type 0 where
  pub int_digits : IsNumber (int_part s)
  pub frac_digits : AllDigits (frac_part s)
  pub places : length (frac_part s) ≤ 18

-- The number times 10 ^ 18.
unfoldable pub scaled_value : Bytes → ℕ
scaled_value s =
    digits_value 0 (int_part s) * 10 ^ 18
    + digits_value 0 (frac_part s) * 10 ^ (18 - length (frac_part s))

-- The shortest digits of a number: no zero in front, but for "0" itself.
abbrev pub IsCanonical : Bytes → Type 0
IsCanonical [] = ⊥
IsCanonical (c ∷ s) = AllDigits (c ∷ s) × ((c ≡ b'0') → s ≡ [])

trim-IsCanonical : (s : Bytes) → AllDigits s → IsCanonical (or_zero (trim_left_zeros s))
unfolding trim_left_zeros
trim-IsCanonical [] h = ((omega arith, tt), λ e. refl)
trim-IsCanonical (c ∷ s) (hc, h) = ground (arith, trim-IsCanonical s h)

zeros-AllDigits : (k : ℕ) → AllDigits (replicate k b'0')
zeros-AllDigits zero = tt
zeros-AllDigits (suc k) = (omega arith, zeros-AllDigits k)

-- The wire form of the two parts spells the scaled number, in canonical form.
scale_lem :
    (i f : Bytes)
    → AllDigits i
    → AllDigits f
    → length f ≤ 18
    → (digits_value 0 (scale i f)
        ≡ digits_value 0 i * 10 ^ 18 + digits_value 0 f * 10 ^ (18 - length f))
      × IsCanonical (scale i f)
unfolding scale
scale_lem i f hi hf h =
    let zeros = replicate (18 - length f) b'0' in
    let digits = i ++ (f ++ zeros) in
    let all_digits : AllDigits digits =
      All-append IsDigit i (f ++ zeros) hi
        (All-append IsDigit f zeros hf (zeros-AllDigits (18 - length f))) in
    (
      digits_value-or_zero (trim_left_zeros digits)
          ∙ digits_value-trim digits
          ∙ digits_value-padded i f (18 - length f) 18 (omega arith),
      trim-IsCanonical digits all_digits,
    )

-- The wire form of a decimal string.
unfoldable pub wire : Bytes → Bytes
wire s = scale (int_part s) (frac_part s)

-- A fraction is checked unless it is empty.
frac_check_cases :
    (f field : Bytes)
    → (AllDigits f × ((if is_empty f then ok tt else check_digits f field) ≡ ok tt))
      ⊎ ((¬ AllDigits f)
          × (e : Error) × ((if is_empty f then ok tt else check_digits f field) ≡ err e))
frac_check_cases [] field = inl (tt, refl)
frac_check_cases (c ∷ f) field = elim (check_digits_cases (c ∷ f) field) [
  | inl (n, e) ↦ inl (n.1, e)
  | inr (n, x, e) ↦ inr ((λ d. n ((λ p. cc), d)), x, e)
]

-- legacyDecWire accepts exactly the decimal strings: digits, and behind a dot 18 more at most.
pub legacy_dec_wire_cases :
    (s field : Bytes)
    → (IsDecimal s × (legacy_dec_wire s field ≡ ok (wire s)))
      ⊎ ((¬ IsDecimal s) × (e : Error) × (legacy_dec_wire s field ≡ err e))
unfolding legacy_dec_wire wire
legacy_dec_wire_cases s field = elim (check_digits_cases (int_part s) field) [
  | inr (n, x, e) ↦ inr ((λ h. n h.int_digits), x, rw e)
  | inl (hi, e) ↦ elim (frac_check_cases (frac_part s) field) [
    | inr (n, x, e') ↦ inr ((λ h. n h.frac_digits), x, rw (e, e'))
    | inl (hf, e') ↦ elim (Bool-cases (leb (length (frac_part s)) 18)) [
      | inl l ↦
          inl (record { int_digits = hi; frac_digits = hf; places = leb→le _ _ l }, rw (e, e', l))
      | inr l ↦ inr ((λ h. ground (arith, h.places)), decimal_places field, rw (e, e', l))
    ]
  ]
]

-- The wire form of a decimal string spells its number times 10 ^ 18, with no leading zero.
pub wire_value :
    (s : Bytes) → IsDecimal s → (digits_value 0 (wire s) ≡ scaled_value s) × IsCanonical (wire s)
unfolding wire scaled_value
wire_value s h = scale_lem (int_part s) (frac_part s) h.int_digits.1 h.frac_digits h.places

scan_digits-value : (n : ℕ) (s : Bytes) → AllDigits s → scan_digits n s ≡ some (digits_value n s)
unfolding scan_digits
scan_digits-value n [] h = refl
scan_digits-value n (c ∷ s) (hc, h) =
    let t : is_digit c ≡ true = ground arith in rw t (scan_digits-value (n * 10 + (c - b'0')) s h)

abbrev pub nonneg : ℕ → BigInt
nonneg n = record { neg = false; abs = n }

-- SetString reads the value of a number string.
pub set_string-number : (s : Bytes) → IsNumber s → set_string s ≡ some (nonneg (digits_value 0 s))
unfolding set_string
set_string-number [] h = absurd (h.0 refl)
set_string-number (c ∷ s) h =
    let plain : scan_nat false (c ∷ s) ≡ some (nonneg (digits_value 0 (c ∷ s))) =
      rw (scan_digits-value 0 (c ∷ s) h.1, scan_nat) in
    let minus : (c == b'-') ≡ false = ground (arith, h.1.0.0) in
    let plus : (c == b'+') ≡ false = ground (arith, h.1.0.0) in rw (minus, plus) plain

IsCanonical-IsNumber : (s : Bytes) → IsCanonical s → IsNumber s
IsCanonical-IsNumber [] h = absurd h
IsCanonical-IsNumber (c ∷ s) h = ((λ p. cc), h.0)

-- decValue gives the scaled number of exactly the decimal strings, and is never nil.
pub dec_value_cases :
    (s field : Bytes)
    → (IsDecimal s × (dec_value s field ≡ ok (some (nonneg (scaled_value s)))))
      ⊎ ((¬ IsDecimal s) × (e : Error) × (dec_value s field ≡ err e))
unfolding dec_value
dec_value_cases s field = elim (legacy_dec_wire_cases s field) [
  | inr (n, x, e) ↦ inr (n, x, rw e)
  | inl (h, e) ↦
      let (v, c) = wire_value s h in
      inl (h, rw (e, set_string-number (wire s) (IsCanonical-IsNumber (wire s) c), v))
]
