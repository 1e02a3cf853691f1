-- ===== src/Numbers/Canonical.antt =====
-- A number has one canonical form.
use native.Mathlib.Nat.{pow-suc}
use seedward_libs.Base.{
  ℕ, ◌+◌, ◌-◌, ◌*◌, ◌^◌, ◌<◌, arith, [], ◌∷◌, ◌≡◌, refl, sym, ap, ◌∙◌, ◌≢◌, dec_lt, Bytes, length,
  ◌↔◌,
}
use seedward_libs.Base.Order.{mul_le, quotient_unique, ten-pow_le}
use seedward_libs.Numbers.Digits.{AllDigits, digits_value, digits_value-shift}
use seedward_libs.Numbers.Decimal.{IsCanonical, IsDecimal, scaled_value, wire, wire_value}

-- The first digit and the rest make up the number.
first_digit :
    (c : ℕ) (s : Bytes) → digits_value 0 (c ∷ s) ≡ (c - b'0') * 10 ^ length s + digits_value 0 s
first_digit c s = omega (arith, digits_value-shift (0 + (c - b'0')) s)

digits_value-lt : (s : Bytes) → AllDigits s → digits_value 0 s < 10 ^ length s
digits_value-lt [] h = omega arith
digits_value-lt (c ∷ s) (hc, h) = omega (
  arith,
  first_digit c s,
  digits_value-lt s h,
  mul_le (c - b'0') 10 (10 ^ length s) (omega arith),
  pow-suc 10 (length s),
)

same_length :
    (s t : Bytes)
    → AllDigits s
    → AllDigits t
    → length s ≡ length t
    → digits_value 0 s ≡ digits_value 0 t
    → s ≡ t
same_length [] [] hs ht l e = refl
same_length [] (d ∷ t) hs ht l e = absurd (omega arith)
same_length (c ∷ s) [] hs ht l e = absurd (omega arith)
same_length (c ∷ s) (d ∷ t) (hc, hs) (hd, ht) l e =
    let len : length s ≡ length t = omega arith in
    let sized : 10 ^ length t ≡ 10 ^ length s = ap (λ (k : ℕ). 10 ^ k) (sym len) in
    let heads : c - b'0' ≡ d - b'0' =
      quotient_unique (c - b'0') (d - b'0') (10 ^ length s) (digits_value 0 s) (digits_value 0 t)
        (digits_value-lt s hs) (omega (arith, digits_value-lt t ht))
        (sym (first_digit c s) ∙ e ∙ first_digit d t ∙ rw sized) in
    let tails : digits_value 0 s ≡ digits_value 0 t = omega (
      arith,
      first_digit c s,
      first_digit d t,
      ap (λ (x : ℕ). x * 10 ^ length s) heads,
      ap (λ (x : ℕ). (d - b'0') * x) sized,
    ) in
    let same : c ≡ d = omega arith in rw (same, same_length s t hs ht len tails)

-- A canonical string is no longer than any other one of its value.
longer :
    (s t : Bytes)
    → AllDigits s
    → IsCanonical t
    → 0 < length s
    → length s < length t
    → digits_value 0 s < digits_value 0 t
longer s [] hs ht pos l = absurd ht
longer s (d ∷ []) hs ht pos l = absurd (omega arith)
longer s (d ∷ e ∷ t) hs ((hd, hes), nz) pos l =
    let lead : d ≢ b'0' = λ p. cc (nz p) in
    omega (
      arith,
      first_digit d (e ∷ t),
      mul_le 0 (d - b'0') (10 ^ length (e ∷ t)) (omega arith),
      ten-pow_le (length s) (length (e ∷ t)) (omega arith),
      digits_value-lt s hs,
    )

IsCanonical-digits : (s : Bytes) → IsCanonical s → AllDigits s × (0 < length s)
IsCanonical-digits [] h = absurd h
IsCanonical-digits (c ∷ s) h = (h.0, omega arith)

-- Two canonical strings of one value are the same string.
pub canonical_unique :
    (s t : Bytes) → IsCanonical s → IsCanonical t → digits_value 0 s ≡ digits_value 0 t → s ≡ t
canonical_unique s t hs ht e =
    let (ds, ps) = IsCanonical-digits s hs in
    let (dt, pt) = IsCanonical-digits t ht in
    elim (dec_lt (length s) (length t)) [
      | yes l ↦ absurd (omega (arith, longer s t ds ht ps l))
      | no n ↦ elim (dec_lt (length t) (length s)) [
        | yes l ↦ absurd (omega (arith, longer t s dt hs pt l))
        | no m ↦ same_length s t ds dt (omega arith) e
      ]
    ]

-- Two decimal strings have the same wire form exactly when they stand for the same number.
pub wire-eq_iff :
    (s t : Bytes)
    → IsDecimal s
    → IsDecimal t
    → (wire s ≡ wire t) ↔ (scaled_value s ≡ scaled_value t)
wire-eq_iff s t hs ht =
    let (vs, cs) = wire_value s hs in
    let (vt, ct) = wire_value t ht in
    (
      λ e. sym vs ∙ ap (λ (w : Bytes). digits_value 0 w) e ∙ vt,
      λ e. canonical_unique (wire s) (wire t) cs ct (vs ∙ e ∙ sym vt),
    )
