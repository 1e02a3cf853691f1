-- ===== src/Numbers/Format.antt =====
-- strconv.FormatUint(n, 10) of Go's standard library: the decimal digits of a uint64.
use native.Mathlib.Nat.{pow-suc}
use seedward_libs.Base.{
  ℕ, zero, suc, ◌+◌, ◌-◌, ◌*◌, ◌/◌, ◌%◌, ◌^◌, ◌<◌, arith, [], ◌∷◌, ◌≡◌, refl, ap, ◌∙◌, inl, inr,
  Bool-cases, Bytes, ltb, if◌then◌else◌,
}
use seedward_libs.Numbers.Digits.{AllDigits, digits_value}

-- The loop, from the last digit on, with the number of digits that may follow.
format_digits : ℕ → ℕ → Bytes → Bytes
format_digits zero n acc = acc
format_digits (suc fuel) n acc =
    let more = format_digits fuel (n / 10) ((b'0' + n % 10) ∷ acc) in
    if ltb n 10 then (b'0' + n) ∷ acc else more

-- A uint64 has 20 digits at most.
unfoldable pub format_uint : ℕ → Bytes
unfolding format_digits
format_uint n = format_digits 20 n []

format_digits-value :
    (fuel n : ℕ) (acc : Bytes)
    → n < 10 ^ fuel
    → AllDigits acc
    → AllDigits (format_digits fuel n acc)
      × (digits_value 0 (format_digits fuel n acc) ≡ digits_value n acc)
unfolding format_digits
format_digits-value zero n acc h d = (d, let none_left : n ≡ 0 = omega arith in rw none_left refl)
format_digits-value (suc fuel) n acc h d = elim (Bool-cases (ltb n 10)) [
  | inl t ↦ rw t (
    (ground arith, d),
    let same : 0 + (b'0' + n - b'0') ≡ n = omega arith in ap (λ (k : ℕ). digits_value k acc) same,
  )
  | inr f ↦
      let rest =
        format_digits-value fuel (n / 10) ((b'0' + n % 10) ∷ acc)
          (let grows : 10 ^ suc fuel ≡ 10 ^ fuel * 10 = rw pow-suc in omega (arith, h, grows))
          (ground arith, d) in
      let back : n / 10 * 10 + (b'0' + n % 10 - b'0') ≡ n = omega arith in
      rw f (rest.0, rest.1 ∙ ap (λ (k : ℕ). digits_value k acc) back)
]

-- The digits of a uint64 spell it.
pub format_uint-value :
    (n : ℕ) → n < 2 ^ 64 → AllDigits (format_uint n) × (digits_value 0 (format_uint n) ≡ n)
unfolding format_uint
format_uint-value n h = format_digits-value 20 n [] (omega arith) tt
