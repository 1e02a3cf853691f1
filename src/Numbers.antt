-- ===== src/Numbers.antt =====
-- Number strings of gentxvalidate: checkDigits, intWire and legacyDecWire of signdoc.go, and the
-- big.Int functions of Go's standard library by which invariants.go reads them.
pub mod Digits
pub mod Decimal
pub mod Canonical
pub mod Format
use seedward_libs.Base.{
  ℕ, zero, suc, ◌+◌, ◌-◌, ◌*◌, ◌^◌, Bool, true, false, not, ◌&&◌, ◌||◌, List, [], ◌∷◌, ◌++◌, Bytes,
  Option, none, some, codes, length, replicate, is_empty, ltb, leb, ◌==◌, if◌then◌else◌,
}
use seedward_libs.Errors.{
  Error, Outcome, ok, err, ◌>>=◌, ◌>>◌, require, empty_number, invalid_number, decimal_places,
}

abbrev pub legacy_dec_precision : ℕ
legacy_dec_precision = 18

-- `s[i] < '0' || s[i] > '9'` is false
abbrev pub is_digit : ℕ → Bool
is_digit c = leb b'0' c && leb c b'9'

unfoldable pub check_digits_from : Bytes → Bytes → Bytes → Outcome (Unit {0})
check_digits_from [] s field = ok tt
check_digits_from (c ∷ rest) s field =
    let next = check_digits_from rest s field in
    if is_digit c then next else err (invalid_number field s)

unfoldable pub check_digits : Bytes → Bytes → Outcome (Unit {0})
unfolding check_digits_from
check_digits s field = if is_empty s then err (empty_number field) else check_digits_from s s field

-- The wire form of a math.Int string: the string itself.
unfoldable pub int_wire : Bytes → Bytes → Outcome Bytes
unfolding check_digits
int_wire s field = check_digits s field >> ok s

-- strings.Cut(s, "."): what stands before and behind the first dot.
unfoldable pub cut_dot : Bytes → Bytes × Bytes
cut_dot [] = ([], [])
cut_dot (c ∷ s) = let rest = cut_dot s in if c == b'.' then ([], s) else (c ∷ rest.0, rest.1)

-- strings.TrimLeft(s, "0")
unfoldable pub trim_left_zeros : Bytes → Bytes
trim_left_zeros [] = []
trim_left_zeros (c ∷ s) = let rest = trim_left_zeros s in if c == b'0' then rest else c ∷ s

-- `if scaled == "" { scaled = "0" }`
abbrev pub or_zero : Bytes → Bytes
or_zero [] = b'0' ∷ []
or_zero (c ∷ s) = c ∷ s

unfoldable pub scale : Bytes → Bytes → Bytes
unfolding trim_left_zeros
scale int_part frac_part = or_zero (
    trim_left_zeros
      (int_part ++ (frac_part ++ replicate (legacy_dec_precision - length frac_part) b'0')))

unfoldable pub legacy_dec_wire : Bytes → Bytes → Outcome Bytes
unfolding check_digits cut_dot scale
legacy_dec_wire s field =
    let int_part = (cut_dot s).0 in
    let frac_part = (cut_dot s).1 in
    do
      check_digits int_part field
      (if is_empty frac_part then ok tt else check_digits frac_part field)
      require (leb (length frac_part) legacy_dec_precision) (decimal_places field)
      ok (scale int_part frac_part)

-- math/big: an Int is its sign and its absolute value.
pub record BigInt : Type 0 where
  pub neg : Bool
  pub abs : ℕ

abbrev pub zero_digit : ℕ
zero_digit = b'0'

-- The natural number that digits spell after `n`, `none` at any other byte.
unfoldable pub scan_digits : ℕ → Bytes → Option ℕ
scan_digits n [] = some n
scan_digits n (c ∷ s) =
    let next = scan_digits (n * 10 + (c - b'0')) s in if is_digit c then next else none

-- One digit at least; zero has no sign.
unfoldable pub scan_nat : Bool → Bytes → Option BigInt
unfolding scan_digits
scan_nat neg [] = none
scan_nat neg (c ∷ s) = elim (scan_digits 0 (c ∷ s)) [
  | none ↦ none
  | some n ↦ some (record { neg = neg && ltb 0 n; abs = n })
]

-- (*big.Int).SetString(s, 10): an optional sign, then decimal digits and nothing else.
unfoldable pub set_string : Bytes → Option BigInt
unfolding scan_nat
set_string [] = none
set_string (c ∷ s) =
    if c == b'-'
    then scan_nat true s
    else if c == b'+'
    then scan_nat false s
    else scan_nat false (c ∷ s)

-- x.Sign() < 0
abbrev pub is_negative : BigInt → Bool
is_negative x = x.neg && ltb 0 x.abs

-- x.Cmp(y) < 0
unfoldable pub big_lt : BigInt → BigInt → Bool
big_lt x y =
    if x.neg
    then (if y.neg then ltb y.abs x.abs else true)
    else (if y.neg then false else ltb x.abs y.abs)

abbrev pub big_one : BigInt
big_one = record { neg = false; abs = 10 ^ 18 }

-- decValue; its error of SetString is dropped by the source, as legacyDecWire leaves digits.
unfoldable pub dec_value : Bytes → Bytes → Outcome (Option BigInt)
unfolding legacy_dec_wire set_string
dec_value s field = legacy_dec_wire s field >>= λ w. ok (set_string w)
