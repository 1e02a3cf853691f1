-- ===== src/Examples/Encodings.antt =====
-- The theorems on number strings and wire fields at sample inputs.
use seedward_libs.Base.{arith, some, [], ◌∷◌, ◌++◌, ◌≡◌, ◌⊎◌, ◌↔◌, Bytes, codes, length}
use seedward_libs.Errors.{Error, ok, err}
use seedward_libs.Numbers.{cut_dot, legacy_dec_wire, int_wire, dec_value}
use seedward_libs.Numbers.Digits.{IsNumber, digits_value, int_wire_cases}
use seedward_libs.Numbers.Decimal.{
  IsDecimal, IsCanonical, wire, scaled_value, nonneg, legacy_dec_wire_cases, wire_value,
  dec_value_cases,
}
use seedward_libs.Numbers.Canonical.{wire-eq_iff}
use seedward_libs.SignDoc.{direct_sign_bytes}
use seedward_libs.SignDoc.Success.{Gives, IsSignable, doc_bytes, direct_sign_bytes_cases}
use seedward_libs.Wire.{
  append_uvarint, append_varint_field, append_bytes_field, append_string_field, uvarint, value,
}
use seedward_libs.Wire.Uvarint.{encoding, uvarint-encoding}
use seedward_libs.Wire.Fields.{varint_field, bytes_field, Appends, writers-Appends}
use seedward_libs.Wire.Groups.{IsVarint, append_uvarint-IsVarint}
use seedward_libs.Samples.{gentx_at}

direct_sign_bytes_cases_example :
    Gives
      (IsSignable (gentx_at (codes "0.1")))
      (direct_sign_bytes (gentx_at (codes "0.1")) (codes "hub-1") 0)
      (doc_bytes (gentx_at (codes "0.1")) (codes "hub-1") 0)
direct_sign_bytes_cases_example = direct_sign_bytes_cases (gentx_at (codes "0.1")) (codes "hub-1") 0

half-IsDecimal : IsDecimal (codes "0.5")
unfolding cut_dot
half-IsDecimal = record {
  int_digits = ((λ e. cc), (omega arith, tt));
  frac_digits = (omega arith, tt);
  places = omega arith;
}

long_half-IsDecimal : IsDecimal (codes "0.50")
unfolding cut_dot
long_half-IsDecimal = record {
  int_digits = ((λ e. cc), (omega arith, tt));
  frac_digits = (omega arith, (omega arith, tt));
  places = omega arith;
}

legacy_dec_wire_cases_example :
    (IsDecimal (codes ".5")
      × (legacy_dec_wire (codes ".5") (codes "rate") ≡ ok (wire (codes ".5"))))
    ⊎ ((¬ IsDecimal (codes ".5"))
        × (e : Error) × (legacy_dec_wire (codes ".5") (codes "rate") ≡ err e))
legacy_dec_wire_cases_example = legacy_dec_wire_cases (codes ".5") (codes "rate")

dec_value_cases_example :
    (IsDecimal (codes "0.5")
      × (dec_value (codes "0.5") (codes "rate") ≡ ok (some (nonneg (scaled_value (codes "0.5"))))))
    ⊎ ((¬ IsDecimal (codes "0.5")) × (e : Error) × (dec_value (codes "0.5") (codes "rate") ≡ err e))
dec_value_cases_example = dec_value_cases (codes "0.5") (codes "rate")

wire_value_example :
    (digits_value 0 (wire (codes "0.5")) ≡ scaled_value (codes "0.5"))
    × IsCanonical (wire (codes "0.5"))
wire_value_example = wire_value (codes "0.5") half-IsDecimal

wire-eq_iff_example :
    (wire (codes "0.5") ≡ wire (codes "0.50"))
    ↔ (scaled_value (codes "0.5") ≡ scaled_value (codes "0.50"))
wire-eq_iff_example = wire-eq_iff (codes "0.5") (codes "0.50") half-IsDecimal long_half-IsDecimal

int_wire_cases_example :
    (IsNumber (codes "007") × (int_wire (codes "007") (codes "amount") ≡ ok (codes "007")))
    ⊎ ((¬ IsNumber (codes "007")) × (e : Error) × (int_wire (codes "007") (codes "amount") ≡ err e))
int_wire_cases_example = int_wire_cases (codes "007") (codes "amount")

uvarint-encoding_example : uvarint (encoding 300 ++ (1 ∷ [])) ≡ value 300 (length (encoding 300))
uvarint-encoding_example = uvarint-encoding 300 (1 ∷ []) (omega arith)

append_uvarint-IsVarint_example :
    (bs : Bytes) × (append_uvarint (1 ∷ []) 300 ≡ (1 ∷ []) ++ bs) × IsVarint 300 bs
append_uvarint-IsVarint_example = append_uvarint-IsVarint (1 ∷ []) 300

writers-Appends_example :
    Appends (9 ∷ []) (append_varint_field (9 ∷ []) 4 300) (varint_field 4 300)
    × Appends (9 ∷ []) (append_bytes_field (9 ∷ []) 4 (7 ∷ [])) (bytes_field 4 (7 ∷ []))
    × Appends (9 ∷ []) (append_string_field (9 ∷ []) 4 (7 ∷ [])) (bytes_field 4 (7 ∷ []))
writers-Appends_example =
    writers-Appends (9 ∷ []) 4 300 (7 ∷ []) (omega arith) (omega arith) (omega arith)
