-- ===== src/Examples.antt =====
-- Each theorem of the results at a concrete input.
pub mod Checks
pub mod Signers
pub mod Encodings
pub mod Documents
pub mod Signing
pub mod Canonical
use seedward_libs.Base.{ℕ, ◌<◌, ◌^◌, arith, ◌≡◌, refl, Bytes, codes, length, bytes_eq}
use seedward_libs.Errors.{ok}
use seedward_libs.Gentx.{HasU64s}
use seedward_libs.Wire.{
  append_string_field, append_uvarint, append_tag, append_bytes_field, append_varint_field,
}
use seedward_libs.Numbers.{
  scale, cut_dot, trim_left_zeros, legacy_dec_wire, int_wire, check_digits, check_digits_from,
}
use seedward_libs.Numbers.Decimal.{wire}
use seedward_libs.SignDoc.{
  direct_sign_bytes, encode_signer_info, encode_any, encode_description, encode_tx_body,
  encode_auth_info, encode_msg_create_validator, encode_commission, encode_coin, encode_fee,
  encode_amounts,
}
use seedward_libs.SignDoc.Success.{
  doc_bytes, auth_bytes, fee_bytes, amounts_bytes, body_bytes, msg_bytes, coin_bytes,
  commission_bytes,
}
use seedward_libs.SignDoc.Unique.{SameSigned, direct_sign_bytes_unique}
use seedward_libs.Samples.{tiny_at}

tiny_at-HasU64s : (rate : Bytes) → HasU64s (tiny_at rate)
tiny_at-HasU64s rate = record {
  timeout_height = omega arith;
  sequence = omega arith;
  gas_limit = omega arith;
}

abbrev sample_bytes : Bytes
sample_bytes = doc_bytes (tiny_at (codes "0")) (codes "h") 0

sample_size : length sample_bytes < 2 ^ 64
unfolding doc_bytes append_string_field append_uvarint append_tag append_bytes_field auth_bytes
    fee_bytes append_varint_field amounts_bytes encode_signer_info encode_any body_bytes msg_bytes
    coin_bytes commission_bytes wire scale cut_dot encode_description trim_left_zeros
sample_size = omega (arith, size)
  where
    size : length sample_bytes ≡ 98
    size = refl

-- The gentxs with the rates "0" and "0.0" have DIRECT sign bytes, and the same ones.
sample_signs :
    (direct_sign_bytes (tiny_at (codes "0")) (codes "h") 0 ≡ ok sample_bytes)
    × (direct_sign_bytes (tiny_at (codes "0.0")) (codes "h") 0 ≡ ok sample_bytes)
unfolding doc_bytes append_string_field append_uvarint append_tag append_bytes_field auth_bytes
    fee_bytes append_varint_field amounts_bytes encode_signer_info encode_any body_bytes msg_bytes
    coin_bytes commission_bytes wire scale cut_dot encode_description trim_left_zeros
    direct_sign_bytes bytes_eq encode_tx_body encode_auth_info encode_msg_create_validator
    encode_commission legacy_dec_wire int_wire check_digits check_digits_from encode_coin encode_fee
    encode_amounts
sample_signs = (refl, refl)

direct_sign_bytes_unique_example :
    (codes "h" ≡ codes "h")
    × (Path ℕ 0 0)
    × SameSigned (tiny_at (codes "0")) (tiny_at (codes "0.0"))
direct_sign_bytes_unique_example =
    direct_sign_bytes_unique (tiny_at (codes "0")) (tiny_at (codes "0.0")) (codes "h") (codes "h") 0
      0 sample_bytes (tiny_at-HasU64s (codes "0")) (tiny_at-HasU64s (codes "0.0")) (omega arith)
      (omega arith) sample_size sample_signs.0 sample_signs.1
