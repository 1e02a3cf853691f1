-- ===== src/Address.antt =====
-- gentxvalidate/address.go: the signing account's address and its bech32 form.
pub mod Bech32
pub mod Account
use seedward_libs.Base.{true, false, Bytes, length, ◌==◌, bytes_eq, none, some}
use seedward_libs.Errors.{
  Outcome, ok, ◌>>=◌, ◌>>◌, require, wrap, account_key_type, account_key_size, invalid_bech32,
  address_hrp, bech32_payload, address_size, bech32_bits, bech32_encode,
}
use seedward_libs.External.{External}
use seedward_libs.Gentx.{SignerInfo, ParsedGentx, secp256k1_pub_key_type_url}
use seedward_libs.Multisig.{multisig_address_bytes, account_addr_len}
use seedward_libs.Verify.{compressed_pub_key_len}

module _ (x : External) where
  unfoldable pub account_address_bytes : Bytes → Bytes
  account_address_bytes pub_key = x.ripemd160 (x.sha256 pub_key)

  unfoldable pub signer_address_bytes : SignerInfo → Outcome Bytes
  unfolding account_address_bytes
  signer_address_bytes s = elim s.multisig [
    | some ms ↦ multisig_address_bytes x ms
    | none ↦ do
      require (bytes_eq s.pub_key_type_url secp256k1_pub_key_type_url)
          (account_key_type s.pub_key_type_url)
      require (length s.pub_key == compressed_pub_key_len) (account_key_size (length s.pub_key))
      ok (account_address_bytes s.pub_key)
  ]

  unfoldable pub encode_bech32_address : Bytes → Bytes → Outcome Bytes
  encode_bech32_address hrp payload = do
    data5 ← wrap bech32_bits (x.convert_bits payload 8 5 true)
    wrap bech32_encode (x.bech32_encode hrp data5)

  unfoldable pub account_address : ParsedGentx → Bytes → Outcome Bytes
  account_address g hrp = do b ← signer_address_bytes g.signer; encode_bech32_address hrp b

  unfoldable pub decode_bech32_address : Bytes → Bytes → Outcome Bytes
  decode_bech32_address addr want_hrp = do
    (hrp, data5) ← wrap invalid_bech32 (x.bech32_decode addr 1023)
    require (bytes_eq hrp want_hrp) (address_hrp hrp want_hrp)
    payload ← wrap bech32_payload (x.convert_bits data5 5 8 false)
    require (length payload == account_addr_len) (address_size (length payload))
    ok payload
