-- ===== src/Verify.antt =====
-- gentxvalidate/verify.go: the shape of a single signer and the check of one compact signature.
use seedward_libs.Base.{
  ℕ, Bool, false, Bytes, length, take, drop, ltb, ◌==◌, bytes_eq, if◌then◌else◌,
}
use seedward_libs.Errors.{
  Outcome, ok, panic, ◌>>=◌, ◌>>◌, require, wrap, account_key_type, account_key_size,
  signature_size, parse_account_pubkey,
}
use seedward_libs.External.{External}
use seedward_libs.Gentx.{ParsedGentx, secp256k1_pub_key_type_url}
use seedward_libs.SignDoc.{direct_sign_bytes}

abbrev pub compressed_pub_key_len : ℕ
compressed_pub_key_len = 33

abbrev pub compact_sig_len : ℕ
compact_sig_len = 64

unfoldable pub check_single_secp_signer : ParsedGentx → Outcome (Unit {0})
check_single_secp_signer g = do
  require (bytes_eq g.signer.pub_key_type_url secp256k1_pub_key_type_url)
      (account_key_type g.signer.pub_key_type_url)
  require (length g.signer.pub_key == compressed_pub_key_len)
      (account_key_size (length g.signer.pub_key))
  require (length g.signature == compact_sig_len) (signature_size (length g.signature))

module _ (x : External) where
  -- `sig[:32]` panics on a shorter slice.
  unfoldable pub verify_secp_compact : Bytes → Bytes → Bytes → Outcome Bool
  verify_secp_compact pub_key sig sign_bytes = do
    key ← wrap parse_account_pubkey (x.parse_pub_key pub_key)
    let r = x.set_byte_slice (take 32 sig)
    let s = x.set_byte_slice (drop 32 sig)
    if ltb (length sig) 32
        then panic
        else if r.1
        then ok false
        else if s.1
        then ok false
        else ok (x.verify key r.0 s.0 (x.sha256 sign_bytes))

  unfoldable pub verify_direct : ParsedGentx → Bytes → ℕ → Outcome Bool
  unfolding check_single_secp_signer
  verify_direct g chain_id account_number = do
    check_single_secp_signer g
    sign_bytes ← direct_sign_bytes g chain_id account_number
    verify_secp_compact g.signer.pub_key g.signature sign_bytes
