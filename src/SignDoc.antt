-- ===== src/SignDoc.antt =====
-- gentxvalidate/signdoc.go: the SIGN_MODE_DIRECT sign bytes. A nil slice is the empty list.
pub mod Success
pub mod Layout
pub mod Covers
pub mod Determines
pub mod Unique
use seedward_libs.Base.{
  ℕ, ◌+◌, Bool, true, false, List, [], ◌∷◌, Bytes, codes, is_empty, not, ◌==◌, bytes_eq,
  if◌then◌else◌,
}
use seedward_libs.Errors.{Outcome, ok, err, ◌>>=◌, ◌>>◌, require, unsupported_mode}
use seedward_libs.Gentx.{
  msg_create_validator_type_url, sign_mode_direct_name, Description, CommissionRates, Coin,
  MsgCreateValidator, SignerInfo, Fee, ParsedGentx,
}
use seedward_libs.Numbers.{int_wire, legacy_dec_wire}
use seedward_libs.Wire.{append_varint_field, append_bytes_field, append_string_field}

abbrev pub sign_mode_direct : ℕ
sign_mode_direct = 1

unfoldable pub encode_any : Bytes → Bytes → Bytes
encode_any type_url value =
    let b : Bytes = [] in
    let b1 = if is_empty type_url then b else append_string_field b 1 type_url in
    if is_empty value then b1 else append_bytes_field b1 2 value

unfoldable pub encode_coin : Coin → Outcome Bytes
encode_coin c = do
  amount ← int_wire c.amount (codes "coin amount")
  let b = if is_empty c.denom then [] else append_string_field [] 1 c.denom
  ok (append_bytes_field b 2 amount)

unfoldable pub encode_commission : CommissionRates → Outcome Bytes
encode_commission c = do
  rate ← legacy_dec_wire c.rate (codes "commission.rate")
  max_rate ← legacy_dec_wire c.max_rate (codes "commission.max_rate")
  max_change ← legacy_dec_wire c.max_change_rate (codes "commission.max_change_rate")
  let b1 = append_bytes_field [] 1 rate
  let b2 = append_bytes_field b1 2 max_rate
  ok (append_bytes_field b2 3 max_change)

unfoldable pub encode_description : Description → Bytes
encode_description d =
    let b1 = if is_empty d.moniker then [] else append_string_field [] 1 d.moniker in
    let b2 = if is_empty d.identity then b1 else append_string_field b1 2 d.identity in
    let b3 = if is_empty d.website then b2 else append_string_field b2 3 d.website in
    let b4 =
      if is_empty d.security_contact then b3 else append_string_field b3 4 d.security_contact in
    if is_empty d.details then b4 else append_string_field b4 5 d.details

unfoldable pub encode_msg_create_validator : MsgCreateValidator → Outcome Bytes
encode_msg_create_validator m = do
  let desc = encode_description m.description
  comm ← encode_commission m.commission
  min_self ← int_wire m.min_self_delegation (codes "min_self_delegation")
  let cons_any =
      encode_any m.consensus_pub_key_type_url (append_bytes_field [] 1 m.consensus_pub_key)
  value ← encode_coin m.value
  let b1 = append_bytes_field [] 1 desc
  let b2 = append_bytes_field b1 2 comm
  let b3 = append_bytes_field b2 3 min_self
  let b4 = if is_empty m.delegator_address then b3 else append_string_field b3 4 m.delegator_address
  let b5 = if is_empty m.validator_address then b4 else append_string_field b4 5 m.validator_address
  let b6 = append_bytes_field b5 6 cons_any
  ok (append_bytes_field b6 7 value)

-- The loop over `f.Amount`.
unfoldable pub encode_amounts : Bytes → List Coin → Outcome Bytes
encode_amounts b [] = ok b
encode_amounts b (c ∷ cs) = do coin ← encode_coin c; encode_amounts (append_bytes_field b 1 coin) cs

unfoldable pub encode_fee : Fee → Outcome Bytes
encode_fee f = do
  b ← encode_amounts [] f.amount
  let b2 = if f.gas_limit == 0 then b else append_varint_field b 2 f.gas_limit
  let b3 = if is_empty f.payer then b2 else append_string_field b2 3 f.payer
  ok (if is_empty f.granter then b3 else append_string_field b3 4 f.granter)

unfoldable pub encode_signer_info : SignerInfo → Bytes
encode_signer_info s =
    let pub_key_msg = append_bytes_field [] 1 s.pub_key in
    let pub_key_any = encode_any s.pub_key_type_url pub_key_msg in
    let single = append_varint_field [] 1 sign_mode_direct in
    let mode_info = append_bytes_field [] 1 single in
    let b1 = append_bytes_field [] 1 pub_key_any in
    let b2 = append_bytes_field b1 2 mode_info in
    if s.sequence == 0 then b2 else append_varint_field b2 3 s.sequence

unfoldable pub encode_auth_info : ParsedGentx → Outcome Bytes
encode_auth_info g = do
  let si = encode_signer_info g.signer
  fee ← encode_fee g.fee
  let b1 = append_bytes_field [] 1 si
  ok (append_bytes_field b1 2 fee)

unfoldable pub encode_tx_body : ParsedGentx → Outcome Bytes
encode_tx_body g = do
  msg_bytes ← encode_msg_create_validator g.msg
  let msg_any = encode_any msg_create_validator_type_url msg_bytes
  let b1 = append_bytes_field [] 1 msg_any
  let b2 = if is_empty g.memo then b1 else append_string_field b1 2 g.memo
  ok (if g.timeout_height == 0 then b2 else append_varint_field b2 3 g.timeout_height)

unfoldable pub direct_sign_bytes : ParsedGentx → Bytes → ℕ → Outcome Bytes
direct_sign_bytes g chain_id account_number = do
  require (bytes_eq g.signer.mode sign_mode_direct_name) (unsupported_mode g.signer.mode)
  body_bytes ← encode_tx_body g
  auth_bytes ← encode_auth_info g
  let b1 = append_bytes_field [] 1 body_bytes
  let b2 = append_bytes_field b1 2 auth_bytes
  let b3 = if is_empty chain_id then b2 else append_string_field b2 3 chain_id
  ok (if account_number == 0 then b3 else append_varint_field b3 4 account_number)
