-- ===== src/SignDoc/Layout.antt =====
-- The messages of a sign doc, field by field: each encoder writes exactly the listed fields, if the
-- bytes are fewer than 2 ^ 64.
use mathlib.Core.List.{map}
use seedward_libs.Base.{ℕ, ◌<◌, ◌^◌, arith, List, [], ◌∷◌, ◌++◌, append-nil, append_assoc, Bytes}
use seedward_libs.Gentx.{
  msg_create_validator_type_url, Description, CommissionRates, Coin, MsgCreateValidator, SignerInfo,
  Fee, ParsedGentx, HasU64s,
}
use seedward_libs.Numbers.Decimal.{wire}
use seedward_libs.SignDoc.{sign_mode_direct, encode_any, encode_description, encode_signer_info}
use seedward_libs.SignDoc.Success.{
  coin_bytes, commission_bytes, msg_bytes, amounts_bytes, fee_bytes, body_bytes, auth_bytes,
  doc_bytes,
}
use seedward_libs.Wire.{append_varint_field, append_bytes_field}
use seedward_libs.Wire.Fields.{Field, bytes_field}
use seedward_libs.Wire.Messages.{
  WritesIf, WritesIf-nil, WritesIf-bytes, WritesIf-opt_string, WritesIf-opt_bytes,
  WritesIf-opt_varint, opt_bytes, opt_varint,
}

abbrev pub any_fields : Bytes → Bytes → List Field
any_fields type_url value = ([] ++ opt_bytes 1 type_url) ++ opt_bytes 2 value

pub any-WritesIf : (t v : Bytes) → WritesIf (encode_any t v) (any_fields t v)
unfolding encode_any
any-WritesIf t v =
    WritesIf-opt_bytes _ _ 2 v (omega arith)
      (WritesIf-opt_string [] [] 1 t (omega arith) WritesIf-nil)

abbrev pub coin_fields : Coin → List Field
coin_fields c = ([] ++ opt_bytes 1 c.denom) ++ bytes_field 2 c.amount ∷ []

pub coin-WritesIf : (c : Coin) → WritesIf (coin_bytes c) (coin_fields c)
unfolding coin_bytes
coin-WritesIf c =
    WritesIf-bytes _ _ 2 c.amount (omega arith)
      (WritesIf-opt_string [] [] 1 c.denom (omega arith) WritesIf-nil)

abbrev pub commission_fields : CommissionRates → List Field
commission_fields c =
    (([] ++ bytes_field 1 (wire c.rate) ∷ []) ++ bytes_field 2 (wire c.max_rate) ∷ [])
    ++ bytes_field 3 (wire c.max_change_rate) ∷ []

pub commission-WritesIf :
    (c : CommissionRates) → WritesIf (commission_bytes c) (commission_fields c)
unfolding commission_bytes
commission-WritesIf c = WritesIf-bytes _ _ 3 (wire c.max_change_rate) (omega arith) (
    WritesIf-bytes _ _ 2 (wire c.max_rate) (omega arith)
      (WritesIf-bytes [] [] 1 (wire c.rate) (omega arith) WritesIf-nil))

abbrev pub description_fields : Description → List Field
description_fields d =
    (((([] ++ opt_bytes 1 d.moniker) ++ opt_bytes 2 d.identity) ++ opt_bytes 3 d.website)
      ++ opt_bytes 4 d.security_contact)
    ++ opt_bytes 5 d.details

pub description-WritesIf :
    (d : Description) → WritesIf (encode_description d) (description_fields d)
unfolding encode_description
description-WritesIf d = WritesIf-opt_string _ _ 5 d.details (omega arith) (
    WritesIf-opt_string _ _ 4 d.security_contact (omega arith) (
      WritesIf-opt_string _ _ 3 d.website (omega arith) (
        WritesIf-opt_string _ _ 2 d.identity (omega arith)
          (WritesIf-opt_string [] [] 1 d.moniker (omega arith) WritesIf-nil))))

pub key-WritesIf : (k : Bytes) → WritesIf (append_bytes_field [] 1 k) ([] ++ bytes_field 1 k ∷ [])
key-WritesIf k = WritesIf-bytes [] [] 1 k (omega arith) WritesIf-nil

abbrev pub msg_fields : MsgCreateValidator → List Field
msg_fields m =
    (((((([] ++ bytes_field 1 (encode_description m.description) ∷ [])
              ++ bytes_field 2 (commission_bytes m.commission) ∷ [])
            ++ bytes_field 3 m.min_self_delegation ∷ [])
          ++ opt_bytes 4 m.delegator_address)
        ++ opt_bytes 5 m.validator_address)
      ++ bytes_field 6
          (encode_any m.consensus_pub_key_type_url (append_bytes_field [] 1 m.consensus_pub_key))
        ∷ [])
    ++ bytes_field 7 (coin_bytes m.value) ∷ []

pub msg-WritesIf : (m : MsgCreateValidator) → WritesIf (msg_bytes m) (msg_fields m)
unfolding msg_bytes
msg-WritesIf m = WritesIf-bytes _ _ 7 (coin_bytes m.value) (omega arith) (
    WritesIf-bytes _ _ 6 _ (omega arith) (
      WritesIf-opt_string _ _ 5 m.validator_address (omega arith) (
        WritesIf-opt_string _ _ 4 m.delegator_address (omega arith) (
          WritesIf-bytes _ _ 3 m.min_self_delegation (omega arith) (
            WritesIf-bytes _ _ 2 (commission_bytes m.commission) (omega arith) (
              WritesIf-bytes [] [] 1 (encode_description m.description) (omega arith)
                WritesIf-nil))))))

abbrev pub amount_fields : List Coin → List Field
amount_fields = map (λ c. bytes_field 1 (coin_bytes c))

pub amounts-WritesIf :
    (b : Bytes) (fs : List Field) (cs : List Coin)
    → WritesIf b fs
    → WritesIf (amounts_bytes b cs) (fs ++ amount_fields cs)
unfolding amounts_bytes
amounts-WritesIf b fs [] w = rw (append-nil fs) w
amounts-WritesIf b fs (c ∷ cs) w =
    rw (← append_assoc fs (bytes_field 1 (coin_bytes c) ∷ []) (amount_fields cs)) (
      amounts-WritesIf (append_bytes_field b 1 (coin_bytes c))
        (fs ++ bytes_field 1 (coin_bytes c) ∷ []) cs
        (WritesIf-bytes b fs 1 (coin_bytes c) (omega arith) w))

abbrev pub fee_fields : Fee → List Field
fee_fields f =
    ((([] ++ amount_fields f.amount) ++ opt_varint 2 f.gas_limit) ++ opt_bytes 3 f.payer)
    ++ opt_bytes 4 f.granter

pub fee-WritesIf : (f : Fee) → f.gas_limit < 2 ^ 64 → WritesIf (fee_bytes f) (fee_fields f)
unfolding fee_bytes
fee-WritesIf f h = WritesIf-opt_string _ _ 4 f.granter (omega arith) (
    WritesIf-opt_string _ _ 3 f.payer (omega arith) (
      WritesIf-opt_varint _ _ 2 f.gas_limit (omega arith) h
        (amounts-WritesIf [] [] f.amount WritesIf-nil)))

-- ModeInfo{ single=1 } around Single{ mode=1 }.
abbrev pub mode_info : Bytes
mode_info = append_bytes_field [] 1 (append_varint_field [] 1 sign_mode_direct)

abbrev pub signer_fields : SignerInfo → List Field
signer_fields s =
    (([] ++ bytes_field 1 (encode_any s.pub_key_type_url (append_bytes_field [] 1 s.pub_key)) ∷ [])
      ++ bytes_field 2 mode_info ∷ [])
    ++ opt_varint 3 s.sequence

pub signer-WritesIf :
    (s : SignerInfo) → s.sequence < 2 ^ 64 → WritesIf (encode_signer_info s) (signer_fields s)
unfolding encode_signer_info
signer-WritesIf s h = WritesIf-opt_varint _ _ 3 s.sequence (omega arith) h (
    WritesIf-bytes _ _ 2 mode_info (omega arith)
      (WritesIf-bytes [] [] 1 _ (omega arith) WritesIf-nil))

abbrev pub body_fields : ParsedGentx → List Field
body_fields g =
    (([] ++ bytes_field 1 (encode_any msg_create_validator_type_url (msg_bytes g.msg)) ∷ [])
      ++ opt_bytes 2 g.memo)
    ++ opt_varint 3 g.timeout_height

pub body-WritesIf : (g : ParsedGentx) → HasU64s g → WritesIf (body_bytes g) (body_fields g)
unfolding body_bytes
body-WritesIf g h = WritesIf-opt_varint _ _ 3 g.timeout_height (omega arith) h.timeout_height (
    WritesIf-opt_string _ _ 2 g.memo (omega arith)
      (WritesIf-bytes [] [] 1 _ (omega arith) WritesIf-nil))

abbrev pub auth_fields : ParsedGentx → List Field
auth_fields g =
    ([] ++ bytes_field 1 (encode_signer_info g.signer) ∷ []) ++ bytes_field 2 (fee_bytes g.fee) ∷ []

pub auth-WritesIf : (g : ParsedGentx) → WritesIf (auth_bytes g) (auth_fields g)
unfolding auth_bytes
auth-WritesIf g =
    WritesIf-bytes _ _ 2 (fee_bytes g.fee) (omega arith)
      (WritesIf-bytes [] [] 1 (encode_signer_info g.signer) (omega arith) WritesIf-nil)

abbrev pub doc_fields : ParsedGentx → Bytes → ℕ → List Field
doc_fields g chain_id account_number =
    ((([] ++ bytes_field 1 (body_bytes g) ∷ []) ++ bytes_field 2 (auth_bytes g) ∷ [])
      ++ opt_bytes 3 chain_id)
    ++ opt_varint 4 account_number

pub doc-WritesIf :
    (g : ParsedGentx) (chain_id : Bytes) (account_number : ℕ)
    → account_number < 2 ^ 64
    → WritesIf (doc_bytes g chain_id account_number) (doc_fields g chain_id account_number)
unfolding doc_bytes
doc-WritesIf g c a h = WritesIf-opt_varint _ _ 4 a (omega arith) h (
    WritesIf-opt_string _ _ 3 c (omega arith) (
      WritesIf-bytes _ _ 2 (auth_bytes g) (omega arith)
        (WritesIf-bytes [] [] 1 (body_bytes g) (omega arith) WritesIf-nil)))
