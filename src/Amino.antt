-- ===== src/Amino.antt =====
-- gentxvalidate/aminosigndoc.go: the SIGN_MODE_LEGACY_AMINO_JSON sign bytes and their verification.
-- The structs to marshal are JSON values with their keys in the order of declaration; a field marked
-- omitempty is left out when it is empty.
pub mod Texts
pub mod Shape
pub mod Parts
pub mod Unique
pub mod Accept
use seedward_libs.Base.{
  ℕ, ◌==◌, Bool, true, false, List, [], ◌∷◌, Option, none, some, Bytes, codes, is_empty, bytes_eq,
  if◌then◌else◌,
}
use seedward_libs.Base64
use seedward_libs.Errors.{Outcome, ok, err, ◌>>=◌, ◌>>◌, require, unsupported_mode, amino_key_name}
use seedward_libs.External.{External}
use seedward_libs.Gentx.{
  Description, CommissionRates, Coin, MultisigSigner, ParsedGentx, sign_mode_amino_json_name,
  ed25519_pub_key_type_url,
}
use seedward_libs.Json.{
  Json, str, arr, obj, Items, no_items, item, Fields, no_fields, field, marshal,
}
use seedward_libs.Multisig.{verify_amino_multisig}
use seedward_libs.Numbers.Format.{format_uint}
use seedward_libs.Verify.{check_single_secp_signer, verify_secp_compact}

abbrev pub msg_create_validator_amino_name : Bytes
msg_create_validator_amino_name = codes "cosmos-sdk/MsgCreateValidator"

-- The map aminoConsensusKeyNames.
unfoldable pub amino_consensus_key_name : Bytes → Option Bytes
amino_consensus_key_name type_url =
    if bytes_eq type_url ed25519_pub_key_type_url
    then some (codes "tendermint/PubKeyEd25519")
    else none

-- A string field, and one with omitempty.
abbrev pub text_field : Bytes → Bytes → Fields → Fields
text_field k s rest = field k (str s) rest

unfoldable pub optional_field : Bytes → Bytes → Fields → Fields
optional_field k s rest = if is_empty s then rest else text_field k s rest

abbrev pub amino_coin : Coin → Json
amino_coin c =
    obj (text_field (codes "amount") c.amount (text_field (codes "denom") c.denom no_fields))

abbrev pub amino_coins : List Coin → Items
amino_coins [] = no_items
amino_coins (c ∷ cs) = item (amino_coin c) (amino_coins cs)

abbrev pub amino_commission : CommissionRates → Json
amino_commission c = obj (
    text_field (codes "max_change_rate") c.max_change_rate
      (text_field (codes "max_rate") c.max_rate (text_field (codes "rate") c.rate no_fields)))

abbrev pub amino_description : Description → Json
amino_description d = obj (
    optional_field (codes "details") d.details (
      optional_field (codes "identity") d.identity (
        optional_field (codes "moniker") d.moniker (
          optional_field (codes "security_contact") d.security_contact
            (optional_field (codes "website") d.website no_fields)))))

abbrev pub amino_pub_key : Bytes → Bytes → Json
amino_pub_key name key =
    obj (text_field (codes "type") name (text_field (codes "value") (Base64.encode key) no_fields))

abbrev pub amino_msg : ParsedGentx → Bytes → Json
amino_msg g name =
    let m = g.msg in
    obj (
      text_field (codes "type") msg_create_validator_amino_name (
        field (codes "value")
          (obj (
            field (codes "commission") (amino_commission m.commission) (
              optional_field (codes "delegator_address") m.delegator_address (
                field (codes "description") (amino_description m.description) (
                  text_field (codes "min_self_delegation") m.min_self_delegation (
                    field (codes "pubkey") (amino_pub_key name m.consensus_pub_key) (
                      optional_field (codes "validator_address") m.validator_address
                        (field (codes "value") (amino_coin m.value) no_fields))))))))
          no_fields))

abbrev pub amino_fee : ParsedGentx → Json
amino_fee g = obj (
    field (codes "amount") (arr (amino_coins g.fee.amount))
      (text_field (codes "gas") (format_uint g.fee.gas_limit) no_fields))

-- The empty string, which omitempty leaves out, stands for no timeout.
abbrev pub timeout_text : ℕ → Bytes
timeout_text height = if height == 0 then [] else format_uint height

-- The message in `msgs` is a json.RawMessage of json.Marshal's output; marshalling copies it, since it
-- is compact and escaped already.
abbrev pub amino_std_sign_doc : ParsedGentx → Bytes → ℕ → Bytes → Json
amino_std_sign_doc g chain_id account_number name = obj (
    text_field (codes "account_number") (format_uint account_number) (
      text_field (codes "chain_id") chain_id (
        field (codes "fee") (amino_fee g) (
          text_field (codes "memo") g.memo (
            field (codes "msgs") (arr (item (amino_msg g name) no_items)) (
              text_field (codes "sequence") (format_uint g.signer.sequence) (
                optional_field (codes "timeout_height") (timeout_text g.timeout_height)
                  no_fields)))))))

unfoldable pub amino_sign_bytes : ParsedGentx → Bytes → ℕ → Outcome Bytes
unfolding amino_consensus_key_name
amino_sign_bytes g chain_id account_number = do
  require (bytes_eq g.signer.mode sign_mode_amino_json_name) (unsupported_mode g.signer.mode)
  elim (amino_consensus_key_name g.msg.consensus_pub_key_type_url) [
    | none ↦ err (amino_key_name g.msg.consensus_pub_key_type_url)
    | some name ↦ ok (marshal (amino_std_sign_doc g chain_id account_number name))
  ]

module _ (x : External) where
  -- VerifyAminoJSON behind the sign bytes: `some` is a signer of several keys.
  abbrev pub verify_signer : ParsedGentx → Option MultisigSigner → Bytes → Outcome Bool
  verify_signer g (some ms) sign_bytes = verify_amino_multisig x ms g.signature sign_bytes
  verify_signer g none sign_bytes =
      check_single_secp_signer g >> verify_secp_compact x g.signer.pub_key g.signature sign_bytes

  unfoldable pub verify_amino_json : ParsedGentx → Bytes → ℕ → Outcome Bool
  verify_amino_json g chain_id account_number = do
    sign_bytes ← amino_sign_bytes g chain_id account_number
    verify_signer g g.signer.multisig sign_bytes
