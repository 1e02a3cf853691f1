-- ===== src/Gentx.antt =====
-- The data of gentxvalidate: the decoded gentx of decode.go and the launch's Params of params.go.
-- A Go string is its bytes; a uint32 or uint64 is a number below 2 ^ 32 or 2 ^ 64.
use seedward_libs.Base.{ℕ, ◌^◌, ◌<◌, List, Bytes, Option, codes, if◌then◌else◌, leb}

-- "/cosmos.staking.v1beta1.MsgCreateValidator"
abbrev pub msg_create_validator_type_url : Bytes
msg_create_validator_type_url = codes "/cosmos.staking.v1beta1.MsgCreateValidator"

-- Sign modes and key types as they appear in the JSON.
abbrev pub sign_mode_direct_name : Bytes
sign_mode_direct_name = codes "SIGN_MODE_DIRECT"

abbrev pub sign_mode_amino_json_name : Bytes
sign_mode_amino_json_name = codes "SIGN_MODE_LEGACY_AMINO_JSON"

abbrev pub secp256k1_pub_key_type_url : Bytes
secp256k1_pub_key_type_url = codes "/cosmos.crypto.secp256k1.PubKey"

abbrev pub ed25519_pub_key_type_url : Bytes
ed25519_pub_key_type_url = codes "/cosmos.crypto.ed25519.PubKey"

abbrev pub legacy_amino_pub_key_type_url : Bytes
legacy_amino_pub_key_type_url = codes "/cosmos.crypto.multisig.LegacyAminoPubKey"

pub record Description : Type 0 where
  pub moniker : Bytes
  pub identity : Bytes
  pub website : Bytes
  pub security_contact : Bytes
  pub details : Bytes

-- Decimal strings as they appear in the JSON.
pub record CommissionRates : Type 0 where
  pub rate : Bytes
  pub max_rate : Bytes
  pub max_change_rate : Bytes

pub record Coin : Type 0 where
  pub denom : Bytes
  pub amount : Bytes

pub record MsgCreateValidator : Type 0 where
  pub description : Description
  pub commission : CommissionRates
  pub min_self_delegation : Bytes
  pub delegator_address : Bytes
  pub validator_address : Bytes
  pub consensus_pub_key_type_url : Bytes
  pub consensus_pub_key : Bytes
  pub value : Coin

pub record MultisigMember : Type 0 where
  pub pub_key_type_url : Bytes
  pub pub_key : Bytes

-- `extra_bits_stored`, an int, is kept as its 64-bit two's-complement pattern.
pub record MultisigSigner : Type 0 where
  pub threshold : ℕ
  pub members : List MultisigMember
  pub modes : List Bytes
  pub bitarray_elems : Bytes
  pub extra_bits_stored : ℕ

-- `multisig` is `none` for the nil pointer of a single-key signer.
pub record SignerInfo : Type 0 where
  pub pub_key_type_url : Bytes
  pub pub_key : Bytes
  pub mode : Bytes
  pub sequence : ℕ
  pub multisig : Option MultisigSigner

pub record Fee : Type 0 where
  pub amount : List Coin
  pub gas_limit : ℕ
  pub payer : Bytes
  pub granter : Bytes

pub record ParsedGentx : Type 0 where
  pub msg : MsgCreateValidator
  pub memo : Bytes
  pub timeout_height : ℕ
  pub signer : SignerInfo
  pub fee : Fee
  pub signature : Bytes

-- `max_moniker_len`, an int, is kept as its 64-bit two's-complement pattern.
pub record Params : Type 0 where
  pub chain_id : Bytes
  pub bond_denom : Bytes
  pub bech32_prefix : Bytes
  pub min_self_delegation : Bytes
  pub min_commission_rate : Bytes
  pub max_commission_rate : Bytes
  pub max_commission_change_rate : Bytes
  pub max_moniker_len : ℕ

abbrev pub default_max_moniker_len : ℕ
default_max_moniker_len = 70

-- `p.MaxMonikerLen <= 0`: zero, or the sign bit is set.
unfoldable pub max_moniker_len : Params → ℕ
max_moniker_len p =
    if leb p.max_moniker_len 0
    then default_max_moniker_len
    else if leb (2 ^ 63) p.max_moniker_len
    then default_max_moniker_len
    else p.max_moniker_len

-- The uint64 fields of a gentx hold uint64s, as their Go types say.
pub record HasU64s (g : ParsedGentx) : Type 0 where
  pub timeout_height : g.timeout_height < 2 ^ 64
  pub sequence : g.signer.sequence < 2 ^ 64
  pub gas_limit : g.fee.gas_limit < 2 ^ 64
