-- ===== src/Decode.antt =====
-- gentxvalidate/decode.go: the JSON document and what Decode makes of it. encoding/json's Unmarshal into
-- the document's types, and base64, are parameters; their errors are texts.
pub mod Uints
pub mod WellFormed
use seedward_libs.Base.{
  ℕ, ◌+◌, ◌-◌, ◌*◌, ◌%◌, ◌^◌, Bool, true, false, not, ◌&&◌, ◌||◌, List, [], ◌∷◌, Option, none, some,
  Bytes, codes, length, is_empty, ltb, leb, ◌==◌, bytes_eq, if◌then◌else◌,
}
use seedward_libs.Errors.{
  Reply, Outcome, ok, err, ◌>>=◌, ◌>>◌, require, wrap, parse_gentx_json, legacy_std_tx,
  message_count, signer_info_count, signature_count, extension_options, parse_message, message_type,
  consensus_pubkey_encoding, account_pubkey_encoding, signature_encoding, multisig_without_keys,
  multisig_threshold, multisig_without_modes, bitarray_encoding, component_pubkey_encoding,
  uint_syntax, uint_range,
}
use seedward_libs.Gentx.{
  Description, CommissionRates, Coin, MsgCreateValidator, MultisigMember, MultisigSigner,
  SignerInfo, Fee, ParsedGentx, msg_create_validator_type_url, legacy_amino_pub_key_type_url,
}
use seedward_libs.Numbers.{is_digit}
use seedward_libs.Multisig.{index}

pub record AnyKeyJson : Type 0 where
  pub type_url : Bytes
  pub key : Bytes

pub record MsgCreateValidatorJson : Type 0 where
  pub type_url : Bytes
  pub description : Description
  pub commission : CommissionRates
  pub min_self_delegation : Bytes
  pub delegator_address : Bytes
  pub validator_address : Bytes
  pub pub_key : AnyKeyJson
  pub value : Coin

pub record SignerPubKeyJson : Type 0 where
  pub type_url : Bytes
  pub key : Bytes
  pub threshold : ℕ
  pub public_keys : List AnyKeyJson

-- single.mode, multi.bitarray.extra_bits_stored, multi.bitarray.elems, multi.mode_infos
mutual
  pub data ModeInfoJson : Type 0 where
    mode_info : Bytes → ℕ → Bytes → ModeInfosJson → ModeInfoJson

  pub data ModeInfosJson : Type 0 where
    no_mode_infos : ModeInfosJson
    more_mode_infos : ModeInfoJson → ModeInfosJson → ModeInfosJson

pub record SignerInfoJson : Type 0 where
  pub public_key : SignerPubKeyJson
  pub mode_info_of : ModeInfoJson
  pub sequence : Bytes

pub record GentxJson : Type 0 where
  pub legacy_type : Bytes
  pub legacy_value : Bytes
  pub messages : List Bytes
  pub memo : Bytes
  pub timeout_height : Bytes
  pub extension_opts : List Bytes
  pub non_critical_extension_opts : List Bytes
  pub signer_infos : List SignerInfoJson
  pub amount : List Coin
  pub gas_limit : Bytes
  pub payer : Bytes
  pub granter : Bytes
  pub signatures : List Bytes

-- json.Unmarshal into the two documents, and base64.StdEncoding.DecodeString
pub record Readers : Type 0 where
  pub unmarshal_gentx : Bytes → Reply GentxJson
  pub unmarshal_message : Bytes → Reply MsgCreateValidatorJson
  pub decode_base64 : Bytes → Reply Bytes

abbrev pub single_mode : ModeInfoJson → Bytes
single_mode (mode_info mode extra elems infos) = mode

abbrev pub multi_extra_bits : ModeInfoJson → ℕ
multi_extra_bits (mode_info mode extra elems infos) = extra

abbrev pub multi_elems : ModeInfoJson → Bytes
multi_elems (mode_info mode extra elems infos) = elems

abbrev pub multi_mode_infos : ModeInfoJson → ModeInfosJson
multi_mode_infos (mode_info mode extra elems infos) = infos

-- The loop that collects the modes.
unfoldable pub modes_of : ModeInfosJson → List Bytes
modes_of no_mode_infos = []
modes_of (more_mode_infos m ms) = single_mode m ∷ modes_of ms

-- maxUint64/10 + 1
abbrev pub uint_cutoff : ℕ
uint_cutoff = 1844674407370955162

-- The loop of strconv.ParseUint(s, 10, 64), in uint64 arithmetic.
unfoldable pub parse_digits : ℕ → Bytes → Bytes → Bytes → Outcome ℕ
parse_digits n [] s field = ok n
parse_digits n (c ∷ rest) s field =
    let n1 = (n * 10 % 2 ^ 64 + (c - b'0')) % 2 ^ 64 in
    let next = parse_digits n1 rest s field in
    if not (is_digit c)
    then err (uint_syntax field s)
    else if leb uint_cutoff n
    then err (uint_range field s)
    else if ltb n1 (n * 10 % 2 ^ 64)
    then err (uint_range field s)
    else next

unfoldable pub parse_uint : Bytes → Bytes → Outcome ℕ
unfolding parse_digits
parse_uint s field = if is_empty s then ok 0 else parse_digits 0 s s field

module _ (r : Readers) where
  -- The loop over the component keys.
  unfoldable pub decode_members : List AnyKeyJson → Outcome (List MultisigMember)
  decode_members [] = ok []
  decode_members (k ∷ ks) = do
    pk ← wrap component_pubkey_encoding (r.decode_base64 k.key)
    rest ← decode_members ks
    ok (record { pub_key_type_url = k.type_url; pub_key = pk } ∷ rest)

  unfoldable pub decode_multisig_signer : SignerInfoJson → Outcome MultisigSigner
  unfolding decode_members modes_of
  decode_multisig_signer si = do
    let pub_json = si.public_key
    let keys = length pub_json.public_keys
    let modes = modes_of (multi_mode_infos si.mode_info_of)
    require (not (keys == 0)) multisig_without_keys
    require (leb 1 pub_json.threshold && leb pub_json.threshold keys)
        (multisig_threshold pub_json.threshold keys)
    require (not (length modes == 0)) multisig_without_modes
    elems ← wrap bitarray_encoding (r.decode_base64 (multi_elems si.mode_info_of))
    members ← decode_members pub_json.public_keys
    ok (record {
      threshold = pub_json.threshold;
      members = members;
      modes = modes;
      bitarray_elems = elems;
      extra_bits_stored = multi_extra_bits si.mode_info_of;
    })

  unfoldable pub decode_signer_info : SignerInfoJson → Outcome SignerInfo
  unfolding parse_uint decode_multisig_signer
  decode_signer_info si = do
    sequence ← parse_uint si.sequence (codes "sequence")
    let type_url = si.public_key.type_url
    let single = do
      pk ← wrap account_pubkey_encoding (r.decode_base64 si.public_key.key)
      ok (record {
        pub_key_type_url = type_url;
        pub_key = pk;
        mode = single_mode si.mode_info_of;
        sequence = sequence;
        multisig = none;
      })
    let several = do
      ms ← decode_multisig_signer si
      mode ← index ms.modes 0
      ok (record {
        pub_key_type_url = type_url;
        pub_key = [];
        mode = mode;
        sequence = sequence;
        multisig = some ms;
      })
    if bytes_eq type_url legacy_amino_pub_key_type_url then several else single

  unfoldable pub decode : Bytes → Outcome ParsedGentx
  unfolding decode_signer_info
  decode document = do
    raw ← wrap parse_gentx_json (r.unmarshal_gentx document)
    require (is_empty raw.legacy_type || is_empty raw.legacy_value) (legacy_std_tx raw.legacy_type)
    require (length raw.messages == 1) (message_count (length raw.messages))
    require (length raw.signer_infos == 1) (signer_info_count (length raw.signer_infos))
    require (length raw.signatures == 1) (signature_count (length raw.signatures))
    require (is_empty raw.extension_opts && is_empty raw.non_critical_extension_opts)
        extension_options
    message ← index raw.messages 0
    msg ← wrap parse_message (r.unmarshal_message message)
    require (bytes_eq msg.type_url msg_create_validator_type_url) (message_type msg.type_url)
    cons_pub_key ← wrap consensus_pubkey_encoding (r.decode_base64 msg.pub_key.key)
    signer_info ← index raw.signer_infos 0
    signer ← decode_signer_info signer_info
    signature ← index raw.signatures 0
    sig ← wrap signature_encoding (r.decode_base64 signature)
    timeout_height ← parse_uint raw.timeout_height (codes "timeout_height")
    gas_limit ← parse_uint raw.gas_limit (codes "gas_limit")
    ok (record {
      msg = record {
        description = msg.description;
        commission = msg.commission;
        min_self_delegation = msg.min_self_delegation;
        delegator_address = msg.delegator_address;
        validator_address = msg.validator_address;
        consensus_pub_key_type_url = msg.pub_key.type_url;
        consensus_pub_key = cons_pub_key;
        value = msg.value;
      };
      memo = raw.memo;
      timeout_height = timeout_height;
      signer = signer;
      fee = record {
        amount = raw.amount;
        gas_limit = gas_limit;
        payer = raw.payer;
        granter = raw.granter;
      };
      signature = sig;
    })
