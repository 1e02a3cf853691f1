-- ===== src/Samples.antt =====
-- Sample gentxs, signers and outside code, for the examples of the theorems.
use seedward_libs.Base.{ℕ, true, false, [], ◌∷◌, Bytes, codes, replicate, none}
use seedward_libs.Errors.{reply}
use seedward_libs.External.{External}
use seedward_libs.Gentx.{
  Coin, MultisigMember, MultisigSigner, ParsedGentx, Params, sign_mode_direct_name,
  sign_mode_amino_json_name, secp256k1_pub_key_type_url, ed25519_pub_key_type_url,
}

abbrev pub one_coin : Coin
one_coin = record { denom = codes "uatom"; amount = codes "1000" }

-- A gentx whose rate is written as `rate`.
abbrev pub gentx_at : Bytes → ParsedGentx
gentx_at rate = record {
  msg = record {
    description = record {
      moniker = codes "node";
      identity = [];
      website = [];
      security_contact = [];
      details = [];
    };
    commission = record { rate = rate; max_rate = codes "0.2"; max_change_rate = codes "0.01" };
    min_self_delegation = codes "1";
    delegator_address = [];
    validator_address = codes "cosmosvaloper";
    consensus_pub_key_type_url = ed25519_pub_key_type_url;
    consensus_pub_key = replicate 32 7;
    value = one_coin;
  };
  memo = codes "memo";
  timeout_height = 0;
  signer = record {
    pub_key_type_url = secp256k1_pub_key_type_url;
    pub_key = replicate 33 2;
    mode = sign_mode_direct_name;
    sequence = 0;
    multisig = none;
  };
  fee = record { amount = []; gas_limit = 200000; payer = []; granter = [] };
  signature = replicate 64 1;
}

-- The least gentx that has DIRECT sign bytes, but for its rate.
abbrev pub tiny_at : Bytes → ParsedGentx
tiny_at rate = record {
  msg = record {
    description = record {
      moniker = [];
      identity = [];
      website = [];
      security_contact = [];
      details = [];
    };
    commission = record { rate = rate; max_rate = codes "0"; max_change_rate = codes "0" };
    min_self_delegation = codes "0";
    delegator_address = [];
    validator_address = [];
    consensus_pub_key_type_url = [];
    consensus_pub_key = [];
    value = record { denom = []; amount = codes "0" };
  };
  memo = [];
  timeout_height = 0;
  signer = record {
    pub_key_type_url = [];
    pub_key = [];
    mode = sign_mode_direct_name;
    sequence = 0;
    multisig = none;
  };
  fee = record { amount = []; gas_limit = 0; payer = []; granter = [] };
  signature = [];
}

abbrev pub launch : Params
launch = record {
  chain_id = codes "hub-1";
  bond_denom = codes "uatom";
  bech32_prefix = codes "cosmos";
  min_self_delegation = codes "500";
  min_commission_rate = codes "0.05";
  max_commission_rate = codes "0.3";
  max_commission_change_rate = [];
  max_moniker_len = 0;
}

-- Outside code that accepts every key and signature.
abbrev pub lenient : External
lenient = record {
  PubKey = Unit {0};
  Scalar = Unit {0};
  sha256 = λ b. replicate 32 0;
  ripemd160 = λ b. replicate 20 0;
  parse_pub_key = λ b. reply tt;
  set_byte_slice = λ b. (tt, false);
  verify = λ k r s h. true;
  bech32_decode = λ addr limit. reply (addr, replicate 20 0);
  bech32_encode = λ hrp data5. reply hrp;
  convert_bits = λ b from to pad. reply b;
}

abbrev pub member : MultisigMember
member = record { pub_key_type_url = secp256k1_pub_key_type_url; pub_key = replicate 33 2 }

-- A multisig of `keys` keys with the given bitarray.
abbrev pub multisig_at : ℕ → Bytes → ℕ → MultisigSigner
multisig_at keys elems extra = record {
  threshold = 1;
  members = replicate keys member;
  modes = sign_mode_amino_json_name ∷ [];
  bitarray_elems = elems;
  extra_bits_stored = extra;
}
