-- ===== src/Examples/Signing.antt =====
-- The theorems on amino sign bytes, the sign modes, RunAll and the browser's functions at sample gentxs.
use seedward_libs.Base.{
  ℕ, ◌++◌, zero, suc, IsByte, arith, true, false, [], ◌≡◌, refl, ◌⊎◌, none, Bytes, codes, replicate,
  All, bytes_eq,
}
use seedward_libs.Base64.{encode}
use seedward_libs.Json.{marshal, escape_ascii}
use seedward_libs.Numbers.Format.{format_uint}
use seedward_libs.Amino.{
  optional_field, amino_sign_bytes, amino_consensus_key_name, verify_amino_json,
}
use seedward_libs.Amino.Accept.{IsAminoSigned, verify_amino_json_cases}
use seedward_libs.Amino.Unique.{
  IsAmino, amino_bytes, IsWritable, SameAmino, amino_sign_bytes_cases, amino_sign_bytes_unique,
  amino_sign_bytes-same,
}
use seedward_libs.Errors.{Error, ok, err}
use seedward_libs.Gentx.{ParsedGentx, sign_mode_amino_json_name}
use seedward_libs.Report.{Decides}
use seedward_libs.Samples.{gentx_at, launch, lenient}
use seedward_libs.SignMode.{check_signature}
use seedward_libs.SignMode.Decision.{mode_invariant, IsProperlySigned, check_signature-Decides}
use seedward_libs.Utf8.{decode_rune, steps, valid_string}

-- A gentx with sign mode SIGN_MODE_LEGACY_AMINO_JSON, and a granter of its fee.
abbrev amino_gentx : Bytes → ParsedGentx
amino_gentx granter =
    let g = gentx_at (codes "0.1") in
    record {
      msg = g.msg;
      memo = g.memo;
      timeout_height = 0;
      signer = record {
        pub_key_type_url = g.signer.pub_key_type_url;
        pub_key = g.signer.pub_key;
        mode = sign_mode_amino_json_name;
        sequence = 7;
        multisig = none;
      };
      fee = record { amount = g.fee.amount; gas_limit = 200000; payer = []; granter = granter };
      signature = g.signature;
    }

sevens : (n : ℕ) → All IsByte (replicate n 7)
sevens zero = tt
sevens (suc n) = (omega arith, sevens n)

amino_gentx-IsWritable : (granter : Bytes) → IsWritable (amino_gentx granter)
unfolding valid_string steps decode_rune
amino_gentx-IsWritable granter = record {
  texts = record {
    moniker = refl;
    identity = refl;
    website = refl;
    security_contact = refl;
    details = refl;
    rate = refl;
    max_rate = refl;
    max_change_rate = refl;
    min_self_delegation = refl;
    delegator_address = refl;
    validator_address = refl;
    value = (refl, refl);
    memo = refl;
    fee = tt;
  };
  numbers = record {
    timeout_height = omega arith;
    sequence = omega arith;
    gas_limit = omega arith;
  };
  key_bytes = sevens 32;
}

-- The granter is not in the sign bytes.
sample_signs :
    (granter : Bytes)
    → amino_sign_bytes (amino_gentx granter) (codes "h") 0
      ≡ ok (amino_bytes (amino_gentx []) (codes "h") 0)
unfolding amino_sign_bytes amino_consensus_key_name bytes_eq
sample_signs granter = refl

amino_sign_bytes_unique_example :
    (codes "h" ≡ codes "h") × (Path ℕ 0 0) × SameAmino (amino_gentx []) (amino_gentx (codes "g"))
unfolding valid_string steps decode_rune
amino_sign_bytes_unique_example =
    amino_sign_bytes_unique (amino_gentx []) (amino_gentx (codes "g")) (codes "h") (codes "h") 0 0
      (amino_bytes (amino_gentx []) (codes "h") 0) (amino_gentx-IsWritable [])
      (amino_gentx-IsWritable (codes "g")) refl refl (omega arith) (omega arith) (sample_signs [])
      (sample_signs (codes "g"))

amino_sign_bytes-same_example :
    amino_sign_bytes (amino_gentx (codes "g")) (codes "h") 0
    ≡ ok (amino_bytes (amino_gentx []) (codes "h") 0)
amino_sign_bytes-same_example =
    amino_sign_bytes-same (amino_gentx []) (amino_gentx (codes "g")) (codes "h") 0
      (amino_bytes (amino_gentx []) (codes "h") 0)
      (record {
        description = refl;
        commission = refl;
        min_self_delegation = refl;
        delegator_address = refl;
        validator_address = refl;
        consensus_key_type = refl;
        consensus_key = refl;
        value = refl;
        memo = refl;
        timeout_height = refl;
        fee_amount = refl;
        gas_limit = refl;
        sequence = refl;
        mode = refl;
      })
      (sample_signs [])

amino_sign_bytes_cases_example :
    (IsAmino (amino_gentx [])
      × (amino_sign_bytes (amino_gentx []) (codes "h") 0
          ≡ ok (amino_bytes (amino_gentx []) (codes "h") 0)))
    ⊎ ((¬ IsAmino (amino_gentx []))
        × (e : Error) × (amino_sign_bytes (amino_gentx []) (codes "h") 0 ≡ err e))
amino_sign_bytes_cases_example = amino_sign_bytes_cases (amino_gentx []) (codes "h") 0

verify_amino_json_cases_example :
    let g = amino_gentx [] in
    (IsAminoSigned lenient g (codes "h") 0 × (verify_amino_json lenient g (codes "h") 0 ≡ ok true))
    ⊎ ((¬ IsAminoSigned lenient g (codes "h") 0)
        × ((verify_amino_json lenient g (codes "h") 0 ≡ ok false)
            ⊎ ((e : Error) × (verify_amino_json lenient g (codes "h") 0 ≡ err e))))
verify_amino_json_cases_example = verify_amino_json_cases lenient (amino_gentx []) (codes "h") 0 tt

check_signature-Decides_example :
    Decides
      (mode_invariant sign_mode_amino_json_name)
      (IsProperlySigned lenient (amino_gentx []) launch.chain_id)
      (check_signature lenient (amino_gentx []) launch)
check_signature-Decides_example = check_signature-Decides lenient (amino_gentx []) launch tt

-- The sign bytes in full.
sample_text :
    amino_bytes (amino_gentx []) (codes "h") 0
    ≡ codes "{\"account_number\":\"0\",\"chain_id\":\"h\",\"fee\":{\"amount\":[],\"gas"
      ++ codes "\":\"200000\"},\"memo\":\"memo\",\"msgs\":[{\"type\":\"cosmos-sdk/MsgCre"
      ++ codes "ateValidator\",\"value\":{\"commission\":{\"max_change_rate\":\"0.01"
      ++ codes "\",\"max_rate\":\"0.2\",\"rate\":\"0.1\"},\"description\":{\"moniker\":\"n"
      ++ codes "ode\"},\"min_self_delegation\":\"1\",\"pubkey\":{\"type\":\"tendermint"
      ++ codes "/PubKeyEd25519\",\"value\":\"BwcHBwcHBwcHBwcHBwcHBwcHBwcHBwcHBwc"
      ++ codes "HBwcHBwc=\"},\"validator_address\":\"cosmosvaloper\",\"value\":{\"am"
      ++ codes "ount\":\"1000\",\"denom\":\"uatom\"}}}],\"sequence\":\"7\"}"
unfolding marshal escape_ascii format_uint encode optional_field decode_rune
sample_text = refl
