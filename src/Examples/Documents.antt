-- ===== src/Examples/Documents.antt =====
-- The theorems on Decode and RunLight at a sample document.
use seedward_libs.Base.{
  ℕ, ◌<◌, ◌^◌, List, [], ◌∷◌, ◌≡◌, ◌⊎◌, ◌↔◌, true, codes, replicate, bytes_eq, arith, refl, Bytes,
  some, if◌then◌else◌,
}
use seedward_libs.Errors.{Error, reply, ok, err, panic}
use seedward_libs.Errors.Safely.{Safely}
use seedward_libs.Gentx.{
  ParsedGentx, Params, msg_create_validator_type_url, legacy_amino_pub_key_type_url,
  secp256k1_pub_key_type_url, sign_mode_amino_json_name,
}
use seedward_libs.Decode.{
  MsgCreateValidatorJson, mode_info, no_mode_infos, more_mode_infos, GentxJson, Readers, parse_uint,
  parse_digits, decode_members, decode_multisig_signer, decode_signer_info, modes_of, decode,
}
use seedward_libs.Amino.Accept.{HasEnoughBits}
use seedward_libs.Multisig.{bit_count}
use seedward_libs.Multisig.Panics.{IsShort}
use seedward_libs.Runner.All.{run_all-PassesAll, run_all-panic}
use seedward_libs.SignMode.Decision.{IsProperlySigned}
use seedward_libs.Wasm.{Browser, runner}
use seedward_libs.Wasm.Surfaces.{Shows, Surfaces, runner-Surfaces}
use seedward_libs.Decode.Uints.{parse_uint_cases}
use seedward_libs.Decode.WellFormed.{IsWellFormed, decode-Safely}
use seedward_libs.Numbers.Digits.{AllDigits, digits_value}
use seedward_libs.Report.{Result, all_ok}
use seedward_libs.Runner.{run_light, run_all}
use seedward_libs.Runner.Passes.{PassesLight, run_light-PassesLight, same_value}
use seedward_libs.Samples.{gentx_at, launch, lenient, multisig_at}

-- A document with a multisig of `keys` keys, of which the first has signed, and with `extra` extra bits.
abbrev document_at : ℕ → ℕ → GentxJson
document_at keys extra = record {
  legacy_type = [];
  legacy_value = [];
  messages = codes "message" ∷ [];
  memo = codes "memo";
  timeout_height = [];
  extension_opts = [];
  non_critical_extension_opts = [];
  signer_infos =
      record {
        public_key = record {
          type_url = legacy_amino_pub_key_type_url;
          key = [];
          threshold = 1;
          public_keys =
              replicate keys
                (record { type_url = secp256k1_pub_key_type_url; key = replicate 33 2 });
        };
        mode_info_of = mode_info [] extra (0x80 ∷ []) (
            more_mode_infos (mode_info sign_mode_amino_json_name 0 [] no_mode_infos) no_mode_infos);
        sequence = codes "7";
      }
      ∷ [];
  amount = [];
  gas_limit = codes "200000";
  payer = [];
  granter = [];
  signatures = (10 ∷ 64 ∷ replicate 64 1) ∷ [];
}

abbrev sample_message : MsgCreateValidatorJson
sample_message =
    let m = (gentx_at (codes "0.1")).msg in
    record {
      type_url = msg_create_validator_type_url;
      description = m.description;
      commission = m.commission;
      min_self_delegation = m.min_self_delegation;
      delegator_address = m.delegator_address;
      validator_address = m.validator_address;
      pub_key = record { type_url = m.consensus_pub_key_type_url; key = m.consensus_pub_key };
      value = m.value;
    }

abbrev readers_at : ℕ → ℕ → Readers
readers_at keys extra = record {
  unmarshal_gentx = λ b. reply (document_at keys extra);
  unmarshal_message = λ b. reply sample_message;
  decode_base64 = λ b. reply b;
}

abbrev sample_readers : Readers
sample_readers = readers_at 1 1

decode-Safely_example : Safely IsWellFormed (decode sample_readers (codes "{}"))
decode-Safely_example = decode-Safely sample_readers (codes "{}")

run_light-PassesLight_example :
    (rs : List Result) × (run_light lenient sample_readers (codes "{}") launch ≡ ok rs)
    × ((all_ok rs ≡ true) ↔ (
        (g : ParsedGentx) × (decode sample_readers (codes "{}") ≡ ok g)
        × IsWellFormed g
        × PassesLight lenient g launch))
run_light-PassesLight_example = run_light-PassesLight lenient sample_readers (codes "{}") launch

parse_uint_cases_example :
    ((AllDigits (codes "18446744073709551616")
        × (digits_value 0 (codes "18446744073709551616") < 2 ^ 64))
      × (parse_uint (codes "18446744073709551616") (codes "gas_limit")
          ≡ ok (digits_value 0 (codes "18446744073709551616"))))
    ⊎ ((¬ (
          AllDigits (codes "18446744073709551616")
          × (digits_value 0 (codes "18446744073709551616") < 2 ^ 64)))
        × (e : Error) × (parse_uint (codes "18446744073709551616") (codes "gas_limit") ≡ err e))
parse_uint_cases_example = parse_uint_cases (codes "18446744073709551616") (codes "gas_limit")

-- What decode gives for the document.
abbrev multisig_gentx : ℕ → ℕ → ParsedGentx
multisig_gentx keys extra =
    let g = gentx_at (codes "0.1") in
    record {
      msg = g.msg;
      memo = codes "memo";
      timeout_height = 0;
      signer = record {
        pub_key_type_url = legacy_amino_pub_key_type_url;
        pub_key = [];
        mode = sign_mode_amino_json_name;
        sequence = 7;
        multisig = some (multisig_at keys (0x80 ∷ []) extra);
      };
      fee = record { amount = []; gas_limit = 200000; payer = []; granter = [] };
      signature = 10 ∷ 64 ∷ replicate 64 1;
    }

decodes_one : decode (readers_at 1 1) (codes "{}") ≡ ok (multisig_gentx 1 1)
unfolding decode decode_signer_info decode_multisig_signer decode_members modes_of parse_uint
    parse_digits bytes_eq
decodes_one = refl

decodes_nine : decode (readers_at 9 9) (codes "{}") ≡ ok (multisig_gentx 9 9)
unfolding decode decode_signer_info decode_multisig_signer decode_members modes_of parse_uint
    parse_digits bytes_eq
decodes_nine = refl

enough_bits :
    (g : ParsedGentx)
    → decode (readers_at 1 1) (codes "{}") ≡ ok g
    → HasEnoughBits g.signer.multisig
enough_bits g e =
    let same : multisig_gentx 1 1 ≡ g = same_value decodes_one e in
    rw (← same) (λ h. omega (arith, h.short))

run_all-PassesAll_example :
    (rs : List Result) × (run_all lenient sample_readers (codes "{}") launch ≡ ok rs)
    × ((all_ok rs ≡ true) ↔ (
        (g : ParsedGentx) × (decode sample_readers (codes "{}") ≡ ok g)
        × IsWellFormed g
        × PassesLight lenient g launch
        × IsProperlySigned lenient g launch.chain_id))
run_all-PassesAll_example = run_all-PassesAll lenient sample_readers (codes "{}") launch enough_bits

nine-IsShort : IsShort (multisig_at 9 (0x80 ∷ []) 9)
unfolding bit_count
nine-IsShort = record { modes = (refl, tt); bits = refl; short = omega arith }

run_all-panic_example : run_all lenient (readers_at 9 9) (codes "{}") launch ≡ panic
run_all-panic_example =
    run_all-panic lenient (readers_at 9 9) (codes "{}") launch (multisig_gentx 9 9)
      (multisig_at 9 (0x80 ∷ []) 9) decodes_nine (λ e. cc)
      (record { mode = refl; consensus_key_type = refl }) refl nine-IsShort

-- A JavaScript value is its string here, and any string is the params' JSON.
abbrev sample_browser : Browser
sample_browser = record {
  JsValue = Bytes;
  to_string = λ b. b;
  unmarshal_params = λ b. reply launch;
  marshal_results = λ rs. reply (if all_ok rs then codes "passed" else codes "failed");
}

-- The browser survives the panic.
runner-Surfaces_example :
    let run = λ (raw : Bytes). λ (p : Params). run_all lenient (readers_at 9 9) raw p in
    let args = codes "{}" ∷ codes "{}" ∷ [] in
    (results : List Result) × Shows sample_browser (runner sample_browser run args) results
    × Surfaces sample_browser run args results
runner-Surfaces_example =
    runner-Surfaces sample_browser (λ raw p. run_all lenient (readers_at 9 9) raw p)
      (codes "{}" ∷ codes "{}" ∷ [])
