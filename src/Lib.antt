-- ===== src/Lib.antt =====
-- seedward-libs: the validation of genesis transactions ("gentxs") of the package gentxvalidate.
--
-- A gentx is one validator's signed MsgCreateValidator. The package decodes its JSON into a
-- ParsedGentx and runs independent checks ("invariants") of it against the Params of a launch. The
-- heart is the reconstruction of the bytes that were signed: the DIRECT sign document is written
-- by hand in protobuf's wire format, and the signature is verified over it.
--
-- The parts of the program, and the file that models each:
--   gentxvalidate/protowire.go   Wire: append_uvarint (a loop, by recursion on Acc), append_tag and
--     the field writers append_varint_field, append_bytes_field, append_string_field; uvarint is
--     binary.Uvarint of the standard library. Wire/Uvarint and Wire/Fields relate writing and reading,
--     Wire/Groups describes a varint, Wire/Inversion and Wire/Messages say that a list of fields is determined by its bytes.
--   gentxvalidate/decode.go (types), params.go   Gentx: ParsedGentx and what it holds, Params, and
--     max_moniker_len (maxMonikerLen).
--   gentxvalidate/decode.go (functions)   Decode: the JSON document types, decode (Decode),
--     decode_signer_info, decode_multisig_signer, parse_uint. Decode/Uints says what parse_uint reads,
--     Decode/WellFormed what a decoded gentx is.
--   gentxvalidate/runner.go   Runner: light_checks, run_light, run_all (RunAll); Runner/Passes and
--     Runner/All say when all has passed.
--   gentxvalidate/signdoc.go   Numbers: check_digits, int_wire, legacy_dec_wire (checkDigits, intWire,
--     legacyDecWire) and math/big's SetString, Sign and Cmp; SignDoc: direct_sign_bytes
--     (DirectSignBytes) and the encoders it calls, encode_tx_body to encode_any. Numbers/Digits,
--     Numbers/Decimal and Numbers/Canonical say which numbers the strings stand for; SignDoc/Success
--     says which gentxs have sign bytes, SignDoc/Layout to SignDoc/Unique what the bytes determine.
--   gentxvalidate/verify.go   Verify: check_single_secp_signer, verify_secp_compact, verify_direct.
--   gentxvalidate/multisig.go   Multisig: multisig_address_bytes, bit_count, signer_indices,
--     parse_multi_signature, verify_amino_multisig. Multisig/Envelope, Multisig/Bitarray,
--     Multisig/Accept, Multisig/Complete and Multisig/Panics are about the envelope of signatures, the
--     bitarray, what is accepted, and run-time panics.
--   gentxvalidate/address.go   Address: signer_address_bytes, decode_bech32_address and the others.
--     Address/Account says which account a signer has, Address/Bech32 which texts are its addresses.
--   gentxvalidate/result.go   Report: Result, pass, fail, all_ok (AllOK) and the names of the invariants.
--   gentxvalidate/invariants.go, checkSignatureMode of signmode.go   Invariants: the checks, from
--     check_chain_id (CheckChainID) to check_signature_direct (CheckSignatureDirect), those of the
--     commission in Invariants/Rates. Their specifications are in Invariants/Light, Invariants/Amounts,
--     Invariants/Commission, Invariants/Moniker, Invariants/Operator and Invariants/Signer, stated by
--     Decides of Report; Invariants/Derivation compares the operator check with the functions it calls.
--   gentxvalidate/aminosigndoc.go   Amino: amino_sign_bytes (AminoSignBytes), the structs that it
--     marshals as amino_std_sign_doc to amino_pub_key, verify_amino_json (VerifyAminoJSON). Amino/Texts
--     is about their strings, Amino/Shape, Amino/Parts and Amino/Unique say what the bytes determine,
--     Amino/Accept what is accepted.
--   gentxvalidate/signmode.go   SignMode: sign_modes (signModes), check_signature (CheckSignature);
--     SignMode/Decision says when it passes.
--   canonicaljson/canonicaljson.go   CanonicalJson: canonical_json (Marshal), marshal_for_signing
--     (MarshalForSigning), canonicalise_raw, serialise_object, serialise_array. CanonicalJson/Keys is
--     about the order of keys, CanonicalJson/Maps about the iteration of a map, CanonicalJson/Fuel,
--     CanonicalJson/Stable and CanonicalJson/Signing about the encoding.
--   cmd/gentxvalidate-wasm/main.go   Wasm: runner (runner) and the two functions made of it, error_json
--     (errorJSON); Wasm/Surfaces says what the browser sees.
--   encoding/json, encoding/base64 and strconv of the standard library   Json: marshal (Marshal, of
--     strings, slices and structs), Json/Strings and Json/Values what it determines; Base64: encode
--     (EncodeToString); Numbers/Format: format_uint (FormatUint).
--   unicode/utf8 and unicode of the standard library   Utf8: the runes of a string.
-- Base holds the shared names, lists, Boolean tests and bit lemmas; Errors the outcomes of fallible
-- code; Samples and Examples the sample inputs and the theorems at them.
--
-- How the code is modelled. A string or byte slice is the list of its bytes; a uint32 or uint64 is a
-- number, and shifts and sums that can leave 64 bits are reduced mod 2 ^ 64. An int that may be
-- negative or overflow (ExtraBitsStored, MaxMonikerLen) is its 64-bit two's-complement pattern. A Go
-- pair (value, error) is an Outcome: ok, err with the error's format and arguments, or panic for an
-- index or a slice out of range, or a nil big.Int. fmt's rendering of errors and reasons is not modelled.
-- secp256k1, SHA-256, RIPEMD-160 and bech32 are not in the repository: they are the parameters of
-- the record External, with any functions for them. encoding/json's Unmarshal into the types of
-- decode.go and base64 decoding are the parameters of the record Readers; its Unmarshal into maps,
-- slices and `any` those of the record Codec, where a map is the list of its entries in the order of one
-- iteration; and the JavaScript runtime, with the JSON of Params and results, those of Browser.
--
-- Fuel. The loop of parseMultiSignature gets the length of its input as fuel; each round reads a
-- byte at least, so it is enough, and running out, which would be a panic, does not happen.
-- canonicaliseRaw calls itself on values that are shorter than the text, so that its fuel is one more
-- than the length of the text; out_of_fuel stands for running out. FormatUint's loop has fuel for the
-- 20 digits of a uint64. All other loops are structural, but for append_uvarint.
--
-- Not modelled: the text of errors and reasons, since fmt's rendering is not; the two calls of
-- json.Marshal in AminoSignBytes that cannot fail have no error branch; main of the WebAssembly entry
-- point, which only registers the two functions and waits; and the tests and their data.
pub mod Base
pub mod Errors
pub mod Wire
pub mod Gentx
pub mod Numbers
pub mod SignDoc
pub mod SignMode
pub mod External
pub mod Verify
pub mod Multisig
pub mod Address
pub mod Utf8
pub mod Report
pub mod Invariants
pub mod Decode
pub mod Runner
pub mod Base64
pub mod Json
pub mod Amino
pub mod Wasm
pub mod CanonicalJson
pub mod Samples
pub mod Examples
