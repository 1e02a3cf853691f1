-- ===== src/Decode/WellFormed.antt =====
-- What Decode of gentxvalidate/decode.go promises of a gentx that it returns.
use seedward_libs.Base.{
  ◌<◌, ◌≤◌, ◌^◌, arith, not, ◌&&◌, ◌||◌, List, [], ◌∷◌, ◌≡◌, refl, sym, inl, inr, ◌↔◌, Bool-cases,
  Bytes, codes, Option, none, some, length, is_empty, leb, ◌==◌, bytes_eq, bytes_eq_iff,
  bytes_eq-false,
}
use seedward_libs.Errors.{
  require, wrap, multisig_without_keys, multisig_threshold, multisig_without_modes,
  bitarray_encoding, component_pubkey_encoding, account_pubkey_encoding, parse_gentx_json,
  legacy_std_tx, message_count, signer_info_count, signature_count, extension_options,
  parse_message, message_type, consensus_pubkey_encoding, signature_encoding,
}
use seedward_libs.Errors.Safely.{Safely, Safely-bind, require-Safely, wrap-Safely}
use seedward_libs.Gentx.{
  SignerInfo, MultisigSigner, ParsedGentx, HasU64s, msg_create_validator_type_url,
  legacy_amino_pub_key_type_url,
}
use seedward_libs.Multisig.{index}
use seedward_libs.Decode.Uints.{parse_uint_cases}
use seedward_libs.Decode.{
  Readers, AnyKeyJson, SignerInfoJson, modes_of, multi_mode_infos, multi_elems, parse_uint,
  decode_members, decode_multisig_signer, decode_signer_info, decode,
}

-- A list with an element has its first one.
first-Safely {ℓ} : {A : Type ℓ} (xs : List A) → 1 ≤ length xs → Safely (λ a. Unit {0}) (index xs 0)
first-Safely [] h = absurd (omega arith)
first-Safely (x ∷ xs) h = tt

parse_uint-Safely : (s field : Bytes) → Safely (λ n. n < 2 ^ 64) (parse_uint s field)
parse_uint-Safely s field = elim (parse_uint_cases s field) [
  | inl ((ds, l), e) ↦ rw e l
  | inr (refused, x, e) ↦ rw e tt
]

some-inj : {a b : MultisigSigner} → Path (Option MultisigSigner) (some a) (some b) → a ≡ b
some-inj e = cc

-- A multisig has a threshold of 1 to the number of its keys, and a mode.
pub record IsMultisig (ms : MultisigSigner) : Type 0 where
  pub positive : 1 ≤ ms.threshold
  pub reachable : ms.threshold ≤ length ms.members
  pub has_mode : 1 ≤ length ms.modes

-- A signer is a multisig exactly if its key type says so, and then it is a proper one.
pub record IsSigner (s : SignerInfo) : Type 0 where
  pub sequence : s.sequence < 2 ^ 64
  pub multi : (ms : MultisigSigner) → s.multisig ≡ some ms → IsMultisig ms
  pub kind : (s.pub_key_type_url ≡ legacy_amino_pub_key_type_url) ↔ (¬ (s.multisig ≡ none))

pub record IsWellFormed (g : ParsedGentx) : Type 0 where
  pub u64s : HasU64s g
  pub signer : IsSigner g.signer

module _ (r : Readers) where
  decode_members-Safely :
      (ks : List AnyKeyJson) → Safely (λ ms. length ms ≡ length ks) (decode_members r ks)
  unfolding decode_members
  decode_members-Safely [] = refl
  decode_members-Safely (k ∷ ks) =
      Safely-bind _ (wrap component_pubkey_encoding (r.decode_base64 k.key)) _ (wrap-Safely _ _)
        λ pk u.
          Safely-bind _ (decode_members r ks) _ (decode_members-Safely ks)
            λ rest l. omega (arith, l)

  decode_multisig_signer-Safely :
      (si : SignerInfoJson) → Safely IsMultisig (decode_multisig_signer r si)
  unfolding decode_multisig_signer
  decode_multisig_signer-Safely si =
      let keys = length si.public_key.public_keys in
      let threshold = si.public_key.threshold in
      let modes = modes_of (multi_mode_infos si.mode_info_of) in
      Safely-bind _ (require (not (keys == 0)) multisig_without_keys) _ (require-Safely _ _)
        λ u1 some_key.
          Safely-bind _
            (require (leb 1 threshold && leb threshold keys) (multisig_threshold threshold keys)) _
            (require-Safely _ _)
            λ u2 bounds.
              Safely-bind _ (require (not (length modes == 0)) multisig_without_modes) _
                (require-Safely _ _)
                λ u3 some_mode.
                  Safely-bind _
                    (wrap bitarray_encoding (r.decode_base64 (multi_elems si.mode_info_of))) _
                    (wrap-Safely _ _)
                    λ elems u4.
                      Safely-bind _ (decode_members r si.public_key.public_keys) _
                        (decode_members-Safely si.public_key.public_keys)
                        λ members l. record {
                          positive = ground arith;
                          reachable = ground arith;
                          has_mode = ground arith;
                        }

  decode_signer_info-Safely : (si : SignerInfoJson) → Safely IsSigner (decode_signer_info r si)
  unfolding decode_signer_info
  decode_signer_info-Safely si =
      let type_url = si.public_key.type_url in
      Safely-bind _ (parse_uint si.sequence (codes "sequence")) _
        (parse_uint-Safely si.sequence (codes "sequence"))
        λ sequence l. elim (Bool-cases (bytes_eq type_url legacy_amino_pub_key_type_url)) [
          | inl t ↦ rw t (
              Safely-bind _ (decode_multisig_signer r si) _ (decode_multisig_signer-Safely si)
                λ ms h.
                  Safely-bind _ (index ms.modes 0) _ (first-Safely ms.modes h.has_mode) λ mode u.
                    record {
                      sequence = l;
                      multi = λ ms' e. rw (sym (some-inj e)) h;
                      kind = (
                        (λ e n. cc),
                        λ n. (bytes_eq_iff type_url legacy_amino_pub_key_type_url).0 t,
                      );
                    })
          | inr f ↦ rw f (
              Safely-bind _ (wrap account_pubkey_encoding (r.decode_base64 si.public_key.key)) _
                (wrap-Safely _ _)
                λ pk u. record {
                  sequence = l;
                  multi = λ ms' e. cc;
                  kind = ((λ e. absurd (bytes_eq-false f e)), λ n. absurd (n refl));
                })
        ]

  -- Decode never panics, and a gentx that it returns has fields that fit their uint64s, a multisig
  -- signer exactly if the key's type is LegacyAminoPubKey, and then a threshold of 1 to the number
  -- of keys and at least one mode.
  pub decode-Safely : (document : Bytes) → Safely IsWellFormed (decode r document)
  unfolding decode
  decode-Safely document =
      Safely-bind _ (wrap parse_gentx_json (r.unmarshal_gentx document)) _ (wrap-Safely _ _)
        λ raw u0.
          let legacy = is_empty raw.legacy_type || is_empty raw.legacy_value in
          let plain = is_empty raw.extension_opts && is_empty raw.non_critical_extension_opts in
          Safely-bind _ (require legacy (legacy_std_tx raw.legacy_type)) _ (require-Safely _ _)
            λ u1 old.
              Safely-bind _
                (require (length raw.messages == 1) (message_count (length raw.messages))) _
                (require-Safely _ _)
                λ u2 one_message.
                  Safely-bind _
                    (require (length raw.signer_infos == 1)
                      (signer_info_count (length raw.signer_infos)))
                    _ (require-Safely _ _)
                    λ u3 one_signer.
                      Safely-bind _
                        (require (length raw.signatures == 1)
                          (signature_count (length raw.signatures)))
                        _ (require-Safely _ _)
                        λ u4 one_signature.
                          Safely-bind _ (require plain extension_options) _ (require-Safely _ _)
                            λ u5 no_options.
                              Safely-bind _ (index raw.messages 0) _
                                (first-Safely raw.messages (ground arith))
                                λ message u6.
                                  Safely-bind _ (wrap parse_message (r.unmarshal_message message)) _
                                    (wrap-Safely _ _)
                                    λ msg u7.
                                      Safely-bind _
                                        (require
                                          (bytes_eq msg.type_url msg_create_validator_type_url)
                                          (message_type msg.type_url))
                                        _ (require-Safely _ _)
                                        λ u8 is_create.
                                          Safely-bind _
                                            (wrap consensus_pubkey_encoding
                                              (r.decode_base64 msg.pub_key.key))
                                            _ (wrap-Safely _ _)
                                            λ cons u9.
                                              Safely-bind _ (index raw.signer_infos 0) _
                                                (first-Safely raw.signer_infos (ground arith))
                                                λ info u10.
                                                  Safely-bind _ (decode_signer_info r info) _
                                                    (decode_signer_info-Safely info)
                                                    λ signer is_signer.
                                                      Safely-bind _ (index raw.signatures 0) _
                                                        (first-Safely raw.signatures (ground arith))
                                                        λ signature u11.
                                                          Safely-bind _
                                                            (wrap signature_encoding
                                                            (r.decode_base64 signature))
                                                            _ (wrap-Safely _ _)
                                                            λ sig u12.
                                                            Safely-bind _
                                                            (parse_uint raw.timeout_height
                                                            (codes "timeout_height"))
                                                            _
                                                            (parse_uint-Safely raw.timeout_height
                                                            (codes "timeout_height"))
                                                            λ height l.
                                                            Safely-bind _
                                                            (parse_uint raw.gas_limit
                                                            (codes "gas_limit"))
                                                            _
                                                            (parse_uint-Safely raw.gas_limit
                                                            (codes "gas_limit"))
                                                            λ gas l'. record {
                                                            u64s = record {
                                                            timeout_height = l;
                                                            sequence = is_signer.sequence;
                                                            gas_limit = l';
                                                            };
                                                            signer = is_signer;
                                                            }
