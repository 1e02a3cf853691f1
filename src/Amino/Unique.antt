-- ===== src/Amino/Unique.antt =====
-- The SIGN_MODE_LEGACY_AMINO_JSON sign bytes determine what was signed, the chain and the account number.
use seedward_libs.Base.{
  ℕ, ◌<◌, ◌^◌, [], ◌∷◌, ◌≡◌, refl, sym, ap, ◌∙◌, inl, inr, Bool-cases, Bytes, All, codes, bytes_eq,
  bytes_eq_iff, IsByte, bytes_eq-false, ◌⊎◌,
}
use seedward_libs.Amino.{
  amino_consensus_key_name, amino_fee, timeout_text, amino_std_sign_doc, amino_sign_bytes,
}
use seedward_libs.Amino.Shape.{omit_empty}
use seedward_libs.Amino.Texts.{IsUtf8, HasUtf8, amino_std_sign_doc-IsText}
use seedward_libs.Errors.{Error, ok, err, unsupported_mode, amino_key_name}
use seedward_libs.Gentx.{ParsedGentx, HasU64s, sign_mode_amino_json_name, ed25519_pub_key_type_url}
use seedward_libs.Json.{Json, str, arr, obj, Items, no_items, item, marshal}
use seedward_libs.Json.Values.{marshal-injective}
use seedward_libs.Utf8.{decode_rune, steps, valid_string}
use seedward_libs.Amino.Parts.{
  read_slot, same_entry, same_text, same_plain_text, coins-injective, format_uint-injective,
  timeout_text-injective, msg_covers,
}

abbrev items : Json → Items
items (str s) = no_items
items (arr xs) = xs
items (obj fs) = no_items

abbrev first : Items → Json
first no_items = str []
first (item v xs) = v

-- The name of the one consensus key type.
abbrev pub ed25519_amino_name : Bytes
ed25519_amino_name = codes "tendermint/PubKeyEd25519"

-- What AminoSignBytes needs, and the bytes that it gives.
pub record IsAmino (g : ParsedGentx) : Type 0 where
  pub mode : g.signer.mode ≡ sign_mode_amino_json_name
  pub consensus_key_type : g.msg.consensus_pub_key_type_url ≡ ed25519_pub_key_type_url

abbrev pub amino_bytes : ParsedGentx → Bytes → ℕ → Bytes
amino_bytes g chain_id account_number =
    marshal (amino_std_sign_doc g chain_id account_number ed25519_amino_name)

-- AminoSignBytes gives the marshalled document if the sign mode is SIGN_MODE_LEGACY_AMINO_JSON and the
-- consensus key is an ed25519 one, and an error, never a panic, otherwise.
pub amino_sign_bytes_cases :
    (g : ParsedGentx) (c : Bytes) (a : ℕ)
    → (IsAmino g × (amino_sign_bytes g c a ≡ ok (amino_bytes g c a)))
      ⊎ ((¬ IsAmino g) × (e : Error) × (amino_sign_bytes g c a ≡ err e))
unfolding amino_sign_bytes amino_consensus_key_name
amino_sign_bytes_cases g c a =
    elim (Bool-cases (bytes_eq g.signer.mode sign_mode_amino_json_name)) [
      | inr n ↦ inr ((λ h. bytes_eq-false n h.mode), unsupported_mode g.signer.mode, rw n refl)
      | inl t ↦
          elim (Bool-cases (bytes_eq g.msg.consensus_pub_key_type_url ed25519_pub_key_type_url)) [
            | inr n ↦ inr (
              (λ h. bytes_eq-false n h.consensus_key_type),
              amino_key_name g.msg.consensus_pub_key_type_url,
              rw (t, n) refl,
            )
            | inl k ↦ inl (
              record { mode = (bytes_eq_iff _ _).0 t; consensus_key_type = (bytes_eq_iff _ _).0 k },
              rw (t, k) refl,
            )
          ]
    ]

-- Two gentxs that agree in all that the amino sign bytes hold: not in the fee's payer and granter, nor
-- in the account key.
pub record SameAmino (g g' : ParsedGentx) : Type 0 where
  pub description : g.msg.description ≡ g'.msg.description
  pub commission : g.msg.commission ≡ g'.msg.commission
  pub min_self_delegation : g.msg.min_self_delegation ≡ g'.msg.min_self_delegation
  pub delegator_address : g.msg.delegator_address ≡ g'.msg.delegator_address
  pub validator_address : g.msg.validator_address ≡ g'.msg.validator_address
  pub consensus_key_type : g.msg.consensus_pub_key_type_url ≡ g'.msg.consensus_pub_key_type_url
  pub consensus_key : g.msg.consensus_pub_key ≡ g'.msg.consensus_pub_key
  pub value : g.msg.value ≡ g'.msg.value
  pub memo : g.memo ≡ g'.memo
  pub timeout_height : g.timeout_height ≡ g'.timeout_height
  pub fee_amount : g.fee.amount ≡ g'.fee.amount
  pub gas_limit : g.fee.gas_limit ≡ g'.fee.gas_limit
  pub sequence : g.signer.sequence ≡ g'.signer.sequence
  pub mode : g.signer.mode ≡ g'.signer.mode

-- A gentx that JSON can carry: strings that are valid UTF-8, uint64s, and bytes in the consensus key.
pub record IsWritable (g : ParsedGentx) : Type 0 where
  pub texts : HasUtf8 g
  pub numbers : HasU64s g
  pub key_bytes : All IsByte g.msg.consensus_pub_key

doc_covers :
    (g g' : ParsedGentx) (c c' : Bytes) (a a' : ℕ) (name : Bytes)
    → IsWritable g
    → IsWritable g'
    → IsAmino g
    → IsAmino g'
    → a < 2 ^ 64
    → a' < 2 ^ 64
    → amino_std_sign_doc g c a name ≡ amino_std_sign_doc g' c' a' name
    → (c ≡ c') × (a ≡ a') × SameAmino g g'
unfolding bytes_eq
doc_covers g g' c c' a a' name w w' k k' ha ha' e =
    let msgs = ap first (ap items (same_entry (codes "msgs") e)) in
    let m = msg_covers g g' name w.key_bytes w'.key_bytes msgs in
    let fee : amino_fee g ≡ amino_fee g' = same_entry (codes "fee") e in
    let timeout = λ (d : ParsedGentx).
      read_slot (codes "timeout_height") (timeout_text d.timeout_height)
        ((codes "timeout_height", omit_empty (timeout_text d.timeout_height)) ∷ []) refl in
    (
      same_plain_text (codes "chain_id") e,
      format_uint-injective a a' ha ha' (same_plain_text (codes "account_number") e),
      record {
        description = m.description;
        commission = m.commission;
        min_self_delegation = m.min_self_delegation;
        delegator_address = m.delegator_address;
        validator_address = m.validator_address;
        consensus_key_type = k.consensus_key_type ∙ sym k'.consensus_key_type;
        consensus_key = m.consensus_key;
        value = m.value;
        memo = same_plain_text (codes "memo") e;
        timeout_height =
            timeout_text-injective _ _ w.numbers.timeout_height w'.numbers.timeout_height
              (same_text (codes "timeout_height") e (timeout g) (timeout g'));
        fee_amount = coins-injective _ _ (ap items (same_entry (codes "amount") fee));
        gas_limit =
            format_uint-injective _ _ w.numbers.gas_limit w'.numbers.gas_limit
              (same_plain_text (codes "gas") fee);
        sequence =
            format_uint-injective _ _ w.numbers.sequence w'.numbers.sequence
              (same_plain_text (codes "sequence") e);
        mode = k.mode ∙ sym k'.mode;
      },
    )

amino_sign_bytes-ok :
    (g : ParsedGentx) (c : Bytes) (a : ℕ) {b : Bytes}
    → amino_sign_bytes g c a ≡ ok b
    → IsAmino g × (b ≡ amino_bytes g c a)
amino_sign_bytes-ok g c a h = elim (amino_sign_bytes_cases g c a) [
  | inl (k, e) ↦ (k, cc)
  | inr (n, x, e) ↦ cc
]

-- If two gentxs with strings in valid UTF-8, uint64 fields in range and consensus keys of bytes have the
-- same SIGN_MODE_LEGACY_AMINO_JSON sign bytes, for chain ids in valid UTF-8 and uint64 account numbers, then the chain ids and the account numbers are
-- equal, and the gentxs agree in the message, with all as written, the memo, the timeout height, the
-- fee's amount and gas limit, the sequence and the sign mode.
pub amino_sign_bytes_unique :
    (g g' : ParsedGentx) (c c' : Bytes) (a a' : ℕ) (b : Bytes)
    → IsWritable g
    → IsWritable g'
    → IsUtf8 c
    → IsUtf8 c'
    → a < 2 ^ 64
    → a' < 2 ^ 64
    → amino_sign_bytes g c a ≡ ok b
    → amino_sign_bytes g' c' a' ≡ ok b
    → (c ≡ c') × (a ≡ a') × SameAmino g g'
unfolding valid_string steps decode_rune
amino_sign_bytes_unique g g' c c' a a' b w w' hc hc' ha ha' e e' =
    let (k, p) = amino_sign_bytes-ok g c a e in
    let (k', p') = amino_sign_bytes-ok g' c' a' e' in
    let name = ed25519_amino_name in
    let same =
      marshal-injective (amino_std_sign_doc g c a name) (amino_std_sign_doc g' c' a' name)
        (amino_std_sign_doc-IsText g c a name w.texts w.numbers hc ha refl)
        (amino_std_sign_doc-IsText g' c' a' name w'.texts w'.numbers hc' ha' refl) (sym p ∙ p') in
    doc_covers g g' c c' a a' name w w' k k' ha ha' same

doc_same :
    (g g' : ParsedGentx) (c : Bytes) (a : ℕ)
    → SameAmino g g'
    → amino_bytes g c a ≡ amino_bytes g' c a
doc_same g g' c a s =
    rw
      (
        s.description, s.commission, s.min_self_delegation, s.delegator_address,
        s.validator_address, s.consensus_key, s.value, s.memo, s.timeout_height, s.fee_amount,
        s.gas_limit, s.sequence,
      )
      refl

-- SIGN_MODE_LEGACY_AMINO_JSON sign bytes depend on nothing else: if a gentx has them, then every gentx that
-- agrees with it in the message, memo, timeout height, fee amount and gas limit, sequence and sign mode has
-- the same ones for the same chain id and account number, whatever the payer and granter of its fee.
pub amino_sign_bytes-same :
    (g g' : ParsedGentx) (c : Bytes) (a : ℕ) (b : Bytes)
    → SameAmino g g'
    → amino_sign_bytes g c a ≡ ok b
    → amino_sign_bytes g' c a ≡ ok b
amino_sign_bytes-same g g' c a b s e =
    let (k, p) = amino_sign_bytes-ok g c a e in
    let k' : IsAmino g' = record {
      mode = sym s.mode ∙ k.mode;
      consensus_key_type = sym s.consensus_key_type ∙ k.consensus_key_type;
    } in
    elim (amino_sign_bytes_cases g' c a) [
      | inl (h, q) ↦ q ∙ ap ok (sym (doc_same g g' c a s) ∙ sym p)
      | inr (n, er, q) ↦ absurd (n k')
    ]
