-- ===== src/Invariants/Derivation.antt =====
-- CheckOperatorAddress of gentxvalidate/invariants.go against the functions of address.go that it calls.
use seedward_libs.Base.{
  ℕ, ◌+◌, ◌==◌, ◌∙◌, sym, ap, false, not, List, [], ◌∷◌, ◌++◌, ◌≡◌, ◌⊎◌, inl, inr, Bool-cases,
  Bytes, codes, is_empty, length, ◌%◌, ◌^◌, bytes_eq, bytes_eq_refl, bytes_eq_iff, bytes_eq-false,
  if◌then◌else◌,
}
use seedward_libs.Errors.{Error, Outcome, ok, err, panic, Reply-cases, Outcome-cases, Option-cases}
use seedward_libs.External.{External}
use seedward_libs.Gentx.{
  ParsedGentx, Params, SignerInfo, MultisigMember, MultisigSigner, secp256k1_pub_key_type_url,
}
use seedward_libs.Wire.{append_uvarint, append_varint_field, append_bytes_field}
use seedward_libs.Multisig.{
  multisig_amino_prefix, member_amino_prefix, append_members, multisig_address_bytes,
}
use seedward_libs.Address.{signer_address_bytes, decode_bech32_address}
use seedward_libs.Report.{
  pass, fail, Decides, inv_operator_address, cannot_derive, validator_address_error,
  validator_address_differs, delegator_address_error, delegator_address_differs,
}
use seedward_libs.Report.Decisions.{Decides-fail, Decides-yes}
use seedward_libs.Invariants.Light.{is_empty-true, is_empty-false}
use seedward_libs.Invariants.{check_operator_address, on_error}

append_members-ne-panic :
    (b : Bytes) (i : ℕ) (ms : List MultisigMember) → ¬ (append_members b i ms ≡ panic)
unfolding append_members
append_members-ne-panic b i [] = λ e. cc
append_members-ne-panic b i (m ∷ ms) =
    elim (Option-cases (member_amino_prefix m.pub_key_type_url)) [
      | inl e ↦ rw (e, append_members) (λ p. cc)
      | inr (prefix, e) ↦
          rw (e, append_members)
            (append_members-ne-panic
              (append_bytes_field b 2
                (append_uvarint prefix (length m.pub_key % 2 ^ 64) ++ m.pub_key))
              (i + 1) ms)
    ]

ok-inj : {A : Type 0} {a b : A} → Path (Outcome A) (ok a) (ok b) → a ≡ b
ok-inj e = cc

module _ (x : External) where
  multisig_address_bytes-ne-panic : (ms : MultisigSigner) → ¬ (multisig_address_bytes x ms ≡ panic)
  unfolding multisig_address_bytes
  multisig_address_bytes-ne-panic ms =
      let start = append_varint_field multisig_amino_prefix 1 ms.threshold in
      elim (Outcome-cases (append_members start 0 ms.members)) [
        | inl (b, e) ↦ rw e (λ p. cc)
        | inr (inl (er, e)) ↦ rw e (λ p. cc)
        | inr (inr e) ↦ absurd (append_members-ne-panic start 0 ms.members e)
      ]

  signer_address_bytes-ne-panic : (s : SignerInfo) → ¬ (signer_address_bytes x s ≡ panic)
  unfolding signer_address_bytes
  signer_address_bytes-ne-panic s = elim (Option-cases s.multisig) [
    | inr (ms, e) ↦ rw e (multisig_address_bytes-ne-panic ms)
    | inl e ↦ elim (Bool-cases (bytes_eq s.pub_key_type_url secp256k1_pub_key_type_url)) [
      | inr n ↦ rw (e, n) (λ p. cc)
      | inl t ↦ elim (Bool-cases (length s.pub_key == 33)) [
        | inr n ↦ rw (e, t, n) (λ p. cc)
        | inl k ↦ rw (e, t, k) (λ p. cc)
      ]
    ]
  ]

  decode_bech32_address-ne-panic : (addr hrp : Bytes) → ¬ (decode_bech32_address x addr hrp ≡ panic)
  unfolding decode_bech32_address
  decode_bech32_address-ne-panic addr hrp = elim (Reply-cases (x.bech32_decode addr 1023)) [
    | inr (er, e) ↦ rw e (λ p. cc)
    | inl (d, e) ↦ elim (Bool-cases (bytes_eq d.0 hrp)) [
      | inr n ↦ rw (e, n) (λ p. cc)
      | inl t ↦ elim (Reply-cases (x.convert_bits d.1 5 8 false)) [
        | inr (er, e') ↦ rw (e, t, e') (λ p. cc)
        | inl (b, e') ↦ elim (Bool-cases (length b == 20)) [
          | inr n ↦ rw (e, t, e', n) (λ p. cc)
          | inl k ↦ rw (e, t, e', k) (λ p. cc)
        ]
      ]
    ]
  ]

  -- The decoded addresses of the message are the bytes that are derived from the signer.
  pub record AgreesWith (g : ParsedGentx) (p : Params) : Type 0 where
    pub prefix_set : ¬ (p.bech32_prefix ≡ [])
    pub account : Bytes
    pub derived : signer_address_bytes x g.signer ≡ ok account
    pub validator :
        decode_bech32_address x g.msg.validator_address (p.bech32_prefix ++ codes "valoper")
        ≡ ok account
    pub delegator :
        ¬ (g.msg.delegator_address ≡ [])
        → decode_bech32_address x g.msg.delegator_address p.bech32_prefix ≡ ok account

  -- A decoded address against the derived one: equal, an error, or another address.
  decode_answers :
      (addr hrp account : Bytes)
      → let o = decode_bech32_address x addr hrp in
        (o ≡ ok account)
        ⊎ ((¬ (o ≡ ok account))
            × (((e : Error) × (o ≡ err e))
                ⊎ ((v : Bytes) × (o ≡ ok v) × (bytes_eq v account ≡ false))))
  decode_answers addr hrp account = elim (Outcome-cases (decode_bech32_address x addr hrp)) [
    | inr (inr e) ↦ absurd (decode_bech32_address-ne-panic addr hrp e)
    | inr (inl (er, e)) ↦ inr ((λ h. cc), inl (er, e))
    | inl (v, e) ↦ elim (Bool-cases (bytes_eq v account)) [
      | inl t ↦ inl (e ∙ ap {B = Outcome Bytes} ok ((bytes_eq_iff v account).0 t))
      | inr n ↦ inr ((λ h. bytes_eq-false n (ok-inj (sym e ∙ h))), inr (v, e, n))
    ]
  ]

  -- The part of the check behind the validator address.
  delegator_step-AgreesWith :
      (g : ParsedGentx) (p : Params) (account : Bytes)
      → ¬ (p.bech32_prefix ≡ [])
      → signer_address_bytes x g.signer ≡ ok account
      → decode_bech32_address x g.msg.validator_address (p.bech32_prefix ++ codes "valoper")
        ≡ ok account
      → Decides inv_operator_address (AgreesWith g p) (
          if is_empty g.msg.delegator_address
          then ok (pass inv_operator_address)
          else on_error inv_operator_address delegator_address_error
              (decode_bech32_address x g.msg.delegator_address p.bech32_prefix)
              λ del.
                if not (bytes_eq del account)
                then ok (fail inv_operator_address delegator_address_differs)
                else ok (pass inv_operator_address))
  delegator_step-AgreesWith g p account present derived validator =
      let inv = inv_operator_address in
      let addr = g.msg.delegator_address in
      let passes : (¬ (addr ≡ []) → decode_bech32_address x addr p.bech32_prefix ≡ ok account)
          → AgreesWith g p =
        λ d. record {
          prefix_set = present;
          account = account;
          derived = derived;
          validator = validator;
          delegator = d;
        } in
      elim (Bool-cases (is_empty addr)) [
        | inl t ↦ rw t (Decides-yes inv (passes (λ n. absurd (n (is_empty-true addr t)))))
        | inr f ↦
            let differs : ¬ (decode_bech32_address x addr p.bech32_prefix ≡ ok account)
                → ¬ AgreesWith g p =
              λ n h. n (h.delegator (is_empty-false addr f) ∙ sym h.derived ∙ derived) in
            elim (decode_answers addr p.bech32_prefix account) [
              | inl d ↦ rw (f, d, bytes_eq_refl account) (Decides-yes inv (passes (λ n. d)))
              | inr (n, inl (er, e)) ↦
                  rw (f, e) (Decides-fail inv (delegator_address_error er) (differs n))
              | inr (n, inr (v, e, b)) ↦
                  rw (f, e, b) (Decides-fail inv delegator_address_differs (differs n))
            ]
      ]

  -- The check against what signerAddressBytes and decodeBech32Address answer.
  pub check_operator_address-AgreesWith :
      (g : ParsedGentx) (p : Params)
      → Decides inv_operator_address (AgreesWith g p) (check_operator_address x g p)
  unfolding check_operator_address
  check_operator_address-AgreesWith g p =
      let inv = inv_operator_address in
      let valoper = p.bech32_prefix ++ codes "valoper" in
      let val = decode_bech32_address x g.msg.validator_address valoper in
      elim (Bool-cases (is_empty p.bech32_prefix)) [
        | inl t ↦ rw t (Decides-fail inv _ (λ h. h.prefix_set (is_empty-true p.bech32_prefix t)))
        | inr f ↦ elim (Outcome-cases (signer_address_bytes x g.signer)) [
          | inr (inr e) ↦ absurd (signer_address_bytes-ne-panic g.signer e)
          | inr (inl (er, e)) ↦
              rw (f, e) (Decides-fail inv (cannot_derive er) (λ h. cc (h.derived)))
          | inl (account, e) ↦
              let differs : ¬ (val ≡ ok account) → ¬ AgreesWith g p =
                λ n h. n (h.validator ∙ sym h.derived ∙ e) in
              elim (decode_answers g.msg.validator_address valoper account) [
                | inr (n, inl (er, e')) ↦
                    rw (f, e, e') (Decides-fail inv (validator_address_error er) (differs n))
                | inr (n, inr (v, e', b)) ↦
                    rw (f, e, e', b) (Decides-fail inv validator_address_differs (differs n))
                | inl v ↦
                    rw (f, e, v, bytes_eq_refl account)
                      (delegator_step-AgreesWith g p account (is_empty-false p.bech32_prefix f) e v)
              ]
        ]
      ]
