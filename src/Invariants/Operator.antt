-- ===== src/Invariants/Operator.antt =====
-- CheckOperatorAddress of gentxvalidate/invariants.go, by the account of the signer and the bech32 texts.
use seedward_libs.Base.{[], ◌++◌, ◌≡◌, Bytes, codes}
use seedward_libs.External.{External}
use seedward_libs.Gentx.{ParsedGentx, Params}
use seedward_libs.Report.{Decides, inv_operator_address}
use seedward_libs.Report.Decisions.{Decides-iff}
use seedward_libs.Address.Account.{IsAccountOf, signer_address_bytes_iff}
use seedward_libs.Address.Bech32.{IsAddress, decode_bech32_address_iff}
use seedward_libs.Invariants.{check_operator_address}
use seedward_libs.Invariants.Derivation.{AgreesWith, check_operator_address-AgreesWith}

module _ (x : External) where
  -- The addresses of the message are those of the signing account, under the launch's bech32 prefix.
  pub record IsOperatorFor (g : ParsedGentx) (p : Params) : Type 0 where
    pub prefix_set : ¬ (p.bech32_prefix ≡ [])
    pub account : Bytes
    pub derived : IsAccountOf x g.signer g.signer.multisig account
    pub validator : IsAddress x g.msg.validator_address (p.bech32_prefix ++ codes "valoper") account
    pub delegator :
        ¬ (g.msg.delegator_address ≡ [])
        → IsAddress x g.msg.delegator_address p.bech32_prefix account

  AgreesWith-IsOperatorFor : (g : ParsedGentx) (p : Params) → AgreesWith x g p → IsOperatorFor g p
  AgreesWith-IsOperatorFor g p h =
      let is_address =
        λ (text prefix : Bytes). (decode_bech32_address_iff x text prefix h.account).0 in
      record {
        prefix_set = h.prefix_set;
        account = h.account;
        derived = (signer_address_bytes_iff x g.signer h.account).0 h.derived;
        validator = is_address _ _ h.validator;
        delegator = λ n. is_address _ _ (h.delegator n);
      }

  IsOperatorFor-AgreesWith : (g : ParsedGentx) (p : Params) → IsOperatorFor g p → AgreesWith x g p
  IsOperatorFor-AgreesWith g p h =
      let decodes =
        λ (text prefix : Bytes). (decode_bech32_address_iff x text prefix h.account).1 in
      record {
        prefix_set = h.prefix_set;
        account = h.account;
        derived = (signer_address_bytes_iff x g.signer h.account).1 h.derived;
        validator = decodes _ _ h.validator;
        delegator = λ n. decodes _ _ (h.delegator n);
      }

  -- The operator-address check never panics, and passes exactly when the launch has a bech32 prefix and the
  -- validator address is bech32 under that prefix and valoper, and the delegator address, unless it is empty,
  -- under exactly that prefix, both with the 20 bytes of the signer's account: RIPEMD160 of SHA256 of a
  -- secp256k1 key of 33 bytes, or the first 20 bytes of SHA256 of a multisig's amino form.
  pub check_operator_address-Decides :
      (g : ParsedGentx) (p : Params)
      → Decides inv_operator_address (IsOperatorFor g p) (check_operator_address x g p)
  check_operator_address-Decides g p =
      Decides-iff inv_operator_address (check_operator_address x g p) (AgreesWith-IsOperatorFor g p)
        (IsOperatorFor-AgreesWith g p) (check_operator_address-AgreesWith x g p)
