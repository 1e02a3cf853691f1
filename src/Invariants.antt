-- ===== src/Invariants.antt =====
-- gentxvalidate/invariants.go: the checks of one invariant each. The result of a check is a value; a
-- panic would be a nil big.Int that is compared.
pub mod Rates
pub mod Commission
pub mod Light
pub mod Amounts
pub mod Signer
pub mod Moniker
pub mod Derivation
pub mod Operator
use seedward_libs.Base.{
  ℕ, ◌+◌, ◌-◌, Bool, not, ◌&&◌, List, [], ◌∷◌, ◌++◌, Option, none, some, Bytes, codes, length, drop,
  is_empty, ltb, leb, ◌==◌, bytes_eq, if◌then◌else◌,
}
use seedward_libs.Address.{signer_address_bytes, decode_bech32_address}
use seedward_libs.Errors.{Error, Outcome, ok, err, panic}
use seedward_libs.External.{External}
use seedward_libs.Gentx.{ParsedGentx, Params, max_moniker_len}
use seedward_libs.Numbers.{BigInt, set_string, is_negative, big_lt}
use seedward_libs.Report.{
  Result, Reason, pass, fail, inv_chain_id, inv_bond_denom, inv_self_delegation, inv_moniker,
  inv_operator_address, inv_consensus_pub_key, inv_signature_direct, error_text, params_not_set,
  chain_id_differs, denom_differs, params_min_self_delegation, self_bond_amount, self_bond_below,
  moniker_empty, moniker_too_long, moniker_not_utf8, moniker_control, cannot_derive,
  validator_address_error, validator_address_differs, delegator_address_error,
  delegator_address_differs, consensus_key_type, consensus_key_size, signature_invalid,
}
use seedward_libs.Utf8.{Decoded, rune, invalid, steps, valid_string, is_control}
use seedward_libs.Verify.{verify_direct}

unfoldable pub check_chain_id : Bytes → Params → Result
check_chain_id claimed p =
    if is_empty p.chain_id
    then fail inv_chain_id (params_not_set (codes "chain-id"))
    else if bytes_eq claimed p.chain_id
    then pass inv_chain_id
    else fail inv_chain_id (chain_id_differs claimed p.chain_id)

unfoldable pub check_bond_denom : ParsedGentx → Params → Result
check_bond_denom g p =
    if is_empty p.bond_denom
    then fail inv_bond_denom (params_not_set (codes "bond denom"))
    else if bytes_eq g.msg.value.denom p.bond_denom
    then pass inv_bond_denom
    else fail inv_bond_denom (denom_differs g.msg.value.denom p.bond_denom)

-- `!ok || x.Sign() < 0` is false
abbrev pub non_negative : Option BigInt → Option BigInt
non_negative none = none
non_negative (some n) = if is_negative n then none else some n

unfoldable pub check_self_delegation : ParsedGentx → Params → Result
check_self_delegation g p =
    if is_empty p.min_self_delegation
    then pass inv_self_delegation
    else (elim (non_negative (set_string p.min_self_delegation)) [
      | none ↦ fail inv_self_delegation (params_min_self_delegation p.min_self_delegation)
      | some floor ↦ elim (non_negative (set_string g.msg.value.amount)) [
        | none ↦ fail inv_self_delegation (self_bond_amount g.msg.value.amount)
        | some amount ↦
            if big_lt amount floor
            then fail inv_self_delegation (self_bond_below g.msg.value.amount p.min_self_delegation)
            else pass inv_self_delegation
      ]
    ])

-- `v, err := e; if err != nil { return fail(inv, "%v", err) }`
abbrev pub on_error {ℓ} :
    {A : Type ℓ} → Bytes → (Error → Reason) → Outcome A → (A → Outcome Result) → Outcome Result
on_error inv f (ok a) k = k a
on_error inv f (err e) k = ok (fail inv (f e))
on_error inv f panic k = panic

-- x.Cmp(y) < 0; a nil operand is a panic.
abbrev pub cmp_lt : Option BigInt → Option BigInt → (Bool → Outcome Result) → Outcome Result
cmp_lt (some x) (some y) k = k (big_lt x y)
cmp_lt (some x) none k = panic
cmp_lt none y k = panic

-- `for _, r := range m`: the control character met first; an invalid byte is the rune U+FFFD.
unfoldable pub first_control : List Decoded → Option ℕ
first_control [] = none
first_control (invalid ∷ ds) = first_control ds
first_control (rune r n ∷ ds) = let rest = first_control ds in if is_control r then some r else rest

unfoldable pub check_moniker : ParsedGentx → Params → Result
unfolding max_moniker_len valid_string steps first_control
check_moniker g p =
    let m = g.msg.description.moniker in
    let limit = max_moniker_len p in
    if is_empty m
    then fail inv_moniker moniker_empty
    else if ltb limit (length m)
    then fail inv_moniker (moniker_too_long (length m) limit)
    else if not (valid_string m)
    then fail inv_moniker moniker_not_utf8
    else (elim (first_control (steps 0 m)) [
      | some r ↦ fail inv_moniker (moniker_control r)
      | none ↦ pass inv_moniker
    ])

-- strings.HasSuffix(s, suffix)
unfoldable pub has_suffix : Bytes → Bytes → Bool
has_suffix s suffix =
    leb (length suffix) (length s) && bytes_eq (drop (length s - length suffix) s) suffix

abbrev pub ed25519_pub_key_type_suffix : Bytes
ed25519_pub_key_type_suffix = codes "ed25519.PubKey"

abbrev pub ed25519_pub_key_size : ℕ
ed25519_pub_key_size = 32

unfoldable pub check_consensus_pub_key : ParsedGentx → Result
unfolding has_suffix
check_consensus_pub_key g =
    let inv = inv_consensus_pub_key in
    let key = g.msg.consensus_pub_key in
    let type_url = g.msg.consensus_pub_key_type_url in
    if not (has_suffix type_url ed25519_pub_key_type_suffix)
    then fail inv (consensus_key_type type_url)
    else if not (length key == ed25519_pub_key_size)
    then fail inv (consensus_key_size (length key))
    else pass inv

abbrev pub genesis_account_number : ℕ
genesis_account_number = 0

-- checkSignatureMode of gentxvalidate/signmode.go; `verify` is the mode's verifier.
unfoldable pub check_signature_mode :
    ParsedGentx → Params → Bytes → (ParsedGentx → Bytes → ℕ → Outcome Bool) → Outcome Result
check_signature_mode g p inv verify =
    if is_empty p.chain_id
    then ok (fail inv (params_not_set (codes "chain-id")))
    else on_error inv error_text (verify g p.chain_id genesis_account_number)
        λ is_valid. if is_valid then ok (pass inv) else ok (fail inv (signature_invalid p.chain_id))

module _ (x : External) where
  unfoldable pub check_operator_address : ParsedGentx → Params → Outcome Result
  check_operator_address g p =
      let inv = inv_operator_address in
      if is_empty p.bech32_prefix
      then ok (fail inv (params_not_set (codes "bech32 prefix")))
      else on_error inv cannot_derive (signer_address_bytes x g.signer) λ derived.
        on_error inv validator_address_error
          (decode_bech32_address x g.msg.validator_address (p.bech32_prefix ++ codes "valoper"))
          λ val.
            if not (bytes_eq val derived)
            then ok (fail inv validator_address_differs)
            else if is_empty g.msg.delegator_address
            then ok (pass inv)
            else on_error inv delegator_address_error
                (decode_bech32_address x g.msg.delegator_address p.bech32_prefix)
                λ del.
                  if not (bytes_eq del derived)
                  then ok (fail inv delegator_address_differs)
                  else ok (pass inv)

  unfoldable pub check_signature_direct : ParsedGentx → Params → Outcome Result
  unfolding check_signature_mode
  check_signature_direct g p =
      check_signature_mode g p inv_signature_direct (λ h chain n. verify_direct x h chain n)
