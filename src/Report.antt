-- ===== src/Report.antt =====
-- gentxvalidate/result.go: one invariant's outcome. A reason is kept as its format and arguments.
pub mod Decisions
use seedward_libs.Base.{
  ℕ, ◌≡◌, ◌↔◌, Bool, true, false, ◌&&◌, List, [], ◌∷◌, Option, none, some, Bytes, codes,
  if◌then◌else◌,
}
use seedward_libs.Errors.{Error, Outcome, ok}

abbrev pub inv_well_formed : Bytes
inv_well_formed = codes "well_formed"

abbrev pub inv_chain_id : Bytes
inv_chain_id = codes "chain_id"

abbrev pub inv_bond_denom : Bytes
inv_bond_denom = codes "bond_denom"

abbrev pub inv_self_delegation : Bytes
inv_self_delegation = codes "self_delegation"

abbrev pub inv_commission_consistency : Bytes
inv_commission_consistency = codes "commission_consistency"

abbrev pub inv_commission_change_rate : Bytes
inv_commission_change_rate = codes "commission_change_rate"

abbrev pub inv_commission_bounds : Bytes
inv_commission_bounds = codes "commission_bounds"

abbrev pub inv_moniker : Bytes
inv_moniker = codes "moniker"

abbrev pub inv_operator_address : Bytes
inv_operator_address = codes "operator_address"

abbrev pub inv_consensus_pub_key : Bytes
inv_consensus_pub_key = codes "consensus_pubkey"

abbrev pub inv_signature_direct : Bytes
inv_signature_direct = codes "signature_direct"

abbrev pub inv_signature_amino_json : Bytes
inv_signature_amino_json = codes "signature_amino_json"

abbrev pub inv_signature_unsupported_mode : Bytes
inv_signature_unsupported_mode = codes "signature_unsupported_mode"

pub data Reason : Type 0 where
  error_text : Error → Reason
  params_not_set : Bytes → Reason
  chain_id_differs : Bytes → Bytes → Reason
  denom_differs : Bytes → Bytes → Reason
  params_min_self_delegation : Bytes → Reason
  self_bond_amount : Bytes → Reason
  self_bond_below : Bytes → Bytes → Reason
  rate_above_max_rate : Bytes → Bytes → Reason
  max_rate_above_one : Bytes → Reason
  change_rate_above_max_rate : Bytes → Bytes → Reason
  rate_below_floor : Bytes → Bytes → Reason
  rate_above_ceiling : Bytes → Bytes → Reason
  max_rate_above_ceiling : Bytes → Bytes → Reason
  change_rate_above_ceiling : Bytes → Bytes → Reason
  moniker_empty : Reason
  moniker_too_long : ℕ → ℕ → Reason
  moniker_not_utf8 : Reason
  moniker_control : ℕ → Reason
  cannot_derive : Error → Reason
  validator_address_error : Error → Reason
  validator_address_differs : Reason
  delegator_address_error : Error → Reason
  delegator_address_differs : Reason
  consensus_key_type : Bytes → Reason
  consensus_key_size : ℕ → Reason
  signature_invalid : Bytes → Reason
  unsupported_sign_mode : Bytes → Reason
  -- cmd/gentxvalidate-wasm/main.go
  internal_error : Reason
  wrong_arguments : Reason
  invalid_params_json : Bytes → Reason
  marshal_results_error : Bytes → Reason

-- `reason` is `none` for the empty string of a passed check.
pub record Result : Type 0 where
  pub invariant : Bytes
  pub is_ok : Bool
  pub reason : Option Reason

abbrev pub pass : Bytes → Result
pass inv = record { invariant = inv; is_ok = true; reason = none }

abbrev pub fail : Bytes → Reason → Result
fail inv r = record { invariant = inv; is_ok = false; reason = some r }

unfoldable pub all_ok : List Result → Bool
all_ok [] = true
all_ok (r ∷ rs) = let rest = all_ok rs in if r.is_ok then rest else false

-- The check ends with a result of its invariant, and passes exactly when the condition holds.
abbrev pub Decides : Bytes → Type 0 → Outcome Result → Type 0
Decides inv P o = (r : Result) × (o ≡ ok r) × (r.invariant ≡ inv) × ((r.is_ok ≡ true) ↔ P)
