-- ===== src/Examples/Checks.antt =====
-- The theorems on the checks of gentxvalidate/invariants.go at a sample gentx.
use seedward_libs.Base.{◌≡◌, ◌++◌, [], Bytes, codes, length}
use seedward_libs.Errors.{ok}
use seedward_libs.Gentx.{ParsedGentx}
use seedward_libs.Report.{
  Decides, inv_chain_id, inv_bond_denom, inv_self_delegation, inv_commission_consistency,
  inv_commission_change_rate, inv_commission_bounds, inv_moniker, inv_operator_address,
  inv_consensus_pub_key, inv_signature_direct,
}
use seedward_libs.Invariants.{
  check_chain_id, check_bond_denom, check_self_delegation, check_moniker, check_operator_address,
  check_consensus_pub_key, check_signature_direct,
}
use seedward_libs.Invariants.Rates.{
  check_commission_consistency, check_commission_change_rate, check_commission_bounds,
}
use seedward_libs.Invariants.Commission.{
  IsConsistent, IsChangeBounded, IsWithinBounds, check_commission_consistency-Decides,
  check_commission_change_rate-Decides, check_commission_bounds-Decides,
}
use seedward_libs.Invariants.Light.{
  IsBonded, check_chain_id-Decides, check_bond_denom-Decides, check_self_delegation-Decides,
  check_consensus_pub_key-Decides,
}
use seedward_libs.Invariants.Moniker.{IsMoniker, check_moniker-Decides}
use seedward_libs.Invariants.Operator.{IsOperatorFor, check_operator_address-Decides}
use seedward_libs.Invariants.Signer.{IsSignedFor, check_signature_direct-Decides}
use seedward_libs.Samples.{gentx_at, launch, lenient}

abbrev half : ParsedGentx
half = gentx_at (codes "0.1")

check_signature_direct-Decides_example :
    Decides inv_signature_direct
      (IsSignedFor lenient half launch.chain_id)
      (check_signature_direct lenient half launch)
check_signature_direct-Decides_example = check_signature_direct-Decides lenient half launch

check_operator_address-Decides_example :
    Decides inv_operator_address
      (IsOperatorFor lenient half launch)
      (check_operator_address lenient half launch)
check_operator_address-Decides_example = check_operator_address-Decides lenient half launch

check_commission_bounds-Decides_example :
    Decides inv_commission_bounds
      (IsWithinBounds half.msg.commission launch)
      (check_commission_bounds half launch)
check_commission_bounds-Decides_example = check_commission_bounds-Decides half launch

check_commission_consistency-Decides_example :
    Decides inv_commission_consistency
      (IsConsistent half.msg.commission)
      (check_commission_consistency half)
check_commission_consistency-Decides_example = check_commission_consistency-Decides half

check_commission_change_rate-Decides_example :
    Decides inv_commission_change_rate
      (IsChangeBounded half.msg.commission)
      (check_commission_change_rate half)
check_commission_change_rate-Decides_example = check_commission_change_rate-Decides half

check_self_delegation-Decides_example :
    Decides inv_self_delegation
      (¬ (launch.min_self_delegation ≡ []) → IsBonded (codes "500") (codes "1000"))
      (ok (check_self_delegation half launch))
check_self_delegation-Decides_example = check_self_delegation-Decides half launch

check_moniker-Decides_example :
    Decides inv_moniker
      (IsMoniker (codes "node") launch.max_moniker_len)
      (ok (check_moniker half launch))
check_moniker-Decides_example = check_moniker-Decides half launch

check_consensus_pub_key-Decides_example :
    Decides inv_consensus_pub_key
      (((front : Bytes) × (half.msg.consensus_pub_key_type_url ≡ front ++ codes "ed25519.PubKey"))
        × (length half.msg.consensus_pub_key ≡ 32))
      (ok (check_consensus_pub_key half))
check_consensus_pub_key-Decides_example = check_consensus_pub_key-Decides half

check_chain_id-Decides_example :
    Decides inv_chain_id
      ((¬ (launch.chain_id ≡ [])) × (codes "hub-2" ≡ launch.chain_id))
      (ok (check_chain_id (codes "hub-2") launch))
check_chain_id-Decides_example = check_chain_id-Decides (codes "hub-2") launch

check_bond_denom-Decides_example :
    Decides inv_bond_denom
      ((¬ (launch.bond_denom ≡ [])) × (half.msg.value.denom ≡ launch.bond_denom))
      (ok (check_bond_denom half launch))
check_bond_denom-Decides_example = check_bond_denom-Decides half launch
