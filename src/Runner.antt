-- ===== src/Runner.antt =====
-- gentxvalidate/runner.go: the light checks in their order, RunLight and RunAll. A slice of results is
-- built once all of its checks have returned.
pub mod All
pub mod Passes
use seedward_libs.Base.{List, [], ◌∷◌, ◌++◌, Bytes}
use seedward_libs.Errors.{Error, Outcome, ok, err, panic, ◌>>=◌}
use seedward_libs.External.{External}
use seedward_libs.Gentx.{ParsedGentx, Params}
use seedward_libs.Decode.{Readers, decode}
use seedward_libs.SignMode.{check_signature}
use seedward_libs.Report.{Result, pass, fail, inv_well_formed, error_text}
use seedward_libs.Invariants.{
  check_bond_denom, check_self_delegation, check_moniker, check_operator_address,
  check_consensus_pub_key,
}
use seedward_libs.Invariants.Rates.{
  check_commission_consistency, check_commission_change_rate, check_commission_bounds,
}

module _ (x : External) where
  unfoldable pub light_checks : ParsedGentx → Params → Outcome (List Result)
  light_checks g p = do
    consistency ← check_commission_consistency g
    change_rate ← check_commission_change_rate g
    bounds ← check_commission_bounds g p
    operator ← check_operator_address x g p
    ok (
        check_bond_denom g p
        ∷ check_self_delegation g p
        ∷ consistency
        ∷ change_rate
        ∷ bounds
        ∷ check_moniker g p
        ∷ operator
        ∷ check_consensus_pub_key g
        ∷ [])

  -- The decoded gentx, or the single failed result of its error.
  abbrev pub run_decoded : Outcome ParsedGentx → Params → Outcome (List Result)
  run_decoded (ok g) p = light_checks g p >>= λ rs. ok (pass inv_well_formed ∷ rs)
  run_decoded (err e) p = ok (fail inv_well_formed (error_text e) ∷ [])
  run_decoded panic p = panic

  abbrev pub run_all_decoded : Outcome ParsedGentx → Params → Outcome (List Result)
  run_all_decoded (ok g) p = do
    rs ← light_checks g p
    signature ← check_signature x g p
    ok ((pass inv_well_formed ∷ rs) ++ signature ∷ [])
  run_all_decoded (err e) p = ok (fail inv_well_formed (error_text e) ∷ [])
  run_all_decoded panic p = panic

  unfoldable pub run_light : Readers → Bytes → Params → Outcome (List Result)
  unfolding light_checks
  run_light r raw p = run_decoded (decode r raw) p

  unfoldable pub run_all : Readers → Bytes → Params → Outcome (List Result)
  unfolding light_checks
  run_all r raw p = run_all_decoded (decode r raw) p
