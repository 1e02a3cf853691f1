-- ===== src/Invariants/Rates.antt =====
-- The commission checks of gentxvalidate/invariants.go. A comparison with a nil big.Int would be a panic.
use seedward_libs.Base.{Option, some, codes, is_empty, if◌then◌else◌}
use seedward_libs.Errors.{Outcome, ok}
use seedward_libs.Gentx.{ParsedGentx, Params}
use seedward_libs.Numbers.{BigInt, big_one, dec_value}
use seedward_libs.Report.{
  Result, pass, fail, inv_commission_consistency, inv_commission_change_rate, inv_commission_bounds,
  error_text, rate_above_max_rate, max_rate_above_one, change_rate_above_max_rate, rate_below_floor,
  rate_above_ceiling, max_rate_above_ceiling, change_rate_above_ceiling,
}
use seedward_libs.Invariants.{on_error, cmp_lt}

unfoldable pub check_commission_consistency : ParsedGentx → Outcome Result
check_commission_consistency g =
    let inv = inv_commission_consistency in
    let c = g.msg.commission in
    on_error inv error_text (dec_value c.rate (codes "commission.rate")) λ rate.
      on_error inv error_text (dec_value c.max_rate (codes "commission.max_rate")) λ max_rate.
        cmp_lt max_rate rate λ above.
          if above
          then ok (fail inv (rate_above_max_rate c.rate c.max_rate))
          else cmp_lt (some big_one) max_rate λ above_one.
            if above_one then ok (fail inv (max_rate_above_one c.max_rate)) else ok (pass inv)

unfoldable pub check_commission_change_rate : ParsedGentx → Outcome Result
check_commission_change_rate g =
    let inv = inv_commission_change_rate in
    let c = g.msg.commission in
    on_error inv error_text (dec_value c.max_change_rate (codes "commission.max_change_rate"))
      λ max_change.
        on_error inv error_text (dec_value c.max_rate (codes "commission.max_rate")) λ max_rate.
          cmp_lt max_rate max_change λ above.
            if above
            then ok (fail inv (change_rate_above_max_rate c.max_change_rate c.max_rate))
            else ok (pass inv)

-- The three parts of CheckCommissionBounds; `k` is what follows a part.
unfoldable pub check_rate_floor :
    ParsedGentx → Params → Option BigInt → Outcome Result → Outcome Result
check_rate_floor g p rate k =
    let inv = inv_commission_bounds in
    if is_empty p.min_commission_rate
    then k
    else on_error inv error_text
        (dec_value p.min_commission_rate (codes "params.min_commission_rate"))
        λ floor. cmp_lt rate floor λ below.
          if below
          then ok (fail inv (rate_below_floor g.msg.commission.rate p.min_commission_rate))
          else k

unfoldable pub check_rate_ceiling :
    ParsedGentx → Params → Option BigInt → Outcome Result → Outcome Result
check_rate_ceiling g p rate k =
    let inv = inv_commission_bounds in
    let c = g.msg.commission in
    if is_empty p.max_commission_rate
    then k
    else on_error inv error_text
        (dec_value p.max_commission_rate (codes "params.max_commission_rate"))
        λ ceil. cmp_lt ceil rate λ above.
          if above
          then ok (fail inv (rate_above_ceiling c.rate p.max_commission_rate))
          else on_error inv error_text (dec_value c.max_rate (codes "commission.max_rate"))
              λ max_rate. cmp_lt ceil max_rate λ max_above.
                if max_above
                then ok (fail inv (max_rate_above_ceiling c.max_rate p.max_commission_rate))
                else k

unfoldable pub check_change_rate_ceiling : ParsedGentx → Params → Outcome Result → Outcome Result
check_change_rate_ceiling g p k =
    let inv = inv_commission_bounds in
    let c = g.msg.commission in
    if is_empty p.max_commission_change_rate
    then k
    else on_error inv error_text
        (dec_value p.max_commission_change_rate (codes "params.max_commission_change_rate"))
        λ ceil.
          on_error inv error_text (dec_value c.max_change_rate (codes "commission.max_change_rate"))
            λ max_change. cmp_lt ceil max_change λ above.
              if above
              then ok (
                  fail inv
                    (change_rate_above_ceiling c.max_change_rate p.max_commission_change_rate))
              else k

unfoldable pub check_commission_bounds : ParsedGentx → Params → Outcome Result
unfolding check_rate_floor check_rate_ceiling check_change_rate_ceiling
check_commission_bounds g p =
    on_error inv_commission_bounds error_text
      (dec_value g.msg.commission.rate (codes "commission.rate"))
      λ rate. check_rate_floor g p rate (
        check_rate_ceiling g p rate
          (check_change_rate_ceiling g p (ok (pass inv_commission_bounds))))
