-- ===== src/Invariants/Commission.antt =====
-- The commission checks of gentxvalidate/invariants.go against the numbers the strings stand for.
use seedward_libs.Base.{
  ℕ, ◌^◌, ◌≤◌, arith, [], ◌∷◌, ◌≡◌, refl, inl, inr, Bool-cases, Bytes, is_empty, Option, some, ltb,
  if◌then◌else◌,
}
use seedward_libs.Errors.{Outcome, ok}
use seedward_libs.Gentx.{CommissionRates, ParsedGentx, Params}
use seedward_libs.Numbers.{BigInt, big_lt, dec_value}
use seedward_libs.Numbers.Decimal.{IsDecimal, scaled_value, nonneg, dec_value_cases}
use seedward_libs.Report.{
  Result, Reason, fail, Decides, error_text, inv_commission_consistency, inv_commission_change_rate,
  inv_commission_bounds,
}
use seedward_libs.Report.Decisions.{Decides-pass, Decides-fail, Decides-and, Decides-iff}
use seedward_libs.Invariants.{on_error, cmp_lt}
use seedward_libs.Invariants.Rates.{
  check_commission_consistency, check_commission_change_rate, check_rate_floor, check_rate_ceiling,
  check_change_rate_ceiling, check_commission_bounds,
}

Decides-dec :
    (inv s field : Bytes) {Q : Type 0} (k : Option BigInt → Outcome Result)
    → Decides inv Q (k (some (nonneg (scaled_value s))))
    → Decides inv (IsDecimal s × Q) (on_error inv error_text (dec_value s field) k)
Decides-dec inv s field k h = elim (dec_value_cases s field) [
  | inl (d, e) ↦ rw e (Decides-and inv (k (some (nonneg (scaled_value s)))) d h)
  | inr (n, x, e) ↦ rw e (Decides-fail inv (error_text x) (λ p. n p.0))
]

Decides-cmp :
    (inv : Bytes) (r : Reason) (a b : ℕ) {Q : Type 0} (k : Outcome Result)
    → Decides inv Q k
    → Decides inv
        ((b ≤ a) × Q)
        (cmp_lt (some (nonneg a)) (some (nonneg b)) λ t. if t then ok (fail inv r) else k)
unfolding big_lt
Decides-cmp inv r a b k h = elim (Bool-cases (ltb a b)) [
  | inl t ↦ rw t (Decides-fail inv r (λ p. ground (arith, p.0)))
  | inr f ↦ rw f (Decides-and inv k (ground arith) h)
]

Decides-optional :
    (inv s : Bytes) {P Q : Type 0} (k m : Outcome Result)
    → Decides inv Q k
    → Decides inv (P × Q) m
    → Decides inv ((¬ (s ≡ []) → P) × Q) (if is_empty s then k else m)
Decides-optional inv [] k m h h' = Decides-and inv k (λ n. absurd (n refl)) h
Decides-optional inv (c ∷ s) k m h (r, e, i, (to, from)) =
    (r, e, i, ((λ t. ((λ n. (to t).0), (to t).1)), λ (p, q). from (p (λ z. cc), q)))

-- rate ≤ max_rate ≤ 1, of numbers with 18 decimals at most
pub record IsConsistent (c : CommissionRates) : Type 0 where
  pub rate : IsDecimal c.rate
  pub max_rate : IsDecimal c.max_rate
  pub ordered : scaled_value c.rate ≤ scaled_value c.max_rate
  pub at_most_one : scaled_value c.max_rate ≤ 10 ^ 18

-- The consistency check never panics, and passes exactly when rate and max_rate are decimal
-- strings with rate ≤ max_rate ≤ 1.
pub check_commission_consistency-Decides :
    (g : ParsedGentx)
    → Decides inv_commission_consistency
        (IsConsistent g.msg.commission)
        (check_commission_consistency g)
unfolding check_commission_consistency
check_commission_consistency-Decides g =
    let inv = inv_commission_consistency in
    let c = g.msg.commission in
    Decides-iff inv (check_commission_consistency g)
      (λ (a, (b, (l, (m, u)))). record { rate = a; max_rate = b; ordered = l; at_most_one = m })
      (λ h. (h.rate, (h.max_rate, (h.ordered, (h.at_most_one, tt)))))
      (Decides-dec inv c.rate _ _ (
        Decides-dec inv c.max_rate _ _ (
          Decides-cmp inv _ (scaled_value c.max_rate) (scaled_value c.rate) _
            (Decides-cmp inv _ (10 ^ 18) (scaled_value c.max_rate) _ (Decides-pass inv)))))

-- max_change_rate ≤ max_rate
pub record IsChangeBounded (c : CommissionRates) : Type 0 where
  pub max_change_rate : IsDecimal c.max_change_rate
  pub max_rate : IsDecimal c.max_rate
  pub ordered : scaled_value c.max_change_rate ≤ scaled_value c.max_rate

-- The change-rate check never panics, and passes exactly when max_change_rate and max_rate are
-- decimal strings with max_change_rate ≤ max_rate.
pub check_commission_change_rate-Decides :
    (g : ParsedGentx)
    → Decides inv_commission_change_rate
        (IsChangeBounded g.msg.commission)
        (check_commission_change_rate g)
unfolding check_commission_change_rate
check_commission_change_rate-Decides g =
    let inv = inv_commission_change_rate in
    let c = g.msg.commission in
    Decides-iff inv (check_commission_change_rate g)
      (λ (a, (b, (l, u))). record { max_change_rate = a; max_rate = b; ordered = l })
      (λ h. (h.max_change_rate, (h.max_rate, (h.ordered, tt))))
      (Decides-dec inv c.max_change_rate _ _ (
        Decides-dec inv c.max_rate _ _ (
          Decides-cmp inv _ (scaled_value c.max_rate) (scaled_value c.max_change_rate) _
            (Decides-pass inv))))

-- The launch's bounds; an empty parameter declares none.
pub record IsWithinBounds (c : CommissionRates) (p : Params) : Type 0 where
  pub rate : IsDecimal c.rate
  pub floor :
      ¬ (p.min_commission_rate ≡ [])
      → IsDecimal p.min_commission_rate × (scaled_value p.min_commission_rate ≤ scaled_value c.rate)
  pub ceiling :
      ¬ (p.max_commission_rate ≡ [])
      → IsDecimal p.max_commission_rate
        × (scaled_value c.rate ≤ scaled_value p.max_commission_rate)
        × IsDecimal c.max_rate
        × (scaled_value c.max_rate ≤ scaled_value p.max_commission_rate)
  pub change_ceiling :
      ¬ (p.max_commission_change_rate ≡ [])
      → IsDecimal p.max_commission_change_rate
        × IsDecimal c.max_change_rate
        × (scaled_value c.max_change_rate ≤ scaled_value p.max_commission_change_rate)

-- Each part of the bounds check decides its bound and leaves the rest to what follows.
check_rate_floor-Decides :
    (g : ParsedGentx) (p : Params) {Q : Type 0} (k : Outcome Result)
    → Decides inv_commission_bounds Q k
    → Decides inv_commission_bounds
        ((¬ (p.min_commission_rate ≡ [])
            → IsDecimal p.min_commission_rate
              × (scaled_value p.min_commission_rate ≤ scaled_value g.msg.commission.rate))
          × Q)
        (check_rate_floor g p (some (nonneg (scaled_value g.msg.commission.rate))) k)
unfolding check_rate_floor
check_rate_floor-Decides g p k h =
    let inv = inv_commission_bounds in
    let s = p.min_commission_rate in
    Decides-optional inv s k _ h (
      Decides-iff inv _ (λ (a, (b, q)). ((a, b), q)) (λ ((a, b), q). (a, (b, q)))
        (Decides-dec inv s _ _
          (Decides-cmp inv _ (scaled_value g.msg.commission.rate) (scaled_value s) k h)))

check_rate_ceiling-Decides :
    (g : ParsedGentx) (p : Params) {Q : Type 0} (k : Outcome Result)
    → Decides inv_commission_bounds Q k
    → let c = g.msg.commission in
      let s = p.max_commission_rate in
      Decides inv_commission_bounds
        ((¬ (s ≡ [])
            → IsDecimal s
              × (scaled_value c.rate ≤ scaled_value s)
              × IsDecimal c.max_rate
              × (scaled_value c.max_rate ≤ scaled_value s))
          × Q)
        (check_rate_ceiling g p (some (nonneg (scaled_value c.rate))) k)
unfolding check_rate_ceiling
check_rate_ceiling-Decides g p k h =
    let inv = inv_commission_bounds in
    let c = g.msg.commission in
    let s = p.max_commission_rate in
    Decides-optional inv s k _ h (
      Decides-iff inv _ (λ (a, (b, (d, (e, q)))). ((a, b, d, e), q))
        (λ ((a, b, d, e), q). (a, (b, (d, (e, q)))))
        (Decides-dec inv s _ _ (
          Decides-cmp inv _ (scaled_value s) (scaled_value c.rate) _ (
            Decides-dec inv c.max_rate _ _
              (Decides-cmp inv _ (scaled_value s) (scaled_value c.max_rate) k h)))))

check_change_rate_ceiling-Decides :
    (g : ParsedGentx) (p : Params) {Q : Type 0} (k : Outcome Result)
    → Decides inv_commission_bounds Q k
    → let c = g.msg.commission in
      let s = p.max_commission_change_rate in
      Decides inv_commission_bounds
        ((¬ (s ≡ [])
            → IsDecimal s
              × IsDecimal c.max_change_rate
              × (scaled_value c.max_change_rate ≤ scaled_value s))
          × Q)
        (check_change_rate_ceiling g p k)
unfolding check_change_rate_ceiling
check_change_rate_ceiling-Decides g p k h =
    let inv = inv_commission_bounds in
    let c = g.msg.commission in
    let s = p.max_commission_change_rate in
    Decides-optional inv s k _ h (
      Decides-iff inv _ (λ (a, (b, (d, q))). ((a, b, d), q)) (λ ((a, b, d), q). (a, (b, (d, q))))
        (Decides-dec inv s _ _ (
          Decides-dec inv c.max_change_rate _ _
            (Decides-cmp inv _ (scaled_value s) (scaled_value c.max_change_rate) k h))))

-- The bounds check never panics, and passes exactly when rate is a decimal string and each bound
-- that the launch declares is one too and is kept: rate at least the floor, rate and max_rate at
-- most the ceiling, max_change_rate at most the ceiling of changes.
pub check_commission_bounds-Decides :
    (g : ParsedGentx) (p : Params)
    → Decides inv_commission_bounds
        (IsWithinBounds g.msg.commission p)
        (check_commission_bounds g p)
unfolding check_commission_bounds
check_commission_bounds-Decides g p =
    let inv = inv_commission_bounds in
    Decides-iff inv (check_commission_bounds g p)
      (λ (a, (f, (c, (d, u)))). record { rate = a; floor = f; ceiling = c; change_ceiling = d })
      (λ h. (h.rate, (h.floor, (h.ceiling, (h.change_ceiling, tt)))))
      (Decides-dec inv g.msg.commission.rate _ _ (
        check_rate_floor-Decides g p _ (
          check_rate_ceiling-Decides g p _
            (check_change_rate_ceiling-Decides g p _ (Decides-pass inv)))))
