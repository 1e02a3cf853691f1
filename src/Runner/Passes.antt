-- ===== src/Runner/Passes.antt =====
-- When every result of RunLight of gentxvalidate/runner.go has passed.
use seedward_libs.Base.{
  true, List, [], ◌∷◌, ◌++◌, ◌≡◌, refl, inl, inr, Bool-cases, ◌↔◌, Bytes, codes, length, All,
}
use seedward_libs.Errors.{Outcome, ok, Outcome-cases}
use seedward_libs.Errors.Safely.{Safely-ok, Safely-panic}
use seedward_libs.External.{External}
use seedward_libs.Gentx.{ParsedGentx, Params}
use seedward_libs.Decode.{Readers, decode}
use seedward_libs.Decode.WellFormed.{IsWellFormed, decode-Safely}
use seedward_libs.Report.{Result, pass, fail, all_ok, Decides, inv_well_formed, error_text}
use seedward_libs.Invariants.Commission.{
  IsConsistent, IsChangeBounded, IsWithinBounds, check_commission_consistency-Decides,
  check_commission_change_rate-Decides, check_commission_bounds-Decides,
}
use seedward_libs.Invariants.Light.{
  IsBonded, check_bond_denom-Decides, check_self_delegation-Decides,
  check_consensus_pub_key-Decides,
}
use seedward_libs.Invariants.Moniker.{IsMoniker, check_moniker-Decides}
use seedward_libs.Invariants.Operator.{IsOperatorFor, check_operator_address-Decides}
use seedward_libs.Invariants.{
  check_bond_denom, check_self_delegation, check_moniker, check_consensus_pub_key,
}
use seedward_libs.Runner.{light_checks, run_light}

-- AllOK holds exactly when each result has passed.
all_ok_iff : (rs : List Result) → (all_ok rs ≡ true) ↔ All (λ r. r.is_ok ≡ true) rs
unfolding all_ok
all_ok_iff [] = ((λ h. tt), λ h. refl)
all_ok_iff (r ∷ rs) =
    let (to, from) = all_ok_iff rs in
    elim (Bool-cases r.is_ok) [
      | inl t ↦ rw t ((λ h. (refl, to h)), λ h. from h.1)
      | inr f ↦ rw f ((λ h. cc), λ h. cc (h.0))
    ]

Decides-check :
    (inv : Bytes) {P : Type 0} (c : Result) → Decides inv P (ok c) → (c.is_ok ≡ true) ↔ P
Decides-check inv c (r, e, i, h) = let same : c ≡ r = ok-inj e in rw same h
  where
    ok-inj : {a b : Result} → Path (Outcome Result) (ok a) (ok b) → a ≡ b
    ok-inj e = cc

pub same_value : {A : Type 0} {o : Outcome A} {a b : A} → o ≡ ok a → o ≡ ok b → a ≡ b
same_value e e' = cc

module _ (x : External) where
  -- All that the light checks are for.
  pub record PassesLight (g : ParsedGentx) (p : Params) : Type 0 where
    pub bond_denom : (¬ (p.bond_denom ≡ [])) × (g.msg.value.denom ≡ p.bond_denom)
    pub self_bond :
        ¬ (p.min_self_delegation ≡ []) → IsBonded p.min_self_delegation g.msg.value.amount
    pub consistent : IsConsistent g.msg.commission
    pub change_bounded : IsChangeBounded g.msg.commission
    pub within_bounds : IsWithinBounds g.msg.commission p
    pub moniker : IsMoniker g.msg.description.moniker p.max_moniker_len
    pub operator : IsOperatorFor x g p
    pub consensus_key :
        ((front : Bytes) × (g.msg.consensus_pub_key_type_url ≡ front ++ codes "ed25519.PubKey"))
        × (length g.msg.consensus_pub_key ≡ 32)

  pub light_checks-PassesLight :
      (g : ParsedGentx) (p : Params)
      → (rs : List Result) × (light_checks x g p ≡ ok rs) × ((all_ok rs ≡ true) ↔ PassesLight g p)
  unfolding light_checks
  light_checks-PassesLight g p =
      let (r1, e1, i1, (to1, from1)) = check_commission_consistency-Decides g in
      let (r2, e2, i2, (to2, from2)) = check_commission_change_rate-Decides g in
      let (r3, e3, i3, (to3, from3)) = check_commission_bounds-Decides g p in
      let (r4, e4, i4, (to4, from4)) = check_operator_address-Decides x g p in
      let (to5, from5) = Decides-check _ _ (check_bond_denom-Decides g p) in
      let (to6, from6) = Decides-check _ _ (check_self_delegation-Decides g p) in
      let (to7, from7) = Decides-check _ _ (check_moniker-Decides g p) in
      let (to8, from8) = Decides-check _ _ (check_consensus_pub_key-Decides g) in
      let rs =
        check_bond_denom g p
        ∷ check_self_delegation g p
        ∷ r1
        ∷ r2
        ∷ r3
        ∷ check_moniker g p
        ∷ r4
        ∷ check_consensus_pub_key g
        ∷ [] in
      let (split, join) = all_ok_iff rs in
      let to : (all_ok rs ≡ true) → PassesLight g p = λ h.
        let (a, (b, (c, (d, (e, (m, (o, (k, u)))))))) = split h in
        record {
          bond_denom = to5 a;
          self_bond = to6 b;
          consistent = to1 c;
          change_bounded = to2 d;
          within_bounds = to3 e;
          moniker = to7 m;
          operator = to4 o;
          consensus_key = to8 k;
        } in
      let from : PassesLight g p → (all_ok rs ≡ true) = λ h. join (
        from5 h.bond_denom,
        (
          from6 h.self_bond,
          (
            from1 h.consistent,
            (
              from2 h.change_bounded,
              (
                from3 h.within_bounds,
                (from7 h.moniker, (from4 h.operator, (from8 h.consensus_key, tt))),
              ),
            ),
          ),
        ),
      ) in
      (rs, rw (e1, e2, e3, e4) refl, (to, from))

  -- RunLight never panics, and all of its results have passed exactly when the document decodes to a
  -- well-formed gentx that keeps every light condition of the launch.
  pub run_light-PassesLight :
      (r : Readers) (raw : Bytes) (p : Params)
      → (rs : List Result) × (run_light x r raw p ≡ ok rs)
        × ((all_ok rs ≡ true)
            ↔ ((g : ParsedGentx) × (decode r raw ≡ ok g) × IsWellFormed g × PassesLight g p))
  unfolding run_light all_ok
  run_light-PassesLight r raw p = elim (Outcome-cases (decode r raw)) [
    | inr (inr e) ↦ absurd (Safely-panic IsWellFormed e (decode-Safely r raw))
    | inr (inl (er, e)) ↦
        (fail inv_well_formed (error_text er) ∷ [], rw e refl, ((λ h. cc), λ (g, e', w, l). cc))
    | inl (g, e) ↦
        let (rs, e', (to, from)) = light_checks-PassesLight g p in
        let formed : IsWellFormed g = Safely-ok IsWellFormed e (decode-Safely r raw) in
        (
          pass inv_well_formed ∷ rs,
          rw (e, e') refl,
          ((λ h. (g, e, formed, to h)), λ (g', e2, w, l). from (rw (same_value e e2) l)),
        )
  ]
