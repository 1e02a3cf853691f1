-- ===== src/Invariants/Light.antt =====
-- The checks of gentxvalidate/invariants.go that compare a field with the launch's parameters.
use seedward_libs.Base.{
  ◌≤◌, arith, Bool, true, false, [], ◌∷◌, ◌++◌, ◌≡◌, refl, inl, inr, Bool-cases, Bytes, codes,
  is_empty, length, take, drop, ltb, leb, ◌-◌, ◌==◌, ◌&&◌, ◌↔◌, ◌∙◌, sym, ap, length-append,
  drop-append, take-append-drop, bytes_eq_refl, bytes_eq, bytes_eq_iff, bytes_eq-false,
}
use seedward_libs.Errors.{ok}
use seedward_libs.Gentx.{ParsedGentx, Params}
use seedward_libs.Numbers.{big_lt}
use seedward_libs.Report.{
  Decides, inv_chain_id, inv_bond_denom, inv_self_delegation, inv_consensus_pub_key,
  consensus_key_type,
}
use seedward_libs.Report.Decisions.{Decides-fail, Decides-yes}
use seedward_libs.Invariants.Amounts.{IsAmount, amount, amount_cases}
use seedward_libs.Invariants.{
  check_chain_id, check_bond_denom, check_self_delegation, has_suffix, check_consensus_pub_key,
  ed25519_pub_key_type_suffix,
}

pub is_empty-true : (s : Bytes) → is_empty s ≡ true → s ≡ []
is_empty-true [] h = refl
is_empty-true (c ∷ s) h = cc

pub is_empty-false : (s : Bytes) → is_empty s ≡ false → ¬ (s ≡ [])
is_empty-false [] h e = cc
is_empty-false (c ∷ s) h e = cc

-- The chain-id check passes exactly when the launch has a chain-id and the claimed one is it.
pub check_chain_id-Decides :
    (claimed : Bytes) (p : Params)
    → Decides inv_chain_id
        ((¬ (p.chain_id ≡ [])) × (claimed ≡ p.chain_id))
        (ok (check_chain_id claimed p))
unfolding check_chain_id
check_chain_id-Decides claimed p =
    let inv = inv_chain_id in
    elim (Bool-cases (is_empty p.chain_id)) [
      | inl t ↦ rw t (Decides-fail inv _ (λ h. h.0 (is_empty-true p.chain_id t)))
      | inr f ↦ elim (Bool-cases (bytes_eq claimed p.chain_id)) [
        | inl e ↦ rw (f, e) (Decides-yes inv (is_empty-false p.chain_id f, (bytes_eq_iff _ _).0 e))
        | inr n ↦ rw (f, n) (Decides-fail inv _ (λ h. bytes_eq-false n h.1))
      ]
    ]

-- The bond-denom check passes exactly when the launch has a bond denom and the self-bond is in it.
pub check_bond_denom-Decides :
    (g : ParsedGentx) (p : Params)
    → Decides inv_bond_denom
        ((¬ (p.bond_denom ≡ [])) × (g.msg.value.denom ≡ p.bond_denom))
        (ok (check_bond_denom g p))
unfolding check_bond_denom
check_bond_denom-Decides g p =
    let inv = inv_bond_denom in
    elim (Bool-cases (is_empty p.bond_denom)) [
      | inl t ↦ rw t (Decides-fail inv _ (λ h. h.0 (is_empty-true p.bond_denom t)))
      | inr f ↦ elim (Bool-cases (bytes_eq g.msg.value.denom p.bond_denom)) [
        | inl e ↦
            rw (f, e) (Decides-yes inv (is_empty-false p.bond_denom f, (bytes_eq_iff _ _).0 e))
        | inr n ↦ rw (f, n) (Decides-fail inv _ (λ h. bytes_eq-false n h.1))
      ]
    ]

-- The self-bond is at least the launch's floor; an empty parameter declares none.
pub record IsBonded (floor self_bond : Bytes) : Type 0 where
  pub floor_amount : IsAmount floor
  pub bond_amount : IsAmount self_bond
  pub enough : amount floor ≤ amount self_bond

-- The self-delegation check passes exactly when the launch declares no floor, or the floor and the
-- self-bond are non-negative integers and the self-bond is at least the floor.
pub check_self_delegation-Decides :
    (g : ParsedGentx) (p : Params)
    → Decides inv_self_delegation
        (¬ (p.min_self_delegation ≡ []) → IsBonded p.min_self_delegation g.msg.value.amount)
        (ok (check_self_delegation g p))
unfolding check_self_delegation big_lt
check_self_delegation-Decides g p =
    let inv = inv_self_delegation in
    let floor = p.min_self_delegation in
    let bond = g.msg.value.amount in
    elim (Bool-cases (is_empty floor)) [
      | inl t ↦ rw t (Decides-yes inv (λ n. absurd (n (is_empty-true floor t))))
      | inr f ↦
          let present = is_empty-false floor f in
          elim (amount_cases floor) [
            | inr (n, e) ↦ rw (f, e) (Decides-fail inv _ (λ h. n (h present).floor_amount))
            | inl (a, e) ↦ elim (amount_cases bond) [
              | inr (n, e') ↦ rw (f, e, e') (Decides-fail inv _ (λ h. n (h present).bond_amount))
              | inl (b, e') ↦ elim (Bool-cases (ltb (amount bond) (amount floor))) [
                | inl l ↦
                    rw (f, e, e', l) (Decides-fail inv _ (λ h. ground (arith, (h present).enough)))
                | inr l ↦
                    rw (f, e, e', l)
                      (Decides-yes inv
                        (λ q. record { floor_amount = a; bond_amount = b; enough = ground arith }))
              ]
            ]
          ]
    ]

&&-true : (a b : Bool) → (a && b) ≡ true → (a ≡ true) × (b ≡ true)
&&-true true true h = (refl, refl)
&&-true true false h = cc
&&-true false b h = cc

has_suffix-append : (front suffix : Bytes) → has_suffix (front ++ suffix) suffix ≡ true
unfolding has_suffix
has_suffix-append front suffix =
    let l = length-append front suffix in
    let le : leb (length suffix) (length (front ++ suffix)) ≡ true = ground (arith, l) in
    let n : length (front ++ suffix) - length suffix ≡ length front = omega (arith, l) in
    rw (le, n, drop-append front suffix) (bytes_eq_refl suffix)

-- The source's HasSuffix holds exactly when the string ends in the suffix.
has_suffix_iff :
    (s suffix : Bytes) → (has_suffix s suffix ≡ true) ↔ ((front : Bytes) × (s ≡ front ++ suffix))
unfolding has_suffix
has_suffix_iff s suffix =
    let n = length s - length suffix in
    (
      (λ h.
          let e = (bytes_eq_iff (drop n s) suffix).0 (&&-true _ _ h).1 in
          (take n s, sym (take-append-drop n s) ∙ ap {B = Bytes} (λ r. take n s ++ r) e)),
      (λ (front, e). rw e (has_suffix-append front suffix)),
    )

-- The consensus-key check passes exactly when the key's type ends in "ed25519.PubKey" and the key
-- is 32 bytes long.
pub check_consensus_pub_key-Decides :
    (g : ParsedGentx)
    → Decides inv_consensus_pub_key
        (((front : Bytes) × (g.msg.consensus_pub_key_type_url ≡ front ++ codes "ed25519.PubKey"))
          × (length g.msg.consensus_pub_key ≡ 32))
        (ok (check_consensus_pub_key g))
unfolding check_consensus_pub_key
check_consensus_pub_key-Decides g =
    let inv = inv_consensus_pub_key in
    let url = g.msg.consensus_pub_key_type_url in
    let ends = has_suffix_iff url ed25519_pub_key_type_suffix in
    elim (Bool-cases (has_suffix url ed25519_pub_key_type_suffix)) [
      | inr n ↦ rw n (Decides-fail inv (consensus_key_type url) (λ h. cc (ends.1 h.0)))
      | inl t ↦ elim (Bool-cases (length g.msg.consensus_pub_key == 32)) [
        | inr n ↦ rw (t, n) (Decides-fail inv _ (λ h. ground (arith, h.1)))
        | inl e ↦ rw (t, e) (Decides-yes inv (ends.0 t, ground arith))
      ]
    ]
