-- ===== src/SignDoc/Success.antt =====
-- When the encoders of signdoc.go succeed, and the bytes that they then give, as pure functions of
-- the gentx. Every other gentx is an error.
use seedward_libs.Base.{
  ℕ, ◌==◌, List, [], ◌∷◌, ◌≡◌, refl, ◌⊎◌, inl, inr, Bytes, Bool-cases, codes, is_empty,
  if◌then◌else◌, All, bytes_eq, bytes_eq_iff, bytes_eq-false,
}
use seedward_libs.Errors.{Error, Outcome, ok, err, unsupported_mode}
use seedward_libs.Gentx.{
  msg_create_validator_type_url, sign_mode_direct_name, CommissionRates, Coin, MsgCreateValidator,
  Fee, ParsedGentx,
}
use seedward_libs.Numbers.Decimal.{IsDecimal, wire, legacy_dec_wire_cases}
use seedward_libs.Numbers.Digits.{IsNumber, int_wire_cases}
use seedward_libs.SignDoc.{
  encode_any, encode_coin, encode_commission, encode_description, encode_msg_create_validator,
  encode_amounts, encode_fee, encode_signer_info, encode_auth_info, encode_tx_body,
  direct_sign_bytes,
}
use seedward_libs.Wire.{append_varint_field, append_bytes_field, append_string_field}

-- The result is the value exactly when the condition holds, and an error otherwise.
abbrev pub Gives {ℓ} : {A : Type ℓ} → Type 0 → Outcome A → A → Type ℓ
Gives P r a = (P × (r ≡ ok a)) ⊎ ((¬ P) × (e : Error) × (r ≡ err e))

unfoldable pub coin_bytes : Coin → Bytes
coin_bytes c =
    append_bytes_field (if is_empty c.denom then [] else append_string_field [] 1 c.denom) 2
      c.amount

pub encode_coin_cases : (c : Coin) → Gives (IsNumber c.amount) (encode_coin c) (coin_bytes c)
unfolding encode_coin coin_bytes
encode_coin_cases c = elim (int_wire_cases c.amount (codes "coin amount")) [
  | inl (n, e) ↦ inl (n, rw e)
  | inr (n, x, e) ↦ inr (n, x, rw e)
]

pub record HasRates (c : CommissionRates) : Type 0 where
  pub rate : IsDecimal c.rate
  pub max_rate : IsDecimal c.max_rate
  pub max_change_rate : IsDecimal c.max_change_rate

unfoldable pub commission_bytes : CommissionRates → Bytes
commission_bytes c =
    append_bytes_field
      (append_bytes_field (append_bytes_field [] 1 (wire c.rate)) 2 (wire c.max_rate)) 3
      (wire c.max_change_rate)

pub encode_commission_cases :
    (c : CommissionRates) → Gives (HasRates c) (encode_commission c) (commission_bytes c)
unfolding encode_commission commission_bytes
encode_commission_cases c = elim (legacy_dec_wire_cases c.rate (codes "commission.rate")) [
  | inr (n, x, e) ↦ inr ((λ h. n h.rate), x, rw e)
  | inl (a, e) ↦ elim (legacy_dec_wire_cases c.max_rate (codes "commission.max_rate")) [
    | inr (n, x, e') ↦ inr ((λ h. n h.max_rate), x, rw (e, e'))
    | inl (b, e') ↦
        elim (legacy_dec_wire_cases c.max_change_rate (codes "commission.max_change_rate")) [
          | inr (n, x, e'') ↦ inr ((λ h. n h.max_change_rate), x, rw (e, e', e''))
          | inl (d, e'') ↦
              inl (record { rate = a; max_rate = b; max_change_rate = d }, rw (e, e', e''))
        ]
  ]
]

pub record HasNumbers (m : MsgCreateValidator) : Type 0 where
  pub rates : HasRates m.commission
  pub min_self : IsNumber m.min_self_delegation
  pub amount : IsNumber m.value.amount

unfoldable pub msg_bytes : MsgCreateValidator → Bytes
msg_bytes m =
    let cons_any =
      encode_any m.consensus_pub_key_type_url (append_bytes_field [] 1 m.consensus_pub_key) in
    let b1 = append_bytes_field [] 1 (encode_description m.description) in
    let b2 = append_bytes_field b1 2 (commission_bytes m.commission) in
    let b3 = append_bytes_field b2 3 m.min_self_delegation in
    let b4 =
      if is_empty m.delegator_address then b3 else append_string_field b3 4 m.delegator_address in
    let b5 =
      if is_empty m.validator_address then b4 else append_string_field b4 5 m.validator_address in
    append_bytes_field (append_bytes_field b5 6 cons_any) 7 (coin_bytes m.value)

pub encode_msg_cases :
    (m : MsgCreateValidator) → Gives (HasNumbers m) (encode_msg_create_validator m) (msg_bytes m)
unfolding encode_msg_create_validator msg_bytes
encode_msg_cases m = elim (encode_commission_cases m.commission) [
  | inr (n, x, e) ↦ inr ((λ h. n h.rates), x, rw e)
  | inl (a, e) ↦ elim (int_wire_cases m.min_self_delegation (codes "min_self_delegation")) [
    | inr (n, x, e') ↦ inr ((λ h. n h.min_self), x, rw (e, e'))
    | inl (b, e') ↦ elim (encode_coin_cases m.value) [
      | inr (n, x, e'') ↦ inr ((λ h. n h.amount), x, rw (e, e', e''))
      | inl (d, e'') ↦ inl (record { rates = a; min_self = b; amount = d }, rw (e, e', e''))
    ]
  ]
]

abbrev pub HasAmounts : List Coin → Type 0
HasAmounts = All (λ c. IsNumber c.amount)

unfoldable pub amounts_bytes : Bytes → List Coin → Bytes
amounts_bytes b [] = b
amounts_bytes b (c ∷ cs) = amounts_bytes (append_bytes_field b 1 (coin_bytes c)) cs

pub encode_amounts_cases :
    (b : Bytes) (cs : List Coin) → Gives (HasAmounts cs) (encode_amounts b cs) (amounts_bytes b cs)
unfolding encode_amounts amounts_bytes
encode_amounts_cases b [] = inl (tt, refl)
encode_amounts_cases b (c ∷ cs) = elim (encode_coin_cases c) [
  | inr (n, x, e) ↦ inr ((λ h. n h.0), x, rw e)
  | inl (a, e) ↦ elim (encode_amounts_cases (append_bytes_field b 1 (coin_bytes c)) cs) [
    | inr (n, x, e') ↦ inr ((λ h. n h.1), x, rw e e')
    | inl (as', e') ↦ inl ((a, as'), rw e e')
  ]
]

unfoldable pub fee_bytes : Fee → Bytes
fee_bytes f =
    let b = amounts_bytes [] f.amount in
    let b2 = if f.gas_limit == 0 then b else append_varint_field b 2 f.gas_limit in
    let b3 = if is_empty f.payer then b2 else append_string_field b2 3 f.payer in
    if is_empty f.granter then b3 else append_string_field b3 4 f.granter

pub encode_fee_cases : (f : Fee) → Gives (HasAmounts f.amount) (encode_fee f) (fee_bytes f)
unfolding encode_fee fee_bytes
encode_fee_cases f = elim (encode_amounts_cases [] f.amount) [
  | inr (n, x, e) ↦ inr (n, x, rw e)
  | inl (a, e) ↦ inl (a, rw e)
]

unfoldable pub body_bytes : ParsedGentx → Bytes
body_bytes g =
    let b1 = append_bytes_field [] 1 (encode_any msg_create_validator_type_url (msg_bytes g.msg)) in
    let b2 = if is_empty g.memo then b1 else append_string_field b1 2 g.memo in
    if g.timeout_height == 0 then b2 else append_varint_field b2 3 g.timeout_height

unfoldable pub auth_bytes : ParsedGentx → Bytes
auth_bytes g =
    append_bytes_field (append_bytes_field [] 1 (encode_signer_info g.signer)) 2 (fee_bytes g.fee)

unfoldable pub doc_bytes : ParsedGentx → Bytes → ℕ → Bytes
doc_bytes g chain_id account_number =
    let b1 = append_bytes_field [] 1 (body_bytes g) in
    let b2 = append_bytes_field b1 2 (auth_bytes g) in
    let b3 = if is_empty chain_id then b2 else append_string_field b2 3 chain_id in
    if account_number == 0 then b3 else append_varint_field b3 4 account_number

-- A gentx that has DIRECT sign bytes.
pub record IsSignable (g : ParsedGentx) : Type 0 where
  pub mode : g.signer.mode ≡ sign_mode_direct_name
  pub numbers : HasNumbers g.msg
  pub amounts : HasAmounts g.fee.amount

encode_tx_body_cases :
    (g : ParsedGentx) → Gives (HasNumbers g.msg) (encode_tx_body g) (body_bytes g)
unfolding encode_tx_body body_bytes
encode_tx_body_cases g = elim (encode_msg_cases g.msg) [
  | inr (n, x, e) ↦ inr (n, x, rw e)
  | inl (a, e) ↦ inl (a, rw e)
]

encode_auth_info_cases :
    (g : ParsedGentx) → Gives (HasAmounts g.fee.amount) (encode_auth_info g) (auth_bytes g)
unfolding encode_auth_info auth_bytes
encode_auth_info_cases g = elim (encode_fee_cases g.fee) [
  | inr (n, x, e) ↦ inr (n, x, rw e)
  | inl (a, e) ↦ inl (a, rw e)
]

-- DirectSignBytes gives the doc's bytes for exactly the signable gentxs, whatever the chain, and an
-- error for all others: it never panics.
pub direct_sign_bytes_cases :
    (g : ParsedGentx) (chain_id : Bytes) (account_number : ℕ)
    → Gives
        (IsSignable g)
        (direct_sign_bytes g chain_id account_number)
        (doc_bytes g chain_id account_number)
unfolding direct_sign_bytes doc_bytes
direct_sign_bytes_cases g c a = elim (Bool-cases (bytes_eq g.signer.mode sign_mode_direct_name)) [
  | inr wrong ↦ inr ((λ h. bytes_eq-false wrong h.mode), unsupported_mode g.signer.mode, rw wrong)
  | inl m ↦ elim (encode_tx_body_cases g) [
    | inr (n, x, e) ↦ inr ((λ h. n h.numbers), x, rw (m, e))
    | inl (b, e) ↦ elim (encode_auth_info_cases g) [
      | inr (n, x, e') ↦ inr ((λ h. n h.amounts), x, rw (m, e, e'))
      | inl (d, e') ↦
          inl (record { mode = (bytes_eq_iff _ _).0 m; numbers = b; amounts = d }, rw (m, e, e'))
    ]
  ]
]
