-- ===== src/SignDoc/Determines.antt =====
-- The message and the fee in a sign doc are determined by their bytes.
use mathlib.Core.List.{map}
use seedward_libs.Base.{
  ℕ, ◌<◌, ◌^◌, ◌≡◌, refl, sym, ap, ◌∙◌, List, [], ◌∷◌, Bytes, Bool, false, length, All, append-nil,
  ◌==◌, if◌then◌else◌,
}
use seedward_libs.Gentx.{Coin, MsgCreateValidator, Fee}
use seedward_libs.SignDoc.{encode_any, encode_description}
use seedward_libs.SignDoc.Success.{coin_bytes, commission_bytes, msg_bytes, fee_bytes}
use seedward_libs.SignDoc.Layout.{msg_fields, msg-WritesIf, fee_fields, fee-WritesIf, amount_fields}
use seedward_libs.SignDoc.Covers.{
  same_fields, SamePayload, same_payload, coin_covers, any_covers, description_covers, SameWires,
  commission_covers, key_covers, get_all_bytes-amount_fields, amounts_cover,
}
use seedward_libs.Wire.{append_bytes_field}
use seedward_libs.Wire.Messages.{
  get_bytes, get_varint, get_all_bytes, get_all_bytes_sized, reading, get_all_bytes-append,
  get_all_bytes-opt_bytes, get_all_bytes-opt_varint,
}

-- The same message, its commission rates up to their spelling.
pub record SameMsg (m m' : MsgCreateValidator) : Type 0 where
  pub description : m.description ≡ m'.description
  pub commission : SameWires m.commission m'.commission
  pub min_self_delegation : m.min_self_delegation ≡ m'.min_self_delegation
  pub delegator_address : m.delegator_address ≡ m'.delegator_address
  pub validator_address : m.validator_address ≡ m'.validator_address
  pub key_type : m.consensus_pub_key_type_url ≡ m'.consensus_pub_key_type_url
  pub key : m.consensus_pub_key ≡ m'.consensus_pub_key
  pub value : m.value ≡ m'.value

abbrev cons_any : MsgCreateValidator → Bytes
cons_any m = encode_any m.consensus_pub_key_type_url (append_bytes_field [] 1 m.consensus_pub_key)

pub msg_covers :
    (m m' : MsgCreateValidator) → SamePayload (msg_bytes m) (msg_bytes m') → SameMsg m m'
msg_covers m m' (e, h) =
    let both =
      same_fields (msg_bytes m) (msg_bytes m') (msg_fields m) (msg_fields m') (msg-WritesIf m)
        (msg-WritesIf m') e h in
    let fs : msg_fields m ≡ msg_fields m' = both.0 in
    let payload = λ (n : ℕ). same_payload n (msg_fields m) (msg_fields m') both in
    let desc : SamePayload (encode_description m.description) (encode_description m'.description) =
      simp reading at (payload 1) in
    let comm : SamePayload (commission_bytes m.commission) (commission_bytes m'.commission) =
      simp reading at (payload 2) in
    let any : SamePayload (cons_any m) (cons_any m') = simp reading at (payload 6) in
    let coin : SamePayload (coin_bytes m.value) (coin_bytes m'.value) =
      simp reading at (payload 7) in
    let keys = any_covers m.consensus_pub_key_type_url _ m'.consensus_pub_key_type_url _ any in
    record {
      description = description_covers m.description m'.description desc.0 desc.1;
      commission = commission_covers m.commission m'.commission comm.0 comm.1;
      min_self_delegation = simp reading at (ap (get_bytes 3 []) fs);
      delegator_address = simp reading at (ap (get_bytes 4 []) fs);
      validator_address = simp reading at (ap (get_bytes 5 []) fs);
      key_type = keys.0;
      key = key_covers m.consensus_pub_key m'.consensus_pub_key keys.1;
      value = coin_covers m.value m'.value coin.0 coin.1;
    }

get_all_bytes-fee_fields : (f : Fee) → get_all_bytes 1 (fee_fields f) ≡ map coin_bytes f.amount
get_all_bytes-fee_fields f = rw (
  get_all_bytes-append,
  get_all_bytes-append,
  get_all_bytes-append,
  get_all_bytes-opt_bytes 1 4 f.granter refl,
  get_all_bytes-opt_bytes 1 3 f.payer refl,
  get_all_bytes-opt_varint 1 2 f.gas_limit,
  get_all_bytes-amount_fields f.amount,
  append-nil,
  append-nil,
  append-nil,
)

get_bytes-amount_fields :
    (n : ℕ) (d : Bytes) (cs : List Coin) → (n == 1) ≡ false → get_bytes n d (amount_fields cs) ≡ d
get_bytes-amount_fields n d [] h = refl
get_bytes-amount_fields n d (c ∷ cs) h =
    ap (λ (t : Bool). get_bytes n (if t then coin_bytes c else d) (amount_fields cs)) h
    ∙ get_bytes-amount_fields n d cs h

get_varint-amount_fields : (n d : ℕ) (cs : List Coin) → get_varint n d (amount_fields cs) ≡ d
get_varint-amount_fields n d [] = refl
get_varint-amount_fields n d (c ∷ cs) = get_varint-amount_fields n d cs

pub fee_covers :
    (f f' : Fee)
    → f.gas_limit < 2 ^ 64
    → f'.gas_limit < 2 ^ 64
    → SamePayload (fee_bytes f) (fee_bytes f')
    → f ≡ f'
fee_covers f f' g g' (e, h) =
    let both =
      same_fields (fee_bytes f) (fee_bytes f') (fee_fields f) (fee_fields f') (fee-WritesIf f g)
        (fee-WritesIf f' g') e h in
    let fs : fee_fields f ≡ fee_fields f' = both.0 in
    let coins : map coin_bytes f.amount ≡ map coin_bytes f'.amount =
      sym (get_all_bytes-fee_fields f) ∙ ap (get_all_bytes 1) fs ∙ get_all_bytes-fee_fields f' in
    let sized : All (λ s. length s < 2 ^ 64) (map coin_bytes f.amount) =
      rw (get_all_bytes-fee_fields f) at (get_all_bytes_sized 1 (fee_fields f) both.1) in
    let amount : f.amount ≡ f'.amount = amounts_cover f.amount f'.amount coins sized in
    let gas : f.gas_limit ≡ f'.gas_limit =
      simp (reading, get_varint-amount_fields) at (ap (get_varint 2 0) fs) in
    let payer : f.payer ≡ f'.payer =
      simp
        (
          reading,
          get_bytes-amount_fields 3 [] f.amount refl,
          get_bytes-amount_fields 3 [] f'.amount refl,
        )
        at (ap (get_bytes 3 []) fs) in
    let granter : f.granter ≡ f'.granter =
      simp
        (
          reading,
          get_bytes-amount_fields 4 [] f.amount refl,
          get_bytes-amount_fields 4 [] f'.amount refl,
        )
        at (ap (get_bytes 4 []) fs) in
    λ i. record { amount = amount i; gas_limit = gas i; payer = payer i; granter = granter i }
