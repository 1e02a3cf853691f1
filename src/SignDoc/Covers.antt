-- ===== src/SignDoc/Covers.antt =====
-- The parts of the sign bytes determine what was written: from equal bytes the parts are equal.
use mathlib.Core.List.{map}
use seedward_libs.Base.{
  ℕ, ◌<◌, ◌^◌, arith, List, [], ◌∷◌, ◌≡◌, refl, sym, ap, ◌∙◌, Bytes, length, All,
}
use seedward_libs.Gentx.{Description, CommissionRates, Coin}
use seedward_libs.Numbers.Decimal.{wire}
use seedward_libs.SignDoc.{encode_any, encode_description}
use seedward_libs.SignDoc.Success.{coin_bytes, commission_bytes}
use seedward_libs.SignDoc.Layout.{
  any_fields, any-WritesIf, coin_fields, coin-WritesIf, commission_fields, commission-WritesIf,
  description_fields, description-WritesIf, key-WritesIf, amount_fields,
}
use seedward_libs.Wire.{append_bytes_field}
use seedward_libs.Wire.Fields.{Field, IsField}
use seedward_libs.Wire.Inversion.{encode_fields_inj}
use seedward_libs.Wire.Messages.{WritesIf, get_bytes, get_bytes_sized, get_all_bytes, reading}

-- Two messages of the same bytes have the same fields, and each field fits its length.
pub same_fields :
    (b b' : Bytes) (fs gs : List Field)
    → WritesIf b fs
    → WritesIf b' gs
    → b ≡ b'
    → length b < 2 ^ 64
    → (fs ≡ gs) × All IsField fs
same_fields b b' fs gs w w' e h =
    let v = w h in
    let v' = w' (omega (arith, ap length e)) in
    (encode_fields_inj fs gs v.fields v'.fields (sym v.bytes ∙ e ∙ v'.bytes), v.fields)

-- Both hold one payload under a number, and it fits its length.
abbrev pub SamePayload : Bytes → Bytes → Type 0
SamePayload p q = (p ≡ q) × (length p < 2 ^ 64)

pub same_payload :
    (n : ℕ) (fs gs : List Field)
    → (fs ≡ gs) × All IsField fs
    → SamePayload (get_bytes n [] fs) (get_bytes n [] gs)
same_payload n fs gs (e, h) = (ap (get_bytes n []) e, get_bytes_sized n [] fs h (omega arith))

pub coin_covers :
    (c c' : Coin) → coin_bytes c ≡ coin_bytes c' → length (coin_bytes c) < 2 ^ 64 → c ≡ c'
coin_covers c c' e h =
    let fs : coin_fields c ≡ coin_fields c' =
      (same_fields (coin_bytes c) (coin_bytes c') (coin_fields c) (coin_fields c') (coin-WritesIf c)
        (coin-WritesIf c') e h).0 in
    let denom : c.denom ≡ c'.denom = simp reading at (ap (get_bytes 1 []) fs) in
    let amount : c.amount ≡ c'.amount = simp reading at (ap (get_bytes 2 []) fs) in
    λ i. record { denom = denom i; amount = amount i }

pub any_covers :
    (t v t' v' : Bytes)
    → SamePayload (encode_any t v) (encode_any t' v')
    → (t ≡ t') × SamePayload v v'
any_covers t v t' v' (e, h) =
    let both =
      same_fields (encode_any t v) (encode_any t' v') (any_fields t v) (any_fields t' v')
        (any-WritesIf t v) (any-WritesIf t' v') e h in
    (
      simp reading at (ap (get_bytes 1 []) both.0),
      simp reading at (same_payload 2 (any_fields t v) (any_fields t' v') both),
    )

pub description_covers :
    (d d' : Description)
    → encode_description d ≡ encode_description d'
    → length (encode_description d) < 2 ^ 64
    → d ≡ d'
description_covers d d' e h =
    let fs : description_fields d ≡ description_fields d' =
      (same_fields (encode_description d) (encode_description d') (description_fields d)
        (description_fields d') (description-WritesIf d) (description-WritesIf d') e h).0 in
    let moniker : d.moniker ≡ d'.moniker = simp reading at (ap (get_bytes 1 []) fs) in
    let identity : d.identity ≡ d'.identity = simp reading at (ap (get_bytes 2 []) fs) in
    let website : d.website ≡ d'.website = simp reading at (ap (get_bytes 3 []) fs) in
    let contact : d.security_contact ≡ d'.security_contact =
      simp reading at (ap (get_bytes 4 []) fs) in
    let details : d.details ≡ d'.details = simp reading at (ap (get_bytes 5 []) fs) in
    λ i. record {
      moniker = moniker i;
      identity = identity i;
      website = website i;
      security_contact = contact i;
      details = details i;
    }

pub record SameWires (c c' : CommissionRates) : Type 0 where
  pub rate : wire c.rate ≡ wire c'.rate
  pub max_rate : wire c.max_rate ≡ wire c'.max_rate
  pub max_change_rate : wire c.max_change_rate ≡ wire c'.max_change_rate

pub commission_covers :
    (c c' : CommissionRates)
    → commission_bytes c ≡ commission_bytes c'
    → length (commission_bytes c) < 2 ^ 64
    → SameWires c c'
commission_covers c c' e h =
    let fs : commission_fields c ≡ commission_fields c' =
      (same_fields (commission_bytes c) (commission_bytes c') (commission_fields c)
        (commission_fields c') (commission-WritesIf c) (commission-WritesIf c') e h).0 in
    record {
      rate = simp reading at (ap (get_bytes 1 []) fs);
      max_rate = simp reading at (ap (get_bytes 2 []) fs);
      max_change_rate = simp reading at (ap (get_bytes 3 []) fs);
    }

pub key_covers :
    (k k' : Bytes) → SamePayload (append_bytes_field [] 1 k) (append_bytes_field [] 1 k') → k ≡ k'
key_covers k k' (e, h) =
    ap (get_bytes 1 []) (same_fields _ _ _ _ (key-WritesIf k) (key-WritesIf k') e h).0

pub get_all_bytes-amount_fields :
    (cs : List Coin) → get_all_bytes 1 (amount_fields cs) ≡ map coin_bytes cs
get_all_bytes-amount_fields [] = refl
get_all_bytes-amount_fields (c ∷ cs) =
    ap {B = List Bytes} (λ ps. coin_bytes c ∷ ps) (get_all_bytes-amount_fields cs)

pub amounts_cover :
    (cs cs' : List Coin)
    → map coin_bytes cs ≡ map coin_bytes cs'
    → All (λ s. length s < 2 ^ 64) (map coin_bytes cs)
    → cs ≡ cs'
amounts_cover [] [] e h = refl
amounts_cover [] (c' ∷ cs') e h = cc
amounts_cover (c ∷ cs) [] e h = cc
amounts_cover (c ∷ cs) (c' ∷ cs') e h =
    cc (coin_covers c c' (cc) h.0, amounts_cover cs cs' (cc) h.1)
