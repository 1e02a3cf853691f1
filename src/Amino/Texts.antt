-- ===== src/Amino/Texts.antt =====
-- The strings of an amino sign document are valid UTF-8 if those of the gentx are.
use seedward_libs.Base.{
  ℕ, ◌<◌, ◌^◌, arith, true, List, [], ◌∷◌, ◌≡◌, refl, Bytes, All, codes, ltb, ◌==◌, inl, inr,
  Bool-cases,
}
use seedward_libs.Amino.{
  optional_field, amino_coin, amino_coins, amino_commission, amino_description, amino_pub_key,
  amino_msg, amino_fee, timeout_text, amino_std_sign_doc,
}
use seedward_libs.Base64
use seedward_libs.Base64.{encode_ascii}
use seedward_libs.Gentx.{Coin, ParsedGentx, HasU64s}
use seedward_libs.Json.{Fields, no_fields}
use seedward_libs.Json.Values.{IsText, AreTexts, HasTexts}
use seedward_libs.Numbers.Digits.{AllDigits}
use seedward_libs.Numbers.Format.{format_uint, format_uint-value}
use seedward_libs.Utf8.{decode_rune, steps, valid_string}

abbrev pub IsUtf8 : Bytes → Type 0
IsUtf8 s = valid_string s ≡ true

abbrev pub IsCoinUtf8 : Coin → Type 0
IsCoinUtf8 c = IsUtf8 c.denom × IsUtf8 c.amount

-- The strings of a gentx that its amino sign bytes hold.
pub record HasUtf8 (g : ParsedGentx) : Type 0 where
  pub moniker : IsUtf8 g.msg.description.moniker
  pub identity : IsUtf8 g.msg.description.identity
  pub website : IsUtf8 g.msg.description.website
  pub security_contact : IsUtf8 g.msg.description.security_contact
  pub details : IsUtf8 g.msg.description.details
  pub rate : IsUtf8 g.msg.commission.rate
  pub max_rate : IsUtf8 g.msg.commission.max_rate
  pub max_change_rate : IsUtf8 g.msg.commission.max_change_rate
  pub min_self_delegation : IsUtf8 g.msg.min_self_delegation
  pub delegator_address : IsUtf8 g.msg.delegator_address
  pub validator_address : IsUtf8 g.msg.validator_address
  pub value : IsCoinUtf8 g.msg.value
  pub memo : IsUtf8 g.memo
  pub fee : All IsCoinUtf8 g.fee.amount

ascii-IsUtf8 : (s : Bytes) → All (λ b. b < 0x80) s → IsUtf8 s
unfolding valid_string steps decode_rune
ascii-IsUtf8 [] h = refl
ascii-IsUtf8 (b ∷ s) (hb, h) = let t : ltb b 0x80 ≡ true = ground arith in rw t (ascii-IsUtf8 s h)

digits-IsUtf8 : (s : Bytes) → AllDigits s → IsUtf8 s
digits-IsUtf8 s h = ascii-IsUtf8 s (below s h)
  where
    below : (s : Bytes) → AllDigits s → All (λ b. b < 0x80) s
    below [] h = tt
    below (b ∷ s) (hb, h) = (omega arith, below s h)

pub format_uint-IsUtf8 : (n : ℕ) → n < 2 ^ 64 → IsUtf8 (format_uint n)
format_uint-IsUtf8 n h = digits-IsUtf8 (format_uint n) (format_uint-value n h).0

pub timeout_text-IsUtf8 : (n : ℕ) → n < 2 ^ 64 → IsUtf8 (timeout_text n)
timeout_text-IsUtf8 n h = elim (Bool-cases (n == 0)) [
  | inl t ↦ rw t (unfold valid_string steps in refl)
  | inr f ↦ rw f (format_uint-IsUtf8 n h)
]

pub optional_field-HasTexts :
    (k s : Bytes) (rest : Fields)
    → IsUtf8 k
    → IsUtf8 s
    → HasTexts rest
    → HasTexts (optional_field k s rest)
unfolding optional_field
optional_field-HasTexts k [] rest hk hs h = h
optional_field-HasTexts k (c ∷ s) rest hk hs h = (hk, hs, h)

coins-AreTexts : (cs : List Coin) → All IsCoinUtf8 cs → AreTexts (amino_coins cs)
unfolding valid_string steps decode_rune
coins-AreTexts [] h = tt
coins-AreTexts (c ∷ cs) (hc, h) = ((refl, hc.1, (refl, hc.0, tt)), coins-AreTexts cs h)

base64-IsUtf8 : (s : Bytes) → IsUtf8 (Base64.encode s)
base64-IsUtf8 s = ascii-IsUtf8 (Base64.encode s) (encode_ascii s)

commission-IsText : (g : ParsedGentx) → HasUtf8 g → IsText (amino_commission g.msg.commission)
unfolding valid_string steps decode_rune
commission-IsText g u = (refl, u.max_change_rate, (refl, u.max_rate, (refl, u.rate, tt)))

description-IsText : (g : ParsedGentx) → HasUtf8 g → IsText (amino_description g.msg.description)
unfolding valid_string steps decode_rune
description-IsText g u =
    let o = optional_field-HasTexts in
    let d = g.msg.description in
    o (codes "details") d.details _ refl u.details (
      o (codes "identity") d.identity _ refl u.identity (
        o (codes "moniker") d.moniker _ refl u.moniker (
          o (codes "security_contact") d.security_contact _ refl u.security_contact
            (o (codes "website") d.website no_fields refl u.website tt))))

msg-IsText : (g : ParsedGentx) (name : Bytes) → HasUtf8 g → IsUtf8 name → IsText (amino_msg g name)
unfolding valid_string steps decode_rune
msg-IsText g name u hname =
    let m = g.msg in
    let key : IsText (amino_pub_key name m.consensus_pub_key) =
      (refl, hname, (refl, base64-IsUtf8 m.consensus_pub_key, tt)) in
    let amount : IsText (amino_coin m.value) = (refl, u.value.1, (refl, u.value.0, tt)) in
    let validator =
      optional_field-HasTexts (codes "validator_address") m.validator_address _ refl
        u.validator_address (refl, amount, tt) in
    let delegator =
      optional_field-HasTexts (codes "delegator_address") m.delegator_address _ refl
        u.delegator_address
        (refl, description-IsText g u, (refl, u.min_self_delegation, (refl, key, validator))) in
    (refl, refl, (refl, (refl, commission-IsText g u, delegator), tt))

-- All strings of the document are valid UTF-8.
pub amino_std_sign_doc-IsText :
    (g : ParsedGentx) (chain_id : Bytes) (account_number : ℕ) (name : Bytes)
    → HasUtf8 g
    → HasU64s g
    → IsUtf8 chain_id
    → account_number < 2 ^ 64
    → IsUtf8 name
    → IsText (amino_std_sign_doc g chain_id account_number name)
unfolding valid_string steps decode_rune
amino_std_sign_doc-IsText g chain_id n name u h hc hn hname =
    let fee : IsText (amino_fee g) = (
      refl,
      coins-AreTexts g.fee.amount u.fee,
      (refl, format_uint-IsUtf8 g.fee.gas_limit h.gas_limit, tt),
    ) in
    let timeout =
      optional_field-HasTexts (codes "timeout_height") (timeout_text g.timeout_height) no_fields
        refl (timeout_text-IsUtf8 g.timeout_height h.timeout_height) tt in
    let sequence = format_uint-IsUtf8 g.signer.sequence h.sequence in
    (
      refl,
      format_uint-IsUtf8 n hn,
      (
        refl,
        hc,
        (
          refl,
          fee,
          (refl, u.memo, (refl, (msg-IsText g name u hname, tt), (refl, sequence, timeout))),
        ),
      ),
    )
