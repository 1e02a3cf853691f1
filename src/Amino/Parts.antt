-- ===== src/Amino/Parts.antt =====
-- The parts of an amino sign document: each tells its gentx's fields.
use seedward_libs.Base.{
  ℕ, ◌<◌, ◌^◌, ◌==◌, arith, List, [], ◌∷◌, ◌≡◌, refl, sym, ap, ◌∙◌, inl, inr, Bool-cases, Bytes,
  All, codes, bytes_eq, is_empty, IsByte, not, if◌then◌else◌,
}
use seedward_libs.Amino.{
  amino_coin, amino_coins, amino_commission, amino_description, amino_pub_key, amino_msg,
  timeout_text,
}
use seedward_libs.Amino.Shape.{entry, text, Slot, must, omit_empty, slots, slot, get-slots}
use seedward_libs.Base64.{encode-injective}
use seedward_libs.Gentx.{Description, CommissionRates, Coin, ParsedGentx}
use seedward_libs.Json.{Json, str, obj, Items, item}
use seedward_libs.Numbers.Digits.{digits_value}
use seedward_libs.Numbers.Format.{format_uint, format_uint-value}

-- A text is read back from a slot that may be omitted.
pub read_slot :
    (k s : Bytes) (ps : List (Bytes × Slot))
    → slot k ps ≡ (if not (is_empty s) then str s else str [])
    → text (entry k (obj (slots ps))) ≡ s
read_slot k [] ps e = ap text (get-slots k ps ∙ e)
read_slot k (b ∷ s) ps e = ap text (get-slots k ps ∙ e)

pub same_entry : {v v' : Json} (k : Bytes) → v ≡ v' → entry k v ≡ entry k v'
same_entry k e = ap (λ (v : Json). entry k v) e

pub same_text :
    {v v' : Json} {s s' : Bytes} (k : Bytes)
    → v ≡ v'
    → text (entry k v) ≡ s
    → text (entry k v') ≡ s'
    → s ≡ s'
same_text k e r r' = sym r ∙ ap text (same_entry k e) ∙ r'

pub same_plain_text : {v v' : Json} (k : Bytes) → v ≡ v' → text (entry k v) ≡ text (entry k v')
same_plain_text k e = ap text (same_entry k e)

abbrev description_slots : Description → List (Bytes × Slot)
description_slots d =
    (codes "details", omit_empty d.details)
    ∷ (codes "identity", omit_empty d.identity)
    ∷ (codes "moniker", omit_empty d.moniker)
    ∷ (codes "security_contact", omit_empty d.security_contact)
    ∷ (codes "website", omit_empty d.website)
    ∷ []

description-injective : (d d' : Description) → amino_description d ≡ amino_description d' → d ≡ d'
unfolding bytes_eq
description-injective d d' e =
    let ps = description_slots d in
    let ps' = description_slots d' in
    let details =
      same_text (codes "details") e (read_slot _ d.details ps refl)
        (read_slot _ d'.details ps' refl) in
    let identity =
      same_text (codes "identity") e (read_slot _ d.identity ps refl)
        (read_slot _ d'.identity ps' refl) in
    let moniker =
      same_text (codes "moniker") e (read_slot _ d.moniker ps refl)
        (read_slot _ d'.moniker ps' refl) in
    let security_contact =
      same_text (codes "security_contact") e (read_slot _ d.security_contact ps refl)
        (read_slot _ d'.security_contact ps' refl) in
    let website =
      same_text (codes "website") e (read_slot _ d.website ps refl)
        (read_slot _ d'.website ps' refl) in
    cc

commission-injective : (c c' : CommissionRates) → amino_commission c ≡ amino_commission c' → c ≡ c'
unfolding bytes_eq
commission-injective c c' e =
    let change : c.max_change_rate ≡ c'.max_change_rate =
      same_plain_text (codes "max_change_rate") e in
    let top : c.max_rate ≡ c'.max_rate = same_plain_text (codes "max_rate") e in
    let rate : c.rate ≡ c'.rate = same_plain_text (codes "rate") e in cc

coin-injective : (c c' : Coin) → amino_coin c ≡ amino_coin c' → c ≡ c'
unfolding bytes_eq
coin-injective c c' e =
    let amount : c.amount ≡ c'.amount = same_plain_text (codes "amount") e in
    let denom : c.denom ≡ c'.denom = same_plain_text (codes "denom") e in cc

first_item : {v w : Json} {xs ys : Items} → item v xs ≡ item w ys → v ≡ w
first_item e = cc

later_items : {v w : Json} {xs ys : Items} → item v xs ≡ item w ys → xs ≡ ys
later_items e = cc

pub coins-injective : (cs ds : List Coin) → amino_coins cs ≡ amino_coins ds → cs ≡ ds
coins-injective [] [] e = refl
coins-injective [] (d ∷ ds) e = cc
coins-injective (c ∷ cs) [] e = cc
coins-injective (c ∷ cs) (d ∷ ds) e =
    let head = coin-injective c d (first_item e) in
    let tail = coins-injective cs ds (later_items e) in cc

pub format_uint-injective :
    (n m : ℕ) → n < 2 ^ 64 → m < 2 ^ 64 → format_uint n ≡ format_uint m → n ≡ m
format_uint-injective n m h k e =
    sym (format_uint-value n h).1
    ∙ ap (λ (s : Bytes). digits_value 0 s) e
    ∙ (format_uint-value m k).1

timeout_text-value : (n : ℕ) → n < 2 ^ 64 → digits_value 0 (timeout_text n) ≡ n
timeout_text-value n h = elim (Bool-cases (n == 0)) [
  | inl t ↦ let none_set : n ≡ 0 = ground arith in rw (t, none_set) refl
  | inr f ↦ rw f (format_uint-value n h).1
]

pub timeout_text-injective :
    (n m : ℕ) → n < 2 ^ 64 → m < 2 ^ 64 → timeout_text n ≡ timeout_text m → n ≡ m
timeout_text-injective n m h k e =
    sym (timeout_text-value n h) ∙ ap (λ (s : Bytes). digits_value 0 s) e ∙ timeout_text-value m k

abbrev value_slots : ParsedGentx → Bytes → List (Bytes × Slot)
value_slots g name =
    let m = g.msg in
    (codes "commission", must (amino_commission m.commission))
    ∷ (codes "delegator_address", omit_empty m.delegator_address)
    ∷ (codes "description", must (amino_description m.description))
    ∷ (codes "min_self_delegation", must (str m.min_self_delegation))
    ∷ (codes "pubkey", must (amino_pub_key name m.consensus_pub_key))
    ∷ (codes "validator_address", omit_empty m.validator_address)
    ∷ (codes "value", must (amino_coin m.value))
    ∷ []

-- Two messages that agree but for the type of the consensus key.
pub record SameMsg (g g' : ParsedGentx) : Type 0 where
  pub description : g.msg.description ≡ g'.msg.description
  pub commission : g.msg.commission ≡ g'.msg.commission
  pub min_self_delegation : g.msg.min_self_delegation ≡ g'.msg.min_self_delegation
  pub delegator_address : g.msg.delegator_address ≡ g'.msg.delegator_address
  pub validator_address : g.msg.validator_address ≡ g'.msg.validator_address
  pub consensus_key : g.msg.consensus_pub_key ≡ g'.msg.consensus_pub_key
  pub value : g.msg.value ≡ g'.msg.value

pub msg_covers :
    (g g' : ParsedGentx) (name : Bytes)
    → All IsByte g.msg.consensus_pub_key
    → All IsByte g'.msg.consensus_pub_key
    → amino_msg g name ≡ amino_msg g' name
    → SameMsg g g'
unfolding bytes_eq
msg_covers g g' name h h' e =
    let ps = value_slots g name in
    let ps' = value_slots g' name in
    let value : obj (slots ps) ≡ obj (slots ps') = same_entry (codes "value") e in
    let part = λ (k : Bytes). sym (get-slots k ps) ∙ same_entry k value ∙ get-slots k ps' in
    record {
      description = description-injective _ _ (part (codes "description"));
      commission = commission-injective _ _ (part (codes "commission"));
      min_self_delegation = ap text (part (codes "min_self_delegation"));
      delegator_address =
          same_text (codes "delegator_address") value
            (read_slot (codes "delegator_address") g.msg.delegator_address ps refl)
            (read_slot (codes "delegator_address") g'.msg.delegator_address ps' refl);
      validator_address =
          same_text (codes "validator_address") value
            (read_slot (codes "validator_address") g.msg.validator_address ps refl)
            (read_slot (codes "validator_address") g'.msg.validator_address ps' refl);
      consensus_key =
          encode-injective _ _ h h' (same_plain_text (codes "value") (part (codes "pubkey")));
      value = coin-injective _ _ (part (codes "value"));
    }
