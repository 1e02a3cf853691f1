-- ===== src/SignDoc/Unique.antt =====
-- The DIRECT sign bytes determine the gentx that was signed, the chain and the account number.
use seedward_libs.Base.{ℕ, ◌<◌, ◌^◌, ◌≡◌, sym, ap, ◌∙◌, Bytes, length, inl, inr, []}
use seedward_libs.Errors.{ok}
use seedward_libs.Gentx.{
  msg_create_validator_type_url, CommissionRates, SignerInfo, ParsedGentx, HasU64s,
}
use seedward_libs.Numbers.Canonical.{wire-eq_iff}
use seedward_libs.Numbers.Decimal.{scaled_value}
use seedward_libs.SignDoc.{encode_any, encode_signer_info, direct_sign_bytes}
use seedward_libs.SignDoc.Success.{
  msg_bytes, body_bytes, auth_bytes, doc_bytes, HasRates, IsSignable, direct_sign_bytes_cases,
}
use seedward_libs.SignDoc.Layout.{
  signer_fields, signer-WritesIf, body_fields, body-WritesIf, auth_fields, auth-WritesIf,
  doc_fields, doc-WritesIf,
}
use seedward_libs.SignDoc.Covers.{
  same_fields, SamePayload, same_payload, SameWires, any_covers, key_covers,
}
use seedward_libs.SignDoc.Determines.{SameMsg, msg_covers, fee_covers}
use seedward_libs.Wire.{append_bytes_field}
use seedward_libs.Wire.Messages.{get_bytes, get_varint, reading}

-- The same rates as numbers.
pub record SameRates (c c' : CommissionRates) : Type 0 where
  pub rate : scaled_value c.rate ≡ scaled_value c'.rate
  pub max_rate : scaled_value c.max_rate ≡ scaled_value c'.max_rate
  pub max_change_rate : scaled_value c.max_change_rate ≡ scaled_value c'.max_change_rate

SameWires-SameRates :
    (c c' : CommissionRates) → HasRates c → HasRates c' → SameWires c c' → SameRates c c'
SameWires-SameRates c c' h h' w = record {
  rate = (wire-eq_iff c.rate c'.rate h.rate h'.rate).0 w.rate;
  max_rate = (wire-eq_iff c.max_rate c'.max_rate h.max_rate h'.max_rate).0 w.max_rate;
  max_change_rate =
      (wire-eq_iff c.max_change_rate c'.max_change_rate h.max_change_rate h'.max_change_rate).0
        w.max_change_rate;
}

-- Two gentxs that agree in all that a signature is for.
pub record SameSigned (g g' : ParsedGentx) : Type 0 where
  pub description : g.msg.description ≡ g'.msg.description
  pub rates : SameRates g.msg.commission g'.msg.commission
  pub min_self_delegation : g.msg.min_self_delegation ≡ g'.msg.min_self_delegation
  pub delegator_address : g.msg.delegator_address ≡ g'.msg.delegator_address
  pub validator_address : g.msg.validator_address ≡ g'.msg.validator_address
  pub consensus_key_type : g.msg.consensus_pub_key_type_url ≡ g'.msg.consensus_pub_key_type_url
  pub consensus_key : g.msg.consensus_pub_key ≡ g'.msg.consensus_pub_key
  pub value : g.msg.value ≡ g'.msg.value
  pub memo : g.memo ≡ g'.memo
  pub timeout_height : g.timeout_height ≡ g'.timeout_height
  pub fee : g.fee ≡ g'.fee
  pub key_type : g.signer.pub_key_type_url ≡ g'.signer.pub_key_type_url
  pub key : g.signer.pub_key ≡ g'.signer.pub_key
  pub mode : g.signer.mode ≡ g'.signer.mode
  pub sequence : g.signer.sequence ≡ g'.signer.sequence

record SameSigner (s s' : SignerInfo) : Type 0 where
  key_type : s.pub_key_type_url ≡ s'.pub_key_type_url
  key : s.pub_key ≡ s'.pub_key
  sequence : s.sequence ≡ s'.sequence

signer_covers :
    (s s' : SignerInfo)
    → s.sequence < 2 ^ 64
    → s'.sequence < 2 ^ 64
    → SamePayload (encode_signer_info s) (encode_signer_info s')
    → SameSigner s s'
signer_covers s s' q q' (e, h) =
    let both =
      same_fields (encode_signer_info s) (encode_signer_info s') (signer_fields s)
        (signer_fields s') (signer-WritesIf s q) (signer-WritesIf s' q') e h in
    let fs : signer_fields s ≡ signer_fields s' = both.0 in
    let any : SamePayload (encode_any s.pub_key_type_url (append_bytes_field [] 1 s.pub_key))
        (encode_any s'.pub_key_type_url (append_bytes_field [] 1 s'.pub_key)) =
      simp reading at (same_payload 1 (signer_fields s) (signer_fields s') both) in
    let keys = any_covers s.pub_key_type_url _ s'.pub_key_type_url _ any in
    record {
      key_type = keys.0;
      key = key_covers s.pub_key s'.pub_key keys.1;
      sequence = simp reading at (ap (get_varint 3 0) fs);
    }

record SameBody (g g' : ParsedGentx) : Type 0 where
  msg : SameMsg g.msg g'.msg
  memo : g.memo ≡ g'.memo
  timeout_height : g.timeout_height ≡ g'.timeout_height

body_covers :
    (g g' : ParsedGentx)
    → HasU64s g
    → HasU64s g'
    → SamePayload (body_bytes g) (body_bytes g')
    → SameBody g g'
body_covers g g' u u' (e, h) =
    let both =
      same_fields (body_bytes g) (body_bytes g') (body_fields g) (body_fields g')
        (body-WritesIf g u) (body-WritesIf g' u') e h in
    let fs : body_fields g ≡ body_fields g' = both.0 in
    let any : SamePayload (encode_any msg_create_validator_type_url (msg_bytes g.msg))
        (encode_any msg_create_validator_type_url (msg_bytes g'.msg)) =
      simp reading at (same_payload 1 (body_fields g) (body_fields g') both) in
    record {
      msg = msg_covers g.msg g'.msg (any_covers _ (msg_bytes g.msg) _ (msg_bytes g'.msg) any).1;
      memo = simp reading at (ap (get_bytes 2 []) fs);
      timeout_height = simp reading at (ap (get_varint 3 0) fs);
    }

record SameAuth (g g' : ParsedGentx) : Type 0 where
  signer : SameSigner g.signer g'.signer
  fee : g.fee ≡ g'.fee

auth_covers :
    (g g' : ParsedGentx)
    → HasU64s g
    → HasU64s g'
    → SamePayload (auth_bytes g) (auth_bytes g')
    → SameAuth g g'
auth_covers g g' u u' (e, h) =
    let both =
      same_fields (auth_bytes g) (auth_bytes g') (auth_fields g) (auth_fields g') (auth-WritesIf g)
        (auth-WritesIf g') e h in
    let payload = λ (n : ℕ). same_payload n (auth_fields g) (auth_fields g') both in
    record {
      signer = signer_covers g.signer g'.signer u.sequence u'.sequence (payload 1);
      fee = fee_covers g.fee g'.fee u.gas_limit u'.gas_limit (payload 2);
    }

-- The chain, the account number and the two parts of a sign doc.
doc_covers :
    (g g' : ParsedGentx) (c c' : Bytes) (a a' : ℕ)
    → a < 2 ^ 64
    → a' < 2 ^ 64
    → SamePayload (doc_bytes g c a) (doc_bytes g' c' a')
    → (c ≡ c')
      × (a ≡ a')
      × SamePayload (body_bytes g) (body_bytes g')
      × SamePayload (auth_bytes g) (auth_bytes g')
doc_covers g g' c c' a a' ha ha' (e, h) =
    let both =
      same_fields (doc_bytes g c a) (doc_bytes g' c' a') (doc_fields g c a) (doc_fields g' c' a')
        (doc-WritesIf g c a ha) (doc-WritesIf g' c' a' ha') e h in
    let fs : doc_fields g c a ≡ doc_fields g' c' a' = both.0 in
    let payload = λ (n : ℕ). same_payload n (doc_fields g c a) (doc_fields g' c' a') both in
    (
      simp reading at (ap (get_bytes 3 []) fs),
      simp reading at (ap (get_varint 4 0) fs),
      simp reading at (payload 1),
      simp reading at (payload 2),
    )

-- DirectSignBytes succeeds only on a signable gentx, and with the doc's bytes.
pub direct_sign_bytes-ok :
    (g : ParsedGentx) (c : Bytes) (a : ℕ) {b : Bytes}
    → direct_sign_bytes g c a ≡ ok b
    → IsSignable g × (b ≡ doc_bytes g c a)
direct_sign_bytes-ok g c a h = elim (direct_sign_bytes_cases g c a) [
  | inl (s, e) ↦ (s, cc)
  | inr (n, x, e) ↦ cc
]

covered :
    (g g' : ParsedGentx)
    → IsSignable g
    → IsSignable g'
    → SameBody g g'
    → SameAuth g g'
    → SameSigned g g'
covered g g' s s' b a = record {
  description = b.msg.description;
  rates =
      SameWires-SameRates g.msg.commission g'.msg.commission s.numbers.rates s'.numbers.rates
        b.msg.commission;
  min_self_delegation = b.msg.min_self_delegation;
  delegator_address = b.msg.delegator_address;
  validator_address = b.msg.validator_address;
  consensus_key_type = b.msg.key_type;
  consensus_key = b.msg.key;
  value = b.msg.value;
  memo = b.memo;
  timeout_height = b.timeout_height;
  fee = a.fee;
  key_type = a.signer.key_type;
  key = a.signer.key;
  mode = s.mode ∙ sym s'.mode;
  sequence = a.signer.sequence;
}

-- If two gentxs whose uint64 fields are below 2 ^ 64 have the same DIRECT sign bytes, for whatever
-- chain ids and uint64 account numbers, and the bytes are fewer than 2 ^ 64, then the chain ids and
-- the account numbers are equal, and the gentxs agree in every signed field: the message, with the
-- commission rates as numbers and all else as written, memo, timeout height, fee, account key, sign
-- mode and sequence.
pub direct_sign_bytes_unique :
    (g g' : ParsedGentx) (c c' : Bytes) (a a' : ℕ) (b : Bytes)
    → HasU64s g
    → HasU64s g'
    → a < 2 ^ 64
    → a' < 2 ^ 64
    → length b < 2 ^ 64
    → direct_sign_bytes g c a ≡ ok b
    → direct_sign_bytes g' c' a' ≡ ok b
    → (c ≡ c') × (a ≡ a') × SameSigned g g'
direct_sign_bytes_unique g g' c c' a a' b u u' ha ha' h e e' =
    let (s, p) = direct_sign_bytes-ok g c a e in
    let (s', p') = direct_sign_bytes-ok g' c' a' e' in
    let (chain, account, body, auth) = doc_covers g g' c c' a a' ha ha' (sym p ∙ p', rw (← p) h) in
    (chain, account, covered g g' s s' (body_covers g g' u u' body) (auth_covers g g' u u' auth))
