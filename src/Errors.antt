-- ===== src/Errors.antt =====
-- Go's (value, error) pairs in gentxvalidate. An error is kept as its format and arguments, one
-- constructor for each fmt.Errorf of the package; fmt's rendering is not modelled.
pub mod Safely
use seedward_libs.Base.{ℕ, Option, none, some, Bytes, ◌≡◌, refl, Bool, true, false, ◌⊎◌, inl, inr}

-- The answer of code outside the repository: a value, or the text of its error.
pub data Reply {ℓ} (A : Type ℓ) : Type ℓ where
  reply : A → Reply A
  refusal : Bytes → Reply A

pub data Error : Type 0 where
  -- decode.go
  parse_gentx_json : Bytes → Error
  legacy_std_tx : Bytes → Error
  message_count : ℕ → Error
  signer_info_count : ℕ → Error
  signature_count : ℕ → Error
  extension_options : Error
  parse_message : Bytes → Error
  message_type : Bytes → Error
  consensus_pubkey_encoding : Bytes → Error
  account_pubkey_encoding : Bytes → Error
  signature_encoding : Bytes → Error
  multisig_without_keys : Error
  multisig_threshold : ℕ → ℕ → Error
  multisig_without_modes : Error
  bitarray_encoding : Bytes → Error
  component_pubkey_encoding : Bytes → Error
  uint_syntax : Bytes → Bytes → Error
  uint_range : Bytes → Bytes → Error
  -- signdoc.go and aminosigndoc.go
  unsupported_mode : Bytes → Error
  empty_number : Bytes → Error
  invalid_number : Bytes → Bytes → Error
  decimal_places : Bytes → Error
  amino_key_name : Bytes → Error
  -- multisig.go
  component_prefix : ℕ → Bytes → Error
  component_mode : ℕ → Bytes → Error
  bitarray_size : ℕ → ℕ → Error
  malformed_envelope : Error
  envelope_overrun : Error
  envelope_without_signatures : Error
  multisig_counts : ℕ → ℕ → ℕ → Error
  component_key_type : ℕ → Bytes → Error
  component_key_size : ℕ → ℕ → Error
  component_signature_size : ℕ → ℕ → Error
  -- verify.go
  account_key_type : Bytes → Error
  account_key_size : ℕ → Error
  signature_size : ℕ → Error
  parse_account_pubkey : Bytes → Error
  -- address.go
  invalid_bech32 : Bytes → Error
  address_hrp : Bytes → Bytes → Error
  bech32_payload : Bytes → Error
  address_size : ℕ → Error
  bech32_bits : Bytes → Error
  bech32_encode : Bytes → Error

-- `panic` is a run-time panic, such as an index out of range.
pub data Outcome {ℓ} (A : Type ℓ) : Type ℓ where
  ok : A → Outcome A
  err : Error → Outcome A
  panic : Outcome A

-- `if !b { return err }`
abbrev pub require : Bool → Error → Outcome (Unit {0})
require false why = err why
require true why = ok tt

-- `if err != nil { return fmt.Errorf("…: %w", err) }`
abbrev pub wrap {ℓ} : {A : Type ℓ} → (Bytes → Error) → Reply A → Outcome A
wrap f (refusal text) = err (f text)
wrap f (reply a) = ok a

-- `v, err := m; if err != nil { return err }`; a panic ends what follows, too.
infixl 5 ◌>>=◌
abbrev pub ◌>>=◌ {ℓ κ} : {A : Type ℓ} {B : Type κ} → Outcome A → (A → Outcome B) → Outcome B
panic >>= next = panic
err why >>= next = err why
ok a >>= next = next a

infixl 5 ◌>>◌
abbrev pub ◌>>◌ {ℓ} : {B : Type ℓ} → Outcome (Unit {0}) → Outcome B → Outcome B
first >> second = first >>= λ done. second

-- Both parts of a chain that gave a value gave one.
pub >>=-eq-ok {ℓ κ} :
    {A : Type ℓ} {B : Type κ} (first : Outcome A) (next : A → Outcome B) {b : B}
    → (first >>= next) ≡ ok b
    → (a : A) × (first ≡ ok a) × (next a ≡ ok b)
>>=-eq-ok panic next h = cc
>>=-eq-ok (err why) next h = cc
>>=-eq-ok (ok a) next h = (a, refl, h)

pub require-eq-ok : (b : Bool) (e : Error) → require b e ≡ ok tt → b ≡ true
require-eq-ok true e h = refl
require-eq-ok false e h = cc

pub wrap-eq-ok {ℓ} :
    {A : Type ℓ} (f : Bytes → Error) (r : Reply A) {a : A} → wrap f r ≡ ok a → r ≡ reply a
wrap-eq-ok f (reply a) h = cc
wrap-eq-ok f (refusal e) h = cc

pub Reply-cases {ℓ} :
    {A : Type ℓ} (r : Reply A) → ((a : A) × (r ≡ reply a)) ⊎ ((e : Bytes) × (r ≡ refusal e))
Reply-cases (reply a) = inl (a, refl)
Reply-cases (refusal e) = inr (e, refl)

pub Outcome-cases {ℓ} :
    {A : Type ℓ} (r : Outcome A)
    → ((a : A) × (r ≡ ok a)) ⊎ (((e : Error) × (r ≡ err e)) ⊎ (r ≡ panic))
Outcome-cases (ok a) = inl (a, refl)
Outcome-cases (err e) = inr (inl (e, refl))
Outcome-cases panic = inr (inr refl)

pub Option-cases {ℓ} : {A : Type ℓ} (o : Option A) → (o ≡ none) ⊎ ((a : A) × (o ≡ some a))
Option-cases none = inl refl
Option-cases (some a) = inr (a, refl)
