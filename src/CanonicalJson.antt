-- ===== src/CanonicalJson.antt =====
-- canonicaljson/canonicaljson.go: JSON with sorted keys and no whitespace. What encoding/json reads is a
-- parameter; a map is the list of its entries in the order of one iteration.
pub mod Keys
pub mod Maps
pub mod Stable
pub mod Fuel
pub mod Signing
use seedward_libs.Base.{
  ℕ, zero, suc, ◌-◌, ◌==◌, Bool, true, false, not, List, [], ◌∷◌, ◌++◌, Option, none, some, Bytes,
  codes, length, is_empty, ltb, bytes_eq, if◌then◌else◌, map, reverse,
}
use seedward_libs.Errors.{Reply, reply, refusal}
use seedward_libs.Json.{str, comma, marshal}

-- encoding/json: Marshal of the value to encode, Unmarshal into a map, a slice and an `any`, and Marshal
-- of that scalar.
pub record Codec (Value Scalar : Type 0) : Type 0 where
  pub marshal_value : Value → Reply Bytes
  pub unmarshal_object : Bytes → Reply (List (Bytes × Bytes))
  pub unmarshal_array : Bytes → Reply (List Bytes)
  pub unmarshal_scalar : Bytes → Reply Scalar
  pub marshal_scalar : Scalar → Reply Bytes

pub data Failure : Type 0 where
  marshal_failed : Bytes → Failure
  marshal_for_signing_failed : Bytes → Failure
  not_an_object : Bytes → Failure
  empty_input : Failure
  json_failed : Bytes → Failure
  -- of the model: canonicaliseRaw was called more deeply than the fuel allows
  out_of_fuel : Failure

pub data Answer (A : Type 0) : Type 0 where
  answer : A → Answer A
  failure : Failure → Answer A

infixl 5 ◌>>=◌
abbrev pub ◌>>=◌ : {A B : Type 0} → Answer A → (A → Answer B) → Answer B
failure f >>= next = failure f
answer a >>= next = next a

abbrev pub checked : {A : Type 0} → (Bytes → Failure) → Reply A → Answer A
checked f (reply a) = answer a
checked f (refusal text) = failure (f text)

-- unicode.IsSpace in UTF-8
abbrev pub spaces : List Bytes
spaces =
    (0x09 ∷ [])
    ∷ (0x0A ∷ [])
    ∷ (0x0B ∷ [])
    ∷ (0x0C ∷ [])
    ∷ (0x0D ∷ [])
    ∷ (0x20 ∷ [])
    ∷ (0xC2 ∷ 0x85 ∷ [])
    ∷ (0xC2 ∷ 0xA0 ∷ [])
    ∷ (0xE1 ∷ 0x9A ∷ 0x80 ∷ [])
    ∷ (0xE2 ∷ 0x80 ∷ 0x80 ∷ [])
    ∷ (0xE2 ∷ 0x80 ∷ 0x81 ∷ [])
    ∷ (0xE2 ∷ 0x80 ∷ 0x82 ∷ [])
    ∷ (0xE2 ∷ 0x80 ∷ 0x83 ∷ [])
    ∷ (0xE2 ∷ 0x80 ∷ 0x84 ∷ [])
    ∷ (0xE2 ∷ 0x80 ∷ 0x85 ∷ [])
    ∷ (0xE2 ∷ 0x80 ∷ 0x86 ∷ [])
    ∷ (0xE2 ∷ 0x80 ∷ 0x87 ∷ [])
    ∷ (0xE2 ∷ 0x80 ∷ 0x88 ∷ [])
    ∷ (0xE2 ∷ 0x80 ∷ 0x89 ∷ [])
    ∷ (0xE2 ∷ 0x80 ∷ 0x8A ∷ [])
    ∷ (0xE2 ∷ 0x80 ∷ 0xA8 ∷ [])
    ∷ (0xE2 ∷ 0x80 ∷ 0xA9 ∷ [])
    ∷ (0xE2 ∷ 0x80 ∷ 0xAF ∷ [])
    ∷ (0xE2 ∷ 0x81 ∷ 0x9F ∷ [])
    ∷ (0xE3 ∷ 0x80 ∷ 0x80 ∷ [])
    ∷ []

abbrev starts_with : Bytes → Bytes → Bool
starts_with [] s = true
starts_with (c ∷ p) [] = false
starts_with (c ∷ p) (b ∷ s) = let rest = starts_with p s in if c == b then rest else false

-- The length of the space that a text starts with, 0 if it starts with none.
leading_space : List Bytes → Bytes → ℕ
leading_space [] s = 0
leading_space (p ∷ ps) s =
    let other = leading_space ps s in if starts_with p s then length p else other

-- Without the spaces at the front; the first argument counts the bytes of a space still to skip.
trim_front : List Bytes → ℕ → Bytes → Bytes
unfolding leading_space
trim_front ps skip [] = []
trim_front ps (suc skip) (b ∷ s) = trim_front ps skip s
trim_front ps zero (b ∷ s) =
    let n = leading_space ps (b ∷ s) in
    let trimmed = trim_front ps (n - 1) s in if n == 0 then b ∷ s else trimmed

-- bytes.TrimSpace
unfoldable pub trim_space : Bytes → Bytes
unfolding trim_front
trim_space s = reverse (trim_front (map reverse spaces) 0 (reverse (trim_front spaces 0 s)))

-- Go's `<` on strings
abbrev pub bytes_ltb : Bytes → Bytes → Bool
bytes_ltb s [] = false
bytes_ltb [] (c ∷ t) = true
bytes_ltb (b ∷ s) (c ∷ t) =
    let rest = bytes_ltb s t in if ltb b c then true else if ltb c b then false else rest

abbrev pub insert_key : Bytes → List Bytes → List Bytes
insert_key k [] = k ∷ []
insert_key k (j ∷ ks) = let rest = insert_key k ks in if bytes_ltb j k then j ∷ rest else k ∷ j ∷ ks

-- sort.Strings
unfoldable pub sort_keys : List Bytes → List Bytes
sort_keys [] = []
sort_keys (k ∷ ks) = insert_key k (sort_keys ks)

abbrev pub keys_of : List (Bytes × Bytes) → List Bytes
keys_of [] = []
keys_of ((k, v) ∷ m) = k ∷ keys_of m

-- `m[k]`, which is nil if there is no such key.
abbrev pub lookup : List (Bytes × Bytes) → Bytes → Option Bytes
lookup [] k = none
lookup ((j, v) ∷ m) k = let rest = lookup m k in if bytes_eq j k then some v else rest

abbrev pub or_nil : Option Bytes → Bytes
or_nil none = []
or_nil (some v) = v

-- `delete(m, k)`
unfoldable pub delete_key : Bytes → List (Bytes × Bytes) → List (Bytes × Bytes)
delete_key k [] = []
delete_key k ((j, v) ∷ m) =
    let rest = delete_key k m in if bytes_eq j k then rest else (j, v) ∷ rest

module _ (canonicalise : Bytes → Answer Bytes) where
  -- The loop of serialiseObject over the keys, with the end of the object.
  unfoldable pub write_fields : List (Bytes × Bytes) → Bool → List Bytes → Answer Bytes
  write_fields m first [] = answer (b'}' ∷ [])
  write_fields m first (k ∷ ks) = do
    value ← canonicalise (or_nil (lookup m k))
    rest ← write_fields m false ks
    answer (comma first (marshal (str k) ++ b':' ∷ value ++ rest))

  unfoldable pub serialise_object : List (Bytes × Bytes) → Answer Bytes
  unfolding write_fields
  serialise_object m = do
    fields ← write_fields m true (sort_keys (keys_of m))
    answer (b'{' ∷ fields)

  -- The loop of serialiseArray, with the end of the array.
  unfoldable pub write_items : Bool → List Bytes → Answer Bytes
  write_items first [] = answer (b']' ∷ [])
  write_items first (element ∷ elements) = do
    value ← canonicalise element
    rest ← write_items false elements
    answer (comma first (value ++ rest))

  unfoldable pub serialise_array : List Bytes → Answer Bytes
  unfolding write_items
  serialise_array elements = do written ← write_items true elements; answer (b'[' ∷ written)

module _ {Value Scalar : Type 0} (c : Codec Value Scalar) where
  -- The switch on the first byte of the trimmed input.
  unfoldable pub canonicalise_trimmed : (Bytes → Answer Bytes) → Bytes → Answer Bytes
  canonicalise_trimmed deeper [] = failure empty_input
  canonicalise_trimmed deeper (b ∷ s) =
      if b == b'{'
      then (checked json_failed (c.unmarshal_object (b ∷ s)) >>= serialise_object deeper)
      else if b == b'['
      then (checked json_failed (c.unmarshal_array (b ∷ s)) >>= serialise_array deeper)
      else (checked json_failed (c.unmarshal_scalar (b ∷ s)) >>= λ scalar.
          checked json_failed (c.marshal_scalar scalar))

  unfoldable pub canonicalise_raw : ℕ → Bytes → Answer Bytes
  canonicalise_raw zero raw = failure out_of_fuel
  canonicalise_raw (suc fuel) raw = canonicalise_trimmed (canonicalise_raw fuel) (trim_space raw)

  -- Each call is on fewer bytes than the one around it.
  unfoldable pub canonical_json : Value → Answer Bytes
  canonical_json v = do
    raw ← checked marshal_failed (c.marshal_value v)
    canonicalise_raw (suc (length raw)) raw

  unfoldable pub marshal_for_signing : Value → Answer Bytes
  unfolding serialise_object
  marshal_for_signing v = do
    raw ← checked marshal_for_signing_failed (c.marshal_value v)
    m ← checked not_an_object (c.unmarshal_object raw)
    serialise_object (canonicalise_raw (suc (length raw)))
        (delete_key (codes "pubkey_b64") (delete_key (codes "signature") m))
