-- ===== src/Examples/Canonical.antt =====
-- The theorems on canonicaljson at a sample reading of JSON.
use seedward_libs.Base.{
  ◌<◌, ◌≤◌, arith, Bool, true, false, List, [], ◌∷◌, ◌≡◌, ◌≢◌, refl, sym, ◌∙◌, inl, inr, Bool-cases,
  Option, some, Bytes, All, codes, length, ltb, bytes_eq, bytes_eq_iff, bytes_eq-false,
  if◌then◌else◌,
}
use seedward_libs.CanonicalJson.{
  Codec, answer, failure, trim_space, delete_key, canonicalise_raw, canonicalise_trimmed,
  out_of_fuel, lookup, keys_of, sort_keys, canonical_json, marshal_for_signing,
}
use seedward_libs.CanonicalJson.Fuel.{Reads, canonical_json-finishes}
use seedward_libs.CanonicalJson.Keys.{AreDistinct}
use seedward_libs.CanonicalJson.Maps.{AreSame}
use seedward_libs.CanonicalJson.Signing.{AreSameSigned, marshal_for_signing-ignores}
use seedward_libs.CanonicalJson.Stable.{DifferInOrder, canonical_json-stable}
use seedward_libs.Json.{marshal, escape_ascii}
use seedward_libs.Utf8.{decode_rune}
use seedward_libs.Errors.{Reply, reply, refusal}

abbrev first_byte : Bytes → Bytes
first_byte [] = []
first_byte (b ∷ s) = b ∷ []

-- A text of two bytes or more is read as an object with a nonce and the first byte as its signature.
abbrev entries : Bool → Bytes → List (Bytes × Bytes)
entries true raw = (codes "nonce", codes "1") ∷ (codes "signature", first_byte raw) ∷ []
entries false raw = (codes "signature", first_byte raw) ∷ (codes "nonce", codes "1") ∷ []

abbrev sample_codec : Bool → Codec Bytes Bytes
sample_codec order = record {
  marshal_value = λ v. reply v;
  unmarshal_object =
      λ raw. if ltb 1 (length raw) then reply (entries order raw) else refusal (codes "no object");
  unmarshal_array = λ raw. reply [];
  unmarshal_scalar = λ raw. reply raw;
  marshal_scalar = λ raw. reply raw;
}

first_byte-le : (raw : Bytes) → length (first_byte raw) ≤ 1
first_byte-le [] = omega arith
first_byte-le (b ∷ s) = omega arith

lookup-All :
    (P : Bytes → Type 0) (m : List (Bytes × Bytes)) (k v : Bytes)
    → All (λ e. P e.1) m
    → lookup m k ≡ some v
    → P v
lookup-All P [] k v h e = cc
lookup-All P ((j, u) ∷ m) k v (hu, h) e = elim (Bool-cases (bytes_eq j k)) [
  | inl t ↦ let same : u ≡ v = some-inj (rw t at e) in rw (← same) hu
  | inr f ↦ lookup-All P m k v h (rw f at e)
]
  where
    some-inj : {a b : Bytes} → Path (Option Bytes) (some a) (some b) → a ≡ b
    some-inj e = cc

reply-inj :
    {a b : List (Bytes × Bytes)} → Path (Reply (List (Bytes × Bytes))) (reply a) (reply b) → a ≡ b
reply-inj e = cc

items-inj : {a b : List Bytes} → Path (Reply (List Bytes)) (reply a) (reply b) → a ≡ b
items-inj e = cc

sample_object :
    (order : Bool) (raw : Bytes) (m : List (Bytes × Bytes))
    → (sample_codec order).unmarshal_object raw ≡ reply m
    → (1 < length raw) × (entries order raw ≡ m)
sample_object order raw m e = elim (Bool-cases (ltb 1 (length raw))) [
  | inl t ↦ (ground (arith, t), reply-inj (rw t at e))
  | inr f ↦ cc (rw f at e)
]

entries-AreDistinct : (order : Bool) (raw : Bytes) → AreDistinct (keys_of (entries order raw))
unfolding bytes_eq
entries-AreDistinct true raw = (refl, (refl, tt))
entries-AreDistinct false raw = (refl, (refl, tt))

entries-short :
    (order : Bool) (raw : Bytes)
    → 1 < length raw
    → All (λ e. length e.1 < length raw) (entries order raw)
entries-short true raw h = (omega arith, (omega (arith, first_byte-le raw), tt))
entries-short false raw h = (omega (arith, first_byte-le raw), (omega arith, tt))

sample_codec-Reads : (order : Bool) → Reads (sample_codec order)
sample_codec-Reads order = record {
  distinct = λ raw m e.
      let (long, same) = sample_object order raw m e in rw (← same) (entries-AreDistinct order raw);
  object_shrinks = λ raw m k v e u.
      let (long, same) = sample_object order raw m e in
      lookup-All (λ b. length b < length raw) (entries order raw) k v (entries-short order raw long)
        (rw (← same) at u);
  array_shrinks = λ raw es e. let none_read : [] ≡ es = items-inj e in rw (← none_read) tt;
}

keys-ne : ¬ (codes "nonce" ≡ codes "signature")
unfolding bytes_eq
keys-ne e = bytes_eq-false refl e

entries-AreSame : (raw : Bytes) → AreSame (entries true raw) (entries false raw)
entries-AreSame raw k = elim (Bool-cases (bytes_eq (codes "nonce") k)) [
  | inr f ↦ rw f refl
  | inl t ↦ elim (Bool-cases (bytes_eq (codes "signature") k)) [
    | inr f ↦ rw (t, f) refl
    | inl u ↦ absurd (keys-ne ((bytes_eq_iff _ _).0 t ∙ sym ((bytes_eq_iff _ _).0 u)))
  ]
]

sample-DifferInOrder : DifferInOrder (sample_codec true) (sample_codec false)
sample-DifferInOrder = record {
  values = λ v. refl;
  objects = λ raw. elim (Bool-cases (ltb 1 (length raw))) [
    | inl t ↦ rw t (entries-AreSame raw)
    | inr f ↦ rw f refl
  ];
  arrays = λ raw. refl;
  scalars = λ raw. refl;
  written = λ s. refl;
}

canonical_json-stable_example :
    canonical_json (sample_codec true) (codes "{1")
    ≡ canonical_json (sample_codec false) (codes "{1")
canonical_json-stable_example =
    canonical_json-stable (sample_codec true) (sample_codec false) (sample_codec-Reads true)
      (sample_codec-Reads false) sample-DifferInOrder (codes "{1")

canonical_json-finishes_example :
    canonical_json (sample_codec true) (codes "{1") ≢ failure out_of_fuel
canonical_json-finishes_example =
    canonical_json-finishes (sample_codec true) (sample_codec-Reads true) (codes "{1")

signed_alike : AreSameSigned (entries true (codes "{1")) (entries false (codes "[1"))
signed_alike k not_signature not_key = elim (Bool-cases (bytes_eq (codes "signature") k)) [
  | inl t ↦ absurd (not_signature ((bytes_eq_iff _ _).0 t))
  | inr f ↦ rw f refl
]

-- Two signatures, and another order of the map.
marshal_for_signing-ignores_example :
    marshal_for_signing (sample_codec true) (codes "{1")
    ≡ marshal_for_signing (sample_codec false) (codes "[1")
marshal_for_signing-ignores_example =
    marshal_for_signing-ignores (sample_codec true) (sample_codec false) (codes "{1") (codes "[1")
      (codes "{1") (codes "[1") (entries true (codes "{1")) (entries false (codes "[1"))
      (sample_codec-Reads true) (sample_codec-Reads false) sample-DifferInOrder refl refl refl refl
      signed_alike

-- The spaces at both ends, U+00A0 among them, are trimmed.
trimmed :
    trim_space (0x20 ∷ 0xC2 ∷ 0xA0 ∷ 0x0A ∷ 0x61 ∷ 0x20 ∷ 0x62 ∷ 0x09 ∷ 0xC2 ∷ 0xA0 ∷ [])
    ≡ codes "a b"
unfolding trim_space
trimmed = refl

signing_bytes :
    marshal_for_signing (sample_codec false) (codes "[1") ≡ answer (codes "{\"nonce\":1}")
unfolding marshal_for_signing delete_key bytes_eq sort_keys canonicalise_raw canonicalise_trimmed
    trim_space marshal escape_ascii decode_rune
signing_bytes = refl
