-- ===== src/CanonicalJson/Signing.antt =====
-- What MarshalForSigning encodes does not depend on the signature and the public key.
use seedward_libs.Base.{
  suc, ◌<◌, arith, List, ◌≡◌, refl, sym, ◌∙◌, inl, inr, Bool-cases, Option, none, some, Bytes,
  length, codes, bytes_eq, bytes_eq-false, if◌then◌else◌,
}
use seedward_libs.Errors.{reply}
use seedward_libs.CanonicalJson.{
  Codec, lookup, or_nil, delete_key, keys_of, canonicalise_raw, marshal_for_signing,
}
use seedward_libs.CanonicalJson.Fuel.{Reads}
use seedward_libs.CanonicalJson.Keys.{AreDistinct}
use seedward_libs.CanonicalJson.Maps.{
  AreSame, serialise_object-same, lookup-delete, delete_key-AreDistinct,
}
use seedward_libs.CanonicalJson.Stable.{DifferInOrder, raw_agree}

-- The map that is encoded.
abbrev pub signed_part : List (Bytes × Bytes) → List (Bytes × Bytes)
signed_part m = delete_key (codes "pubkey_b64") (delete_key (codes "signature") m)

signed_part-AreDistinct :
    (m : List (Bytes × Bytes)) → AreDistinct (keys_of m) → AreDistinct (keys_of (signed_part m))
signed_part-AreDistinct m d =
    delete_key-AreDistinct (codes "pubkey_b64") (delete_key (codes "signature") m)
      (delete_key-AreDistinct (codes "signature") m d)

-- A key that is not signed has no entry, and any other key has that of the object.
lookup-signed :
    (m : List (Bytes × Bytes)) (k : Bytes)
    → lookup (signed_part m) k ≡ (
        if bytes_eq (codes "pubkey_b64") k
        then none
        else if bytes_eq (codes "signature") k
        then none
        else lookup m k)
lookup-signed m k =
    lookup-delete (codes "pubkey_b64") (delete_key (codes "signature") m) k
    ∙ rw (lookup-delete (codes "signature") m k) refl

-- Two objects that agree in what is signed.
abbrev pub AreSameSigned : List (Bytes × Bytes) → List (Bytes × Bytes) → Type 0
AreSameSigned m m' =
    (k : Bytes) → ¬ (codes "signature" ≡ k) → ¬ (codes "pubkey_b64" ≡ k) → lookup m k ≡ lookup m' k

signed_part-AreSame :
    (m m' : List (Bytes × Bytes)) → AreSameSigned m m' → AreSame (signed_part m) (signed_part m')
signed_part-AreSame m m' same k =
    lookup-signed m k
    ∙ elim (Bool-cases (bytes_eq (codes "pubkey_b64") k)) [
      | inl t ↦ rw t refl
      | inr f ↦ elim (Bool-cases (bytes_eq (codes "signature") k)) [
        | inl t ↦ rw (f, t) refl
        | inr n ↦ rw (f, n) (same k (bytes_eq-false n) (bytes_eq-false f))
      ]
    ]
    ∙ sym (lookup-signed m' k)

module _ {Value Scalar : Type 0} where
  entry-short :
      (c : Codec Value Scalar) (h : Reads c) (raw : Bytes) (m : List (Bytes × Bytes)) (k : Bytes)
      → c.unmarshal_object raw ≡ reply m
      → length (or_nil (lookup (signed_part m) k)) < suc (length raw)
  entry-short c h raw m k e =
      rw (lookup-signed m k) (elim (Bool-cases (bytes_eq (codes "pubkey_b64") k)) [
        | inl t ↦ rw t (omega arith)
        | inr f ↦ elim (Bool-cases (bytes_eq (codes "signature") k)) [
          | inl t ↦ rw (f, t) (omega arith)
          | inr n ↦ rw (f, n) (by_entry (lookup m k) refl)
        ]
      ])
    where
      by_entry : (o : Option Bytes) → lookup m k ≡ o → length (or_nil o) < suc (length raw)
      by_entry none u = omega arith
      by_entry (some v) u = omega (arith, h.object_shrinks raw m k v e u)

  -- If two values are marshalled as objects that agree at every key but "signature" and "pubkey_b64", then
  -- their signing bytes, or the errors, are equal, also when the maps are iterated in another order. Both
  -- readings of JSON have each key of a map once and read values that are shorter than the text.
  pub marshal_for_signing-ignores :
      (c c' : Codec Value Scalar) (v v' : Value) (raw raw' : Bytes) (m m' : List (Bytes × Bytes))
      → Reads c
      → Reads c'
      → DifferInOrder c c'
      → c.marshal_value v ≡ reply raw
      → c'.marshal_value v' ≡ reply raw'
      → c.unmarshal_object raw ≡ reply m
      → c'.unmarshal_object raw' ≡ reply m'
      → AreSameSigned m m'
      → marshal_for_signing c v ≡ marshal_for_signing c' v'
  unfolding marshal_for_signing
  marshal_for_signing-ignores c c' v v' raw raw' m m' h h' d e e' o o' same =
      let parts = signed_part-AreSame m m' same in
      let short' = λ (k : Bytes). entry-short c' h' raw' m' k o' in
      rw (e, e', o, o')
        (serialise_object-same (canonicalise_raw c (suc (length raw)))
          (canonicalise_raw c' (suc (length raw'))) (signed_part m) (signed_part m') parts
          (λ k.
            raw_agree c c' h h' d (suc (length raw)) (suc (length raw'))
              (or_nil (lookup (signed_part m) k)) (entry-short c h raw m k o)
              (rw (parts k) (short' k)))
          (signed_part-AreDistinct m (h.distinct raw m o))
          (signed_part-AreDistinct m' (h'.distinct raw' m' o')))
