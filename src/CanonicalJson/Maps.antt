-- ===== src/CanonicalJson/Maps.antt =====
-- A map is written by its entries, whatever their order.
use seedward_libs.Base.{
  Bool, true, false, List, [], ◌∷◌, ◌≡◌, refl, sym, ap, ◌∙◌, inl, inr, Bool-cases, Option, none,
  some, Bytes, bytes_eq, bytes_eq_iff, bytes_eq-false, if◌then◌else◌,
}
use seedward_libs.CanonicalJson.{
  Answer, sort_keys, keys_of, lookup, or_nil, delete_key, write_fields, serialise_object,
}
use seedward_libs.CanonicalJson.Keys.{
  has, AreDistinct, has-sort, sort_keys-IsAscending, ascending_unique,
}

abbrev is_some : Option Bytes → Bool
is_some none = false
is_some (some v) = true

has-keys : (m : List (Bytes × Bytes)) (k : Bytes) → has k (keys_of m) ≡ is_some (lookup m k)
has-keys [] k = refl
has-keys ((j, v) ∷ m) k = elim (Bool-cases (bytes_eq j k)) [
  | inl t ↦ rw t refl
  | inr f ↦ rw f (has-keys m k)
]

-- Two maps with the same entries.
abbrev pub AreSame : List (Bytes × Bytes) → List (Bytes × Bytes) → Type 0
AreSame m m' = (k : Bytes) → lookup m k ≡ lookup m' k

same_keys :
    (m m' : List (Bytes × Bytes))
    → AreDistinct (keys_of m)
    → AreDistinct (keys_of m')
    → AreSame m m'
    → sort_keys (keys_of m) ≡ sort_keys (keys_of m')
same_keys m m' d d' same =
    ascending_unique _ _ (sort_keys-IsAscending (keys_of m) d)
      (sort_keys-IsAscending (keys_of m') d')
      λ k.
        has-sort k (keys_of m)
        ∙ has-keys m k
        ∙ ap is_some (same k)
        ∙ sym (has-keys m' k)
        ∙ sym (has-sort k (keys_of m'))

module _ (canon canon' : Bytes → Answer Bytes) (m m' : List (Bytes × Bytes)) (same : AreSame m m')
    (agree : (k : Bytes) → canon (or_nil (lookup m k)) ≡ canon' (or_nil (lookup m k))) where
  write_fields-same :
      (first : Bool) (ks : List Bytes)
      → write_fields canon m first ks ≡ write_fields canon' m' first ks
  unfolding write_fields
  write_fields-same first [] = refl
  write_fields-same first (k ∷ ks) = rw (agree k, same k, write_fields-same false ks) refl

  -- Maps with the same entries are written alike.
  pub serialise_object-same :
      AreDistinct (keys_of m)
      → AreDistinct (keys_of m')
      → serialise_object canon m ≡ serialise_object canon' m'
  unfolding serialise_object
  serialise_object-same d d' =
      rw (same_keys m m' d d' same, write_fields-same true (sort_keys (keys_of m'))) refl

pub lookup-delete :
    (j : Bytes) (m : List (Bytes × Bytes)) (k : Bytes)
    → lookup (delete_key j m) k ≡ (if bytes_eq j k then none else lookup m k)
unfolding delete_key
lookup-delete j [] k = elim (Bool-cases (bytes_eq j k)) [ inl t ↦ rw t refl | inr f ↦ rw f refl ]
lookup-delete j ((i, v) ∷ m) k = elim (Bool-cases (bytes_eq i j)) [
  | inl t ↦ elim (Bool-cases (bytes_eq j k)) [
    | inl u ↦ rw (t, u) (lookup-delete j m k ∙ rw u refl)
    | inr n ↦
        let here : i ≡ j = (bytes_eq_iff i j).0 t in
        rw (t, n, here, n) (lookup-delete j m k ∙ rw n refl)
  ]
  | inr f ↦ elim (Bool-cases (bytes_eq i k)) [
    | inl u ↦ elim (Bool-cases (bytes_eq j k)) [
      | inl t ↦ absurd (bytes_eq-false f ((bytes_eq_iff i k).0 u ∙ sym ((bytes_eq_iff j k).0 t)))
      | inr n ↦ rw (f, n, u) refl
    ]
    | inr n ↦ rw (f, n) (lookup-delete j m k)
  ]
]

has-delete :
    (i j : Bytes) (m : List (Bytes × Bytes))
    → has i (keys_of m) ≡ false
    → has i (keys_of (delete_key j m)) ≡ false
has-delete i j m h =
    let gone : is_some (lookup m i) ≡ false = sym (has-keys m i) ∙ h in
    has-keys (delete_key j m) i
    ∙ ap is_some (lookup-delete j m i)
    ∙ elim (Bool-cases (bytes_eq j i)) [ inl t ↦ rw t refl | inr f ↦ rw f gone ]

pub delete_key-AreDistinct :
    (j : Bytes) (m : List (Bytes × Bytes))
    → AreDistinct (keys_of m)
    → AreDistinct (keys_of (delete_key j m))
unfolding delete_key
delete_key-AreDistinct j [] d = tt
delete_key-AreDistinct j ((i, v) ∷ m) (n, d) = elim (Bool-cases (bytes_eq i j)) [
  | inl t ↦ rw t (delete_key-AreDistinct j m d)
  | inr f ↦ rw f (has-delete i j m n, delete_key-AreDistinct j m d)
]
