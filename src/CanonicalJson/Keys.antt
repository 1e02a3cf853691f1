-- ===== src/CanonicalJson/Keys.antt =====
-- Go's order on strings, and sort.Strings: ascending lists with the same members are equal.
use seedward_libs.Base.{
  arith, Bool, true, false, List, [], ◌∷◌, ◌≡◌, refl, sym, ◌∙◌, inl, inr, Bool-cases, Bytes, All,
  bytes_eq, bytes_eq_iff, bytes_eq-false, bytes_eq_refl, if◌then◌else◌,
}
use seedward_libs.CanonicalJson.{bytes_ltb, insert_key, sort_keys}

abbrev pub has : Bytes → List Bytes → Bool
has i [] = false
has i (k ∷ ks) = let rest = has i ks in if bytes_eq k i then true else rest

abbrev pub AreAbove : Bytes → List Bytes → Type 0
AreAbove k ks = All (λ j. bytes_ltb k j ≡ true) ks

abbrev pub IsAscending : List Bytes → Type 0
IsAscending [] = Unit
IsAscending (k ∷ ks) = AreAbove k ks × IsAscending ks

abbrev pub AreDistinct : List Bytes → Type 0
AreDistinct [] = Unit
AreDistinct (k ∷ ks) = (has k ks ≡ false) × AreDistinct ks

bytes_ltb_irrefl : (s : Bytes) → bytes_ltb s s ≡ false
bytes_ltb_irrefl [] = refl
bytes_ltb_irrefl (b ∷ s) = ground (arith, bytes_ltb_irrefl s)

bytes_ltb_trans :
    (s t u : Bytes) → bytes_ltb s t ≡ true → bytes_ltb t u ≡ true → bytes_ltb s u ≡ true
bytes_ltb_trans s [] u h k = cc
bytes_ltb_trans s (c ∷ t) [] h k = cc
bytes_ltb_trans [] (c ∷ t) (d ∷ u) h k = refl
bytes_ltb_trans (b ∷ s) (c ∷ t) (d ∷ u) h k = ground (arith, bytes_ltb_trans s t u)

-- Of two strings that are not below each other.
bytes_ltb_total : (s t : Bytes) → bytes_ltb s t ≡ false → bytes_ltb t s ≡ false → s ≡ t
bytes_ltb_total [] [] h k = refl
bytes_ltb_total [] (c ∷ t) h k = cc
bytes_ltb_total (b ∷ s) [] h k = cc
bytes_ltb_total (b ∷ s) (c ∷ t) h k =
    let heads : b ≡ c = ground arith in
    let tails : s ≡ t = bytes_ltb_total s t (ground arith) (ground arith) in cc

AreAbove-trans :
    (i k : Bytes) (ks : List Bytes) → bytes_ltb i k ≡ true → AreAbove k ks → AreAbove i ks
AreAbove-trans i k [] h a = tt
AreAbove-trans i k (j ∷ ks) h (b, a) = (bytes_ltb_trans i k j h b, AreAbove-trans i k ks h a)

-- A string below all of a list is not in it.
AreAbove-has : (i : Bytes) (ks : List Bytes) → AreAbove i ks → has i ks ≡ false
AreAbove-has i [] a = refl
AreAbove-has i (k ∷ ks) (b, a) = elim (Bool-cases (bytes_eq k i)) [
  | inl t ↦ let same : k ≡ i = (bytes_eq_iff k i).0 t in cc (bytes_ltb_irrefl i, rw same at b)
  | inr f ↦ rw f (AreAbove-has i ks a)
]

AreAbove-insert :
    (i k : Bytes) (ks : List Bytes)
    → bytes_ltb i k ≡ true
    → AreAbove i ks
    → AreAbove i (insert_key k ks)
AreAbove-insert i k [] h a = (h, tt)
AreAbove-insert i k (j ∷ ks) h (b, a) = elim (Bool-cases (bytes_ltb j k)) [
  | inl t ↦ rw t (b, AreAbove-insert i k ks h a)
  | inr f ↦ rw f (h, (b, a))
]

insert_key-IsAscending :
    (k : Bytes) (ks : List Bytes)
    → has k ks ≡ false
    → IsAscending ks
    → IsAscending (insert_key k ks)
insert_key-IsAscending k [] n a = (tt, tt)
insert_key-IsAscending k (j ∷ ks) n (b, a) = elim (Bool-cases (bytes_eq j k)) [
  | inl same ↦ cc (rw same at n)
  | inr other ↦ elim (Bool-cases (bytes_ltb j k)) [
    | inl t ↦ rw t (AreAbove-insert j k ks t b, insert_key-IsAscending k ks (rw other at n) a)
    | inr f ↦ elim (Bool-cases (bytes_ltb k j)) [
      | inl below ↦ rw f ((below, AreAbove-trans k j ks below b), (b, a))
      | inr above ↦ absurd (bytes_eq-false other (bytes_ltb_total j k f above))
    ]
  ]
]

has-insert : (i k : Bytes) (ks : List Bytes) → has i (insert_key k ks) ≡ has i (k ∷ ks)
has-insert i k [] = refl
has-insert i k (j ∷ ks) = elim (Bool-cases (bytes_ltb j k)) [
  | inr f ↦ rw f refl
  | inl t ↦ elim (Bool-cases (bytes_eq j i)) [
    | inl e ↦ elim (Bool-cases (bytes_eq k i)) [
      | inl e' ↦ rw (t, e, e') refl
      | inr n ↦ rw (t, e, n) refl
    ]
    | inr n ↦ rw (t, n) (has-insert i k ks)
  ]
]

pub has-sort : (i : Bytes) (ks : List Bytes) → has i (sort_keys ks) ≡ has i ks
unfolding sort_keys
has-sort i [] = refl
has-sort i (k ∷ ks) = has-insert i k (sort_keys ks) ∙ rw (has-sort i ks) refl

-- Distinct keys are sorted in strictly ascending order.
pub sort_keys-IsAscending : (ks : List Bytes) → AreDistinct ks → IsAscending (sort_keys ks)
unfolding sort_keys
sort_keys-IsAscending [] d = tt
sort_keys-IsAscending (k ∷ ks) (n, d) =
    insert_key-IsAscending k (sort_keys ks) (has-sort k ks ∙ n) (sort_keys-IsAscending ks d)

-- The first keys of two ascending lists with the same members.
not_below :
    (k j : Bytes) (ks js : List Bytes)
    → IsAscending (j ∷ js)
    → ((i : Bytes) → has i (k ∷ ks) ≡ has i (j ∷ js))
    → bytes_ltb k j ≡ false
not_below k j ks js (b, a) same = elim (Bool-cases (bytes_ltb k j)) [
  | inr f ↦ f
  | inl t ↦
      let absent : has k (j ∷ js) ≡ false =
        AreAbove-has k (j ∷ js) (t, AreAbove-trans k j js t b) in
      let present : has k (k ∷ ks) ≡ true = rw (bytes_eq_refl k) refl in cc (same k)
]

pub ascending_unique :
    (ks js : List Bytes)
    → IsAscending ks
    → IsAscending js
    → ((i : Bytes) → has i ks ≡ has i js)
    → ks ≡ js
ascending_unique [] [] a a' same = refl
ascending_unique [] (j ∷ js) a a' same = cc (rw (bytes_eq_refl j) at (same j))
ascending_unique (k ∷ ks) [] a a' same = cc (rw (bytes_eq_refl k) at (same k))
ascending_unique (k ∷ ks) (j ∷ js) (b, a) (b', a') same =
    let first : k ≡ j =
      bytes_ltb_total k j (not_below k j ks js (b', a') same)
        (not_below j k js ks (b, a) λ i. sym (same i)) in
    let rest : ks ≡ js = ascending_unique ks js a a' λ i. elim (Bool-cases (bytes_eq k i)) [
      | inl t ↦
          let here : k ≡ i = (bytes_eq_iff k i).0 t in
          AreAbove-has i ks (rw here at b) ∙ sym (AreAbove-has i js (rw (sym first ∙ here) at b'))
      | inr f ↦ let s : has i (k ∷ ks) ≡ has i (k ∷ js) = same i ∙ rw first refl in rw f at s
    ] in
    cc
