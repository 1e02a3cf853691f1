-- ===== src/Multisig/Bitarray.antt =====
-- The compact bitarray: which member indices signerIndices lists, and when it runs past the bytes.
use seedward_libs.Base.{
  ℕ, zero, suc, ◌+◌, ◌-◌, ◌*◌, ◌/◌, ◌%◌, ◌^◌, ◌<◌, ◌≤◌, arith, List, [], ◌∷◌, ◌≡◌, refl, ◌⊎◌, inl,
  inr, Bytes, true, false, some, length, get_elem?, if◌then◌else◌, dec_lt,
}
use seedward_libs.Base.Bits.{bit_test}
use seedward_libs.Errors.{ok, panic}
use seedward_libs.Gentx.{MultisigMember, MultisigSigner}
use seedward_libs.Multisig.{index, bit_is_set, signer_indices_from, signer_indices}

-- An index in range gives the element, and any other index is a panic.
pub index_cases {ℓ} :
    {A : Type ℓ} (xs : List A) (i : ℕ)
    → ((i < length xs) × (a : A) × (get_elem? xs i ≡ some a) × (index xs i ≡ ok a))
      ⊎ ((length xs ≤ i) × (index xs i ≡ panic))
index_cases [] i = inr (omega arith, refl)
index_cases (x ∷ xs) zero = inl (omega arith, x, refl, refl)
index_cases (x ∷ xs) (suc i) = elim (index_cases xs i) [
  | inl (l, a, e, e') ↦ inl (omega arith, a, e, e')
  | inr (l, e) ↦ inr (omega arith, e)
]

-- Strictly ascending numbers from `lo` on and below `hi`.
abbrev pub Ascending : ℕ → ℕ → List ℕ → Type 0
Ascending lo hi [] = Unit
Ascending lo hi (i ∷ is) = (lo ≤ i) × (i < hi) × Ascending (i + 1) hi is

Ascending-weaken :
    (lo lo' hi : ℕ) (is : List ℕ) → lo' ≤ lo → Ascending lo hi is → Ascending lo' hi is
Ascending-weaken lo lo' hi [] h a = tt
Ascending-weaken lo lo' hi (i ∷ is) h a = (omega arith, a.1, a.2)

-- The binary digit `i` of the array is 1: byte `i / 8` holds eight of them, the highest first.
abbrev pub IsSetBit : Bytes → ℕ → Type 0
IsSetBit elems i =
    (byte : ℕ) × (get_elem? elems (i / 8) ≡ some byte) × (byte / 2 ^ (7 - i % 8) % 2 ≡ 1)

-- The mask test of the code reads that digit.
bit_is_set-digit :
    (byte i : ℕ)
    → ((bit_is_set byte i ≡ true) × (byte / 2 ^ (7 - i % 8) % 2 ≡ 1))
      ⊎ ((bit_is_set byte i ≡ false) × (byte / 2 ^ (7 - i % 8) % 2 ≡ 0))
unfolding bit_is_set
bit_is_set-digit byte i = elim (bit_test (7 - i % 8) byte) [
  | inl (t, d) ↦ inl (rw t refl, d)
  | inr (t, d) ↦ inr (rw t refl, d)
]

-- Every listed index has its bit set.
abbrev pub AllSet : Bytes → List ℕ → Type 0
AllSet elems [] = Unit
AllSet elems (i ∷ is) = IsSetBit elems i × AllSet elems is

abbrev pub Contains : ℕ → List ℕ → Type 0
Contains i [] = ⊥
Contains i (j ∷ js) = (i ≡ j) ⊎ Contains i js

-- What signerIndices must return: exactly the member indices whose bit is set, in order.
pub record IsSignerList (elems : Bytes) (lo hi : ℕ) (is : List ℕ) : Type 0 where
  pub ascending : Ascending lo hi is
  pub all_set : AllSet elems is
  pub complete : (i : ℕ) → lo ≤ i → i < hi → IsSetBit elems i → Contains i is

clear_bit :
    (elems : Bytes) (i byte k : ℕ)
    → get_elem? elems (i / 8) ≡ some byte
    → byte / 2 ^ (7 - i % 8) % 2 ≡ 0
    → k ≡ i
    → IsSetBit elems k
    → ⊥
clear_bit elems i byte k e clear p bit =
    let (byte', e', set) : IsSetBit elems i = rw p at bit in
    let same : byte' ≡ byte = cc in
    let digits : byte / 2 ^ (7 - i % 8) % 2 ≡ 1 = rw same at set in omega arith

signer_step :
    (elems : Bytes) (i hi byte : ℕ) (rest : List ℕ)
    → i < hi
    → get_elem? elems (i / 8) ≡ some byte
    → IsSignerList elems (i + 1) hi rest
    → IsSignerList elems i hi (if bit_is_set byte i then i ∷ rest else rest)
signer_step elems i hi byte rest l e s = elim (bit_is_set-digit byte i) [
  | inl (test, set) ↦ rw test (record {
    ascending = (omega arith, l, s.ascending);
    all_set = ((byte, e, set), s.all_set);
    complete = λ k a b bit. elim (dec_lt i k) [
      | yes p ↦ inr (s.complete k (omega arith) b bit)
      | no n ↦ inl (omega arith)
    ];
  })
  | inr (test, clear) ↦ rw test (record {
    ascending = Ascending-weaken (i + 1) i hi rest (omega arith) s.ascending;
    all_set = s.all_set;
    complete = λ k a b bit. elim (dec_lt i k) [
      | yes p ↦ s.complete k (omega arith) b bit
      | no n ↦ absurd (clear_bit elems i byte k e clear (omega arith) bit)
    ];
  })
]

signer_indices_from-total :
    (elems : Bytes) (i hi : ℕ) (ms : List MultisigMember)
    → i + length ms ≡ hi
    → hi ≤ 8 * length elems
    → (is : List ℕ) × (signer_indices_from elems i ms ≡ ok is) × IsSignerList elems i hi is
unfolding signer_indices_from
signer_indices_from-total elems i hi [] h k =
    ([], refl, record { ascending = tt; all_set = tt; complete = λ k a b s. absurd (omega arith) })
signer_indices_from-total elems i hi (m ∷ ms) h k = elim (index_cases elems (i / 8)) [
  | inr (l, e) ↦ absurd (omega arith)
  | inl (l, byte, e, e') ↦
      let (rest, r, s) = signer_indices_from-total elems (i + 1) hi ms (omega arith) k in
      (
        (if bit_is_set byte i then i ∷ rest else rest),
        rw (e', r),
        signer_step elems i hi byte rest (omega arith) e s,
      )
]

signer_indices_from-panic :
    (elems : Bytes) (i : ℕ) (ms : List MultisigMember)
    → i ≤ 8 * length elems
    → 8 * length elems < i + length ms
    → signer_indices_from elems i ms ≡ panic
unfolding signer_indices_from
signer_indices_from-panic elems i [] h l = absurd (omega arith)
signer_indices_from-panic elems i (m ∷ ms) h l = elim (index_cases elems (i / 8)) [
  | inr (b, e) ↦ rw e
  | inl (b, byte, e, e') ↦
      rw e' (rw (signer_indices_from-panic elems (i + 1) ms (omega arith) (omega arith)))
]

-- signerIndices lists exactly the members whose bit is set, in ascending order, if the array has a
-- bit for each member, and panics if it has fewer.
pub signer_indices_cases :
    (ms : MultisigSigner)
    → ((length ms.members ≤ 8 * length ms.bitarray_elems)
        × (is : List ℕ) × (signer_indices ms ≡ ok is)
        × IsSignerList ms.bitarray_elems 0 (length ms.members) is)
      ⊎ ((8 * length ms.bitarray_elems < length ms.members) × (signer_indices ms ≡ panic))
unfolding signer_indices
signer_indices_cases ms = elim (dec_lt (8 * length ms.bitarray_elems) (length ms.members)) [
  | yes l ↦
      inr (l, signer_indices_from-panic ms.bitarray_elems 0 ms.members (omega arith) (omega arith))
  | no n ↦
      let (is, e, h) =
        signer_indices_from-total ms.bitarray_elems 0 (length ms.members) ms.members (omega arith)
          (omega arith) in
      inl (omega arith, is, e, h)
]
