-- ===== src/Multisig/Panics.antt =====
-- When verifyAminoMultisig panics: never with at most 8 extra bits, and always with more of them
-- for as many keys.
use seedward_libs.Base.{
  ℕ, ◌+◌, ◌-◌, ◌*◌, ◌^◌, ◌<◌, ◌≤◌, arith, List, [], ◌∷◌, ◌≡◌, ◌≢◌, refl, ◌⊎◌, inl, inr, Bytes, true,
  false, Bool-cases, length, ltb, ◌==◌, ◌&&◌, is_empty, bytes_eq, bytes_eq_iff, ==_iff,
}
use seedward_libs.Errors.{ok, panic, ◌>>=◌, Outcome-cases}
use seedward_libs.External.{External}
use seedward_libs.Gentx.{
  MultisigMember, MultisigSigner, secp256k1_pub_key_type_url, sign_mode_amino_json_name,
}
use seedward_libs.Multisig.{
  bit_count, check_modes, parse_multi_signature, verify_component, verify_components,
  verify_amino_multisig,
}
use seedward_libs.Multisig.Accept.{
  AllAmino, check_modes-ok, verify_secp_compact-ne-panic, verify_counted,
}
use seedward_libs.Multisig.Bitarray.{index_cases, Ascending, signer_indices_cases}
use seedward_libs.Multisig.Envelope.{parse_multi_signature-ne-panic}
use seedward_libs.Verify.{compressed_pub_key_len, compact_sig_len}

pub check_modes-amino : (i : ℕ) (modes : List Bytes) → AllAmino modes → check_modes i modes ≡ ok tt
unfolding check_modes
check_modes-amino i [] h = refl
check_modes-amino i (mode ∷ modes) (e, h) =
    rw ((bytes_eq_iff mode sign_mode_amino_json_name).1 e) (check_modes-amino (i + 1) modes h)

length-pos : (b : Bytes) → is_empty b ≡ false → 0 < length b
length-pos [] h = cc
length-pos (c ∷ cs) h = omega arith

is_empty-false : (b : Bytes) → 0 < length b → is_empty b ≡ false
is_empty-false [] h = elim h [ ]
is_empty-false (c ∷ cs) h = refl

bit_count_extra :
    (ms : MultisigSigner)
    → 0 < length ms.bitarray_elems
    → 0 < ms.extra_bits_stored
    → ((length ms.bitarray_elems - 1) * 8 + ms.extra_bits_stored ≡ length ms.members)
      × (length ms.members < 2 ^ 64)
    → bit_count ms ≡ length ms.members
unfolding bit_count
bit_count_extra ms pos extra h = rw (is_empty-false ms.bitarray_elems pos) (ground arith)

-- A bitarray with fewer bits than there are members, though bitCount says that it fits, and amino modes.
pub record IsShort (ms : MultisigSigner) : Type 0 where
  pub modes : AllAmino ms.modes
  pub bits : bit_count ms ≡ length ms.members
  pub short : 8 * length ms.bitarray_elems < length ms.members

pub verify_amino_multisig-IsShort :
    (x : External) (ms : MultisigSigner) (signature sign_bytes : Bytes)
    → IsShort ms
    → verify_amino_multisig x ms signature sign_bytes ≡ panic
unfolding verify_amino_multisig
verify_amino_multisig-IsShort x ms signature sb h = elim (signer_indices_cases ms) [
  | inl (l, is, e, s) ↦ absurd (omega (arith, h.short))
  | inr (l, e) ↦
      let counted : (bit_count ms == length ms.members) ≡ true =
        (==_iff (bit_count ms) (length ms.members)).1 h.bits in
      rw (check_modes-amino 0 ms.modes h.modes, counted, e)
]

-- extra_bits_stored is read from the JSON and is not checked: with more than 8 extra bits, and as
-- many keys as bitCount then says, the bitarray is too short and verifyAminoMultisig panics, if all
-- modes are SIGN_MODE_LEGACY_AMINO_JSON and the bitarray is not empty, whatever the signature.
pub verify_amino_multisig-panic :
    (x : External) (ms : MultisigSigner) (signature sign_bytes : Bytes)
    → AllAmino ms.modes
    → 0 < length ms.bitarray_elems
    → 8 < ms.extra_bits_stored
    → length ms.members ≡ (length ms.bitarray_elems - 1) * 8 + ms.extra_bits_stored
    → length ms.members < 2 ^ 64
    → verify_amino_multisig x ms signature sign_bytes ≡ panic
verify_amino_multisig-panic x ms signature sb modes pos extra keys fits =
    verify_amino_multisig-IsShort x ms signature sb (record {
      modes = modes;
      bits = bit_count_extra ms pos (omega arith) (omega arith);
      short = omega arith;
    })

-- An int, by its 64-bit pattern, that is at most 8: it may be negative.
abbrev pub IsAtMostEight : ℕ → Type 0
IsAtMostEight e = (e ≤ 8) ⊎ ((2 ^ 63 ≤ e) × (e < 2 ^ 64))

bit_count-reaches :
    (ms : MultisigSigner)
    → IsAtMostEight ms.extra_bits_stored
    → length ms.members < 2 ^ 63
    → bit_count ms ≡ length ms.members
    → length ms.members ≤ 8 * length ms.bitarray_elems
unfolding bit_count
bit_count-reaches ms (inl few) int = elim (Bool-cases (is_empty ms.bitarray_elems)) [
  | inl none_left ↦ rw none_left (λ e. omega arith)
  | inr some_left ↦ rw some_left (λ e. ground (arith, length-pos ms.bitarray_elems some_left))
]
bit_count-reaches ms (inr (negative, word)) int = elim (Bool-cases (is_empty ms.bitarray_elems)) [
  | inl none_left ↦ rw none_left (λ e. omega arith)
  | inr some_left ↦ rw some_left (λ e. ground (arith, length-pos ms.bitarray_elems some_left))
]

check_modes-ne-panic : (i : ℕ) (modes : List Bytes) → check_modes i modes ≢ panic
unfolding check_modes
check_modes-ne-panic i [] = λ p. cc
check_modes-ne-panic i (mode ∷ modes) =
    elim (Bool-cases (bytes_eq mode sign_mode_amino_json_name)) [
      | inl good ↦ rw good (check_modes-ne-panic (i + 1) modes)
      | inr bad ↦ rw bad (λ p. cc)
    ]

module _ (x : External) (members : List MultisigMember) (sigs : List Bytes)
    (sign_bytes : Bytes) where
  verify_component-ne-panic :
      (j idx : ℕ)
      → j < length sigs
      → idx < length members
      → verify_component x members sigs sign_bytes j idx ≢ panic
  unfolding verify_component
  verify_component-ne-panic j idx hj hidx = elim (index_cases members idx) [
    | inr (l, e) ↦ absurd (omega arith)
    | inl (l, m, g, e) ↦
        rw e (elim (Bool-cases (bytes_eq m.pub_key_type_url secp256k1_pub_key_type_url)) [
          | inr bad ↦ rw bad (λ p. cc)
          | inl good ↦ rw good (elim (Bool-cases (length m.pub_key == compressed_pub_key_len)) [
            | inr bad ↦ rw bad (λ p. cc)
            | inl sized ↦ rw sized (elim (index_cases sigs j) [
              | inr (l', e') ↦ absurd (omega arith)
              | inl (l', sig, g', e') ↦ rw e' (elim (Bool-cases (length sig == compact_sig_len)) [
                | inr bad ↦ rw bad (λ p. cc)
                | inl full ↦ rw full (
                    verify_secp_compact-ne-panic x m.pub_key sig sign_bytes
                      ((==_iff (length sig) 64).0 full))
              ])
            ])
          ])
        ])
  ]

  verify_components-ne-panic :
      (j lo : ℕ) (signers : List ℕ)
      → j + length signers ≤ length sigs
      → Ascending lo (length members) signers
      → verify_components x members sigs sign_bytes j signers ≢ panic
  unfolding verify_components
  verify_components-ne-panic j lo [] h a = λ p. cc
  verify_components-ne-panic j lo (idx ∷ rest) h a =
      elim (Outcome-cases (verify_component x members sigs sign_bytes j idx)) [
        | inr (inr e) ↦ absurd (verify_component-ne-panic j idx (omega arith) (omega arith) e)
        | inr (inl (y, e)) ↦ rw e (λ p. cc)
        | inl (true, e) ↦ rw e (verify_components-ne-panic (j + 1) (idx + 1) rest (omega arith) a.2)
        | inl (false, e) ↦ rw e (λ p. cc)
      ]

after_signers :
    (x : External) (ms : MultisigSigner) (is : List ℕ) (signature sb : Bytes)
    → Ascending 0 (length ms.members) is
    → (parse_multi_signature signature >>= λ sigs. verify_counted x ms is sigs sb) ≢ panic
unfolding verify_counted
after_signers x ms is signature sb a = elim (Outcome-cases (parse_multi_signature signature)) [
  | inr (inr e) ↦ absurd (parse_multi_signature-ne-panic signature e)
  | inr (inl (y, e)) ↦ rw e (λ p. cc)
  | inl (sigs, e) ↦
      rw e (elim (Bool-cases (length sigs == length is && length ms.modes == length is)) [
        | inr bad ↦ rw bad (λ p. cc)
        | inl good ↦ rw good (elim (Bool-cases (ltb (length sigs) ms.threshold)) [
          | inl few ↦ rw few (λ p. cc)
          | inr many ↦
              rw many (verify_components-ne-panic x ms.members sigs sb 0 0 is (ground arith) a)
        ])
      ])
]

-- verifyAminoMultisig panics on no other multisig.
pub verify_amino_multisig-reaches :
    (x : External) (ms : MultisigSigner) (signature sign_bytes : Bytes)
    → ¬ IsShort ms
    → verify_amino_multisig x ms signature sign_bytes ≢ panic
unfolding verify_amino_multisig verify_counted
verify_amino_multisig-reaches x ms signature sb h = elim (Outcome-cases (check_modes 0 ms.modes)) [
  | inr (inr e) ↦ absurd (check_modes-ne-panic 0 ms.modes e)
  | inr (inl (y, e)) ↦ rw e (λ p. cc)
  | inl (u, e) ↦ rw e (elim (Bool-cases (bit_count ms == length ms.members)) [
    | inr bad ↦ rw bad (λ p. cc)
    | inl bits ↦ rw bits (elim (signer_indices_cases ms) [
      | inr (l, e') ↦ absurd (
          h (record {
            modes = check_modes-ok 0 ms.modes e;
            bits = (==_iff (bit_count ms) (length ms.members)).0 bits;
            short = l;
          }))
      | inl (l, is, e', s) ↦ rw e' (after_signers x ms is signature sb s.ascending)
    ])
  ])
]

-- verifyAminoMultisig never panics if ExtraBitsStored, an int that may be negative, is at most 8; the
-- number of keys is an int, as the length of every slice.
pub verify_amino_multisig-ne-panic :
    (x : External) (ms : MultisigSigner) (signature sign_bytes : Bytes)
    → IsAtMostEight ms.extra_bits_stored
    → length ms.members < 2 ^ 63
    → verify_amino_multisig x ms signature sign_bytes ≢ panic
verify_amino_multisig-ne-panic x ms signature sb few int =
    verify_amino_multisig-reaches x ms signature sb
      λ s. omega (arith, bit_count-reaches ms few int s.bits, s.short)
