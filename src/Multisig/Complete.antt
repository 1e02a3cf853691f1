-- ===== src/Multisig/Complete.antt =====
-- verifyAminoMultisig of gentxvalidate/multisig.go accepts every multisig that is signed.
use seedward_libs.Base.{
  ℕ, zero, suc, ◌+◌, ◌*◌, ◌≤◌, arith, true, false, List, [], ◌∷◌, ◌≡◌, refl, ◌↔◌, inl, inr, Bytes,
  some, length, get_elem?, ltb, ◌==◌, ◌&&◌, bytes_eq_iff, ==_iff,
}
use seedward_libs.Errors.{ok}
use seedward_libs.External.{External}
use seedward_libs.Gentx.{MultisigMember, MultisigSigner}
use seedward_libs.Multisig.{
  index, signer_indices, verify_component, verify_components, verify_amino_multisig,
}
use seedward_libs.Multisig.Accept.{
  Signed, AllSigned, Accepted, verify_counted, verify_amino_multisig-Accepted,
}
use seedward_libs.Multisig.Bitarray.{Ascending, Contains, IsSignerList, signer_indices_cases}
use seedward_libs.Multisig.Panics.{check_modes-amino}
use seedward_libs.Verify.{compressed_pub_key_len, compact_sig_len}

Contains-le : (k lo hi : ℕ) (is : List ℕ) → Ascending lo hi is → Contains k is → lo ≤ k
Contains-le k lo hi [] a c = absurd c
Contains-le k lo hi (i ∷ is) a (inl e) = omega arith
Contains-le k lo hi (i ∷ is) a (inr c) = omega (arith, Contains-le k (i + 1) hi is a.2 c)

later :
    (elems : Bytes) (lo hi i : ℕ) (is : List ℕ)
    → IsSignerList elems lo hi (i ∷ is)
    → IsSignerList elems (i + 1) hi is
later elems lo hi i is s = record {
  ascending = s.ascending.2;
  all_set = s.all_set.1;
  complete = λ k above below bit. elim (s.complete k (omega (arith, s.ascending.0)) below bit) [
    | inl e ↦ absurd (omega arith)
    | inr c ↦ c
  ];
}

-- The bitarray and the bounds determine the list.
signer_list_unique :
    (elems : Bytes) (lo hi : ℕ) (is js : List ℕ)
    → IsSignerList elems lo hi is
    → IsSignerList elems lo hi js
    → is ≡ js
signer_list_unique elems lo hi [] [] s s' = refl
signer_list_unique elems lo hi [] (j ∷ js) s s' =
    absurd (s.complete j s'.ascending.0 s'.ascending.1 s'.all_set.0)
signer_list_unique elems lo hi (i ∷ is) [] s s' =
    absurd (s'.complete i s.ascending.0 s.ascending.1 s.all_set.0)
signer_list_unique elems lo hi (i ∷ is) (j ∷ js) s s' =
    let below : j ≤ i =
      Contains-le i j hi (j ∷ js) (omega arith, s'.ascending.1, s'.ascending.2)
        (s'.complete i s.ascending.0 s.ascending.1 s.all_set.0) in
    let above : i ≤ j =
      Contains-le j i hi (i ∷ is) (omega arith, s.ascending.1, s.ascending.2)
        (s.complete j s'.ascending.0 s'.ascending.1 s'.all_set.0) in
    let same : i ≡ j = omega arith in
    let rest : is ≡ js =
      signer_list_unique elems (i + 1) hi is js (later elems lo hi i is s)
        (rw (← same) at (later elems lo hi j js s')) in
    cc

signers_listed :
    (ms : MultisigSigner) (signers : List ℕ)
    → length ms.members ≤ 8 * length ms.bitarray_elems
    → IsSignerList ms.bitarray_elems 0 (length ms.members) signers
    → signer_indices ms ≡ ok signers
signers_listed ms signers fits s = elim (signer_indices_cases ms) [
  | inr (l, e) ↦ absurd (omega arith)
  | inl (l, is, e, s') ↦ let same = signer_list_unique _ _ _ is signers s' s in rw (← same) e
]

index-found {ℓ} :
    {A : Type ℓ} (xs : List A) (i : ℕ) {a : A} → get_elem? xs i ≡ some a → index xs i ≡ ok a
index-found [] i h = cc
index-found (x ∷ xs) zero h = cc
index-found (x ∷ xs) (suc i) h = index-found xs i h

module _ (x : External) (members : List MultisigMember) (sigs : List Bytes)
    (sign_bytes : Bytes) where
  verify_component-ok :
      (j idx : ℕ)
      → Signed x members sigs sign_bytes j idx
      → verify_component x members sigs sign_bytes j idx ≡ ok true
  unfolding verify_component
  verify_component-ok j idx s =
      rw
        (
          index-found members idx s.is_member,
          (bytes_eq_iff _ _).1 s.key_type,
          (==_iff (length s.member.pub_key) compressed_pub_key_len).1 s.key_size,
          index-found sigs j s.is_sig,
          (==_iff (length s.sig) compact_sig_len).1 s.sig_size,
        )
        s.verifies

  verify_components-ok :
      (j : ℕ) (signers : List ℕ)
      → AllSigned x members sigs sign_bytes j signers
      → verify_components x members sigs sign_bytes j signers ≡ ok true
  unfolding verify_components
  verify_components-ok j [] h = refl
  verify_components-ok j (idx ∷ rest) (s, h) =
      rw (verify_component-ok j idx s, verify_components-ok (j + 1) rest h) refl

-- verifyAminoMultisig answers true exactly if the multisig is Accepted: all modes are amino, bitCount is
-- the number of keys and the bitarray has a bit for each of them, and the members whose bit is set, each
-- listed once and in ascending order, are at least the threshold, as many as the modes and as the
-- signatures of the envelope, and each have a valid signature.
pub verify_amino_multisig_iff :
    (x : External) (ms : MultisigSigner) (signature sign_bytes : Bytes)
    → (verify_amino_multisig x ms signature sign_bytes ≡ ok true)
      ↔ Accepted x ms signature sign_bytes
unfolding verify_amino_multisig verify_counted
verify_amino_multisig_iff x ms signature sb = (
  verify_amino_multisig-Accepted x ms signature sb,
  λ a.
      let counted : (length a.sigs == length a.signers && length ms.modes == length a.signers)
          ≡ true =
        ground (arith, a.counts, a.mode_counts) in
      let enough : ltb (length a.sigs) ms.threshold ≡ false = ground (arith, a.counts, a.enough) in
      rw
        (
          check_modes-amino 0 ms.modes a.modes,
          (==_iff _ _).1 a.bits,
          signers_listed ms a.signers a.fits a.listed,
          a.parsed,
          counted,
          enough,
        )
        (verify_components-ok x ms.members a.sigs sb 0 a.signers a.signed),
)
