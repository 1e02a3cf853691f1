-- ===== src/Examples/Signers.antt =====
-- The theorems on multisig signers at a sample multisig.
use seedward_libs.Base.{
  ℕ, ◌<◌, ◌≤◌, ◌*◌, arith, true, List, [], ◌∷◌, ◌≡◌, ◌≢◌, refl, ◌⊎◌, inl, ◌↔◌, Bytes, length,
  replicate, bytes_eq,
}
use seedward_libs.Errors.{ok, panic}
use seedward_libs.Wire.{uvarint, uvarint_loop}
use seedward_libs.Gentx.{MultisigSigner}
use seedward_libs.Verify.{verify_secp_compact}
use seedward_libs.Multisig.{
  parse_multi_signature, parse_loop, bit_count, bit_is_set, signer_indices, signer_indices_from,
  check_modes, verify_component, verify_components, verify_amino_multisig,
}
use seedward_libs.Multisig.Accept.{Accepted}
use seedward_libs.Multisig.Complete.{verify_amino_multisig_iff}
use seedward_libs.Multisig.Bitarray.{IsSignerList, signer_indices_cases}
use seedward_libs.Multisig.Envelope.{
  append_signatures, parse_multi_signature-append_signatures, parse_multi_signature-ne-panic,
}
use seedward_libs.Multisig.Panics.{verify_amino_multisig-panic, verify_amino_multisig-ne-panic}
use seedward_libs.Samples.{lenient, multisig_at}

-- One key of one has signed.
abbrev one_of_one : MultisigSigner
one_of_one = multisig_at 1 (0x80 ∷ []) 1

abbrev envelope : Bytes
envelope = 10 ∷ 64 ∷ replicate 64 1

accepts : verify_amino_multisig lenient one_of_one envelope [] ≡ ok true
unfolding verify_amino_multisig verify_components verify_component verify_secp_compact
    parse_multi_signature parse_loop uvarint uvarint_loop bit_count bit_is_set signer_indices
    signer_indices_from check_modes bytes_eq
accepts = refl

verify_amino_multisig_iff_example :
    (verify_amino_multisig lenient one_of_one envelope [] ≡ ok true)
    ↔ Accepted lenient one_of_one envelope []
verify_amino_multisig_iff_example = verify_amino_multisig_iff lenient one_of_one envelope []

-- The sample multisig is accepted.
one_of_one-Accepted : Accepted lenient one_of_one envelope []
one_of_one-Accepted = (verify_amino_multisig_iff lenient one_of_one envelope []).0 accepts

-- Nine keys, one byte of bitarray and nine extra bits.
verify_amino_multisig-panic_example :
    verify_amino_multisig lenient (multisig_at 9 (0x80 ∷ []) 9) [] [] ≡ panic
verify_amino_multisig-panic_example =
    verify_amino_multisig-panic lenient (multisig_at 9 (0x80 ∷ []) 9) [] [] (refl, tt) (omega arith)
      (omega arith) (omega arith) (omega arith)

verify_amino_multisig-ne-panic_example :
    verify_amino_multisig lenient one_of_one envelope [] ≢ panic
verify_amino_multisig-ne-panic_example =
    verify_amino_multisig-ne-panic lenient one_of_one envelope [] (inl (omega arith)) (omega arith)

signer_indices_cases_example :
    ((length one_of_one.members ≤ 8 * length one_of_one.bitarray_elems)
      × (is : List ℕ) × (signer_indices one_of_one ≡ ok is)
      × IsSignerList one_of_one.bitarray_elems 0 (length one_of_one.members) is)
    ⊎ ((8 * length one_of_one.bitarray_elems < length one_of_one.members)
        × (signer_indices one_of_one ≡ panic))
signer_indices_cases_example = signer_indices_cases one_of_one

parse_multi_signature-append_signatures_example :
    parse_multi_signature (append_signatures [] ((1 ∷ []) ∷ (2 ∷ []) ∷ []))
    ≡ ok ((1 ∷ []) ∷ (2 ∷ []) ∷ [])
parse_multi_signature-append_signatures_example =
    parse_multi_signature-append_signatures (1 ∷ []) ((2 ∷ []) ∷ [])
      (omega arith, (omega arith, tt))

parse_multi_signature-ne-panic_example : parse_multi_signature (10 ∷ 200 ∷ []) ≢ panic
parse_multi_signature-ne-panic_example = parse_multi_signature-ne-panic (10 ∷ 200 ∷ [])
