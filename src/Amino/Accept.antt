-- ===== src/Amino/Accept.antt =====
-- What VerifyAminoJSON of gentxvalidate/aminosigndoc.go accepts, and that it does not panic.
use seedward_libs.Base.{ℕ, refl, true, false, ◌≡◌, ◌⊎◌, inl, inr, Bytes, Option, none, some}
use seedward_libs.Amino.{verify_signer, verify_amino_json}
use seedward_libs.Amino.Unique.{IsAmino, amino_bytes, amino_sign_bytes_cases}
use seedward_libs.Errors.{Error, ok, err, panic, Outcome-cases}
use seedward_libs.External.{External}
use seedward_libs.Gentx.{MultisigSigner, ParsedGentx}
use seedward_libs.Invariants.Signer.{
  IsSingleSecp, IsCompactSignature, check_single_secp_signer_cases, verify_secp_compact_cases,
}
use seedward_libs.Multisig.{verify_amino_multisig}
use seedward_libs.Multisig.Accept.{Accepted}
use seedward_libs.Multisig.Complete.{verify_amino_multisig_iff}
use seedward_libs.Multisig.Panics.{
  IsShort, verify_amino_multisig-IsShort, verify_amino_multisig-reaches,
}

-- A multisig's bitarray reaches its last key, or verifyAminoMultisig sees that it does not fit.
abbrev pub HasEnoughBits : Option MultisigSigner → Type 0
HasEnoughBits none = Unit
HasEnoughBits (some ms) = ¬ IsShort ms

module _ (x : External) where
  -- The account's signature over the sign bytes: a single key's, or a multisig with enough of them.
  abbrev pub IsSignedBy : ParsedGentx → Option MultisigSigner → Bytes → Type 0
  IsSignedBy g none b = IsSingleSecp g × IsCompactSignature x g.signer.pub_key g.signature b
  IsSignedBy g (some ms) b = Accepted x ms g.signature b

  verify_signer_cases :
      (g : ParsedGentx) (signer : Option MultisigSigner) (b : Bytes)
      → HasEnoughBits signer
      → (IsSignedBy g signer b × (verify_signer x g signer b ≡ ok true))
        ⊎ ((¬ IsSignedBy g signer b)
            × ((verify_signer x g signer b ≡ ok false)
                ⊎ ((e : Error) × (verify_signer x g signer b ≡ err e))))
  verify_signer_cases g none b h = elim (check_single_secp_signer_cases g) [
    | inr (n, e, p) ↦ inr ((λ v. n v.0), inr (e, rw p refl))
    | inl (single, p) ↦
        elim (verify_secp_compact_cases x g.signer.pub_key g.signature b single.sig_size) [
          | inl (c, v) ↦ inl ((single, c), rw p v)
          | inr (n, inl v) ↦ inr ((λ s. n s.1), inl (rw p v))
          | inr (n, inr (e, v)) ↦ inr ((λ s. n s.1), inr (e, rw p v))
        ]
  ]
  verify_signer_cases g (some ms) b h =
      let (to, from) = verify_amino_multisig_iff x ms g.signature b in
      elim (Outcome-cases (verify_amino_multisig x ms g.signature b)) [
        | inl (true, e) ↦ inl (to e, e)
        | inl (false, e) ↦ inr ((λ a. cc (from a)), inl e)
        | inr (inl (er, e)) ↦ inr ((λ a. cc (from a)), inr (er, e))
        | inr (inr e) ↦ absurd (verify_amino_multisig-reaches x ms g.signature b h e)
      ]

  -- What VerifyAminoJSON accepts.
  abbrev pub IsAminoSigned : ParsedGentx → Bytes → ℕ → Type 0
  IsAminoSigned g c a = IsAmino g × IsSignedBy g g.signer.multisig (amino_bytes g c a)

  -- If a multisig, where there is one, is not IsShort, VerifyAminoJSON answers true exactly when the
  -- gentx is signed over its amino sign bytes, by the single key or by enough keys of the multisig, and
  -- false or an error otherwise, never a panic.
  pub verify_amino_json_cases :
      (g : ParsedGentx) (c : Bytes) (a : ℕ)
      → HasEnoughBits g.signer.multisig
      → (IsAminoSigned g c a × (verify_amino_json x g c a ≡ ok true))
        ⊎ ((¬ IsAminoSigned g c a)
            × ((verify_amino_json x g c a ≡ ok false)
                ⊎ ((e : Error) × (verify_amino_json x g c a ≡ err e))))
  unfolding verify_amino_json
  verify_amino_json_cases g c a h = elim (amino_sign_bytes_cases g c a) [
    | inr (n, e, p) ↦ inr ((λ v. n v.0), inr (e, rw p refl))
    | inl (k, p) ↦ elim (verify_signer_cases g g.signer.multisig (amino_bytes g c a) h) [
      | inl (s, e) ↦ inl ((k, s), rw p e)
      | inr (n, inl e) ↦ inr ((λ v. n v.1), inl (rw p e))
      | inr (n, inr (er, e)) ↦ inr ((λ v. n v.1), inr (er, rw p e))
    ]
  ]

  -- An amino signature by a multisig whose bitarray is too short makes VerifyAminoJSON panic.
  pub verify_amino_json-panic :
      (g : ParsedGentx) (ms : MultisigSigner) (c : Bytes) (a : ℕ)
      → IsAmino g
      → g.signer.multisig ≡ some ms
      → IsShort ms
      → verify_amino_json x g c a ≡ panic
  unfolding verify_amino_json
  verify_amino_json-panic g ms c a k is_multisig o = elim (amino_sign_bytes_cases g c a) [
    | inr (n, e, p) ↦ absurd (n k)
    | inl (k', p) ↦
        rw (p, is_multisig) (verify_amino_multisig-IsShort x ms g.signature (amino_bytes g c a) o)
  ]
