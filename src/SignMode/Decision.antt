-- ===== src/SignMode/Decision.antt =====
-- When CheckSignature of gentxvalidate/signmode.go passes, for each sign mode.
use seedward_libs.Base.{
  true, false, [], ◌≡◌, refl, ◌⊎◌, inl, inr, Bool-cases, some, Bytes, bytes_eq, bytes_eq_iff,
  bytes_eq-false, is_empty, if◌then◌else◌, sym, ◌∙◌,
}
use seedward_libs.Amino.{verify_amino_json}
use seedward_libs.Amino.Accept.{
  HasEnoughBits, IsAminoSigned, verify_amino_json_cases, verify_amino_json-panic,
}
use seedward_libs.Amino.Unique.{IsAmino}
use seedward_libs.Errors.{ok, panic}
use seedward_libs.External.{External}
use seedward_libs.Gentx.{
  MultisigSigner, ParsedGentx, Params, sign_mode_direct_name, sign_mode_amino_json_name,
}
use seedward_libs.Invariants.{check_signature_mode, check_signature_direct}
use seedward_libs.Invariants.Light.{is_empty-true, is_empty-false}
use seedward_libs.Invariants.Signer.{IsSignedFor, check_signature_direct-Decides}
use seedward_libs.Multisig.Panics.{IsShort}
use seedward_libs.Report.{
  Decides, fail, error_text, inv_signature_direct, inv_signature_amino_json,
  inv_signature_unsupported_mode, unsupported_sign_mode,
}
use seedward_libs.Report.Decisions.{Decides-fail, Decides-yes, Decides-iff}
use seedward_libs.SignMode.{sign_modes, check_signature}

-- The invariant that a sign mode's result is about.
abbrev pub mode_invariant : Bytes → Bytes
mode_invariant mode =
    if bytes_eq mode sign_mode_direct_name
    then inv_signature_direct
    else if bytes_eq mode sign_mode_amino_json_name
    then inv_signature_amino_json
    else inv_signature_unsupported_mode

amino-ne-direct : bytes_eq sign_mode_amino_json_name sign_mode_direct_name ≡ false
unfolding bytes_eq
amino-ne-direct = refl

module _ (x : External) where
  -- What CheckSignature asks of a gentx: the signature that its sign mode stands for, over the launch's
  -- chain-id and account number 0.
  abbrev pub IsProperlySigned : ParsedGentx → Bytes → Type 0
  IsProperlySigned g chain =
      ((g.signer.mode ≡ sign_mode_direct_name) × IsSignedFor x g chain)
      ⊎ ((¬ (chain ≡ [])) × IsAminoSigned x g chain 0)

  amino_mode-Decides :
      (g : ParsedGentx) (p : Params)
      → HasEnoughBits g.signer.multisig
      → Decides inv_signature_amino_json
          ((¬ (p.chain_id ≡ [])) × IsAminoSigned x g p.chain_id 0)
          (check_signature_mode g p inv_signature_amino_json (λ h c a. verify_amino_json x h c a))
  unfolding check_signature_mode
  amino_mode-Decides g p few =
      let inv = inv_signature_amino_json in
      let chain = p.chain_id in
      elim (Bool-cases (is_empty chain)) [
        | inl t ↦ rw t (Decides-fail inv _ (λ h. h.0 (is_empty-true chain t)))
        | inr f ↦ elim (verify_amino_json_cases x g chain 0 few) [
          | inl (signed, v) ↦ rw (f, v) (Decides-yes inv (is_empty-false chain f, signed))
          | inr (n, inl v) ↦ rw (f, v) (Decides-fail inv _ (λ h. n h.1))
          | inr (n, inr (e, v)) ↦ rw (f, v) (Decides-fail inv (error_text e) (λ h. n h.1))
        ]
      ]

  -- The sign mode that a gentx declares picks the check.
  direct_check :
      (g : ParsedGentx) (p : Params)
      → bytes_eq g.signer.mode sign_mode_direct_name ≡ true
      → check_signature x g p ≡ check_signature_direct x g p
  unfolding check_signature sign_modes check_signature_direct
  direct_check g p t = rw t refl

  amino_check :
      (g : ParsedGentx) (p : Params)
      → bytes_eq g.signer.mode sign_mode_direct_name ≡ false
      → bytes_eq g.signer.mode sign_mode_amino_json_name ≡ true
      → check_signature x g p
        ≡ check_signature_mode g p inv_signature_amino_json (λ h c a. verify_amino_json x h c a)
  unfolding check_signature sign_modes
  amino_check g p f t = rw (f, t) refl

  no_check :
      (g : ParsedGentx) (p : Params)
      → bytes_eq g.signer.mode sign_mode_direct_name ≡ false
      → bytes_eq g.signer.mode sign_mode_amino_json_name ≡ false
      → check_signature x g p
        ≡ ok (fail inv_signature_unsupported_mode (unsupported_sign_mode g.signer.mode))
  unfolding check_signature sign_modes
  no_check g p f u = rw (f, u) refl

  -- CheckSignature does not panic on a gentx whose multisig, if it has one, is not IsShort.
  -- Its result is about the invariant of the gentx's sign mode, and it passes exactly when the
  -- signature is the one that the sign mode stands for; a sign mode with no verifier fails.
  pub check_signature-Decides :
      (g : ParsedGentx) (p : Params)
      → HasEnoughBits g.signer.multisig
      → Decides
          (mode_invariant g.signer.mode)
          (IsProperlySigned g p.chain_id)
          (check_signature x g p)
  check_signature-Decides g p few =
      let mode = g.signer.mode in
      elim (Bool-cases (bytes_eq mode sign_mode_direct_name)) [
        | inl t ↦
            let is_direct = (bytes_eq_iff mode sign_mode_direct_name).0 t in
            rw (direct_check g p t, t)
              (Decides-iff inv_signature_direct _ (λ h. inl (is_direct, h))
                (λ h. elim h [
                  | inl (m, s) ↦ s
                  | inr (c, (k, s)) ↦
                      absurd (bytes_eq-false amino-ne-direct (sym k.mode ∙ is_direct))
                ])
                (check_signature_direct-Decides x g p))
        | inr f ↦ elim (Bool-cases (bytes_eq mode sign_mode_amino_json_name)) [
          | inl t ↦
              rw (amino_check g p f t, f, t)
                (Decides-iff inv_signature_amino_json _ (λ h. inr h)
                  (λ h. elim h [ inl (m, s) ↦ absurd (bytes_eq-false f m) | inr s ↦ s ])
                  (amino_mode-Decides g p few))
          | inr u ↦
              rw (no_check g p f u, f, u)
                (Decides-fail inv_signature_unsupported_mode (unsupported_sign_mode mode) (λ h.
                  elim h [
                    | inl (m, s) ↦ bytes_eq-false f m
                    | inr (c, (k, s)) ↦ bytes_eq-false u k.mode
                  ]))
        ]
      ]

  pub check_signature-panic :
      (g : ParsedGentx) (p : Params) (ms : MultisigSigner)
      → ¬ (p.chain_id ≡ [])
      → IsAmino g
      → g.signer.multisig ≡ some ms
      → IsShort ms
      → check_signature x g p ≡ panic
  unfolding check_signature_mode
  check_signature-panic g p ms set k m o =
      let registered : bytes_eq g.signer.mode sign_mode_amino_json_name ≡ true =
        (bytes_eq_iff _ _).1 k.mode in
      let unregistered : bytes_eq g.signer.mode sign_mode_direct_name ≡ false =
        rw k.mode amino-ne-direct in
      elim (Bool-cases (is_empty p.chain_id)) [
        | inl t ↦ absurd (set (is_empty-true p.chain_id t))
        | inr f ↦
            rw
              (
                amino_check g p unregistered registered,
                f,
                verify_amino_json-panic x g ms p.chain_id 0 k m o,
              )
              refl
      ]
