-- ===== src/SignMode.antt =====
-- gentxvalidate/signmode.go: the registered sign modes and CheckSignature. checkSignatureMode is in
-- Invariants.
pub mod Decision
use seedward_libs.Base.{ℕ, Bool, Option, none, some, Bytes, bytes_eq, if◌then◌else◌}
use seedward_libs.Amino.{verify_amino_json}
use seedward_libs.Errors.{Outcome, ok}
use seedward_libs.External.{External}
use seedward_libs.Gentx.{ParsedGentx, Params, sign_mode_direct_name, sign_mode_amino_json_name}
use seedward_libs.Invariants.{check_signature_mode}
use seedward_libs.Report.{
  Result, fail, inv_signature_direct, inv_signature_amino_json, inv_signature_unsupported_mode,
  unsupported_sign_mode,
}
use seedward_libs.Verify.{verify_direct}

-- An entry of signModes; `verify` is a modeVerifier.
pub record SignMode : Type 0 where
  pub invariant : Bytes
  pub verify : ParsedGentx → Bytes → ℕ → Outcome Bool

module _ (x : External) where
  -- The map signModes.
  unfoldable pub sign_modes : Bytes → Option SignMode
  sign_modes mode =
      if bytes_eq mode sign_mode_direct_name
      then some
          (record { invariant = inv_signature_direct; verify = λ g c a. verify_direct x g c a })
      else if bytes_eq mode sign_mode_amino_json_name
      then some (record {
        invariant = inv_signature_amino_json;
        verify = λ g c a. verify_amino_json x g c a;
      })
      else none

  -- What CheckSignature does with the entry of the gentx's sign mode.
  abbrev pub check_registered : Option SignMode → ParsedGentx → Params → Outcome Result
  check_registered none g p =
      ok (fail inv_signature_unsupported_mode (unsupported_sign_mode g.signer.mode))
  check_registered (some m) g p = check_signature_mode g p m.invariant m.verify

  unfoldable pub check_signature : ParsedGentx → Params → Outcome Result
  check_signature g p = check_registered (sign_modes g.signer.mode) g p
