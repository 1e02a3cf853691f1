-- ===== src/Runner/All.antt =====
-- When every result of RunAll of gentxvalidate/runner.go has passed, and when RunAll panics.
use seedward_libs.Base.{
  Bool, true, false, ◌&&◌, List, [], ◌∷◌, ◌++◌, ◌≡◌, refl, sym, ◌∙◌, inl, inr, Bool-cases, ◌↔◌,
  Bytes, some,
}
use seedward_libs.Amino.Accept.{HasEnoughBits}
use seedward_libs.Multisig.Panics.{IsShort}
use seedward_libs.Amino.Unique.{IsAmino}
use seedward_libs.Errors.{ok, panic, Outcome-cases}
use seedward_libs.Errors.Safely.{Safely-ok, Safely-panic}
use seedward_libs.External.{External}
use seedward_libs.Gentx.{MultisigSigner, ParsedGentx, Params}
use seedward_libs.Decode.{Readers, decode}
use seedward_libs.Decode.WellFormed.{IsWellFormed, decode-Safely}
use seedward_libs.Report.{Result, pass, fail, all_ok, inv_well_formed, error_text}
use seedward_libs.Runner.{run_all}
use seedward_libs.Runner.Passes.{PassesLight, light_checks-PassesLight, same_value}
use seedward_libs.SignMode.Decision.{
  IsProperlySigned, check_signature-Decides, check_signature-panic,
}

all_ok-last : (rs : List Result) (r : Result) → all_ok (rs ++ r ∷ []) ≡ (all_ok rs && r.is_ok)
unfolding all_ok
all_ok-last [] r = elim (Bool-cases r.is_ok) [ inl t ↦ rw t refl | inr f ↦ rw f refl ]
all_ok-last (q ∷ rs) r = elim (Bool-cases q.is_ok) [
  | inl t ↦ rw t (all_ok-last rs r)
  | inr f ↦ rw f refl
]

both_true : (a b : Bool) → ((a && b) ≡ true) ↔ ((a ≡ true) × (b ≡ true))
both_true true b = ((λ h. (refl, h)), λ h. h.1)
both_true false b = ((λ h. cc), λ h. h.0)

module _ (x : External) where
  -- If the document does not decode to a gentx whose multisig is IsShort, RunAll does not panic, and
  -- all of its results have passed exactly when the document decodes to a well-formed gentx that keeps
  -- every light condition of the launch and has the signature that its sign mode stands for.
  pub run_all-PassesAll :
      (r : Readers) (raw : Bytes) (p : Params)
      → ((g : ParsedGentx) → decode r raw ≡ ok g → HasEnoughBits g.signer.multisig)
      → (rs : List Result) × (run_all x r raw p ≡ ok rs)
        × ((all_ok rs ≡ true) ↔ (
            (g : ParsedGentx) × (decode r raw ≡ ok g)
            × IsWellFormed g
            × PassesLight x g p
            × IsProperlySigned x g p.chain_id))
  unfolding run_all all_ok
  run_all-PassesAll r raw p few = elim (Outcome-cases (decode r raw)) [
    | inr (inr e) ↦ absurd (Safely-panic IsWellFormed e (decode-Safely r raw))
    | inr (inl (er, e)) ↦
        (fail inv_well_formed (error_text er) ∷ [], rw e refl, ((λ h. cc), λ (g, e', w, l, s). cc))
    | inl (g, e) ↦
        let (rs, e1, (to, from)) = light_checks-PassesLight x g p in
        let (s, e2, i, (to_signed, from_signed)) = check_signature-Decides x g p (few g e) in
        let formed : IsWellFormed g = Safely-ok IsWellFormed e (decode-Safely r raw) in
        let (split, join) = both_true (all_ok rs) s.is_ok in
        let last = all_ok-last rs s in
        (
          pass inv_well_formed ∷ (rs ++ s ∷ []),
          rw (e, e1, e2) refl,
          (
            (λ h.
                let (light, signed) = split (sym last ∙ h) in
                (g, e, formed, to light, to_signed signed)),
            λ (g', e', w, l, signed).
                let same = same_value e e' in
                last ∙ join (from (rw same l), from_signed (rw same signed)),
          ),
        )
  ]

  -- RunAll panics on a document that decodes to a gentx with an ed25519 consensus key and sign mode
  -- SIGN_MODE_LEGACY_AMINO_JSON whose multisig signer, with amino modes only, has a bitarray with fewer
  -- bits than there are keys although bitCount is their number, if the launch has a chain-id.
  pub run_all-panic :
      (r : Readers) (raw : Bytes) (p : Params) (g : ParsedGentx) (ms : MultisigSigner)
      → decode r raw ≡ ok g
      → ¬ (p.chain_id ≡ [])
      → IsAmino g
      → g.signer.multisig ≡ some ms
      → IsShort ms
      → run_all x r raw p ≡ panic
  unfolding run_all
  run_all-panic r raw p g ms e set k m o =
      let (rs, e1, passes) = light_checks-PassesLight x g p in
      rw (e, e1, check_signature-panic x g p ms set k m o) refl
