-- ===== src/Wasm/Surfaces.antt =====
-- How the results, failures and panics of a runner reach the browser.
use seedward_libs.Base.{true, List, [], ◌∷◌, ◌≡◌, refl, inl, inr, Bytes}
use seedward_libs.Errors.{reply, Outcome, ok, Outcome-cases, Reply-cases}
use seedward_libs.Gentx.{Params}
use seedward_libs.Report.{
  Result, Reason, fail, all_ok, inv_well_formed, internal_error, wrong_arguments,
  invalid_params_json, marshal_results_error,
}
use seedward_libs.Wasm.{Browser, bytes_or_none, error_json, runner}

module _ (w : Browser) where
  -- The JSON that the browser sees is that of `results`.
  abbrev pub Shows : Bytes → List Result → Type 0
  Shows out results = out ≡ bytes_or_none (w.marshal_results results)

  -- If every result shown has passed, it is one that the run returned.
  abbrev pub Surfaces :
      (Bytes → Params → Outcome (List Result)) → List w.JsValue → List Result → Type 0
  Surfaces run args results =
      (all_ok results ≡ true)
      → (gentx : w.JsValue) × (params : w.JsValue) × (args ≡ gentx ∷ params ∷ [])
        × (p : Params) × (w.unmarshal_params (w.to_string params) ≡ reply p)
        × (run (w.to_string gentx) p ≡ ok results)

  failed :
      (run : Bytes → Params → Outcome (List Result)) (args : List w.JsValue) (why : Reason)
      → (results : List Result) × Shows (error_json w why) results × Surfaces run args results
  unfolding error_json all_ok
  failed run args why = (fail inv_well_formed why ∷ [], refl, λ h. cc)

  -- Whatever the arguments, the browser gets the JSON of a list of results, also when the run panics;
  -- and if all of them have passed there were two arguments, the second one the JSON of the params, and
  -- the results are what the run returned on them.
  pub runner-Surfaces :
      (run : Bytes → Params → Outcome (List Result)) (args : List w.JsValue)
      → (results : List Result) × Shows (runner w run args) results × Surfaces run args results
  unfolding runner
  runner-Surfaces run [] = failed run [] wrong_arguments
  runner-Surfaces run (a ∷ []) = failed run (a ∷ []) wrong_arguments
  runner-Surfaces run (a ∷ b ∷ c ∷ more) = failed run (a ∷ b ∷ c ∷ more) wrong_arguments
  runner-Surfaces run (a ∷ b ∷ []) = elim (Reply-cases (w.unmarshal_params (w.to_string b))) [
    | inr (e, h) ↦ rw h (failed run (a ∷ b ∷ []) (invalid_params_json e))
    | inl (p, h) ↦ rw h (elim (Outcome-cases (run (w.to_string a) p)) [
      | inr (inr e) ↦ rw e (failed run (a ∷ b ∷ []) internal_error)
      | inr (inl (er, e)) ↦ rw e (failed run (a ∷ b ∷ []) internal_error)
      | inl (rs, e) ↦ rw e (elim (Reply-cases (w.marshal_results rs)) [
        | inl (out, m) ↦ (rs, rw m refl, λ all. (a, b, refl, p, h, e))
        | inr (er, m) ↦ rw m (failed run (a ∷ b ∷ []) (marshal_results_error er))
      ])
    ])
  ]
