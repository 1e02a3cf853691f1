-- ===== src/Wasm.antt =====
-- cmd/gentxvalidate-wasm/main.go: the two functions that the browser build registers. The JavaScript
-- runtime and the JSON of Params and of results are parameters.
pub mod Surfaces
use seedward_libs.Base.{List, [], ◌∷◌, Bytes}
use seedward_libs.Decode.{Readers}
use seedward_libs.Errors.{Reply, reply, refusal, Outcome, ok, err, panic}
use seedward_libs.External.{External}
use seedward_libs.Gentx.{Params}
use seedward_libs.Report.{
  Result, Reason, fail, inv_well_formed, internal_error, wrong_arguments, invalid_params_json,
  marshal_results_error,
}
use seedward_libs.Runner.{run_light, run_all}

pub record Browser : Type 1 where
  pub JsValue : Type 0
  -- js.Value's String, which does not panic
  pub to_string : JsValue → Bytes
  -- json.Unmarshal into Params, and json.Marshal of a []Result
  pub unmarshal_params : Bytes → Reply Params
  pub marshal_results : List Result → Reply Bytes

-- `bz, _ := json.Marshal(…)`: a failure leaves no bytes.
abbrev pub bytes_or_none : Reply Bytes → Bytes
bytes_or_none (reply b) = b
bytes_or_none (refusal e) = []

module _ (w : Browser) where
  unfoldable pub error_json : Reason → Bytes
  error_json reason = bytes_or_none (w.marshal_results (fail inv_well_formed reason ∷ []))

  abbrev pub show_marshalled : Reply Bytes → Bytes
  show_marshalled (reply b) = b
  show_marshalled (refusal e) = error_json (marshal_results_error e)

  -- The function behind `recover`. RunLight and RunAll return no error value.
  abbrev pub recovered : Outcome (List Result) → Bytes
  recovered (ok results) = show_marshalled (w.marshal_results results)
  recovered (err e) = error_json internal_error
  recovered panic = error_json internal_error

  abbrev pub with_params : (Bytes → Params → Outcome (List Result)) → Bytes → Reply Params → Bytes
  with_params run gentx (reply p) = recovered (run gentx p)
  with_params run gentx (refusal e) = error_json (invalid_params_json e)

  unfoldable pub runner : (Bytes → Params → Outcome (List Result)) → List w.JsValue → Bytes
  runner run (gentx ∷ params ∷ []) =
      with_params run (w.to_string gentx) (w.unmarshal_params (w.to_string params))
  runner run [] = error_json wrong_arguments
  runner run (a ∷ []) = error_json wrong_arguments
  runner run (a ∷ b ∷ c ∷ more) = error_json wrong_arguments

  module _ (x : External) (r : Readers) where
    abbrev pub seedward_run_light : List w.JsValue → Bytes
    seedward_run_light = runner (λ raw p. run_light x r raw p)

    abbrev pub seedward_run_all : List w.JsValue → Bytes
    seedward_run_all = runner (λ raw p. run_all x r raw p)
