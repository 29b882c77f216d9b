-- ===== src/Args/Laws.antt =====
-- What the settings of the program are, and that they reach the configuration of the model.
use neural_autoscaler.Base.{ℕ, suc, ◌≡◌, refl, String, false, eq_iff, Option, none, some, arith}
use neural_autoscaler.Base.Int.{ℤ, pos, leb_ℤ}
use neural_autoscaler.Base.Dict.{lookup}
use neural_autoscaler.Base.Decimal.{format_int}
use neural_autoscaler.Base.Ink.{format_int-ink}
use neural_autoscaler.Base.Text.{trim_space}
use neural_autoscaler.Base.Result.{ok}
use neural_autoscaler.Api.Source.{blank}
use neural_autoscaler.Onnx.Config.{
  System, or_else, parse_model_family, resolve_model_family, config_from_forecast,
}
use neural_autoscaler.Args.{
  Flags, Args, given_or, get_env, parse_flags, resolve_env_fallbacks, init, forecast_options,
}

or_else_twice :
    (given : Option String) (text : String)
    → or_else (given_or (or_else text "") given) text ≡ or_else (given_or "" given) text
or_else_twice none text = ground (arith, eq_iff text "")
or_else_twice (some given) text = refl

-- The path, the family and the library of the model are those of the flags, where these are given and not
-- empty, and else those of the environment.
init-flags :
    (getenv : String → String) (atoi : String → Option ℤ) (flags : Flags)
    → let args = init getenv atoi flags in
      (args.model_path ≡ or_else (given_or "" flags.model_path) (getenv "MODEL_PATH"))
      × (args.model_family
          ≡ or_else (given_or "" flags.model_family) (getenv "FORECAST_MODEL_FAMILY"))
      × (args.onnx_runtime_lib_path
          ≡ or_else (given_or "" flags.onnx_runtime_lib_path) (getenv "ONNX_RUNTIME_LIB_PATH"))
unfolding init parse_flags resolve_env_fallbacks get_env
init-flags getenv atoi flags = (
  or_else_twice flags.model_path (getenv "MODEL_PATH"),
  or_else_twice flags.model_family (getenv "FORECAST_MODEL_FAMILY"),
  or_else_twice flags.onnx_runtime_lib_path (getenv "ONNX_RUNTIME_LIB_PATH"),
)

positive_suc : (n : ℕ) → leb_ℤ (pos (suc n)) (pos 0) ≡ false
positive_suc n = ground arith

module _ {E : Type 0} (system : System E) where
  -- The configuration that is read back from the options of the program has its settings, without the space
  -- around the paths, if `Atoi` reads back the numbers as `Itoa` writes them, these are positive, the
  -- family is given, and the model is there under a path that is not blank.
  pub config_from_forecast-forecast_options :
      (args : Args) (max_context version : ℕ)
      → args.timesfm_max_context ≡ pos (suc max_context)
      → args.onnx_runtime_api_version ≡ pos (suc version)
      → system.atoi (format_int (pos (suc max_context))) ≡ some (pos (suc max_context))
      → system.atoi (format_int (pos (suc version))) ≡ some (pos (suc version))
      → system.atoi (format_int (pos 4)) ≡ some (pos 4)
      → blank args.model_path ≡ false
      → blank args.model_family ≡ false
      → system.stat (trim_space args.model_path) ≡ none
      → config_from_forecast system (forecast_options args)
        ≡ ok (record {
          model_family = parse_model_family system.to_lower args.model_family;
          model_path = trim_space args.model_path;
          max_context = args.timesfm_max_context;
          runtime_lib_path = trim_space args.onnx_runtime_lib_path;
          ort_api_version = args.onnx_runtime_api_version;
          intra_op_threads = pos 4;
          input_name = "past_values";
          mean_output_name = "mean_predictions";
          full_output_name = "full_predictions";
          batch_size = pos 2;
          num_output_patches = pos 4;
        })
  unfolding config_from_forecast forecast_options lookup resolve_model_family
  config_from_forecast-forecast_options args max_context version e_context e_version reads_context
        reads_version reads_threads path family there =
      rw (e_context, e_version)
        (simp
          (
            path,
            there,
            family,
            format_int-ink (suc version),
            format_int-ink (suc max_context),
            format_int-ink 4,
            reads_version,
            reads_context,
            reads_threads,
            positive_suc version,
            positive_suc max_context,
          )
          refl)
