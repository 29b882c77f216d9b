-- ===== src/Args.antt =====
-- cmd/args/args.go: the settings of the program, from the command line and the environment. The
-- packages flag and os are parameters: the value of each flag that is given, and a function from the
-- name of a variable to its text, `""` if it is not set. So is `strconv.Atoi`.
pub mod Laws
use neural_autoscaler.Base.{
  String, Bool, true, false, ◌==◌, Option, none, some, List, [], ◌∷◌, if◌then◌else◌,
}
use neural_autoscaler.Base.Int.{ℤ, pos}
use neural_autoscaler.Base.Dict.{Dict}
use neural_autoscaler.Base.Decimal.{format_int}
use neural_autoscaler.Onnx.Config.{or_else}

-- The flags on the command line.
pub record Flags : Type 0 where
  pub metrics_bind_address : Option String
  pub health_probe_bind_address : Option String
  pub leader_elect : Option Bool
  pub model_path : Option String
  pub model_family : Option String
  pub timesfm_max_context : Option ℤ
  pub onnx_runtime_lib_path : Option String
  pub onnx_runtime_api_version : Option ℤ

-- The variables of the package.
pub record Args : Type 0 where
  pub metrics_addr : String
  pub probe_addr : String
  pub enable_leader_election : Bool
  pub model_path : String
  pub model_family : String
  pub timesfm_max_context : ℤ
  pub onnx_runtime_lib_path : String
  pub onnx_runtime_api_version : ℤ

abbrev pub given_or {ℓ} : {A : Type ℓ} → A → Option A → A
given_or fallback none = fallback
given_or fallback (some a) = a

module _ (getenv : String → String) (atoi : String → Option ℤ) where
  unfoldable pub get_env : (key fallback : String) → String
  get_env key fallback = or_else (getenv key) fallback

  unfoldable get_env_int : (key : String) → (fallback : ℤ) → ℤ
  get_env_int key fallback =
      if getenv key == "" then fallback else given_or fallback (atoi (getenv key))

  unfoldable pub parse_flags : Flags → Args
  unfolding get_env get_env_int
  parse_flags flags = record {
    metrics_addr = given_or ":8080" flags.metrics_bind_address;
    probe_addr = given_or ":8081" flags.health_probe_bind_address;
    enable_leader_election = given_or false flags.leader_elect;
    model_path = given_or (get_env "MODEL_PATH" "") flags.model_path;
    model_family = given_or (get_env "FORECAST_MODEL_FAMILY" "") flags.model_family;
    timesfm_max_context = given_or (pos 1024) flags.timesfm_max_context;
    onnx_runtime_lib_path =
        given_or (get_env "ONNX_RUNTIME_LIB_PATH" "") flags.onnx_runtime_lib_path;
    onnx_runtime_api_version =
        given_or (get_env_int "ONNX_RUNTIME_API_VERSION" (pos 23)) flags.onnx_runtime_api_version;
  }

  unfoldable pub resolve_env_fallbacks : Args → Args
  resolve_env_fallbacks args = record args {
    model_path = or_else args.model_path (getenv "MODEL_PATH");
    model_family = or_else args.model_family (getenv "FORECAST_MODEL_FAMILY");
    onnx_runtime_lib_path = or_else args.onnx_runtime_lib_path (getenv "ONNX_RUNTIME_LIB_PATH");
  }

  unfoldable pub init : Flags → Args
  unfolding parse_flags resolve_env_fallbacks
  init flags = resolve_env_fallbacks (parse_flags flags)

unfoldable forecast_enabled : Args → Bool
forecast_enabled args = if args.model_path == "" then false else true

unfoldable pub forecast_options : Args → Dict String
forecast_options args =
    ("model_path", args.model_path)
    ∷ ("model_family", args.model_family)
    ∷ ("max_context", format_int args.timesfm_max_context)
    ∷ ("runtime_lib_path", args.onnx_runtime_lib_path)
    ∷ ("ort_api_version", format_int args.onnx_runtime_api_version)
    ∷ ("intra_op_threads", format_int (pos 4))
    ∷ []
